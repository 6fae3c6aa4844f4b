-- ===== src/AutoRestart.antt =====
-- crates/pengu-mesh-core/src/autorestart.rs: when a browser that crashed is started again, and after
-- what delay. An instant is the number of milliseconds on the clock, which never goes back. The
-- product of the initial delay and a power of the backoff factor, in floating point and cut to
-- `u64`, is the parameter `backoff`; the factor is no field here.
pub mod Episodes
mod Examples
use pengu_mesh.Prelude.{ℕ, ◌+◌, ◌-◌, min, Bool, Option, none, some, leb, ltb, if◌then◌else◌}

pub record RestartConfig : Type 0 where
  pub max_restarts : ℕ
  pub initial_delay_ms : ℕ
  pub max_delay_ms : ℕ
  pub stable_period_ms : ℕ

abbrev pub default_config : RestartConfig
default_config = record {
  max_restarts = 3;
  initial_delay_ms = 2000;
  max_delay_ms = 60000;
  stable_period_ms = 300000;
}

-- `GiveUp` has the attempts and the maximum of its reason.
pub data RestartDecision : Type 0 where
  restart : ℕ → RestartDecision
  give_up : ℕ → ℕ → RestartDecision

pub record RestartTracker : Type 0 where
  pub attempts : ℕ
  pub last_crash_at : Option ℕ
  pub last_start_at : Option ℕ
  pub config : RestartConfig

abbrev pub new_tracker : RestartConfig → RestartTracker
new_tracker c = record { attempts = 0; last_crash_at = none; last_start_at = none; config = c }

unfoldable pub record_start : RestartTracker → ℕ → RestartTracker
record_start r now = record r { last_start_at = some now }

-- The attempts that `record_crash` goes on from.
abbrev pub attempts_before : RestartTracker → ℕ → Option ℕ → ℕ
attempts_before r now none = r.attempts
attempts_before r now (some start) =
    if leb r.config.stable_period_ms (now - start) then 0 else r.attempts

-- The attempts stay below `2 ^ 32`: a `u32` counts that many crashes.
unfoldable pub record_crash : RestartTracker → ℕ → RestartTracker
record_crash r now = record r {
  attempts = attempts_before r now r.last_start_at + 1;
  last_crash_at = some now;
}

unfoldable pub reset : RestartTracker → RestartTracker
reset r = record r { attempts = 0; last_crash_at = none; last_start_at = none }

module _ (backoff : ℕ → ℕ → ℕ) where
  unfoldable pub should_restart : RestartTracker → RestartDecision
  should_restart r =
      if ltb r.config.max_restarts r.attempts
      then give_up r.attempts r.config.max_restarts
      else restart (min (backoff r.config.initial_delay_ms (r.attempts - 1)) r.config.max_delay_ms)
