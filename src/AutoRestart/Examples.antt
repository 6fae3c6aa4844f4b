-- ===== src/AutoRestart/Examples.antt =====
-- Runs of the restart tracker (crates/pengu-mesh-core/src/autorestart.rs).
use pengu_mesh.Prelude.{ℕ, ◌*◌, ◌^◌, ◌≤◌, ◌<◌, ◌≡◌, refl, ◌⊎◌, arith, List, [], ◌∷◌, length}
use pengu_mesh.AutoRestart.{
  default_config, new_tracker, restart, give_up, should_restart, record_crash, record_start,
  RestartTracker,
}
use pengu_mesh.AutoRestart.Episodes.{Life, lives, restarts_bounded}

-- The product where nothing overflows, with the default factor 2.
abbrev doubling : ℕ → ℕ → ℕ
doubling initial exponent = initial * 2 ^ exponent

abbrev short : Life
short = record { started_at = 5; uptime_ms = 100 }

abbrev long : Life
long = record { started_at = 1000; uptime_ms = 400000 }

abbrev two : List Life
two = short ∷ short ∷ []

second_delay : should_restart doubling (lives (new_tracker default_config) two) ≡ restart 4000
unfolding should_restart lives record_crash record_start
second_delay = refl

restarts_bounded_example :
    ((length two ≤ 3)
      × ((d : ℕ) × (should_restart doubling (lives (new_tracker default_config) two) ≡ restart d)
          × (d ≤ 60000)))
    ⊎ ((3 < length two)
        × (should_restart doubling (lives (new_tracker default_config) two)
            ≡ give_up (length two) 3))
restarts_bounded_example =
    restarts_bounded doubling default_config two (omega arith, (omega arith, tt))

abbrev worn : RestartTracker
worn = record (new_tracker default_config) { attempts = 3 }
