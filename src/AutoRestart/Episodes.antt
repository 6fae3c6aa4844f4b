-- ===== src/AutoRestart/Episodes.antt =====
-- Crashes and restarts in a row (crates/pengu-mesh-core/src/autorestart.rs).
use pengu_mesh.Prelude.{
  ℕ, ◌+◌, ◌-◌, ◌≤◌, ◌<◌, ◌≡◌, refl, ap, ◌∙◌, ◌⊎◌, inl, inr, true, List, [], ◌∷◌, arith, leb, ltb,
  length, All, Bool-cases,
}
use pengu_mesh.AutoRestart.{
  RestartConfig, restart, give_up, RestartTracker, new_tracker, record_start, record_crash, reset,
  should_restart,
}

-- A life of the browser: when it was started, and how long it ran until it crashed.
pub record Life : Type 0 where
  pub started_at : ℕ
  pub uptime_ms : ℕ

abbrev pub live : RestartTracker → Life → RestartTracker
live r l = record_crash (record_start r l.started_at) (l.started_at + l.uptime_ms)

unfoldable pub lives : RestartTracker → List Life → RestartTracker
lives r [] = r
lives r (l ∷ ls) = lives (live r l) ls

lives-config : (ls : List Life) (r : RestartTracker) → (lives r ls).config ≡ r.config
unfolding lives record_crash record_start
lives-config [] r = refl
lives-config (l ∷ ls) r = lives-config ls (live r l)

-- Crashes before the stable period add up.
lives_unstable :
    (ls : List Life) (r : RestartTracker)
    → All (λ l. l.uptime_ms < r.config.stable_period_ms) ls
    → (lives r ls).attempts ≡ r.attempts + length ls
unfolding lives record_crash record_start
lives_unstable [] r h = omega arith
lives_unstable (l ∷ ls) r h =
    let one : (live r l).attempts ≡ r.attempts + 1 = ground (arith, h.0) in
    lives_unstable ls (live r l) h.1 ∙ ap (λ k. k + length ls) one ∙ omega arith

decision :
    (backoff : ℕ → ℕ → ℕ) (r : RestartTracker) (c : RestartConfig) (n : ℕ)
    → r.attempts ≡ n
    → r.config ≡ c
    → ((n ≤ c.max_restarts)
        × ((d : ℕ) × (should_restart backoff r ≡ restart d) × (d ≤ c.max_delay_ms)))
      ⊎ ((c.max_restarts < n) × (should_restart backoff r ≡ give_up n c.max_restarts))
unfolding should_restart
decision backoff r c n e same = elim (Bool-cases (ltb c.max_restarts n)) [
  | inl over ↦ rw (same, e, over) (inr (ground arith, refl))
  | inr within ↦ rw (same, e, within) (inl (ground arith, (_, refl, omega arith)))
]

-- A browser that keeps crashing before the stable period is restarted for each of the first
-- `max_restarts` crashes, after a delay within the bound, and for no later one.
pub restarts_bounded :
    (backoff : ℕ → ℕ → ℕ) (c : RestartConfig) (ls : List Life)
    → All (λ l. l.uptime_ms < c.stable_period_ms) ls
    → ((length ls ≤ c.max_restarts)
        × ((d : ℕ) × (should_restart backoff (lives (new_tracker c) ls) ≡ restart d)
            × (d ≤ c.max_delay_ms)))
      ⊎ ((c.max_restarts < length ls)
          × (should_restart backoff (lives (new_tracker c) ls)
              ≡ give_up (length ls) c.max_restarts))
restarts_bounded backoff c ls h =
    let n : (lives (new_tracker c) ls).attempts ≡ length ls =
      lives_unstable ls (new_tracker c) h ∙ omega arith in
    let same : (lives (new_tracker c) ls).config ≡ c = lives-config ls (new_tracker c) in
    decision backoff (lives (new_tracker c) ls) c (length ls) n same

-- After a life of at least the stable period the count starts again: the next crash is the first,
-- and the tracker is as if it had been reset before that life.
pub stable_life_forgives :
    (r : RestartTracker) (l : Life)
    → r.config.stable_period_ms ≤ l.uptime_ms
    → ((live r l).attempts ≡ 1) × (live r l ≡ live (reset r) l)
unfolding record_crash record_start reset
stable_life_forgives r l h =
    let long : leb r.config.stable_period_ms (l.started_at + l.uptime_ms - l.started_at) ≡ true =
      ground arith in
    rw long (refl, refl)
