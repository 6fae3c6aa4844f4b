-- ===== src/Journal/Append.antt =====
-- What `append_event` of crates/pengu-mesh-state/src/lib.rs changes of the events that are read back.
use pengu_mesh.Prelude.{
  keep-snoc, ℕ, zero, suc, ◌+◌, ◌-◌, ◌≤◌, ◌≡◌, refl, sym, ap, ◌∙◌, true, false, Option, none, some,
  List, [], ◌∷◌, ◌++◌, arith, if◌then◌else◌, Text, text_eq, text_eq_refl, length, length-append,
  keep, All-mono, All-append, Pairwise-snoc, Ensures, Ensures-unless,
}
use pengu_mesh.StableId.{stable_id, event}
use pengu_mesh.Tables.{key_taken}
use pengu_mesh.Journal.{
  RuntimeEvent, EventLevel, Journal, constraint_failed, event_key, append_event, in_run,
  tail_events,
}
use pengu_mesh.Journal.Tail.{Sequenced, drop, last, tail_events_lem}

drop-append {ℓ} :
    {A : Type ℓ} (k : ℕ) (xs ys : List A) → k ≤ length xs → drop k (xs ++ ys) ≡ drop k xs ++ ys
drop-append zero xs ys h = refl
drop-append (suc k) [] ys h = absurd (ground (arith, h))
drop-append (suc k) (x ∷ xs) ys h = drop-append k xs ys (ground (arith, h))

last-append {ℓ} :
    {A : Type ℓ} (n : ℕ) (xs : List A) (a : A) → last (n + 1) (xs ++ a ∷ []) ≡ last n xs ++ a ∷ []
last-append n xs a =
    let same : length (xs ++ a ∷ []) - (n + 1) ≡ length xs - n =
      omega (arith, length-append xs (a ∷ [])) in
    ap (λ k. drop k (xs ++ a ∷ [])) same ∙ drop-append (length xs - n) xs (a ∷ []) (omega arith)

-- What an event that was appended for a run changes.
pub record Appended (j j' : Journal) (run_id : Text) (e : RuntimeEvent) : Type 0 where
  pub sequenced : Sequenced j'
  pub own : (n : ℕ) → tail_events j' (some run_id) (n + 1) ≡ tail_events j (some run_id) n ++ e ∷ []
  pub all : (n : ℕ) → tail_events j' none (n + 1) ≡ tail_events j none n ++ e ∷ []
  pub others :
      (other : Text) (n : ℕ)
      → text_eq run_id other ≡ false
      → tail_events j' (some other) n ≡ tail_events j (some other) n

snoc-Sequenced :
    (j : Journal) (e : RuntimeEvent)
    → Sequenced j
    → e.sequence ≡ j.last_sequence + 1
    → Sequenced (record j { events = j.events ++ e ∷ []; last_sequence = e.sequence })
snoc-Sequenced j e v next = record {
  rising =
      Pairwise-snoc _ j.events e v.rising
        (All-mono _ _ j.events (λ d h. omega (arith, next, h)) v.below);
  below =
      All-append _ j.events (e ∷ []) (All-mono _ _ j.events (λ d h. omega (arith, next, h)) v.below)
        (omega arith, tt);
}

tail-snoc :
    (j j' : Journal) (e : RuntimeEvent) (run_id : Option Text) (n : ℕ)
    → Sequenced j
    → Sequenced j'
    → j'.events ≡ j.events ++ e ∷ []
    → in_run run_id e ≡ true
    → tail_events j' run_id (n + 1) ≡ tail_events j run_id n ++ e ∷ []
tail-snoc j j' e run_id n v v' same own =
    let own_events = keep (in_run run_id) j.events in
    tail_events_lem j' run_id (n + 1) v'
    ∙ ap (λ es. last (n + 1) (keep (in_run run_id) es)) same
    ∙ ap (last (n + 1)) (
        keep-snoc (in_run run_id) j.events e
        ∙ ap (λ b. if b then own_events ++ e ∷ [] else own_events) own)
    ∙ last-append n own_events e
    ∙ ap (λ es. es ++ e ∷ []) (sym (tail_events_lem j run_id n v))

tail-snoc_other :
    (j j' : Journal) (e : RuntimeEvent) (run_id : Option Text) (n : ℕ)
    → Sequenced j
    → Sequenced j'
    → j'.events ≡ j.events ++ e ∷ []
    → in_run run_id e ≡ false
    → tail_events j' run_id n ≡ tail_events j run_id n
tail-snoc_other j j' e run_id n v v' same other =
    let own_events = keep (in_run run_id) j.events in
    tail_events_lem j' run_id n v'
    ∙ ap (λ es. last n (keep (in_run run_id) es)) same
    ∙ ap (last n) (
        keep-snoc (in_run run_id) j.events e
        ∙ ap (λ b. if b then own_events ++ e ∷ [] else own_events) other)
    ∙ sym (tail_events_lem j run_id n v)

-- Where the sequence numbers of a journal rise, an event that is appended without an error keeps them
-- rising, comes last in the tails of its run and of all runs, after what they held, and changes the
-- tail of no other run.
pub append_event_lem :
    (j : Journal) (run_id category action : Text) (level : EventLevel) (message : Text)
    (instance_id tab_id artifact_id : Option Text) (payload suffix now : Text)
    → Sequenced j
    → Ensures
        (λ p. Appended j p.1 run_id p.0)
        (append_event j run_id category action level message instance_id tab_id artifact_id payload
          suffix now)
unfolding append_event
append_event_lem j run_id category action level message instance_id tab_id artifact_id payload
      suffix now v =
    Ensures-unless (λ p. Appended j p.1 run_id p.0)
      (key_taken event_key j.events (stable_id event suffix)) constraint_failed _
      (λ _.
        let v' = snoc-Sequenced j _ v refl in
        record {
          sequenced = v';
          own = λ n. tail-snoc j _ _ (some run_id) n v v' refl (text_eq_refl run_id);
          all = λ n. tail-snoc j _ _ none n v v' refl refl;
          others = λ other n ne. tail-snoc_other j _ _ (some other) n v v' refl ne;
        })
