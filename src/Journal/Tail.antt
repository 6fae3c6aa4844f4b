-- ===== src/Journal/Tail.antt =====
-- What `tail_events` and `list_events_for_run` of crates/pengu-mesh-state/src/lib.rs return.
use pengu_mesh.Prelude.{
  ℕ, zero, suc, ◌-◌, ◌≤◌, ◌<◌, ◌≡◌, refl, sym, ap, ◌∙◌, inl, inr, ltb, leb, Bool, true, false,
  Option, some, List, [], ◌∷◌, ◌++◌, arith, Bool-cases, Text, length, length-append, keep, All,
  All-append, Pairwise,
}
use pengu_mesh.Tables.Query.{insert_by, order_by, limit}
use pengu_mesh.Journal.{
  RuntimeEvent, Journal, in_run, reversed, later, earlier, tail_events, list_events_for_run,
}

-- The sequence numbers rise, up to the counter.
pub record Sequenced (j : Journal) : Type 0 where
  pub rising : Pairwise (λ d e. d.sequence < e.sequence) j.events
  pub below : All (λ e. e.sequence ≤ j.last_sequence) j.events

-- The last `n` of a list.
abbrev pub drop {ℓ} : {A : Type ℓ} → ℕ → List A → List A
drop zero xs = xs
drop (suc n) [] = []
drop (suc n) (x ∷ xs) = drop n xs

abbrev pub last {ℓ} : {A : Type ℓ} → ℕ → List A → List A
last n xs = drop (length xs - n) xs

keep-Pairwise {ℓ κ} :
    {A : Type ℓ} (R : A → A → Type κ) (p : A → Bool) (xs : List A)
    → Pairwise R xs
    → Pairwise R (keep p xs)
keep-Pairwise R p [] h = tt
keep-Pairwise R p (x ∷ xs) h = elim (Bool-cases (p x)) [
  | inl e ↦ rw e (kept xs h.0, keep-Pairwise R p xs h.1)
  | inr e ↦ rw e (keep-Pairwise R p xs h.1)
]
  where
    kept : (ys : List _) → All (R x) ys → All (R x) (keep p ys)
    kept [] h = tt
    kept (y ∷ ys) h = elim (Bool-cases (p y)) [
      | inl e ↦ rw e (h.0, kept ys h.1)
      | inr e ↦ rw e (kept ys h.1)
    ]

insert-earlier :
    (e : RuntimeEvent) (es : List RuntimeEvent)
    → All (λ d. e.sequence < d.sequence) es
    → insert_by earlier e es ≡ e ∷ es
unfolding insert_by
insert-earlier e [] h = refl
insert-earlier e (d ∷ es) h =
    let no : ltb d.sequence e.sequence ≡ false = ground (arith, h.0) in rw no refl

order-earlier :
    (es : List RuntimeEvent)
    → Pairwise (λ d e. d.sequence < e.sequence) es
    → order_by earlier es ≡ es
unfolding order_by
order-earlier [] h = refl
order-earlier (e ∷ es) h = rw (order-earlier es h.1) (insert-earlier e es h.0)

insert-later :
    (e : RuntimeEvent) (es : List RuntimeEvent)
    → All (λ d. e.sequence < d.sequence) es
    → insert_by later e es ≡ es ++ e ∷ []
unfolding insert_by
insert-later e [] h = refl
insert-later e (d ∷ es) h =
    let yes : ltb e.sequence d.sequence ≡ true = ground (arith, h.0) in
    rw yes (ap (◌∷◌ d) (insert-later e es h.1))

reversed-All {ℓ κ} : {A : Type ℓ} (P : A → Type κ) (xs : List A) → All P xs → All P (reversed xs)
reversed-All P [] h = tt
reversed-All P (x ∷ xs) h = All-append P (reversed xs) (x ∷ []) (reversed-All P xs h.1) (h.0, tt)

order-later :
    (es : List RuntimeEvent)
    → Pairwise (λ d e. d.sequence < e.sequence) es
    → order_by later es ≡ reversed es
unfolding order_by
order-later [] h = refl
order-later (e ∷ es) h =
    rw (order-later es h.1) (insert-later e (reversed es) (reversed-All _ es h.0))

limit-append_short {ℓ} :
    {A : Type ℓ} (n : ℕ) (xs : List A) (a : A) → n ≤ length xs → limit n (xs ++ a ∷ []) ≡ limit n xs
unfolding limit
limit-append_short zero [] a h = refl
limit-append_short zero (x ∷ xs) a h = refl
limit-append_short (suc n) [] a h = absurd (ground (arith, h))
limit-append_short (suc n) (x ∷ xs) a h = ap (◌∷◌ x) (limit-append_short n xs a (ground (arith, h)))

limit-all {ℓ} : {A : Type ℓ} (n : ℕ) (xs : List A) → length xs ≤ n → limit n xs ≡ xs
unfolding limit
limit-all zero [] h = refl
limit-all zero (x ∷ xs) h = absurd (ground (arith, h))
limit-all (suc n) [] h = refl
limit-all (suc n) (x ∷ xs) h = ap (◌∷◌ x) (limit-all n xs (ground (arith, h)))

length-reversed {ℓ} : {A : Type ℓ} (xs : List A) → length (reversed xs) ≡ length xs
length-reversed [] = refl
length-reversed (x ∷ xs) = omega (arith, length-append (reversed xs) (x ∷ []), length-reversed xs)

reversed-append {ℓ} : {A : Type ℓ} (xs : List A) (a : A) → reversed (xs ++ a ∷ []) ≡ a ∷ reversed xs
reversed-append [] a = refl
reversed-append (x ∷ xs) a = ap (λ ys. ys ++ x ∷ []) (reversed-append xs a)

reversed_twice {ℓ} : {A : Type ℓ} (xs : List A) → reversed (reversed xs) ≡ xs
reversed_twice [] = refl
reversed_twice (x ∷ xs) = reversed-append (reversed xs) x ∙ ap (◌∷◌ x) (reversed_twice xs)

-- The first of the reversed list, reversed, are the last.
reversed-limit {ℓ} :
    {A : Type ℓ} (n : ℕ) (xs : List A) → reversed (limit n (reversed xs)) ≡ last n xs
unfolding limit
reversed-limit zero [] = refl
reversed-limit (suc n) [] = let none_left : 0 - suc n ≡ 0 = omega arith in rw none_left refl
reversed-limit n (x ∷ xs) = elim (Bool-cases (leb n (length xs))) [
  | inl e ↦
      let short : n ≤ length (reversed xs) = ground (arith, e, length-reversed xs) in
      let rest : length (x ∷ xs) - n ≡ suc (length xs - n) = ground (arith, e) in
      rw rest (ap reversed (limit-append_short n (reversed xs) x short) ∙ reversed-limit n xs)
  | inr e ↦
      let long : length (reversed (x ∷ xs)) ≤ n = ground (arith, e, length-reversed (x ∷ xs)) in
      let none_left : length (x ∷ xs) - n ≡ 0 = ground (arith, e) in
      rw none_left (ap reversed (limit-all n (reversed (x ∷ xs)) long) ∙ reversed_twice (x ∷ xs))
]

-- In a journal whose sequence numbers rise, `tail_events` returns the last `limit` events of the run, or
-- of all where none is given, in the order in which they were appended.
pub tail_events_lem :
    (j : Journal) (run_id : Option Text) (n : ℕ)
    → Sequenced j
    → tail_events j run_id n ≡ last n (keep (in_run run_id) j.events)
unfolding tail_events
tail_events_lem j run_id n v =
    let own = keep (in_run run_id) j.events in
    ap (λ es. reversed (limit n es))
      (order-later own (keep-Pairwise _ (in_run run_id) j.events v.rising))
    ∙ reversed-limit n own

-- In such a journal, `list_events_for_run` returns the events of the run in the order in which they were
-- appended: all that `tail_events` returns for a limit that is no less than their number.
pub list_events_for_run_lem :
    (j : Journal) (run_id : Text) (n : ℕ)
    → Sequenced j
    → (list_events_for_run j run_id ≡ keep (in_run (some run_id)) j.events)
      × (length (list_events_for_run j run_id) ≤ n
          → tail_events j (some run_id) n ≡ list_events_for_run j run_id)
unfolding list_events_for_run
list_events_for_run_lem j run_id n v =
    let own = keep (in_run (some run_id)) j.events in
    let e : order_by earlier own ≡ own =
      order-earlier own (keep-Pairwise _ (in_run (some run_id)) j.events v.rising) in
    (
      e,
      λ h.
          let all : length own - n ≡ 0 = omega (arith, h, ap length e) in
          tail_events_lem j (some run_id) n v ∙ ap (λ k. drop k own) all ∙ sym e,
    )
