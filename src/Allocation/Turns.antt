-- ===== src/Allocation/Turns.antt =====
-- The turns of the round-robin policy (crates/pengu-mesh-core/src/allocation.rs).
use native.Mathlib.Nat.{mod-lt, mod-add-mod, mod-eq_of_lt, add-mod_right}
use pengu_mesh.Prelude.{
  ℕ, zero, suc, ◌+◌, ◌-◌, ◌%◌, ◌<◌, ◌≤◌, ◌≡◌, refl, sym, ap, ◌∙◌, inl, inr, false, Option, some,
  List, [], ◌∷◌, arith, Bool-cases, leb, leb→le, Text, length, get_elem?, is_empty, Memᴰ, Result,
  ok,
}
use pengu_mesh.Allocation.{
  Candidate, AllocationError, Policy, round_robin, word, available_of, id_at, round_robin_select,
  select,
}

-- The outcome of the call of `select` that `i` calls on the same candidates come before.
unfoldable pub turn : ℕ → Policy → List Candidate → Option (Result Text AllocationError)
turn zero p cs = (select p cs).0
turn (suc i) p cs = turn i (select p cs).1 cs

empty_keep : (cs : List Candidate) → is_empty (available_of cs) ≡ false → is_empty cs ≡ false
empty_keep [] e = cc
empty_keep (c ∷ cs) e = refl

module _ (cs : List Candidate) (some_one : is_empty (available_of cs) ≡ false) where
  select_turn :
      (last : ℕ)
      → select (round_robin last) cs ≡ (
        id_at (get_elem? (available_of cs) (last % length (available_of cs))),
        round_robin ((last + 1) % word),
      )
  unfolding select round_robin_select
  select_turn last = rw (empty_keep cs some_one, some_one) refl

  turn_lem :
      (i last : ℕ)
      → last + i < word
      → turn i (round_robin last) cs
        ≡ id_at (get_elem? (available_of cs) ((last + i) % length (available_of cs)))
  unfolding turn
  turn_lem zero last h =
      let here : last ≡ last + 0 = omega arith in
      ap (λ r. r.0) (select_turn last)
      ∙ ap (λ n. id_at (get_elem? (available_of cs) (n % length (available_of cs)))) here
  turn_lem (suc i) last h =
      let next : (last + 1) % word ≡ last + 1 = mod-eq_of_lt (omega arith) in
      let shift : last + 1 + i ≡ last + suc i = omega arith in
      ap (λ (r : Option (Result Text AllocationError) × Policy). turn i r.1 cs) (select_turn last)
      ∙ ap (λ n. turn i (round_robin n) cs) next
      ∙ turn_lem i (last + 1) (omega arith)
      ∙ ap (λ n. id_at (get_elem? (available_of cs) (n % length (available_of cs)))) shift

-- Within any `n` numbers in a row, one has a given remainder modulo `n`.
mod_window : (last j n : ℕ) → j < n → (i : ℕ) × (i < n) × ((last + i) % n ≡ j)
mod_window last j n h =
    let r = last % n in
    let small : r < n = mod-lt last (omega arith) in
    elim (Bool-cases (leb r j)) [
      | inl e ↦ (
        j - r,
        omega (arith, leb→le r j e),
        sym (mod-add-mod last n (j - r)) ∙ inside (j - r) (omega (arith, leb→le r j e)),
      )
      | inr e ↦ (
        j + n - r,
        ground arith,
        sym (mod-add-mod last n (j + n - r)) ∙ beyond (j + n - r) (ground arith),
      )
    ]
  where
    inside : (i : ℕ) → last % n + i ≡ j → (last % n + i) % n ≡ j
    inside i e = ap (λ k. k % n) e ∙ mod-eq_of_lt h

    beyond : (i : ℕ) → last % n + i ≡ j + n → (last % n + i) % n ≡ j
    beyond i e = ap (λ k. k % n) e ∙ add-mod_right j n ∙ mod-eq_of_lt h

index_of :
    {A : Type 0} {x : A} (xs : List A)
    → Memᴰ x xs
    → (j : ℕ) × (j < length xs) × (get_elem? xs j ≡ some x)
index_of [] m = elim m [ ]
index_of (y ∷ xs) (Memᴰ.head e) = (0, omega arith, ap some (sym e))
index_of (y ∷ xs) (Memᴰ.tail m) = let (j, h, e) = index_of xs m in (suc j, omega arith, e)

mem_nonempty : {A : Type 0} {x : A} (xs : List A) → Memᴰ x xs → is_empty xs ≡ false
mem_nonempty [] m = elim m [ ]
mem_nonempty (y ∷ xs) m = refl

-- The round-robin policy starves no one: while the candidates stay the same and the index does not
-- wrap around, each available one is chosen within as many calls as there are available ones.
pub round_robin_fair :
    (cs : List Candidate) (last : ℕ) (c : Candidate)
    → Memᴰ c (available_of cs)
    → last + length (available_of cs) ≤ word
    → (i : ℕ) × (i < length (available_of cs))
      × (turn i (round_robin last) cs ≡ some (ok c.instance_id))
round_robin_fair cs last c m h =
    let (j, jn, at) = index_of (available_of cs) m in
    let (i, iless, e) = mod_window last j (length (available_of cs)) jn in
    let some_one : is_empty (available_of cs) ≡ false = mem_nonempty (available_of cs) m in
    (
      i,
      iless,
      turn_lem cs some_one i last (omega arith)
          ∙ ap (λ k. id_at (get_elem? (available_of cs) k)) e
          ∙ ap id_at at,
    )
