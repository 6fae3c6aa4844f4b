-- ===== src/Allocation/Choice.antt =====
-- What a policy of crates/pengu-mesh-core/src/allocation.rs chooses.
use native.Mathlib.Nat.{mod-lt}
use pengu_mesh.Prelude.{
  ℕ, zero, suc, ◌%◌, ◌<◌, ◌≡◌, refl, ◌⊎◌, inl, inr, true, false, Option, none, some, List, [], ◌∷◌,
  arith, if◌then◌else◌, Bool-cases, Option-cases, Text, codes, text_eq, length, get_elem?, is_empty,
  keep-nil, keep-mem, kept_passes, find_first, find_first-mem, exists, All, Memᴰ, Result, ok, err,
}
use pengu_mesh.Allocation.{
  Candidate, AllocationError, no_candidates, none_available, unknown_policy, Policy, fcfs,
  round_robin, random, available_of, id_at, next_u64, fcfs_select, round_robin_select,
  random_select, select, supported_policy_names, create_policy,
}

-- How a selection ends: there is no candidate, or none is available, and the policy stays as it is;
-- or an available candidate is chosen.
pub data Selected (p : Policy) (cs : List Candidate)
    : Option (Result Text AllocationError) × Policy → Type 0 where
  no_one : cs ≡ [] → Selected p cs (some (err no_candidates), p)
  all_busy :
      is_empty cs ≡ false
      → All (λ c. c.available ≡ false) cs
      → Selected p cs (some (err none_available), p)
  chosen :
      (c : Candidate) (p' : Policy)
      → Memᴰ c cs
      → c.available ≡ true
      → Selected p cs (some (ok c.instance_id), p')

is_empty_lem : {A : Type 0} (xs : List A) → is_empty xs ≡ true → xs ≡ []
is_empty_lem [] e = refl
is_empty_lem (x ∷ xs) e = cc

get_elem-mem :
    {A : Type 0} (xs : List A) (i : ℕ)
    → i < length xs
    → (x : A) × Memᴰ x xs × (get_elem? xs i ≡ some x)
get_elem-mem [] i h = absurd (omega arith)
get_elem-mem (x ∷ xs) zero h = (x, Memᴰ.head refl, refl)
get_elem-mem (x ∷ xs) (suc i) h =
    let (y, m, e) = get_elem-mem xs i (omega arith) in (y, Memᴰ.tail m, e)

length_pos : {A : Type 0} (xs : List A) → is_empty xs ≡ false → 0 < length xs
length_pos [] e = cc
length_pos (x ∷ xs) e = omega arith

find_first-none :
    (cs : List Candidate)
    → find_first (λ c. c.available) cs ≡ none
    → All (λ c. c.available ≡ false) cs
find_first-none [] e = tt
find_first-none (c ∷ cs) e = elim (Bool-cases c.available) [
  | inl t ↦ absurd (ground arith)
  | inr f ↦ (f, find_first-none cs (ground arith))
]

indexed-Selected :
    (p p' : Policy) (cs : List Candidate) (k : ℕ)
    → Selected p cs (
        if is_empty cs
        then (some (err no_candidates), p)
        else if is_empty (available_of cs)
        then (some (err none_available), p)
        else (id_at (get_elem? (available_of cs) (k % length (available_of cs))), p'))
indexed-Selected p p' cs k = elim (Bool-cases (is_empty cs)) [
  | inl e ↦ rw e (no_one (is_empty_lem cs e))
  | inr some_one ↦ elim (Bool-cases (is_empty (available_of cs))) [
    | inl e ↦
        rw (some_one, e) (all_busy some_one (keep-nil _ cs (is_empty_lem (available_of cs) e)))
    | inr e ↦
        let (c, m, at) =
          get_elem-mem (available_of cs) (k % length (available_of cs))
            (mod-lt k (length_pos (available_of cs) e)) in
        rw (some_one, e, at) (chosen c p' (keep-mem _ cs m) (kept_passes _ cs m))
  ]
]

fcfs-Selected : (cs : List Candidate) → Selected fcfs cs (some (fcfs_select cs), fcfs)
unfolding fcfs_select
fcfs-Selected cs = elim (Bool-cases (is_empty cs)) [
  | inl e ↦ rw e (no_one (is_empty_lem cs e))
  | inr some_one ↦ elim (Option-cases (find_first (λ c. c.available) cs)) [
    | inl e ↦ rw (some_one, e) (all_busy some_one (find_first-none cs e))
    | inr (c, e) ↦ let (m, a) = find_first-mem _ cs e in rw (some_one, e) (chosen c fcfs m a)
  ]
]

-- No policy panics. A selection refuses exactly where there is no candidate or none is available,
-- and then leaves the policy alone; else it returns the identifier of an available candidate.
pub select_lem : (p : Policy) (cs : List Candidate) → Selected p cs (select p cs)
unfolding select round_robin_select random_select
select_lem fcfs cs = fcfs-Selected cs
select_lem (round_robin n) cs = indexed-Selected (round_robin n) _ cs n
select_lem (random n) cs = indexed-Selected (random n) _ cs (next_u64 n)

-- A policy is created for exactly the names that the error message of the factory lists.
pub create_policy_names :
    (name : Text) (seed : ℕ)
    → ((exists (text_eq name) supported_policy_names ≡ true)
        × ((p : Policy) × (create_policy name seed ≡ ok p)))
      ⊎ ((exists (text_eq name) supported_policy_names ≡ false)
          × (create_policy name seed ≡ err (unknown_policy name)))
unfolding create_policy
create_policy_names name seed = elim (Bool-cases (text_eq name (codes "fcfs"))) [
  | inl e ↦ rw e (inl (refl, (fcfs, refl)))
  | inr f ↦ elim (Bool-cases (text_eq name (codes "round_robin"))) [
    | inl e ↦ rw (f, e) (inl (refl, (round_robin 0, refl)))
    | inr g ↦ elim (Bool-cases (text_eq name (codes "random"))) [
      | inl e ↦ rw (f, g, e) (inl (refl, (random seed, refl)))
      | inr h ↦ rw (f, g, h) (inr (refl, refl))
    ]
  ]
]
