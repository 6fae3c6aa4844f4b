-- ===== src/Allocation.antt =====
-- crates/pengu-mesh-core/src/allocation.rs: the policies that pick an instance for a request. A
-- trait object is a value of `Policy`; the seed of the random policy, made from the clock, is an
-- argument. The load of a candidate, which no policy reads, is left out.
pub mod Choice
pub mod Turns
mod Examples
use pengu_mesh.Prelude.{
  ℕ, suc, ◌+◌, ◌*◌, ◌%◌, ◌^◌, Bool, Option, none, some, List, [], ◌∷◌, if◌then◌else◌, Text, text_eq,
  codes, length, get_elem?, is_empty, keep, find_first, Result, ok, err,
}

pub record Candidate : Type 0 where
  pub instance_id : Text
  pub available : Bool

pub data AllocationError : Type 0 where
  no_candidates none_available : AllocationError

pub data AllocationFactoryError : Type 0 where
  unknown_policy : Text → AllocationFactoryError

-- `RoundRobinPolicy` has its `last_index`, `RandomPolicy` its `state`.
pub data Policy : Type 0 where
  fcfs : Policy
  round_robin random : ℕ → Policy

-- The modulus of `usize` and of `u64`.
abbrev pub word : ℕ
word = 2 ^ 64

abbrev pub available_of : List Candidate → List Candidate
available_of candidates = keep (λ c. c.available) candidates

abbrev pub id_or : AllocationError → Option Candidate → Result Text AllocationError
id_or e none = err e
id_or e (some c) = ok c.instance_id

-- `available[idx]`: the case `none` is the panic of an index out of bounds.
abbrev pub id_at : Option Candidate → Option (Result Text AllocationError)
id_at none = none
id_at (some c) = some (ok c.instance_id)

-- `wrapping_mul` and `wrapping_add`.
unfoldable pub next_u64 : ℕ → ℕ
next_u64 state = (state * 6364136223846793005 % word + 1442695040888963407) % word

unfoldable pub fcfs_select : List Candidate → Result Text AllocationError
fcfs_select candidates =
    if is_empty candidates
    then err no_candidates
    else id_or none_available (find_first (λ c. c.available) candidates)

unfoldable pub round_robin_select :
    ℕ → List Candidate → Option (Result Text AllocationError) × Policy
round_robin_select last_index candidates =
    let available = available_of candidates in
    if is_empty candidates
    then (some (err no_candidates), round_robin last_index)
    else if is_empty available
    then (some (err none_available), round_robin last_index)
    else (
      id_at (get_elem? available (last_index % length available)),
      round_robin ((last_index + 1) % word),
    )

unfoldable pub random_select : ℕ → List Candidate → Option (Result Text AllocationError) × Policy
unfolding next_u64
random_select state candidates =
    let available = available_of candidates in
    if is_empty candidates
    then (some (err no_candidates), random state)
    else if is_empty available
    then (some (err none_available), random state)
    else (id_at (get_elem? available (next_u64 state % length available)), random (next_u64 state))

-- `AllocationPolicy::select`. The outcome is `none` where the code panics.
unfoldable pub select : Policy → List Candidate → Option (Result Text AllocationError) × Policy
unfolding fcfs_select round_robin_select random_select
select fcfs candidates = (some (fcfs_select candidates), fcfs)
select (round_robin last_index) candidates = round_robin_select last_index candidates
select (random state) candidates = random_select state candidates

abbrev pub supported_policy_names : List Text
supported_policy_names = codes "fcfs" ∷ codes "round_robin" ∷ codes "random" ∷ []

unfoldable pub create_policy : Text → ℕ → Result Policy AllocationFactoryError
create_policy name seed =
    if text_eq name (codes "fcfs")
    then ok fcfs
    else if text_eq name (codes "round_robin")
    then ok (round_robin 0)
    else if text_eq name (codes "random")
    then ok (random seed)
    else err (unknown_policy name)
