-- ===== src/Allocation/Examples.antt =====
-- Runs of the policies of crates/pengu-mesh-core/src/allocation.rs.
use pengu_mesh.Prelude.{
  ℕ, ◌<◌, ◌≡◌, refl, arith, true, false, some, List, [], ◌∷◌, codes, length, Memᴰ, ok,
}
use pengu_mesh.Allocation.{Candidate, random, round_robin, select, available_of}
use pengu_mesh.Allocation.Choice.{Selected, select_lem}
use pengu_mesh.Allocation.Turns.{turn, round_robin_fair}

abbrev first_one : Candidate
first_one = record { instance_id = codes "inst_a"; available = true }

abbrev busy_one : Candidate
busy_one = record { instance_id = codes "inst_b"; available = false }

abbrev last_one : Candidate
last_one = record { instance_id = codes "inst_c"; available = true }

abbrev three : List Candidate
three = first_one ∷ busy_one ∷ last_one ∷ []

second_turn : turn 1 (round_robin 0) three ≡ some (ok (codes "inst_c"))
unfolding turn select
second_turn = refl

select_lem_example : Selected (random 42) three (select (random 42) three)
select_lem_example = select_lem (random 42) three

round_robin_fair_example :
    (i : ℕ) × (i < length (available_of three))
    × (turn i (round_robin 7) three ≡ some (ok (codes "inst_c")))
round_robin_fair_example =
    round_robin_fair three 7 last_one (Memᴰ.tail (Memᴰ.head refl)) (omega arith)
