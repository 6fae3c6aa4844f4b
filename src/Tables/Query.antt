-- ===== src/Tables/Query.antt =====
-- `ORDER BY` and `LIMIT` in the queries of crates/pengu-mesh-state/src/lib.rs.
use pengu_mesh.Prelude.{ℕ, zero, suc, Bool, List, [], ◌∷◌, if◌then◌else◌}

-- An insertion by an order keeps rows that the order does not tell apart as they stand.
unfoldable pub insert_by {ℓ} : {A : Type ℓ} → (A → A → Bool) → A → List A → List A
insert_by before x [] = x ∷ []
insert_by before x (y ∷ ys) =
    let rest = insert_by before x ys in if before y x then y ∷ rest else x ∷ y ∷ ys

unfoldable pub order_by {ℓ} : {A : Type ℓ} → (A → A → Bool) → List A → List A
unfolding insert_by
order_by before [] = []
order_by before (x ∷ xs) = insert_by before x (order_by before xs)

-- `LIMIT ?`.
unfoldable pub limit {ℓ} : {A : Type ℓ} → ℕ → List A → List A
limit zero xs = []
limit (suc n) [] = []
limit (suc n) (x ∷ xs) = x ∷ limit n xs
