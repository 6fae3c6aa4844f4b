-- ===== src/Failures/Laws.antt =====
-- What the recovery lists of crates/pengu-mesh-shared/src/failure.rs hold.
use pengu_mesh.Prelude.{
  ◌≡◌, refl, sym, ap, ◌∙◌, inl, inr, Bool, true, false, ◌||◌, List, [], ◌∷◌, ◌++◌, arith,
  Bool-cases, if◌then◌else◌, Text, text_eq, text_eq_iff, text_eq_refl, codes, exists, exists-All,
  is_empty, Pairwise, Pairwise-snoc,
}
use pengu_mesh.Failures.{Rule, push_unique, push_items, apply_rules, or_diagnose, fired}
use pengu_mesh.Failures.Operation.{OperationFailureAttempt, operation_rules, operation_recovery}
use pengu_mesh.Failures.Artifact.{ArtifactFailureAttempt, artifact_rules, artifact_recovery}
use pengu_mesh.Failures.Tab.{TabFailureAttempt, tab_rules, tab_recovery}

abbrev pub has : Text → List Text → Bool
has x = exists (λ y. text_eq y x)

abbrev pub Distinct : List Text → Type 0
Distinct = Pairwise (λ x y. text_eq x y ≡ false)

has-append : (x : Text) (xs ys : List Text) → has x (xs ++ ys) ≡ (has x xs || has x ys)
has-append x [] ys = refl
has-append x (y ∷ xs) ys = ground (arith, has-append x xs ys)

push_unique-Distinct : (r : List Text) (item : Text) → Distinct r → Distinct (push_unique r item)
unfolding push_unique
push_unique-Distinct r item d = elim (Bool-cases (has item r)) [
  | inl e ↦ rw e d
  | inr e ↦ rw e (Pairwise-snoc _ r item d (exists-All _ r e))
]

has-push_unique :
    (x : Text) (r : List Text) (item : Text)
    → has x (push_unique r item) ≡ (has x r || text_eq item x)
unfolding push_unique
has-push_unique x r item = elim (Bool-cases (has item r)) [
  | inl e ↦ elim (Bool-cases (text_eq item x)) [
    | inl f ↦
        let here : has x r ≡ true = ap (λ k. has k r) (sym ((text_eq_iff item x).0 f)) ∙ e in
        rw (e, f, here) refl
    | inr f ↦ rw (e, f) (ground arith)
  ]
  | inr e ↦ rw e (has-append x r (item ∷ []) ∙ ground arith)
]

push_items-Distinct : (r items : List Text) → Distinct r → Distinct (push_items r items)
unfolding push_items
push_items-Distinct r [] d = d
push_items-Distinct r (i ∷ items) d =
    push_items-Distinct (push_unique r i) items (push_unique-Distinct r i d)

has-push_items :
    (x : Text) (r items : List Text) → has x (push_items r items) ≡ (has x r || has x items)
unfolding push_items
has-push_items x r [] = ground arith
has-push_items x r (i ∷ items) =
    ground (arith, has-push_items x (push_unique r i) items, has-push_unique x r i)

apply_rules-Distinct :
    (r : List Text) (rules : List Rule) → Distinct r → Distinct (apply_rules r rules)
unfolding apply_rules
apply_rules-Distinct r [] d = d
apply_rules-Distinct r ((true, items) ∷ rules) d =
    apply_rules-Distinct (push_items r items) rules (push_items-Distinct r items d)
apply_rules-Distinct r ((false, items) ∷ rules) d = apply_rules-Distinct r rules d

has-apply_rules :
    (x : Text) (r : List Text) (rules : List Rule)
    → has x (apply_rules r rules) ≡ (has x r || has x (fired rules))
unfolding apply_rules fired
has-apply_rules x r [] = ground arith
has-apply_rules x r ((true, items) ∷ rules) = ground (
  arith,
  has-apply_rules x (push_items r items) rules,
  has-push_items x r items,
  has-append x items (fired rules),
)
has-apply_rules x r ((false, items) ∷ rules) = has-apply_rules x r rules

-- A recovery list for the rules: no item twice, never empty, with the items of the rules that fire or,
-- where they push none, the one that is given.
pub record Recovers (rules : List Rule) (item : Text) (recovery : List Text) : Type 0 where
  pub distinct : Distinct recovery
  pub some_item : is_empty recovery ≡ false
  pub items :
      (x : Text)
      → has x recovery ≡ (if is_empty (fired rules) then text_eq item x else has x (fired rules))

empty-has : (xs ys : List Text) → ((x : Text) → has x xs ≡ has x ys) → is_empty xs ≡ is_empty ys
empty-has [] [] h = refl
empty-has [] (y ∷ ys) h = let e = h y in absurd (ground (arith, text_eq_refl y, e))
empty-has (x ∷ xs) [] h = let e = h x in absurd (ground (arith, text_eq_refl x, e))
empty-has (x ∷ xs) (y ∷ ys) h = refl

or_diagnose-Recovers :
    (rules : List Rule) (item : Text)
    → Recovers rules item (or_diagnose item (apply_rules [] rules))
unfolding or_diagnose push_unique
or_diagnose-Recovers rules item =
    go (apply_rules [] rules) (apply_rules-Distinct [] rules tt) (λ x. has-apply_rules x [] rules)
  where
    go :
        (r : List Text)
        → Distinct r
        → ((x : Text) → has x r ≡ has x (fired rules))
        → Recovers rules item (
            if is_empty r
            then (if exists (λ x. text_eq x item) r then r else r ++ item ∷ [])
            else r)
    go [] d h =
        let none_fired : is_empty (fired rules) ≡ true = sym (empty-has [] (fired rules) h) in
        record { distinct = (tt, tt); some_item = refl; items = λ x. rw none_fired (ground arith) }
    go (y ∷ r) d h =
        let some_fired : is_empty (fired rules) ≡ false = sym (empty-has (y ∷ r) (fired rules) h) in
        record { distinct = d; some_item = refl; items = λ x. rw some_fired (h x) }

-- The recovery lists of operations, artifacts and tabs have no item twice and are never empty. They have
-- exactly the items that are pushed by the rules whose test the reason meets, and where there are none,
-- exactly the advice to run `diagnose`.
pub recovery_lem :
    (o : OperationFailureAttempt) (a : ArtifactFailureAttempt) (t : TabFailureAttempt)
    (reason : Text)
    → Recovers
        (operation_rules o reason)
        (codes "run pengu-mesh diagnose to inspect host and runtime readiness")
        (operation_recovery o reason)
      × Recovers
          (artifact_rules a reason)
          (codes "run pengu-mesh diagnose to inspect host and runtime readiness")
          (artifact_recovery a reason)
      × Recovers
          (tab_rules t reason)
          (codes "run pengu-mesh diagnose to inspect host and browser readiness")
          (tab_recovery t reason)
unfolding operation_recovery artifact_recovery tab_recovery
recovery_lem o a t reason = (
  or_diagnose-Recovers (operation_rules o reason) _,
  or_diagnose-Recovers (artifact_rules a reason) _,
  or_diagnose-Recovers (tab_rules t reason) _,
)
