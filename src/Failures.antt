-- ===== src/Failures.antt =====
-- crates/pengu-mesh-shared/src/failure.rs: what to do after a failure, from the text of its reason.
-- The children hold the tables of the four kinds of failures. A table is the list of the `if`s of the
-- function, in order, each with the items that its branch pushes.
pub mod Operation
pub mod Artifact
pub mod Surface
pub mod Tab
pub mod Laws
mod Examples
use pengu_mesh.Prelude.{
  ℕ, ◌==◌, Bool, true, false, ◌&&◌, ◌||◌, Option, none, some, List, [], ◌∷◌, ◌++◌, if◌then◌else◌,
  String, Text, text_eq, codes, exists, is_empty,
}

-- `str::starts_with`, `str::contains` and `str::ends_with`.
unfoldable pub starts_with : Text → Text → Bool
starts_with s [] = true
starts_with [] (p ∷ ps) = false
starts_with (c ∷ s) (p ∷ ps) = (c == p) && starts_with s ps

unfoldable pub contains : Text → Text → Bool
unfolding starts_with
contains [] p = starts_with [] p
contains (c ∷ s) p = starts_with (c ∷ s) p || contains s p

unfoldable pub ends_with : Text → Text → Bool
ends_with [] p = is_empty p
ends_with (c ∷ s) p = text_eq (c ∷ s) p || ends_with s p

unfoldable pub says : Text → String → Bool
unfolding contains
says reason s = contains reason (codes s)

unfoldable pub says_any : Text → List String → Bool
unfolding says
says_any reason [] = false
says_any reason (s ∷ ss) = says reason s || says_any reason ss

unfoldable pub push_unique : List Text → Text → List Text
push_unique recovery item =
    if exists (λ x. text_eq x item) recovery then recovery else recovery ++ item ∷ []

abbrev pub Rule : Type 0
Rule = Bool × List Text

unfoldable pub push_items : List Text → List Text → List Text
unfolding push_unique
push_items recovery [] = recovery
push_items recovery (item ∷ items) = push_items (push_unique recovery item) items

unfoldable pub apply_rules : List Text → List Rule → List Text
unfolding push_items
apply_rules recovery [] = recovery
apply_rules recovery ((fires, items) ∷ rules) =
    apply_rules (if fires then push_items recovery items else recovery) rules

-- The item of a reason that meets no rule.
unfoldable pub or_diagnose : Text → List Text → List Text
unfolding push_unique
or_diagnose item recovery = if is_empty recovery then push_unique recovery item else recovery

abbrev pub for_each_id : Option Text → (Text → List Text) → List Text
for_each_id none f = []
for_each_id (some id) f = f id

abbrev pub with_id : Option Text → String → String → List Text
with_id none before missing = codes missing ∷ []
with_id (some id) before missing = (codes before ++ id) ∷ []

-- What the rules that fire push, without the test for repetition.
unfoldable pub fired : List Rule → List Text
fired [] = []
fired ((fires, items) ∷ rules) = (if fires then items else []) ++ fired rules
