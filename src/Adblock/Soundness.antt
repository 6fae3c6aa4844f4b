-- ===== src/Adblock/Soundness.antt =====
-- What the matcher of crates/pengu-mesh-cdp/src/adblock.rs accepts.
use pengu_mesh.Prelude.{
  ℕ, ◌==◌, ==_iff, ◌≡◌, refl, sym, ap, subst, ◌∙◌, inl, inr, Bool, true, false, ◌||◌, none, some,
  List, [], ◌∷◌, ◌++◌, arith, Bool-cases, Option-cases, if◌then◌else◌, Text, text_eq_iff, is_empty,
  append-nil, Memᴰ, exists-mem,
}
use pengu_mesh.Adblock.{
  star, before_first, split_star, strip, find_after, ends_with_star, find_part, find_parts, at_end,
  match_parts, glob_match, block_list_matches,
}

-- The text is some characters and then the part, for each of the parts.
abbrev pub Follows : List Text → Text → Type 0
Follows [] text = text ≡ []
Follows (part ∷ parts) text =
    (gap rest : Text) × (text ≡ gap ++ (part ++ rest)) × Follows parts rest

-- The text is the pattern with any characters in the place of each `*`.
abbrev pub FitsParts : List Text → Text → Type 0
FitsParts [] text = ⊥
FitsParts (part ∷ parts) text = (rest : Text) × (text ≡ part ++ rest) × Follows parts rest

abbrev pub Fits : Text → Text → Type 0
unfolding split_star
Fits pattern text = FitsParts (split_star pattern) text

-- The same, up to what is left of the text.
abbrev FollowsTo : List Text → Text → Text → Type 0
FollowsTo [] text left = text ≡ left
FollowsTo (part ∷ parts) text left =
    (gap rest : Text) × (text ≡ gap ++ (part ++ rest)) × FollowsTo parts rest left

pub strip_lem : (part text : Text) {rest : Text} → strip part text ≡ some rest → text ≡ part ++ rest
unfolding strip
strip_lem [] text {rest} e = cc
strip_lem (p ∷ part) [] e = cc
strip_lem (p ∷ part) (c ∷ text) {rest} e = elim (Bool-cases (p == c)) [
  | inl f ↦
      let same : p ≡ c = (==_iff p c).0 f in
      ap (λ x. x ∷ text) (sym same) ∙ ap (◌∷◌ p) (strip_lem part text {rest = rest} (ground arith))
  | inr f ↦ absurd (ground (arith, e, f))
]

find_after_lem :
    (part text : Text) {rest : Text}
    → find_after part text ≡ some rest
    → (gap : Text) × (text ≡ gap ++ (part ++ rest))
unfolding find_after
find_after_lem part [] {rest} e = ([], strip_lem part [] {rest = rest} e)
find_after_lem part (c ∷ text) {rest} e = elim (Option-cases (strip part (c ∷ text))) [
  | inl f ↦
      let (gap, g) = find_after_lem part text {rest = rest} (ground (arith, f)) in
      (c ∷ gap, ap (◌∷◌ c) g)
  | inr (r, f) ↦ ([], strip_lem part (c ∷ text) {rest = rest} (ground (arith, f)))
]

find_part_lem :
    (part text : Text) {rest : Text}
    → find_part part text ≡ some rest
    → (gap : Text) × (text ≡ gap ++ (part ++ rest))
find_part_lem [] text {rest} e = ([], cc)
find_part_lem (p ∷ part) text {rest} e = find_after_lem (p ∷ part) text {rest = rest} e

find_parts-none : (parts : List Text) {left : Text} → find_parts parts none ≡ some left → ⊥
unfolding find_parts
find_parts-none [] e = cc
find_parts-none (part ∷ parts) e = cc

find_parts_lem :
    (parts : List Text) (text : Text) {left : Text}
    → find_parts parts (some text) ≡ some left
    → FollowsTo parts text left
unfolding find_parts
find_parts_lem [] text e = cc
find_parts_lem (part ∷ parts) text {left} e = elim (Option-cases (find_part part text)) [
  | inl f ↦ absurd (find_parts-none parts {left = left} (ap (find_parts parts) (sym f) ∙ e))
  | inr (rest, f) ↦
      let (gap, g) = find_part_lem part text {rest = rest} f in
      (gap, rest, g, find_parts_lem parts rest {left = left} (ap (find_parts parts) (sym f) ∙ e))
]

FollowsTo-end : (parts : List Text) (text : Text) → FollowsTo parts text [] → Follows parts text
FollowsTo-end [] text h = h
FollowsTo-end (part ∷ parts) text (gap, rest, e, h) = (gap, rest, e, FollowsTo-end parts rest h)

abbrev pub last_empty : List Text → Bool
last_empty [] = false
last_empty (part ∷ []) = is_empty part
last_empty (part ∷ part' ∷ parts) = last_empty (part' ∷ parts)

-- A last `*` takes what is left.
FollowsTo-last :
    (parts : List Text) (text left : Text)
    → last_empty parts ≡ true
    → FollowsTo parts text left
    → Follows parts text
FollowsTo-last [] text left l h = cc
FollowsTo-last ([] ∷ []) text left l h = (text, [], sym (append-nil text), refl)
FollowsTo-last ((c ∷ part) ∷ []) text left l h = cc
FollowsTo-last (part ∷ part' ∷ parts) text left l (gap, rest, e, h) =
    (gap, rest, e, FollowsTo-last (part' ∷ parts) rest left l h)

last_empty-cons :
    (part : Text) (parts : List Text) → last_empty parts ≡ true → last_empty (part ∷ parts) ≡ true
last_empty-cons part [] h = cc
last_empty-cons part (q ∷ parts) h = h

abbrev pub tail_last : List Text → Bool
tail_last [] = false
tail_last (part ∷ parts) = last_empty parts

tail_last-cons : (parts : List Text) → tail_last parts ≡ true → last_empty parts ≡ true
tail_last-cons [] h = cc
tail_last-cons (part ∷ parts) h = last_empty-cons part parts h

tail_last-before_first :
    (c : ℕ) (parts : List Text) → tail_last parts ≡ true → tail_last (before_first c parts) ≡ true
tail_last-before_first c [] h = cc
tail_last-before_first c (part ∷ parts) h = h

pub tail_last-split_star :
    (pattern : Text) → ends_with_star pattern ≡ true → tail_last (split_star pattern) ≡ true
unfolding ends_with_star split_star
tail_last-split_star [] h = cc
tail_last-split_star (c ∷ []) h = rw h refl
tail_last-split_star (c ∷ d ∷ pattern) h =
    go (split_star (d ∷ pattern)) (tail_last-split_star (d ∷ pattern) h)
  where
    go :
        (parts : List Text)
        → tail_last parts ≡ true
        → tail_last (if c == star then [] ∷ parts else before_first c parts) ≡ true
    go parts k = elim (Bool-cases (c == star)) [
      | inl e ↦ rw e (tail_last-cons parts k)
      | inr e ↦ rw e (tail_last-before_first c parts k)
    ]

-- The pattern that is split at each `*`.
abbrev pub join_star : List Text → Text
join_star [] = []
join_star (part ∷ []) = part
join_star (part ∷ part' ∷ parts) = part ++ star ∷ join_star (part' ∷ parts)

join-before_first :
    (c : ℕ) (parts : List Text)
    → is_empty parts ≡ false
    → join_star (before_first c parts) ≡ c ∷ join_star parts
join-before_first c [] n = cc
join-before_first c (part ∷ []) n = refl
join-before_first c (part ∷ part' ∷ parts) n = refl

join-cons :
    (parts : List Text) → is_empty parts ≡ false → join_star ([] ∷ parts) ≡ star ∷ join_star parts
join-cons [] n = cc
join-cons (part ∷ parts) n = refl

split_star-some : (pattern : Text) → is_empty (split_star pattern) ≡ false
unfolding split_star
split_star-some [] = refl
split_star-some (c ∷ pattern) = go (split_star pattern) (split_star-some pattern)
  where
    go :
        (parts : List Text)
        → is_empty parts ≡ false
        → is_empty (if c == star then [] ∷ parts else before_first c parts) ≡ false
    go [] n = cc
    go (p ∷ parts) n = elim (Bool-cases (c == star)) [ inl e ↦ rw e refl | inr e ↦ rw e refl ]

pub join_star-split_star : (pattern : Text) → join_star (split_star pattern) ≡ pattern
unfolding split_star
join_star-split_star [] = refl
join_star-split_star (c ∷ pattern) = elim (Bool-cases (c == star)) [
  | inl e ↦ rw e (
      join-cons (split_star pattern) (split_star-some pattern)
      ∙ ap (◌∷◌ star) (join_star-split_star pattern)
      ∙ ap (λ x. x ∷ pattern) (sym ((==_iff c star).0 e)))
  | inr e ↦ rw e (
      join-before_first c (split_star pattern) (split_star-some pattern)
      ∙ ap (◌∷◌ c) (join_star-split_star pattern))
]

find_all-Follows :
    (pattern part text left : Text) (parts : List Text)
    → (ends_with_star pattern ≡ true → last_empty parts ≡ true)
    → find_parts parts (strip part text) ≡ some left
    → (ends_with_star pattern || is_empty left) ≡ true
    → FitsParts (part ∷ parts) text
find_all-Follows pattern part text left parts last_star e end =
    elim (Option-cases (strip part text)) [
      | inl f ↦ absurd (find_parts-none parts {left = left} (ap (find_parts parts) (sym f) ∙ e))
      | inr (rest, f) ↦
          let follows =
            find_parts_lem parts rest {left = left} (ap (find_parts parts) (sym f) ∙ e) in
          (
            rest,
            strip_lem part text {rest = rest} f,
            elim (Bool-cases (ends_with_star pattern)) [
              | inl g ↦ FollowsTo-last parts rest left (last_star g) follows
              | inr g ↦
                  let nothing : left ≡ [] = is_nil left (ground (arith, g, end)) in
                  FollowsTo-end parts rest (subst (FollowsTo parts rest) nothing follows)
            ],
          )
    ]
  where
    is_nil : (t : Text) → is_empty t ≡ true → t ≡ []
    is_nil [] h = refl
    is_nil (c ∷ t) h = cc

pub match_parts-FitsParts :
    (pattern text : Text) (parts : List Text)
    → join_star parts ≡ pattern
    → (ends_with_star pattern ≡ true → tail_last parts ≡ true)
    → match_parts pattern text parts ≡ true
    → FitsParts parts text
match_parts-FitsParts pattern text [] j l h = cc
match_parts-FitsParts pattern text (part ∷ []) j l h =
    let same : pattern ≡ text = (text_eq_iff pattern text).0 h in
    ([], sym same ∙ sym j ∙ sym (append-nil part), refl)
match_parts-FitsParts pattern text (part ∷ part' ∷ parts) j l h =
    elim (Option-cases (find_parts (part' ∷ parts) (strip part text))) [
      | inl e ↦ let k : false ≡ true = ap (at_end pattern) (sym e) ∙ h in cc
      | inr (left, e) ↦
          find_all-Follows pattern part text left (part' ∷ parts) l e
            (ap (at_end pattern) (sym e) ∙ h)
    ]

-- A URL that the block list matches fits one of its patterns: it is the pattern with some characters in
-- the place of each `*`.
pub block_list_matches-Fits :
    (patterns : List Text) (url : Text)
    → block_list_matches patterns url ≡ true
    → (pattern : Text) × Memᴰ pattern patterns × Fits pattern url
unfolding block_list_matches glob_match
block_list_matches-Fits patterns url h =
    let (pattern, at, e) = exists-mem _ patterns h in
    (
      pattern,
      at,
      match_parts-FitsParts pattern url (split_star pattern) (join_star-split_star pattern)
          (tail_last-split_star pattern) e,
    )
