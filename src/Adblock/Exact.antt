-- ===== src/Adblock/Exact.antt =====
-- The patterns for which the matcher of crates/pengu-mesh-cdp/src/adblock.rs misses nothing.
use pengu_mesh.Prelude.{
  ◌≤◌, ◌==◌, ==_iff, ◌≡◌, ◌↔◌, refl, sym, ap, ◌∙◌, inl, inr, true, ◌||◌, some, List, [], ◌∷◌, ◌++◌,
  arith, Option-cases, Text, append_assoc, length, length-append, is_empty,
}
use pengu_mesh.Adblock.{
  first_or, split_star, strip, find_after, ends_with_star, find_part, find_parts, at_end,
  match_parts, glob_match,
}
use pengu_mesh.Adblock.Soundness.{
  Follows, FitsParts, Fits, strip_lem, last_empty, tail_last, tail_last-split_star,
  join_star-split_star, match_parts-FitsParts,
}

strip-append : (part rest : Text) → strip part (part ++ rest) ≡ some rest
unfolding strip
strip-append [] rest = refl
strip-append (p ∷ part) rest =
    let same : (p == p) ≡ true = (==_iff p p).1 refl in rw same (strip-append part rest)

abbrev tail_of : Text → Text
tail_of [] = []
tail_of (c ∷ t) = t

-- Of two ends of a text, the longer has the shorter as its end.
cancel :
    (part r y rest : Text)
    → part ++ r ≡ y ++ rest
    → length part ≤ length y
    → (x : Text) × (r ≡ x ++ rest)
cancel [] r y rest e h = (y, e)
cancel (p ∷ part) r [] rest e h = absurd (ground (arith, h))
cancel (p ∷ part) r (d ∷ y) rest e h = cancel part r y rest (ap tail_of e) (ground (arith, h))

find_after_here :
    (part text rest : Text) → strip part text ≡ some rest → find_after part text ≡ some rest
unfolding find_after
find_after_here part [] rest e = e
find_after_here part (c ∷ text) rest e = ap (λ o. first_or o (find_after part text)) e

-- The first occurrence leaves no less than another one.
find_after_first :
    (part gap rest : Text)
    → (x : Text) × (find_after part (gap ++ (part ++ rest)) ≡ some (x ++ rest))
unfolding find_after
find_after_first part [] rest =
    ([], find_after_here part (part ++ rest) rest (strip-append part rest))
find_after_first part (c ∷ gap) rest =
    elim (Option-cases (strip part (c ∷ (gap ++ (part ++ rest))))) [
      | inl e ↦
          let (x, f) = find_after_first part gap rest in
          (x, ap (λ o. first_or o (find_after part (gap ++ (part ++ rest)))) e ∙ f)
      | inr (r, e) ↦
          let same : part ++ r ≡ ((c ∷ gap) ++ part) ++ rest =
            sym (strip_lem part (c ∷ (gap ++ (part ++ rest))) {rest = r} e)
            ∙ sym (append_assoc (c ∷ gap) part rest) in
          let (x, f) =
            cancel part r ((c ∷ gap) ++ part) rest same
              (omega (arith, length-append (c ∷ gap) part)) in
          (x, ap (λ o. first_or o (find_after part (gap ++ (part ++ rest)))) e ∙ ap (λ k. some k) f)
    ]

find_part_first :
    (part gap rest : Text)
    → (x : Text) × (find_part part (gap ++ (part ++ rest)) ≡ some (x ++ rest))
find_part_first [] gap rest = (gap, refl)
find_part_first (p ∷ part) gap rest = find_after_first (p ∷ part) gap rest

-- More text before it leaves a text that follows the parts so.
Follows-append :
    (part : Text) (parts : List Text) (x text : Text)
    → Follows (part ∷ parts) text
    → Follows (part ∷ parts) (x ++ text)
Follows-append part parts x text (gap, rest, e, h) =
    (x ++ gap, rest, ap (λ k. x ++ k) e ∙ sym (append_assoc x gap (part ++ rest)), h)

find_parts-some :
    (parts : List Text) (text : Text)
    → Follows parts text
    → last_empty parts ≡ true
    → (left : Text) × (find_parts parts (some text) ≡ some left)
unfolding find_parts
find_parts-some [] text h l = cc
find_parts-some (part ∷ []) text (gap, rest, e, h) l =
    let (x, f) = find_part_first part gap rest in
    let found : find_part part text ≡ some (x ++ rest) = ap (find_part part) e ∙ f in
    (x ++ rest, ap (find_parts []) found)
find_parts-some (part ∷ part' ∷ parts) text (gap, rest, e, h) l =
    let (x, f) = find_part_first part gap rest in
    let found : find_part part text ≡ some (x ++ rest) = ap (find_part part) e ∙ f in
    let (left, g) =
      find_parts-some (part' ∷ parts) (x ++ rest) (Follows-append part' parts x rest h) l in
    (left, ap (find_parts (part' ∷ parts)) found ∙ g)

match_parts_some :
    (pattern text : Text) (parts : List Text)
    → tail_last parts ≡ true
    → ends_with_star pattern ≡ true
    → FitsParts parts text
    → match_parts pattern text parts ≡ true
match_parts_some pattern text [] l s h = cc
match_parts_some pattern text (part ∷ []) l s h = cc
match_parts_some pattern text (part ∷ part' ∷ parts) l s (rest, e, h) =
    let (left, f) = find_parts-some (part' ∷ parts) rest h l in
    let found : find_parts (part' ∷ parts) (strip part text) ≡ some left =
      ap (find_parts (part' ∷ parts)) (ap (strip part) e ∙ strip-append part rest) ∙ f in
    ap (at_end pattern) found ∙ ap (λ b. b || is_empty left) s

-- A pattern that ends with `*` matches exactly the texts that are the pattern with some characters in
-- the place of each `*`.
pub glob_match-Fits :
    (pattern text : Text)
    → ends_with_star pattern ≡ true
    → (glob_match pattern text ≡ true) ↔ Fits pattern text
unfolding glob_match
glob_match-Fits pattern text s = (
  match_parts-FitsParts pattern text (split_star pattern) (join_star-split_star pattern)
      (tail_last-split_star pattern),
  match_parts_some pattern text (split_star pattern) (tail_last-split_star pattern s) s,
)
