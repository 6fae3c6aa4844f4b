-- ===== src/Adblock.antt =====
-- crates/pengu-mesh-cdp/src/adblock.rs: which URLs the block list of a browser matches. Positions in
-- the text are the rest of it. The table of default patterns and the messages are left out.
pub mod Soundness
pub mod Exact
mod Examples
use pengu_mesh.Prelude.{
  ℕ, ◌+◌, ◌==◌, Bool, true, false, not, ◌&&◌, ◌||◌, Option, none, some, List, [], ◌∷◌, ◌++◌,
  if◌then◌else◌, Text, text_eq, exists, is_empty,
}

abbrev pub star : ℕ
star = b'*'

-- `combine_block_patterns`: the patterns not seen before, in order.
unfoldable pub combine_onto : List Text → List Text → List Text
combine_onto combined [] = combined
combine_onto combined (p ∷ ps) =
    combine_onto (if exists (λ q. text_eq q p) combined then combined else combined ++ p ∷ []) ps

unfoldable pub combine_lists : List Text → List (List Text) → List Text
unfolding combine_onto
combine_lists combined [] = combined
combine_lists combined (list ∷ lists) = combine_lists (combine_onto combined list) lists

abbrev pub combine_block_patterns : List (List Text) → List Text
combine_block_patterns lists = combine_lists [] lists

-- `pattern.split('*')`.
abbrev pub before_first : ℕ → List Text → List Text
before_first c [] = (c ∷ []) ∷ []
before_first c (part ∷ parts) = (c ∷ part) ∷ parts

unfoldable pub split_star : Text → List Text
split_star [] = [] ∷ []
split_star (c ∷ pattern) =
    let parts = split_star pattern in if c == star then [] ∷ parts else before_first c parts

-- The rest of the text, where it starts with the part.
unfoldable pub strip : Text → Text → Option Text
strip [] text = some text
strip (p ∷ part) [] = none
strip (p ∷ part) (c ∷ text) = if p == c then strip part text else none

abbrev pub first_or : Option Text → Option Text → Option Text
first_or none later = later
first_or (some rest) later = some rest

-- `text[pos..].find(part)`, with what stands after the part: at the first place where it occurs.
unfoldable pub find_after : Text → Text → Option Text
unfolding strip
find_after part [] = strip part []
find_after part (c ∷ text) = first_or (strip part (c ∷ text)) (find_after part text)

unfoldable pub ends_with_star : Text → Bool
ends_with_star [] = false
ends_with_star (c ∷ pattern) = if is_empty pattern then c == star else ends_with_star pattern

-- The loop after the first part. An empty part is skipped.
abbrev pub find_part : Text → Text → Option Text
find_part [] text = some text
find_part (p ∷ part) text = find_after (p ∷ part) text

unfoldable pub find_parts : List Text → Option Text → Option Text
unfolding find_after
find_parts parts none = none
find_parts [] (some text) = some text
find_parts (part ∷ parts) (some text) = find_parts parts (find_part part text)

-- The first part is found at the start only.
abbrev pub find_all : List Text → Text → Option Text
find_all [] text = some text
find_all (part ∷ parts) text = find_parts parts (strip part text)

abbrev pub at_end : Text → Option Text → Bool
at_end pattern none = false
at_end pattern (some rest) = ends_with_star pattern || is_empty rest

abbrev pub match_parts : Text → Text → List Text → Bool
match_parts pattern text [] = false
match_parts pattern text (part ∷ []) = text_eq pattern text
match_parts pattern text (part ∷ part' ∷ parts) =
    at_end pattern (find_all (part ∷ part' ∷ parts) text)

unfoldable pub glob_match : Text → Text → Bool
unfolding split_star find_parts ends_with_star
glob_match pattern text = match_parts pattern text (split_star pattern)

-- `BlockList::matches`.
unfoldable pub block_list_matches : List Text → Text → Bool
unfolding glob_match
block_list_matches patterns url = exists (λ p. glob_match p url) patterns
