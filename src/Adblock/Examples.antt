-- ===== src/Adblock/Examples.antt =====
-- Patterns and URLs (crates/pengu-mesh-cdp/src/adblock.rs).
use pengu_mesh.Prelude.{◌≡◌, ◌↔◌, refl, true, false, List, [], ◌∷◌, Text, codes, text_eq, Memᴰ}
use pengu_mesh.Adblock.{
  split_star, glob_match, block_list_matches, ends_with_star, combine_block_patterns, combine_lists,
}
use pengu_mesh.Adblock.Soundness.{Fits, block_list_matches-Fits}
use pengu_mesh.Adblock.Exact.{glob_match-Fits}

abbrev patterns : List Text
patterns = codes "*b.co/*" ∷ codes "*px?*" ∷ []

abbrev url : Text
url = codes "x/b.co/a"

matched : block_list_matches patterns url ≡ true
unfolding block_list_matches text_eq
matched = refl

block_list_matches-Fits_example : (pattern : Text) × Memᴰ pattern patterns × Fits pattern url
block_list_matches-Fits_example = block_list_matches-Fits patterns url matched

star_last : ends_with_star (codes "*b.co/*") ≡ true
unfolding ends_with_star
star_last = refl

glob_match-Fits_example : (glob_match (codes "*b.co/*") url ≡ true) ↔ Fits (codes "*b.co/*") url
glob_match-Fits_example = glob_match-Fits (codes "*b.co/*") url star_last

-- Without a `*` at the end, the first occurrence of the last part need not be at the end.
missed : glob_match (codes "*ab") (codes "abab") ≡ false
unfolding glob_match text_eq
missed = refl

missed-Fits : Fits (codes "*ab") (codes "abab")
unfolding split_star
missed-Fits = (codes "abab", refl, (codes "ab", [], refl, refl))

combined_once :
    combine_block_patterns ((codes "a" ∷ codes "b" ∷ []) ∷ (codes "a" ∷ []) ∷ [])
    ≡ codes "a" ∷ codes "b" ∷ []
unfolding combine_lists text_eq
combined_once = refl
