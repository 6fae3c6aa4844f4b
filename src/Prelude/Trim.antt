-- ===== src/Prelude/Trim.antt =====
-- `str::trim`. `char::is_whitespace` is a parameter: it is the table of Unicode's White_Space.
use Prim.Native.Nat.{ℕ}
use mathlib.Core.Path.{◌≡◌, refl}
use mathlib.Core.Bool.{Bool, false, ◌&&◌}
use mathlib.Core.List.{[], ◌∷◌}
use native.Mathlib.Omega.{arith}
use pengu_mesh.Prelude.Tests.{if◌then◌else◌}
use pengu_mesh.Prelude.Lists.{is_empty, All}
use pengu_mesh.Prelude.Chars.{Text}

module _ (is_whitespace : ℕ → Bool) where
  unfoldable pub trim_left : Text → Text
  trim_left [] = []
  trim_left (c ∷ s) = if is_whitespace c then trim_left s else c ∷ s

  unfoldable pub trim_right : Text → Text
  trim_right [] = []
  trim_right (c ∷ s) =
      let rest = trim_right s in if is_whitespace c && is_empty rest then [] else c ∷ rest

  unfoldable pub trim : Text → Text
  unfolding trim_left trim_right
  trim s = trim_right (trim_left s)

  trim_left-All : (s : Text) → All (λ c. is_whitespace c ≡ false) s → trim_left s ≡ s
  unfolding trim_left
  trim_left-All [] h = refl
  trim_left-All (c ∷ s) h = ground (arith, h.0)

  trim_right-All : (s : Text) → All (λ c. is_whitespace c ≡ false) s → trim_right s ≡ s
  unfolding trim_right
  trim_right-All [] h = refl
  trim_right-All (c ∷ s) h = ground (arith, h.0, trim_right-All s h.1)

  -- A text without white space has nothing to trim.
  pub trim-All : (s : Text) → All (λ c. is_whitespace c ≡ false) s → trim s ≡ s
  unfolding trim
  trim-All s h = rw (trim_left-All s h, trim_right-All s h) refl
