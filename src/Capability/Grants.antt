-- ===== src/Capability/Grants.antt =====
-- The parsing of capability grants (`parse_capability_grants` in crates/pengu-mesh-core/src/lib.rs).
use pengu_mesh.Prelude.{
  ℕ, ◌≡◌, refl, sym, ap, ◌∙◌, Bool, false, not, List, [], ◌∷◌, ◌++◌, map, arith, Bool-cases, Text,
  text_eq, text_eq_sym, trim, trim-All, is_empty, keep, keep_passes, exists, All, All-append,
  All-keep, All-mono, All-both, Pairwise, append-nil, append_assoc, inl, inr,
}
use pengu_mesh.Capability.{separates, split_pieces, first_seen, parse_capability_grants}

-- No grant occurs twice.
abbrev pub Distinct : List Text → Type 0
Distinct = Pairwise (λ g h. text_eq g h ≡ false)

first_seen-fresh :
    (seen gs : List Text)
    → All (λ g. exists (text_eq g) seen ≡ false) (first_seen seen gs)
      × Distinct (first_seen seen gs)
unfolding first_seen
first_seen-fresh seen [] = (tt, tt)
first_seen-fresh seen (g ∷ gs) = elim (Bool-cases (exists (text_eq g) seen)) [
  | inl e ↦ rw e (first_seen-fresh seen gs)
  | inr e ↦
      let (fresh, distinct) = first_seen-fresh (g ∷ seen) gs in
      rw e (
        (e, All-mono _ _ (first_seen (g ∷ seen) gs) (λ x h. ground arith) fresh),
        (
          All-mono _ _ (first_seen (g ∷ seen) gs) (λ x h. ground (arith, text_eq_sym g x)) fresh,
          distinct,
        ),
      )
]

first_seen-All : (P : Text → Type 0) (seen gs : List Text) → All P gs → All P (first_seen seen gs)
unfolding first_seen
first_seen-All P seen [] h = tt
first_seen-All P seen (g ∷ gs) h = elim (Bool-cases (exists (text_eq g) seen)) [
  | inl e ↦ rw e (first_seen-All P seen gs h.1)
  | inr e ↦ rw e (h.0, first_seen-All P (g ∷ seen) gs h.1)
]

-- A list without repetitions, none of it seen, is kept as it is.
first_seen-Distinct :
    (seen gs : List Text)
    → Distinct gs
    → All (λ g. exists (text_eq g) seen ≡ false) gs
    → first_seen seen gs ≡ gs
unfolding first_seen
first_seen-Distinct seen [] d h = refl
first_seen-Distinct seen (g ∷ gs) d h = rw h.0 (
    ap (◌∷◌ g) (
      first_seen-Distinct (g ∷ seen) gs d.1
        (All-mono _ _ gs (λ x p. ground (arith, text_eq_sym g x)) (All-both _ _ gs d.0 h.1))))

module _ (is_whitespace : ℕ → Bool) where
  -- The characters of a grant.
  abbrev pub Inside : Text → Type 0
  Inside = All (λ c. separates is_whitespace c ≡ false)

  split_pieces-Inside :
      (piece s : Text) → Inside piece → All Inside (split_pieces is_whitespace piece s)
  unfolding split_pieces
  split_pieces-Inside piece [] h = (h, tt)
  split_pieces-Inside piece (c ∷ s) h = elim (Bool-cases (separates is_whitespace c)) [
    | inl e ↦ rw e (h, split_pieces-Inside [] s tt)
    | inr e ↦ rw e (split_pieces-Inside (piece ++ c ∷ []) s (All-append _ piece (c ∷ []) h (e, tt)))
  ]

  -- A text of no separators has nothing to trim.
  trim-Inside : (s : Text) → Inside s → trim is_whitespace s ≡ s
  trim-Inside s h = trim-All is_whitespace s (All-mono _ _ s (λ c e. ground arith) h)

  trim_pieces : (gs : List Text) → All Inside gs → map (trim is_whitespace) gs ≡ gs
  trim_pieces [] h = refl
  trim_pieces (g ∷ gs) h = rw (trim-Inside g h.0) (ap (◌∷◌ g) (trim_pieces gs h.1))

  parse_lem :
      (value : Text)
      → parse_capability_grants is_whitespace value
        ≡ first_seen [] (keep (λ g. not (is_empty g)) (split_pieces is_whitespace [] value))
  unfolding parse_capability_grants
  parse_lem value =
      ap (λ gs. first_seen [] (keep (λ g. not (is_empty g)) gs))
        (trim_pieces (split_pieces is_whitespace [] value) (split_pieces-Inside [] value tt))

  -- The grants that are parsed are distinct, none is empty, and none has a comma, a semicolon or a
  -- white space in it.
  pub parse_capability_grants_clean :
      (value : Text)
      → Distinct (parse_capability_grants is_whitespace value)
        × All (λ g. (is_empty g ≡ false) × Inside g) (parse_capability_grants is_whitespace value)
  parse_capability_grants_clean value = rw (parse_lem value) (
    (first_seen-fresh [] _).1,
    first_seen-All _ [] _ (
        All-mono _ _ (keep (λ g. not (is_empty g)) (split_pieces is_whitespace [] value))
          (λ g h. (ground arith, h.1))
          (All-both _ _ _ (keep_passes _ (split_pieces is_whitespace [] value)) (
            All-keep _ _ (split_pieces is_whitespace [] value) (split_pieces-Inside [] value tt)))),
  )

  split_pieces-word :
      (piece w s : Text)
      → Inside w
      → split_pieces is_whitespace piece (w ++ b',' ∷ s)
        ≡ (piece ++ w) ∷ split_pieces is_whitespace [] s
  unfolding split_pieces
  split_pieces-word piece [] s h =
      ap (λ x. x ∷ split_pieces is_whitespace [] s) (sym (append-nil piece))
  split_pieces-word piece (c ∷ w) s h = rw h.0 (
      split_pieces-word (piece ++ c ∷ []) w s h.1
      ∙ ap (λ x. x ∷ split_pieces is_whitespace [] s) (append_assoc piece (c ∷ []) w))

-- The grants, each with a comma after it.
pub with_commas : List Text → Text
with_commas [] = []
with_commas (g ∷ gs) = g ++ b',' ∷ with_commas gs

module _ (is_whitespace : ℕ → Bool) where
  split_pieces-with_commas :
      (gs : List Text)
      → All (Inside is_whitespace) gs
      → split_pieces is_whitespace [] (with_commas gs) ≡ gs ++ [] ∷ []
  unfolding with_commas split_pieces
  split_pieces-with_commas [] h = refl
  split_pieces-with_commas (g ∷ gs) h =
      split_pieces-word is_whitespace [] g (with_commas gs) h.0
      ∙ ap (◌∷◌ g) (split_pieces-with_commas gs h.1)

  keep-last :
      (gs : List Text)
      → All (λ g. is_empty g ≡ false) gs
      → keep (λ g. not (is_empty g)) (gs ++ [] ∷ []) ≡ gs
  keep-last [] h = refl
  keep-last (g ∷ gs) h = rw h.0 (ap (◌∷◌ g) (keep-last gs h.1))

  -- Distinct grants that are not empty and have no separator in them are parsed back from the text
  -- that has a comma after each.
  pub parse-with_commas :
      (gs : List Text)
      → Distinct gs
      → All (λ g. is_empty g ≡ false) gs
      → All (Inside is_whitespace) gs
      → parse_capability_grants is_whitespace (with_commas gs) ≡ gs
  parse-with_commas gs d n h =
      parse_lem is_whitespace (with_commas gs)
      ∙ ap (λ x. first_seen [] (keep (λ g. not (is_empty g)) x)) (split_pieces-with_commas gs h)
      ∙ ap (first_seen []) (keep-last gs n)
      ∙ first_seen-Distinct [] gs d (All-mono _ _ gs (λ g e. refl) n)
