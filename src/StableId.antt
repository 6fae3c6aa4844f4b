-- ===== src/StableId.antt =====
-- crates/pengu-mesh-shared/src/id.rs: identifiers made from a kind and a free text.
mod Examples
use pengu_mesh.Prelude.{
  ℕ, ◌+◌, ◌≤◌, ◌≡◌, ◌≢◌, refl, ap, ◌∙◌, Bool, true, false, not, ◌&&◌, ◌||◌, List, [], ◌∷◌, ◌++◌,
  map, arith, leb, ◌==◌, if◌then◌else◌, Text, codes, All, All-append, every, every-All, is_empty,
  Bool-cases, inl, inr, append_assoc,
}

pub data IdKind : Type 0 where
  profile instance_id tab run scenario_run scenario_step scenario_assertion latency_sample : IdKind
  environment_fingerprint lease event artifact : IdKind

abbrev pub prefix : IdKind → Text
prefix profile = codes "prof"
prefix instance_id = codes "inst"
prefix tab = codes "tab"
prefix run = codes "run"
prefix scenario_run = codes "scenario_run"
prefix scenario_step = codes "scenario_step"
prefix scenario_assertion = codes "scenario_assertion"
prefix latency_sample = codes "latency_sample"
prefix environment_fingerprint = codes "environment_fingerprint"
prefix lease = codes "lease"
prefix event = codes "event"
prefix artifact = codes "artifact"

abbrev pub underscore : ℕ
underscore = b'_'

abbrev pub is_digit : ℕ → Bool
is_digit c = leb b'0' c && leb c b'9'

abbrev pub is_upper : ℕ → Bool
is_upper c = leb b'A' c && leb c b'Z'

abbrev pub is_lower : ℕ → Bool
is_lower c = leb b'a' c && leb c b'z'

-- `char::is_ascii_alphanumeric`.
abbrev pub is_alphanumeric : ℕ → Bool
is_alphanumeric c = is_digit c || (is_upper c || is_lower c)

-- `char::to_ascii_lowercase`.
abbrev pub to_lower : ℕ → ℕ
to_lower c = if is_upper c then c + 32 else c

abbrev pub replace_char : ℕ → ℕ
replace_char c = if is_alphanumeric c then c else underscore

-- `trim_matches('_')`, from the front and from the back.
unfoldable pub trim_start : Text → Text
trim_start [] = []
trim_start (c ∷ s) = if c == underscore then trim_start s else c ∷ s

unfoldable pub trim_end : Text → Text
trim_end [] = []
trim_end (c ∷ s) =
    let rest = trim_end s in if c == underscore && is_empty rest then [] else c ∷ rest

unfoldable pub cleaned : Text → Text
unfolding trim_start trim_end
cleaned seed = map to_lower (trim_end (trim_start (map replace_char seed)))

-- `StableId::new`.
unfoldable pub stable_id : IdKind → Text → Text
unfolding cleaned
stable_id kind seed = prefix kind ++ underscore ∷ cleaned seed

-- The characters of an identifier.
abbrev pub IsIdChar : ℕ → Type 0
IsIdChar c = (is_digit c || (is_lower c || c == underscore)) ≡ true

replaced_chars :
    (s : Text) → All (λ c. (is_alphanumeric c || c == underscore) ≡ true) (map replace_char s)
replaced_chars [] = tt
replaced_chars (c ∷ s) = (ground arith, replaced_chars s)

trim_start-All : (P : ℕ → Type 0) (s : Text) → All P s → All P (trim_start s)
unfolding trim_start
trim_start-All P [] h = h
trim_start-All P (c ∷ s) h = ground (arith, trim_start-All P s h.1)

trim_end-All : (P : ℕ → Type 0) (s : Text) → All P s → All P (trim_end s)
unfolding trim_end
trim_end-All P [] h = h
trim_end-All P (c ∷ s) h = ground (arith, trim_end-All P s h.1)

lowered :
    (s : Text)
    → All (λ c. (is_alphanumeric c || c == underscore) ≡ true) s
    → All IsIdChar (map to_lower s)
lowered [] h = tt
lowered (c ∷ s) h = (ground (arith, h.0), lowered s h.1)

prefix-every :
    (k : IdKind) → every (λ c. is_digit c || (is_lower c || c == underscore)) (prefix k) ≡ true
prefix-every profile = refl
prefix-every _ = refl

prefix-All : (k : IdKind) → All IsIdChar (prefix k)
prefix-All k = every-All _ (prefix k) (prefix-every k)

-- An identifier has only lower-case ASCII letters, digits and underscores, whatever its seed.
pub stable_id-All : (kind : IdKind) (seed : Text) → All IsIdChar (stable_id kind seed)
unfolding stable_id
stable_id-All kind seed =
    All-append _ (prefix kind) (underscore ∷ cleaned seed) (prefix-All kind)
      (refl, lowered _ (trim_end-All _ _ (trim_start-All _ _ (replaced_chars seed))))

map-append : (f : ℕ → ℕ) (xs ys : Text) → map f (xs ++ ys) ≡ map f xs ++ map f ys
map-append f [] ys = refl
map-append f (x ∷ xs) ys = ap (◌∷◌ (f x)) (map-append f xs ys)

-- Identifiers are not injective: seeds that differ in one character that is no ASCII letter or
-- digit have the same one.
pub stable_id_collides :
    (kind : IdKind) (front back : Text) (c d : ℕ)
    → is_alphanumeric c ≡ false
    → is_alphanumeric d ≡ false
    → stable_id kind (front ++ c ∷ back) ≡ stable_id kind (front ++ d ∷ back)
unfolding stable_id cleaned
stable_id_collides kind front back c d hc hd =
    ap (λ s. prefix kind ++ underscore ∷ map to_lower (trim_end (trim_start s))) same
  where
    same : map replace_char (front ++ c ∷ back) ≡ map replace_char (front ++ d ∷ back)
    same =
        rw
          (
            map-append replace_char front (c ∷ back),
            map-append replace_char front (d ∷ back),
            hc,
            hd,
          )
          refl
