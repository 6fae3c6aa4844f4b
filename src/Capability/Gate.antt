-- ===== src/Capability/Gate.antt =====
-- What the capability gate allows (crates/pengu-mesh-shared/src/capability.rs and the posture,
-- the preflight and the check in crates/pengu-mesh-core/src/lib.rs).
use pengu_mesh.Prelude.{
  ℕ, ◌+◌, ◌≡◌, refl, ap, subst, ◌⊎◌, inl, inr, ◌↔◌, Bool, true, false, not, ◌||◌, ◌&&◌, none, some,
  List, [], ◌∷◌, ◌++◌, arith, if◌then◌else◌, Bool-cases, Text, text_eq, text_eq_iff, text_eq_refl,
  length, length-append, keep, find_first, every, exists, All, All-mono, every-All, Pairwise, ok,
  err,
}
use pengu_mesh.Capability.{
  CapabilityRiskTier, dangerous, CapabilityDescriptor, CapabilityGatePolicy, CapabilityDecision,
  allowed, denied, requires_grant, evaluate, default_capabilities, is_allowed, CapabilityPosture,
  count_tier, count_decision, posture_from, no_posture, capability_posture,
  CapabilityPreflightPayload, unknown_capability, capability_preflight, preflight_of,
  require_capability_allowed_by_policy, as_result,
}

abbrev pub grant : Text → CapabilityGatePolicy → CapabilityGatePolicy
grant g p = record p { explicit_grants = g ∷ p.explicit_grants }

-- One more explicit grant allows the capability that it names, and changes no other decision.
pub evaluate-grant :
    (p : CapabilityGatePolicy) (g : Text) (c : CapabilityDescriptor)
    → evaluate (grant g p) c ≡ (if text_eq g c.name then allowed else evaluate p c)
unfolding evaluate
evaluate-grant p g c = ground arith

abbrev is_dangerous : CapabilityRiskTier → Bool
is_dangerous dangerous = true
is_dangerous _ = false

dangerous_requires :
    every (λ c. not (is_dangerous c.risk_tier) || c.requires_explicit_grant) default_capabilities
    ≡ true
unfolding default_capabilities
dangerous_requires = refl

needs_grant :
    (p : CapabilityGatePolicy) (c : CapabilityDescriptor)
    → c.requires_explicit_grant ≡ true
    → evaluate p c ≡ allowed
    → exists (λ g. text_eq g c.name) p.explicit_grants ≡ true
unfolding evaluate
needs_grant p c h e = ground arith

-- Whatever tiers a policy allows, a dangerous capability of the built-in ones is allowed only by an
-- explicit grant of its name.
pub dangerous_needs_grant :
    (p : CapabilityGatePolicy)
    → All
        (λ c.
          c.risk_tier ≡ dangerous
          → evaluate p c ≡ allowed
          → exists (λ g. text_eq g c.name) p.explicit_grants ≡ true)
        default_capabilities
dangerous_needs_grant p =
    All-mono _ _ default_capabilities (λ c h t e. needs_grant p c (ground arith) e)
      (every-All (λ c. not (is_dangerous c.risk_tier) || c.requires_explicit_grant)
        default_capabilities dangerous_requires)

-- What the counters of a posture add up to.
abbrev Sums : CapabilityPosture → ℕ → Type 0
Sums s n =
    (s.safe_count + s.elevated_count + s.dangerous_count ≡ n)
    × (s.allowed_count + s.denied_count + s.requires_grant_count ≡ n)
    × (length s.decisions ≡ n)

counted-Sums :
    (s : CapabilityPosture) (t : CapabilityRiskTier) (d : CapabilityDecision) (n : ℕ)
    → Sums s n
    → Sums
        (record (count_decision d (count_tier t s)) { decisions = s.decisions ++ d ∷ [] })
        (n + 1)
counted-Sums s t d n h = ground (arith, length-append s.decisions (d ∷ []))

posture_from-Sums :
    (p : CapabilityGatePolicy) (cs : List CapabilityDescriptor) (s : CapabilityPosture) (n : ℕ)
    → Sums s n
    → Sums (posture_from p s cs) (n + length cs)
unfolding posture_from
posture_from-Sums p [] s n h = ground arith
posture_from-Sums p (c ∷ cs) s n h =
    let shift : n + 1 + length cs ≡ n + length (c ∷ cs) = omega arith in
    subst (Sums (posture_from p s (c ∷ cs))) shift
      (posture_from-Sums p cs _ (n + 1) (counted-Sums s c.risk_tier (evaluate p c) n h))

-- In a posture the three tiers, and the three decisions, add up to the total, which is the number
-- of the built-in capabilities.
pub capability_posture_totals :
    (p : CapabilityGatePolicy)
    → ((capability_posture p).total ≡ length default_capabilities)
      × ((capability_posture p).safe_count
            + (capability_posture p).elevated_count
            + (capability_posture p).dangerous_count
          ≡ (capability_posture p).total)
      × ((capability_posture p).allowed_count
            + (capability_posture p).denied_count
            + (capability_posture p).requires_grant_count
          ≡ (capability_posture p).total)
unfolding capability_posture
capability_posture_totals p =
    let h : Sums (posture_from p no_posture default_capabilities)
        (0 + length default_capabilities) =
      posture_from-Sums p default_capabilities no_posture 0 (refl, refl, refl) in
    ground arith

-- Of descriptors with different names, at most one has a name.
module _ (name : Text) where
  none_named :
      (c : CapabilityDescriptor) (cs : List CapabilityDescriptor)
      → All (λ d. text_eq c.name d.name ≡ false) cs
      → text_eq c.name name ≡ true
      → keep (λ d. text_eq d.name name) cs ≡ []
  none_named c [] h e = refl
  none_named c (d ∷ cs) h e = ground (
    arith,
    none_named c cs h.1 e,
    text_eq_iff c.name name,
    text_eq_iff d.name name,
    text_eq_refl name,
  )

  named :
      (cs : List CapabilityDescriptor)
      → Pairwise (λ c d. text_eq c.name d.name ≡ false) cs
      → ((keep (λ d. text_eq d.name name) cs ≡ [])
          × (find_first (λ d. text_eq d.name name) cs ≡ none))
        ⊎ ((c : CapabilityDescriptor) × (keep (λ d. text_eq d.name name) cs ≡ c ∷ [])
            × (find_first (λ d. text_eq d.name name) cs ≡ some c))
  named [] h = inl (refl, refl)
  named (c ∷ cs) h = elim (Bool-cases (text_eq c.name name)) [
    | inl e ↦ rw e (inr (c, ap (◌∷◌ c) (none_named c cs h.0 e), refl))
    | inr e ↦ rw e (named cs h.1)
  ]

abbrev distinct_names : List CapabilityDescriptor → Bool
distinct_names [] = true
distinct_names (c ∷ cs) = every (λ d. not (text_eq c.name d.name)) cs && distinct_names cs

distinct-Pairwise :
    (cs : List CapabilityDescriptor)
    → distinct_names cs ≡ true
    → Pairwise (λ c d. text_eq c.name d.name ≡ false) cs
distinct-Pairwise [] h = tt
distinct-Pairwise (c ∷ cs) h = (
  All-mono _ _ cs (λ d e. ground arith)
      (every-All (λ d. not (text_eq c.name d.name)) cs (ground arith)),
  distinct-Pairwise cs (ground arith),
)

default_distinct : distinct_names default_capabilities ≡ true
unfolding default_capabilities text_eq
default_distinct = refl

default_names : Pairwise (λ c d. text_eq c.name d.name ≡ false) default_capabilities
default_names = distinct-Pairwise default_capabilities default_distinct

decision_iff : (d : CapabilityDecision) → (is_allowed d && true ≡ true) ↔ (as_result d ≡ ok tt)
decision_iff allowed = (λ h. refl, λ h. refl)
decision_iff denied = (λ h. cc, λ h. cc)
decision_iff (requires_grant name) = (λ h. cc, λ h. cc)

ready_iff :
    (p : CapabilityGatePolicy) (c : CapabilityDescriptor)
    → ((preflight_of p (c ∷ [])).ready ≡ true) ↔ (as_result (evaluate p c) ≡ ok tt)
unfolding preflight_of
ready_iff p c = decision_iff (evaluate p c)

-- The preflight of a capability and its check agree: both refuse an unknown name, and for a known
-- one the preflight is ready exactly when the check passes.
pub preflight_agrees :
    (p : CapabilityGatePolicy) (name : Text)
    → ((capability_preflight p (some name) ≡ err (unknown_capability name))
        × (require_capability_allowed_by_policy name p ≡ err (unknown_capability name)))
      ⊎ ((payload : CapabilityPreflightPayload) × (capability_preflight p (some name) ≡ ok payload)
          × ((payload.ready ≡ true) ↔ (require_capability_allowed_by_policy name p ≡ ok tt)))
unfolding capability_preflight require_capability_allowed_by_policy
preflight_agrees p name = elim (named name default_capabilities default_names) [
  | inl (k, f) ↦ rw (k, f) (inl (refl, refl))
  | inr (c, k, f) ↦ rw (k, f) (inr (preflight_of p (c ∷ []), refl, ready_iff p c))
]
