-- ===== src/Capability/Examples.antt =====
-- Runs of the capability gate (crates/pengu-mesh-shared/src/capability.rs and its callers in
-- crates/pengu-mesh-core/src/lib.rs).
use pengu_mesh.Prelude.{ℕ, ◌≡◌, refl, Bool, ◌==◌, [], ◌∷◌, codes, text_eq, exists, true, All}
use pengu_mesh.Capability.{
  dangerous, default_policy, evaluate, allowed, default_capabilities, parse_capability_grants,
}
use pengu_mesh.Capability.Gate.{dangerous_needs_grant}
use pengu_mesh.Capability.Grants.{with_commas, parse-with_commas}

abbrev is_space : ℕ → Bool
is_space c = c == b' '

dangerous_needs_grant_example :
    All
      (λ c.
        c.risk_tier ≡ dangerous
        → evaluate default_policy c ≡ allowed
        → exists (λ g. text_eq g c.name) default_policy.explicit_grants ≡ true)
      default_capabilities
dangerous_needs_grant_example = dangerous_needs_grant default_policy

parse-with_commas_example :
    parse_capability_grants is_space (with_commas (codes "click" ∷ codes "fill" ∷ []))
    ≡ codes "click" ∷ codes "fill" ∷ []
unfolding text_eq
parse-with_commas_example =
    parse-with_commas is_space (codes "click" ∷ codes "fill" ∷ []) ((refl, tt), (tt, tt))
      (refl, (refl, tt))
      ((refl, (refl, (refl, (refl, (refl, tt))))), ((refl, (refl, (refl, (refl, tt)))), tt))
