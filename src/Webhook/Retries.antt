-- ===== src/Webhook/Retries.antt =====
-- How many requests a delivery makes (crates/pengu-mesh-core/src/webhook.rs).
use pengu_mesh.Prelude.{
  ℕ, zero, suc, ◌+◌, ◌-◌, ◌^◌, ◌≤◌, ◌<◌, ◌≡◌, ◌≢◌, refl, subst, ◌==◌, ◌⊎◌, inl, inr, Bool, true,
  false, Option, none, some, arith, if◌then◌else◌, Bool-cases, Text, Result, ok, err,
}
use pengu_mesh.Webhook.{
  WebhookDeliveryResult, DeliveryError, non_2xx, transport, is_2xx, attempt_from, deliver_webhook,
  ParsedUrl, validate_webhook_url, WebhookError, deliver_checked, total_attempts,
}

-- The request of an attempt gets a response with a 2xx status.
abbrev pub accepts : Result ℕ Text → Bool
accepts (ok status) = is_2xx status
accepts (err e) = false

from_next : (P : ℕ → Type 0) (first k : ℕ) → P first → (first + 1 ≤ k → P k) → first ≤ k → P k
from_next P first k here later h = elim (Bool-cases (first == k)) [
  | inl e ↦ let same : first ≡ k = ground arith in subst P same here
  | inr e ↦ later (ground arith)
]

module _ (send : ℕ → Result ℕ Text) where
  -- The first attempt, from one on, that is accepted ends the delivery; or all fail.
  abbrev pub Ends : ℕ → ℕ → WebhookDeliveryResult → Type 0
  Ends first total r =
      ((r.success ≡ true)
        × (first ≤ r.attempts)
        × (r.attempts ≤ total)
        × (accepts (send r.attempts) ≡ true)
        × ((k : ℕ) → first ≤ k → k < r.attempts → accepts (send k) ≡ false))
      ⊎ ((r.success ≡ false)
          × (r.attempts ≡ total)
          × ((k : ℕ) → first ≤ k → k ≤ total → accepts (send k) ≡ false))

  earlier-Ends :
      (first total : ℕ) (r : WebhookDeliveryResult)
      → accepts (send first) ≡ false
      → Ends (first + 1) total r
      → Ends first total r
  earlier-Ends first total r f (inl (s, lo, hi, a, h)) = inl (
    s,
    omega arith,
    hi,
    a,
    λ k l u. from_next (λ j. accepts (send j) ≡ false) first k f (λ m. h k m u) l,
  )
  earlier-Ends first total r f (inr (s, n, h)) =
      inr (s, n, λ k l u. from_next (λ j. accepts (send j) ≡ false) first k f (λ m. h k m u) l)

  attempt_from_lem :
      (total left attempt : ℕ) (status : Option ℕ) (e : Option DeliveryError)
      → attempt + left ≡ total + 1
      → Ends attempt total (attempt_from send total attempt left status e)
  unfolding attempt_from
  attempt_from_lem total zero attempt status e h = inr (refl, refl, λ k l u. absurd (omega arith))
  attempt_from_lem total (suc left) attempt status e h =
      go (send attempt)
        (λ status' e'. attempt_from_lem total left (attempt + 1) status' e' (omega arith)) refl
    where
      go :
          (r : Result ℕ Text)
          → ((status' : Option ℕ) (e' : Option DeliveryError)
              → Ends (attempt + 1) total (attempt_from send total (attempt + 1) left status' e'))
          → send attempt ≡ r
          → Ends attempt total (elim r [
            | ok s ↦
                let next = attempt_from send total (attempt + 1) left (some s) (some (non_2xx s)) in
                if is_2xx s
                then record {
                  status_code = some s;
                  success = true;
                  attempts = attempt;
                  error = none;
                }
                else next
            | err x ↦ attempt_from send total (attempt + 1) left status (some (transport x))
          ])
      go (ok s) rest q = elim (Bool-cases (is_2xx s)) [
        | inl t ↦ rw t (inl (refl, omega arith, omega arith, rw q t, λ k l u. absurd (omega arith)))
        | inr f ↦ rw f (
            earlier-Ends attempt total
              (attempt_from send total (attempt + 1) left (some s) (some (non_2xx s))) (rw q f)
              (rest _ _))
      ]
      go (err x) rest q =
          earlier-Ends attempt total
            (attempt_from send total (attempt + 1) left status (some (transport x))) (rw q refl)
            (rest _ _)

  -- A delivery to a valid URL, with retries below the maximum of `u32`: if the payload can be
  -- serialized, it ends within one attempt more than the retries, with success at the first attempt
  -- whose status is 2xx, or with failure after all of them, none of which was. If the payload
  -- cannot be serialized, it fails without an attempt, whatever requests return.
  pub deliver_webhook_attempts :
      (parse : Text → Option ParsedUrl) (url : Text) (max_retries : ℕ)
      → validate_webhook_url parse url ≡ ok tt
      → max_retries < 2 ^ 32 - 1
      → Ends 1 (1 + max_retries) (deliver_webhook send parse url true max_retries)
        × ((deliver_webhook send parse url false max_retries).success ≡ false)
        × ((deliver_webhook send parse url false max_retries).attempts ≡ 0)
  unfolding deliver_webhook
  deliver_webhook_attempts parse url max_retries v small =
      let no_wrap : total_attempts max_retries ≡ 1 + max_retries = omega arith in
      rw (v, no_wrap)
        (attempt_from_lem (1 + max_retries) (1 + max_retries) 1 none none (omega arith), refl, refl)

  -- A URL that the check refuses is never requested: the result does not depend on what requests
  -- return, and has no attempt.
  pub refused_not_requested :
      (parse : Text → Option ParsedUrl) (url : Text) (serialized : Bool) (max_retries : ℕ)
      (send' : ℕ → Result ℕ Text)
      → validate_webhook_url parse url ≢ ok tt
      → (deliver_webhook send parse url serialized max_retries
          ≡ deliver_webhook send' parse url serialized max_retries)
        × ((deliver_webhook send parse url serialized max_retries).attempts ≡ 0)
  unfolding deliver_webhook
  refused_not_requested parse url serialized max_retries send' n =
      go (validate_webhook_url parse url) n
    where
      go :
          (r : Result (Unit {0}) WebhookError)
          → r ≢ ok tt
          → (deliver_checked send r serialized max_retries
              ≡ deliver_checked send' r serialized max_retries)
            × ((deliver_checked send r serialized max_retries).attempts ≡ 0)
      go (ok _) m = absurd (m refl)
      go (err e) m = (refl, refl)
