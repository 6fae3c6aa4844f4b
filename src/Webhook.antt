-- ===== src/Webhook.antt =====
-- crates/pengu-mesh-core/src/webhook.rs: the check of a webhook's URL and the retries of a delivery.
-- What other crates do is a parameter: `parse` (Url::parse, with the scheme and the host of the
-- result), `serialize` (serde_json::to_vec, whether it succeeds) and `send` (the outcome of the
-- request of an attempt).
pub mod Targets
pub mod Retries
mod Examples
use pengu_mesh.Prelude.{
  ℕ, zero, suc, ◌+◌, ◌/◌, ◌%◌, ◌^◌, Bool, true, false, not, ◌&&◌, ◌||◌, Option, none, some, List,
  [], ◌∷◌, map, ◌==◌, leb, ltb, if◌then◌else◌, Text, text_eq, codes, Result, ok, err,
}
use pengu_mesh.StableId.{to_lower}

pub data WebhookError : Type 0 where
  invalid_url invalid_scheme ssrf_blocked : WebhookError

-- The octets of an IPv4 address, and the segments of an IPv6 address.
pub record Ipv4 : Type 0 where
  pub octet_a : ℕ
  pub octet_b : ℕ
  pub octet_c : ℕ
  pub octet_d : ℕ

pub record Ipv6 : Type 0 where
  pub seg_0 : ℕ
  pub seg_1 : ℕ
  pub seg_2 : ℕ
  pub seg_3 : ℕ
  pub seg_4 : ℕ
  pub seg_5 : ℕ
  pub seg_6 : ℕ
  pub seg_7 : ℕ

pub data Host : Type 0 where
  host_v4 : Ipv4 → Host
  host_v6 : Ipv6 → Host
  host_domain : Text → Host

abbrev pub is_private : Ipv4 → Bool
is_private v =
    v.octet_a == 10
    || ((v.octet_a == 172 && (leb 16 v.octet_b && leb v.octet_b 31))
        || (v.octet_a == 192 && v.octet_b == 168))

abbrev pub is_broadcast : Ipv4 → Bool
is_broadcast v = v.octet_a == 255 && (v.octet_b == 255 && (v.octet_c == 255 && v.octet_d == 255))

abbrev pub is_unspecified : Ipv4 → Bool
is_unspecified v = v.octet_a == 0 && (v.octet_b == 0 && (v.octet_c == 0 && v.octet_d == 0))

unfoldable pub is_blocked_v4 : Ipv4 → Bool
is_blocked_v4 v =
    is_private v
    || (v.octet_a == 127
        || ((v.octet_a == 169 && v.octet_b == 254) || (is_broadcast v || is_unspecified v)))

abbrev pub high_segments_zero : Ipv6 → Bool
high_segments_zero v =
    v.seg_0 == 0
    && (v.seg_1 == 0
        && (v.seg_2 == 0 && (v.seg_3 == 0 && (v.seg_4 == 0 && (v.seg_5 == 0 && v.seg_6 == 0)))))

-- `seg_0 & 0xfe00 == 0xfc00` and `seg_0 & 0xffc0 == 0xfe80`: the first 7 and the first 10 bits.
unfoldable pub is_blocked_v6 : Ipv6 → Bool
is_blocked_v6 v =
    (high_segments_zero v && v.seg_7 == 1)
    || (v.seg_0 / 512 == 126 || (v.seg_0 / 64 == 1018 || (high_segments_zero v && v.seg_7 == 0)))

unfoldable pub ends_with : Text → Text → Bool
ends_with suffix [] = text_eq [] suffix
ends_with suffix (c ∷ s) = text_eq (c ∷ s) suffix || ends_with suffix s

unfoldable pub is_blocked_domain : Text → Bool
unfolding ends_with
is_blocked_domain domain =
    let lower = map to_lower domain in
    text_eq lower (codes "localhost") || ends_with (codes ".localhost") lower

unfoldable pub is_blocked_host : Host → Bool
unfolding is_blocked_v4 is_blocked_v6 is_blocked_domain
is_blocked_host (host_v4 v) = is_blocked_v4 v
is_blocked_host (host_v6 v) = is_blocked_v6 v
is_blocked_host (host_domain d) = is_blocked_domain d

pub record ParsedUrl : Type 0 where
  pub scheme : Text
  pub host : Option Host

abbrev pub check_host : Option Host → Result (Unit {0}) WebhookError
check_host none = err invalid_url
check_host (some h) = if is_blocked_host h then err ssrf_blocked else ok tt

abbrev pub check_parsed : Option ParsedUrl → Result (Unit {0}) WebhookError
check_parsed none = err invalid_url
check_parsed (some u) =
    if text_eq u.scheme (codes "http") || text_eq u.scheme (codes "https")
    then check_host u.host
    else err invalid_scheme

unfoldable pub validate_webhook_url :
    (Text → Option ParsedUrl) → Text → Result (Unit {0}) WebhookError
validate_webhook_url parse url = check_parsed (parse url)

pub data DeliveryError : Type 0 where
  refused : WebhookError → DeliveryError
  not_serialized : DeliveryError
  non_2xx : ℕ → DeliveryError
  transport : Text → DeliveryError

pub record WebhookDeliveryResult : Type 0 where
  pub status_code : Option ℕ
  pub success : Bool
  pub attempts : ℕ
  pub error : Option DeliveryError

abbrev pub is_2xx : ℕ → Bool
is_2xx status = leb 200 status && ltb status 300

-- `1 + config.max_retries` of `u32`, which wraps in a release build; a debug build panics there.
abbrev pub total_attempts : ℕ → ℕ
total_attempts max_retries = (1 + max_retries) % 2 ^ 32

module _ (send : ℕ → Result ℕ Text) where
  -- The loop: the attempt, how many are left after the ones made, and the last status and error.
  unfoldable pub attempt_from : ℕ → ℕ → ℕ → Option ℕ → Option DeliveryError → WebhookDeliveryResult
  attempt_from total attempt zero last_status last_error = record {
    status_code = last_status;
    success = false;
    attempts = total;
    error = last_error;
  }
  attempt_from total attempt (suc left) last_status last_error = elim (send attempt) [
    | ok status ↦
        let next = attempt_from total (attempt + 1) left (some status) (some (non_2xx status)) in
        if is_2xx status
        then record { status_code = some status; success = true; attempts = attempt; error = none }
        else next
    | err e ↦ attempt_from total (attempt + 1) left last_status (some (transport e))
  ]

  abbrev pub not_sent : DeliveryError → WebhookDeliveryResult
  not_sent e = record { status_code = none; success = false; attempts = 0; error = some e }

  abbrev pub deliver_valid : Bool → ℕ → WebhookDeliveryResult
  deliver_valid serialized max_retries =
      if serialized
      then attempt_from (total_attempts max_retries) 1 (total_attempts max_retries) none none
      else not_sent not_serialized

  abbrev pub deliver_checked : Result (Unit {0}) WebhookError → Bool → ℕ → WebhookDeliveryResult
  deliver_checked (err e) serialized max_retries = not_sent (refused e)
  deliver_checked (ok _) serialized max_retries = deliver_valid serialized max_retries

  unfoldable pub deliver_webhook :
      (Text → Option ParsedUrl) → Text → Bool → ℕ → WebhookDeliveryResult
  unfolding attempt_from validate_webhook_url
  deliver_webhook parse url serialized max_retries =
      deliver_checked (validate_webhook_url parse url) serialized max_retries
