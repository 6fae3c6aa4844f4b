-- ===== src/Webhook/Examples.antt =====
-- Runs of the webhook delivery (crates/pengu-mesh-core/src/webhook.rs).
use pengu_mesh.Prelude.{
  ℕ, ◌-◌, ◌^◌, ◌≡◌, false, ◌≢◌, refl, ◌==◌, if◌then◌else◌, ◌↔◌, arith, true, false, Option, some,
  Text, codes, text_eq, Result, ok, err,
}
use pengu_mesh.Webhook.{
  Ipv4, host_v4, host_v6, ParsedUrl, is_blocked_host, validate_webhook_url, deliver_webhook,
}
use pengu_mesh.Webhook.Targets.{
  number, InBlockedRange, mapped, blocked_v4_ranges, mapped_not_blocked,
}
use pengu_mesh.Webhook.Retries.{Ends, deliver_webhook_attempts}

abbrev loopback : Ipv4
loopback = record { octet_a = 127; octet_b = 0; octet_c = 0; octet_d = 1 }

abbrev public_one : Ipv4
public_one = record { octet_a = 93; octet_b = 184; octet_c = 216; octet_d = 34 }

abbrev parse_public : Text → Option ParsedUrl
parse_public url = some (record { scheme = codes "https"; host = some (host_v4 public_one) })

abbrev parse_local : Text → Option ParsedUrl
parse_local url = some (record { scheme = codes "http"; host = some (host_v4 loopback) })

-- The first attempt is not answered, the second one is accepted.
abbrev second_time : ℕ → Result ℕ Text
second_time k = if k == 1 then err (codes "timeout") else ok 204

second_succeeds : (deliver_webhook second_time parse_public (codes "u") true 2).attempts ≡ 2
unfolding deliver_webhook is_blocked_host text_eq
second_succeeds = refl

-- At the maximum of `u32` the number of attempts wraps to 0.
maximum_never_sent :
    (deliver_webhook second_time parse_public (codes "u") true (2 ^ 32 - 1)).attempts ≡ 0
unfolding deliver_webhook is_blocked_host text_eq
maximum_never_sent = refl

blocked_v4_ranges_example :
    (is_blocked_host (host_v4 loopback) ≡ true) ↔ InBlockedRange (number loopback)
blocked_v4_ranges_example =
    blocked_v4_ranges loopback (omega arith, omega arith, omega arith, omega arith)

mapped_not_blocked_example : is_blocked_host (host_v6 (mapped loopback)) ≡ false
mapped_not_blocked_example = mapped_not_blocked loopback

deliver_webhook_attempts_example :
    Ends second_time 1 3 (deliver_webhook second_time parse_public (codes "u") true 2)
    × ((deliver_webhook second_time parse_public (codes "u") false 2).success ≡ false)
    × ((deliver_webhook second_time parse_public (codes "u") false 2).attempts ≡ 0)
unfolding validate_webhook_url is_blocked_host text_eq
deliver_webhook_attempts_example =
    deliver_webhook_attempts second_time parse_public (codes "u") 2 refl (omega arith)

local_refused : validate_webhook_url parse_local (codes "u") ≢ ok tt
unfolding validate_webhook_url is_blocked_host text_eq
local_refused e = cc
