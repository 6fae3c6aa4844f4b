-- ===== src/Webhook/Targets.antt =====
-- Which hosts a webhook may not reach (crates/pengu-mesh-core/src/webhook.rs).
use pengu_mesh.Prelude.{ℕ, ◌+◌, ◌*◌, ◌≤◌, ◌<◌, ◌≡◌, ◌↔◌, ◌⊎◌, true, false, arith}
use pengu_mesh.Webhook.{Ipv4, Ipv6, host_v4, host_v6, is_blocked_host}

-- The address as a number of 32 bits.
abbrev pub number : Ipv4 → ℕ
number v = v.octet_a * 16777216 + v.octet_b * 65536 + v.octet_c * 256 + v.octet_d

abbrev pub IsAddress : Ipv4 → Type 0
IsAddress v = (v.octet_a < 256) × (v.octet_b < 256) × (v.octet_c < 256) × (v.octet_d < 256)

-- The blocked IPv4 addresses as ranges of numbers: 10/8, 172.16/12, 192.168/16, 127/8, 169.254/16,
-- the broadcast address and the unspecified one.
abbrev pub InBlockedRange : ℕ → Type 0
InBlockedRange n =
    ((167772160 ≤ n) × (n < 184549376))
    ⊎ ((2886729728 ≤ n) × (n < 2887778304))
    ⊎ ((3232235520 ≤ n) × (n < 3232301056))
    ⊎ ((2130706432 ≤ n) × (n < 2147483648))
    ⊎ ((2851995648 ≤ n) × (n < 2852061184))
    ⊎ (n ≡ 4294967295)
    ⊎ (n ≡ 0)

-- An IPv4 host, with octets below 256, is blocked exactly when its number is in one of the
-- blocked ranges.
pub blocked_v4_ranges :
    (v : Ipv4) → IsAddress v → (is_blocked_host (host_v4 v) ≡ true) ↔ InBlockedRange (number v)
unfolding is_blocked_host
blocked_v4_ranges v h = (λ e. ground arith, λ r. ground arith)

-- The IPv6 address that maps an IPv4 address.
abbrev pub mapped : Ipv4 → Ipv6
mapped v = record {
  seg_0 = 0;
  seg_1 = 0;
  seg_2 = 0;
  seg_3 = 0;
  seg_4 = 0;
  seg_5 = 65535;
  seg_6 = v.octet_a * 256 + v.octet_b;
  seg_7 = v.octet_c * 256 + v.octet_d;
}

-- The IPv6 address that maps an IPv4 address is never blocked, though the address itself may be.
pub mapped_not_blocked : (v : Ipv4) → is_blocked_host (host_v6 (mapped v)) ≡ false
unfolding is_blocked_host
mapped_not_blocked v = ground arith
