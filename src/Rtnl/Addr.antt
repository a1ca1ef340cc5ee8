-- ===== src/Rtnl/Addr.antt =====
-- The part of Go's net/netip that internal/rtnl and internal/contract use: addresses without a
-- zone (netlink carries none) and prefixes. An invalid `Addr` or `Prefix` is `none` of an Option.
use molebridge.Base.{ℕ, ◌-◌, ◌%◌, ◌/◌, ◌^◌, Bool, true, false, Option, ◌==◌, ℕ_discrete}

-- Family of rtnl: V4 or V6.
pub data Family : Type 0 where
  v4 v6 : Family

unfoldable pub Family-discrete : Discrete Family
Family-discrete = hlevel

-- The address as a number below 2 ^ 32 or 2 ^ 128.
pub data Addr : Type 0 where
  ip4 ip6 : ℕ → Addr

unfoldable pub Addr-discrete : Discrete Addr
unfolding ℕ_discrete
Addr-discrete = hlevel ℕ_discrete

pub record Prefix : Type 0 where
  pub addr : Addr
  pub bits : ℕ

unfoldable pub Prefix-discrete : Discrete Prefix
unfolding ℕ_discrete
Prefix-discrete = hlevel ℕ_discrete

unfoldable pub OptPrefix-discrete : Discrete (Option Prefix)
unfolding ℕ_discrete
OptPrefix-discrete = hlevel ℕ_discrete

unfoldable pub OptAddr-discrete : Discrete (Option Addr)
unfolding ℕ_discrete
OptAddr-discrete = hlevel ℕ_discrete

abbrev pub bit_len : Addr → ℕ
bit_len (ip4 _) = 32
bit_len (ip6 _) = 128

abbrev pub is4 : Addr → Bool
is4 (ip4 _) = true
is4 (ip6 _) = false

abbrev pub is_v4 : Family → Bool
is_v4 v4 = true
is_v4 v6 = false

-- An IPv4-mapped IPv6 address: ::ffff:0:0/96.
abbrev pub is4_in6 : Addr → Bool
is4_in6 (ip4 _) = false
is4_in6 (ip6 n) = n / 2 ^ 32 == 0xffff

-- The prefix of a single address.
abbrev pub host_prefix : Addr → Prefix
host_prefix a = record { addr = a; bits = bit_len a }

clear_low : ℕ → ℕ → ℕ
clear_low n k = n - n % 2 ^ k

unfoldable pub mask_addr : Addr → ℕ → Addr
unfolding clear_low
mask_addr (ip4 n) bits = ip4 (clear_low n (32 - bits))
mask_addr (ip6 n) bits = ip6 (clear_low n (128 - bits))

-- The prefix with the bits behind its length cleared.
unfoldable pub masked : Prefix → Prefix
unfolding mask_addr
masked p = record p { addr = mask_addr p.addr p.bits }

-- Addresses of another family are never contained.
unfoldable pub covers : Addr → ℕ → Addr → Bool
covers (ip4 n) bits (ip4 m) = n / 2 ^ (32 - bits) == m / 2 ^ (32 - bits)
covers (ip6 n) bits (ip6 m) = n / 2 ^ (128 - bits) == m / 2 ^ (128 - bits)
covers _ _ _ = false

abbrev pub contains : Prefix → Addr → Bool
contains p a = covers p.addr p.bits a
