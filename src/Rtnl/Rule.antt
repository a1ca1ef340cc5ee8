-- ===== src/Rtnl/Rule.antt =====
-- internal/rtnl/rule.go: a FIB rule as the kernel reports it, and internal/rtnl/consts.go.
use molebridge.Base.{
  ℕ, ◌+◌, Bool, false, Option, none, some, List, [], ◌==◌, Text, has_bits, bit_clear, if◌then◌else◌,
}
use molebridge.Rtnl.Addr.{Family, Prefix}

pub record RawAttr : Type 0 where
  pub typ : ℕ
  pub payload : List ℕ

-- An `Opt` is an Option, an unset prefix is `none`, an unset name is the empty text.
pub record Rule : Type 0 where
  pub family : Family
  pub priority : ℕ
  pub action : ℕ
  pub table : ℕ
  pub flags : ℕ
  pub tos : ℕ
  pub src : Option Prefix
  pub dst : Option Prefix
  pub iif_name : Text
  pub oif_name : Text
  pub fw_mark : Option ℕ
  pub fw_mask : Option ℕ
  pub ip_proto : Option ℕ
  pub suppress_prefix_len : Option ℕ
  pub suppress_if_group : Option ℕ
  pub goto : Option ℕ
  pub l3_mdev : Option ℕ
  pub protocol : Option ℕ
  pub unknown : List RawAttr
  pub bad : Bool

-- Go's composite literal `Rule{Family: f, Priority: p, Action: a}`.
abbrev pub new_rule : Family → ℕ → ℕ → Rule
new_rule f p a = record {
  family = f;
  priority = p;
  action = a;
  table = 0;
  flags = 0;
  tos = 0;
  src = none;
  dst = none;
  iif_name = [];
  oif_name = [];
  fw_mark = none;
  fw_mask = none;
  ip_proto = none;
  suppress_prefix_len = none;
  suppress_if_group = none;
  goto = none;
  l3_mdev = none;
  protocol = none;
  unknown = [];
  bad = false;
}

abbrev pub fr_act_to_tbl : ℕ
fr_act_to_tbl = 1

abbrev pub fr_act_goto : ℕ
fr_act_goto = 2

abbrev pub fr_act_nop : ℕ
fr_act_nop = 3

abbrev pub fr_act_blackhole : ℕ
fr_act_blackhole = 6

abbrev pub fr_act_unreachable : ℕ
fr_act_unreachable = 7

abbrev pub fr_act_prohibit : ℕ
fr_act_prohibit = 8

abbrev pub fib_rule_permanent : ℕ
fib_rule_permanent = 0x1

abbrev pub fib_rule_invert : ℕ
fib_rule_invert = 0x2

abbrev pub fib_rule_iif_detached : ℕ
fib_rule_iif_detached = 0x8

abbrev pub fib_rule_oif_detached : ℕ
fib_rule_oif_detached = 0x10

abbrev pub table_main : ℕ
table_main = 254

abbrev pub table_local : ℕ
table_local = 255

-- The bits that `bookkeepingFlags` joins.
abbrev pub bookkeeping_flags : ℕ
bookkeeping_flags = fib_rule_permanent + fib_rule_iif_detached + fib_rule_oif_detached

unfoldable pub invert : Rule → Bool
invert r = has_bits r.flags fib_rule_invert

unfoldable pub iif_detached : Rule → Bool
iif_detached r = has_bits r.flags fib_rule_iif_detached

unfoldable pub oif_detached : Rule → Bool
oif_detached r = has_bits r.flags fib_rule_oif_detached

unfoldable pub extra_flags : Rule → ℕ
unfolding bit_clear
extra_flags r = bit_clear r.flags (bookkeeping_flags + fib_rule_invert)

abbrev pub opt_or_zero : Option ℕ → ℕ
opt_or_zero none = 0
opt_or_zero (some v) = v

unfoldable pub effective_mask : ℕ → Option ℕ → ℕ
effective_mask mark (some mask) = mask
effective_mask mark none = if mark == 0 then 0 else 0xffffffff

-- The mark and the mask; an absent mark is 0.
unfoldable pub effective_mark : Rule → ℕ × ℕ
unfolding effective_mask
effective_mark r = let mark = opt_or_zero r.fw_mark in (mark, effective_mask mark r.fw_mask)
