-- ===== src/Rtnl/Route.antt =====
-- internal/rtnl/route.go and snapshot.go: routes, interfaces, addresses and the snapshot.
use molebridge.Base.{
  ℕ, Bool, false, not, ◌&&◌, Option, none, some, List, [], ◌∷◌, ◌==◌, same, is_some, keep, Text,
  Text-discrete, ℕ_discrete, has_bits, if◌then◌else◌,
}
use molebridge.Rtnl.Addr.{Family, Addr, Prefix}
use molebridge.Rtnl.Rule.{Rule}

pub record Route : Type 0 where
  pub family : Family
  pub dst : Option Prefix
  pub table : ℕ
  pub kind : ℕ
  pub scope : ℕ
  pub protocol : ℕ
  pub flags : ℕ
  pub oif : Option ℕ
  pub gateway : Option Addr
  pub pref_src : Option Addr
  pub metric : ℕ
  pub tos : ℕ
  pub src : Option Prefix
  pub iif : Option ℕ
  pub via : Bool
  pub multi_path : Bool
  pub nhid : Option ℕ
  pub encap : Bool
  pub other : ℕ

unfoldable pub Route-discrete : Discrete Route
unfolding ℕ_discrete
Route-discrete = hlevel ℕ_discrete

-- Go's composite literal with the fields that are not named left zero.
abbrev pub new_route : Family → Option Prefix → ℕ → ℕ → Route
new_route f d t k = record {
  family = f;
  dst = d;
  table = t;
  kind = k;
  scope = 0;
  protocol = 0;
  flags = 0;
  oif = none;
  gateway = none;
  pref_src = none;
  metric = 0;
  tos = 0;
  src = none;
  iif = none;
  via = false;
  multi_path = false;
  nhid = none;
  encap = false;
  other = 0;
}

abbrev pub rtn_unicast : ℕ
rtn_unicast = 1

abbrev pub rtn_blackhole : ℕ
rtn_blackhole = 6

abbrev pub rtn_unreachable : ℕ
rtn_unreachable = 7

abbrev pub rtn_prohibit : ℕ
rtn_prohibit = 8

abbrev pub rtn_throw : ℕ
rtn_throw = 9

abbrev pub rt_proto_boot : ℕ
rt_proto_boot = 3

abbrev pub rt_scope_universe : ℕ
rt_scope_universe = 0

abbrev pub rt_scope_link : ℕ
rt_scope_link = 253

abbrev pub rtnh_f_dead : ℕ
rtnh_f_dead = 0x1

abbrev pub rtnh_f_onlink : ℕ
rtnh_f_onlink = 0x4

abbrev pub rtnh_f_linkdown : ℕ
rtnh_f_linkdown = 0x10

unfoldable pub unconditional : Route → Bool
unconditional r = r.tos == 0 && (not (is_some r.src) && not (is_some r.iif))

abbrev zero_length : Option Prefix → Bool
zero_length none = false
zero_length (some p) = p.bits == 0

unfoldable pub is_default : Route → Bool
is_default r = zero_length r.dst

unfoldable pub link_down : Route → Bool
link_down r = has_bits r.flags rtnh_f_linkdown

unfoldable pub on_link : Route → Bool
on_link r = has_bits r.flags rtnh_f_onlink

pub record Link : Type 0 where
  pub index : ℕ
  pub name : Text
  pub flags : ℕ
  pub mtu : ℕ
  pub kind : Text

unfoldable pub up : Link → Bool
up l = has_bits l.flags 0x1

-- An address of an interface; `Local` of the source is never invalid (DecodeAddr refuses one).
pub record IfAddr : Type 0 where
  pub family : Family
  pub index : ℕ
  pub local : Prefix
  pub scope : ℕ
  pub flags : ℕ

unfoldable pub global : IfAddr → Bool
global a = a.scope == rt_scope_universe

-- Go's maps by family are functions; a missing key gives the empty list in both.
pub record Snapshot : Type 0 where
  pub unstable : Bool
  pub rules : Family → List Rule
  pub routes : Family → List Route
  pub links : List Link
  pub addrs : Family → List IfAddr

find_link : Text → List Link → Option Link
unfolding Text-discrete
find_link name [] = none
find_link name (l ∷ ls) =
    let rest = find_link name ls in if same Text-discrete l.name name then some l else rest

unfoldable pub link : Snapshot → Text → Option Link
unfolding find_link
link s name = find_link name s.links

unfoldable pub routes_in_table : Snapshot → Family → ℕ → List Route
routes_in_table s f t = keep (λ r. r.table == t) (s.routes f)

first_global : ℕ → List IfAddr → Option Addr
unfolding global
first_global i [] = none
first_global i (a ∷ as') =
    let rest = first_global i as' in if a.index == i && global a then some a.local.addr else rest

unfoldable pub global_addr : Snapshot → Text → Family → Option Addr
unfolding link first_global
global_addr s name f = elim (link s name) [
  | none ↦ none
  | some l ↦ first_global l.index (s.addrs f)
]
