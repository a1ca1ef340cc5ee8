-- ===== src/Contract/Routing.antt =====
-- internal/contract/status.go: the status of the whole namespace, and what else it looks at.
pub mod Guarded
use molebridge.Base.{
  ℕ, Bool, true, false, not, ◌&&◌, ◌||◌, Option, none, some, List, [], ◌∷◌, ◌==◌, length, same,
  is_some, all, any, keep, Text, Text-discrete, bytes, if◌then◌else◌,
}
use molebridge.Rtnl.Addr.{Family, v4, v6, is_v4, Addr, Prefix, OptPrefix-discrete}
use molebridge.Rtnl.Route.{
  Route, IfAddr, Link, Snapshot, link, global, is_default, unconditional, routes_in_table,
  rtn_unicast,
}
use molebridge.Contract.Config.{is_native_sidecar}
use molebridge.Contract.Spec.{Spec}
use molebridge.Contract.Routes.{out_of}
use molebridge.Contract.Status.{StatusOptions, family_status}

-- The address of a family: nothing yet, one, or a second one, which ends the function.
pub data Sole : Type 0 where
  no_addr several : Sole
  one_addr : Addr → Sole

unfoldable pub add_sole : IfAddr → Sole → Sole
add_sole a no_addr = one_addr a.local.addr
add_sole a _ = several

-- The loop over the addresses of one family.
unfoldable pub sole_addr : ℕ → List IfAddr → Sole → Sole
unfolding global add_sole
sole_addr i [] seen = seen
sole_addr i (a ∷ as') seen =
    sole_addr i as' (if not (a.index == i) || not (global a) then seen else add_sole a seen)

pub record RoutingOptions : Type 0 where
  pub require_address : Bool
  pub return_path : Bool

abbrev pub opt_addr : Sole → Option Addr
opt_addr (one_addr a) = some a
opt_addr _ = none

abbrev pub is_several : Sole → Bool
is_several several = true
is_several _ = false

abbrev pub status_of : Spec → Snapshot → Link → Sole → Family → Bool × Bool
status_of s snap l a f =
    family_status s f (snap.rules f) (routes_in_table snap f s.config.table)
      (record { tunnel_address = opt_addr a; no_tunnel_route = false; exit_if_index = l.index })

-- `protected` and `fallback`.
unfoldable pub routing_status : Spec → Snapshot → RoutingOptions → Bool × Bool
unfolding link sole_addr
routing_status s snap opt =
    let native = is_native_sidecar s.config in
    if not native && not (is_some (link snap s.config.overlay_if))
    then (false, false)
    else elim (link snap s.config.exit_if) [
      | none ↦ (false, false)
      | some l ↦
          let a4 = sole_addr l.index (snap.addrs v4) no_addr in
          let a6 = sole_addr l.index (snap.addrs v6) no_addr in
          if is_several a4 || is_several a6
          then (false, false)
          else if not (is_some (opt_addr a4)) && opt.require_address
          then (false, false)
          else let s4 = status_of s snap l a4 v4 in
            let s6 = status_of s snap l a6 v6 in
            ((opt.return_path || native) && (s4.0 && s6.0), s4.1 && s6.1)
    ]

-- A set of destinations, as a list without repetition.
abbrev pub has_dst : List (Option Prefix) → Option Prefix → Bool
has_dst ds d = any (λ e. same OptPrefix-discrete e d) ds

abbrev pub put_dst : Option Prefix → List (Option Prefix) → List (Option Prefix)
put_dst d ds = if has_dst ds d then ds else d ∷ ds

unfoldable pub is_host_route : ℕ → Route → Bool
unfolding unconditional is_default
is_host_route i r =
    r.kind == rtn_unicast
    && (not (i == 0)
        && (out_of i r.oif
            && (not r.multi_path
                && (not r.encap
                    && (not (is_some r.nhid)
                        && (unconditional r && (not (is_some r.gateway) || is_default r)))))))

-- `hostDestinations`
unfoldable pub host_destinations :
    ℕ → List (Option Prefix) → List Route → Option (List (Option Prefix))
unfolding is_host_route OptPrefix-discrete
host_destinations i ds [] = some ds
host_destinations i ds (r ∷ rs) =
    if is_host_route i r then host_destinations i (put_dst r.dst ds) rs else none

unfoldable pub is_main_host_route : ℕ → Route → Bool
unfolding is_default
is_main_host_route i r =
    r.kind == rtn_unicast
    && (not (i == 0)
        && (out_of i r.oif
            && (not r.encap
                && (not r.multi_path
                    && (not (is_some r.nhid) && (not (is_some r.gateway) || is_default r))))))

-- `wanted`: the destinations of the main table's routes.
unfoldable pub main_destinations : ℕ → List (Option Prefix) → List Route → List (Option Prefix)
unfolding is_main_host_route OptPrefix-discrete
main_destinations i ds [] = ds
main_destinations i ds (r ∷ rs) =
    main_destinations i (if is_main_host_route i r then put_dst r.dst ds else ds) rs

abbrev no_bits : Option Prefix → Bool
no_bits none = false
no_bits (some p) = p.bits == 0

abbrev same_dsts : List (Option Prefix) → List (Option Prefix) → Bool
same_dsts wanted found = length wanted == length found && all (has_dst found) wanted

-- The main table's routes are an Option: `haveMain` says that they are given.
unfoldable pub host_table_status : List Route → ℕ → Family → Option (List Route) → Bool
unfolding host_destinations main_destinations OptPrefix-discrete
host_table_status routes i f main = elim (host_destinations i [] routes) [
  | none ↦ false
  | some found ↦
      elim main [ none ↦ true | some rs ↦ same_dsts (main_destinations i [] rs) found ]
      && (any no_bits found || not (is_v4 f))
]

-- The first interface of the name decides.
unfoldable pub overlay_is_kernel_wireguard : List Link → Text → Bool
unfolding Text-discrete
overlay_is_kernel_wireguard [] name = false
overlay_is_kernel_wireguard (l ∷ ls) name =
    let rest = overlay_is_kernel_wireguard ls name in
    if same Text-discrete l.name name then same Text-discrete l.kind (bytes "wireguard") else rest

pub record NftChain : Type 0 where
  pub family : Text
  pub table : Text
  pub name : Text

unfoldable pub starts_with : Text → Text → Bool
starts_with [] t = true
starts_with (c ∷ cs) [] = false
starts_with (c ∷ cs) (d ∷ ds) = c == d && starts_with cs ds

unfoldable pub netbird_firewall_present : List NftChain → Bool
unfolding Text-discrete starts_with
netbird_firewall_present cs =
    any
      (λ c.
        same Text-discrete c.family (bytes "ip")
        && (same Text-discrete c.table (bytes "netbird") || starts_with (bytes "NETBIRD-") c.name))
      cs

abbrev is_space : ℕ → Bool
is_space c = c == 10 || (c == 32 || (c == 9 || c == 13))

-- Spaces at the end of the text.
trim_end : Text → Text
trim_end [] = []
trim_end (c ∷ cs) = elim (trim_end cs) [
  | [] ↦ (if is_space c then [] else c ∷ [])
  | d ∷ ds ↦ c ∷ d ∷ ds
]

trim_start : Text → Text
trim_start [] = []
trim_start (c ∷ cs) = let rest = trim_start cs in if is_space c then rest else c ∷ cs

unfoldable pub return_path_enabled : Text → Bool
unfolding trim_end trim_start Text-discrete
return_path_enabled value = same Text-discrete (trim_start (trim_end value)) (bytes "1")
