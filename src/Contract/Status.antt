-- ===== src/Contract/Status.antt =====
-- internal/contract/status.go: whether a family holds the whole contract exactly.
pub mod Ready
pub mod Transition
use molebridge.Base.{
  ℕ, ◌+◌, Bool, true, false, not, ◌&&◌, ◌||◌, Option, none, some, List, [], ◌∷◌, ◌==◌, same,
  is_some, all, any, keep, bit_clear, Text, Text-discrete, bytes, if◌then◌else◌,
}
use molebridge.Rtnl.Addr.{
  Family, v4, v6, is_v4, Addr, is4, Family-discrete, Addr-discrete, OptPrefix-discrete, Prefix,
}
use molebridge.Rtnl.Rule.{
  Rule, invert, iif_detached, oif_detached, extra_flags, fr_act_to_tbl, table_local,
  fib_rule_iif_detached, fib_rule_oif_detached,
}
use molebridge.Rtnl.Items.{items, equal_items}
use molebridge.Rtnl.Route.{
  Route, IfAddr, Link, Snapshot, link, link_down, global, is_default, unconditional,
  routes_in_table, rtn_unicast,
}
use molebridge.Contract.Config.{Config, is_native_sidecar}
use molebridge.Contract.Spec.{Spec, owned, rules, prio_return_path, prio_from_tunnel, prio_egress}
use molebridge.Contract.Diff.{Wanted, unmatched}
use molebridge.Contract.Routes.{is_fallback, is_tunnel_route, plain_device_route, out_of}

pub record StatusOptions : Type 0 where
  pub tunnel_address : Option Addr
  pub no_tunnel_route : Bool
  pub exit_if_index : ℕ

abbrev empty : Text → Bool
empty [] = true
empty (_ ∷ _) = false

no_attrs {ℓ} : {A : Type ℓ} → List A → Bool
no_attrs [] = true
no_attrs (_ ∷ _) = false

-- The overlay interface is the only selector.
unfoldable pub guard_shape : Rule → Text → Bool
unfolding Text-discrete no_attrs
guard_shape r overlay_if =
    same Text-discrete r.iif_name overlay_if
    && (not (is_some r.src)
        && (not (is_some r.dst)
            && (empty r.oif_name
                && (r.tos == 0
                    && (not (is_some r.fw_mark)
                        && (not (is_some r.fw_mask)
                            && (not (is_some r.ip_proto)
                                && (not (is_some r.suppress_prefix_len)
                                    && (not (is_some r.suppress_if_group)
                                        && (not (is_some r.goto)
                                            && (not (is_some r.l3_mdev)
                                                && (no_attrs r.unknown
                                                    && (extra_flags r == 0 && not r.bad)))))))))))))

unfoldable pub local_rule_admits_overlay : Rule → Text → Bool
unfolding guard_shape Text-discrete
local_rule_admits_overlay r overlay_if =
    if not (r.action == fr_act_to_tbl) || not (r.table == table_local)
    then false
    else if invert r
    then not (guard_shape r overlay_if)
    else empty r.iif_name || same Text-discrete r.iif_name overlay_if

unfoldable pub exact_rule : Rule → Rule → Bool
exact_rule r want =
    not (iif_detached r) && (not (oif_detached r) && equal_items (items r) (items want))

abbrev pub only : Option Addr → List Addr
only none = []
only (some a) = a ∷ []

-- `st`: the Spec with exactly the address given, for the one family.
abbrev pub status_spec : Spec → Family → Option Addr → Spec
status_spec s f a = record s {
  return_path = λ g. if same Family-discrete g f then only a else [];
  leave_return_path = λ g. false;
  temp_guard = λ g. false;
}

-- The inner loop up to its `break`: the first entry not yet found that the rule is exactly.
unfoldable pub claim : Rule → List Wanted → List Wanted × Bool
unfolding exact_rule
claim r [] = ([], false)
claim r (w ∷ ws) =
    let rest = claim r ws in
    if not w.matched && (r.priority == w.rule.priority && exact_rule r w.rule)
    then (record w { matched = true } ∷ ws, true)
    else (w ∷ rest.0, rest.1)

-- `found` and `rulesOK`.
pub record Census : Type 0 where
  pub found : List Wanted
  pub rules_ok : Bool

unfoldable pub check_rule : Spec → Census → Rule → Census
unfolding local_rule_admits_overlay
check_rule s c r =
    let fits =
      c.rules_ok
      && not
          (not (is_native_sidecar s.config) && local_rule_admits_overlay r s.config.overlay_if) in
    let (ws, hit) = claim r c.found in
    if not (owned s r.priority)
    then record c { rules_ok = fits }
    else record { found = ws; rules_ok = fits && hit }

unfoldable pub check_rules : Spec → Census → List Rule → Census
check_rules s c [] = c
check_rules s c (r ∷ rs) = check_rules s (check_rule s c r) rs

unfoldable pub rules_status : Spec → Family → List Rule → Bool
rules_status s f rs =
    let c = check_rules s (record { found = unmatched (rules s f); rules_ok = true }) rs in
    c.rules_ok && all (λ w. w.matched) c.found

-- `routesOK`, `tunnelDefault` and `fallback`.
pub record RouteCensus : Type 0 where
  pub routes_ok : Bool
  pub tunnel_default : Bool
  pub fallback : Bool

unfoldable pub check_route : ℕ → RouteCensus → Route → RouteCensus
check_route i c r =
    if is_fallback r
    then record c { fallback = true }
    else if r.kind == rtn_unicast && (not (i == 0) && (out_of i r.oif && plain_device_route r))
    then record c { tunnel_default = c.tunnel_default || is_tunnel_route r i && not (link_down r) }
    else record c { routes_ok = false }

unfoldable pub check_routes : ℕ → RouteCensus → List Route → RouteCensus
unfolding check_route
check_routes i c [] = c
check_routes i c (r ∷ rs) = check_routes i (check_route i c r) rs

abbrev pub no_routes : RouteCensus
no_routes = record { routes_ok = true; tunnel_default = false; fallback = false }

-- Whether an address is of another family than the one that is judged.
abbrev pub foreign : Family → Option Addr → Bool
foreign f none = false
foreign f (some a) = not (is_v4 f) && is4 a || is_v4 f && not (is4 a)

-- `ready` and `fallback`.
unfoldable pub family_status : Spec → Family → List Rule → List Route → StatusOptions → Bool × Bool
family_status s f rs routes opt =
    let c = check_routes opt.exit_if_index no_routes routes in
    if foreign f opt.tunnel_address then (false, false) else (
      rules_status (status_spec s f opt.tunnel_address) f rs
          && (c.routes_ok
              && (c.fallback
                  && (c.tunnel_default
                      || (not (is_some opt.tunnel_address) || opt.no_tunnel_route)))),
      c.fallback,
    )

pub record TransitionOptions : Type 0 where
  pub tunnel_address : Option Addr
  pub previous_address : Option Addr
  pub interface_present : Bool
  pub interface_up : Bool
  pub exit_if_index : ℕ

abbrev pub contains_addr : List Addr → Addr → Bool
contains_addr as' a = any (λ b. same Addr-discrete b a) as'

-- The rules but those of the return path; while the tunnel interface is absent, those that name
-- it without the kernel's marks of detachment.
unfoldable pub adjust : Bool → List Rule → List Rule
unfolding bit_clear
adjust present [] = []
adjust present (r ∷ rs) =
    let rest = adjust present rs in
    if r.priority == prio_return_path
    then rest
    else if (r.priority == prio_from_tunnel || r.priority == prio_egress) && not present
    then record r { flags = bit_clear r.flags (fib_rule_iif_detached + fib_rule_oif_detached) }
      ∷ rest
    else r ∷ rest

-- The previous address and the current one, each once.
unfoldable pub allowed_addrs : Option Addr → Option Addr → List Addr
unfolding Addr-discrete
allowed_addrs none b = only b
allowed_addrs (some a) none = a ∷ []
allowed_addrs (some a) (some b) = if same Addr-discrete a b then a ∷ [] else a ∷ b ∷ []

-- A rule is the return-path rule of the Spec with this address alone.
unfoldable pub is_path_of : Spec → Family → Rule → Addr → Bool
unfolding exact_rule
is_path_of s f r a =
    any (λ e. e.priority == prio_return_path && exact_rule r e)
      (rules (record s { return_path = λ g. if same Family-discrete g f then a ∷ [] else [] }) f)

-- `hit`: the last of the addresses whose rule it is.
unfoldable pub hit_of : Spec → Family → Rule → List Addr → Option Addr
hit_of s f r [] = none
hit_of s f r (a ∷ as') = elim (hit_of s f r as') [
  | some b ↦ some b
  | none ↦ if is_path_of s f r a then some a else none
]

-- Each return-path rule is exactly that of an allowed address that no rule before it was of.
unfoldable pub paths_ok : Spec → Family → List Addr → List Addr → List Rule → Bool
paths_ok s f allowed matched [] = true
paths_ok s f allowed matched (r ∷ rs) = elim (hit_of s f r allowed) [
  | none ↦ false
  | some a ↦ if contains_addr matched a then false else paths_ok s f allowed (a ∷ matched) rs
]

-- `safe` and `ready`.
unfoldable pub gluetun_transition_status :
    Spec → Family → List Rule → List Route → TransitionOptions → Bool × Bool
gluetun_transition_status s f rs routes opt =
    let ready =
      (family_status s f rs routes (record {
        tunnel_address = opt.tunnel_address;
        no_tunnel_route = not opt.interface_up;
        exit_if_index = opt.exit_if_index;
      })).0 in
    let allowed = allowed_addrs opt.previous_address opt.tunnel_address in
    let safe =
      (family_status s f (adjust opt.interface_present rs) routes (record {
        tunnel_address = none;
        no_tunnel_route = false;
        exit_if_index = opt.exit_if_index;
      })).0 in
    if ready
    then (true, true)
    else if any (λ a. foreign f (some a)) allowed
    then (false, false)
    else if paths_ok s f allowed [] (keep (λ r. r.priority == prio_return_path) rs)
    then (safe, false)
    else (false, false)
