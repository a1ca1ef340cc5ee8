-- ===== src/Examples/Statuses.antt =====
-- internal/contract/status.go, plan.go: a node whose namespace is protected.
use mathlib.Core.List.{Memᴰ}
use molebridge.Base.{
  ap, ◌⊎◌, true, false, ◌≡◌, refl, Option, none, some, List, [], ◌∷◌, ◌==◌, bytes, Text,
  Text-discrete, bit_clear,
}
use molebridge.Rtnl.Addr.{Family, Family-discrete, Addr-discrete, masked, v4, v6, Addr, ip4, Prefix}
use molebridge.Rtnl.Rule.{Rule, invert, extra_flags, iif_detached, oif_detached}
use molebridge.Rtnl.Items.{items, Items-discrete}
use molebridge.Rtnl.Route.{Route, Link, IfAddr, Snapshot, link, link_down, global, routes_in_table}
use molebridge.Contract.Config.{gluetun, gluetun_mark}
use molebridge.Contract.Spec.{
  Spec, owned, rules, reject, lookup, with_mark, icmp_from, prio_kill_switch,
}
use molebridge.Contract.Diff.{Action, add, del, diff, leftover_copy}
use molebridge.Contract.Routes.{
  del_route, tunnel_required, fallback_route, tunnel_route, exit_table_actions, sift, is_fallback,
  is_tunnel_route, plain_device_route,
}
use molebridge.Contract.Status.{
  StatusOptions, status_spec, family_status, rules_status, check_rules, check_rule, claim,
  check_routes, check_route, local_rule_admits_overlay,
}
use molebridge.Contract.Status.Ready.{
  IsStray, IsRemoval, family_status-diff, family_status-exit_table_actions,
}
use molebridge.Contract.Status.{
  TransitionOptions, gluetun_transition_status, paths_ok, hit_of, is_path_of, exact_rule, adjust,
  allowed_addrs,
}
use molebridge.Contract.Status.Transition.{Switching, gluetun_transition_status_safe}
use molebridge.Contract.Routing.{RoutingOptions, routing_status, sole_addr, add_sole}
use molebridge.Contract.Routing.Guarded.{Guarded, routing_status-Guarded}
use molebridge.Contract.Plan.{PlanInput, plan_family}
use molebridge.Contract.Plan.Held.{plan_family_held}
use molebridge.Examples.Rules.{node, node_spec, no_hold}

abbrev pub tunnel_addr : Addr
tunnel_addr = ip4 171902209

abbrev ready_options : StatusOptions
ready_options = record {
  tunnel_address = some tunnel_addr;
  no_tunnel_route = false;
  exit_if_index = 7;
}

-- The exit table with a second route out of the tunnel.
abbrev ready_routes : List Route
ready_routes =
    fallback_route v4 51821
    ∷ tunnel_route v4 51821 7
    ∷ record (tunnel_route v4 51821 7) { metric = 100 }
    ∷ []

abbrev gluetun_spec : Spec
gluetun_spec = record node_spec {
  config = record node { backend = gluetun; table = 51820; host_table = 7120 };
  temp_guard = λ f. false;
}

abbrev judged_node : Spec
judged_node = status_spec gluetun_spec v4 (some tunnel_addr)

-- A copy of rule 102 one priority before it, which the contract does not own.
abbrev mark_copy : Rule
mark_copy = with_mark gluetun_mark (lookup 101 v4 254)

abbrev copied : List Rule
copied = mark_copy ∷ rules judged_node v4

abbrev copy_removed : Action
copy_removed = record { kind = del; priority = 101; rule = mark_copy }

is_ready : (family_status gluetun_spec v4 copied ready_routes ready_options).0 ≡ true
unfolding family_status rules rules_status check_rules check_rule claim owned Family-discrete
    Text-discrete Items-discrete items invert extra_flags iif_detached oif_detached check_routes
    check_route is_fallback is_tunnel_route plain_device_route tunnel_route fallback_route link_down
    local_rule_admits_overlay
is_ready = refl

family_status-diff_example : IsStray judged_node copy_removed
unfolding diff rules Family-discrete Items-discrete items leftover_copy
family_status-diff_example =
    family_status-diff gluetun_spec v4 copied ready_routes ready_options no_hold copy_removed
      is_ready (Memᴰ.head refl)

family_status-exit_table_actions_example :
    IsRemoval
      (record { kind = del_route; route = record (tunnel_route v4 51821 7) { metric = 100 } })
unfolding exit_table_actions sift is_fallback tunnel_route is_tunnel_route fallback_route
family_status-exit_table_actions_example =
    family_status-exit_table_actions gluetun_spec v4 copied ready_routes ready_options 51821
      tunnel_required _ is_ready refl refl refl (Memᴰ.head refl)

abbrev links : List Link
links =
    record { index = 3; name = node.overlay_if; flags = 1; mtu = 1280; kind = bytes "wireguard" }
    ∷ record { index = 7; name = node.exit_if; flags = 1; mtu = 1420; kind = bytes "wireguard" }
    ∷ []

-- The tunnel has one IPv4 address; IPv6 is not carried.
abbrev snap : Snapshot
snap = record {
  unstable = false;
  rules = λ f. rules (status_spec node_spec f (tunnel_of f)) f;
  routes = routes_of;
  links = links;
  addrs = addrs_of;
}
  where
    tunnel_of : Family → Option Addr
    tunnel_of v4 = some tunnel_addr
    tunnel_of v6 = none

    routes_of : Family → List Route
    routes_of v4 = ready_routes
    routes_of v6 = fallback_route v6 51821 ∷ []

    addrs_of : Family → List IfAddr
    addrs_of v4 =
        record {
          family = v4;
          index = 7;
          local = record { addr = tunnel_addr; bits = 32 };
          scope = 0;
          flags = 0;
        }
        ∷ []
    addrs_of v6 = []

strict : RoutingOptions
strict = record { require_address = true; return_path = true }

protected : (routing_status node_spec snap strict).0 ≡ true
unfolding routing_status family_status rules rules_status check_rules check_rule claim owned
    Family-discrete Text-discrete Items-discrete items invert extra_flags iif_detached oif_detached
    check_routes check_route is_fallback is_tunnel_route plain_device_route tunnel_route
    fallback_route link_down local_rule_admits_overlay sole_addr add_sole global link
    routes_in_table strict
protected = refl

routing_status-Guarded_example : Guarded node_spec snap v6
routing_status-Guarded_example = routing_status-Guarded node_spec snap strict v6 protected

-- A gluetun node whose host table is empty while the main table has a host route.
abbrev host_snap : Snapshot
host_snap = record snap {
  links = record { index = 2; name = node.host_if; flags = 1; mtu = 1500; kind = [] } ∷ links;
  rules = λ f. [];
  routes = λ f. record (tunnel_route v4 254 2) { metric = 0 } ∷ [];
}

abbrev idle_input : PlanInput
idle_input = record { tunnel_starting = false }

abbrev plain : Option Prefix → Text
plain p = []

abbrev first_action : Action
first_action = record {
  kind = add;
  priority = 97;
  rule = record (reject 97 v4) { iif_name = node.overlay_if };
}

plan_family_held_example : (first_action.priority == prio_kill_switch) ≡ false
unfolding plan_family diff rules tunnel_route Family-discrete
plan_family_held_example =
    plan_family_held plain gluetun_spec host_snap v4 idle_input first_action refl (Memᴰ.head refl)
      refl

-- A gluetun node whose tunnel is gone and whose rule 94 still names the previous address.
abbrev switching : TransitionOptions
switching = record {
  tunnel_address = none;
  previous_address = some tunnel_addr;
  interface_present = false;
  interface_up = false;
  exit_if_index = 0;
}

abbrev closed_spec : Spec
closed_spec = status_spec gluetun_spec v4 none

abbrev left_path : Rule
left_path = icmp_from v4 tunnel_addr (lookup 94 v4 51820)

abbrev fallback_only : List Route
fallback_only = fallback_route v4 51820 ∷ []

switching_status :
    gluetun_transition_status gluetun_spec v4
      (left_path ∷ rules closed_spec v4)
      fallback_only
      switching
    ≡ (true, false)
unfolding gluetun_transition_status paths_ok hit_of is_path_of exact_rule adjust allowed_addrs
    Addr-discrete masked bit_clear family_status rules rules_status check_rules check_rule claim
    owned Family-discrete Text-discrete Items-discrete items invert extra_flags iif_detached
    oif_detached check_routes check_route is_fallback is_tunnel_route plain_device_route
    tunnel_route fallback_route link_down local_rule_admits_overlay
switching_status = refl

gluetun_transition_status_safe_example :
    ((gluetun_transition_status gluetun_spec v4
        (left_path ∷ rules closed_spec v4)
        fallback_only
        switching).1
      ≡ true)
    ⊎ Switching gluetun_spec v4 (left_path ∷ rules closed_spec v4) switching
gluetun_transition_status_safe_example =
    gluetun_transition_status_safe gluetun_spec v4 (left_path ∷ rules closed_spec v4) fallback_only
      switching (ap (λ z. z.0) switching_status)
