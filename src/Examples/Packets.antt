-- ===== src/Examples/Packets.antt =====
-- internal/policy: a packet that arrives on the overlay interface of a settled node.
use mathlib.Core.List.{Memᴰ}
use molebridge.Base.{
  Option, length, ℕ, ◌≡◌, ◌≢◌, ◌↔◌, arith, false, refl, some, List, [], ◌∷◌, ◌++◌, ◌==◌,
  Text-discrete, All, none,
}
use molebridge.Rtnl.Addr.{v4, ip4}
use molebridge.Rtnl.Rule.{Rule}
use molebridge.Rtnl.Route.{Route}
use molebridge.Contract.Spec.{rules, lookup}
use molebridge.Contract.Routes.{
  tunnel_required, fallback_route, tunnel_route, exit_table_actions, sift, is_fallback,
  is_tunnel_route, plain_device_route,
}
use molebridge.Policy.Packet.{Packet}
use molebridge.Policy.FailClosed.{FromOverlay, Contained, rules-Contained}
use molebridge.Policy.Lookup.{State}
use molebridge.Policy.Walk.{walk}
use molebridge.Policy.Classes.{opened}
use molebridge.Policy.Gather.{points, all_points, violations, worsens}
use molebridge.Policy.Worsens.{OpensNothing, worsens-OpensNothing}
use molebridge.Policy.Ranges.{range_sig, refine_range, refine_range_complete}
use molebridge.Policy.Safe.{IsSafe, violations-IsSafe}
use molebridge.Policy.Outcomes.{IsClosed}
use molebridge.Policy.Closed.{guards, walk-IsClosed}
use molebridge.Examples.Rules.{node, node_spec}
use molebridge.Examples.Statuses.{tunnel_addr}

abbrev visitor : Packet
visitor = record {
  family = v4;
  iif = node.overlay_if;
  mark = 0;
  proto = 6;
  src = some (ip4 1681915905);
  dst = ip4 134744072;
  tos = 0;
  sport = 40000;
  dport = 443;
  uid = 0;
  l3 = false;
}

from_overlay : FromOverlay node_spec.config visitor
unfolding Text-discrete
from_overlay = record {
  overlay_node = refl;
  overlay_named = refl;
  exit_named = refl;
  not_exit = refl;
  not_lo = refl;
  arrives = refl;
}

rules-Contained_example : All (Contained node_spec.config visitor) (rules node_spec v4)
rules-Contained_example = rules-Contained node_spec v4 visitor from_overlay

-- The node's own rules, then the kernel's default rules.
abbrev default_rules : List Rule
default_rules = lookup 32766 v4 254 ∷ lookup 32767 v4 253 ∷ []

abbrev closed_routes : List Route
closed_routes = fallback_route v4 51821 ∷ tunnel_route v4 51821 7 ∷ []

abbrev node_state : State
node_state = record {
  spec = node_spec;
  rules = λ f. guards node_spec v4 ++ default_rules;
  routes = λ f t. closed_routes;
  known = λ t. t == 51821;
  live = λ f. tunnel_addr ∷ [];
  locals = λ f. tunnel_addr ∷ [];
  exit_idx = 7;
  host_idx = 2;
  overlay_idx = 3;
}

walk-IsClosed_example : All (IsClosed 51821 7) (walk (λ r. r.priority) node_state visitor)
unfolding exit_table_actions sift is_fallback is_tunnel_route plain_device_route tunnel_route
    fallback_route
walk-IsClosed_example =
    walk-IsClosed (λ r. r.priority) node_state visitor default_rules tunnel_required from_overlay
      refl refl refl ((refl, refl), ((refl, refl), tt)) refl

abbrev rule_name : Rule → ℕ
rule_name r = r.priority

abbrev without_default : State
without_default = record node_state { rules = λ f. guards node_spec v4 }

-- Without the node's own rules the visitor reaches the unread main table.
opens_main :
    opened rule_name node_state (record node_state { rules = λ f. default_rules }) (visitor ∷ [])
    ≢ []
unfolding opened rules
opens_main h = cc

opens_nothing : opened rule_name node_state without_default (visitor ∷ []) ≡ []
unfolding opened rules
opens_nothing = refl

abbrev how_many : Option (List Packet) → ℕ
how_many none = 0
how_many (some ps) = length ps

bare_points :
    how_many (points v4 (record node_state { rules = λ f. []; routes = λ f t. [] }) []) ≡ 216
unfolding points
bare_points = refl

worsens-OpensNothing_example : (worsens rule_name node_state without_default ≡ []) ↔ (
    (ps : List Packet) × (all_points node_state (without_default ∷ []) ≡ some ps)
    × OpensNothing rule_name node_state without_default ps)
worsens-OpensNothing_example = worsens-OpensNothing rule_name node_state without_default refl

violations-IsSafe_example :
    (violations rule_name node_state ≡ [])
    ↔ ((ps : List Packet) × (all_points node_state [] ≡ some ps) × IsSafe rule_name node_state ps)
violations-IsSafe_example = violations-IsSafe rule_name node_state refl

-- Ports 80 to 443 and 443 to 500; 450 lies only in the second range.
refine_range_two : refine_range ((80, 443) ∷ (443, 500) ∷ []) 65535 ≡ 0 ∷ 80 ∷ 443 ∷ 444 ∷ []
unfolding refine_range
refine_range_two = refl

refine_range_complete_example :
    (w : ℕ) × Memᴰ w (refine_range ((80, 443) ∷ (443, 500) ∷ []) 65535)
    × (range_sig ((80, 443) ∷ (443, 500) ∷ []) w ≡ range_sig ((80, 443) ∷ (443, 500) ∷ []) 450)
refine_range_complete_example =
    refine_range_complete ((80, 443) ∷ (443, 500) ∷ []) 65535 450 (omega arith)
