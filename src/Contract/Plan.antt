-- ===== src/Contract/Plan.antt =====
-- internal/contract/plan.go: everything that one pass over one family has to do.
pub mod Held
pub mod InPlace
use molebridge.Base.{
  ℕ, Bool, true, false, not, ◌&&◌, ◌||◌, Option, none, some, List, [], ◌∷◌, ◌++◌, ◌==◌, same,
  is_some, any, when, length, Text, if◌then◌else◌,
}
use molebridge.Rtnl.Addr.{Family, v4, v6, is_v4, Family-discrete, Addr, Addr-discrete, Prefix}
use molebridge.Rtnl.Rule.{Rule, table_main}
use molebridge.Rtnl.Route.{
  Route, IfAddr, Link, Snapshot, link, up, global, global_addr, routes_in_table,
}
use molebridge.Contract.Config.{Config, is_gluetun, is_native_sidecar}
use molebridge.Contract.Spec.{Spec, update, prio_return_path, prio_backstop}
use molebridge.Contract.Diff.{Action, DiffOptions, diff, left_return_path}
use molebridge.Contract.Routes.{
  TunnelMode, tunnel_none, tunnel_required, tunnel_maybe, RouteAction, exit_table_actions,
}
use molebridge.Contract.Host.{HostRoute, host_routes, host_table_matches, has_ipv4_default}

unfoldable pub interest : Spec → List ℕ
interest s =
    s.config.table
    ∷ (if is_gluetun s.config
        then s.config.host_table ∷ table_main ∷ []
        else if is_native_sidecar s.config
        then table_main ∷ []
        else [])

pub data Problem : Type 0 where
  problem_rules problem_exit problem_host problem_no_default problem_unprotected : Problem

pub record PlanInput : Type 0 where
  pub tunnel_starting : Bool

pub record Plan : Type 0 where
  pub family : Family
  pub exit_if : Option Link
  pub host_if : Option Link
  pub tunnel : TunnelMode
  pub address : Option Addr
  pub host_refresh : Bool
  pub host_flush : List Route
  pub host_want : List HostRoute
  pub hold_kill_switch : Bool
  pub rules : List Action
  pub left : List Rule
  pub routes : List RouteAction
  pub unprotected : Bool
  pub effective : Spec
  pub problems : List Problem

abbrev pub no_items {ℓ} : {A : Type ℓ} → List A → Bool
no_items [] = true
no_items (_ ∷ _) = false

unfoldable pub clean : Plan → Bool
clean p = no_items p.rules && (no_items p.routes && not p.host_refresh)

abbrev pub is_no_default : Problem → Bool
is_no_default problem_no_default = true
is_no_default _ = false

unfoldable pub healthy : Plan → Bool
unfolding clean
healthy p = clean p && (not p.unprotected && not (any is_no_default p.problems))

abbrev pub has_addr : List Addr → Addr → Bool
has_addr as' a = any (λ b. same Addr-discrete b a) as'

-- The global addresses of an interface, each once.
unfoldable pub globals_from : ℕ → List Addr → List IfAddr → List Addr
unfolding global Addr-discrete
globals_from i out [] = out
globals_from i out (a ∷ as') =
    globals_from i
      (if a.index == i && (global a && not (has_addr out a.local.addr))
        then out ++ a.local.addr ∷ []
        else out)
      as'

unfoldable pub live_globals : Snapshot → Text → Family → List Addr
unfolding link globals_from
live_globals snap name f = elim (link snap name) [
  | none ↦ []
  | some l ↦ globals_from l.index [] (snap.addrs f)
]

abbrev from_addr : Addr → Option Prefix → Bool
from_addr a none = false
from_addr a (some p) = same Addr-discrete p.addr a

-- A rule at the priority whose source is the address.
abbrev pub has_pair_at : ℕ → Addr → List Rule → Bool
has_pair_at p a rs = any (λ r. from_addr a r.src && r.priority == p) rs

unfoldable pub unprotected : Snapshot → Config → Family → Bool
unfolding live_globals Addr-discrete
unprotected snap c f =
    any
      (λ a.
        not (has_pair_at prio_return_path a (snap.rules f))
        || (not (is_gluetun c) && not (has_pair_at prio_backstop a (snap.rules f))))
      (live_globals snap c.exit_if f)

-- The live addresses that the Spec does not name are appended to those that it names.
unfoldable pub add_live : List Addr → List Addr → List Addr
unfolding Addr-discrete
add_live named [] = named
add_live named (a ∷ as') = add_live (if has_addr named a then named else named ++ a ∷ []) as'

abbrev pub only : Option Addr → List Addr
only none = []
only (some a) = a ∷ []

-- The Spec that the plan is judged against.
unfoldable pub effective_spec : Spec → Snapshot → Family → Spec
unfolding global_addr live_globals add_live
effective_spec s snap f =
    if is_gluetun s.config
    then record s {
      return_path = update s.return_path f (only (global_addr snap s.config.exit_if f));
    }
    else if s.leave_return_path f
    then s
    else record s {
      return_path =
          update s.return_path f
            (add_live (s.return_path f) (live_globals snap s.config.exit_if f));
    }

-- A missing interface has index 0 and is not up.
abbrev pub index_of : Option Link → ℕ
index_of none = 0
index_of (some l) = l.index

unfoldable pub is_up : Option Link → Bool
unfolding up
is_up none = false
is_up (some l) = not (l.index == 0) && up l

unfoldable pub tunnel_mode : Spec → Snapshot → Family → PlanInput → TunnelMode
unfolding is_up effective_spec link global_addr
tunnel_mode s snap f input =
    let running = is_up (link snap s.config.exit_if) in
    if is_gluetun s.config
    then (if is_some (global_addr snap s.config.exit_if f) && running
        then tunnel_required
        else tunnel_none)
    else if input.tunnel_starting
    then tunnel_maybe
    else if running && (is_v4 f || not (no_items ((effective_spec s snap f).return_path v6)))
    then tunnel_required
    else tunnel_none

module _ (text : Option Prefix → Text) where
  -- The host routes of the main table, and those of the host table with `hostOdd`.
  abbrev main_list : Spec → Snapshot → Family → List HostRoute
  main_list s snap f =
      (host_routes text (routes_in_table snap f table_main) (index_of (link snap s.config.host_if))
        false).0

  abbrev host_list : Spec → Snapshot → Family → List HostRoute × Bool
  host_list s snap f =
      host_routes text (routes_in_table snap f s.config.host_table)
        (index_of (link snap s.config.host_if)) true

  unfoldable pub host_differs : Spec → Snapshot → Family → Bool
  unfolding link routes_in_table host_routes host_table_matches
  host_differs s snap f =
      is_gluetun s.config
      && not (host_table_matches (main_list s snap f) (host_list s snap f).0 (host_list s snap f).1)

  unfoldable pub lacks_default : Spec → Snapshot → Family → Bool
  unfolding host_differs has_ipv4_default host_routes link routes_in_table
  lacks_default s snap f =
      is_gluetun s.config
      && (not (host_differs s snap f) && (is_v4 f && not (has_ipv4_default (host_list s snap f).0)))

  unfoldable pub plan_family : Spec → Snapshot → Family → PlanInput → Plan
  unfolding host_differs lacks_default effective_spec tunnel_mode unprotected link routes_in_table
      host_routes global_addr
  plan_family s snap f input =
      let spec = effective_spec s snap f in
      let refresh = host_differs s snap f in
      let mode = tunnel_mode s snap f input in
      let todo = diff spec f (snap.rules f) (record { hold_kill_switch = refresh }) in
      let open_address = unprotected snap s.config f in
      let repairs =
        exit_table_actions (routes_in_table snap f s.config.table) f s.config.table
          (index_of (link snap s.config.exit_if)) mode in
      record {
        family = f;
        exit_if = link snap s.config.exit_if;
        host_if =
            if is_gluetun s.config || is_native_sidecar s.config
            then link snap s.config.host_if
            else none;
        tunnel = mode;
        address = if is_gluetun s.config then global_addr snap s.config.exit_if f else none;
        host_refresh = refresh;
        host_flush = if refresh then routes_in_table snap f s.config.host_table else [];
        host_want = if refresh then main_list s snap f else [];
        hold_kill_switch = refresh;
        rules = todo;
        left = left_return_path spec f (snap.rules f);
        routes = repairs;
        unprotected = open_address;
        effective = spec;
        problems =
            when refresh problem_host
            ++ (when (lacks_default s snap f) problem_no_default
                ++ (when (not (no_items todo)) problem_rules
                    ++ (when open_address problem_unprotected
                        ++ when (not (no_items repairs)) problem_exit)));
      }
