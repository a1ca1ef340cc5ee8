-- ===== src/Contract/Routes.antt =====
-- internal/contract/routes.go: the exit table.
pub mod Exact
pub mod Counts
pub mod Repair
use molebridge.Base.{
  ℕ, Bool, true, false, not, ◌&&◌, ◌||◌, Option, none, some, List, [], ◌∷◌, ◌++◌, map, ◌==◌, ltb,
  leb, same, is_some, any, length, when, has_bits, if◌then◌else◌,
}
use molebridge.Rtnl.Addr.{
  Family, v4, v6, is_v4, Addr, ip4, ip6, Prefix, OptPrefix-discrete, OptAddr-discrete,
}
use molebridge.Rtnl.Route.{
  Route, new_route, is_default, unconditional, on_link, rtn_unicast, rtn_unreachable, rt_proto_boot,
  rt_scope_universe, rt_scope_link, rtnh_f_dead, rtnh_f_onlink,
}

abbrev pub fallback_metric : ℕ
fallback_metric = 4096

pub data TunnelMode : Type 0 where
  tunnel_none tunnel_required tunnel_maybe : TunnelMode

pub data RouteActionKind : Type 0 where
  add_fallback add_tunnel del_route : RouteActionKind

pub record RouteAction : Type 0 where
  pub kind : RouteActionKind
  pub route : Route

abbrev pub default_prefix : Family → Prefix
default_prefix v6 = record { addr = ip6 0; bits = 0 }
default_prefix v4 = record { addr = ip4 0; bits = 0 }

unfoldable pub fallback_route : Family → ℕ → Route
fallback_route f t = record (new_route f (some (default_prefix f)) t rtn_unreachable) {
  metric = fallback_metric;
  protocol = rt_proto_boot;
  scope = rt_scope_universe;
}

unfoldable pub tunnel_route : Family → ℕ → ℕ → Route
tunnel_route f t if_index = record (new_route f (some (default_prefix f)) t rtn_unicast) {
  oif = some if_index;
  protocol = rt_proto_boot;
  scope = rt_scope_link;
}

unfoldable pub plain_device_route : Route → Bool
plain_device_route r =
    not (is_some r.gateway) && (not r.via && (not r.multi_path && not (is_some r.nhid)))

unfoldable pub is_fallback : Route → Bool
unfolding is_default unconditional
is_fallback r =
    r.kind == rtn_unreachable
    && (is_default r
        && (r.metric == fallback_metric
            && (unconditional r && (not (is_v4 r.family) || r.scope == rt_scope_universe))))

abbrev pub out_of : ℕ → Option ℕ → Bool
out_of i none = false
out_of i (some v) = v == i

unfoldable pub is_tunnel_route : Route → ℕ → Bool
unfolding is_default unconditional plain_device_route
is_tunnel_route r exit_if =
    r.kind == rtn_unicast
    && (is_default r
        && (not (exit_if == 0)
            && (out_of exit_if r.oif
                && (plain_device_route r
                    && (ltb r.metric fallback_metric
                        && (unconditional r
                            && (not (has_bits r.flags rtnh_f_dead)
                                && (not (is_v4 r.family) || r.scope == rt_scope_link))))))))

abbrev pub allowed : TunnelMode → Bool
allowed tunnel_none = false
allowed tunnel_required = true
allowed tunnel_maybe = true

abbrev pub required : TunnelMode → Bool
required tunnel_required = true
required _ = false

-- The variables of the loop: `fallback`, `found` and `del`.
pub record Sift : Type 0 where
  pub fallback : Bool
  pub found : Bool
  pub del : List RouteAction

unfoldable pub sift_step : ℕ → TunnelMode → Sift → Route → Sift
sift_step exit_if mode st r =
    if is_fallback r && not st.fallback
    then record st { fallback = true }
    else if is_tunnel_route r exit_if && (allowed mode && not st.found)
    then record st { found = true }
    else record st { del = st.del ++ record { kind = del_route; route = r } ∷ [] }

unfoldable pub sift : ℕ → TunnelMode → Sift → List Route → Sift
unfolding sift_step
sift exit_if mode st [] = st
sift exit_if mode st (r ∷ rs) = sift exit_if mode (sift_step exit_if mode st r) rs

abbrev pub sift_start : Sift
sift_start = record { fallback = false; found = false; del = [] }

unfoldable pub exit_table_actions : List Route → Family → ℕ → ℕ → TunnelMode → List RouteAction
exit_table_actions routes f table exit_if mode =
    let st = sift exit_if mode sift_start routes in
    when (not st.fallback) (record { kind = add_fallback; route = fallback_route f table })
    ++ (when (required mode && (not st.found && not (exit_if == 0)))
          (record { kind = add_tunnel; route = tunnel_route f table exit_if })
        ++ st.del)
