-- ===== src/Contract/Routes/Repair.antt =====
-- internal/contract/routes.go: the exit table after a repair.
use molebridge.Base.{ℕ, not, ◌&&◌, ◌≡◌, List, ◌==◌, erase_all, when}
use molebridge.Rtnl.Addr.{Family}
use molebridge.Rtnl.Route.{Route, Route-discrete}
use molebridge.Contract.Routes.{
  TunnelMode, RouteAction, del_route, fallback_route, tunnel_route, required, Sift, sift,
  sift_start, exit_table_actions,
}
use molebridge.Contract.Routes.Counts.{removed}

-- What the loop collects is removals.
abbrev IsDel : RouteAction → Type 0
IsDel a = a.kind ≡ del_route

module _ (rs : List Route) (f : Family) (table i : ℕ) (mode : TunnelMode) where
  abbrev end : Sift
  end = sift i mode sift_start rs

  abbrev actions : List RouteAction
  actions = exit_table_actions rs f table i mode

  abbrev puts_fallback : List Route
  puts_fallback = when (not end.fallback) (fallback_route f table)

  abbrev puts_tunnel : List Route
  puts_tunnel = when (required mode && (not end.found && not (i == 0))) (tunnel_route f table i)

  left_over : List Route
  left_over = erase_all Route-discrete (removed end.del) rs
