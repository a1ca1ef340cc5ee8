-- ===== src/Contract/Routes/Exact.antt =====
-- internal/contract/routes.go: what the exit table holds when nothing is left to repair.
use molebridge.Base.{ℕ, true, false, ◌≡◌, ◌≢◌, refl, arith}
use molebridge.Rtnl.Addr.{Family, v4, v6}
use molebridge.Rtnl.Route.{Route}
use molebridge.Contract.Routes.{fallback_route, tunnel_route, is_fallback, is_tunnel_route}

-- The fallback is no tunnel route, and the routes that the repair installs are what it looks for.
pub fallback_not_tunnel : (r : Route) (i : ℕ) → is_fallback r ≡ true → is_tunnel_route r i ≡ false
unfolding is_fallback is_tunnel_route
fallback_not_tunnel r i h = ground arith

pub fallback_route-recognised : (f : Family) (t : ℕ) → is_fallback (fallback_route f t) ≡ true
unfolding is_fallback fallback_route
fallback_route-recognised v4 t = refl
fallback_route-recognised v6 t = refl

pub tunnel_route-recognised :
    (f : Family) (t i : ℕ) → i ≢ 0 → is_tunnel_route (tunnel_route f t i) i ≡ true
unfolding is_tunnel_route tunnel_route
tunnel_route-recognised v4 t i h = ground arith
tunnel_route-recognised v6 t i h = ground arith

pub tunnel_route_not_fallback : (f : Family) (t i : ℕ) → is_fallback (tunnel_route f t i) ≡ false
unfolding is_fallback tunnel_route
tunnel_route_not_fallback f t i = refl
