-- ===== src/Examples/Tables.antt =====
-- internal/contract/routes.go: an exit table with stray routes, and a host's main table.
use molebridge.Contract.Host.{host_routes, host_copy, host_table_matches}
use molebridge.Contract.Host.Refill.{host_routes-host_copy}
use molebridge.Base.{Text, Option, none, some, true, false, map, arith, ◌≡◌, List, [], ◌∷◌}
use molebridge.Rtnl.Addr.{ip4, Prefix, v4}
use molebridge.Rtnl.Route.{Route}
use molebridge.Contract.Routes.{fallback_route, tunnel_route}

-- The tunnel route with another metric, and an unreachable route of the wrong metric.
abbrev table_found : List Route
table_found =
    record (tunnel_route v4 51821 7) { metric = 5000 }
    ∷ record (fallback_route v4 51821) { metric = 1 }
    ∷ tunnel_route v4 51821 7
    ∷ []

-- The main table of a host with a default route, its gateway's subnet and a route elsewhere.
abbrev main_found : List Route
main_found =
    record (tunnel_route v4 254 2) { gateway = some (ip4 3232235521) }
    ∷ record (tunnel_route v4 254 2) {
      dst = some (record { addr = ip4 3232235520; bits = 24 });
      metric = 100;
    }
    ∷ tunnel_route v4 254 9
    ∷ []

abbrev subnet_text : Option Prefix → Text
subnet_text none = []
subnet_text (some p) = p.bits ∷ []

host_routes-host_copy_example :
    let want = (host_routes subnet_text main_found 2 false).0 in
    let found = host_routes subnet_text (map (λ h. host_copy h v4 7120 2) want) 2 true in
    host_table_matches want found.0 found.1 ≡ true
host_routes-host_copy_example = host_routes-host_copy subnet_text main_found v4 7120 2 (omega arith)
