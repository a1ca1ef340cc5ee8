-- ===== src/Contract/Host.antt =====
-- internal/contract/routes.go: the host routes of gluetun's namespace.
--
-- `Prefix.String` of net/netip is the parameter `text` wherever the order needs it.
pub mod Refill
use molebridge.Base.{
  ℕ, Bool, true, false, not, ◌&&◌, ◌||◌, Option, none, some, List, [], ◌∷◌, ◌==◌, ltb, same,
  is_some, any, length, Text, ℕ_discrete, if◌then◌else◌,
}
use molebridge.Rtnl.Addr.{Family, Addr, ip4, ip6, Prefix, OptPrefix-discrete, OptAddr-discrete}
use molebridge.Rtnl.Route.{
  Route, new_route, is_default, unconditional, on_link, rtn_unicast, rt_proto_boot,
  rt_scope_universe, rt_scope_link, rtnh_f_onlink,
}
use molebridge.Contract.Routes.{out_of}

pub record HostRoute : Type 0 where
  pub dst : Option Prefix
  pub via : Option Addr
  pub src : Option Addr
  pub metric : ℕ
  pub on_link : Bool

unfoldable pub HostRoute-discrete : Discrete HostRoute
unfolding ℕ_discrete
HostRoute-discrete = hlevel ℕ_discrete

abbrev pub via_gateway : HostRoute → Bool
via_gateway h = is_some h.via

-- `Addr.Less`: the invalid address, then IPv4, then IPv6.
abbrev pub addr_less : Option Addr → Option Addr → Bool
addr_less none none = false
addr_less none (some _) = true
addr_less (some _) none = false
addr_less (some (ip4 n)) (some (ip4 m)) = ltb n m
addr_less (some (ip4 _)) (some (ip6 _)) = true
addr_less (some (ip6 _)) (some (ip4 _)) = false
addr_less (some (ip6 n)) (some (ip6 m)) = ltb n m

-- Go's order of strings.
abbrev pub text_less : Text → Text → Bool
text_less [] [] = false
text_less [] (_ ∷ _) = true
text_less (_ ∷ _) [] = false
text_less (c ∷ cs) (d ∷ ds) = let rest = text_less cs ds in if c == d then rest else ltb c d

abbrev pub unlike : Bool → Bool → Bool
unlike true b = not b
unlike false b = b

-- An unusual route, another interface, or an on-link route with a gateway.
unfoldable pub is_copied : ℕ → Route → Bool
unfolding unconditional is_default
is_copied host_if r =
    r.kind == rtn_unicast
    && (not (r.via || (is_some r.nhid || (r.encap || (r.multi_path || not (unconditional r)))))
        && (out_of host_if r.oif
            && (not (host_if == 0) && not (is_some r.gateway && not (is_default r)))))

unfoldable pub host_route_of : Route → HostRoute
unfolding on_link
host_route_of r = record {
  dst = r.dst;
  via = r.gateway;
  src = r.pref_src;
  metric = r.metric;
  on_link = on_link r;
}

module _ (text : Option Prefix → Text) where
  unfoldable pub host_less : HostRoute → HostRoute → Bool
  unfolding OptPrefix-discrete OptAddr-discrete
  host_less a b =
      if unlike (via_gateway a) (via_gateway b)
      then not (via_gateway a)
      else if not (same OptPrefix-discrete a.dst b.dst)
      then text_less (text a.dst) (text b.dst)
      else if not (same OptAddr-discrete a.via b.via)
      then addr_less a.via b.via
      else if not (same OptAddr-discrete a.src b.src)
      then addr_less a.src b.src
      else if not (a.metric == b.metric)
      then ltb a.metric b.metric
      else not a.on_link && b.on_link

  -- `sort.SliceStable`: a route goes before the first one that is not less than it.
  unfoldable pub insert_host : HostRoute → List HostRoute → List HostRoute
  unfolding host_less
  insert_host h [] = h ∷ []
  insert_host h (x ∷ xs) =
      let rest = insert_host h xs in if host_less x h then x ∷ rest else h ∷ x ∷ xs

  -- `list` and `odd`; without `check` other routes are ignored.
  unfoldable pub host_routes : List Route → ℕ → Bool → List HostRoute × Bool
  unfolding insert_host is_copied host_route_of
  host_routes [] host_if check = ([], false)
  host_routes (r ∷ rs) host_if check =
      let rest = host_routes rs host_if check in
      if is_copied host_if r
      then (insert_host (host_route_of r) rest.0, rest.1)
      else (rest.0, check || rest.1)

unfoldable pub same_routes : List HostRoute → List HostRoute → Bool
unfolding HostRoute-discrete
same_routes [] [] = true
same_routes [] (_ ∷ _) = false
same_routes (_ ∷ _) [] = false
same_routes (x ∷ xs) (y ∷ ys) = same HostRoute-discrete x y && same_routes xs ys

unfoldable pub host_table_matches : List HostRoute → List HostRoute → Bool → Bool
unfolding same_routes
host_table_matches main host odd =
    if odd || not (length main == length host) then false else same_routes main host

-- `HostRoute.Route`
unfoldable pub host_copy : HostRoute → Family → ℕ → ℕ → Route
host_copy h f table host_if = record (new_route f h.dst table rtn_unicast) {
  oif = some host_if;
  gateway = h.via;
  pref_src = h.src;
  metric = h.metric;
  protocol = rt_proto_boot;
  scope = if is_some h.via then rt_scope_universe else rt_scope_link;
  flags = if h.on_link then rtnh_f_onlink else 0;
}

abbrev pub no_bits : Option Prefix → Bool
no_bits none = false
no_bits (some p) = p.bits == 0

unfoldable pub has_ipv4_default : List HostRoute → Bool
has_ipv4_default hs = any (λ h. no_bits h.dst) hs
