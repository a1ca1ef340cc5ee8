-- ===== src/Policy/Lookup.antt =====
-- internal/policy/policy.go: the state that the model judges, and the lookup of one table.
--
-- The map of routes by table is a function; `known` says which tables are present.
use molebridge.Base.{
  ℕ, ◌+◌, ◌/◌, ◌%◌, ◌^◌, Bool, true, false, not, ◌&&◌, ◌||◌, Option, none, some, List, [], ◌∷◌,
  ◌++◌, ◌==◌, ltb, leb, same, is_some, any, keep, has_bits, Text-discrete, ℕ_discrete,
  if◌then◌else◌,
}
use molebridge.Rtnl.Addr.{Family, is_v4, Addr, ip4, ip6, Addr-discrete, covers, contains}
use molebridge.Rtnl.Rule.{Rule, table_local}
use molebridge.Rtnl.Route.{
  Route, rtn_unicast, rtn_unreachable, rtn_blackhole, rtn_prohibit, rtn_throw, rtnh_f_dead,
  rtnh_f_linkdown,
}
use molebridge.Contract.Spec.{Spec}
use molebridge.Policy.Packet.{Packet, Tri, never, always, perhaps, src_passes, is_lo}

pub record State : Type 0 where
  pub spec : Spec
  pub rules : Family → List Rule
  pub routes : Family → ℕ → List Route
  pub known : ℕ → Bool
  pub live : Family → List Addr
  pub locals : Family → List Addr
  pub exit_idx : ℕ
  pub host_idx : ℕ
  pub overlay_idx : ℕ

pub data OutKind : Type 0 where
  stopped local via_dev via_table : OutKind

pub record Outcome : Type 0 where
  pub kind : OutKind
  pub table : ℕ
  pub dev : ℕ
  pub by : ℕ
  pub cond : ℕ

unfoldable pub Outcome-discrete : Discrete Outcome
unfolding ℕ_discrete
Outcome-discrete = hlevel ℕ_discrete

abbrev pub unknown_dev : ℕ
unknown_dev = 0xffffffff

abbrev pub outcome : OutKind → ℕ → ℕ → Outcome
outcome k t d = record { kind = k; table = t; dev = d; by = 0; cond = 0 }

-- The outcome of a route, or `none` where the lookup falls through.
unfoldable pub disposition : Route → Option Outcome
disposition rt =
    if rt.kind == rtn_unreachable || (rt.kind == rtn_blackhole || rt.kind == rtn_prohibit)
    then some (outcome stopped 0 0)
    else if rt.kind == rtn_throw
    then none
    else elim rt.oif [
      | none ↦ some (outcome via_dev rt.table unknown_dev)
      | some i ↦
          if rt.kind == rtn_unicast
            && not (rt.multi_path || (is_some rt.nhid || (rt.via || rt.encap)))
          then some (outcome via_dev rt.table i)
          else some (outcome via_dev rt.table unknown_dev)
    ]

abbrev rtnh_f_unresolved : ℕ
rtnh_f_unresolved = 0x20

-- The input-interface selector of a route: `perhaps` where the model does not know the index.
unfoldable pub iif_applies : State → Option ℕ → Packet → Tri
unfolding Text-discrete is_lo
iif_applies s none p = always
iif_applies s (some i) p =
    if same Text-discrete p.iif s.spec.config.overlay_if && not (s.overlay_idx == 0)
    then (if i == s.overlay_idx then always else never)
    else if is_lo p.iif
    then (if i == 1 then always else never)
    else perhaps

unfoldable pub route_applies : State → Route → Packet → Tri
unfolding src_passes iif_applies
route_applies s rt p =
    if is_v4 rt.family && (not (rt.tos == 0) && not (rt.tos == p.tos))
    then never
    else if not (src_passes rt.src p.src)
    then never
    else elim (iif_applies s rt.iif p) [
      | never ↦ never
      | perhaps ↦ perhaps
      | always ↦
          if has_bits rt.flags (rtnh_f_dead + rtnh_f_linkdown + rtnh_f_unresolved)
          then perhaps
          else always
    ]

unfoldable pub is_loopback : Addr → Bool
is_loopback (ip4 n) = n / 2 ^ 24 == 127
is_loopback (ip6 n) = if n / 2 ^ 32 == 0xffff then n % 2 ^ 32 / 2 ^ 24 == 127 else n == 1

abbrev pub dst_bits : Route → ℕ
dst_bits rt = elim rt.dst [ none ↦ 0 | some q ↦ q.bits ]

abbrev pub dst_covers : Addr → Route → Bool
dst_covers a rt = elim rt.dst [ none ↦ false | some q ↦ contains q a ]

-- Longest prefix, then for IPv4 a route with a TOS, then the metric.
unfoldable pub route_less : Bool → Route → Route → Bool
route_less is4 a b =
    if not (dst_bits a == dst_bits b)
    then ltb (dst_bits b) (dst_bits a)
    else if is4 && (not (a.tos == 0) && b.tos == 0 || a.tos == 0 && not (b.tos == 0))
    then not (a.tos == 0)
    else ltb a.metric b.metric

-- The insertion sort of the source: a route moves before those that it is less than.
unfoldable pub insert_route : Bool → Route → List Route → List Route
unfolding route_less
insert_route is4 rt [] = rt ∷ []
insert_route is4 rt (x ∷ xs) =
    let rest = insert_route is4 rt xs in if route_less is4 rt x then rt ∷ x ∷ xs else x ∷ rest

unfoldable pub sort_routes : Bool → List Route → List Route → List Route
unfolding insert_route
sort_routes is4 done [] = done
sort_routes is4 done (rt ∷ rts) = sort_routes is4 (insert_route is4 rt done) rts

-- The outcomes of a lookup, and whether it can fall through.
abbrev pub Found : Type 0
Found = List Outcome × Bool

-- Whether a result with a prefix of this length is thrown away.
abbrev pub suppressed : Rule → ℕ → Bool
suppressed r b = elim r.suppress_prefix_len [ none ↦ false | some n ↦ leb b n ]

abbrev pub is_stopped : OutKind → Bool
is_stopped stopped = true
is_stopped _ = false

unfoldable pub add_result : Rule → Option Outcome → ℕ → Found → Found
add_result r none b found = (found.0, true)
add_result r (some o) b found =
    if is_stopped o.kind
    then (found.0 ++ o ∷ [], found.1)
    else if suppressed r b
    then (found.0, true)
    else (found.0 ++ o ∷ [], is_some r.suppress_if_group || found.1)

unfoldable pub follow : State → Rule → Packet → Found → List Route → Found
unfolding route_applies add_result disposition
follow s r p found [] = (found.0, true)
follow s r p found (rt ∷ rts) = elim (route_applies s rt p) [
  | never ↦ follow s r p found rts
  | perhaps ↦ follow s r p (add_result r (disposition rt) (dst_bits rt) found) rts
  | always ↦ add_result r (disposition rt) (dst_bits rt) found
]

unfoldable pub lookup : State → Rule → Packet → Found
unfolding follow sort_routes is_loopback Addr-discrete covers
lookup s r p =
    if r.table == table_local
    then (if any (λ a. same Addr-discrete a p.dst) (s.locals p.family) || is_loopback p.dst
        then (outcome local r.table 0 ∷ [], false)
        else ([], true))
    else if not (s.known r.table)
    then (outcome via_table r.table 0 ∷ [], true)
    else follow s r p ([], false)
        (sort_routes (is_v4 p.family) [] (keep (dst_covers p.dst) (s.routes p.family r.table)))
