-- ===== src/Policy/Outcomes.antt =====
-- internal/policy/policy.go over internal/contract: where a packet from the overlay can end.
use mathlib.Core.List.{Memᴰ}
use molebridge.Base.{
  ℕ, Bool, true, false, ◌&&◌, ◌≡◌, refl, ap, sym, ◌∙◌, ◌⊎◌, inl, inr, Option, none, some, List, [],
  ◌∷◌, ◌++◌, map, ◌==◌, any, same, All, All-append, All-keep, Bool-cases, Option-cases, arith,
}
use molebridge.Rtnl.Addr.{Family, is_v4}
use molebridge.Rtnl.Rule.{Rule, fr_act_unreachable, fr_act_to_tbl, table_local}
use molebridge.Rtnl.Route.{Route}
use molebridge.Contract.Routes.{is_fallback, is_tunnel_route, plain_device_route}
use molebridge.Policy.Packet.{Packet, Tri, never, always, perhaps, matches}
use molebridge.Policy.FailClosed.{Contained}
use molebridge.Policy.Lookup.{
  State, stopped, via_dev, Outcome, Outcome-discrete, outcome, disposition, route_applies, dst_bits,
  route_less, insert_route, sort_routes, Found, is_stopped, suppressed, add_result, follow, lookup,
}
use molebridge.Policy.Walk.{
  has_any, mix, tag, add_cond, union, Sets, next_set, ended_by, looked_up, refuses, taken,
  walk_rule, walk_from,
}

-- The packet is stopped, or leaves through the tunnel by the exit table.
abbrev pub IsClosed : ℕ → ℕ → Outcome → Type 0
IsClosed table exit_idx o =
    (o.kind ≡ stopped) ⊎ ((o.kind ≡ via_dev) × (o.table ≡ table) × (o.dev ≡ exit_idx))

-- A route of the exit table as the repair leaves it: the fallback, or the tunnel's default route
-- with no encapsulation.
abbrev pub IsExitRoute : ℕ → ℕ → Route → Type 0
IsExitRoute table exit_idx rt =
    (is_fallback rt ≡ true)
    ⊎ ((is_tunnel_route rt exit_idx ≡ true) × (rt.encap ≡ false) × (rt.table ≡ table))

abbrev Ends : ℕ → ℕ → Option Outcome → Type 0
Ends t i o = (r : Outcome) × (o ≡ some r) × IsClosed t i r

disposition-IsClosed : (t i : ℕ) (rt : Route) → IsExitRoute t i rt → Ends t i (disposition rt)
unfolding disposition is_fallback is_tunnel_route plain_device_route
disposition-IsClosed t i rt (inl h) =
    let k : rt.kind ≡ 7 = ground arith in (outcome stopped 0 0, rw k refl, inl refl)
disposition-IsClosed t i rt (inr (h, e, q)) = elim (Option-cases rt.oif) [
  | inl n ↦ absurd (let k = rw n at h in ground arith)
  | inr (v, o) ↦
      let k : rt.kind ≡ 1 = ground arith in
      let m : v ≡ i = ground arith in
      (outcome via_dev rt.table v, rw (k, o) (ground arith), inr (refl, q, m))
]

module _ (t i : ℕ) where
  abbrev AllClosed : List Outcome → Type 0
  AllClosed = All (IsClosed t i)

  union-All : (out os : List Outcome) → AllClosed out → AllClosed os → AllClosed (union out os)
  unfolding union
  union-All out [] h k = h
  union-All out (o ∷ os) h k = elim (Bool-cases (any (λ x. same Outcome-discrete x o) out)) [
    | inl e ↦ rw e (union-All out os h k.1)
    | inr e ↦ rw e (union-All (out ++ o ∷ []) os (All-append (IsClosed t i) out _ h (k.0, tt)) k.1)
  ]

  tag-All : (d : ℕ) (os : List Outcome) → AllClosed os → AllClosed (tag d os)
  unfolding tag add_cond
  tag-All d [] h = tt
  tag-All d (o ∷ os) h = (h.0, tag-All d os h.1)

  ended_by-All : (d : ℕ) (os : List Outcome) → AllClosed os → AllClosed (map (ended_by d) os)
  ended_by-All d [] h = tt
  ended_by-All d (o ∷ os) h = (h.0, ended_by-All d os h.1)

  insert_route-All :
      (b : Bool) (P : Route → Type 0) (rt : Route) (rs : List Route)
      → P rt
      → All P rs
      → All P (insert_route b rt rs)
  unfolding insert_route
  insert_route-All b P rt [] p h = (p, tt)
  insert_route-All b P rt (x ∷ xs) p h = elim (Bool-cases (route_less b rt x)) [
    | inl e ↦ rw e (p, h)
    | inr e ↦ rw e (h.0, insert_route-All b P rt xs p h.1)
  ]

  sort_routes-All :
      (b : Bool) (P : Route → Type 0) (ds rs : List Route)
      → All P ds
      → All P rs
      → All P (sort_routes b ds rs)
  unfolding sort_routes
  sort_routes-All b P ds [] h k = h
  sort_routes-All b P ds (rt ∷ rts) h k =
      sort_routes-All b P (insert_route b rt ds) rts (insert_route-All b P rt ds k.0 h) k.1

  add_result-All :
      (r : Rule) (o : Option Outcome) (b : ℕ) (found : Found)
      → Ends t i o
      → AllClosed found.0
      → AllClosed (add_result r o b found).0
  unfolding add_result
  add_result-All r none b found e h = absurd (cc (e.1))
  add_result-All r (some o) b found (o', e, c) h =
      let c' : IsClosed t i o = ground (arith, e, c) in
      let more = All-append (IsClosed t i) found.0 (o ∷ []) h (c', tt) in
      elim (Bool-cases (is_stopped o.kind)) [
        | inl e1 ↦ rw e1 more
        | inr e1 ↦
            rw e1 (elim (Bool-cases (suppressed r b)) [ inl e2 ↦ rw e2 h | inr e2 ↦ rw e2 more ])
      ]

  follow-All :
      (s : State) (r : Rule) (p : Packet) (found : Found) (rts : List Route)
      → AllClosed found.0
      → All (IsExitRoute t i) rts
      → AllClosed (follow s r p found rts).0
  unfolding follow
  follow-All s r p found [] h k = h
  follow-All s r p found (rt ∷ rts) h k =
      let d =
        add_result-All r (disposition rt) (dst_bits rt) found (disposition-IsClosed t i rt k.0) h in
      by_tri (route_applies s rt p) refl d (follow-All s r p found rts h k.1)
        (follow-All s r p (add_result r (disposition rt) (dst_bits rt) found) rts d k.1)
    where
      by_tri :
          (a : Tri)
          → route_applies s rt p ≡ a
          → AllClosed (add_result r (disposition rt) (dst_bits rt) found).0
          → AllClosed (follow s r p found rts).0
          → AllClosed (follow s r p (add_result r (disposition rt) (dst_bits rt) found) rts).0
          → AllClosed (follow s r p found (rt ∷ rts)).0
      by_tri never e d m n = rw (e, follow) m
      by_tri always e d m n = rw (e, follow) d
      by_tri perhaps e d m n = rw (e, follow) n

  lookup-All :
      (s : State) (r : Rule) (p : Packet)
      → r.table ≡ t
      → (t == table_local) ≡ false
      → s.known t ≡ true
      → All (IsExitRoute t i) (s.routes p.family t)
      → AllClosed (lookup s r p).0
  unfolding lookup
  lookup-All s r p e l k h =
      rw (e, l, k)
        (follow-All s r p ([], false) _ tt
          (sort_routes-All (is_v4 p.family) (IsExitRoute t i) [] _ tt
            (All-keep (IsExitRoute t i) _ (s.routes p.family t) h)))

  looked_up-All :
      (by : ℕ) (found : Found) (next : List Outcome)
      → AllClosed found.0
      → AllClosed next
      → AllClosed (looked_up by found next)
  unfolding looked_up
  looked_up-All by found next h k =
      let outs = ended_by-All by found.0 h in
      elim (Bool-cases (found.1 && has_any (map (ended_by by) found.0))) [
        | inl e ↦ rw e (union-All _ _ (tag-All (mix by 1) _ outs) (tag-All (mix by 2) next k))
        | inr e ↦ rw e (elim (Bool-cases found.1) [ inl e' ↦ rw e' k | inr e' ↦ rw e' outs ])
      ]

-- A state whose exit table is read and holds only its own routes.
pub record ExitTable (s : State) (f : Family) : Type 0 where
  pub not_local : (s.spec.config.table == table_local) ≡ false
  pub read : s.known s.spec.config.table ≡ true
  pub only_exits : All (IsExitRoute s.spec.config.table s.exit_idx) (s.routes f s.spec.config.table)

-- The rule that ends the walk of every packet from the overlay.
abbrev pub IsEnd : Packet → Rule → Type 0
IsEnd p r = (matches r p ≡ always) × (r.action ≡ fr_act_unreachable)

module _ (name : Rule → ℕ) (s : State) (p : Packet) (x : ExitTable s p.family) where
  abbrev Closed : List Outcome → Type 0
  Closed = All (IsClosed s.spec.config.table s.exit_idx)

  taken-Closed :
      (r : Rule) (rest : Sets)
      → (r.action ≡ fr_act_unreachable)
        ⊎ ((r.action ≡ fr_act_to_tbl) × (r.table ≡ s.spec.config.table))
      → Closed (next_set rest)
      → Closed (taken name s r p rest)
  unfolding taken
  taken-Closed r rest (inl a) k =
      let no_lookup : (r.action == fr_act_to_tbl) ≡ false = ground arith in
      let refused : refuses r ≡ true = ground arith in rw (no_lookup, refused) (inl refl, tt)
  taken-Closed r rest (inr (a, e)) k =
      let looks : (r.action == fr_act_to_tbl) ≡ true = ground arith in
      rw looks (
        looked_up-All s.spec.config.table s.exit_idx (name r) (lookup s r p) (next_set rest)
          (lookup-All s.spec.config.table s.exit_idx s r p e x.not_local x.read x.only_exits) k)

  walk_rule-Closed :
      (r : Rule) (rest : Sets)
      → Contained s.spec.config p r
      → Closed (next_set rest)
      → Closed (walk_rule name s r p rest)
  unfolding walk_rule
  walk_rule-Closed r rest (inl m) k = rw (m, walk_rule) k
  walk_rule-Closed r rest (inr a) k = by_tri (matches r p) refl (taken-Closed r rest a k)
    where
      by_tri :
          (a' : Tri)
          → matches r p ≡ a'
          → Closed (taken name s r p rest)
          → Closed (walk_rule name s r p rest)
      by_tri never e c = rw (e, walk_rule) k
      by_tri always e c = rw (e, walk_rule) c
      by_tri perhaps e c =
          rw (e, walk_rule)
            (union-All s.spec.config.table s.exit_idx _ _
              (tag-All s.spec.config.table s.exit_idx _ _ c)
              (tag-All s.spec.config.table s.exit_idx _ _ k))

  pub walk_from-Closed :
      (a b : List Rule) (e : Rule)
      → All (Contained s.spec.config p) a
      → Memᴰ e a
      → IsEnd p e
      → Closed (next_set (walk_from name s p (a ++ b)))
  unfolding walk_from walk_rule taken
  walk_from-Closed [] b e h m n = elim m [ ]
  walk_from-Closed (r ∷ a) b e h (Memᴰ.head q) n =
      let m : matches r p ≡ always = ap (λ z. matches z p) (sym q) ∙ n.0 in
      let k : r.action ≡ fr_act_unreachable = ap (λ z. z.action) (sym q) ∙ n.1 in
      let no_lookup : (r.action == fr_act_to_tbl) ≡ false = ground arith in
      let refused : refuses r ≡ true = ground arith in
      rw (m, walk_rule, no_lookup, refused) (inl refl, tt)
  walk_from-Closed (r ∷ a) b e h (Memᴰ.tail m) n =
      walk_rule-Closed r (walk_from name s p (a ++ b)) h.0 (walk_from-Closed a b e h.1 m n)
