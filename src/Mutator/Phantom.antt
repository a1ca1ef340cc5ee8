-- ===== src/Mutator/Phantom.antt =====
-- internal/mutator/apply.go and pass.go: a pass over unstable looks.
use molebridge.Base.{true, false, not, ◌&&◌, ◌≡◌, inl, inr, List, [], ◌∷◌, Bool-cases}
use molebridge.Rtnl.Addr.{Family, v4, v6}
use molebridge.Rtnl.Rule.{Rule}
use molebridge.Rtnl.Route.{Route, Snapshot}
use molebridge.Contract.Spec.{Spec, update}
use molebridge.Contract.Diff.{ActionKind, add, del, sub, Action, touches_guards}
use molebridge.Contract.Routes.{RouteActionKind, add_fallback, add_tunnel, RouteAction}
use molebridge.Contract.Plan.{Plan}
use molebridge.Mutator.Kernel.{Options}
use molebridge.Mutator.Owner.{PassResult, Owner, add_rule}
use molebridge.Mutator.Kept.{Looks, add_rule-keeps, replace_route-keeps}
use molebridge.Mutator.Apply.{
  Run, guard_rule, apply_kind, apply_action, apply_add, put_route, apply_route_kind, apply_rules,
  apply_route, apply_routes, refresh_host, apply, no_run,
}
use molebridge.Mutator.Pass.{Plans, raise_guard, repair_family, repair, snapshot_with}

module _ {K : Type 0} (o : Options K) (P : K → Type 0) (looks : Looks o.kernel P)
    (adds : (r : Rule) (k : K) → P k → P (o.kernel.add_rule r k).1)
    (replaces : (r : Route) (k : K) → P k → P (o.kernel.replace_route r k).1) where
  apply_kind-keeps :
      (k : ActionKind) (p : Plan) (a : Action) (st : Run) (t : Owner K)
      → P t.kernel
      → P (apply_kind o k false p a st t).1.kernel
  unfolding apply_kind apply_add
  apply_kind-keeps add p a st t h = add_rule-keeps o P looks a.rule (adds a.rule) t h
  apply_kind-keeps sub p a st t h = h
  apply_kind-keeps del p a st t h = h

  apply_rules-keeps :
      (p : Plan) (as' : List Action) (st : Run) (t : Owner K)
      → P t.kernel
      → P (apply_rules o p false as' st t).1.kernel
  unfolding apply_rules apply_action
  apply_rules-keeps p [] st t h = h
  apply_rules-keeps p (a ∷ as') st t h =
      let (st', t') = apply_action o p false a st t in
      apply_rules-keeps p as' st' t' (apply_kind-keeps a.kind p a st t h)

  put_route-keeps :
      (r : Route) (st : Run) (t : Owner K) → P t.kernel → P (put_route o r st t).1.kernel
  unfolding put_route
  put_route-keeps r st t h = replace_route-keeps o P looks r (replaces r) t h

  apply_route_kind-keeps :
      (k : RouteActionKind) (r : Route) (st : Run) (t : Owner K)
      → P t.kernel
      → P (apply_route_kind o k false r st t).1.kernel
  unfolding apply_route_kind
  apply_route_kind-keeps RouteActionKind.del_route r st t h = h
  apply_route_kind-keeps add_fallback r st t h = put_route-keeps r st t h
  apply_route_kind-keeps add_tunnel r st t h = put_route-keeps r st t h

  apply_routes-keeps :
      (ras : List RouteAction) (st : Run) (t : Owner K)
      → P t.kernel
      → P (apply_routes o false ras st t).1.kernel
  unfolding apply_routes apply_route
  apply_routes-keeps [] st t h = h
  apply_routes-keeps (ra ∷ ras) st t h =
      let (st', t') = apply_route o false ra st t in
      apply_routes-keeps ras st' t' (apply_route_kind-keeps ra.kind ra.route st t h)

  refresh_host-keeps :
      (p : Plan) (st : Run) (t : Owner K) → P t.kernel → P (refresh_host o p false st t).1.kernel
  unfolding refresh_host
  refresh_host-keeps p st t h = elim (Bool-cases p.host_refresh) [ inl e ↦ rw e h | inr e ↦ rw e h ]

  pub apply-keeps : (p : Plan) (t : Owner K) → P t.kernel → P (apply o p false t).1.kernel
  unfolding apply
  apply-keeps p t h =
      let (st1, t1) = refresh_host o p false no_run t in
      let (st2, t2) = apply_rules o p false p.rules st1 t1 in
      apply_routes-keeps p.routes st2 t2
        (apply_rules-keeps p p.rules st1 t1 (refresh_host-keeps p no_run t h))

  raise_guard-keeps :
      (f : Family) (snap : Snapshot) (p : Plan) (res : PassResult) (t : Owner K)
      → snap.unstable ≡ true
      → P t.kernel
      → ((raise_guard o f snap p res t).0.0.unstable ≡ true)
        × P (raise_guard o f snap p res t).1.kernel
  unfolding raise_guard snapshot_with
  raise_guard-keeps f snap p res t u h =
      let s : Spec = record t.spec { temp_guard = update t.spec.temp_guard f true } in
      let g = guard_rule s f in
      let t' : Owner K = record t { spec = s } in
      elim (Bool-cases (o.guard_repairs && (touches_guards p.rules && not (t.spec.temp_guard f)))) [
        | inl e ↦ rw e (elim (Bool-cases (add_rule o g t').0.0) [
          | inl b ↦ rw b (u, add_rule-keeps o P looks g (adds g) t' h)
          | inr b ↦ rw b (u, add_rule-keeps o P looks g (adds g) t' h)
        ])
        | inr e ↦ rw e (u, h)
      ]

  repair_family-keeps :
      (snap : Snapshot) (p : Plan) (res : PassResult) (t : Owner K)
      → snap.unstable ≡ true
      → P t.kernel
      → P (repair_family o snap p res t).1.kernel
  unfolding repair_family
  repair_family-keeps snap p res t u h = simp u (apply-keeps p t h)

  pub repair-keeps :
      (snap : Snapshot) (ps : Plans) (res : PassResult) (t : Owner K)
      → snap.unstable ≡ true
      → P t.kernel
      → P (repair o snap ps res t).1.kernel
  unfolding repair
  repair-keeps snap ps res t u h =
      let ((snap4, p4, res4), t4) = raise_guard o v4 snap (ps v4) res t in
      let (u4, h4) = raise_guard-keeps v4 snap (ps v4) res t u h in
      let ((snap6, p6, res6), t6) = raise_guard o v6 snap4 (ps v6) res4 t4 in
      let (u6, h6) = raise_guard-keeps v6 snap4 (ps v6) res4 t4 u4 h4 in
      let (res', t') = repair_family o snap6 p4 res6 t6 in
      repair_family-keeps snap6 p6 res' t' u6 (repair_family-keeps snap6 p4 res6 t6 u6 h6)
