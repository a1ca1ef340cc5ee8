-- ===== src/Mutator/Apply.antt =====
-- internal/mutator/apply.go `apply`: one family's plan carried out in order.
use molebridge.Base.{
  ℕ, ◌+◌, Bool, true, false, not, ◌&&◌, ◌||◌, Option, none, some, List, [], ◌∷◌, ◌++◌, ◌==◌, leb,
  same, is_some, any, keep, if◌then◌else◌, b2n,
}
use molebridge.Rtnl.Addr.{Family, Family-discrete}
use molebridge.Rtnl.Rule.{Rule, new_rule}
use molebridge.Rtnl.Items.{items, equal_items}
use molebridge.Rtnl.Route.{Route}
use molebridge.Contract.Spec.{
  Spec, owned, skipped, rules_at, prio_local_guard, prio_temp_guard, prio_from_tunnel,
  prio_ingress_reject,
}
use molebridge.Contract.Diff.{ActionKind, add, del, sub, Action, next_priority, at_priority}
use molebridge.Contract.Routes.{RouteActionKind, add_fallback, add_tunnel, RouteAction}
use molebridge.Contract.Host.{HostRoute, host_copy}
use molebridge.Contract.Plan.{Plan, index_of, no_items}
use molebridge.Mutator.Kernel.{Options}
use molebridge.Mutator.Owner.{
  Fault, not_installed, Change, Owner, add_rule, del_rule, del_rule_priority, del_route,
  replace_route, confirmed,
}
use molebridge.Mutator.Rebuild.{rebuild}

abbrev pub hd : Rule → List Rule → Rule
hd d [] = d
hd d (r ∷ rs) = r

-- `guardRule`: the first rule at the temporary guard's priority when the guard is expected. A kind
-- of exit without that rule gives the zero rule, at priority 0 and without an action.
unfoldable pub guard_rule : Spec → Family → Rule
unfolding rules_at
guard_rule s f =
    hd (new_rule f 0 0)
      (rules_at (record s { temp_guard = λ g. same Family-discrete g f }) f prio_temp_guard)

unfoldable pub in_guard_range : ℕ → Bool
in_guard_range p = leb prio_from_tunnel p && leb p prio_ingress_reject

-- What one pass over a plan has done.
pub record Run : Type 0 where
  pub mutations : ℕ
  pub errs : List Fault
  pub rebuilt : List ℕ
  pub guard_read : Bool
  pub route_add_failed : Bool

abbrev pub no_run : Run
no_run = record {
  mutations = 0;
  errs = [];
  rebuilt = [];
  guard_read = false;
  route_add_failed = false;
}

abbrev pub only_fault : Option Fault → List Fault
only_fault none = []
only_fault (some e) = e ∷ []

unfoldable pub note : Change → Run → Run
note change st = record st {
  mutations = st.mutations + b2n change.0;
  errs = st.errs ++ only_fault change.1;
}

-- A rule among the additions of the plan, by priority and items.
unfoldable pub is_added : List Action → Rule → Bool
is_added [] d = false
is_added (a ∷ as') d = elim a.kind [
  | add ↦ a.priority == d.priority && equal_items (items a.rule) (items d) || is_added as' d
  | _ ↦ is_added as' d
]

-- The expected rules at a priority, or those that were left to a transaction there.
unfoldable pub expected_or_left : Plan → ℕ → List Rule
unfolding skipped rules_at
expected_or_left p q =
    if skipped p.effective p.family q then at_priority q p.left else rules_at p.effective p.family q

unfoldable pub dependents : Plan → Action → List Rule
unfolding expected_or_left rules_at
dependents p a =
    if a.priority == 0
    then rules_at p.effective p.family prio_local_guard
    else keep (λ e. equal_items (items e) (items a.rule))
        (expected_or_left p (next_priority a.priority))

-- Whether anything is expected or left at an owned priority.
unfoldable pub clearable : Plan → ℕ → Bool
unfolding owned rules_at
clearable p q =
    owned p.effective q
    && (no_items (rules_at p.effective p.family q) && no_items (at_priority q p.left))

unfoldable pub clear_source : Route → Route
clear_source r = record r { pref_src = none }

module _ {K : Type 0} (o : Options K) where
  -- A change of rules 90-97 waits until the temporary guard has been read back.
  unfoldable pub behind_guard : Plan → ℕ → Run → Owner K → Option Fault × Run × Owner K
  unfolding in_guard_range guard_rule confirmed
  behind_guard p q st t =
      let (fault, t') = confirmed o p.family (guard_rule p.effective p.family ∷ []) t in
      if not (p.effective.temp_guard p.family) || (not (in_guard_range q) || st.guard_read)
      then (none, st, t)
      else if is_some fault
      then (fault, st, t')
      else (none, record st { guard_read = true }, t')

  unfoldable pub apply_add : Action → Run → Owner K → Run × Owner K
  unfolding add_rule note
  apply_add a st t = let (change, t') = add_rule o a.rule t in (note change st, t')

  unfoldable pub apply_sub : Plan → Action → Run → Owner K → Run × Owner K
  unfolding behind_guard expected_or_left rebuild note
  apply_sub p a st t =
      let st' : Run = record st { rebuilt = a.priority ∷ st.rebuilt } in
      let (fault, st1, t1) = behind_guard p a.priority st' t in
      let (done, t2) = rebuild o p.family a.priority (expected_or_left p a.priority) t1 in
      if any (λ q. q == a.priority) st.rebuilt
      then (st, t)
      else if is_some fault
      then (note (false, fault) st1, t1)
      else (record (note (false, done.1) st1) { mutations = st1.mutations + done.0 }, t2)

  -- What replaces the rule is confirmed, if this plan adds any of it.
  unfoldable pub dependents_fault : Plan → Action → Owner K → Option Fault × Owner K
  unfolding dependents is_added confirmed
  dependents_fault p a t =
      let deps = dependents p a in
      let checked = confirmed o p.family deps t in
      if any (is_added p.rules) deps then checked else (none, t)

  -- Where the attributes were refused, and nothing stands at the priority, its first rule goes.
  unfoldable pub remove_rule : Plan → Action → Owner K → Change × Owner K
  unfolding del_rule clearable del_rule_priority
  remove_rule p a t =
      let (change, t') = del_rule o a.rule t in
      let cleared = del_rule_priority o p.family a.priority t' in
      if is_some change.1 && clearable p a.priority then cleared else (change, t')

  unfoldable pub apply_del : Plan → Action → Run → Owner K → Run × Owner K
  unfolding behind_guard dependents_fault remove_rule note
  apply_del p a st t =
      let (fault, st1, t1) = behind_guard p a.priority st t in
      let (fault', t2) = dependents_fault p a t1 in
      let (change, t3) = remove_rule p a t2 in
      if is_some fault
      then (note (false, fault) st1, t1)
      else if is_some fault'
      then (note (false, fault') st1, t2)
      else (note change st1, t3)

  -- The switch over the kind; without removals only additions are made.
  unfoldable pub apply_kind : ActionKind → Bool → Plan → Action → Run → Owner K → Run × Owner K
  unfolding apply_add apply_sub apply_del
  apply_kind add removals p a st t = apply_add a st t
  apply_kind sub true p a st t = apply_sub p a st t
  apply_kind del true p a st t = apply_del p a st t
  apply_kind sub false p a st t = (st, t)
  apply_kind del false p a st t = (st, t)

  unfoldable pub apply_action : Plan → Bool → Action → Run → Owner K → Run × Owner K
  unfolding apply_kind
  apply_action p removals a st t = apply_kind a.kind removals p a st t

  unfoldable pub apply_rules : Plan → Bool → List Action → Run → Owner K → Run × Owner K
  unfolding apply_action
  apply_rules p removals [] st t = (st, t)
  apply_rules p removals (a ∷ as') st t =
      let (st', t') = apply_action p removals a st t in apply_rules p removals as' st' t'

  unfoldable pub put_route : Route → Run → Owner K → Run × Owner K
  unfolding replace_route note
  put_route r st t =
      let (fault, t') = replace_route o r t in
      (
        record (note (not (is_some fault), fault) st) {
          route_add_failed = st.route_add_failed || is_some fault;
        },
        t',
      )

  -- A route that could not be restored may be what this one is being replaced by.
  unfoldable pub drop_route : Route → Run → Owner K → Run × Owner K
  unfolding del_route clear_source note
  drop_route r st t =
      let (change, t') = del_route o (clear_source r) t in
      if st.route_add_failed then (note (false, some not_installed) st, t) else (note change st, t')

  unfoldable pub apply_route_kind : RouteActionKind → Bool → Route → Run → Owner K → Run × Owner K
  unfolding put_route drop_route
  apply_route_kind RouteActionKind.del_route true r st t = drop_route r st t
  apply_route_kind RouteActionKind.del_route false r st t = (st, t)
  apply_route_kind add_fallback removals r st t = put_route r st t
  apply_route_kind add_tunnel removals r st t = put_route r st t

  unfoldable pub apply_route : Bool → RouteAction → Run → Owner K → Run × Owner K
  unfolding apply_route_kind
  apply_route removals ra st t = apply_route_kind ra.kind removals ra.route st t

  unfoldable pub apply_routes : Bool → List RouteAction → Run → Owner K → Run × Owner K
  unfolding apply_route
  apply_routes removals [] st t = (st, t)
  apply_routes removals (ra ∷ ras) st t =
      let (st', t') = apply_route removals ra st t in apply_routes removals ras st' t'

  -- The host table: what is there goes, then the main table's host routes are copied.
  unfoldable pub flush_host : List Route → Run → Owner K → Run × Owner K
  unfolding del_route clear_source note
  flush_host [] st t = (st, t)
  flush_host (r ∷ rs) st t =
      let (change, t') = del_route o (clear_source r) t in flush_host rs (note change st) t'

  unfoldable pub fill_host : Plan → List HostRoute → Run → Owner K → Run × Owner K
  unfolding host_copy replace_route note
  fill_host p [] st t = (st, t)
  fill_host p (h ∷ hs) st t =
      let copy = host_copy h p.family p.effective.config.host_table (index_of p.host_if) in
      let (fault, t') = replace_route o copy t in
      fill_host p hs (note (not (is_some fault), fault) st) t'

  unfoldable pub refresh_host : Plan → Bool → Run → Owner K → Run × Owner K
  unfolding flush_host fill_host
  refresh_host p removals st t =
      let (st', t') = flush_host p.host_flush st t in
      if p.host_refresh && removals then fill_host p p.host_want st' t' else (st, t)

  unfoldable pub apply : Plan → Bool → Owner K → Run × Owner K
  unfolding refresh_host apply_rules apply_routes
  apply p removals t =
      let (st1, t1) = refresh_host p removals no_run t in
      let (st2, t2) = apply_rules p removals p.rules st1 t1 in apply_routes removals p.routes st2 t2
