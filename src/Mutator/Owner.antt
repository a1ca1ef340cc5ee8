-- ===== src/Mutator/Owner.antt =====
-- internal/mutator/tx.go and apply.go: the requests of an operation, each deletion approved first,
-- and the look that confirms rules.
--
-- Errors are told apart by what went wrong; the texts that wrap them are left out, as are the log
-- lines. An operation has the owner to itself, so the owner's state and the operation's handle are
-- one record.
use molebridge.Base.{
  ℕ, Bool, true, false, not, ◌&&◌, Option, none, some, List, [], ◌∷◌, is_some, keep, if◌then◌else◌,
}
use molebridge.Rtnl.Addr.{Family, Addr}
use molebridge.Rtnl.Rule.{Rule}
use molebridge.Rtnl.Route.{Route, Snapshot}
use molebridge.Contract.Config.{is_gluetun_sidecar}
use molebridge.Contract.Spec.{Spec}
use molebridge.Contract.Diff.{has_items}
use molebridge.Contract.Plan.{Problem, interest, has_addr, no_items}
use molebridge.Policy.Lookup.{State}
use molebridge.Policy.Edits.{
  from_snapshot, without_rule, without_priority, with_rule, with_route, without_route,
}
use molebridge.Mutator.Kernel.{Reply, done, known, failed, Options}

pub data Fault : Type 0 where
  op_timeout request_failed unread kept_changing not_installed unsafe_deletion : Fault
  nothing_expected unverified_after_repair no_verdict other_family backend_return_path : Fault
  return_path_live : Fault

pub data Answer {ℓ} (A : Type ℓ) : Type ℓ where
  err : Fault → Answer A
  got : A → Answer A

-- `Reason` is text for the log.
pub record PassResult : Type 0 where
  pub repaired : Bool
  pub mutations : ℕ
  pub contract_holds : Bool
  pub verified : Bool
  pub problems : Family → List Problem
  pub err : Option Fault
  pub at : ℕ

pub record Stats : Type 0 where
  pub repairs : ℕ
  pub last_repair : ℕ
  pub has_last : Bool

pub record Owner (K : Type 0) : Type 0 where
  pub kernel : K
  pub spec : Spec
  pub model : Option State
  pub retiring : List Addr
  pub ready : Bool
  pub stats : Stats
  pub last_pass : PassResult

-- Whether the kernel changed, and the error.
abbrev pub Change : Type 0
Change = Bool × Option Fault

-- An error that the request was not needed is none.
unfoldable pub change_of : Reply → Change
change_of done = (true, none)
change_of known = (false, none)
change_of failed = (false, some request_failed)

-- A rule with exactly the expected selectors and action.
unfoldable pub has_exact : List Rule → Rule → Bool
unfolding has_items
has_exact rules want = has_items rules want.priority want

unfoldable pub all_exact : List Rule → List Rule → Option Fault
unfolding has_exact
all_exact have [] = none
all_exact have (r ∷ rs) =
    let rest = all_exact have rs in if has_exact have r then rest else some not_installed

-- The Spec that a deletion is judged by: the addresses being retired do not count.
unfoldable pub judged_spec : List Addr → Spec → Spec
judged_spec gone s =
    if no_items gone
    then s
    else record s { return_path = λ f. keep (λ a. not (has_addr gone a)) (s.return_path f) }

module _ {K : Type 0} (o : Options K) where
  -- A look records the model when it was stable.
  unfoldable pub looked : Option Snapshot → Owner K → Answer Snapshot × Owner K
  unfolding from_snapshot
  looked none t = (err request_failed, record t { model = none })
  looked (some snap) t = (
    got snap,
    record t { model = if snap.unstable then none else some (from_snapshot t.spec snap) },
  )

  unfoldable pub snapshot : Owner K → Answer Snapshot × Owner K
  unfolding interest looked
  snapshot t =
      let (answer, k) = o.kernel.take (interest t.spec) t.kernel in
      if o.kernel.expired t.kernel
      then (err op_timeout, t)
      else looked answer (record t { kernel = k })

  -- The model of a fresh look; none when it was unstable.
  unfoldable pub fresh_model : Owner K → Answer (Option State) × Owner K
  unfolding snapshot
  fresh_model t =
      let (answer, t') = snapshot t in
      elim answer [ err e ↦ (err e, t') | got snap ↦ (got t'.model, t') ]

  -- The model, unless someone else made a change.
  unfoldable pub foreign_model : State → Option Bool → Owner K → Answer (Option State) × Owner K
  unfolding fresh_model
  foreign_model m none t = (err request_failed, t)
  foreign_model m (some true) t = fresh_model (record t { model = none })
  foreign_model m (some false) t = (got (some m), t)

  -- What the kernel says of changes that others made, if it can.
  unfoldable pub known_model :
      Spec
      → State
      → Option (List ℕ → K → Option Bool × K)
      → Owner K
      → Answer (Option State) × Owner K
  unfolding interest fresh_model foreign_model
  known_model s m none t = fresh_model (record t { model = none })
  known_model s m (some ask) t =
      let (answer, k) = ask (interest s) t.kernel in
      foreign_model m answer (record t { kernel = k })

  unfoldable pub model_or_look : Spec → Option State → Owner K → Answer (Option State) × Owner K
  unfolding fresh_model known_model
  model_or_look s none t = fresh_model t
  model_or_look s (some m) t = known_model s m o.kernel.foreign_change t

  unfoldable pub current_model : Spec → Owner K → Answer (Option State) × Owner K
  unfolding model_or_look
  current_model s t = model_or_look s t.model t

  -- The verdict on a change of the model: refused, or the state after it, if it changes anything.
  unfoldable pub verdict :
      Spec → (State → State × Bool) → Answer (Option State) → Answer (Option State)
  verdict s remove (err e) = err unsafe_deletion
  verdict s remove (got none) = err unsafe_deletion
  verdict s remove (got (some m)) =
      let before = record m { spec = s } in
      let (after, changed) = remove before in
      if not changed
      then got none
      else if o.worsens before after
      then err unsafe_deletion
      else got (some after)

  unfoldable pub approve : (State → State × Bool) → Owner K → Answer (Option State) × Owner K
  unfolding judged_spec current_model verdict
  approve remove t =
      if is_gluetun_sidecar t.spec.config
      then (got none, t)
      else let s = judged_spec t.retiring t.spec in
        let (answer, t') = current_model s t in (verdict s remove answer, t')

  -- The model after a deletion, if there is a model.
  unfoldable pub after_delete : Option State → Reply → Owner K → Owner K
  after_delete after done t = record t {
    model = if is_some t.model && is_some after then after else t.model;
  }
  after_delete after _ t = record t { model = none }

  unfoldable pub after_add : Rule → Reply → Owner K → Owner K
  unfolding with_rule
  after_add r done t = record t {
    model = elim t.model [ none ↦ none | some m ↦ some (with_rule r m) ];
  }
  after_add r known t = t
  after_add r failed t = record t { model = none }

  unfoldable pub after_route : Route → Reply → Owner K → Owner K
  unfolding with_route
  after_route r done t = record t {
    model = elim t.model [ none ↦ none | some m ↦ some (with_route r m) ];
  }
  after_route r _ t = record t { model = none }

  -- The request, if it was approved; it is recorded in the model.
  unfoldable pub request_deletion :
      (K → Reply × K) → Answer (Option State) → Owner K → Change × Owner K
  unfolding change_of after_delete
  request_deletion request (err e) t = ((false, some e), t)
  request_deletion request (got after) t =
      let (reply, k) = request t.kernel in
      (change_of reply, after_delete after reply (record t { kernel = k }))

  unfoldable pub deleted : (State → State × Bool) → (K → Reply × K) → Owner K → Change × Owner K
  unfolding approve request_deletion
  deleted remove request t =
      let (answer, t') = approve remove t in
      if o.kernel.expired t.kernel
      then ((false, some op_timeout), t)
      else request_deletion request answer t'

  unfoldable pub add_rule : Rule → Owner K → Change × Owner K
  unfolding change_of after_add
  add_rule r t =
      if o.kernel.expired t.kernel
      then ((false, some op_timeout), t)
      else let (reply, k) = o.kernel.add_rule r t.kernel in
        (change_of reply, after_add r reply (record t { kernel = k }))

  unfoldable pub del_rule : Rule → Owner K → Change × Owner K
  unfolding deleted without_rule
  del_rule r t = deleted (without_rule r) (o.kernel.del_rule r) t

  unfoldable pub del_rule_priority : Family → ℕ → Owner K → Change × Owner K
  unfolding deleted without_priority
  del_rule_priority f p t = deleted (without_priority f p) (o.kernel.del_rule_priority f p) t

  unfoldable pub del_route : Route → Owner K → Change × Owner K
  unfolding deleted without_route
  del_route r t = deleted (without_route r) (o.kernel.del_route r) t

  -- A replacement is never refused as a duplicate: any error is one.
  unfoldable pub replace_route : Route → Owner K → Option Fault × Owner K
  unfolding after_route
  replace_route r t =
      if o.kernel.expired t.kernel
      then (some op_timeout, t)
      else let (reply, k) = o.kernel.replace_route r t.kernel in
        (
          elim reply [ done ↦ none | _ ↦ some request_failed ],
          after_route r reply (record t { kernel = k }),
        )

  -- What a stable answer says of the rules.
  unfoldable pub shown_in : List Rule → Option (List Rule × Bool) → Option Fault
  unfolding all_exact
  shown_in want none = some unread
  shown_in want (some (have, true)) = all_exact have want
  shown_in want (some (have, false)) = some kept_changing

  abbrev pub rules_shown : Family → Snapshot → List Rule × Bool
  rules_shown f snap = (snap.rules f, not snap.unstable)

  unfoldable pub shown_by_look : Family → List Rule → Answer Snapshot → Option Fault
  unfolding shown_in
  shown_by_look f want (err e) = some e
  shown_by_look f want (got snap) = shown_in want (some (rules_shown f snap))

  -- The rules of one family, read back by the request for rules, or else by a look.
  unfoldable pub read_back :
      Option (Family → K → Option (List Rule × Bool) × K)
      → Family
      → List Rule
      → Owner K
      → Option Fault × Owner K
  unfolding snapshot shown_in shown_by_look
  read_back none f want t = let (answer, t') = snapshot t in (shown_by_look f want answer, t')
  read_back (some read) f want t =
      let (answer, k) = read f t.kernel in
      if o.kernel.expired t.kernel
      then (some op_timeout, t)
      else (shown_in want answer, record t { kernel = k })

  unfoldable pub confirmed : Family → List Rule → Owner K → Option Fault × Owner K
  unfolding read_back
  confirmed f want t = read_back o.kernel.rules_stable f want t
