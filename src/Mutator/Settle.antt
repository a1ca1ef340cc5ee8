-- ===== src/Mutator/Settle.antt =====
-- internal/mutator/install.go and retire.go: changes of the expected return-path addresses.
--
-- An operation returns its errors as a list, where the source joins them.
use molebridge.Base.{
  ℕ, zero, suc, Bool, true, false, not, ◌&&◌, ◌||◌, Option, none, some, List, [], ◌∷◌, ◌++◌, same,
  is_some, any, all, keep, if◌then◌else◌,
}
use molebridge.Rtnl.Addr.{Family, is_v4, Addr, is4, Addr-discrete, OptAddr-discrete}
use molebridge.Rtnl.Rule.{Rule}
use molebridge.Rtnl.Route.{IfAddr, Link, Snapshot, link}
use molebridge.Contract.Config.{is_gluetun, is_gluetun_sidecar}
use molebridge.Contract.Spec.{Spec, update, rules_at, prio_return_path, prio_backstop}
use molebridge.Contract.Plan.{has_addr, no_items, only}
use molebridge.Policy.Edits.{live_of}
use molebridge.Mutator.Kernel.{Options}
use molebridge.Mutator.Owner.{
  Fault, kept_changing, no_verdict, other_family, backend_return_path, return_path_live, Answer,
  err, got, PassResult, Owner, has_exact, snapshot, del_rule,
}
use molebridge.Mutator.Pass.{start_result}
use molebridge.Mutator.Rounds.{record_pass, reconcile}

-- Each address once, in order of its first place; `out` holds those found so far.
unfoldable pub dedupe : List Addr → List Addr → List Addr
dedupe out [] = out
dedupe out (a ∷ as') = dedupe (if has_addr out a then out else out ++ a ∷ []) as'

unfoldable pub with_return_path : Spec → Family → List Addr → Spec
with_return_path s f as' = record s {
  leave_return_path = update s.leave_return_path f false;
  return_path = update s.return_path f as';
}

unfoldable pub subset_of : List Addr → List Addr → Option Addr → Bool
unfolding OptAddr-discrete
subset_of set of extra = all (λ a. has_addr of a || same OptAddr-discrete (some a) extra) set

-- Whether the address is set and of the family.
abbrev pub of_family : Family → Option Addr → Bool
of_family f none = false
of_family f (some a) = if is_v4 f then is4 a else not (is4 a)

-- The looks that may follow the first one of a transaction: `settleLooks` less one.
abbrev pub further_looks : ℕ
further_looks = 2

unfoldable pub or_unverified : Option Fault → Fault
or_unverified (some e) = e
or_unverified none = no_verdict

-- The addresses that keep their pair: the live ones, then those that the outcome leaves.
unfoldable pub kept_addrs :
    Bool → Spec → Option Link → List IfAddr → Family → Option Addr → Addr → List Addr
unfolding live_of dedupe
kept_addrs failed before exit_link found f old next =
    dedupe []
      (live_of exit_link found ++ (if failed then before.return_path f ++ only old else next ∷ []))

module _ {K : Type 0} (o : Options K) where
  -- `unverified`: a result that is no verdict.
  unfoldable pub unverified : Fault → Owner K → Owner K
  unfolding record_pass
  unverified e t = record_pass (record start_result { err = some e; at = o.kernel.now t.kernel }) t

  -- The look itself, or what follows it when it was unstable.
  unfoldable pub look_unless :
      Answer Snapshot → Owner K → Answer Snapshot × Owner K → Answer Snapshot × Owner K
  look_unless (err e) t rest = (err e, t)
  look_unless (got snap) t rest = if snap.unstable then rest else (got snap, t)

  -- A look, and up to `n` more while it is unstable.
  unfoldable pub stable_look : ℕ → Owner K → Answer Snapshot × Owner K
  unfolding snapshot look_unless
  stable_look zero t = snapshot o t
  stable_look (suc n) t =
      let (answer, t') = snapshot o t in let rest = stable_look n t' in look_unless answer t' rest

  -- What `settle` does on a stable look: the addresses to keep are expected, and a pass follows.
  unfoldable pub settle_on :
      Spec → Spec → Family → Option Addr → Addr → Bool → Snapshot → Owner K → List Fault × Owner K
  unfolding link kept_addrs with_return_path reconcile or_unverified subset_of
  settle_on before both f old next failed snap t =
      let kept =
        kept_addrs failed before (link snap both.config.exit_if) (snap.addrs f) f old next in
      let (res, t') = reconcile o (record t { spec = with_return_path both f kept }) in
      if not res.contract_holds
      then (or_unverified res.err ∷ [], t')
      else if failed && subset_of kept (before.return_path f) old
      then ([], record t' { spec = before })
      else ([], t')

  unfoldable pub settle_from :
      Spec
      → Spec
      → Family
      → Option Addr
      → Addr
      → Bool
      → Answer Snapshot
      → Owner K
      → List Fault × Owner K
  unfolding unverified settle_on
  settle_from before both f old next failed (err e) t = (e ∷ [], unverified e t)
  settle_from before both f old next failed (got snap) t =
      if snap.unstable
      then (kept_changing ∷ [], unverified kept_changing t)
      else settle_on before both f old next failed snap t

  unfoldable pub settle :
      Spec → Spec → Family → Option Addr → Addr → Bool → Owner K → List Fault × Owner K
  unfolding stable_look settle_from
  settle before both f old next failed t =
      let (answer, t') = stable_look further_looks t in
      settle_from before both f old next failed answer t'

  -- The error of a pass that was to hold the contract.
  unfoldable pub pass_faults : PassResult → List Fault
  unfolding or_unverified
  pass_faults res = if res.contract_holds then [] else or_unverified res.err ∷ []

  -- The callback, and the pass after it if it succeeded.
  unfoldable pub changed_addr : (Owner K → List Fault × Owner K) → Owner K → List Fault × Owner K
  unfolding reconcile pass_faults
  changed_addr change t =
      let (es, t1) = change t in
      let (res, t2) = reconcile o t1 in if no_items es then (pass_faults res, t2) else (es, t1)

  -- The callback runs with both pairs in place, and what survives is settled after it.
  unfoldable pub change_in_place :
      Spec
      → Spec
      → Family
      → Option Addr
      → Addr
      → (Owner K → List Fault × Owner K)
      → Owner K
      → List Fault × Owner K
  unfolding OptAddr-discrete unverified changed_addr settle
  change_in_place before both f old next change t =
      let gone = if same OptAddr-discrete old (some next) then [] else only old in
      let t1 =
        unverified no_verdict
          (record t { retiring = if no_items gone then t.retiring else gone }) in
      let (es, t2) = changed_addr change t1 in
      let (es', t3) = settle before both f old next (not (no_items es)) t2 in (es ++ es', t3)

  -- `ChangeReturnPath` for a valid new address.
  unfoldable pub change_to :
      Family
      → Option Addr
      → Addr
      → (Owner K → List Fault × Owner K)
      → Owner K
      → List Fault × Owner K
  unfolding dedupe with_return_path reconcile pass_faults settle change_in_place
  change_to f old next change t =
      let before = t.spec in
      let addrs = dedupe [] (before.return_path f ++ (only old ++ next ∷ [])) in
      let both = with_return_path before f addrs in
      let (res, t1) = reconcile o (record t { spec = both }) in
      let (es, t2) = settle before both f old next true t1 in
      let rest = change_in_place before both f old next change t1 in
      if not res.contract_holds then (pass_faults res ++ es, t2) else rest

  -- A new operation knows no model and retires nothing.
  unfoldable pub begin : Owner K → Owner K
  begin t = record t { model = none; retiring = [] }

  unfoldable pub change_return_path :
      Family
      → Option Addr
      → Option Addr
      → (Owner K → List Fault × Owner K)
      → Owner K
      → List Fault × Owner K
  unfolding begin change_to
  change_return_path f old next change t =
      if is_gluetun t.spec.config || is_gluetun_sidecar t.spec.config
      then (backend_return_path ∷ [], begin t)
      else if not (of_family f next) || is_some old && not (of_family f old)
      then (other_family ∷ [], begin t)
      else elim next [
        | none ↦ (other_family ∷ [], begin t)
        | some a ↦ change_to f old a change (begin t)
      ]

  -- The pair of the address, as far as the kernel has it.
  unfoldable pub present_pair : Spec → Family → Addr → List Rule → List Rule
  unfolding with_return_path rules_at has_exact
  present_pair s f a found =
      let probe = with_return_path s f (a ∷ []) in
      keep (has_exact found) (rules_at probe f prio_return_path ++ rules_at probe f prio_backstop)

  -- The removals of a retirement, up to the first error.
  unfoldable pub del_pair : List Rule → Owner K → Option Fault × Owner K
  unfolding del_rule
  del_pair [] t = (none, t)
  del_pair (r ∷ rs) t =
      let (change, t') = del_rule o r t in
      let rest = del_pair rs t' in if is_some change.1 then (change.1, t') else rest

  -- The Spec without the address; an exit that left its pair to the owner does so again.
  unfoldable pub without_addr : Spec → Family → Addr → Spec
  unfolding with_return_path Addr-discrete
  without_addr s f a =
      let rest = keep (λ b. not (same Addr-discrete b a)) (s.return_path f) in
      let next = with_return_path s f rest in
      if no_items rest && o.leave_return_path f
      then record next { leave_return_path = update next.leave_return_path f true }
      else next

  unfoldable pub retire_from : Family → Addr → List Rule → Owner K → List Fault × Owner K
  unfolding del_pair without_addr reconcile pass_faults
  retire_from f a present t =
      let (fault, t1) = del_pair present (record t { retiring = a ∷ [] }) in
      let (res, t2) = reconcile o (record t1 { spec = without_addr t.spec f a; retiring = [] }) in
      elim fault [ some e ↦ (e ∷ [], t1) | none ↦ (pass_faults res, t2) ]

  abbrev pub on_any_link : Addr → List IfAddr → Bool
  on_any_link a found = any (λ i. same Addr-discrete i.local.addr a) found

  unfoldable pub retire_on : Family → Addr → Snapshot → Owner K → List Fault × Owner K
  unfolding Addr-discrete present_pair retire_from
  retire_on f a snap t =
      let present = present_pair t.spec f a (snap.rules f) in
      let rest = retire_from f a present t in
      if snap.unstable
      then (kept_changing ∷ [], t)
      else if on_any_link a (snap.addrs f)
      then (return_path_live ∷ [], t)
      else if not (has_addr (t.spec.return_path f) a) && no_items present
      then ([], t)
      else rest

  unfoldable pub retire_look : Family → Addr → Answer Snapshot → Owner K → List Fault × Owner K
  unfolding retire_on
  retire_look f a (err e) t = (e ∷ [], t)
  retire_look f a (got snap) t = retire_on f a snap t

  unfoldable pub retire_valid : Family → Addr → Owner K → List Fault × Owner K
  unfolding stable_look retire_look
  retire_valid f a t = let (answer, t') = stable_look further_looks t in retire_look f a answer t'

  unfoldable pub retire_return_path : Family → Option Addr → Owner K → List Fault × Owner K
  unfolding begin retire_valid
  retire_return_path f addr t =
      if is_gluetun_sidecar t.spec.config || is_gluetun t.spec.config
      then ([], begin t)
      else if not (of_family f addr)
      then (other_family ∷ [], begin t)
      else elim addr [ none ↦ (other_family ∷ [], begin t) | some a ↦ retire_valid f a (begin t) ]
