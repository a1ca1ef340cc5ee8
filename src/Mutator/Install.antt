-- ===== src/Mutator/Install.antt =====
-- internal/mutator/install.go `Install`: the contract, put in place before the tunnel exists.
--
-- The log lines are left out, and the texts that wrap an error.
use molebridge.Base.{true, Option, none, some, List, [], ◌∷◌, is_some, if◌then◌else◌}
use molebridge.Rtnl.Addr.{Family, v4, v6}
use molebridge.Rtnl.Rule.{Rule}
use molebridge.Rtnl.Route.{Snapshot}
use molebridge.Contract.Config.{is_gluetun_sidecar, is_native_sidecar}
use molebridge.Contract.Spec.{Spec, rules_at, prio_local_guard}
use molebridge.Contract.Routes.{fallback_route}
use molebridge.Contract.Plan.{Problem}
use molebridge.Mutator.Kernel.{Options}
use molebridge.Mutator.Owner.{
  Fault, Answer, err, got, PassResult, Owner, has_exact, snapshot, add_rule, replace_route,
}
use molebridge.Mutator.Apply.{guard_rule}
use molebridge.Mutator.Pass.{all_clean, plan_all}
use molebridge.Mutator.Rounds.{reconcile}
use molebridge.Mutator.Settle.{or_unverified, begin}

-- `InstallError` is the one that says that the guard stays.
pub data Failure : Type 0 where
  failed_at : Fault → Failure
  no_local_guard : Family → Failure
  install_error : (Family → List Problem) → Option Fault → Failure

abbrev pub no_problems : Family → List Problem
no_problems f = []

-- The error of a request, wrapped.
unfoldable pub wrapped : (Fault → Failure) → Option Fault → Option Failure
wrapped w none = none
wrapped w (some e) = some (w e)

abbrev pub install_cause : Fault → Failure
install_cause e = install_error no_problems (some e)

module _ {K : Type 0} (o : Options K) where
  abbrev pub Step : Type 0
  Step = Owner K → Option Failure × Owner K

  -- The first step, and the second one unless the first failed.
  unfoldable pub in_order : Step → Step → Step
  in_order first second t =
      let (e, t') = first t in let rest = second t' in if is_some e then (e, t') else rest

  -- `for _, f := range families`, left at the first error.
  unfoldable pub each_family : (Family → Step) → Step
  unfolding in_order
  each_family step = in_order (step v4) (step v6)

  unfoldable pub add_wrapped : (Fault → Failure) → Rule → Step
  unfolding add_rule wrapped
  add_wrapped w r t = let (change, t') = add_rule o r t in (wrapped w change.1, t')

  -- The local-delivery guard of one family; `have` are the rules of the look.
  unfoldable pub local_guard : Family → List Rule → List Rule → Step
  unfolding has_exact add_wrapped
  local_guard f have (r ∷ []) t = if has_exact have r then (none, t) else add_wrapped failed_at r t
  local_guard f have _ t = (some (no_local_guard f), t)

  unfoldable pub install_fallback : Spec → Family → Step
  unfolding replace_route fallback_route wrapped
  install_fallback s f t =
      let (e, t') = replace_route o (fallback_route f s.config.table) t in
      (wrapped install_cause e, t')

  unfoldable pub last_pass_of : (PassResult → Failure) → Step
  unfolding reconcile
  last_pass_of w t =
      let (res, t') = reconcile o t in (if res.contract_holds then none else some (w res), t')

  -- Behind the local guards: the temporary guards, the fallbacks, then the rest.
  unfoldable pub install_behind : Spec → Step
  unfolding guard_rule add_wrapped in_order each_family install_fallback last_pass_of
  install_behind s t =
      let s' : Spec = record s { temp_guard = λ f. true } in
      in_order (each_family (λ f. add_wrapped install_cause (guard_rule s' f)))
        (in_order (each_family (install_fallback s'))
          (last_pass_of (λ res. install_error res.problems res.err)))
        (record t { spec = s' })

  -- The local guards, then the rest.
  unfoldable pub install_rules : Spec → Snapshot → Step
  unfolding rules_at in_order each_family local_guard install_behind
  install_rules s snap =
      in_order (each_family (λ f. local_guard f (snap.rules f) (rules_at s f prio_local_guard)))
        (install_behind s)

  -- A sidecar has no guards: one pass.
  unfoldable pub install_sidecar : Step
  unfolding last_pass_of or_unverified
  install_sidecar = last_pass_of (λ res. failed_at (or_unverified res.err))

  -- What follows when the contract is not there yet.
  unfoldable pub install_anew : Spec → Snapshot → Step
  unfolding install_rules install_sidecar
  install_anew s snap t =
      if is_native_sidecar s.config then install_sidecar t else install_rules s snap t

  unfoldable pub install_on : Spec → Answer Snapshot → Step
  unfolding all_clean plan_all reconcile install_anew
  install_on s (err e) t = (some (failed_at e), t)
  install_on s (got snap) t =
      let (res, t') = reconcile o t in
      let rest = install_anew s snap t' in
      if all_clean (plan_all o s snap)
      then (if res.contract_holds then (none, t') else rest)
      else install_anew s snap t

  unfoldable pub install : Step
  unfolding begin snapshot install_on
  install t =
      let (answer, t') = snapshot o (begin o t) in
      if is_gluetun_sidecar t.spec.config then (none, begin o t) else install_on t.spec answer t'
