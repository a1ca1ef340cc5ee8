-- ===== src/Mutator/Installed.antt =====
-- internal/mutator/install.go `Install`: what it leaves when it returns no error.
use molebridge.Base.{
  Bool, true, false, ◌≡◌, refl, ap, sym, subst, ◌∙◌, inl, inr, Option, none, some, List, is_some,
  Bool-cases, Option-cases, if◌then◌else◌, arith,
}
use molebridge.Rtnl.Addr.{Family, v4, v6}
use molebridge.Rtnl.Rule.{Rule}
use molebridge.Rtnl.Route.{Route, Snapshot}
use molebridge.Contract.Config.{is_gluetun_sidecar, is_native_sidecar}
use molebridge.Contract.Spec.{Spec, rules_at, prio_local_guard}
use molebridge.Contract.Plan.InPlace.{InPlace, clean-InPlace}
use molebridge.Mutator.Kernel.{Reply, done, known, failed, Options}
use molebridge.Mutator.Owner.{
  Fault, Answer, err, got, PassResult, Owner, looked, snapshot, add_rule, after_add, replace_route,
  after_route,
}
use molebridge.Mutator.Lawful.{Lawful}
use molebridge.Mutator.Apply.{guard_rule}
use molebridge.Mutator.Pass.{all_clean, plan_all, no_input}
use molebridge.Mutator.Rounds.{reconcile}
use molebridge.Mutator.Verified.{HoldsOn}
use molebridge.Mutator.Passes.{Fresh, reconcile-HoldsOn}
use molebridge.Mutator.Settle.{begin}
use molebridge.Mutator.Install.{
  Failure, install_cause, install_error, Step, in_order, each_family, add_wrapped, local_guard,
  install_fallback, last_pass_of, install_behind, install_rules, install_sidecar, install_anew,
  install_on, install,
}

if_false : {A : Type 0} (b : Bool) (x y : A) → b ≡ false → (if b then x else y) ≡ y
if_false true x y h = cc
if_false false x y h = refl

module _ {K : Type 0} (o : Options K) where
  -- A step keeps the Spec.
  abbrev KeepsSpec : Step o → Type 0
  KeepsSpec step = (t : Owner K) → (step t).1.spec ≡ t.spec

  after_add-spec : (r : Rule) (a : Reply) (t : Owner K) → (after_add o r a t).spec ≡ t.spec
  unfolding after_add
  after_add-spec r done t = refl
  after_add-spec r known t = refl
  after_add-spec r failed t = refl

  after_route-spec : (r : Route) (a : Reply) (t : Owner K) → (after_route o r a t).spec ≡ t.spec
  unfolding after_route
  after_route-spec r done t = refl
  after_route-spec r known t = refl
  after_route-spec r failed t = refl

  looked-spec : (a : Option Snapshot) (t : Owner K) → (looked o a t).1.spec ≡ t.spec
  unfolding looked
  looked-spec none t = refl
  looked-spec (some snap) t = refl

  snapshot-spec : (t : Owner K) → (snapshot o t).1.spec ≡ t.spec
  unfolding snapshot
  snapshot-spec t = elim (Bool-cases (o.kernel.expired t.kernel)) [
    | inl e ↦ rw e refl
    | inr e ↦ rw e (looked-spec _ _)
  ]

  add_wrapped-spec : (w : Fault → Failure) (r : Rule) → KeepsSpec (add_wrapped o w r)
  unfolding add_wrapped add_rule
  add_wrapped-spec w r t = elim (Bool-cases (o.kernel.expired t.kernel)) [
    | inl e ↦ rw e refl
    | inr e ↦ rw e (after_add-spec r _ _)
  ]

  install_fallback-spec : (s : Spec) (f : Family) → KeepsSpec (install_fallback o s f)
  unfolding install_fallback replace_route
  install_fallback-spec s f t = elim (Bool-cases (o.kernel.expired t.kernel)) [
    | inl e ↦ rw e refl
    | inr e ↦ rw e (after_route-spec _ _ _)
  ]

  in_order-spec : (a b : Step o) → KeepsSpec a → KeepsSpec b → KeepsSpec (in_order o a b)
  unfolding in_order
  in_order-spec a b ka kb t = elim (Bool-cases (is_some (a t).0)) [
    | inl e ↦ rw e (ka t)
    | inr e ↦ rw e (kb (a t).1 ∙ ka t)
  ]

  each_family-spec :
      (step : Family → Step o)
      → ((f : Family) → KeepsSpec (step f))
      → KeepsSpec (each_family o step)
  unfolding each_family
  each_family-spec step k = in_order-spec (step v4) (step v6) (k v4) (k v6)

  -- Steps without an error: the second one ended without one.
  in_order-none :
      (a b : Step o) (t : Owner K)
      → (in_order o a b t).0 ≡ none
      → (in_order o a b t ≡ b (a t).1) × ((b (a t).1).0 ≡ none)
  unfolding in_order
  in_order-none a b t h = elim (Option-cases (a t).0) [
    | inl q ↦ (rw q refl, rw q at h)
    | inr (e, q) ↦ absurd (let k = rw q at h in cc)
  ]

  install_anew-rules :
      (s : Spec) (snap : Snapshot) (t : Owner K)
      → is_native_sidecar s.config ≡ false
      → install_anew o s snap t ≡ install_rules o s snap t
  unfolding install_anew
  install_anew-rules s snap t m =
      if_false (is_native_sidecar s.config) (install_sidecar o t) (install_rules o s snap t) m

module _ {K : Type 0} (o : Options K) (holds : K → Family → List Rule)
    (l : Lawful o.kernel holds) where
  -- The owner after a pass that holds.
  abbrev Holds : Owner K → Type 0
  Holds t = (snap : Snapshot) × HoldsOn o (Fresh o holds) t.ready t snap

  abbrev NoSidecar : Spec → Type 0
  NoSidecar s = is_gluetun_sidecar s.config ≡ false

  -- A step that ends without an error ends with a pass that holds.
  abbrev Ends : Step o → Owner K → Type 0
  Ends step t = (step t).0 ≡ none → Holds (step t).1

  last_pass_of-Holds :
      (w : PassResult → Failure) (t : Owner K) → NoSidecar t.spec → Ends (last_pass_of o w) t
  unfolding last_pass_of
  last_pass_of-Holds w t n h = elim (Bool-cases (reconcile o t).0.contract_holds) [
    | inl e ↦ reconcile-HoldsOn o holds l t n e
    | inr e ↦ absurd (let k = rw e at h in cc)
  ]

  in_order-Holds : (a b : Step o) (t : Owner K) → Ends b (a t).1 → Ends (in_order o a b) t
  in_order-Holds a b t k h = let (p, q) = in_order-none o a b t h in rw p (k q)

  install_behind-Holds : (s : Spec) (t : Owner K) → NoSidecar s → Ends (install_behind o s) t
  unfolding install_behind
  install_behind-Holds s t n =
      let s' : Spec = record s { temp_guard = λ f. true } in
      let t0 : Owner K = record t { spec = s' } in
      let guard : Family → Step o = λ f. add_wrapped o install_cause (guard_rule s' f) in
      let fall : Family → Step o = install_fallback o s' in
      let guards : Step o = each_family o guard in
      let falls : Step o = each_family o fall in
      let wrap : PassResult → Failure = λ res. install_error res.problems res.err in
      let kept =
        each_family-spec o fall (install_fallback-spec o s') (guards t0).1
        ∙ each_family-spec o guard (λ f. add_wrapped-spec o install_cause (guard_rule s' f)) t0 in
      in_order-Holds guards (in_order o falls (last_pass_of o wrap)) t0 (
        in_order-Holds falls (last_pass_of o wrap) (guards t0).1 (
          last_pass_of-Holds wrap (falls (guards t0).1).1
            (ap (λ x. is_gluetun_sidecar x.config) kept ∙ n)))

  install_rules-Holds :
      (s : Spec) (snap : Snapshot) (t : Owner K) → NoSidecar s → Ends (install_rules o s snap) t
  unfolding install_rules
  install_rules-Holds s snap t n =
      let locals : Step o =
        each_family o (λ f. local_guard o f (snap.rules f) (rules_at s f prio_local_guard)) in
      in_order-Holds locals (install_behind o s) t (install_behind-Holds s (locals t).1 n)

  install_anew-Holds :
      (s : Spec) (snap : Snapshot) (t : Owner K)
      → NoSidecar s
      → is_native_sidecar s.config ≡ false
      → Ends (install_anew o s snap) t
  install_anew-Holds s snap t n m =
      subst (λ r. r.0 ≡ none → Holds r.1) (sym (install_anew-rules o s snap t m))
        (install_rules-Holds s snap t n)

  install_on-Holds :
      (s : Spec) (a : Answer Snapshot) (t : Owner K)
      → t.spec ≡ s
      → NoSidecar s
      → is_native_sidecar s.config ≡ false
      → Ends (install_on o s a) t
  unfolding install_on
  install_on-Holds s (err e) t p n m = λ h. cc
  install_on-Holds s (got snap) t p n m = elim (Bool-cases (all_clean (plan_all o s snap))) [
    | inr c ↦ rw c (install_anew-Holds s snap t n m)
    | inl c ↦ rw c (elim (Bool-cases (reconcile o t).0.contract_holds) [
      | inl e ↦ rw e (λ _. reconcile-HoldsOn o holds l t (rw p n) e)
      | inr e ↦ rw e (install_anew-Holds s snap (reconcile o t).1 n m)
    ])
  ]

  install-Holds :
      (t : Owner K)
      → is_gluetun_sidecar t.spec.config ≡ false
      → is_native_sidecar t.spec.config ≡ false
      → (install o t).0 ≡ none
      → Holds (install o t).1
  unfolding install begin
  install-Holds t n m = rw n (
      install_on-Holds t.spec (snapshot o (begin o t)).0 (snapshot o (begin o t)).1
        (snapshot-spec o (begin o t)) n m)

  all_clean-InPlace :
      (s : Spec) (snap : Snapshot)
      → all_clean (plan_all o s snap) ≡ true
      → (f : Family) → InPlace o.text s snap f no_input
  unfolding all_clean plan_all
  all_clean-InPlace s snap h v4 = clean-InPlace o.text s snap v4 no_input (ground arith)
  all_clean-InPlace s snap h v6 = clean-InPlace o.text s snap v6 no_input (ground arith)

  -- On a kernel that behaves as documented, an installation on an exit that is no sidecar and that
  -- returns no error leaves the contract installed: there is a stable look, the kernel's own answer
  -- to its last request, for the tables that the owner's configuration asks for, whose rules the
  -- kernel has; on it, in both families, the rules that the
  -- contract judges are with their numbers the expected ones, the exit table needs no change and
  -- the host table is what the main table's host routes are. No temporary guard is expected, and
  -- the owner is ready exactly when both families are healthy on that look.
  pub install-HoldsOn :
      (t : Owner K)
      → is_gluetun_sidecar t.spec.config ≡ false
      → is_native_sidecar t.spec.config ≡ false
      → (install o t).0 ≡ none
      → (snap : Snapshot) × HoldsOn o (Fresh o holds) (install o t).1.ready (install o t).1 snap
        × ((f : Family) → InPlace o.text (install o t).1.spec snap f no_input)
  install-HoldsOn t n m h =
      let (snap, k) = install-Holds t n m h in
      (snap, k, all_clean-InPlace (install o t).1.spec snap k.clean)
