-- ===== src/Mutator/Passes.antt =====
-- internal/mutator/pass.go `reconcile`: the verdict of a pass on a kernel.
use mathlib.Core.List.{Memᴰ}
use molebridge.Base.{
  true, false, not, ◌≡◌, refl, ap, inl, inr, Option, none, some, List, is_some, Bool-cases,
}
use molebridge.Rtnl.Addr.{Family}
use molebridge.Rtnl.Rule.{Rule}
use molebridge.Rtnl.Route.{Snapshot}
use molebridge.Contract.Config.{Config, is_gluetun_sidecar}
use molebridge.Contract.Spec.{Spec}
use molebridge.Contract.Plan.{interest}
use molebridge.Mutator.Kernel.{Options}
use molebridge.Mutator.Owner.{got, Owner, looked, snapshot}
use molebridge.Mutator.Lawful.{Lawful}
use molebridge.Mutator.Rounds.{reconcile, sidecar_result, finish}
use molebridge.Mutator.Verified.{HoldsOn, reconcile-Said}

module _ {K : Type 0} (o : Options K) where
  -- A pass that does not report that the contract holds reports an error, and a pass that reports
  -- that it holds reports none, whatever the kernel answers.
  pub reconcile-fault :
      (t : Owner K) → is_some (reconcile o t).0.err ≡ not (reconcile o t).0.contract_holds
  reconcile-fault t = elim (Bool-cases (is_gluetun_sidecar t.spec.config)) [
    | inl e ↦ unfold reconcile finish sidecar_result in rw e refl
    | inr e ↦
        let said = reconcile-Said o (λ _ _ _. Unit) (λ _ _ _. tt) t e in
        elim (Bool-cases (reconcile o t).0.contract_holds) [
          | inl h ↦ rw (h, (said.0 h).0) refl
          | inr h ↦ rw (h, said.1 h) refl
        ]
  ]

module _ {K : Type 0} (o : Options K) (holds : K → Family → List Rule) where
  -- The look is what the kernel answered to its last request, for the tables of a Spec of this
  -- configuration; and where it was stable, the kernel has the rules that it shows.
  pub record Fresh (c : Config) (snap : Snapshot) (k : K) : Type 0 where
    pub asked : Spec
    pub same_config : asked.config ≡ c
    pub before : K
    pub answer : o.kernel.take (interest asked) before ≡ (some snap, k)
    pub held :
        snap.unstable ≡ false → (f : Family) (x : Rule) → Memᴰ x (snap.rules f) → Memᴰ x (holds k f)

module _ {K : Type 0} (o : Options K) (holds : K → Family → List Rule)
    (l : Lawful o.kernel holds) where
  looked-Fresh :
      (a : Option Snapshot) (t : Owner K)
      → ((snap : Snapshot) → a ≡ some snap → Fresh o holds t.spec.config snap t.kernel)
      → (snap : Snapshot) → (looked o a t).0 ≡ got snap
      → Fresh o holds (looked o a t).1.spec.config snap (looked o a t).1.kernel
  unfolding looked
  looked-Fresh none t h snap e = cc
  looked-Fresh (some s) t h snap e = h snap (cc)

  snapshot-Fresh :
      (t : Owner K) (snap : Snapshot)
      → (snapshot o t).0 ≡ got snap
      → Fresh o holds (snapshot o t).1.spec.config snap (snapshot o t).1.kernel
  unfolding snapshot
  snapshot-Fresh t snap h = elim (Bool-cases (o.kernel.expired t.kernel)) [
    | inl e ↦ absurd (let k = rw e at h in cc)
    | inr e ↦
        let (a, k) = o.kernel.take (interest t.spec) t.kernel in
        rw e (
          looked-Fresh a _
            (λ s q. record {
              asked = t.spec;
              same_config = refl;
              before = t.kernel;
              answer = ap (λ z. (z, k)) q;
              held = λ u f. l.take-Shown (interest t.spec) t.kernel f s q u;
            })
            snap (rw e at h))
  ]

  -- A pass that reports that the contract holds, for an exit that has one and on a kernel that
  -- behaves as documented, ends with a stable look that is the kernel's own answer to its last
  -- request, for the tables that the owner's configuration asks for, and whose rules the kernel
  -- has; on it neither family has anything to repair, no temporary guard is expected, and the
  -- owner is ready exactly when both families are healthy on that look.
  pub reconcile-HoldsOn :
      (t : Owner K)
      → is_gluetun_sidecar t.spec.config ≡ false
      → (reconcile o t).0.contract_holds ≡ true
      → (snap : Snapshot) × HoldsOn o (Fresh o holds) (reconcile o t).1.ready (reconcile o t).1 snap
  reconcile-HoldsOn t h k = ((reconcile-Said o (Fresh o holds) snapshot-Fresh t h).0 k).1
