-- ===== src/Mutator/Unstable.antt =====
-- internal/mutator/pass.go: a whole pass over unstable looks.
use mathlib.Core.List.{Memᴰ}
use molebridge.Base.{
  ℕ, zero, suc, Bool, true, false, ◌≡◌, refl, inl, inr, Option, none, some, List, Bool-cases, arith,
}
use molebridge.Rtnl.Addr.{Family}
use molebridge.Rtnl.Rule.{Rule}
use molebridge.Rtnl.Route.{Route, Snapshot}
use molebridge.Contract.Config.{is_gluetun_sidecar}
use molebridge.Contract.Plan.{interest}
use molebridge.Mutator.Kernel.{Options}
use molebridge.Mutator.Owner.{Answer, err, got, PassResult, Owner, looked, snapshot}
use molebridge.Mutator.Kept.{Looks, snapshot-keeps}
use molebridge.Mutator.Pass.{max_rounds, start_result}
use molebridge.Mutator.Rounds.{
  Next, again, stop, look_after, look_again, round_step, Result, then_rounds, rounds, or_nothing,
  from_look, first_look, run_rounds, finish, reconcile, record_pass,
}
use molebridge.Mutator.Cases.{adopted, round_step-cases}
use molebridge.Mutator.Phantom.{repair-keeps}
use molebridge.Mutator.Lawful.{Lawful}
use molebridge.Mutator.Gapless.{Held-Looks}

module _ {K : Type 0} (o : Options K) (P : K → Type 0) (looks : Looks o.kernel P)
    (adds : (r : Rule) (k : K) → P k → P (o.kernel.add_rule r k).1)
    (replaces : (r : Route) (k : K) → P k → P (o.kernel.replace_route r k).1)
    (unsure : (ts : List ℕ) (k : K) (snap : Snapshot)
      → (o.kernel.take ts k).0 ≡ some snap
      → snap.unstable ≡ true) where
  -- What goes on after a round over an unstable look.
  NextKept : Next K → Type 0
  NextKept (again snap res t) = (snap.unstable ≡ true) × P t.kernel
  NextKept (stop e res t) = P t.kernel

  ResultKept : Result o → Type 0
  ResultKept none = Unit
  ResultKept (some (e, res, t)) = P t.kernel

  looked-unsure :
      (a : Option Snapshot) (t : Owner K)
      → ((snap : Snapshot) → a ≡ some snap → snap.unstable ≡ true)
      → (snap : Snapshot) → (looked o a t).0 ≡ got snap
      → snap.unstable ≡ true
  unfolding looked
  looked-unsure none t h snap e = cc
  looked-unsure (some s) t h snap e = h snap (cc)

  snapshot-unsure :
      (t : Owner K) (snap : Snapshot) → (snapshot o t).0 ≡ got snap → snap.unstable ≡ true
  unfolding snapshot
  snapshot-unsure t snap h = elim (Bool-cases (o.kernel.expired t.kernel)) [
    | inl e ↦ absurd (let k = rw e at h in cc)
    | inr e ↦
        looked-unsure (o.kernel.take (interest t.spec) t.kernel).0 _
          (unsure (interest t.spec) t.kernel) snap (rw e at h)
  ]

  look_after-keeps :
      (late : Bool) (res : PassResult) (a : Answer Snapshot) (t : Owner K)
      → ((snap : Snapshot) → a ≡ got snap → snap.unstable ≡ true)
      → P t.kernel
      → NextKept (look_after o late res a t)
  unfolding look_after NextKept
  look_after-keeps late res (err e) t u h = h
  look_after-keeps true res (got snap) t u h = h
  look_after-keeps false res (got snap) t u h = (u snap refl, h)

  look_again-keeps :
      (late : Bool) (st : PassResult × Owner K) → P st.1.kernel → NextKept (look_again o late st)
  unfolding look_again
  look_again-keeps late st h =
      let (answer, t) = snapshot o st.1 in
      look_after-keeps late st.0 answer t (snapshot-unsure st.1) (snapshot-keeps o P looks st.1 h)

  round_step-keeps :
      (r : ℕ) (snap : Snapshot) (res : PassResult) (t : Owner K)
      → snap.unstable ≡ true
      → P t.kernel
      → NextKept (round_step o r snap res t)
  round_step-keeps r snap res t u h =
      let t' = adopted o r snap res t in
      round_step-cases o r snap res t NextKept (unfold NextKept in h)
        (λ _. look_again-keeps false (res, t') h) (λ _ _ _. unfold NextKept in h)
        (λ e. absurd (ground (arith, u, e))) (unfold NextKept in h)
        (look_again-keeps false _ (repair-keeps o P looks adds replaces snap _ res t' u h))

  then_rounds-keeps :
      (x : Next K) (more : Snapshot → PassResult → Owner K → Result o)
      → NextKept x
      → ((snap : Snapshot) (res : PassResult) (t : Owner K)
          → snap.unstable ≡ true
          → P t.kernel
          → ResultKept (more snap res t))
      → ResultKept (then_rounds o x more)
  unfolding then_rounds NextKept ResultKept
  then_rounds-keeps (again snap res t) more h k = k snap res t h.0 h.1
  then_rounds-keeps (stop e res t) more h k = h

  rounds-keeps :
      (n r : ℕ) (snap : Snapshot) (res : PassResult) (t : Owner K)
      → snap.unstable ≡ true
      → P t.kernel
      → ResultKept (rounds o n r snap res t)
  unfolding rounds ResultKept
  rounds-keeps zero r snap res t u h = tt
  rounds-keeps (suc n) r snap res t u h =
      then_rounds-keeps (round_step o r snap res t) _ (round_step-keeps r snap res t u h)
        (λ snap' res' t' u' h'. rounds-keeps n (suc r) snap' res' t' u' h')

  or_nothing-keeps :
      (t : Owner K) (r : Result o) → ResultKept r → P t.kernel → P (or_nothing t r).2.kernel
  unfolding ResultKept
  or_nothing-keeps t none h k = k
  or_nothing-keeps t (some r) h k = h

  from_look-keeps :
      (a : Answer Snapshot) (t : Owner K)
      → ((snap : Snapshot) → a ≡ got snap → snap.unstable ≡ true)
      → P t.kernel
      → P (from_look o a t).2.kernel
  unfolding from_look run_rounds
  from_look-keeps (err e) t u h = h
  from_look-keeps (got snap) t u h =
      or_nothing-keeps t (rounds o (suc max_rounds) 0 snap start_result t)
        (rounds-keeps (suc max_rounds) 0 snap start_result t (u snap refl) h) h

  pub reconcile-keeps : (t : Owner K) → P t.kernel → P (reconcile o t).1.kernel
  unfolding reconcile first_look finish record_pass
  reconcile-keeps t h = elim (Bool-cases (is_gluetun_sidecar t.spec.config)) [
    | inl e ↦ rw e h
    | inr e ↦
        let (answer, t') = snapshot o t in
        rw e (from_look-keeps answer t' (snapshot-unsure t) (snapshot-keeps o P looks t h))
  ]

-- A pass whose looks are all unstable removes no rule of a family from a kernel that behaves as
-- documented, whatever its plans say.
pub reconcile-phantom :
    {K : Type 0} (o : Options K) (holds : K → Family → List Rule)
    → Lawful o.kernel holds
    → ((ts : List ℕ) (k : K) (snap : Snapshot)
        → (o.kernel.take ts k).0 ≡ some snap
        → snap.unstable ≡ true)
    → (t : Owner K) (f : Family) (x : Rule) → Memᴰ x (holds t.kernel f)
    → Memᴰ x (holds (reconcile o t).1.kernel f)
reconcile-phantom o holds l unsure t f x m =
    reconcile-keeps o (λ k. Memᴰ x (holds k f))
      (Held-Looks o.kernel holds l f (λ rs. Memᴰ x rs) (λ xs ys sub. sub x))
      (λ r k. l.add-Held r k f x) (λ r k. l.replace_route-Held r k f x) unsure t m
