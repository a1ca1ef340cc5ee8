-- ===== src/Mutator/Verified.antt =====
-- internal/mutator/pass.go `reconcile`: what a verified pass and an unverified one say.
use molebridge.Base.{
  ℕ, zero, suc, Bool, true, false, not, ◌&&◌, ◌≡◌, refl, sym, subst, Bool-cases, ◌∙◌, inl, inr,
  none, some, is_some, Option-cases, arith,
}
use molebridge.Rtnl.Addr.{Family, v4, v6}
use molebridge.Rtnl.Route.{Snapshot}
use molebridge.Contract.Config.{Config, is_native_sidecar, is_gluetun_sidecar}
use molebridge.Contract.Spec.{Spec}
use molebridge.Mutator.Kernel.{Options}
use molebridge.Mutator.Owner.{
  Fault, unverified_after_repair, Answer, err, got, PassResult, Owner, snapshot,
}
use molebridge.Mutator.Rounded.{rounds_enough}
use molebridge.Mutator.Cases.{adopted, round_step-cases, release_guards-holds, repair-holds}
use molebridge.Mutator.Pass.{
  max_rounds, has_guard, adopt_guard, all_clean, all_healthy, guards_held, fail, plan_all, Ending,
  verified_on, unverified_on, no_look, start_result,
}
use molebridge.Mutator.Rounds.{
  Next, again, stop, look_after, look_again, verified_result, round_step, Result, then_rounds,
  rounds, or_nothing, run_rounds, from_look, first_look, closing, finish, record_pass, reconcile,
}

adopt_guard-config :
    (snap : Snapshot) (f : Family) (s : Spec) → (adopt_guard snap f s).config ≡ s.config
unfolding adopt_guard
adopt_guard-config snap f s =
    elim (Bool-cases (
      not (is_native_sidecar s.config) && (not (s.temp_guard f) && has_guard s f (snap.rules f)))) [
        | inl e ↦ rw e refl
        | inr e ↦ rw e refl
      ]

module _ {K : Type 0} (o : Options K) (F : Config → Snapshot → K → Type 0) where
  -- A stable look on which both families have nothing to repair, with no temporary guard expected,
  -- and what a look says of the kernel; verified says whether both families are healthy.
  pub record HoldsOn (verified : Bool) (t : Owner K) (snap : Snapshot) : Type 0 where
    pub stable : snap.unstable ≡ false
    pub clean : all_clean (plan_all o t.spec snap) ≡ true
    pub unguarded : guards_held t.spec ≡ false
    pub health : verified ≡ all_healthy (plan_all o t.spec snap)
    pub shown : F t.spec.config snap t.kernel

  Ended : Ending → PassResult → Owner K → Type 0
  Ended (verified_on snap) res t =
      (res.contract_holds ≡ true) × (res.err ≡ none) × HoldsOn res.verified t snap
  Ended (unverified_on snap) res t = res.contract_holds ≡ false
  Ended no_look res t = (res.contract_holds ≡ false) × (is_some res.err ≡ true)

  NextOk : Next K → Type 0
  NextOk (again snap res t) = (res.contract_holds ≡ false) × F t.spec.config snap t.kernel
  NextOk (stop e res t) = Ended e res t

  ResultOk : Result o → Type 0
  ResultOk none = Unit
  ResultOk (some (e, res, t)) = Ended e res t

  fail-is_some : (e : Fault) (res : PassResult) → is_some (fail e res).err ≡ true
  fail-is_some e res = elim (Option-cases res.err) [
    | inl q ↦ ground arith
    | inr (x, q) ↦ ground arith
  ]

  module _
      (look : (t : Owner K) (snap : Snapshot)
        → (snapshot o t).0 ≡ got snap
        → F (snapshot o t).1.spec.config snap (snapshot o t).1.kernel) where
    look_after-Ok :
        (late : Bool) (res : PassResult) (a : Answer Snapshot) (t : Owner K)
        → res.contract_holds ≡ false
        → ((snap : Snapshot) → a ≡ got snap → F t.spec.config snap t.kernel)
        → NextOk (look_after o late res a t)
    unfolding look_after NextOk Ended
    look_after-Ok late res (err e) t h fresh = (h, fail-is_some e res)
    look_after-Ok true res (got snap) t h fresh = h
    look_after-Ok false res (got snap) t h fresh = (h, fresh snap refl)

    look_again-Ok :
        (late : Bool) (st : PassResult × Owner K)
        → st.0.contract_holds ≡ false
        → NextOk (look_again o late st)
    unfolding look_again
    look_again-Ok late st h =
        look_after-Ok late st.0 (snapshot o st.1).0 (snapshot o st.1).1 h (look st.1)

    round_step-Ok :
        (r : ℕ) (snap : Snapshot) (res : PassResult) (t : Owner K)
        → res.contract_holds ≡ false
        → F t.spec.config snap t.kernel
        → NextOk (round_step o r snap res t)
    round_step-Ok r snap res t h fresh =
        let same_config =
          adopt_guard-config snap v6 (adopt_guard snap v4 t.spec)
          ∙ adopt_guard-config snap v4 t.spec in
        let kept = subst (λ c. F c snap t.kernel) (sym same_config) fresh in
        round_step-cases o r snap res t NextOk (unfold NextOk Ended in h)
          (λ _. look_again-Ok false (res, adopted o r snap res t) h)
          (λ c u g.
            unfold NextOk Ended verified_result in
            (
              refl,
              refl,
              record { stable = u; clean = c; unguarded = g; health = refl; shown = kept },
            ))
          (λ _. look_again-Ok _ _ (release_guards-holds o res _ ∙ h)) (unfold NextOk Ended in h)
          (look_again-Ok false _ (repair-holds o snap _ res _ ∙ h))

    then_rounds-Ok :
        (x : Next K) (more : Snapshot → PassResult → Owner K → Result o)
        → NextOk x
        → ((snap : Snapshot) (res : PassResult) (t : Owner K)
            → res.contract_holds ≡ false
            → F t.spec.config snap t.kernel
            → ResultOk (more snap res t))
        → ResultOk (then_rounds o x more)
    unfolding then_rounds NextOk ResultOk
    then_rounds-Ok (again snap res t) more h k = k snap res t h.0 h.1
    then_rounds-Ok (stop e res t) more h k = h

    rounds-Ok :
        (n r : ℕ) (snap : Snapshot) (res : PassResult) (t : Owner K)
        → res.contract_holds ≡ false
        → F t.spec.config snap t.kernel
        → ResultOk (rounds o n r snap res t)
    unfolding rounds ResultOk
    rounds-Ok zero r snap res t h fresh = tt
    rounds-Ok (suc n) r snap res t h fresh =
        then_rounds-Ok (round_step o r snap res t) _ (round_step-Ok r snap res t h fresh)
          (λ snap' res' t' h' fresh'. rounds-Ok n (suc r) snap' res' t' h' fresh')

    EndedOf : Ending × PassResult × Owner K → Type 0
    EndedOf x = Ended x.0 x.1 x.2

    or_nothing-Ok :
        (t : Owner K) (r : Result o) → ResultOk r → is_some r ≡ true → EndedOf (or_nothing t r)
    unfolding ResultOk EndedOf
    or_nothing-Ok t none h k = cc
    or_nothing-Ok t (some r) h k = h

    from_look-Ok :
        (a : Answer Snapshot) (t : Owner K)
        → ((snap : Snapshot) → a ≡ got snap → F t.spec.config snap t.kernel)
        → EndedOf (from_look o a t)
    unfolding from_look run_rounds EndedOf Ended
    from_look-Ok (err e) t h = (refl, fail-is_some e start_result)
    from_look-Ok (got snap) t h =
        or_nothing-Ok t (rounds o (suc max_rounds) 0 snap start_result t)
          (rounds-Ok (suc max_rounds) 0 snap start_result t refl (h snap refl))
          (rounds_enough o snap start_result t)

    first_look-Ok : (t : Owner K) → EndedOf (first_look o t)
    unfolding first_look
    first_look-Ok t = from_look-Ok (snapshot o t).0 (snapshot o t).1 (look t)

    -- What the result of a pass says of the owner that it leaves.
    abbrev pub Said : PassResult → Owner K → Type 0
    Said res t =
        (res.contract_holds ≡ true
          → (res.err ≡ none) × ((snap : Snapshot) × HoldsOn t.ready t snap))
        × (res.contract_holds ≡ false → is_some res.err ≡ true)

    finish-Said :
        (e : Ending) (res : PassResult) (t : Owner K)
        → Ended e res t
        → Said (finish o (closing o e res t) t).0 (finish o (closing o e res t) t).1
    unfolding Ended finish closing record_pass
    finish-Said (verified_on snap) res t h = (
      λ _. (
        h.1,
        (
          snap,
          record {
            stable = h.2.stable;
            clean = h.2.clean;
            unguarded = h.2.unguarded;
            health = h.2.health;
            shown = h.2.shown;
          },
        ),
      ),
      λ k. ground (arith, h.0),
    )
    finish-Said (unverified_on snap) res t h =
        ((λ k. ground (arith, h)), λ k. fail-is_some unverified_after_repair res)
    finish-Said no_look res t h = ((λ k. ground (arith, h.0)), λ k. h.1)

    pub reconcile-Said :
        (t : Owner K)
        → is_gluetun_sidecar t.spec.config ≡ false
        → Said (reconcile o t).0 (reconcile o t).1
    unfolding reconcile EndedOf
    reconcile-Said t h =
        let (e, res, t') = first_look o t in rw h (finish-Said e res t' (first_look-Ok t))
