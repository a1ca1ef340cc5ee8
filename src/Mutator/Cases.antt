-- ===== src/Mutator/Cases.antt =====
-- internal/mutator/pass.go `reconcile`: the cases of a round, and that no repair claims the contract.
use molebridge.Base.{
  ℕ, Bool, true, false, not, ◌&&◌, ◌≡◌, refl, ◌∙◌, inl, inr, Option, none, some, List, [], ◌∷◌, leb,
  Bool-cases,
}
use molebridge.Rtnl.Addr.{Family, v4, v6}
use molebridge.Rtnl.Route.{Snapshot}
use molebridge.Contract.Spec.{Spec, update}
use molebridge.Contract.Diff.{touches_guards}
use molebridge.Contract.Plan.{Plan}
use molebridge.Mutator.Kernel.{Options}
use molebridge.Mutator.Owner.{Fault, kept_changing, PassResult, Owner, add_rule, del_rule}
use molebridge.Mutator.Apply.{guard_rule, apply}
use molebridge.Mutator.Pass.{
  max_rounds, Plans, all_clean, guards_held, fail, fail_all, counted, changed, plan_all,
  adopt_guard, verified_on, unverified_on, repair, repair_family, raise_guard, release_guard,
}
use molebridge.Mutator.Rounds.{Next, stop, look_again, release_guards, verified_result, round_step}

-- The rounds, split into their cases.
module _ {K : Type 0} (o : Options K) (round : ℕ) (snap : Snapshot) (res : PassResult)
    (t : Owner K) where
  abbrev pub adopted : Owner K
  adopted = record t { spec = adopt_guard snap v6 (adopt_guard snap v4 t.spec) }

  abbrev pub plans_on : Plans
  plans_on = plan_all o adopted.spec snap

  pub round_step-cases :
      (Q : Next K → Type 0)
      → Q (stop (unverified_on snap) (fail kept_changing res) adopted)
      → (snap.unstable ≡ true → Q (look_again o false (res, adopted)))
      → (all_clean plans_on ≡ true
          → snap.unstable ≡ false
          → guards_held adopted.spec ≡ false
          → Q (stop (verified_on snap) (verified_result o plans_on res) adopted))
      → (snap.unstable ≡ false
          → Q (look_again o (leb max_rounds round) (release_guards o res adopted)))
      → Q (stop (unverified_on snap) res adopted)
      → Q (look_again o false (repair o snap plans_on res adopted))
      → Q (round_step o round snap res t)
  unfolding round_step
  round_step-cases Q unsure look holds release late mend = elim (Bool-cases (all_clean plans_on)) [
    | inl e ↦ rw e (elim (Bool-cases snap.unstable) [
      | inl u ↦
          simp u (elim (Bool-cases (leb max_rounds round)) [
            | inl b ↦ rw b unsure
            | inr b ↦ rw b (look u)
          ])
      | inr u ↦ simp u (elim (Bool-cases (guards_held adopted.spec)) [
        | inl g ↦ simp g (release u)
        | inr g ↦ simp g (holds e u g)
      ])
    ])
    | inr e ↦
        rw e (elim (Bool-cases (leb max_rounds round)) [ inl b ↦ rw b late | inr b ↦ rw b mend ])
  ]

-- No request of a pass claims that the contract holds.
fail_all-holds :
    (es : List Fault) (res : PassResult) → (fail_all es res).contract_holds ≡ res.contract_holds
fail_all-holds [] res = refl
fail_all-holds (e ∷ es) res = fail_all-holds es (fail e res)

changed-holds :
    (c : Bool × Option Fault) (res : PassResult)
    → (changed c res).contract_holds ≡ res.contract_holds
changed-holds (b, none) res = refl
changed-holds (b, some e) res = refl

module _ {K : Type 0} (o : Options K) where
  release_guard-holds :
      (f : Family) (res : PassResult) (t : Owner K)
      → (release_guard o f res t).0.contract_holds ≡ res.contract_holds
  unfolding release_guard
  release_guard-holds f res t = elim (Bool-cases (t.spec.temp_guard f)) [
    | inl e ↦
        let spec' : Spec = record t.spec { temp_guard = update t.spec.temp_guard f false } in
        let change = (del_rule o (guard_rule t.spec f) (record t { spec = spec' })).0 in
        rw e (changed-holds change res)
    | inr e ↦ rw e refl
  ]

  pub release_guards-holds :
      (res : PassResult) (t : Owner K)
      → (release_guards o res t).0.contract_holds ≡ res.contract_holds
  unfolding release_guards
  release_guards-holds res t =
      let (res', t') = release_guard o v4 res t in
      release_guard-holds v6 res' t' ∙ release_guard-holds v4 res t

  raise_guard-holds :
      (f : Family) (snap : Snapshot) (p : Plan) (res : PassResult) (t : Owner K)
      → (raise_guard o f snap p res t).0.2.contract_holds ≡ res.contract_holds
  unfolding raise_guard
  raise_guard-holds f snap p res t =
      elim (Bool-cases (o.guard_repairs && (touches_guards p.rules && not (t.spec.temp_guard f)))) [
        | inl e ↦
            let spec' : Spec = record t.spec { temp_guard = update t.spec.temp_guard f true } in
            let change = (add_rule o (guard_rule spec' f) (record t { spec = spec' })).0 in
            rw e (changed-holds change res)
        | inr e ↦ rw e refl
      ]

  repair_family-holds :
      (snap : Snapshot) (p : Plan) (res : PassResult) (t : Owner K)
      → (repair_family o snap p res t).0.contract_holds ≡ res.contract_holds
  unfolding repair_family
  repair_family-holds snap p res t =
      let (run, t') = apply o p (not snap.unstable) t in
      fail_all-holds run.errs (counted run.mutations res)

  pub repair-holds :
      (snap : Snapshot) (ps : Plans) (res : PassResult) (t : Owner K)
      → (repair o snap ps res t).0.contract_holds ≡ res.contract_holds
  unfolding repair
  repair-holds snap ps res t =
      let ((snap4, p4, res4), t4) = raise_guard o v4 snap (ps v4) res t in
      let ((snap6, p6, res6), t6) = raise_guard o v6 snap4 (ps v6) res4 t4 in
      let (res', t') = repair_family o snap6 p4 res6 t6 in
      repair_family-holds snap6 p6 res' t'
      ∙ (repair_family-holds snap6 p4 res6 t6
          ∙ (raise_guard-holds v6 snap4 (ps v6) res4 t4 ∙ raise_guard-holds v4 snap (ps v4) res t))
