-- ===== src/Mutator/Rounds.antt =====
-- internal/mutator/pass.go `reconcile`: the rounds of a pass and its result.
use molebridge.Base.{
  ℕ, zero, suc, ◌/◌, ◌^◌, Bool, true, false, not, Option, none, some, leb, if◌then◌else◌,
}
use molebridge.Rtnl.Addr.{v4, v6}
use molebridge.Rtnl.Route.{Snapshot}
use molebridge.Contract.Config.{is_gluetun_sidecar}
use molebridge.Mutator.Kernel.{Options}
use molebridge.Mutator.Owner.{
  kept_changing, unverified_after_repair, Answer, err, got, PassResult, Owner, snapshot,
}
use molebridge.Mutator.Pass.{
  max_rounds, Plans, all_clean, all_healthy, guards_held, fail, start_result, adopt_guard, Ending,
  verified_on, unverified_on, no_look, plan_all, release_guard, repair,
}

-- What a round of the pass leads to.
pub data Next (K : Type 0) : Type 0 where
  again : Snapshot → PassResult → Owner K → Next K
  stop : Ending → PassResult → Owner K → Next K

-- `recordPass`, with the time of the end.
unfoldable pub record_pass : {K : Type 0} → PassResult → Owner K → Owner K
record_pass res t = record t {
  last_pass = res;
  stats =
      if res.repaired
      then record { repairs = suc t.stats.repairs; last_repair = res.at / 10 ^ 9; has_last = true }
      else t.stats;
  ready = res.verified;
}

-- The result of the rounds.
abbrev pub or_nothing :
    {K : Type 0} → Owner K → Option (Ending × PassResult × Owner K) → Ending × PassResult × Owner K
or_nothing t none = (no_look, start_result, t)
or_nothing t (some r) = r

module _ {K : Type 0} (o : Options K) where
  -- What follows a look; `late` says that the rounds are spent.
  unfoldable pub look_after : Bool → PassResult → Answer Snapshot → Owner K → Next K
  look_after late res (err e) t = stop no_look (fail e res) t
  look_after true res (got snap) t = stop (unverified_on snap) res t
  look_after false res (got snap) t = again snap res t

  unfoldable pub look_again : Bool → PassResult × Owner K → Next K
  unfolding snapshot look_after
  look_again late st = let (answer, t) = snapshot o st.1 in look_after late st.0 answer t

  unfoldable pub release_guards : PassResult → Owner K → PassResult × Owner K
  unfolding release_guard
  release_guards res t = let (res', t') = release_guard o v4 res t in release_guard o v6 res' t'

  -- The pass has verified the contract on a look.
  unfoldable pub verified_result : Plans → PassResult → PassResult
  unfolding all_healthy
  verified_result ps res = record res {
    contract_holds = true;
    verified = all_healthy ps;
    problems = λ f. (ps f).problems;
    err = none;
  }

  unfoldable pub round_step : ℕ → Snapshot → PassResult → Owner K → Next K
  unfolding adopt_guard plan_all all_clean guards_held verified_result look_again release_guards
      repair
  round_step round snap res t =
      let s = adopt_guard snap v6 (adopt_guard snap v4 t.spec) in
      let t1 : Owner K = record t { spec = s } in
      let ps = plan_all o s snap in
      let late = leb max_rounds round in
      if all_clean ps
      then (if snap.unstable
          then (if late
              then stop (unverified_on snap) (fail kept_changing res) t1
              else look_again false (res, t1))
          else if not (guards_held s)
          then stop (verified_on snap) (verified_result ps res) t1
          else look_again late (release_guards res t1))
      else if late
      then stop (unverified_on snap) res t1
      else look_again false (repair o snap ps res t1)

  abbrev pub Result : Type 0
  Result = Option (Ending × PassResult × Owner K)

  -- The loop goes on, or it is left.
  unfoldable pub then_rounds : Next K → (Snapshot → PassResult → Owner K → Result) → Result
  then_rounds (again snap res t) more = more snap res t
  then_rounds (stop e res t) more = some (e, res, t)

  -- The rounds, on fuel.
  unfoldable pub rounds : ℕ → ℕ → Snapshot → PassResult → Owner K → Result
  unfolding round_step then_rounds
  rounds zero round snap res t = none
  rounds (suc n) round snap res t =
      then_rounds (round_step round snap res t)
        (λ snap' res' t'. rounds n (suc round) snap' res' t')

  -- What is still wrong when the pass has not verified the contract.
  unfoldable pub closing : Ending → PassResult → Owner K → PassResult
  unfolding plan_all
  closing (unverified_on snap) res t =
      fail unverified_after_repair
        (record res { problems = λ f. (plan_all o t.spec snap f).problems; verified = false })
  closing _ res t = res

  -- The rounds with one more than the round at which they stop; a pass without a result does not
  -- occur.
  unfoldable pub run_rounds : Snapshot → Owner K → Ending × PassResult × Owner K
  unfolding rounds
  run_rounds snap t = or_nothing t (rounds (suc max_rounds) 0 snap start_result t)

  unfoldable pub from_look : Answer Snapshot → Owner K → Ending × PassResult × Owner K
  unfolding run_rounds
  from_look (err e) t = (no_look, fail e start_result, t)
  from_look (got snap) t = run_rounds snap t

  unfoldable pub first_look : Owner K → Ending × PassResult × Owner K
  unfolding snapshot from_look
  first_look t = let (answer, t') = snapshot o t in from_look answer t'

  unfoldable pub sidecar_result : PassResult
  sidecar_result = record start_result { contract_holds = true; verified = true }

  unfoldable pub finish : PassResult → Owner K → PassResult × Owner K
  unfolding record_pass
  finish res t =
      let res' : PassResult = record res { at = o.kernel.now t.kernel } in
      (res', record_pass res' t)

  unfoldable pub reconcile : Owner K → PassResult × Owner K
  unfolding first_look closing finish sidecar_result
  reconcile t =
      if is_gluetun_sidecar t.spec.config
      then finish sidecar_result t
      else let (e, res, t') = first_look t in finish (closing e res t') t'
