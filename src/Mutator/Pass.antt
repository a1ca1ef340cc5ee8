-- ===== src/Mutator/Pass.antt =====
-- internal/mutator/pass.go: the repair pass.
use molebridge.Base.{
  ℕ, ◌+◌, Bool, true, false, not, ◌&&◌, ◌||◌, Option, none, some, List, [], ◌∷◌, ◌==◌, is_some,
  if◌then◌else◌, b2n,
}
use molebridge.Rtnl.Addr.{Family, v4, v6}
use molebridge.Rtnl.Rule.{Rule}
use molebridge.Rtnl.Route.{Snapshot}
use molebridge.Contract.Config.{is_native_sidecar}
use molebridge.Contract.Spec.{Spec, update, prio_temp_guard}
use molebridge.Contract.Diff.{has_items, touches_guards}
use molebridge.Contract.Plan.{Problem, Plan, PlanInput, plan_family, clean, healthy}
use molebridge.Policy.Edits.{with_added}
use molebridge.Mutator.Kernel.{Options}
use molebridge.Mutator.Owner.{Fault, PassResult, Owner, add_rule, del_rule}
use molebridge.Mutator.Apply.{guard_rule, only_fault, apply}

abbrev pub max_rounds : ℕ
max_rounds = 4

unfoldable pub has_guard : Spec → Family → List Rule → Bool
unfolding has_items guard_rule
has_guard s f rules = has_items rules prio_temp_guard (guard_rule s f)

-- The plans of both families: `map[rtnl.Family]contract.Plan`.
abbrev pub Plans : Type 0
Plans = Family → Plan

abbrev pub no_input : PlanInput
no_input = record { tunnel_starting = false }

abbrev pub both : (Family → Bool) → Bool
both p = p v4 && p v6

unfoldable pub all_clean : Plans → Bool
unfolding clean
all_clean ps = both (λ f. clean (ps f))

unfoldable pub all_healthy : Plans → Bool
unfolding healthy
all_healthy ps = both (λ f. healthy (ps f))

unfoldable pub guards_held : Spec → Bool
guards_held s = s.temp_guard v4 || s.temp_guard v6

abbrev pub fail : Fault → PassResult → PassResult
fail e res = record res { err = if is_some res.err then res.err else some e }

abbrev pub fail_all : List Fault → PassResult → PassResult
fail_all [] res = res
fail_all (e ∷ es) res = fail_all es (fail e res)

abbrev pub no_problems : Family → List Problem
no_problems f = []

abbrev pub start_result : PassResult
start_result = record {
  repaired = false;
  mutations = 0;
  contract_holds = false;
  verified = false;
  problems = no_problems;
  err = none;
  at = 0;
}

-- `res.Repaired` and `res.Mutations` after `n` changes of the kernel.
abbrev pub counted : ℕ → PassResult → PassResult
counted n res = record res {
  repaired = res.repaired || not (n == 0);
  mutations = res.mutations + n;
}

-- One change of the kernel with its error.
abbrev pub changed : Bool × Option Fault → PassResult → PassResult
changed change res = counted (b2n change.0) (fail_all (only_fault change.1) res)

-- A snapshot with a rule added.
unfoldable pub snapshot_with : Snapshot → Family → Rule → Snapshot
unfolding with_added
snapshot_with snap f r = record snap { rules = update snap.rules f (with_added r (snap.rules f)) }

-- A guard left by an earlier pass is expected from now on.
unfoldable pub adopt_guard : Snapshot → Family → Spec → Spec
unfolding has_guard
adopt_guard snap f s =
    if not (is_native_sidecar s.config) && (not (s.temp_guard f) && has_guard s f (snap.rules f))
    then record s { temp_guard = update s.temp_guard f true }
    else s

-- How a pass ends: verified or not on the look that it ends with, or without a look.
pub data Ending : Type 0 where
  verified_on unverified_on : Snapshot → Ending
  no_look : Ending

module _ {K : Type 0} (o : Options K) where
  unfoldable pub plan_all : Spec → Snapshot → Plans
  unfolding plan_family
  plan_all s snap f = plan_family o.text s snap f no_input

  -- The guard of one family, taken out.
  unfoldable pub release_guard : Family → PassResult → Owner K → PassResult × Owner K
  unfolding guard_rule del_rule
  release_guard f res t =
      let g = guard_rule t.spec f in
      let t' : Owner K = record t {
        spec = record t.spec { temp_guard = update t.spec.temp_guard f false };
      } in
      let (change, t'') = del_rule o g t' in
      if t.spec.temp_guard f then (changed change res, t'') else (res, t)

  -- The guard of one family, put in front of a repair of rules 90-97; the plan is made again.
  unfoldable pub raise_guard :
      Family → Snapshot → Plan → PassResult → Owner K → (Snapshot × Plan × PassResult) × Owner K
  unfolding guard_rule add_rule snapshot_with plan_all
  raise_guard f snap p res t =
      let s : Spec = record t.spec { temp_guard = update t.spec.temp_guard f true } in
      let g = guard_rule s f in
      let (change, t') = add_rule o g (record t { spec = s }) in
      let snap' = if change.0 then snapshot_with snap f g else snap in
      if o.guard_repairs && (touches_guards p.rules && not (t.spec.temp_guard f))
      then ((snap', plan_all s snap' f, changed change res), t')
      else ((snap, p, res), t)

  unfoldable pub repair_family : Snapshot → Plan → PassResult → Owner K → PassResult × Owner K
  unfolding apply
  repair_family snap p res t =
      let (run, t') = apply o p (not snap.unstable) t in
      (fail_all run.errs (counted run.mutations res), t')

  -- One repair of both families, on a look that is not clean.
  unfoldable pub repair : Snapshot → Plans → PassResult → Owner K → PassResult × Owner K
  unfolding raise_guard repair_family
  repair snap ps res t =
      let ((snap4, p4, res4), t4) = raise_guard v4 snap (ps v4) res t in
      let ((snap6, p6, res6), t6) = raise_guard v6 snap4 (ps v6) res4 t4 in
      let (res', t') = repair_family snap6 p4 res6 t6 in repair_family snap6 p6 res' t'
