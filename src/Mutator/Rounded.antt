-- ===== src/Mutator/Rounded.antt =====
-- internal/mutator/pass.go `reconcile`: the rounds come to an end.
use molebridge.Base.{
  ℕ, zero, suc, ◌+◌, ◌≤◌, Bool, true, false, not, ◌≡◌, refl, inl, inr, leb, is_some, Bool-cases,
  arith,
}
use molebridge.Rtnl.Addr.{v4, v6}
use molebridge.Rtnl.Route.{Snapshot}
use molebridge.Mutator.Kernel.{Options}
use molebridge.Mutator.Owner.{Answer, err, got, PassResult, Owner, snapshot}
use molebridge.Mutator.Pass.{max_rounds, all_clean, guards_held, plan_all, adopt_guard}
use molebridge.Mutator.Rounds.{
  Next, again, stop, look_again, look_after, release_guards, round_step, rounds, then_rounds,
  Result,
}

is_again : {K : Type 0} → Next K → Bool
is_again (again snap res t) = true
is_again (stop e res t) = false

module _ {K : Type 0} (o : Options K) where
  late_look :
      (a : Answer Snapshot) (res : PassResult) (t : Owner K)
      → is_again (look_after o true res a t) ≡ false
  unfolding look_after is_again
  late_look (err e) res t = refl
  late_look (got snap) res t = refl

  late_again : (st : PassResult × Owner K) → is_again (look_again o true st) ≡ false
  unfolding look_again
  late_again st = late_look (snapshot o st.1).0 st.0 (snapshot o st.1).1

  -- Once the rounds are spent, a round stops.
  late_stops :
      (r : ℕ) (snap : Snapshot) (res : PassResult) (t : Owner K)
      → leb max_rounds r ≡ true
      → is_again (round_step o r snap res t) ≡ false
  unfolding round_step is_again
  late_stops r snap res t h =
      let s = adopt_guard snap v6 (adopt_guard snap v4 t.spec) in
      rw h (elim (Bool-cases (all_clean (plan_all o s snap))) [
        | inl e ↦ rw e (elim (Bool-cases snap.unstable) [
          | inl u ↦ simp u
          | inr u ↦ rw u (elim (Bool-cases (not (guards_held s))) [
            | inl g ↦ rw g refl
            | inr g ↦ rw g (late_again (release_guards o res (record t { spec = s })))
          ])
        ])
        | inr e ↦ rw e refl
      ])

  then_end :
      (x : Next K) (more : Snapshot → PassResult → Owner K → Result o)
      → (is_again x ≡ true
          → (snap : Snapshot) (res : PassResult) (t : Owner K) → is_some (more snap res t) ≡ true)
      → is_some (then_rounds o x more) ≡ true
  unfolding then_rounds is_again
  then_end (stop e res t) more h = refl
  then_end (again snap res t) more h = h refl snap res t

  -- A round before the last may be followed by another; the fuel counts those that are left.
  rounds_end :
      (n r : ℕ) (snap : Snapshot) (res : PassResult) (t : Owner K)
      → r ≤ 4
      → 5 ≤ r + n
      → is_some (rounds o n r snap res t) ≡ true
  unfolding rounds
  rounds_end zero r snap res t h k = absurd (omega arith)
  rounds_end (suc n) r snap res t h k = then_end (round_step o r snap res t) _ (λ e snap' res' t'.
      let early : leb max_rounds r ≡ false = ground (arith, e, late_stops r snap res t) in
      rounds_end n (suc r) snap' res' t' (ground arith) (omega arith))

  -- A pass comes to a result within one round more than the number at which it stops, whatever
  -- the kernel answers.
  pub rounds_enough :
      (snap : Snapshot) (res : PassResult) (t : Owner K)
      → is_some (rounds o (suc max_rounds) 0 snap res t) ≡ true
  rounds_enough snap res t = rounds_end 5 0 snap res t (omega arith) (omega arith)
