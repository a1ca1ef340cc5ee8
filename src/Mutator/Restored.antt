-- ===== src/Mutator/Restored.antt =====
-- internal/mutator/apply.go `rebuild`: what it leaves when it reports no error.
use mathlib.Core.List.{Memᴰ}
use molebridge.Base.{
  ℕ, true, false, ◌≡◌, inl, inr, Option, none, some, List, [], ◌∷◌, map, ◌==◌, is_some, Bool-cases,
  All, arith,
}
use molebridge.Rtnl.Addr.{Family}
use molebridge.Rtnl.Rule.{Rule}
use molebridge.Contract.Diff.Spares.{delete_matches_ne}
use molebridge.Mutator.Kernel.{Options}
use molebridge.Mutator.Owner.{Owner, confirmed}
use molebridge.Mutator.Lawful.{Lawful}
use molebridge.Mutator.Kept.{confirmed-keeps}
use molebridge.Mutator.Shown.{HasAll, HasAll-moved, confirmed-HasAll}
use molebridge.Mutator.Rebuild.{
  previous_priority, copy_of, Copies, Done, install_copies, clear, refill, retire_copies,
  replace_rules, rebuild,
}
use molebridge.Mutator.Loops.{install_copies-All, remove_copies-keeps}
use molebridge.Mutator.Through.{IsCopy, copies-IsCopy, is_none, Phases, rebuild-through}
use molebridge.Mutator.Gapless.{copy_apart, rules_moved, Held-Looks}

some_is_none {ℓ κ} : {A : Type ℓ} {R : Type κ} (q : Option A) → is_some q ≡ true → q ≡ none → R
some_is_none none e h = cc
some_is_none (some a) e h = cc

module _ {K : Type 0} (o : Options K) (holds : K → Family → List Rule) (l : Lawful o.kernel holds)
    (f : Family) (p : ℕ) where
  -- An error of a loop stays the error.
  retire_copies-HasAll :
      (want cps : List Rule) (st : Done) (t : Owner K)
      → All (IsCopy p) cps
      → All (λ w. (w.priority == p) ≡ true) want
      → (retire_copies o f want cps st t).0.1 ≡ none
      → HasAll (holds (retire_copies o f want cps st t).1.kernel f) want
  unfolding retire_copies
  retire_copies-HasAll want cps st t q at h = elim (Bool-cases (is_some st.1)) [
    | inl e ↦ some_is_none _ e (rw e at h)
    | inr e ↦
        let h1 = rw e at h in
        rw e (
          let (fault, t') = confirmed o f want t in
          elim (Bool-cases (is_some fault)) [
            | inl b ↦ some_is_none _ b (rw b at h1)
            | inr b ↦ rw b (
                remove_copies-keeps o (λ k. HasAll (holds k f) want)
                  (Held-Looks o.kernel holds l f (λ rs. HasAll rs want) (HasAll-moved want))
                  (IsCopy p)
                  (λ r k i. rules_moved p (holds k f) _ want at (λ x e.
                    l.del-Held r k f x
                      (delete_matches_ne r x (ground (arith, copy_apart p r.priority i)))))
                  cps _ t' q (confirmed-HasAll o holds l f want t (is_none fault b)))
          ])
  ]

  replace_rules-HasAll :
      (want : List Rule) (cs : Copies) (t : Owner K)
      → All (IsCopy p) cs.installed
      → All (λ w. (w.priority == p) ≡ true) want
      → (replace_rules o f p want cs t).0.1 ≡ none
      → HasAll (holds (replace_rules o f p want cs t).1.kernel f) want
  unfolding replace_rules
  replace_rules-HasAll want cs t q at h =
      let (cleared, t') = clear o 32 f p cs.mutations t in
      let (filled, t'') = refill o want cleared t' in
      elim (Bool-cases (is_some cleared.1)) [
        | inl e ↦ some_is_none _ e (rw e at h)
        | inr e ↦ rw e (retire_copies-HasAll want cs.installed filled t'' q at (rw e at h))
      ]

  rebuild_end :
      (w : Rule) (ws : List Rule) (t : Owner K) (Q : K → Type 0)
      → ((cs : Copies) (t' : Owner K)
          → All (IsCopy p) cs.installed
          → (replace_rules o f p (w ∷ ws) cs t').0.1 ≡ none
          → Q (replace_rules o f p (w ∷ ws) cs t').1.kernel)
      → (rebuild o f p (w ∷ ws) t).0.1 ≡ none
      → Q (rebuild o f p (w ∷ ws) t).1.kernel
  unfolding rebuild
  rebuild_end w ws t Q last h =
      let copies = map (copy_of p) (w ∷ ws) in
      let start : Copies = record { mutations = 0; installed = []; err = none } in
      let (cs, t1) = install_copies o copies start t in
      let (fault, t2) = confirmed o f copies t1 in
      elim (Bool-cases (is_some cs.err)) [
        | inl e ↦ some_is_none _ e (rw e at h)
        | inr e ↦
            let h1 = rw e at h in
            rw e (elim (Bool-cases (is_some fault)) [
              | inl b ↦ some_is_none _ b (rw b at h1)
              | inr b ↦ rw b (
                  last cs t2
                    (install_copies-All o (IsCopy p) copies start t (copies-IsCopy p (w ∷ ws)) tt)
                    (rw b at h1))
            ])
      ]

  -- A rebuild that reports no error, of a priority with rules of that priority on a kernel that
  -- behaves as documented, leaves a kernel that has each of the rules exactly.
  pub rebuild-HasAll :
      (want : List Rule) (t : Owner K)
      → All (λ w. (w.priority == p) ≡ true) want
      → (rebuild o f p want t).0.1 ≡ none
      → HasAll (holds (rebuild o f p want t).1.kernel f) want
  rebuild-HasAll [] t at h = tt
  rebuild-HasAll (w ∷ ws) t at h =
      rebuild_end w ws t (λ k. HasAll (holds k f) (w ∷ ws))
        (λ cs t' q. replace_rules-HasAll (w ∷ ws) cs t' q at) h

  -- A rule of the family at neither the rebuilt priority nor that of its copies stays in the
  -- kernel, whatever fails, where the kernel behaves as documented.
  pub rebuild_spares :
      (want : List Rule) (t : Owner K) (x : Rule)
      → (x.priority == p) ≡ false
      → (x.priority == previous_priority p) ≡ false
      → Memᴰ x (holds t.kernel f)
      → Memᴰ x (holds (rebuild o f p want t).1.kernel f)
  rebuild_spares want t x e e' m =
      let P : K → Type 0 = λ k. Memᴰ x (holds k f) in
      let looks = Held-Looks o.kernel holds l f (λ rs. Memᴰ x rs) (λ xs ys sub. sub x) in
      let stays : Phases o f p want P P P = record {
        looks_a = looks;
        looks_b = looks;
        looks_c = looks;
        adds_a = λ r k. l.add-Held r k f x;
        adds_b = λ r k. l.add-Held r k f x;
        clears_b = λ k. l.del_priority-Held f p k f x e;
        dels_c = λ r k i. l.del-Held r k f x (delete_matches_ne r x (ground (arith, i, e')));
        a_to_b = λ s h _. confirmed-keeps o P looks f (map (copy_of p) want) s h;
        b_to_c = λ s h _. confirmed-keeps o P looks f want s h;
      } in
      rebuild-through o f p P P P P (λ k h. h) (λ k h. h) (λ k h. h) want stays t m
