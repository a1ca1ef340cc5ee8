-- ===== src/Mutator/Loops.antt =====
-- internal/mutator/apply.go: predicates of the kernel's state through the loops of a rebuild.
use molebridge.Base.{ℕ, zero, suc, inl, inr, List, [], ◌∷◌, is_some, Bool-cases, All, All-append}
use molebridge.Rtnl.Addr.{Family}
use molebridge.Rtnl.Rule.{Rule}
use molebridge.Policy.Edits.{without_rule, without_priority}
use molebridge.Mutator.Kernel.{Options}
use molebridge.Mutator.Owner.{Owner, add_rule, del_rule, del_rule_priority}
use molebridge.Mutator.Kept.{Looks, add_rule-keeps, deleted-keeps}
use molebridge.Mutator.Rebuild.{Copies, Done, install_copies, clear, refill, remove_copies}

-- The copies that were put in are among those asked for.
pub install_copies-All {κ} :
    {K : Type 0} (o : Options K) (Q : Rule → Type κ) (cps : List Rule) (st : Copies) (t : Owner K)
    → All Q cps
    → All Q st.installed
    → All Q (install_copies o cps st t).0.installed
unfolding install_copies
install_copies-All o Q [] st t h k = k
install_copies-All o Q (cp ∷ cps) st t h k =
    let (change, t') = add_rule o cp t in
    elim (Bool-cases (is_some change.1)) [
      | inl e ↦ rw e k
      | inr e ↦ rw e (elim (Bool-cases change.0) [
        | inl b ↦ rw b (install_copies-All o Q cps _ t' h.1 (All-append Q _ _ k (h.0, tt)))
        | inr b ↦ rw b (install_copies-All o Q cps st t' h.1 k)
      ])
    ]

module _ {K : Type 0} (o : Options K) (P : K → Type 0) (looks : Looks o.kernel P) where
  -- Where additions keep the predicate.
  module _ (adds : (r : Rule) (k : K) → P k → P (o.kernel.add_rule r k).1) where
    pub install_copies-keeps :
        (cps : List Rule) (st : Copies) (t : Owner K)
        → P t.kernel
        → P (install_copies o cps st t).1.kernel
    unfolding install_copies
    install_copies-keeps [] st t h = h
    install_copies-keeps (cp ∷ cps) st t h =
        let (change, t') = add_rule o cp t in
        let h' = add_rule-keeps o P looks cp (adds cp) t h in
        elim (Bool-cases (is_some change.1)) [
          | inl e ↦ rw e h'
          | inr e ↦ rw e (install_copies-keeps cps _ t' h')
        ]

    pub refill-keeps :
        (ws : List Rule) (st : Done) (t : Owner K) → P t.kernel → P (refill o ws st t).1.kernel
    unfolding refill
    refill-keeps [] st t h = h
    refill-keeps (w ∷ ws) st t h = refill-keeps ws _ _ (add_rule-keeps o P looks w (adds w) t h)

  pub clear-keeps :
      (f : Family) (p : ℕ)
      → ((k : K) → P k → P (o.kernel.del_rule_priority f p k).1)
      → (n m : ℕ) (t : Owner K) → P t.kernel
      → P (clear o n f p m t).1.kernel
  unfolding clear del_rule_priority
  clear-keeps f p dels zero m t h = h
  clear-keeps f p dels (suc n) m t h =
      let (change, t') = del_rule_priority o f p t in
      let h' = deleted-keeps o P looks (without_priority f p) _ dels t h in
      elim (Bool-cases (is_some change.1)) [
        | inl e ↦ rw e h'
        | inr e ↦ rw e (elim (Bool-cases change.0) [
          | inl b ↦ rw b (clear-keeps f p dels n (suc m) t' h')
          | inr b ↦ rw b h'
        ])
      ]

  pub remove_copies-keeps :
      (Q : Rule → Type 0)
      → ((r : Rule) (k : K) → Q r → P k → P (o.kernel.del_rule r k).1)
      → (cps : List Rule) (m : ℕ) (t : Owner K) → All Q cps
      → P t.kernel
      → P (remove_copies o cps m t).1.kernel
  unfolding remove_copies del_rule
  remove_copies-keeps Q dels [] m t h k = k
  remove_copies-keeps Q dels (cp ∷ cps) m t h k =
      remove_copies-keeps Q dels cps _ _ h.1
        (deleted-keeps o P looks (without_rule cp) _ (λ s. dels cp s h.0) t k)
