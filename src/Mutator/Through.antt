-- ===== src/Mutator/Through.antt =====
-- internal/mutator/apply.go `rebuild`: its phases, over predicates of the kernel's state.
use molebridge.Base.{
  ℕ, false, ◌≡◌, refl, inl, inr, Option, none, some, List, [], ◌∷◌, map, is_some, Bool-cases, All,
}
use molebridge.Rtnl.Addr.{Family}
use molebridge.Rtnl.Rule.{Rule}
use molebridge.Mutator.Kernel.{Options}
use molebridge.Mutator.Owner.{Owner, confirmed}
use molebridge.Mutator.Kept.{Looks, confirmed-keeps}
use molebridge.Mutator.Rebuild.{
  previous_priority, copy_of, Copies, Done, install_copies, clear, retire_copies, replace_rules,
  rebuild,
}
use molebridge.Mutator.Loops.{
  install_copies-All, install_copies-keeps, refill-keeps, clear-keeps, remove_copies-keeps,
}

-- A rule at the priority of the copies.
abbrev pub IsCopy : ℕ → Rule → Type 0
IsCopy p r = r.priority ≡ previous_priority p

pub copies-IsCopy : (p : ℕ) (ws : List Rule) → All (IsCopy p) (map (copy_of p) ws)
copies-IsCopy p [] = tt
copies-IsCopy p (w ∷ ws) = (refl, copies-IsCopy p ws)

pub some_ne_none {ℓ} : {A : Type ℓ} (q : Option A) → q ≡ none → is_some q ≡ false
some_ne_none none h = refl
some_ne_none (some a) h = cc

pub is_none {ℓ} : {A : Type ℓ} (q : Option A) → is_some q ≡ false → q ≡ none
is_none none h = refl
is_none (some a) h = cc

-- `A` before the copies are confirmed, `B` while they are there, `C` once the rules are confirmed.
pub record Phases {K : Type 0} (o : Options K) (f : Family) (p : ℕ) (want : List Rule)
    (A B C : K → Type 0) : Type 0 where
  pub looks_a : Looks o.kernel A
  pub looks_b : Looks o.kernel B
  pub looks_c : Looks o.kernel C
  pub adds_a : (r : Rule) (k : K) → A k → A (o.kernel.add_rule r k).1
  pub adds_b : (r : Rule) (k : K) → B k → B (o.kernel.add_rule r k).1
  pub clears_b : (k : K) → B k → B (o.kernel.del_rule_priority f p k).1
  pub dels_c : (r : Rule) (k : K) → IsCopy p r → C k → C (o.kernel.del_rule r k).1
  pub a_to_b :
      (t : Owner K)
      → A t.kernel
      → (confirmed o f (map (copy_of p) want) t).0 ≡ none
      → B (confirmed o f (map (copy_of p) want) t).1.kernel
  pub b_to_c :
      (t : Owner K)
      → B t.kernel
      → (confirmed o f want t).0 ≡ none
      → C (confirmed o f want t).1.kernel

module _ {K : Type 0} (o : Options K) (f : Family) (p : ℕ) (want : List Rule) (A B C D : K → Type 0)
    (ph : Phases o f p want A B C) (b_to_d : (k : K) → B k → D k)
    (c_to_d : (k : K) → C k → D k) where
  retire_copies-through :
      (cps : List Rule) (st : Done) (t : Owner K)
      → All (IsCopy p) cps
      → B t.kernel
      → D (retire_copies o f want cps st t).1.kernel
  unfolding retire_copies
  retire_copies-through cps st t q h = elim (Bool-cases (is_some st.1)) [
    | inl e ↦ rw e (b_to_d _ h)
    | inr e ↦ rw e (
        let (fault, t') = confirmed o f want t in
        elim (Bool-cases (is_some fault)) [
          | inl b ↦ rw b (b_to_d _ (confirmed-keeps o B ph.looks_b f want t h))
          | inr b ↦ rw b (
              c_to_d _ (
                remove_copies-keeps o C ph.looks_c (IsCopy p) ph.dels_c cps _ t' q
                  (ph.b_to_c t h (is_none fault b))))
        ])
  ]

  replace_rules-through :
      (cs : Copies) (t : Owner K)
      → All (IsCopy p) cs.installed
      → B t.kernel
      → D (replace_rules o f p want cs t).1.kernel
  unfolding replace_rules
  replace_rules-through cs t q h =
      let (cleared, t') = clear o 32 f p cs.mutations t in
      let h' = clear-keeps o B ph.looks_b f p ph.clears_b 32 cs.mutations t h in
      elim (Bool-cases (is_some cleared.1)) [
        | inl e ↦ rw e (b_to_d _ h')
        | inr e ↦ rw e (
            retire_copies-through cs.installed _ _ q
              (refill-keeps o B ph.looks_b ph.adds_b want cleared t' h'))
      ]

module _ {K : Type 0} (o : Options K) (f : Family) (p : ℕ) (A B C D : K → Type 0)
    (a_to_d : (k : K) → A k → D k) (b_to_d : (k : K) → B k → D k)
    (c_to_d : (k : K) → C k → D k) where
  pub rebuild-through :
      (want : List Rule)
      → Phases o f p want A B C
      → (t : Owner K) → A t.kernel
      → D (rebuild o f p want t).1.kernel
  unfolding rebuild
  rebuild-through [] ph t h = a_to_d _ h
  rebuild-through (w ∷ ws) ph t h =
      let copies = map (copy_of p) (w ∷ ws) in
      let start : Copies = record { mutations = 0; installed = []; err = none } in
      let (cs, t1) = install_copies o copies start t in
      let h1 = install_copies-keeps o A ph.looks_a ph.adds_a copies start t h in
      let (fault, t2) = confirmed o f copies t1 in
      elim (Bool-cases (is_some cs.err)) [
        | inl e ↦ rw e (a_to_d _ h1)
        | inr e ↦ rw e (elim (Bool-cases (is_some fault)) [
          | inl b ↦ rw b (a_to_d _ (confirmed-keeps o A ph.looks_a f copies t1 h1))
          | inr b ↦ rw b (
              replace_rules-through o f p (w ∷ ws) A B C D ph b_to_d c_to_d cs t2
                (install_copies-All o (IsCopy p) copies start t (copies-IsCopy p (w ∷ ws)) tt)
                (ph.a_to_b t1 h1 (is_none fault b)))
        ])
      ]
