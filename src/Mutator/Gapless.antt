-- ===== src/Mutator/Gapless.antt =====
-- internal/mutator/apply.go `rebuild`: a priority is replaced without a gap.
use mathlib.Core.List.{Memᴰ}
use molebridge.Base.{
  ℕ, true, false, ◌≡◌, refl, ◌⊎◌, inl, inr, none, List, [], ◌∷◌, map, ◌==◌, All, arith,
}
use molebridge.Rtnl.Addr.{Family}
use molebridge.Rtnl.Rule.{Rule}
use molebridge.Contract.Diff.Spares.{delete_matches_ne}
use molebridge.Mutator.Kernel.{Kernel, Options}
use molebridge.Mutator.Owner.{Owner, confirmed}
use molebridge.Mutator.Lawful.{Lawful}
use molebridge.Mutator.Kept.{Looks, confirmed-keeps}
use molebridge.Mutator.Shown.{HasAll, HasAll-moved, has_exact-moved, confirmed-HasAll}
use molebridge.Mutator.Rebuild.{previous_priority, copy_of, rebuild}
use molebridge.Mutator.Through.{Phases, rebuild-through}
use molebridge.Mutator.Recorded.{
  Log, recorded, recorded_options, logged, Traced, recorded-Looks, recorded-Lawful,
}

pub copy_apart : (p q : ℕ) → q ≡ previous_priority p → (p == q) ≡ false
copy_apart p q e = ground (arith, e)

-- The rules of a copy's priority, among those that are not at the rebuilt one.
copies_moved :
    (p : ℕ) (xs ys want : List Rule)
    → ((x : Rule) → (x.priority == p) ≡ false → Memᴰ x xs → Memᴰ x ys)
    → HasAll xs (map (copy_of p) want)
    → HasAll ys (map (copy_of p) want)
copies_moved p xs ys [] sub h = tt
copies_moved p xs ys (w ∷ ws) sub h = (
  has_exact-moved (copy_of p w) xs ys
      (λ x e m. sub x (ground (arith, copy_apart p (previous_priority p) refl)) m) h.0,
  copies_moved p xs ys ws sub h.1,
)

-- The rules at the rebuilt priority, among those at another priority than the copy's.
pub rules_moved :
    (p : ℕ) (xs ys want : List Rule)
    → All (λ w. (w.priority == p) ≡ true) want
    → ((x : Rule) → (x.priority == p) ≡ true → Memᴰ x xs → Memᴰ x ys)
    → HasAll xs want
    → HasAll ys want
rules_moved p xs ys [] at sub h = tt
rules_moved p xs ys (w ∷ ws) at sub h = (
  has_exact-moved w xs ys (λ x e m. sub x (ground (arith, at.0)) m) h.0,
  rules_moved p xs ys ws at.1 sub h.1,
)

-- What a request of the kernel keeps, as a state's rules in a family.
module _ {K : Type 0} (kernel : Kernel K) (holds : K → Family → List Rule) (l : Lawful kernel holds)
    (f : Family) where
  pub Held-Looks :
      (P : List Rule → Type 0)
      → ((xs ys : List Rule) → ((x : Rule) → Memᴰ x xs → Memᴰ x ys) → P xs → P ys)
      → Looks kernel (λ k. P (holds k f))
  Held-Looks P mono = record {
    by_take = λ ts k. mono (holds k f) _ (l.take-Held ts k f);
    by_read = λ read e g k. mono (holds k f) _ (l.stable-Held read e g k f);
    by_ask = λ ask e ts k. mono (holds k f) _ (l.foreign-Held ask e ts k f);
  }

module _ (p : ℕ) (want start : List Rule) where
  -- Each of the rules that were there at the start is still there.
  abbrev pub Untouched : List Rule → Type 0
  Untouched rs = (x : Rule) → Memᴰ x start → Memᴰ x rs

  abbrev pub Copied : List Rule → Type 0
  Copied rs = HasAll rs (map (copy_of p) want)

  -- What was there, or a copy of every rule, or every rule.
  abbrev pub Covered : List Rule → Type 0
  Covered rs = Untouched rs ⊎ (Copied rs ⊎ HasAll rs want)

module _ {K : Type 0} (o : Options K) (holds : K → Family → List Rule) (l : Lawful o.kernel holds)
    (f : Family) (p : ℕ) (want start : List Rule)
    (at : All (λ w. (w.priority == p) ≡ true) want) where
  abbrev CoveredAt : K → Type 0
  CoveredAt k = Covered p want start (holds k f)

  abbrev A : K → Type 0
  A k = Untouched p want start (holds k f)

  abbrev B : K → Type 0
  B k = Copied p want start (holds k f)

  abbrev C : K → Type 0
  C k = HasAll (holds k f) want

  -- One more state in the log.
  pushed :
      (X : K → Type 0)
      → ((k : K) → X k → CoveredAt k)
      → (s : Log K) (k : K) → (X s.0 → X k)
      → Traced CoveredAt X s
      → Traced CoveredAt X (k, k ∷ s.1)
  pushed X to s k step h = let x = step h.0 in (x, (to k x, h.1))

  Traced-untouched : Looks (recorded o.kernel) (Traced CoveredAt A)
  Traced-untouched =
      recorded-Looks o.kernel CoveredAt A (λ k. inl)
        (Held-Looks o.kernel holds l f (Untouched p want start) (λ xs ys sub h x m. sub x (h x m)))

  Traced-copied : Looks (recorded o.kernel) (Traced CoveredAt B)
  Traced-copied =
      recorded-Looks o.kernel CoveredAt B (λ k x. inr (inl x))
        (Held-Looks o.kernel holds l f (Copied p want start) (HasAll-moved (map (copy_of p) want)))

  Traced-restored : Looks (recorded o.kernel) (Traced CoveredAt C)
  Traced-restored =
      recorded-Looks o.kernel CoveredAt C (λ k x. inr (inr x))
        (Held-Looks o.kernel holds l f (λ rs. HasAll rs want) (HasAll-moved want))

  seen :
      (rs : List Rule) (t : Owner (Log K))
      → (confirmed (recorded_options o) f rs t).0 ≡ none
      → HasAll (holds (confirmed (recorded_options o) f rs t).1.kernel.0 f) rs
  seen rs t e =
      confirmed-HasAll (recorded_options o) (λ s. holds s.0) (recorded-Lawful o.kernel holds l) f rs
        t e

  phases :
      Phases
        (recorded_options o)
        f
        p
        want
        (Traced CoveredAt A)
        (Traced CoveredAt B)
        (Traced CoveredAt C)
  phases =
      let copies = map (copy_of p) want in
      record {
        looks_a = Traced-untouched;
        looks_b = Traced-copied;
        looks_c = Traced-restored;
        adds_a = λ r s. pushed A (λ k. inl) s _ (λ h x m. l.add-Held r s.0 f x (h x m));
        adds_b = λ r s.
            pushed B (λ k x. inr (inl x)) s _
              (HasAll-moved copies (holds s.0 f) _ (l.add-Held r s.0 f));
        clears_b = λ s.
            pushed B (λ k x. inr (inl x)) s _
              (copies_moved p (holds s.0 f) _ want (l.del_priority-Held f p s.0 f));
        dels_c = λ r s q.
            pushed C (λ k x. inr (inr x)) s _
              (rules_moved p (holds s.0 f) _ want at (λ x e.
                l.del-Held r s.0 f x
                  (delete_matches_ne r x (ground (arith, copy_apart p r.priority q)))));
        a_to_b = λ t h e. (
          seen copies t e,
          (confirmed-keeps (recorded_options o) (Traced CoveredAt A) Traced-untouched f copies t
              h).1,
        );
        b_to_c = λ t h e. (
          seen want t e,
          (confirmed-keeps (recorded_options o) (Traced CoveredAt B) Traced-copied f want t h).1,
        );
      }

module _ {K : Type 0} (o : Options K) (holds : K → Family → List Rule) (l : Lawful o.kernel holds)
    (f : Family) (p : ℕ) (want : List Rule) (t : Owner K) where
  -- On a kernel that behaves as documented, at every moment of a rebuild of a priority with rules
  -- of that priority, either each rule of the family that was there at the start is still there,
  -- or the kernel has the protective copy of every rule, or it has every rule exactly.
  pub rebuild-Covered :
      All (λ w. (w.priority == p) ≡ true) want
      → All
          (λ k. Covered p want (holds t.kernel f) (holds k f))
          (rebuild (recorded_options o) f p want (logged t)).1.kernel.1
  rebuild-Covered at =
      let D : K → Type 0 = λ k. Covered p want (holds t.kernel f) (holds k f) in
      let start = holds t.kernel f in
      rebuild-through (recorded_options o) f p (Traced D _) (Traced D _) (Traced D _)
        (λ s. All D s.1) (λ s h. h.1) (λ s h. h.1) (λ s h. h.1) want
        (phases o holds l f p want start at) (logged t) ((λ x m. m), (inl (λ x m. m), tt))
