-- ===== src/Mutator/Shown.antt =====
-- internal/mutator/apply.go `confirmed`: what a confirmation says of the kernel, and the kernel
-- that writes down its states.
use mathlib.Core.List.{Memᴰ}
use molebridge.Base.{
  Bool, true, false, ◌&&◌, ◌≡◌, refl, sym, ap, subst, inl, inr, Option, none, some, List, [], ◌∷◌,
  ◌==◌, Bool-cases, any-Memᴰ, Memᴰ-any, arith, All, All-map_prop,
}
use molebridge.Rtnl.Addr.{Family}
use molebridge.Rtnl.Rule.{Rule}
use molebridge.Rtnl.Items.{items, equal_items}
use molebridge.Rtnl.Route.{Snapshot}
use molebridge.Contract.Plan.{interest}
use molebridge.Mutator.Kernel.{Options}
use molebridge.Mutator.Owner.{
  Owner, has_exact, all_exact, looked, snapshot, shown_in, shown_by_look, read_back, confirmed,
  rules_shown,
}
use molebridge.Mutator.Lawful.{Lawful}
use molebridge.Mutator.Kept.{looked_kernel}

-- Every one of the rules is there exactly.
abbrev pub HasAll : List Rule → List Rule → Type 0
HasAll have want = All (λ w. has_exact have w ≡ true) want

pub has_exact-moved :
    (w : Rule) (xs ys : List Rule)
    → ((x : Rule) → (x.priority == w.priority) ≡ true → Memᴰ x xs → Memᴰ x ys)
    → has_exact xs w ≡ true
    → has_exact ys w ≡ true
unfolding has_exact
has_exact-moved w xs ys sub h =
    let test : Rule → Bool = λ r. r.priority == w.priority && equal_items (items r) (items w) in
    let (x, m, q) = any-Memᴰ test xs h in Memᴰ-any test (sub x (ground arith) m) q

pub HasAll-moved :
    (want xs ys : List Rule)
    → ((x : Rule) → Memᴰ x xs → Memᴰ x ys)
    → HasAll xs want
    → HasAll ys want
HasAll-moved want xs ys sub h =
    All-map_prop _ (λ w. has_exact ys w ≡ true)
      (λ w q. has_exact-moved w xs ys (λ x _ m. sub x m) q) want h

all_exact-HasAll : (have want : List Rule) → all_exact have want ≡ none → HasAll have want
unfolding all_exact
all_exact-HasAll have [] h = tt
all_exact-HasAll have (w ∷ ws) h = elim (Bool-cases (has_exact have w)) [
  | inl e ↦ (e, all_exact-HasAll have ws (rw e at h))
  | inr e ↦ absurd (ground arith)
]

abbrev given {ℓ} : {A : Type ℓ} → A → Option A → A
given d none = d
given d (some a) = a

module _ {K : Type 0} (o : Options K) (holds : K → Family → List Rule)
    (l : Lawful o.kernel holds) where
  shown_in-HasAll :
      (want : List Rule) (a : Option (List Rule × Bool)) (ys : List Rule)
      → ((rs : List Rule) → a ≡ some (rs, true) → (x : Rule) → Memᴰ x rs → Memᴰ x ys)
      → shown_in o want a ≡ none
      → HasAll ys want
  unfolding shown_in
  shown_in-HasAll want none ys sub h = cc
  shown_in-HasAll want (some (rs, true)) ys sub h =
      HasAll-moved want rs ys (sub rs refl) (all_exact-HasAll rs want h)
  shown_in-HasAll want (some (rs, false)) ys sub h = cc

  looked-HasAll :
      (f : Family) (want ys : List Rule) (a : Option Snapshot) (t : Owner K)
      → ((snap : Snapshot)
          → a ≡ some snap
          → snap.unstable ≡ false
          → (x : Rule) → Memᴰ x (snap.rules f)
          → Memᴰ x ys)
      → shown_by_look o f want (looked o a t).0 ≡ none
      → HasAll ys want
  unfolding shown_by_look looked
  looked-HasAll f want ys none t sub h = cc
  looked-HasAll f want ys (some snap) t sub h =
      shown_in-HasAll want (some (rules_shown o f snap)) ys
        (λ rs q x m.
          let e = ap (given (rules_shown o f snap)) q in
          sub snap refl (ground (arith, ap (λ z. z.1) e)) x (subst (λ z. Memᴰ x z.0) (sym e) m))
        h

  look-HasAll :
      (f : Family) (want : List Rule) (t : Owner K)
      → shown_by_look o f want (snapshot o t).0 ≡ none
      → HasAll (holds (snapshot o t).1.kernel f) want
  unfolding snapshot
  look-HasAll f want t h = elim (Bool-cases (o.kernel.expired t.kernel)) [
    | inl e ↦ absurd (let k = rw e at h in unfold shown_by_look in cc)
    | inr e ↦
        rw (e, looked_kernel o)
          (looked-HasAll f want _ (o.kernel.take (interest t.spec) t.kernel).0 _
            (λ snap q. l.take-Shown (interest t.spec) t.kernel f snap q) (rw e at h))
  ]

  read_back-HasAll :
      (q : Option (Family → K → Option (List Rule × Bool) × K))
      → q ≡ o.kernel.rules_stable
      → (f : Family) (want : List Rule) (t : Owner K) → (read_back o q f want t).0 ≡ none
      → HasAll (holds (read_back o q f want t).1.kernel f) want
  unfolding read_back
  read_back-HasAll none e f want t h = look-HasAll f want t h
  read_back-HasAll (some read) e f want t h = elim (Bool-cases (o.kernel.expired t.kernel)) [
    | inl b ↦ absurd (let k = rw b at h in cc)
    | inr b ↦ rw b (
        shown_in-HasAll want (read f t.kernel).0 _
          (λ rs q. l.stable-Shown read (sym e) f t.kernel rs q) (rw b at h))
  ]

  -- What was confirmed is there.
  pub confirmed-HasAll :
      (f : Family) (want : List Rule) (t : Owner K)
      → (confirmed o f want t).0 ≡ none
      → HasAll (holds (confirmed o f want t).1.kernel f) want
  unfolding confirmed
  confirmed-HasAll f want t h = read_back-HasAll o.kernel.rules_stable refl f want t h
