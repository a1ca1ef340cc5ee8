-- ===== src/Mutator/Live.antt =====
-- internal/mutator/retire.go and install.go: addresses that are live, or looks that do not tell.
use mathlib.Core.List.{Memᴰ}
use molebridge.Base.{
  ℕ, zero, suc, Bool, true, false, ◌||◌, ◌≡◌, refl, ◌∙◌, ◌⊎◌, inl, inr, Option, none, some, List,
  Bool-cases, arith,
}
use molebridge.Rtnl.Addr.{Family, Addr}
use molebridge.Rtnl.Rule.{Rule}
use molebridge.Rtnl.Route.{Snapshot}
use molebridge.Contract.Config.{is_gluetun, is_gluetun_sidecar}
use molebridge.Contract.Spec.{Spec}
use molebridge.Contract.Plan.{interest, no_items}
use molebridge.Mutator.Kernel.{Options}
use molebridge.Mutator.Owner.{Fault, Answer, err, got, Owner, looked, snapshot}
use molebridge.Mutator.Lawful.{Lawful}
use molebridge.Mutator.Kept.{Looks}
use molebridge.Mutator.Gapless.{Held-Looks}
use molebridge.Mutator.Rounds.{record_pass}
use molebridge.Mutator.Settle.{
  further_looks, of_family, look_unless, stable_look, unverified, settle, settle_from, begin,
  retire_return_path, retire_valid, retire_look, retire_on, on_any_link,
}

abbrev pub AnswerHas : (Snapshot → Type 0) → Answer Snapshot → Type 0
AnswerHas Q (err e) = Unit
AnswerHas Q (got snap) = Q snap

-- What every look of a kernel has, and what a look does not change.
module _ {K : Type 0} (o : Options K) (P : K → Type 0) (looks : Looks o.kernel P)
    (Q : Snapshot → Type 0)
    (shows : (ts : List ℕ) (k : K) (snap : Snapshot)
      → (o.kernel.take ts k).0 ≡ some snap
      → Q snap) where
  -- The state after looks: the Spec is the same, and the predicate is kept.
  abbrev pub Same : Owner K → Owner K → Type 0
  Same t t' = (t'.spec ≡ t.spec) × P t'.kernel

  looked-Same :
      (a : Option Snapshot) (t : Owner K)
      → ((snap : Snapshot) → a ≡ some snap → Q snap)
      → P t.kernel
      → AnswerHas Q (looked o a t).0 × Same t (looked o a t).1
  unfolding looked
  looked-Same none t q h = (tt, (refl, h))
  looked-Same (some snap) t q h = (q snap refl, (refl, h))

  snapshot-Same :
      (t : Owner K) → P t.kernel → AnswerHas Q (snapshot o t).0 × Same t (snapshot o t).1
  unfolding snapshot
  snapshot-Same t h = elim (Bool-cases (o.kernel.expired t.kernel)) [
    | inl e ↦ rw e (tt, (refl, h))
    | inr e ↦ rw e (
        looked-Same (o.kernel.take (interest t.spec) t.kernel).0 _
          (shows (interest t.spec) t.kernel) (looks.by_take (interest t.spec) t.kernel h))
  ]

  look_unless-Same :
      (a : Answer Snapshot) (t t' : Owner K) (rest : Answer Snapshot × Owner K)
      → AnswerHas Q a × Same t t'
      → AnswerHas Q rest.0 × Same t rest.1
      → AnswerHas Q (look_unless o a t' rest).0 × Same t (look_unless o a t' rest).1
  unfolding look_unless
  look_unless-Same (err e) t t' rest h k = h
  look_unless-Same (got snap) t t' rest h k = elim (Bool-cases snap.unstable) [
    | inl e ↦ simp e k
    | inr e ↦ simp e h
  ]

  pub stable_look-Same :
      (n : ℕ) (t : Owner K)
      → P t.kernel
      → AnswerHas Q (stable_look o n t).0 × Same t (stable_look o n t).1
  unfolding stable_look
  stable_look-Same zero t h = snapshot-Same t h
  stable_look-Same (suc n) t h =
      let (answer, t') = snapshot o t in
      let (q, (e, k)) = snapshot-Same t h in
      let (q2, (e2, k2)) = stable_look-Same n t' k in
      look_unless-Same answer t t' (stable_look o n t') (q, (e, k)) (q2, (e2 ∙ e, k2))

module _ {K : Type 0} (o : Options K) (holds : K → Family → List Rule)
    (l : Lawful o.kernel holds) where
  Held : Family → Rule → K → Type 0
  Held f x k = Memᴰ x (holds k f)

  held_looks : (f : Family) (x : Rule) → Looks o.kernel (λ k. Memᴰ x (holds k f))
  held_looks f x = Held-Looks o.kernel holds l f (λ rs. Memᴰ x rs) (λ xs ys sub. sub x)

  -- A look that cannot tell that the address is gone.
  abbrev pub Tells : Family → Addr → Snapshot → Type 0
  Tells f a snap = (snap.unstable ≡ true) ⊎ (on_any_link o a (snap.addrs f) ≡ true)

  -- A retirement that reports an error and changes neither the Spec nor the rule.
  abbrev pub Refused : Family → Rule → Owner K → List Fault × Owner K → Type 0
  Refused g x t r = (no_items r.0 ≡ false) × ((r.1.spec ≡ t.spec) × Memᴰ x (holds r.1.kernel g))

  retire_look-Refused :
      (g : Family) (x : Rule) (f : Family) (a : Addr) (ans : Answer Snapshot) (t t' : Owner K)
      → AnswerHas (Tells f a) ans
      → (t'.spec ≡ t.spec) × Memᴰ x (holds t'.kernel g)
      → Refused g x t (retire_look o f a ans t')
  unfolding retire_look retire_on
  retire_look-Refused g x f a (err e) t t' q h = (refl, h)
  retire_look-Refused g x f a (got snap) t t' q h = elim (Bool-cases snap.unstable) [
    | inl e ↦ simp e (refl, h)
    | inr e ↦ elim q [ inl u ↦ absurd (ground (arith, u, e)) | inr u ↦ simp (e, u) (refl, h) ]
  ]

  -- While no stable look shows the address gone, the retirement of a native exit's return-path
  -- address reports an error, leaves the expected state as it is and every rule where it is, on a
  -- kernel that behaves as documented.
  pub retire_return_path-Refused :
      (f : Family) (a : Addr) (t : Owner K) (g : Family) (x : Rule)
      → is_gluetun t.spec.config ≡ false
      → ((ts : List ℕ) (k : K) (snap : Snapshot)
          → (o.kernel.take ts k).0 ≡ some snap
          → Tells f a snap)
      → Memᴰ x (holds t.kernel g)
      → Refused g x t (retire_return_path o f (some a) t)
  unfolding retire_return_path retire_valid begin
  retire_return_path-Refused f a t g x n shows m =
      let (ans, t') = stable_look o further_looks (begin o t) in
      let (q, h) =
        stable_look-Same o (λ k. Memᴰ x (holds k g)) (held_looks g x) (Tells f a) shows
          further_looks (begin o t) m in
      elim (Bool-cases (is_gluetun_sidecar t.spec.config || is_gluetun t.spec.config)) [
        | inl e ↦ absurd (ground (arith, e, n))
        | inr e ↦ rw e (elim (Bool-cases (of_family f (some a))) [
          | inl b ↦ rw b (retire_look-Refused g x f a ans t t' q h)
          | inr b ↦ rw b (refl, (refl, m))
        ])
      ]

  settle_from-unsure :
      (before both : Spec) (f : Family) (old : Option Addr) (next : Addr) (failed : Bool)
      (ans : Answer Snapshot) (t t' : Owner K) (g : Family) (x : Rule)
      → AnswerHas (λ snap. snap.unstable ≡ true) ans
      → (t'.spec ≡ t.spec) × Memᴰ x (holds t'.kernel g)
      → Refused g x t (settle_from o before both f old next failed ans t')
        × ((settle_from o before both f old next failed ans t').1.ready ≡ false)
  unfolding settle_from unverified record_pass
  settle_from-unsure before both f old next failed (err e) t t' g x q h = ((refl, h), refl)
  settle_from-unsure before both f old next failed (got snap) t t' g x q h =
      simp q ((refl, h), refl)

  -- While every look is unstable, the end of a return-path transaction reports an error, leaves
  -- the expected state as it is and every rule where it is, on a kernel that behaves as
  -- documented, and the owner is not ready.
  pub settle-unsure :
      (before both : Spec) (f : Family) (old : Option Addr) (next : Addr) (failed : Bool)
      (t : Owner K) (g : Family) (x : Rule)
      → ((ts : List ℕ) (k : K) (snap : Snapshot)
          → (o.kernel.take ts k).0 ≡ some snap
          → snap.unstable ≡ true)
      → Memᴰ x (holds t.kernel g)
      → Refused g x t (settle o before both f old next failed t)
        × ((settle o before both f old next failed t).1.ready ≡ false)
  unfolding settle
  settle-unsure before both f old next failed t g x shows m =
      let (ans, t') = stable_look o further_looks t in
      let (q, h) =
        stable_look-Same o (λ k. Memᴰ x (holds k g)) (held_looks g x) (λ snap. snap.unstable ≡ true)
          shows further_looks t m in
      settle_from-unsure before both f old next failed ans t t' g x q h
