-- ===== src/Policy/Safe.antt =====
-- internal/policy/classes.go: what it means that a state has no violation.
use mathlib.Core.List.{Memᴰ}
use molebridge.Base.{
  some_inj, ◌↔◌, ℕ, true, false, ◌≡◌, refl, ap, sym, ◌∙◌, inl, inr, none, some, List, [], ◌∷◌,
  subst, Bool-cases, Option-cases, arith,
}
use molebridge.Rtnl.Rule.{Rule}
use molebridge.Contract.Config.{is_gluetun_sidecar}
use molebridge.Policy.Packet.{Packet}
use molebridge.Policy.Lookup.{State, Outcome}
use molebridge.Policy.Walk.{walk}
use molebridge.Policy.Classes.{Class, allows, class_of, forbidden, judge}
use molebridge.Policy.Gather.{all_points, violations}
use molebridge.Policy.Worsens.{any-allows}

module _ (name : Rule → ℕ) where
  -- Every place where a packet of the points can end is one that its class allows.
  abbrev pub IsSafe : State → List Packet → Type 0
  IsSafe s ps =
      (p : Packet)
      → Memᴰ p ps
      → (o : Outcome) → Memᴰ o (walk name s p)
      → allows (class_of s p) o ≡ true

  forbidden_sound :
      (c : Class) (os : List Outcome)
      → forbidden c os ≡ none
      → (o : Outcome) → Memᴰ o os
      → allows c o ≡ true
  unfolding forbidden
  forbidden_sound c [] h o m = elim m [ ]
  forbidden_sound c (x ∷ os) h o (Memᴰ.head q) = let w = ap (allows c) q in ground arith
  forbidden_sound c (x ∷ os) h o (Memᴰ.tail m) = forbidden_sound c os (ground arith) o m

  judge_sound : (s : State) (ps : List Packet) → judge name s ps ≡ [] → IsSafe s ps
  unfolding judge
  judge_sound s [] h = λ p m. elim m [ ]
  judge_sound s (x ∷ ps) h = elim (Bool-cases (class_of s x).any) [
    | inl e ↦ λ p m. elim m [
      | Memᴰ.head q ↦ λ o n. any-allows (class_of s p) o (ap (λ z. (class_of s z).any) q ∙ e)
      | Memᴰ.tail n ↦ judge_sound s ps (rw e at h) p n
    ]
    | inr e ↦ elim (Option-cases (forbidden (class_of s x) (walk name s x))) [
      | inl k ↦
          let r = rw (e, k) at h in
          λ p m. elim m [
            | Memᴰ.head q ↦
                subst (λ z. (o : Outcome) → Memᴰ o (walk name s z) → allows (class_of s z) o ≡ true)
                  (sym q) (forbidden_sound (class_of s x) (walk name s x) k)
            | Memᴰ.tail n ↦ judge_sound s ps r p n
          ]
      | inr (o, k) ↦ let r = rw (e, k) at h in cc
    ]
  ]

  forbidden_complete :
      (c : Class) (os : List Outcome)
      → ((o : Outcome) → Memᴰ o os → allows c o ≡ true)
      → forbidden c os ≡ none
  unfolding forbidden
  forbidden_complete c [] f = refl
  forbidden_complete c (x ∷ os) f =
      rw (f x (Memᴰ.head refl)) (forbidden_complete c os (λ o m. f o (Memᴰ.tail m)))

  judge_complete : (s : State) (ps : List Packet) → IsSafe s ps → judge name s ps ≡ []
  unfolding judge
  judge_complete s [] f = refl
  judge_complete s (x ∷ ps) f =
      let rest = judge_complete s ps (λ p m. f p (Memᴰ.tail m)) in
      elim (Bool-cases (class_of s x).any) [
        | inl e ↦ rw (e, rest) refl
        | inr e ↦ rw (e, forbidden_complete (class_of s x) _ (f x (Memᴰ.head refl)), rest) refl
      ]

  -- For an exit that is not a gluetun sidecar, a state has no violation exactly when its points can
  -- be gathered and every place where one of them can end is one that its class allows.
  pub violations-IsSafe :
      (s : State)
      → is_gluetun_sidecar s.spec.config ≡ false
      → (violations name s ≡ []) ↔ ((ps : List Packet) × (all_points s [] ≡ some ps) × IsSafe s ps)
  unfolding violations
  violations-IsSafe s g = elim (Option-cases (all_points s [])) [
    | inl q ↦ rw (g, q) (λ h. cc, λ (ps, e, f). cc)
    | inr (ps, q) ↦
        rw (g, q)
          (
            (λ h. (ps, refl, judge_sound s ps h)),
            λ (qs, e, f). judge_complete s ps (subst (IsSafe s) (sym (some_inj ps qs e)) f),
          )
  ]
