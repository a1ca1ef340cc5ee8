-- ===== src/Policy/Worsens.antt =====
-- internal/policy/classes.go: what it means that `Worsens` reports nothing of a change.
use mathlib.Core.List.{Memᴰ}
use molebridge.Base.{
  some_inj, ℕ, true, false, ◌||◌, ◌≡◌, refl, ap, sym, ◌∙◌, ◌↔◌, inl, inr, some, List, [], ◌∷◌, ◌++◌,
  same, same→eq, same_refl, subst, any-Memᴰ, Memᴰ-any, Bool-cases, Option-cases, arith,
}
use molebridge.Rtnl.Rule.{Rule}
use molebridge.Contract.Config.{is_gluetun_sidecar}
use molebridge.Policy.Packet.{Packet}
use molebridge.Policy.Lookup.{State, Outcome, Outcome-discrete}
use molebridge.Policy.Walk.{walk}
use molebridge.Policy.Gather.{all_points, worsens}
use molebridge.Policy.Classes.{Class, allows, class_of, is_prior, gained, opened}

is_prior-Mem : (prior : List Outcome) (o : Outcome) → is_prior prior o ≡ true → Memᴰ o prior
unfolding is_prior
is_prior-Mem prior o h =
    let (x, m, e) = any-Memᴰ (λ x. same Outcome-discrete x o) prior h in
    subst (λ z. Memᴰ z prior) (same→eq Outcome-discrete x o e) m

Mem-is_prior : (prior : List Outcome) (o : Outcome) → Memᴰ o prior → is_prior prior o ≡ true
unfolding is_prior
Mem-is_prior prior o m = Memᴰ-any (λ x. same Outcome-discrete x o) m (same_refl Outcome-discrete o)

no_append {ℓ} : {A : Type ℓ} (xs ys : List A) → xs ++ ys ≡ [] → (xs ≡ []) × (ys ≡ [])
no_append [] ys h = (refl, h)
no_append (x ∷ xs) ys h = cc

-- Every outcome that the class forbids is a prior one.
abbrev pub NothingGained : Class → List Outcome → List Outcome → Type 0
NothingGained c prior os = (o : Outcome) → Memᴰ o os → allows c o ≡ false → Memᴰ o prior

gained_sound :
    (c : Class) (p : Packet) (prior os : List Outcome)
    → gained c p prior os ≡ []
    → NothingGained c prior os
unfolding gained
gained_sound c p prior [] h = λ o m f. elim m [ ]
gained_sound c p prior (x ∷ os) h = elim (Bool-cases (allows c x || is_prior prior x)) [
  | inl e ↦ λ o m f. elim m [
    | Memᴰ.head q ↦
        is_prior-Mem prior o
          (let k = ap (allows c) (sym q) ∙ f in let w = ap (is_prior prior) q in ground arith)
    | Memᴰ.tail n ↦ gained_sound c p prior os (rw e at h) o n f
  ]
  | inr e ↦ let k = rw e at h in cc
]

gained_complete :
    (c : Class) (p : Packet) (prior os : List Outcome)
    → NothingGained c prior os
    → gained c p prior os ≡ []
unfolding gained
gained_complete c p prior [] f = refl
gained_complete c p prior (x ∷ os) f =
    let rest = gained_complete c p prior os (λ o m. f o (Memᴰ.tail m)) in
    elim (Bool-cases (allows c x)) [
      | inl e ↦ ground arith
      | inr e ↦ let k = Mem-is_prior prior x (f x (Memᴰ.head refl) e) in ground arith
    ]

pub any-allows : (c : Class) (o : Outcome) → c.any ≡ true → allows c o ≡ true
unfolding allows
any-allows c o h = ground arith

module _ (name : Rule → ℕ) where
  -- No point gains a place that its class after the change forbids.
  abbrev pub OpensNothing : State → State → List Packet → Type 0
  OpensNothing before after ps =
      (p : Packet)
      → Memᴰ p ps
      → NothingGained (class_of after p) (walk name before p) (walk name after p)

  pub opened_sound :
      (before after : State) (ps : List Packet)
      → opened name before after ps ≡ []
      → OpensNothing before after ps
  unfolding opened
  opened_sound before after [] h = λ p m. elim m [ ]
  opened_sound before after (x ∷ ps) h = elim (Bool-cases (class_of after x).any) [
    | inl e ↦ λ p m. elim m [
      | Memᴰ.head q ↦ λ o n f.
          let k = any-allows (class_of after x) o e in
          let w = ap (λ z. allows (class_of after z) o) q in cc
      | Memᴰ.tail n ↦ opened_sound before after ps (rw e at h) p n
    ]
    | inr e ↦
        let (a, b) = no_append _ _ (rw e at h) in
        λ p m. elim m [
          | Memᴰ.head q ↦
              subst (λ z. NothingGained (class_of after z) (walk name before z) (walk name after z))
                (sym q) (gained_sound (class_of after x) x _ _ a)
          | Memᴰ.tail n ↦ opened_sound before after ps b p n
        ]
  ]

  opened_complete :
      (before after : State) (ps : List Packet)
      → OpensNothing before after ps
      → opened name before after ps ≡ []
  unfolding opened
  opened_complete before after [] f = refl
  opened_complete before after (x ∷ ps) f =
      let rest = opened_complete before after ps (λ p m. f p (Memᴰ.tail m)) in
      elim (Bool-cases (class_of after x).any) [
        | inl e ↦ rw (e, rest) refl
        | inr e ↦
            let k = gained_complete (class_of after x) x _ _ (f x (Memᴰ.head refl)) in
            rw (e, k, rest) refl
      ]

  -- For an exit that is not a gluetun sidecar, `Worsens` reports nothing exactly when the points of
  -- the two states can be gathered and at every one of them each outcome after the change that the
  -- packet's class forbids was possible before it.
  pub worsens-OpensNothing :
      (before after : State)
      → is_gluetun_sidecar before.spec.config ≡ false
      → (worsens name before after ≡ []) ↔ (
          (ps : List Packet) × (all_points before (after ∷ []) ≡ some ps)
          × OpensNothing before after ps)
  unfolding worsens
  worsens-OpensNothing before after g = elim (Option-cases (all_points before (after ∷ []))) [
    | inl q ↦ rw (g, q) (λ h. cc, λ (ps, e, f). cc)
    | inr (ps, q) ↦
        rw (g, q)
          (
            (λ h. (ps, refl, opened_sound before after ps h)),
            (λ (qs, e, f).
                opened_complete before after ps
                  (subst (OpensNothing before after) (sym (some_inj ps qs e)) f)),
          )
  ]
