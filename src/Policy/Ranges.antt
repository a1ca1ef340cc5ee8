-- ===== src/Policy/Ranges.antt =====
-- internal/policy/classes.go, `refineRange`: one value for each set of values that the ranges of
-- the rules cannot tell apart.
use mathlib.Core.List.{Memᴰ}
use molebridge.Base.{
  ℕ, ◌+◌, ◌-◌, ◌≤◌, ◌<◌, Bool, true, false, not, ◌&&◌, ◌≡◌, refl, ap, sym, ◌∙◌, subst, ◌⊎◌, inl,
  inr, List, [], ◌∷◌, ◌++◌, map, ◌==◌, ltb, leb, any, keep, when, same, same→eq, All, All-Mem,
  All-map_prop, Memᴰ-append_right, Memᴰ-keep, Bool-cases, any-Memᴰ, arith, if◌then◌else◌,
}

abbrev in_range : ℕ → ℕ × ℕ → Bool
in_range v r = leb r.0 v && leb v r.1

-- Which ranges hold the value.
unfoldable pub range_sig : List (ℕ × ℕ) → ℕ → List Bool
range_sig rs v = map (in_range v) rs

unfoldable Sig-discrete : Discrete (List Bool)
Sig-discrete = hlevel

-- The bounds of a range and the values just outside them.
abbrev bounds : ℕ → ℕ × ℕ → List ℕ
bounds limit r = (r.0 ∷ r.1 ∷ []) ++ when (ltb 0 r.0) (r.0 - 1) ++ when (ltb r.1 limit) (r.1 + 1)

abbrev range_candidates : ℕ → List (ℕ × ℕ) → List ℕ
range_candidates limit [] = 0 ∷ []
range_candidates limit (r ∷ rs) = bounds limit r ++ range_candidates limit rs

-- The keys of a map in ascending order.
abbrev add_key : ℕ → List ℕ → List ℕ
add_key v [] = v ∷ []
add_key v (x ∷ xs) =
    let rest = x ∷ add_key v xs in if v == x then x ∷ xs else if ltb v x then v ∷ x ∷ xs else rest

abbrev pub keys : List ℕ → List ℕ
keys [] = []
keys (x ∷ xs) = add_key x (keys xs)

-- The first value of each signature.
unfoldable first_values : List (ℕ × ℕ) → List (List Bool) → List ℕ → List ℕ
unfolding range_sig Sig-discrete
first_values rs seen [] = []
first_values rs seen (v ∷ vs) =
    let found = any (same Sig-discrete (range_sig rs v)) seen in
    when (not found) v ++ first_values rs (if found then seen else range_sig rs v ∷ seen) vs

unfoldable pub refine_range : List (ℕ × ℕ) → ℕ → List ℕ
unfolding first_values
refine_range rs limit =
    first_values rs [] (keys (keep (λ v. leb v limit) (range_candidates limit rs)))

Mem-add_key : (v : ℕ) (xs : List ℕ) → Memᴰ v (add_key v xs)
Mem-add_key v [] = Memᴰ.head refl
Mem-add_key v (x ∷ xs) = elim (Bool-cases (v == x)) [
  | inl e ↦ let q : v ≡ x = ground arith in rw e (Memᴰ.head q)
  | inr e ↦ elim (Bool-cases (ltb v x)) [
    | inl l ↦ rw (e, l) (Memᴰ.head refl)
    | inr l ↦ rw (e, l) (Memᴰ.tail (Mem-add_key v xs))
  ]
]

Mem-add_key_old : (a v : ℕ) (xs : List ℕ) → Memᴰ a xs → Memᴰ a (add_key v xs)
Mem-add_key_old a v [] m = elim m [ ]
Mem-add_key_old a v (x ∷ xs) m = elim (Bool-cases (v == x)) [
  | inl e ↦ rw e m
  | inr e ↦ elim (Bool-cases (ltb v x)) [
    | inl l ↦ rw (e, l) (Memᴰ.tail m)
    | inr l ↦
        rw (e, l)
          (elim m [
            | Memᴰ.head q ↦ Memᴰ.head q
            | Memᴰ.tail n ↦ Memᴰ.tail (Mem-add_key_old a v xs n)
          ])
  ]
]

Mem-keys : (a : ℕ) (xs : List ℕ) → Memᴰ a xs → Memᴰ a (keys xs)
Mem-keys a [] m = m
Mem-keys a (x ∷ xs) (Memᴰ.head q) =
    subst (λ z. Memᴰ z (add_key x (keys xs))) (sym q) (Mem-add_key x (keys xs))
Mem-keys a (x ∷ xs) (Memᴰ.tail m) = Mem-add_key_old a x (keys xs) (Mem-keys a xs m)

-- The greatest element that is not above a value.
abbrev IsFloor : ℕ → ℕ → List ℕ → Type 0
IsFloor v u xs = (u ≤ v) × All (λ x. x ≤ v → x ≤ u) xs

greatest_below :
    (v : ℕ) (xs : List ℕ) → All (λ x. v < x) xs ⊎ ((u : ℕ) × Memᴰ u xs × IsFloor v u xs)
greatest_below v [] = inl tt
greatest_below v (x ∷ xs) = elim (greatest_below v xs) [
  | inl h ↦ elim (Bool-cases (ltb v x)) [
    | inl e ↦ inl (ground arith, h)
    | inr e ↦
        let rest = All-map_prop (λ z. v < z) (λ z. z ≤ v → z ≤ x) (λ z g k. omega arith) xs h in
        inr (x, Memᴰ.head refl, (ground arith, (λ k. omega arith, rest)))
  ]
  | inr (u, m, (l, h)) ↦ elim (Bool-cases (ltb u x && leb x v)) [
    | inl g ↦
        let lt : u < x = ground arith in
        let rest =
          All-map_prop (λ z. z ≤ v → z ≤ u) (λ z. z ≤ v → z ≤ x)
            (λ z w k. let b = w k in omega arith) xs h in
        inr (x, Memᴰ.head refl, (ground arith, (λ k. omega arith, rest)))
    | inr g ↦ inr (u, Memᴰ.tail m, (l, (λ k. ground arith, h)))
  ]
]

zero-candidate : (limit : ℕ) (rs : List (ℕ × ℕ)) → Memᴰ 0 (range_candidates limit rs)
zero-candidate limit [] = Memᴰ.head refl
zero-candidate limit (r ∷ rs) = Memᴰ-append_right (bounds limit r) (zero-candidate limit rs)

candidates-IsFloor :
    (limit v : ℕ) (rs : List (ℕ × ℕ))
    → (u : ℕ) × Memᴰ u (range_candidates limit rs) × IsFloor v u (range_candidates limit rs)
candidates-IsFloor limit v rs = elim (greatest_below v (range_candidates limit rs)) [
  | inl h ↦ absurd (let k = All-Mem (λ x. v < x) h (zero-candidate limit rs) in omega arith)
  | inr found ↦ found
]

All-split {ℓ κ} :
    {A : Type ℓ} (P : A → Type κ) (xs ys : List A) → All P (xs ++ ys) → All P xs × All P ys
All-split P [] ys h = (tt, h)
All-split P (x ∷ xs) ys h = let (a, b) = All-split P xs ys h.1 in ((h.0, a), b)

All-when {ℓ κ} :
    {A : Type ℓ} (P : A → Type κ) (b : Bool) (x : A) → All P (when b x) → b ≡ true → P x
All-when P true x h e = h.0
All-when P false x h e = cc

-- Where the first bound and the value after the last one are not between `u` and `v`, the range
-- holds both or neither.
in_range-floor :
    (limit v u : ℕ) (r : ℕ × ℕ)
    → v ≤ limit
    → u ≤ v
    → (r.0 ≤ v → r.0 ≤ u)
    → (ltb r.1 limit ≡ true → r.1 + 1 ≤ v → r.1 + 1 ≤ u)
    → in_range u r ≡ in_range v r
in_range-floor limit v u r b l f g = elim (Bool-cases (ltb r.1 limit)) [
  | inl e ↦ let k = g e in ground arith
  | inr e ↦ ground arith
]

-- A floor of the candidates lies in the same ranges.
floor-sig :
    (limit v u : ℕ) (rs : List (ℕ × ℕ))
    → v ≤ limit
    → IsFloor v u (range_candidates limit rs)
    → range_sig rs u ≡ range_sig rs v
unfolding range_sig
floor-sig limit v u [] b f = refl
floor-sig limit v u (r ∷ rs) b (l, f) =
    let P : ℕ → Type 0 = λ x. x ≤ v → x ≤ u in
    let (outside, others) =
      All-split P (when (ltb 0 r.0) (r.0 - 1) ++ when (ltb r.1 limit) (r.1 + 1))
        (range_candidates limit rs) f.1.1 in
    let (before, after) =
      All-split P (when (ltb 0 r.0) (r.0 - 1)) (when (ltb r.1 limit) (r.1 + 1)) outside in
    rw
      (
        in_range-floor limit v u r b l f.0 (All-when P (ltb r.1 limit) (r.1 + 1) after),
        floor-sig limit v u rs b (l, others),
      )
      refl

-- Every value has one before it, or one that is kept, with its signature.
first_values-Kept :
    (rs : List (ℕ × ℕ)) (seen : List (List Bool)) (u : ℕ) (vs : List ℕ)
    → Memᴰ u vs
    → Memᴰ (range_sig rs u) seen
      ⊎ ((w : ℕ) × Memᴰ w (first_values rs seen vs) × (range_sig rs w ≡ range_sig rs u))
unfolding first_values
first_values-Kept rs seen u [] m = elim m [ ]
first_values-Kept rs seen u (v ∷ vs) m =
    elim (Bool-cases (any (same Sig-discrete (range_sig rs v)) seen)) [
      | inl e ↦ rw e (elim m [
        | Memᴰ.head q ↦
            let (w, n, s) = any-Memᴰ (same Sig-discrete (range_sig rs v)) seen e in
            let k : range_sig rs u ≡ w =
              ap (range_sig rs) q ∙ same→eq Sig-discrete (range_sig rs v) w s in
            inl (subst (λ z. Memᴰ z seen) (sym k) n)
        | Memᴰ.tail n ↦ first_values-Kept rs seen u vs n
      ])
      | inr e ↦ rw e (elim m [
        | Memᴰ.head q ↦ inr (v, Memᴰ.head refl, ap (range_sig rs) (sym q))
        | Memᴰ.tail n ↦ elim (first_values-Kept rs (range_sig rs v ∷ seen) u vs n) [
          | inl k ↦ elim k [ Memᴰ.head w ↦ inr (v, Memᴰ.head refl, sym w) | Memᴰ.tail w ↦ inl w ]
          | inr (w, k, z) ↦ inr (w, Memᴰ.tail k, z)
        ]
      ])
    ]

-- Every value up to the limit lies in the same ranges as some value that `refineRange` returns.
pub refine_range_complete :
    (rs : List (ℕ × ℕ)) (limit v : ℕ)
    → v ≤ limit
    → (w : ℕ) × Memᴰ w (refine_range rs limit) × (range_sig rs w ≡ range_sig rs v)
unfolding refine_range
refine_range_complete rs limit v h =
    let (u, m, f) = candidates-IsFloor limit v rs in
    let kept = Mem-keys u _ (Memᴰ-keep (λ z. leb z limit) _ (let l = f.0 in ground arith) m) in
    elim (first_values-Kept rs [] u _ kept) [
      | inl n ↦ elim n [ ]
      | inr (w, n, e) ↦ (w, n, e ∙ floor-sig limit v u rs h f)
    ]
