-- ===== src/Base/Lists.antt =====
-- Lists measured by native numbers, loops over lists that return a Boolean, and the predicates
-- by recursion that the proofs use.
use Prim.Native.Nat.{ℕ, suc, ◌+◌, ◌≤◌}
use mathlib.Core.Path.{◌≡◌, refl, sym, subst, ap, ◌∙◌}
use mathlib.Core.Logic.{inl, inr}
use mathlib.Core.Bool.{Bool, true, false, ◌&&◌, ◌||◌}
use mathlib.Core.List.{List, [], ◌∷◌, ◌++◌, Memᴰ}
use native.Mathlib.Omega.{arith}
use molebridge.Base.Tests.{if◌then◌else◌, Bool-cases, same, same_refl}

module _ {ℓ} {A : Type ℓ} where
  abbrev pub length : List A → ℕ
  length [] = 0
  length (x ∷ xs) = suc (length xs)

  -- Whether some element passes the test: the shape of Go's search loops.
  abbrev pub any : (A → Bool) → List A → Bool
  any p [] = false
  any p (x ∷ xs) = p x || any p xs

  abbrev pub all : (A → Bool) → List A → Bool
  all p [] = true
  all p (x ∷ xs) = p x && all p xs

  -- The elements that pass the test, in order.
  abbrev pub keep : (A → Bool) → List A → List A
  keep p [] = []
  keep p (x ∷ xs) = let rest = keep p xs in if p x then x ∷ rest else rest

  -- A list of at most one element.
  abbrev pub when : Bool → A → List A
  when true x = x ∷ []
  when false x = []

  abbrev pub All {κ} : (A → Type κ) → List A → Type κ
  All P [] = Unit
  All P (x ∷ xs) = P x × All P xs

  pub All-append {κ} : (P : A → Type κ) (xs ys : List A) → All P xs → All P ys → All P (xs ++ ys)
  All-append P [] ys h k = k
  All-append P (x ∷ xs) ys h k = (h.0, All-append P xs ys h.1 k)

  pub All-Mem {κ} : (P : A → Type κ) {a : A} {xs : List A} → All P xs → Memᴰ a xs → P a
  All-Mem P h (Memᴰ.head e) = subst P (sym e) h.0
  All-Mem P h (Memᴰ.tail m) = All-Mem P h.1 m

  pub All-of_Mem {κ} : (P : A → Type κ) (xs : List A) → ((a : A) → Memᴰ a xs → P a) → All P xs
  All-of_Mem P [] f = tt
  All-of_Mem P (x ∷ xs) f = (f x (Memᴰ.head refl), All-of_Mem P xs (λ a m. f a (Memᴰ.tail m)))

  pub All-map_prop {κ μ} :
      (P : A → Type κ) (Q : A → Type μ)
      → ((a : A) → P a → Q a)
      → (xs : List A) → All P xs
      → All Q xs
  All-map_prop P Q f [] h = tt
  All-map_prop P Q f (x ∷ xs) h = (f x h.0, All-map_prop P Q f xs h.1)

  pub any-append : (p : A → Bool) (xs ys : List A) → any p (xs ++ ys) ≡ (any p xs || any p ys)
  any-append p [] ys = refl
  any-append p (x ∷ xs) ys = ground (arith, any-append p xs ys)

  pub keep-append : (p : A → Bool) (xs ys : List A) → keep p (xs ++ ys) ≡ keep p xs ++ keep p ys
  keep-append p [] ys = refl
  keep-append p (x ∷ xs) ys = ground (arith, keep-append p xs ys)

  pub All-keep {κ} : (P : A → Type κ) (p : A → Bool) (xs : List A) → All P xs → All P (keep p xs)
  All-keep P p [] h = tt
  All-keep P p (x ∷ xs) h = elim (Bool-cases (p x)) [
    | inl e ↦ rw e (h.0, All-keep P p xs h.1)
    | inr e ↦ rw e (All-keep P p xs h.1)
  ]

  -- What is kept passes the test.
  pub keep-All : (p : A → Bool) (xs : List A) → All (λ x. p x ≡ true) (keep p xs)
  keep-All p [] = tt
  keep-All p (x ∷ xs) = elim (Bool-cases (p x)) [
    | inl e ↦ rw e (e, keep-All p xs)
    | inr e ↦ rw e (keep-All p xs)
  ]

  pub Memᴰ-append_left : {a : A} {xs : List A} (ys : List A) → Memᴰ a xs → Memᴰ a (xs ++ ys)
  Memᴰ-append_left ys (Memᴰ.head e) = Memᴰ.head e
  Memᴰ-append_left ys (Memᴰ.tail m) = Memᴰ.tail (Memᴰ-append_left ys m)

  pub Memᴰ-append_right : {a : A} (xs : List A) {ys : List A} → Memᴰ a ys → Memᴰ a (xs ++ ys)
  Memᴰ-append_right [] m = m
  Memᴰ-append_right (x ∷ xs) m = Memᴰ.tail (Memᴰ-append_right xs m)

  pub Memᴰ-keep : (p : A → Bool) {a : A} (xs : List A) → p a ≡ true → Memᴰ a xs → Memᴰ a (keep p xs)
  Memᴰ-keep p [] h m = elim m [ ]
  Memᴰ-keep p (x ∷ xs) h (Memᴰ.head e) = let k : p x ≡ true = ap p (sym e) ∙ h in rw k (Memᴰ.head e)
  Memᴰ-keep p (x ∷ xs) h (Memᴰ.tail m) = elim (Bool-cases (p x)) [
    | inl e ↦ rw e (Memᴰ.tail (Memᴰ-keep p xs h m))
    | inr e ↦ rw e (Memᴰ-keep p xs h m)
  ]

  pub Memᴰ-any : (p : A → Bool) {a : A} {xs : List A} → Memᴰ a xs → p a ≡ true → any p xs ≡ true
  Memᴰ-any p (Memᴰ.head e) h = rw (← e, h)
  Memᴰ-any p (Memᴰ.tail m) h = ground (arith, Memᴰ-any p m h)

  pub any-Memᴰ : (p : A → Bool) (xs : List A) → any p xs ≡ true → (a : A) × Memᴰ a xs × (p a ≡ true)
  any-Memᴰ p [] h = cc
  any-Memᴰ p (x ∷ xs) h = elim (Bool-cases (p x)) [
    | inl e ↦ (x, Memᴰ.head refl, e)
    | inr e ↦ let (a, m, q) = any-Memᴰ p xs (ground arith) in (a, Memᴰ.tail m, q)
  ]

  pub any-All_not : (p : A → Bool) (xs : List A) → any p xs ≡ false → All (λ x. p x ≡ false) xs
  any-All_not p [] h = tt
  any-All_not p (x ∷ xs) h = (ground arith, any-All_not p xs (ground arith))

pub length-append {ℓ} : {A : Type ℓ} (xs ys : List A) → length (xs ++ ys) ≡ length xs + length ys
length-append [] ys = omega arith
length-append (x ∷ xs) ys = omega (arith, length-append xs ys)

abbrev pub b2n : Bool → ℕ
b2n true = 1
b2n false = 0

-- How many elements pass the test, and a list without the first one equal to `d`.
module _ {ℓ} {A : Type ℓ} where
  abbrev pub weight : (A → Bool) → List A → ℕ
  weight w [] = 0
  weight w (x ∷ xs) = b2n (w x) + weight w xs

  abbrev pub erase : Discrete A → A → List A → List A
  erase dec d [] = []
  erase dec d (x ∷ xs) = let rest = x ∷ erase dec d xs in if same dec x d then xs else rest

  abbrev pub erase_all : Discrete A → List A → List A → List A
  erase_all dec [] xs = xs
  erase_all dec (d ∷ ds) xs = erase_all dec ds (erase dec d xs)

  pub weight-append :
      (w : A → Bool) (xs ys : List A) → weight w (xs ++ ys) ≡ weight w xs + weight w ys
  weight-append w [] ys = omega arith
  weight-append w (x ∷ xs) ys = omega (arith, weight-append w xs ys)

  -- Taking out an element that is there lowers each count by that element.
  pub weight-erase :
      (dec : Discrete A) (w : A → Bool) (d : A) (xs : List A)
      → 1 ≤ weight (λ x. same dec x d) xs
      → weight w (erase dec d xs) + b2n (w d) ≡ weight w xs
  weight-erase dec w d [] h = absurd (omega arith)
  weight-erase dec w d (x ∷ xs) h = ground (arith, weight-erase dec w d xs)

  pub weight-erase_all :
      (dec : Discrete A) (w : A → Bool) (ds xs : List A)
      → ((d : A) → weight (λ x. same dec x d) ds ≤ weight (λ x. same dec x d) xs)
      → weight w (erase_all dec ds xs) + weight w ds ≡ weight w xs
  weight-erase_all dec w [] xs h = omega arith
  weight-erase_all dec w (d ∷ ds) xs h =
      let one : 1 ≤ weight (λ x. same dec x d) xs = ground (arith, h d, same_refl dec d) in
      omega (
        arith,
        weight-erase dec w d xs one,
        weight-erase_all dec w ds (erase dec d xs)
            (λ e. omega (arith, h e, weight-erase dec (λ x. same dec x e) d xs one)),
      )
