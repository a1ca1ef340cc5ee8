-- ===== src/Validate/Strict.antt =====
-- internal/validate/timestamp.go: the strict and the lenient reading of one timestamp.
use molebridge.Base.{
  ℕ, ◌+◌, ◌*◌, ◌≤◌, Bool, true, false, ◌&&◌, ◌||◌, ◌≡◌, refl, ap, Option, none, some, List, [], ◌∷◌,
  ◌==◌, inl, inr, all, All, leb, Text, Bool-cases, if◌then◌else◌, arith,
}
use molebridge.Validate.Time.{
  is_digit, between, two, is_leap, days_in, date, build_time, parse_text,
}
use molebridge.Validate.Lenient.{field, year_field, letter, lenient_text}

and_both : (a b : Bool) → (a && b) ≡ true → (a ≡ true) × (b ≡ true)
and_both true b h = (refl, h)
and_both false b h = cc

all-All {ℓ} : {A : Type ℓ} (p : A → Bool) (xs : List A) → all p xs ≡ true → All (λ x. p x ≡ true) xs
all-All p [] h = tt
all-All p (x ∷ xs) h = let (a, b) = and_both (p x) (all p xs) h in (a, all-All p xs b)

taken_branch {ℓ} :
    {A : Type ℓ} (b : Bool) (o : Option A) (t : A)
    → (if b then o else none) ≡ some t
    → (b ≡ true) × (o ≡ some t)
taken_branch true o t h = (refl, h)
taken_branch false o t h = cc

days_in_le : (y mo : ℕ) → days_in y mo ≤ 31
unfolding days_in
days_in_le y mo = elim (Bool-cases (mo == 2)) [
  | inl e ↦ elim (Bool-cases (is_leap y)) [
    | inl l ↦ rw (e, l) (omega arith)
    | inr l ↦ rw (e, l) (omega arith)
  ]
  | inr e ↦ elim (Bool-cases (mo == 4 || (mo == 6 || (mo == 9 || mo == 11)))) [
    | inl l ↦ rw (e, l) (omega arith)
    | inr l ↦ rw (e, l) (omega arith)
  ]
]

-- The ranges of a time that can be built.
build_time-ranges :
    (y mo d h mi s t : ℕ)
    → build_time y mo d h mi s ≡ some t
    → (between 1 12 mo ≡ true)
      × ((between 1 31 d ≡ true)
          × ((between 0 23 h ≡ true) × ((between 0 59 mi ≡ true) × (between 0 61 s ≡ true))))
unfolding build_time
build_time-ranges y mo d h mi s t e =
    let (c, _) =
      taken_branch
        (leb 1 y
          && (between 1 12 mo
              && (leb 1 d && (leb h 23 && (leb mi 59 && (leb s 59 && leb d (days_in y mo)))))))
        (some (date y mo d h mi s)) t e in
    let (_, c1) = and_both (leb 1 y) _ c in
    let (month, c2) = and_both (between 1 12 mo) _ c1 in
    let (day, c3) = and_both (leb 1 d) _ c2 in
    let (hour, c4) = and_both (leb h 23) _ c3 in
    let (minute, c5) = and_both (leb mi 59) _ c4 in
    let (sec, last) = and_both (leb s 59) _ c5 in
    let most = days_in_le y mo in
    (month, (ground arith, (ground arith, (ground arith, ground arith))))

-- Two digits before a separator that is no digit.
field-two :
    (lo hi : ℕ) (padded : Bool) (sep : ℕ → Bool) (a b c : ℕ) (rest : Text)
    → is_digit a ≡ true
    → is_digit b ≡ true
    → sep b ≡ false
    → sep c ≡ true
    → between lo hi (two a b) ≡ true
    → field lo hi padded sep (a ∷ b ∷ c ∷ rest) ≡ some (two a b, rest)
unfolding field
field-two lo hi padded sep a b c rest da db nb sc r = rw (da, db, nb, sc, r) refl

-- A digit is none of the separators.
digit-separates :
    (c : ℕ)
    → is_digit c ≡ true
    → ((c == 45) ≡ false) × (((c == 58) ≡ false) × ((letter 84 c ≡ false) × (letter 90 c ≡ false)))
digit-separates c h = (ground arith, (ground arith, (ground arith, ground arith)))

year_four :
    (a b c d : ℕ) (rest : Text)
    → is_digit a ≡ true
    → is_digit b ≡ true
    → is_digit c ≡ true
    → is_digit d ≡ true
    → year_field (a ∷ b ∷ c ∷ d ∷ 45 ∷ rest) ≡ some (two a b * 100 + two c d, rest)
unfolding year_field
year_four a b c d rest da db dc dd =
    rw (da, db, dc, dd) (ap (λ (y : ℕ). some (y, rest)) (omega arith))

eq_of : (a b : ℕ) → (a == b) ≡ true → a ≡ b
eq_of a b h = ground arith

-- A timestamp that the strict reading accepts is accepted by the lenient one, as the same time.
pub parse_text-lenient_text : (s : Text) (t : ℕ) → parse_text s ≡ some t → lenient_text s ≡ some t
unfolding parse_text lenient_text
parse_text-lenient_text
      (y1 ∷ y2 ∷ y3 ∷ y4 ∷ a ∷ m1 ∷ m2 ∷ b ∷ d1 ∷ d2 ∷ u ∷ h1 ∷ h2 ∷ c ∷ i1 ∷ i2 ∷ e ∷ s1 ∷ s2 ∷ z
        ∷ [])
      t h =
    let marks : List (ℕ × ℕ) = (a, 45) ∷ (b, 45) ∷ (u, 84) ∷ (c, 58) ∷ (e, 58) ∷ (z, 90) ∷ [] in
    let digits : List ℕ =
      y1 ∷ y2 ∷ y3 ∷ y4 ∷ m1 ∷ m2 ∷ d1 ∷ d2 ∷ h1 ∷ h2 ∷ i1 ∷ i2 ∷ s1 ∷ s2 ∷ [] in
    let built =
      build_time (two y1 y2 * 100 + two y3 y4) (two m1 m2) (two d1 d2) (two h1 h2) (two i1 i2)
        (two s1 s2) in
    let (ok, made) =
      taken_branch (all (λ (p : ℕ × ℕ). p.0 == p.1) marks && all is_digit digits) built t h in
    let (ms, ds) = and_both (all (λ (p : ℕ × ℕ). p.0 == p.1) marks) (all is_digit digits) ok in
    let (ka, (kb, (ku, (kc, (ke, (kz, _)))))) = all-All (λ (p : ℕ × ℕ). p.0 == p.1) marks ms in
    let (p1, (p2, (p3, (p4, (q1, (q2, (r1, (r2, (v1, (v2, (w1, (w2, (x1, (x2, _)))))))))))))) =
      all-All is_digit digits ds in
    let (month, (day, (hour, (minute, sec)))) =
      build_time-ranges (two y1 y2 * 100 + two y3 y4) (two m1 m2) (two d1 d2) (two h1 h2)
        (two i1 i2) (two s1 s2) t made in
    rw (eq_of a 45 ka, eq_of b 45 kb, eq_of u 84 ku, eq_of c 58 kc, eq_of e 58 ke, eq_of z 90 kz)
      (rw
        (
          year_four y1 y2 y3 y4 _ p1 p2 p3 p4,
          field-two 1 12 false (λ k. k == 45) m1 m2 45 _ q1 q2 (digit-separates m2 q2).0 refl month,
          field-two 1 31 true (letter 84) d1 d2 84 _ r1 r2 (digit-separates d2 r2).1.1.0 refl day,
          field-two 0 23 false (λ k. k == 58) h1 h2 58 _ v1 v2 (digit-separates h2 v2).1.0 refl
              hour,
          field-two 0 59 false (λ k. k == 58) i1 i2 58 _ w1 w2 (digit-separates i2 w2).1.0 refl
              minute,
          field-two 0 61 false (letter 90) s1 s2 90 _ x1 x2 (digit-separates s2 x2).1.1.1 refl sec,
        )
        made)
parse_text-lenient_text _ t h = cc
