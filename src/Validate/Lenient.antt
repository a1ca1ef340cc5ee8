-- ===== src/Validate/Lenient.antt =====
-- internal/validate/timestamp.go: the reading of a timestamp that Python's strptime made.
--
-- Each group of the regular expression is one or two digits in a range, since what follows the
-- group is no digit.
use molebridge.Base.{
  ℕ, ◌+◌, ◌-◌, ◌*◌, Bool, true, false, ◌&&◌, ◌||◌, Option, none, some, [], ◌∷◌, ◌==◌, Text,
  if◌then◌else◌,
}
use molebridge.Validate.Json.{Json, as_string}
use molebridge.Validate.Time.{is_digit, between, build_time, recent_at}

infixl 5 ◌>>=◌
abbrev pub ◌>>=◌ {ℓ κ} : {A : Type ℓ} {B : Type κ} → Option A → (A → Option B) → Option B
none >>= f = none
some a >>= f = f a

-- A number in the range, of one digit or of two, and the separator after it; the first of two may
-- be a space where `padded`.
unfoldable pub field : ℕ → ℕ → Bool → (ℕ → Bool) → Text → Option (ℕ × Text)
field lo hi padded sep (a ∷ b ∷ rest) =
    if is_digit a && (sep b && between lo hi (a - 48)) then some (a - 48, rest) else elim rest [
      | [] ↦ none
      | c ∷ rest' ↦
          if is_digit a && (is_digit b && (sep c && between lo hi ((a - 48) * 10 + (b - 48))))
          then some ((a - 48) * 10 + (b - 48), rest')
          else if padded && (a == 32 && (is_digit b && (sep c && between lo hi (b - 48))))
          then some (b - 48, rest')
          else none
    ]
field lo hi padded sep _ = none

unfoldable pub year_field : Text → Option (ℕ × Text)
year_field (a ∷ b ∷ c ∷ d ∷ s ∷ rest) =
    if is_digit a && (is_digit b && (is_digit c && (is_digit d && s == 45)))
    then some ((a - 48) * 1000 + (b - 48) * 100 + (c - 48) * 10 + (d - 48), rest)
    else none
year_field _ = none

-- A letter in either case.
abbrev pub letter : ℕ → ℕ → Bool
letter upper c = c == upper || c == upper + 32

abbrev pub at_end : Text → Option (Unit {0})
at_end [] = some tt
at_end (_ ∷ _) = none

unfoldable pub lenient_text : Text → Option ℕ
unfolding field year_field build_time
lenient_text s = do
  (y, s1) ← year_field s
  (mo, s2) ← field 1 12 false (λ c. c == 45) s1
  (d, s3) ← field 1 31 true (letter 84) s2
  (h, s4) ← field 0 23 false (λ c. c == 58) s3
  (mi, s5) ← field 0 59 false (λ c. c == 58) s4
  (sec, s6) ← field 0 61 false (letter 90) s5
  _ ← at_end s6
  build_time y mo d h mi sec

-- `parseLenient`
unfoldable pub parse_lenient : {F : Type 0} → Option (Json F) → Option ℕ
unfolding lenient_text
parse_lenient v = elim (as_string v) [ none ↦ none | some s ↦ lenient_text s ]

-- `Recent`
unfoldable pub recent : {F : Type 0} → ℕ → ℕ → Option (Json F) → Bool
unfolding parse_lenient recent_at
recent max now v = recent_at max now (parse_lenient v)
