-- ===== src/Validate/Time.antt =====
-- internal/validate/timestamp.go: the two readings of the state files' timestamps.
--
-- A time is the number of seconds since the start of the year 1, UTC, which is Go's zero time; the
-- current time is in nanoseconds since then. Go's difference in float64 is compared with whole
-- seconds only, where it is exact. `time.Date` on a valid calendar date is written out.
use molebridge.Base.{
  ℕ, ◌+◌, ◌-◌, ◌*◌, ◌/◌, ◌%◌, ◌^◌, Bool, false, not, ◌&&◌, ◌||◌, Option, none, some, [], ◌∷◌, ◌==◌,
  leb, all, Text, if◌then◌else◌,
}
use molebridge.Validate.Json.{Json, as_string}

-- The nanoseconds of a second.
abbrev pub second : ℕ
second = 10 ^ 9

abbrev pub is_digit : ℕ → Bool
is_digit c = leb 48 c && leb c 57

abbrev pub between : ℕ → ℕ → ℕ → Bool
between a b n = leb a n && leb n b

abbrev pub two : ℕ → ℕ → ℕ
two a b = (a - 48) * 10 + (b - 48)

unfoldable pub is_leap : ℕ → Bool
is_leap y = y % 4 == 0 && (not (y % 100 == 0) || y % 400 == 0)

unfoldable pub days_in : ℕ → ℕ → ℕ
unfolding is_leap
days_in y m =
    if m == 2
    then (if is_leap y then 29 else 28)
    else if m == 4 || (m == 6 || (m == 9 || m == 11))
    then 30
    else 31

-- The days of the year before a month.
unfoldable pub days_before : ℕ → ℕ → ℕ
unfolding days_in
days_before y ℕ.zero = 0
days_before y (ℕ.suc m) = if m == 0 then 0 else days_before y m + days_in y m

unfoldable pub date : ℕ → ℕ → ℕ → ℕ → ℕ → ℕ → ℕ
unfolding days_before
date y mo d h mi s =
    let p = y - 1 in
    let days = 365 * p + p / 4 + p / 400 - p / 100 + days_before y mo + (d - 1) in
    days * 86400 + h * 3600 + mi * 60 + s

unfoldable pub build_time : ℕ → ℕ → ℕ → ℕ → ℕ → ℕ → Option ℕ
unfolding days_in date
build_time y mo d h mi s =
    if leb 1 y
      && (between 1 12 mo
          && (leb 1 d && (leb h 23 && (leb mi 59 && (leb s 59 && leb d (days_in y mo))))))
    then some (date y mo d h mi s)
    else none

-- `ParseTime` of a string: the twenty characters, each in its place.
unfoldable pub parse_text : Text → Option ℕ
unfolding build_time
parse_text
      (y1 ∷ y2 ∷ y3 ∷ y4 ∷ a ∷ m1 ∷ m2 ∷ b ∷ d1 ∷ d2 ∷ t ∷ h1 ∷ h2 ∷ c ∷ i1 ∷ i2 ∷ e ∷ s1 ∷ s2 ∷ z
        ∷ []) =
    if all (λ (p : ℕ × ℕ). p.0 == p.1)
        ((a, 45) ∷ (b, 45) ∷ (t, 84) ∷ (c, 58) ∷ (e, 58) ∷ (z, 90) ∷ [])
      && all is_digit (y1 ∷ y2 ∷ y3 ∷ y4 ∷ m1 ∷ m2 ∷ d1 ∷ d2 ∷ h1 ∷ h2 ∷ i1 ∷ i2 ∷ s1 ∷ s2 ∷ [])
    then build_time (two y1 y2 * 100 + two y3 y4) (two m1 m2) (two d1 d2) (two h1 h2) (two i1 i2)
        (two s1 s2)
    else none
parse_text _ = none

-- `ParseTime`
unfoldable pub parse_time : {F : Type 0} → Option (Json F) → Option ℕ
unfolding parse_text
parse_time v = elim (as_string v) [ none ↦ none | some s ↦ parse_text s ]

-- Whether the time is not in the future and at most `max` seconds old.
unfoldable pub recent_at : ℕ → ℕ → Option ℕ → Bool
recent_at max now none = false
recent_at max now (some t) = leb (t * second) now && leb now ((t + max) * second)

-- `Fresh`
unfoldable pub fresh : {F : Type 0} → ℕ → ℕ → Option (Json F) → Bool
unfolding parse_time recent_at
fresh max now v = recent_at max now (parse_time v)
