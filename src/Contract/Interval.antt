-- ===== src/Contract/Interval.antt =====
-- internal/contract/config.go: the period of the full pass, in nanoseconds.
use molebridge.Base.{
  ℕ, ◌*◌, ◌≤◌, not, ◌&&◌, ◌||◌, ◌≡◌, [], ◌∷◌, leb, length, Text, bytes, arith, if◌then◌else◌,
}
use molebridge.Contract.Settings.{
  interval_range, Parsed, refused, parsed, is_uint, zero_first, decimal,
}

abbrev default_interval : ℕ
default_interval = 30_000_000_000

unfoldable interval_of : Text → Parsed ℕ
unfolding is_uint decimal
interval_of [] = parsed default_interval
interval_of (c ∷ cs) =
    let v = c ∷ cs in
    if not (is_uint v) || (zero_first v || not (leb (length v) 2))
    then refused interval_range
    else if not (leb 2 (decimal v) && leb (decimal v) 60)
    then refused interval_range
    else parsed (decimal v * 1_000_000_000)

unfoldable pub reconcile_interval : (Text → Text) → Parsed ℕ
unfolding interval_of
reconcile_interval getenv = interval_of (getenv (bytes "ROUTING_RECONCILE_INTERVAL"))

-- The period is between two seconds and a minute.
abbrev IsPeriod : ℕ → Type 0
IsPeriod n = (2_000_000_000 ≤ n) × (n ≤ 60_000_000_000)

interval_of-IsPeriod : (v : Text) (n : ℕ) → interval_of v ≡ parsed n → IsPeriod n
unfolding interval_of
interval_of-IsPeriod [] n h = ground arith
interval_of-IsPeriod (c ∷ cs) n h = ground arith

-- A period that is read, or the default, is between two seconds and a minute.
reconcile_interval-IsPeriod :
    (getenv : Text → Text) (n : ℕ) → reconcile_interval getenv ≡ parsed n → IsPeriod n
unfolding reconcile_interval
reconcile_interval-IsPeriod getenv n h =
    interval_of-IsPeriod (getenv (bytes "ROUTING_RECONCILE_INTERVAL")) n h
