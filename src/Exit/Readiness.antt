-- ===== src/Exit/Readiness.antt =====
-- internal/exit/readiness.go: when the worker tells the supervisor that NetBird may run.
--
-- A time is a number of nanoseconds; the zero `time.Time` is `none`.
pub mod Messages
use molebridge.Base.{
  ℕ, ◌+◌, Bool, true, false, not, ◌&&◌, ◌||◌, Option, none, some, leb, if◌then◌else◌,
}

pub record Readiness : Type 0 where
  pub grace : ℕ
  pub sent : Bool
  pub bad_since : Option ℕ

pub data Action : Type 0 where
  act_none act_ready act_unready : Action

pub record Observation : Type 0 where
  pub now : ℕ
  pub holds : Bool
  pub tunnel_ok : Bool
  pub blocked : Bool

-- The stretch in which the contract does not hold, with this observation.
mark_bad : Observation → Option ℕ → Option ℕ
mark_bad o since = if o.holds then none else elim since [ none ↦ some o.now | some t ↦ some t ]

-- `now.Sub(r.badSince) >= r.grace`
outlasted : ℕ → ℕ → Option ℕ → Bool
outlasted grace now none = false
outlasted grace now (some t) = leb (t + grace) now

unfoldable pub step : Readiness → Observation → Readiness × Action
unfolding mark_bad outlasted
step r o =
    let since = mark_bad o r.bad_since in
    let r' = record r { bad_since = since } in
    if r.sent && (not o.holds && outlasted r.grace o.now since || o.blocked)
    then (record r' { sent = false }, act_unready)
    else if not r.sent && (not o.blocked && (o.holds && o.tunnel_ok))
    then (record r' { sent = true }, act_ready)
    else (r', act_none)

unfoldable pub mark_unready : Readiness → Readiness
mark_unready r = record r { sent = false }
