-- ===== src/Exit/Lease.antt =====
-- internal/exit/lease.go: the supervisor's side of the progress lease.
--
-- Durations are nanoseconds of the boot clock. Each method reads the clock once, under the mutex:
-- the reading is the argument `now`, and one call is one step. The random generation is an
-- argument. Deadlines are not wrapped: 2 ^ 63 nanoseconds are 292 years of uptime.
pub mod Renewal
pub mod Expiry
use molebridge.Base.{
  ℕ, ◌+◌, ◌*◌, Bool, true, false, not, ◌&&◌, ◌||◌, Option, none, some, List, [], ◌∷◌, ◌==◌, ltb,
  leb, same, length, bytes, Text, Text-discrete, if◌then◌else◌,
}
use molebridge.Contract.Config.{Config, is_gluetun, is_sidecar, is_gluetun_sidecar}

abbrev pub second : ℕ
second = 1_000_000_000

abbrev pub mutator_bound : ℕ
mutator_bound = 10 * second

abbrev pub loop_bound : ℕ
loop_bound = 3 * second

abbrev pub transit_slack : ℕ
transit_slack = second

abbrev pub startup_allowance : ℕ
startup_allowance = 30 * second

abbrev pub loop_mutator : Text
loop_mutator = bytes "mutator"

abbrev pub loop_watcher : Text
loop_watcher = bytes "watcher"

abbrev pub loop_fwmark : Text
loop_fwmark = bytes "fwmark"

abbrev pub loop_log : Text
loop_log = bytes "log"

-- A map from loop names, as a list of its entries.
abbrev pub Loops : Type 0
Loops = List (Text × ℕ)

pub loop_at : Text → Loops → Option ℕ
unfolding Text-discrete
loop_at name [] = none
loop_at name ((n, v) ∷ ls) =
    let rest = loop_at name ls in if same Text-discrete n name then some v else rest

without : Text → Loops → Loops
unfolding Text-discrete
without name [] = []
without name ((n, v) ∷ ls) =
    let rest = without name ls in if same Text-discrete n name then rest else (n, v) ∷ rest

-- The loops that the configuration supervises.
unfoldable pub loop_bounds : Config → Loops
unfolding without
loop_bounds c =
    let base : Loops = (loop_mutator, mutator_bound) ∷ (loop_watcher, loop_bound) ∷ [] in
    let monitors : Loops = (loop_fwmark, loop_bound) ∷ (loop_log, loop_bound) ∷ base in
    let b = if is_gluetun c && not (is_sidecar c) then monitors else base in
    if is_gluetun_sidecar c then without loop_watcher b else b

-- The part of a renewal that the lease reads.
pub record Msg : Type 0 where
  pub gen : Text
  pub seq : ℕ
  pub loops : Loops

pub data Reject : Type 0 where
  is_revoked expired stale_generation old_sequence other_loops : Reject
  loop_missing loop_in_future loop_too_old : Text → Reject

pub record Lease : Type 0 where
  pub grace : ℕ
  pub bounds : Loops
  pub gen : Text
  pub last_seq : ℕ
  pub last_status_seq : ℕ
  pub accepted : Bool
  pub deadline : ℕ
  pub revoked : Bool
  pub lapsed : Bool

unfoldable pub new_lease : ℕ → Loops → Lease
new_lease grace bounds = record {
  grace = grace;
  bounds = bounds;
  gen = [];
  last_seq = 0;
  last_status_seq = 0;
  accepted = false;
  deadline = 0;
  revoked = true;
  lapsed = false;
}

unfoldable pub new_generation : Text → ℕ → Lease → Lease
new_generation gen now l = record l {
  gen = gen;
  last_seq = 0;
  last_status_seq = 0;
  accepted = false;
  revoked = false;
  lapsed = false;
  deadline = now + startup_allowance;
}

unfoldable pub revoke : Lease → Lease
revoke l = record l { revoked = true }

unfoldable pub note_expiry : ℕ → Lease → Lease
note_expiry now l = if not l.revoked && leb l.deadline now then record l { lapsed = true } else l

-- The loop over the bounds: the first loop that is missing, ahead of the clock or too old.
unfoldable pub stale_loop : ℕ → Loops → Loops → Option Reject
unfolding loop_at
stale_loop now reported [] = none
stale_loop now reported ((name, bound) ∷ bs) =
    let rest = stale_loop now reported bs in
    elim (loop_at name reported) [
      | none ↦ some (loop_missing name)
      | some at ↦
          if ltb now at
          then some (loop_in_future name)
          else if ltb (at + (bound + transit_slack)) now
          then some (loop_too_old name)
          else rest
    ]

-- Why a renewal is refused, if it is; the lease has noted its expiry before.
unfoldable pub refusal : ℕ → Lease → Msg → Option Reject
unfolding stale_loop Text-discrete
refusal now l m =
    if l.revoked
    then some is_revoked
    else if l.lapsed
    then some expired
    else if not (same Text-discrete m.gen l.gen)
    then some stale_generation
    else if leb m.seq l.last_seq
    then some old_sequence
    else if not (length m.loops == length l.bounds)
    then some other_loops
    else stale_loop now m.loops l.bounds

pub data Verdict : Type 0 where
  ok : ℕ → Verdict
  err : Reject → Verdict

renew : ℕ → Lease → Msg → Option Reject → Lease × Verdict
renew now l m (some why) = (l, err why)
renew now l m none =
    (record l { last_seq = m.seq; accepted = true; deadline = now + l.grace }, ok (now + l.grace))

unfoldable pub accept : ℕ → Lease → Msg → Lease × Verdict
unfolding note_expiry refusal renew
accept now l m = let l' = note_expiry now l in renew now l' m (refusal now l' m)

unfoldable pub accept_status : ℕ → Lease → Text → ℕ → Lease × Bool
unfolding note_expiry Text-discrete
accept_status now l gen seq =
    let l' = note_expiry now l in
    if l'.revoked
      || (l'.lapsed || (not (same Text-discrete gen l'.gen) || leb seq l'.last_status_seq))
    then (l', false)
    else (record l' { last_status_seq = seq }, true)

unfoldable pub held : ℕ → Lease → Bool
held now l = not l.revoked && (not l.lapsed && (l.accepted && ltb now l.deadline))

unfoldable pub expiry : Lease → Option ℕ
expiry l = if l.revoked || not l.accepted then none else some l.deadline

unfoldable pub is_lapsed : ℕ → Lease → Bool
is_lapsed now l = not l.revoked && (l.lapsed || leb l.deadline now)

-- The calls of the supervisor, each at a reading of the clock.
pub data Call : Type 0 where
  launch : Text → Call
  stop : Call
  renewal : Msg → Call
  status : Text → ℕ → Call

unfoldable pub call : ℕ → Call → Lease → Lease
unfolding new_generation revoke accept accept_status
call now (launch gen) l = new_generation gen now l
call now stop l = revoke l
call now (renewal m) l = (accept now l m).0
call now (status gen seq) l = (accept_status now l gen seq).0

unfoldable pub run : Lease → List (ℕ × Call) → Lease
run l [] = l
run l ((now, c) ∷ cs) = run (call now c l) cs
