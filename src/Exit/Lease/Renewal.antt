-- ===== src/Exit/Lease/Renewal.antt =====
-- internal/exit/lease.go: what an accepted renewal says.
use molebridge.Base.{
  ℕ, ◌+◌, ◌≤◌, ◌<◌, true, false, not, ◌&&◌, ◌||◌, ap, ◌≡◌, refl, subst, inl, inr, Option, none,
  some, Option-cases, List, [], ◌∷◌, length, leb, same_refl, All, arith, Text, Text-discrete,
}
use molebridge.Exit.Lease.{
  Loops, loop_at, Msg, Reject, Lease, transit_slack, note_expiry, stale_loop, refusal, Verdict, ok,
  err, renew, accept, Call, launch, stop, renewal, status, call, run,
}

-- Each supervised loop is reported, not ahead of the clock and within its bound.
abbrev pub IsFresh : ℕ → Loops → Text × ℕ → Type 0
IsFresh now reported b =
    (at : ℕ) × (loop_at b.0 reported ≡ some at) × (at ≤ now) × (now ≤ at + (b.1 + transit_slack))

stale_loop-IsFresh :
    (now : ℕ) (reported bs : Loops)
    → stale_loop now reported bs ≡ none
    → All (IsFresh now reported) bs
unfolding stale_loop
stale_loop-IsFresh now reported [] h = tt
stale_loop-IsFresh now reported ((name, bound) ∷ bs) h =
    elim (Option-cases (loop_at name reported)) [
      | inl e ↦ absurd (let k = rw (e, stale_loop) at h in cc)
      | inr (at, e) ↦
          let k = rw (e, stale_loop) at h in
          ((at, e, ground arith, ground arith), stale_loop-IsFresh now reported bs (ground arith))
    ]

stale_loop-none :
    (now : ℕ) (reported bs : Loops)
    → All (IsFresh now reported) bs
    → stale_loop now reported bs ≡ none
unfolding stale_loop
stale_loop-none now reported [] h = refl
stale_loop-none now reported ((name, bound) ∷ bs) ((at, e, a, b), h) =
    let k = stale_loop-none now reported bs h in rw (e, stale_loop) (ground arith)

-- A renewal that the lease may accept: it is of a lease that is not revoked and has not run out, of
-- its generation, newer than the last accepted one, and reports each supervised loop, not ahead of
-- the clock and within its bound, and no other.
pub record Admissible (now : ℕ) (l : Lease) (m : Msg) : Type 0 where
  pub live : l.revoked ≡ false
  pub not_lapsed : l.lapsed ≡ false
  pub in_time : now < l.deadline
  pub same_gen : m.gen ≡ l.gen
  pub newer : l.last_seq < m.seq
  pub as_many : length m.loops ≡ length l.bounds
  pub fresh : All (IsFresh now m.loops) l.bounds

-- What the answer to a renewal says of the lease before it and after it.
abbrev pub Answered : ℕ → Lease → Msg → Lease → Verdict → Type 0
Answered now l m l' (ok t) =
    Admissible now l m
    × (t ≡ now + l.grace)
    × (l' ≡ record l { last_seq = m.seq; accepted = true; deadline = now + l.grace })
Answered now l m l' (err why) =
    (Admissible now l m → ⊥)
    × (l' ≡ record l { lapsed = l.lapsed || (not l.revoked && leb l.deadline now) })

refusal-Admissible :
    (now : ℕ) (l : Lease) (m : Msg) → refusal now (note_expiry now l) m ≡ none → Admissible now l m
unfolding refusal note_expiry
refusal-Admissible now l m h = record {
  live = ground arith;
  not_lapsed = ground arith;
  in_time = ground arith;
  same_gen = ground arith;
  newer = ground arith;
  as_many = ground arith;
  fresh = stale_loop-IsFresh now m.loops l.bounds (ground arith);
}

Admissible-refusal :
    (now : ℕ) (l : Lease) (m : Msg) → Admissible now l m → refusal now (note_expiry now l) m ≡ none
unfolding refusal note_expiry
Admissible-refusal now l m a =
    let fresh = stale_loop-none now m.loops l.bounds a.fresh in
    let live = a.live in
    let not_lapsed = a.not_lapsed in
    let in_time = a.in_time in
    let same_gen = a.same_gen in
    let newer = a.newer in let as_many = a.as_many in ground (arith, same_refl Text-discrete l.gen)

note_expiry_lem :
    (now : ℕ) (l : Lease)
    → note_expiry now l ≡ record l { lapsed = l.lapsed || (not l.revoked && leb l.deadline now) }
unfolding note_expiry
note_expiry_lem now l = ground arith

in_time_lem : (now : ℕ) (l : Lease) → now < l.deadline → note_expiry now l ≡ l
unfolding note_expiry
in_time_lem now l h = ground arith

renew-Answered :
    (now : ℕ) (l : Lease) (m : Msg) (why : Option Reject)
    → refusal now (note_expiry now l) m ≡ why
    → Answered now l m
        (renew now (note_expiry now l) m why).0
        (renew now (note_expiry now l) m why).1
unfolding renew
renew-Answered now l m none h =
    let a = refusal-Admissible now l m h in
    let same : note_expiry now l ≡ l = in_time_lem now l a.in_time in rw same (a, refl, refl)
renew-Answered now l m (some why) h =
    (λ a. let k = Admissible-refusal now l m a in cc, note_expiry_lem now l)

-- A renewal is accepted exactly when it is admissible. Then the expiry becomes the clock plus the
-- grace; a refused renewal changes nothing, the expiry included, but the mark that a lease which
-- is not revoked has passed its deadline.
pub accept-Answered :
    (now : ℕ) (l : Lease) (m : Msg) → Answered now l m (accept now l m).0 (accept now l m).1
unfolding accept
accept-Answered now l m = renew-Answered now l m (refusal now (note_expiry now l) m) refl

accepted-Answered :
    (now : ℕ) (l : Lease) (m : Msg) (t : ℕ)
    → (accept now l m).1 ≡ ok t
    → Answered now l m (accept now l m).0 (ok t)
accepted-Answered now l m t h =
    subst (Answered now l m (accept now l m).0) h (accept-Answered now l m)

-- Calls that launch no new worker.
abbrev pub NoLaunch : ℕ × Call → Type 0
NoLaunch c = elim c.1 [ launch _ ↦ ⊥ | _ ↦ Unit {0} ]

last_seq-call :
    (now : ℕ) (c : Call) (l : Lease) → NoLaunch (now, c) → l.last_seq ≤ (call now c l).last_seq
unfolding call
last_seq-call now (launch g) l n = absurd n
last_seq-call now stop l n = omega arith
last_seq-call now (renewal m) l n = ground arith
last_seq-call now (status g q) l n = ground arith

last_seq-run :
    (l : Lease) (cs : List (ℕ × Call)) → All NoLaunch cs → l.last_seq ≤ (run l cs).last_seq
unfolding run
last_seq-run l [] h = omega arith
last_seq-run l ((now, c) ∷ cs) h =
    omega (arith, last_seq-call now c l h.0, last_seq-run (call now c l) cs h.1)

-- Within a generation each accepted renewal has a higher sequence number than those accepted
-- before it, whatever calls lie between the two: a replayed renewal is never accepted.
pub accepted_in_order :
    (l : Lease) (m m' : Msg) (now later t t' : ℕ) (cs : List (ℕ × Call))
    → (accept now l m).1 ≡ ok t
    → All NoLaunch cs
    → (accept later (run (accept now l m).0 cs) m').1 ≡ ok t'
    → m.seq < m'.seq
accepted_in_order l m m' now later t t' cs h n k =
    let a = accepted-Answered now l m t h in
    let b = accepted-Answered later (run (accept now l m).0 cs) m' t' k in
    let c = last_seq-run (accept now l m).0 cs n in
    let d : (accept now l m).0.last_seq ≡ m.seq = ap (λ (x : Lease). x.last_seq) a.2 in
    omega (arith, b.0.newer, c, d)
