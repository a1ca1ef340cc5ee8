-- ===== src/Exit/Lease/Expiry.antt =====
-- internal/exit/lease.go: held leases and leases that ran out.
use molebridge.Base.{
  ℕ, ◌+◌, ◌≤◌, ◌<◌, leb, if◌then◌else◌, Bool, true, false, not, ◌&&◌, ◌≡◌, refl, ◌⊎◌, inl, inr,
  Option, none, some, List, [], ◌∷◌, All, arith, Bool-cases,
}
use molebridge.Exit.Lease.{
  Loops, Msg, Lease, ok, err, accept, held, is_lapsed, new_lease, Call, launch, stop, Reject,
  renewal, status, renew, refusal, call, run, note_expiry, accept_status,
}

-- Not a launch of a new worker.
abbrev pub IsLaunch : Call → Type 0
IsLaunch (launch _) = Unit
IsLaunch _ = ⊥

-- Calls of one generation, none before the time `t`.
abbrev pub LaterCall : ℕ → ℕ × Call → Type 0
LaterCall t c = (t ≤ c.0) × ¬ (IsLaunch c.1)

-- A lease that cannot be held at `t` or later.
abbrev IsDead : ℕ → Lease → Type 0
IsDead t l = (l.revoked ≡ true) ⊎ ((l.lapsed ≡ true) ⊎ (l.deadline ≤ t))

call-IsDead :
    (t now : ℕ) (c : Call) (l : Lease)
    → t ≤ now
    → ¬ (IsLaunch c)
    → IsDead t l
    → IsDead t (call now c l)
unfolding call
call-IsDead t now (launch g) l h n d = absurd (n tt)
call-IsDead t now stop l h n d = inl refl
call-IsDead t now (renewal m) l h n d = ground arith
call-IsDead t now (status g q) l h n d = ground arith

run-IsDead :
    (t : ℕ) (l : Lease) (cs : List (ℕ × Call))
    → All (LaterCall t) cs
    → IsDead t l
    → IsDead t (run l cs)
unfolding run
run-IsDead t l [] h d = d
run-IsDead t l ((now, c) ∷ cs) h d =
    run-IsDead t (call now c l) cs h.1 (call-IsDead t now c l h.0.0 h.0.1 d)

-- A lease that has run out at some time is not revived: whatever renewals, status records and
-- revocations follow in the generation, it is held at no later time.
pub lapsed_for_good :
    (t : ℕ) (l : Lease) (cs : List (ℕ × Call)) (now : ℕ)
    → is_lapsed t l ≡ true
    → All (LaterCall t) cs
    → t ≤ now
    → held now (run l cs) ≡ false
unfolding is_lapsed held
lapsed_for_good t l cs now h later le =
    let d = run-IsDead t l cs later (ground arith) in ground arith

-- The deadline is the grace after the last accepted renewal.
abbrev Since : ℕ → Option ℕ → ℕ → Type 0
Since g none d = ⊥
Since g (some t) d = d ≡ t + g

abbrev IsBacked : ℕ → Option ℕ → Lease → Type 0
IsBacked g since l =
    (l.grace ≡ g) × (l.revoked ≡ false → l.accepted ≡ true → Since g since l.deadline)

-- Since when the lease is backed after a call.
abbrev since_call : ℕ → Call → Lease → Option ℕ → Option ℕ
since_call now (launch g) l since = none
since_call now stop l since = none
since_call now (renewal m) l since = elim (accept now l m).1 [ ok _ ↦ some now | err _ ↦ since ]
since_call now (status g q) l since = since

-- The time of the last accepted renewal of the running generation, from the results alone.
pub last_renewal : Option ℕ → Lease → List (ℕ × Call) → Option ℕ
last_renewal since l [] = since
last_renewal since l ((now, c) ∷ cs) = last_renewal (since_call now c l since) (call now c l) cs

note_expiry-IsBacked :
    (g : ℕ) (since : Option ℕ) (now : ℕ) (l : Lease)
    → IsBacked g since l
    → IsBacked g since (note_expiry now l)
unfolding note_expiry
note_expiry-IsBacked g since now l b = elim (Bool-cases (not l.revoked && leb l.deadline now)) [
  | inl e ↦ rw e b
  | inr e ↦ rw e b
]

renew-IsBacked :
    (g : ℕ) (since : Option ℕ) (now : ℕ) (l : Lease) (m : Msg) (r : Option Reject)
    → IsBacked g since l
    → IsBacked g (elim (renew now l m r).1 [ ok _ ↦ some now | err _ ↦ since ]) (renew now l m r).0
unfolding renew
renew-IsBacked g since now l m none b = (b.0, λ p q. rw (b.0) refl)
renew-IsBacked g since now l m (some why) b = b

if-IsBacked :
    (g : ℕ) (since : Option ℕ) (b : Bool) (q : ℕ) (l : Lease)
    → IsBacked g since l
    → IsBacked g since (
        let out : Lease × Bool =
          if b then (l, false) else (record l { last_status_seq = q }, true) in
        out.0)
if-IsBacked g since true q l h = h
if-IsBacked g since false q l h = h

call-IsBacked :
    (g : ℕ) (since : Option ℕ) (now : ℕ) (c : Call) (l : Lease)
    → IsBacked g since l
    → IsBacked g (since_call now c l since) (call now c l)
unfolding call
call-IsBacked g since now (launch x) l b = (b.0, λ p q. cc)
call-IsBacked g since now stop l b = (b.0, λ p q. cc)
call-IsBacked g since now (renewal m) l b =
    let b' = note_expiry-IsBacked g since now l b in
    unfold accept in
    renew-IsBacked g since now (note_expiry now l) m (refusal now (note_expiry now l) m) b'
call-IsBacked g since now (status x q) l b =
    unfold accept_status in
    if-IsBacked g since _ q (note_expiry now l) (note_expiry-IsBacked g since now l b)

run-IsBacked :
    (g : ℕ) (since : Option ℕ) (l : Lease) (cs : List (ℕ × Call))
    → IsBacked g since l
    → IsBacked g (last_renewal since l cs) (run l cs)
unfolding last_renewal run
run-IsBacked g since l [] b = b
run-IsBacked g since l ((now, c) ∷ cs) b =
    run-IsBacked g (since_call now c l since) (call now c l) cs (call-IsBacked g since now c l b)

-- A held lease rests on a renewal accepted in the running generation, less than the grace ago.
pub held_since :
    (grace : ℕ) (bounds : Loops) (cs : List (ℕ × Call)) (now : ℕ)
    → held now (run (new_lease grace bounds) cs) ≡ true
    → (t : ℕ) × (last_renewal none (new_lease grace bounds) cs ≡ some t) × (now < t + grace)
unfolding held
held_since grace bounds cs now h =
    from_backed (last_renewal none l cs)
      (run-IsBacked grace none l cs (unfold new_lease in (refl, λ p q. cc)))
  where
    l : Lease
    l = new_lease grace bounds

    from_backed :
        (s : Option ℕ) → IsBacked grace s (run l cs) → (t : ℕ) × (s ≡ some t) × (now < t + grace)
    from_backed none b = absurd (b.1 (ground arith) (ground arith))
    from_backed (some t) b = (t, refl, ground (arith, b.1 (ground arith) (ground arith)))
