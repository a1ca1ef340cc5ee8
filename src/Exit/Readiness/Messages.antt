-- ===== src/Exit/Readiness/Messages.antt =====
-- internal/exit/readiness.go: what each message says of the observations before it.
use molebridge.Base.{
  ℕ, ◌+◌, ◌≤◌, Bool, true, false, not, ◌&&◌, ◌≡◌, ap, ◌∙◌, refl, ◌⊎◌, inl, inr, Option, none, some,
  List, [], ◌∷◌, ◌++◌, Bool-cases, any, if◌then◌else◌, All, arith,
}
use molebridge.Exit.Readiness.{
  Readiness, Action, act_ready, act_unready, Observation, step, mark_bad,
}

-- The state after a list of observations.
abbrev pub steps : Readiness → List Observation → Readiness
steps r [] = r
steps r (o ∷ os) = steps (step r o).0 os

-- The messages sent along the way.
pub messages : Readiness → List Observation → List Action
messages r [] = []
messages r (o ∷ os) = let (r', a) = step r o in a ∷ messages r' os

abbrev IsBad : Observation → Type 0
IsBad o = o.holds ≡ false

-- Ready is sent only when the contract holds, the tunnel is up and nothing blocks.
pub ready_means :
    (r : Readiness) (o : Observation)
    → (step r o).1 ≡ act_ready
    → (o.holds ≡ true) × (o.tunnel_ok ≡ true) × (o.blocked ≡ false) × (r.sent ≡ false)
unfolding step
ready_means r o h = ground arith

steps-append :
    (r : Readiness) (xs ys : List Observation) → steps r (xs ++ ys) ≡ steps (steps r xs) ys
steps-append r [] ys = refl
steps-append r (x ∷ xs) ys = steps-append (step r x).0 xs ys

grace-steps : (r : Readiness) (os : List Observation) → (steps r os).grace ≡ r.grace
grace-steps r [] = refl
grace-steps r (o ∷ os) = grace-steps (step r o).0 os ∙ (unfold step in ground arith)

-- A stretch at the end of the observations in which the contract did not hold, from time `t`.
abbrev pub Stretch : ℕ → List Observation → Type 0
Stretch t os =
    (before : List Observation) × (first : Observation) × (mid : List Observation) × (os
      ≡ before ++ first ∷ mid)
    × (first.now ≡ t)
    × All (λ o. o.holds ≡ false) (first ∷ mid)

begun :
    (r : Readiness) (o : Observation) (t : ℕ)
    → (step r o).0.bad_since ≡ some t
    → ((r.bad_since ≡ some t) × IsBad o) ⊎ ((o.now ≡ t) × IsBad o)
unfolding step
begun r o t e = ground arith

IsBad-Stretch :
    (r : Readiness) (os : List Observation) (t : ℕ)
    → (steps r os).bad_since ≡ some t
    → ((r.bad_since ≡ some t) × All IsBad os) ⊎ Stretch t os
IsBad-Stretch r [] t h = inl (h, tt)
IsBad-Stretch r (o ∷ os) t h = elim (IsBad-Stretch (step r o).0 os t h) [
  | inr (pre, first, mid, e, n, b) ↦ inr (o ∷ pre, first, mid, ap (λ xs. o ∷ xs) e, n, b)
  | inl (e, b) ↦ elim (begun r o t e) [
    | inl (p, q) ↦ inl (p, (q, b))
    | inr (p, q) ↦ inr ([], o, os, refl, p, (q, b))
  ]
]

abbrev pub fresh : ℕ → Readiness
fresh grace = record { grace = grace; sent = false; bad_since = none }

bad_since-step : (r : Readiness) (o : Observation) → (step r o).0.bad_since ≡ mark_bad o r.bad_since
unfolding step
bad_since-step r o = ground arith

since_outlasted :
    (r : Readiness) (o : Observation) (since : Option ℕ)
    → mark_bad o r.bad_since ≡ since
    → (step r o).1 ≡ act_unready
    → (o.blocked ≡ true) ⊎ ((t : ℕ) × (since ≡ some t) × (t + r.grace ≤ o.now))
unfolding step
since_outlasted r o none e h = ground arith
since_outlasted r o (some t) e h = elim (Bool-cases o.blocked) [
  | inl b ↦ inl b
  | inr b ↦ inr (t, refl, ground arith)
]

-- Unready is sent only when the profile check blocks, or when the contract held at none of the
-- observations of a stretch that reaches back from this one by at least the grace.
pub unready_means :
    (grace : ℕ) (os : List Observation) (o : Observation)
    → (step (steps (fresh grace) os) o).1 ≡ act_unready
    → (o.blocked ≡ true) ⊎ ((t : ℕ) × (t + grace ≤ o.now) × Stretch t (os ++ o ∷ []))
unready_means grace os o h = decide (since_outlasted r o (mark_bad o r.bad_since) refl h)
  where
    r : Readiness
    r = steps (fresh grace) os

    decide :
        (o.blocked ≡ true) ⊎ ((t : ℕ) × (mark_bad o r.bad_since ≡ some t) × (t + r.grace ≤ o.now))
        → (o.blocked ≡ true) ⊎ ((t : ℕ) × (t + grace ≤ o.now) × Stretch t (os ++ o ∷ []))
    decide (inl b) = inl b
    decide (inr (t, e, n)) =
        elim (IsBad-Stretch (fresh grace) (os ++ o ∷ []) t
          (rw (steps-append (fresh grace) os (o ∷ [])) (bad_since-step r o ∙ e))) [
            | inl (p, _) ↦ absurd (cc)
            | inr st ↦ inr (t, omega (arith, n, grace-steps (fresh grace) os), st)
          ]

abbrev pub is_unready : Action → Bool
is_unready act_unready = true
is_unready _ = false

reported :
    (r : Readiness) (mid : List Observation) (last : Observation) (t : ℕ)
    → r.sent ≡ true
    → r.bad_since ≡ some t
    → All IsBad (mid ++ last ∷ [])
    → t + r.grace ≤ last.now
    → any is_unready (messages r (mid ++ last ∷ [])) ≡ true
unfolding messages
reported r [] last t s e b n = unfold step in ground arith
reported r (o ∷ mid) last t s e b n = elim (Bool-cases (is_unready (step r o).1)) [
  | inl u ↦ rw u refl
  | inr u ↦ rw u (
      reported (step r o).0 mid last t (unfold step in ground arith) (unfold step in ground arith)
        b.1 (unfold step in ground arith))
]

-- A contract that stays broken for the grace is reported: from a state in which ready was sent,
-- observations at none of which the contract holds, the last one at least the grace after the
-- first, send unready.
pub outage_reported :
    (r : Readiness) (first : Observation) (mid : List Observation) (last : Observation)
    → r.sent ≡ true
    → r.bad_since ≡ none
    → All (λ o. o.holds ≡ false) (first ∷ (mid ++ last ∷ []))
    → first.now + r.grace ≤ last.now
    → any is_unready (messages r (first ∷ (mid ++ last ∷ []))) ≡ true
unfolding messages
outage_reported r first mid last s e b n = elim (Bool-cases (is_unready (step r first).1)) [
  | inl u ↦ rw u refl
  | inr u ↦ rw u (
      reported (step r first).0 mid last first.now (unfold step in ground arith)
        (unfold step in ground arith) b.1 (unfold step in ground arith))
]

abbrev is_ready : Action → Bool
is_ready act_ready = true
is_ready _ = false

-- Each ready comes when none is outstanding, each unready when one is.
pub alternate : Bool → List Action → Bool
alternate sent [] = true
alternate sent (a ∷ as') =
    let rest = alternate (if is_ready a then true else if is_unready a then false else sent) as' in
    not (sent && is_ready a) && (not (not sent && is_unready a) && rest)

sent-step :
    (r : Readiness) (o : Observation)
    → let a = (step r o).1 in
      ((step r o).0.sent ≡ (if is_ready a then true else if is_unready a then false else r.sent))
      × (not (r.sent && is_ready a) ≡ true)
      × (not (not r.sent && is_unready a) ≡ true)
unfolding step
sent-step r o = ground arith

-- Over any observations, ready and unready messages alternate, from what was sent before.
messages-alternate :
    (r : Readiness) (os : List Observation) → alternate r.sent (messages r os) ≡ true
unfolding alternate messages
messages-alternate r [] = refl
messages-alternate r (o ∷ os) =
    let (s, a, b) = sent-step r o in rw (a, b, ← s) (messages-alternate (step r o).0 os)
