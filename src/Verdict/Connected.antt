-- ===== src/Verdict/Connected.antt =====
-- internal/verdict/verdict.go `Assess`: what a verdict of connected stands for.
use molebridge.Base.{
  ℕ, Bool, true, false, not, ◌&&◌, ◌||◌, ◌≡◌, refl, ◌⊎◌, inl, inr, Option, none, some, List, [],
  ◌∷◌, All, Text, bytes, Bool-cases, Option-cases, if◌then◌else◌, arith,
}
use molebridge.Validate.Json.{Json, whole, string, object, Object, get, is_string}
use molebridge.Validate.Time.{fresh}
use molebridge.Verdict.Request.{is_text, World, Request, request_token}
use molebridge.Verdict.Checks.{
  Checks, ExitConfig, Reading, evidence_max_age, required_checks, backend, read_each, checks_agree,
  none_yet, fixed_checks, read_required, read_checks,
}
use molebridge.Verdict.Passed.{Passed, IsClean, read_each-Passed}
use molebridge.Verdict.Assess.{
  is_empty, say, unknown_state, applying, ok, Target, Verdict, pending_request, or_else,
  unless_acknowledged, unacknowledged, target_disagreement, connected, judge_problems,
  judge_reading, egress_unverified, assess_current,
}

-- The server that the reader expects: its own lock, the record's, or the request's.
abbrev pub expected_server : Target → Text → Text
expected_server target configured =
    if is_text target.source (bytes "configured") || is_text configured []
    then target.server
    else configured

and_left : (a b : Bool) → (a && b) ≡ true → a ≡ true
and_left true b h = refl
and_left false b h = h

pub nil_of {ℓ} : {A : Type ℓ} (xs : List A) → is_empty xs ≡ true → xs ≡ []
nil_of [] h = refl
nil_of (x ∷ xs) h = cc

agreed : (b : Bool) (why : Text) → (if b then none else some why) ≡ none → b ≡ true
agreed true why h = refl
agreed false why h = cc

module _ {F : Type 0} (w : World F) (e : ExitConfig) (m : Object F) (target : Target) where
  -- The record has the reader's kind, provider and backend, and every check that the exit requires
  -- passed.
  pub record Measured (now : ℕ) : Type 0 where
    pub current : get (bytes "schema") m ≡ some (whole 2)
    pub same_kind : is_string e.kind (get (bytes "kind") m) ≡ true
    pub same_provider : is_string e.provider (get (bytes "provider") m) ≡ true
    pub same_backend : is_string (backend w e) (get (bytes "backend") m) ≡ true
    pub passed :
        (raw : Object F) × ((get (bytes "checks") m ≡ some (object raw))
          × All
              (Passed w e (get (bytes "server") m) now raw)
              (required_checks e.kind (backend w e)))

  -- What holds of a record that is judged connected.
  pub record Connected (configured : Text) (now : ℕ) : Type 0 where
    pub recent : fresh evidence_max_age now (get (bytes "checked_at") m) ≡ true
    pub acknowledged :
        (r : Request)
        → target.request ≡ some r
        → is_text target.source (bytes "panel") ≡ true
        → is_string (request_token r) (get (bytes "request_id") m) ≡ true
    pub on_target :
        (is_text (expected_server target configured) [] ≡ true)
        ⊎ (is_string (expected_server target configured) (get (bytes "server") m) ≡ true)
    pub measured :
        ((get (bytes "schema") m ≡ none) × (is_text e.kind (bytes "overlay") ≡ true)) ⊎ Measured now

  pending-some :
      (base : Verdict) (now : ℕ) (r : Request)
      → (v : Verdict) × ((pending_request w base now r ≡ some v) × ((v.state ≡ ok) → ⊥))
  unfolding pending_request
  pending-some base now r =
      let at : Option (Json F) = some (string r.requested_at) in
      elim (Bool-cases (fresh evidence_max_age now at)) [
        | inl f ↦ rw f (_, (refl, λ q. cc))
        | inr f ↦ rw f (_, (refl, λ q. cc))
      ]

  abbrev pub Acknowledged : Option Verdict → Type 0
  Acknowledged none =
      (r : Request)
      → target.request ≡ some r
      → is_text target.source (bytes "panel") ≡ true
      → is_string (request_token r) (get (bytes "request_id") m) ≡ true
  Acknowledged (some v) = v.state ≡ ok → ⊥

  unless_acknowledged_lem :
      (base : Verdict) (now : ℕ) (q : Option Request)
      → target.request ≡ q
      → Acknowledged (unless_acknowledged w base m target.source now q)
  unfolding unless_acknowledged
  unless_acknowledged_lem base now none h = λ r k p. absurd (cc)
  unless_acknowledged_lem base now (some r) h =
      elim (Bool-cases (is_text target.source (bytes "panel"))) [
        | inr p ↦ rw p (λ r' k p'. absurd (cc))
        | inl p ↦ elim (Bool-cases (is_string (request_token r) (get (bytes "request_id") m))) [
          | inl t ↦ rw (p, t) (λ r' k p'. let q : r ≡ r' = cc in rw (← q) t)
          | inr t ↦ let (v, (k, bad)) = pending-some base now r in rw (p, t, k) bad
        ]
      ]

  pub unacknowledged_lem :
      (base : Verdict) (now : ℕ) → Acknowledged (unacknowledged w base m target now)
  unfolding unacknowledged
  unacknowledged_lem base now = unless_acknowledged_lem base now target.request refl

  -- A verdict that is connected came from the rules after the request.
  pub or_else-ok :
      (o : Option Verdict) (v : Verdict)
      → Acknowledged o
      → (or_else o v).state ≡ ok
      → (o ≡ none) × (v.state ≡ ok)
  or_else-ok none v a h = (refl, h)
  or_else-ok (some u) v a h = absurd (a h)

  pub target_disagreement_lem :
      (selection : Object F) (configured : Text)
      → target_disagreement w m target selection configured ≡ none
      → (is_text (expected_server target configured) [] ≡ true)
        ⊎ (is_string (expected_server target configured) (get (bytes "server") m) ≡ true)
  unfolding target_disagreement
  target_disagreement_lem selection configured h =
      elim (Bool-cases (is_text target.source (bytes "configured"))) [
        | inl c ↦ inr (rw c (agreed _ _ (rw c at h)))
        | inr c ↦ elim (Bool-cases (is_text configured [])) [
          | inr u ↦ inr (rw (c, u) (agreed _ _ (rw (c, u) at h)))
          | inl u ↦ elim (Bool-cases (is_text target.server [])) [
            | inl z ↦ inl (rw (c, u) z)
            | inr z ↦ elim (Bool-cases (is_text target.source (bytes "panel"))) [
              | inr p ↦ inr (rw (c, u) (agreed _ _ (rw (c, u, p, z) at h)))
              | inl p ↦ let both = agreed _ _ (rw (c, u, p) at h) in inr (rw (c, u) (ground arith))
            ]
          ]
        ]
      ]

  -- What the last rules find of a record whose reading is clean.
  abbrev Clear : Text → Reading → Type 0
  Clear configured r =
      IsClean r
      × ((is_text (expected_server target configured) [] ≡ true)
          ⊎ (is_string (expected_server target configured) (get (bytes "server") m) ≡ true))

  connected-ok :
      (base : Verdict) (selection : Object F) (message : Option Text) (cs : Checks)
      → (connected w base m target selection message cs).state ≡ ok
      → target_disagreement w m target selection base.configured_server ≡ none
  unfolding connected
  connected-ok base selection message cs h =
      elim (Option-cases (target_disagreement w m target selection base.configured_server)) [
        | inl q ↦ q
        | inr (why, q) ↦ absurd (let k = rw q at h in cc)
      ]

  judge_problems-ok :
      (base : Verdict) (selection : Object F) (message : Option Text) (rejected : Bool)
      (r : Reading)
      → base.state ≡ unknown_state
      → (judge_problems w base m target selection message rejected r).state ≡ ok
      → Clear base.configured_server r
  unfolding judge_problems
  judge_problems-ok base selection message rejected r b h =
      elim (Bool-cases (not (is_empty r.failed) || rejected)) [
        | inl f ↦ absurd (let k = rw f at h in cc)
        | inr f ↦ elim (Bool-cases (is_empty r.expired)) [
          | inr x ↦ absurd (let k = rw (f, x, b) at h in cc)
          | inl x ↦ elim (Bool-cases (is_string (bytes "failed") (get (bytes "status") m))) [
            | inl s ↦ absurd (let k = rw (f, x, s) at h in cc)
            | inr s ↦ elim (Bool-cases (is_empty r.unmeasured)) [
              | inr u ↦ absurd (let k = rw (f, x, s, u, b) at h in cc)
              | inl u ↦ elim (Bool-cases (is_string (bytes "ok") (get (bytes "status") m))) [
                | inr k ↦ absurd (let z = rw (f, x, s, u, k) at h in cc)
                | inl k ↦
                    let shown : Verdict = record base { checks = r.display } in
                    let d =
                      connected-ok shown selection message r.display (rw (f, x, s, u, k) at h) in
                    (
                      (nil_of r.failed (ground arith), nil_of _ x, nil_of _ u),
                      target_disagreement_lem selection base.configured_server d,
                    )
              ]
            ]
          ]
        ]
      ]

  judge_reading-ok :
      (base : Verdict) (selection : Object F) (rv : Reading × Bool)
      → base.state ≡ unknown_state
      → (judge_reading w e base m target selection rv).state ≡ ok
      → (rv.1 ≡ true) × Clear base.configured_server rv.0
  unfolding judge_reading
  judge_reading-ok base selection (r, false) b h = cc
  judge_reading-ok base selection (r, true) b h =
      let outcome = get (bytes "outcome") selection in
      let rejected =
        is_string (bytes "rejected") outcome || is_string (bytes "mutation-failed") outcome in
      elim (Bool-cases (not rejected && egress_unverified w e m r.failed)) [
        | inl q ↦ absurd (let k = rw q at h in cc)
        | inr q ↦ (refl, judge_problems-ok base selection _ rejected r b (rw q at h))
      ]

  read_required-Passed :
      (now : ℕ) (v : Option (Json F))
      → (read_required w e m now v).1 ≡ true
      → IsClean (read_required w e m now v).0
      → (raw : Object F) × ((v ≡ some (object raw))
          × All
              (Passed w e (get (bytes "server") m) now raw)
              (required_checks e.kind (backend w e)))
  unfolding read_required
  read_required-Passed now (some (object raw)) h c =
      let required = required_checks e.kind (backend w e) in
      let start = none_yet (fixed_checks e.kind (backend w e)) in
      let loop = read_each w e (get (bytes "server") m) now raw required start in
      let whole_loop = and_left loop.1 (checks_agree required raw m loop.0.display) h in
      let all = read_each-Passed w e (get (bytes "server") m) now raw required start whole_loop c in
      (raw, (refl, all.1))
  read_required-Passed now none h c = cc
  read_required-Passed now (some v) h c = cc

  -- What the rules from the fifth on find.
  abbrev pub Current : Text → ℕ → Type 0
  Current configured now =
      (fresh evidence_max_age now (get (bytes "checked_at") m) ≡ true)
      × (((r : Request)
            → target.request ≡ some r
            → is_text target.source (bytes "panel") ≡ true
            → is_string (request_token r) (get (bytes "request_id") m) ≡ true)
          × ((is_text (expected_server target configured) [] ≡ true)
              ⊎ (is_string (expected_server target configured) (get (bytes "server") m) ≡ true)))

  pub assess_current-ok :
      (base : Verdict) (selection : Object F) (now : ℕ)
      → base.state ≡ unknown_state
      → (assess_current w e base m target selection now).state ≡ ok
      → Current base.configured_server now
        × ((raw : Object F) × ((get (bytes "checks") m ≡ some (object raw))
              × All
                  (Passed w e (get (bytes "server") m) now raw)
                  (required_checks e.kind (backend w e))))
  unfolding assess_current read_checks
  assess_current-ok base selection now b h =
      elim (Bool-cases (fresh evidence_max_age now (get (bytes "checked_at") m))) [
        | inr f ↦ absurd (let k = rw f at h in cc)
        | inl f ↦ elim (Bool-cases (is_string (bytes "applying") (get (bytes "status") m))) [
          | inl s ↦
              let later = say base applying (bytes "switching") (bytes "applying") in
              let (q, k) =
                or_else-ok (unacknowledged w base m target now) later (unacknowledged_lem base now)
                  (rw (f, s) at h) in
              absurd (cc)
          | inr s ↦
              let reading = read_checks w e m now in
              let later = judge_reading w e base m target selection reading in
              let (q, k) =
                or_else-ok (unacknowledged w base m target now) later (unacknowledged_lem base now)
                  (rw (f, s) at h) in
              let (v, (clean, on)) = judge_reading-ok base selection reading b k in
              let ack : Acknowledged none = rw q at (unacknowledged_lem base now) in
              ((f, (ack, on)), read_required-Passed now (get (bytes "checks") m) v clean)
        ]
      ]
