-- ===== src/Verdict/Judged.antt =====
-- internal/verdict/verdict.go `Assess` and `legacy`: from a verdict of connected back to the record.
use molebridge.Base.{
  ℕ, not, ◌&&◌, ◌||◌, ◌≡◌, refl, subst, ◌∙◌, inl, inr, Option, none, some, List, [], ◌∷◌, ◌++◌,
  ◌==◌, Text, bytes, Bool-cases, is_some, when, arith,
}
use molebridge.Validate.Json.{
  Json, null, boolean, whole, negative, big, float, string, array, object, Object, no_member, get,
  is_nil, is_string, as_string, members_of,
}
use molebridge.Validate.Time.{fresh}
use molebridge.Verdict.Request.{is_text, World, configured_server, egress_tier, is_true}
use molebridge.Verdict.Checks.{ExitConfig, evidence_max_age, backend}
use molebridge.Verdict.Assess.{
  or_empty, only, is_empty, say, unknown_state, ok, Target, Verdict, time_or_now, no_verdict_yet,
  unacknowledged, target_disagreement, assess_owned, with_action, legacy_reasons, legacy_ok,
  legacy_status, legacy, by_schema, assess_record, assess,
}
use molebridge.Verdict.Connected.{
  nil_of, Acknowledged, or_else-ok, unacknowledged_lem, target_disagreement_lem, Connected,
  assess_current-ok,
}

append-nil_right {ℓ} : {A : Type ℓ} (xs ys : List A) → xs ++ ys ≡ [] → ys ≡ []
append-nil_right [] ys h = h
append-nil_right (x ∷ xs) ys h = cc

only-nil {ℓ} : {A : Type ℓ} (o : Option A) → only o ≡ [] → o ≡ none
only-nil none h = refl
only-nil (some a) h = cc

module _ {F : Type 0} (w : World F) (e : ExitConfig) (m : Object F) (target : Target) where
  assess_owned-Measured :
      (base : Verdict) (selection : Object F) (now : ℕ)
      → get (bytes "schema") m ≡ some (whole 2)
      → base.state ≡ unknown_state
      → (assess_owned w e base m target selection now).state ≡ ok
      → Connected w e m target base.configured_server now
  unfolding assess_owned
  assess_owned-Measured base selection now s b h =
      elim (Bool-cases (is_string e.kind (get (bytes "kind") m))) [
        | inr k ↦ absurd (let z = rw k at h in cc)
        | inl k ↦ elim (Bool-cases (is_string e.provider (get (bytes "provider") m))) [
          | inr p ↦ absurd (let z = rw (k, p) at h in cc)
          | inl p ↦ elim (Bool-cases (is_string (backend w e) (get (bytes "backend") m))) [
            | inr q ↦ absurd (let z = rw (k, p, q) at h in cc)
            | inl q ↦
                let ((f, (ack, on)), checks) =
                  assess_current-ok w e m target base selection now b (rw (k, p, q) at h) in
                record {
                  recent = f;
                  acknowledged = ack;
                  on_target = on;
                  measured = inr (record {
                    current = s;
                    same_kind = k;
                    same_provider = p;
                    same_backend = q;
                    passed = checks;
                  });
                }
          ]
        ]
      ]

  legacy_reasons-nil :
      (base : Verdict) (tier : Text)
      → legacy_reasons w base m target tier ≡ []
      → target_disagreement w m target no_member base.configured_server ≡ none
  unfolding legacy_reasons
  legacy_reasons-nil base tier h =
      let native = get (bytes "netbird_native") m in
      let why = only (target_disagreement w m target no_member base.configured_server) in
      let no_tier = when (is_text tier []) (bytes "egress-failed") in
      let no_native = when (is_some native && not (is_true w native)) (bytes "netbird-failed") in
      let no_routing =
        when (not (is_true w (get (bytes "routing_ok") m))) (bytes "routing-failed") in
      only-nil (target_disagreement w m target no_member base.configured_server) (
        append-nil_right no_tier why (
          append-nil_right no_native (no_tier ++ why)
            (append-nil_right no_routing (no_native ++ (no_tier ++ why)) h)))

  legacy_ok-agrees :
      (base : Verdict)
      → base.state ≡ unknown_state
      → (legacy_ok w e base m target).state ≡ ok
      → target_disagreement w m target no_member base.configured_server ≡ none
  unfolding legacy_ok
  legacy_ok-agrees base b h =
      let provider = get (bytes "provider") m in
      let reasons = legacy_reasons w base m target (egress_tier w m e.provider) in
      elim (Bool-cases (is_nil provider || is_string e.provider provider)) [
        | inr p ↦ absurd (let z = rw p at h in cc)
        | inl p ↦ elim (Bool-cases (is_empty reasons)) [
          | inr q ↦ absurd (let z = rw (p, q) at h in cc)
          | inl q ↦ legacy_reasons-nil base (egress_tier w m e.provider) (nil_of reasons q)
        ]
      ]

  legacy_status-agrees :
      (base : Verdict)
      → base.state ≡ unknown_state
      → (legacy_status w e base m target).state ≡ ok
      → target_disagreement w m target no_member base.configured_server ≡ none
  unfolding legacy_status
  legacy_status-agrees base b h =
      let status = get (bytes "status") m in
      elim (Bool-cases (is_string (bytes "applying") status)) [
        | inl p ↦ absurd (let z = rw p at h in cc)
        | inr p ↦ elim (Bool-cases (is_string (bytes "failed") status)) [
          | inl q ↦ absurd (let z = rw (p, q) at h in cc)
          | inr q ↦ elim (Bool-cases (is_string (bytes "ok") status)) [
            | inr k ↦ absurd (let z = rw (p, q, k) at h in cc)
            | inl k ↦ legacy_ok-agrees base b (rw (p, q, k) at h)
          ]
        ]
      ]

  legacy-Connected :
      (base : Verdict) (now : ℕ)
      → get (bytes "schema") m ≡ none
      → base.state ≡ unknown_state
      → (legacy w e base m target now).state ≡ ok
      → Connected w e m target base.configured_server now
  unfolding legacy
  legacy-Connected base now s b h =
      let old : Verdict = record base { schema = 1 } in
      elim (Bool-cases (is_text e.kind (bytes "overlay"))) [
        | inr k ↦ absurd (let z = rw k at h in cc)
        | inl k ↦ elim (Bool-cases (fresh evidence_max_age now (get (bytes "checked_at") m))) [
          | inr f ↦ absurd (let z = rw (k, f) at h in cc)
          | inl f ↦
              let (q, z) =
                or_else-ok w e m target (unacknowledged w old m target now)
                  (legacy_status w e old m target) (unacknowledged_lem w e m target old now)
                  (rw (k, f) at h) in
              let ack : Acknowledged w e m target none =
                rw q at (unacknowledged_lem w e m target old now) in
              record {
                recent = f;
                acknowledged = ack;
                on_target =
                    target_disagreement_lem w e m target no_member base.configured_server
                      (legacy_status-agrees old b z);
                measured = inl (s, k);
              }
        ]
      ]

  with_action-state :
      (selection : Object F) (base : Verdict)
      → ((with_action w selection base).state ≡ base.state)
        × ((with_action w selection base).configured_server ≡ base.configured_server)
  unfolding with_action
  with_action-state selection base =
      let action = or_empty (as_string (get (bytes "next_action") selection)) in
      elim (Bool-cases (is_text action (bytes "recheck") || is_text action (bytes "reapply"))) [
        | inl a ↦ rw a (refl, refl)
        | inr a ↦ rw a (refl, refl)
      ]

  -- The same for each schema that a record may have.
  by_schema-Connected :
      (configured : Text) (now : ℕ) (s : Option (Json F)) (older current other : Verdict)
      → (s ≡ none → older.state ≡ ok → Connected w e m target configured now)
      → (s ≡ some (whole 2) → current.state ≡ ok → Connected w e m target configured now)
      → (other.state ≡ ok → ⊥)
      → (by_schema w s older current other).state ≡ ok
      → Connected w e m target configured now
  by_schema-Connected configured now none a b c f g k h = f refl h
  by_schema-Connected configured now (some (whole n)) a b c f g k h = elim (Bool-cases (n == 2)) [
    | inl q ↦ g (let z : n ≡ 2 = ground arith in rw z refl) (rw q at h)
    | inr q ↦ absurd (k (rw q at h))
  ]
  by_schema-Connected configured now (some null) a b c f g k h = absurd (k h)
  by_schema-Connected configured now (some (boolean _)) a b c f g k h = absurd (k h)
  by_schema-Connected configured now (some (negative _)) a b c f g k h = absurd (k h)
  by_schema-Connected configured now (some (big _ _)) a b c f g k h = absurd (k h)
  by_schema-Connected configured now (some (float _)) a b c f g k h = absurd (k h)
  by_schema-Connected configured now (some (string _)) a b c f g k h = absurd (k h)
  by_schema-Connected configured now (some (array _)) a b c f g k h = absurd (k h)
  by_schema-Connected configured now (some (object _)) a b c f g k h = absurd (k h)

  assess_record-Connected :
      (base : Verdict) (now : ℕ)
      → base.state ≡ unknown_state
      → (assess_record w e base m target now).state ≡ ok
      → Connected w e m target base.configured_server now
  unfolding assess_record
  assess_record-Connected base now b h =
      let selection = members_of (get (bytes "selection") m) in
      let second : Verdict = record base { schema = 2 } in
      let kept = with_action-state selection second in
      let begun = with_action w selection second in
      let older = legacy w e base m target now in
      let current = assess_owned w e begun m target selection now in
      let other =
        say base unknown_state (bytes "unsupported status version") (bytes "unsupported-schema") in
      by_schema-Connected base.configured_server now (get (bytes "schema") m) older current other
        (λ s z. legacy-Connected base now s b z)
        (λ s z.
          subst (λ c. Connected w e m target c now) kept.1
            (assess_owned-Measured begun selection now s (kept.0 ∙ b) z))
        (λ z. cc) h

-- A record that is judged connected was checked in the last 150 seconds; the panel's request, if
-- there is one, is acknowledged; the record's server is the one that the reader expects, unless
-- none is expected; and either it is a record of the current schema, of the reader's kind,
-- provider and backend, in which each check that the exit requires has passed, was measured in the
-- last 150 seconds and, for the checks of a server, on the record's server, with no lapsed owner
-- lease, or it is a legacy record of an overlay exit.
pub assess-Connected :
    {F : Type 0} (w : World F) (e : ExitConfig) (result : Json F) (target : Target)
    (current now : ℕ)
    → (assess w e result target current now).state ≡ ok
    → (m : Object F) × ((result ≡ object m)
        × Connected w e m target
            (or_empty (configured_server w result))
            (time_or_now w current now))
unfolding assess no_verdict_yet
assess-Connected w e (object m) target current now h =
    let base = no_verdict_yet (or_empty (configured_server w (object m))) e.kind in
    (m, (refl, assess_record-Connected w e m target base (time_or_now w current now) refl h))
assess-Connected w e null target current now h = cc
assess-Connected w e (boolean _) target current now h = cc
assess-Connected w e (whole _) target current now h = cc
assess-Connected w e (negative _) target current now h = cc
assess-Connected w e (big _ _) target current now h = cc
assess-Connected w e (float _) target current now h = cc
assess-Connected w e (string _) target current now h = cc
assess-Connected w e (array _) target current now h = cc
