-- ===== src/Verdict/Assess.antt =====
-- internal/verdict/verdict.go `Assess`: the order of the rules that judge a record.
--
-- Each rule that may return early is one function, which calls the next one. A time `now` of 0 is
-- Go's zero time; `current` is what time.Now() says.
use molebridge.Base.{
  ℕ, Bool, true, false, not, ◌&&◌, ◌||◌, Option, none, some, List, [], ◌∷◌, ◌++◌, ◌==◌, any, map,
  Text, bytes, Text-discrete, if◌then◌else◌, is_some, when,
}
use molebridge.Validate.Json.{
  Json, whole, string, object, Object, no_member, get, members_of, as_string, is_string, is_nil,
  same_values,
}
use molebridge.Validate.Time.{fresh, parse_time}
use molebridge.Verdict.Request.{
  is_text, World, Request, request_token, configured_server, desired_request, egress_tier, is_true,
}
use molebridge.Verdict.Checks.{
  CheckName, routing, netbird, owner_record, peer, handshake, egress, traffic_protection,
  app_attachment, n_a, legacy_state, Checks, ExitConfig, Reading, name_text, evidence_max_age,
  is_sidecar_kind, backend, gluetun_sidecar, read_checks, is_name, CheckName-discrete,
}

pub data Standing : Type 0 where
  unknown_state applying failed ok : Standing

pub record Target : Type 0 where
  pub server : Text
  pub source : Text
  pub request : Option Request

pub record Verdict : Type 0 where
  pub state : Standing
  pub label : Text
  pub reasons : List Text
  pub message : Option Text
  pub tier : Text
  pub checks : Checks
  pub schema : ℕ
  pub kind : Text
  pub configured_server : Text
  pub next_action : Text
  pub next_action_at : Text

abbrev pub or_empty : Option Text → Text
or_empty none = []
or_empty (some t) = t

unfoldable pub no_verdict_yet : Text → Text → Verdict
no_verdict_yet configured kind = record {
  state = unknown_state;
  label = [];
  reasons = [];
  message = none;
  tier = [];
  checks = [];
  schema = 0;
  kind = kind;
  configured_server = configured;
  next_action = [];
  next_action_at = [];
}

-- An early return of a verdict.
abbrev pub or_else : Option Verdict → Verdict → Verdict
or_else none later = later
or_else (some v) later = v

abbrev pub only {ℓ} : {A : Type ℓ} → Option A → List A
only none = []
only (some a) = a ∷ []

abbrev pub if_disputed : Option Text → (Text → Verdict) → Verdict → Verdict
if_disputed none disputed agreed = agreed
if_disputed (some why) disputed agreed = disputed why

abbrev pub is_empty {ℓ} : {A : Type ℓ} → List A → Bool
is_empty [] = true
is_empty (_ ∷ _) = false

-- A verdict on the base, with one reason.
abbrev pub say : Verdict → Standing → Text → Text → Verdict
say base s label reason = record base { state = s; label = label; reasons = reason ∷ [] }

abbrev pub suffixed : Text → List CheckName → List Text
suffixed suffix ns = map (λ n. name_text n ++ suffix) ns

abbrev pub sources_of_its_own : List Text
sources_of_its_own =
    bytes "restore"
    ∷ bytes "reconverge"
    ∷ bytes "retry"
    ∷ bytes "operator-retry"
    ∷ bytes "failover"
    ∷ []

module _ {F : Type 0} (w : World F) where
  abbrev pub time_or_now : ℕ → ℕ → ℕ
  time_or_now current now = if now == 0 then current else now

  -- `unacknowledged`: the verdict while the panel's request is not acknowledged.
  unfoldable pub pending_request : Verdict → ℕ → Request → Option Verdict
  unfolding fresh
  pending_request base now r =
      let at : Option (Json F) = some (string r.requested_at) in
      if fresh evidence_max_age now at
      then some (say base applying (bytes "switching") (bytes "request-pending"))
      else some (
          say base unknown_state (bytes "request not acknowledged")
            (bytes "request-not-acknowledged"))

  unfoldable pub unless_acknowledged :
      Verdict → Object F → Text → ℕ → Option Request → Option Verdict
  unfolding pending_request request_token get Text-discrete
  unless_acknowledged base m source now none = none
  unless_acknowledged base m source now (some r) =
      if not (is_text source (bytes "panel"))
        || is_string (request_token r) (get (bytes "request_id") m)
      then none
      else pending_request base now r

  unfoldable pub unacknowledged : Verdict → Object F → Target → ℕ → Option Verdict
  unfolding unless_acknowledged
  unacknowledged base m target now = unless_acknowledged base m target.source now target.request

  -- `targetDisagreement`: whether the record's server is not the reader's target, and why.
  unfoldable pub target_disagreement : Object F → Target → Object F → Text → Option Text
  unfolding get same_values Text-discrete
  target_disagreement m target selection configured =
      let server = get (bytes "server") m in
      let unless = λ (agrees : Bool) (why : Text). if agrees then none else some why in
      let locked = not (is_text configured []) in
      if is_text target.source (bytes "configured") || locked
      then unless
          (is_string
            (if is_text target.source (bytes "configured") then target.server else configured)
            server)
          (bytes "not-configured-server")
      else if is_text target.source (bytes "panel")
      then unless
          (is_string target.server server
            && is_string target.server (get (bytes "requested_server") m))
          (bytes "not-requested-server")
      else if not (is_text target.server [])
      then unless (is_string target.server server) (bytes "not-target-server")
      else if any (λ s. is_string s (get (bytes "source") selection)) sources_of_its_own
      then unless (same_values w.same_float server (get (bytes "target") selection))
          (bytes "not-target-server")
      else none

  -- Rule 9: a healthy record.
  unfoldable pub connected : Verdict → Object F → Target → Object F → Option Text → Checks → Verdict
  unfolding get target_disagreement Text-discrete
  connected base m target selection message checks =
      let source = get (bytes "source") selection in
      let measured = members_of (get (bytes "checks") m) in
      let tier =
        or_empty (as_string (get (bytes "tier") (members_of (get (bytes "egress") measured)))) in
      let disputed = λ (why : Text).
        let v : Verdict = record (say base failed (bytes "verification failed") why) {
          message = message;
          checks = checks;
        } in
        v in
      let note =
        if is_text target.server [] && (is_nil source || is_string (bytes "seed") source)
        then bytes "no-selection" ∷ []
        else [] in
      if_disputed (target_disagreement m target selection base.configured_server) disputed
        (record base {
          state = ok;
          label = bytes "connected";
          reasons = note;
          tier = tier;
          checks = checks;
        })

  -- Rules 8 to 10, on the problems among the required checks.
  unfoldable pub judge_problems :
      Verdict → Object F → Target → Object F → Option Text → Bool → Reading → Verdict
  unfolding get connected name_text
  judge_problems base m target selection message rejected r =
      let status = get (bytes "status") m in
      let shown : Verdict = record base { checks = r.display } in
      let reasons =
        suffixed (bytes "-failed") r.failed ++ (if rejected then bytes "rejected" ∷ [] else []) in
      let and_message = λ (v : Verdict). let u : Verdict = record v { message = message } in u in
      if not (is_empty r.failed) || rejected
      then and_message (record shown { state = failed; label = bytes "failed"; reasons = reasons })
      else if not (is_empty r.expired)
      then record shown {
        label = bytes "evidence expired";
        reasons = suffixed (bytes "-expired") r.expired;
      }
      else if is_string (bytes "failed") status
      then and_message (say shown failed (bytes "failed") (bytes "status-failed"))
      else if not (is_empty r.unmeasured)
      then record shown {
        label = bytes "not yet measured";
        reasons = suffixed (bytes "-unmeasured") r.unmeasured;
      }
      else if is_string (bytes "ok") status
      then connected base m target selection message r.display
      else and_message (say shown unknown_state (bytes "unknown") (bytes "status-unknown"))

  -- Whether the only failure is the egress, which this host cannot measure.
  unfoldable pub egress_unverified : ExitConfig → Object F → List CheckName → Bool
  unfolding get gluetun_sidecar CheckName-discrete Text-discrete
  egress_unverified e m (n ∷ []) =
      let measured = members_of (get (bytes "checks") m) in
      gluetun_sidecar w e
      && (is_name n egress
          && is_string (bytes "host-address-not-measurable")
              (get (bytes "reason") (members_of (get (bytes "egress") measured))))
  egress_unverified e m _ = false

  unfoldable pub unverified_text : Text
  unverified_text = bytes "Switched; the egress couldn't be compared with this host's address."

  unfoldable pub judge_reading :
      ExitConfig → Verdict → Object F → Target → Object F → Reading × Bool → Verdict
  unfolding get egress_unverified unverified_text judge_problems Text-discrete
  judge_reading e base m target selection (r, valid) =
      let outcome = get (bytes "outcome") selection in
      let rejected =
        is_string (bytes "rejected") outcome || is_string (bytes "mutation-failed") outcome in
      let message = as_string (get (bytes "message") m) in
      let shown : Verdict = record base { checks = r.display } in
      if not valid
      then say shown unknown_state (bytes "invalid status record") (bytes "invalid-record")
      else if not rejected && egress_unverified e m r.failed
      then record (say shown unknown_state (bytes "switched, egress unverified")
          (bytes "host-address-not-measurable")) { message = some unverified_text }
      else judge_problems base m target selection message rejected r

  -- Rules 5 to 7: the age of the record, the panel's request, a switch in progress.
  unfoldable pub assess_current : ExitConfig → Verdict → Object F → Target → Object F → ℕ → Verdict
  unfolding get fresh unacknowledged read_checks judge_reading Text-discrete
  assess_current e base m target selection now =
      if not (fresh evidence_max_age now (get (bytes "checked_at") m))
      then say base unknown_state (bytes "status stale") (bytes "status-stale")
      else or_else (unacknowledged base m target now) (
          if is_string (bytes "applying") (get (bytes "status") m)
          then say base applying (bytes "switching") (bytes "applying")
          else judge_reading e base m target selection (read_checks w e m now))

  -- Rule 4: kind, provider and backend.
  unfoldable pub assess_owned : ExitConfig → Verdict → Object F → Target → Object F → ℕ → Verdict
  unfolding get backend assess_current Text-discrete
  assess_owned e base m target selection now =
      if not (is_string e.kind (get (bytes "kind") m))
      then say base unknown_state (bytes "kind mismatch") (bytes "kind-mismatch")
      else if not (
          is_string e.provider (get (bytes "provider") m)
          && is_string (backend w e) (get (bytes "backend") m))
      then say base unknown_state (bytes "provider mismatch") (bytes "provider-mismatch")
      else assess_current e base m target selection now

  -- The next action that the record announces, and when.
  unfoldable pub with_action : Object F → Verdict → Verdict
  unfolding get parse_time Text-discrete
  with_action selection base =
      let action = or_empty (as_string (get (bytes "next_action") selection)) in
      let at = get (bytes "next_action_at") selection in
      if is_text action (bytes "recheck") || is_text action (bytes "reapply")
      then record base {
        next_action = action;
        next_action_at = if is_some (parse_time at) then or_empty (as_string at) else [];
      }
      else base

  abbrev pub legacy_checks : Checks
  legacy_checks =
      (routing, legacy_state)
      ∷ (netbird, legacy_state)
      ∷ (owner_record, legacy_state)
      ∷ (peer, legacy_state)
      ∷ (handshake, legacy_state)
      ∷ (egress, legacy_state)
      ∷ (traffic_protection, legacy_state)
      ∷ (app_attachment, n_a)
      ∷ []

  -- What is wrong with a legacy record whose status is ok.
  unfoldable pub legacy_reasons : Verdict → Object F → Target → Text → List Text
  unfolding get is_true target_disagreement Text-discrete
  legacy_reasons base m target tier =
      let native = get (bytes "netbird_native") m in
      when (not (is_true w (get (bytes "routing_ok") m))) (bytes "routing-failed")
      ++ (when (is_some native && not (is_true w native)) (bytes "netbird-failed")
          ++ (when (is_text tier []) (bytes "egress-failed")
              ++ only (target_disagreement m target no_member base.configured_server)))

  unfoldable pub legacy_ok : ExitConfig → Verdict → Object F → Target → Verdict
  unfolding get egress_tier legacy_reasons Text-discrete
  legacy_ok e base m target =
      let provider = get (bytes "provider") m in
      let tier = egress_tier w m e.provider in
      let reasons = legacy_reasons base m target tier in
      let shown : Verdict = record base { checks = legacy_checks } in
      if not (is_nil provider || is_string e.provider provider)
      then say shown unknown_state (bytes "provider mismatch") (bytes "provider-mismatch")
      else if is_empty reasons
      then record shown { state = ok; label = bytes "connected"; tier = tier }
      else record shown {
        state = failed;
        label = bytes "verification failed";
        reasons = reasons;
        message = as_string (get (bytes "message") m);
      }

  unfoldable pub legacy_status : ExitConfig → Verdict → Object F → Target → Verdict
  unfolding get legacy_ok Text-discrete
  legacy_status e base m target =
      let status = get (bytes "status") m in
      let shown : Verdict = record base { checks = legacy_checks } in
      if is_string (bytes "applying") status
      then say base applying (bytes "switching") (bytes "applying")
      else if is_string (bytes "failed") status
      then record (say shown failed (bytes "failed") (bytes "status-failed")) {
        message = as_string (get (bytes "message") m);
      }
      else if is_string (bytes "ok") status
      then legacy_ok e base m target
      else say shown unknown_state (bytes "unknown") (bytes "status-unknown")

  -- `legacy`: a record without a schema.
  unfoldable pub legacy : ExitConfig → Verdict → Object F → Target → ℕ → Verdict
  unfolding get fresh unacknowledged legacy_status Text-discrete
  legacy e base m target now =
      let b : Verdict = record base { schema = 1 } in
      if not (is_text e.kind (bytes "overlay"))
      then say b unknown_state (bytes "kind mismatch") (bytes "kind-mismatch")
      else if not (fresh evidence_max_age now (get (bytes "checked_at") m))
      then say b unknown_state (bytes "status stale") (bytes "status-stale")
      else or_else (unacknowledged b m target now) (legacy_status e b m target)

  abbrev pub by_schema : Option (Json F) → Verdict → Verdict → Verdict → Verdict
  by_schema none older current other = older
  by_schema (some (whole n)) older current other = if n == 2 then current else other
  by_schema (some _) older current other = other

  -- Rule 3: the schema.
  unfoldable pub assess_record : ExitConfig → Verdict → Object F → Target → ℕ → Verdict
  unfolding get legacy assess_owned with_action
  assess_record e base m target now =
      let selection = members_of (get (bytes "selection") m) in
      let unsupported =
        say base unknown_state (bytes "unsupported status version") (bytes "unsupported-schema") in
      let current =
        assess_owned e (with_action selection (record base { schema = 2 })) m target selection
          now in
      by_schema (get (bytes "schema") m) (legacy e base m target now) current unsupported

  -- Rules 1 and 2: the configured lock, and a record that cannot be read.
  unfoldable pub assess : ExitConfig → Json F → Target → ℕ → ℕ → Verdict
  unfolding configured_server no_verdict_yet assess_record
  assess e result target current now =
      let base = no_verdict_yet (or_empty (configured_server w result)) e.kind in
      elim result [
        | object m ↦ assess_record e base m target (time_or_now current now)
        | _ ↦ say base unknown_state (bytes "awaiting status") (bytes "no-status")
      ]

  -- `TargetForPanel`
  unfoldable pub target_for_panel : Json F → Json F → Text → Target
  unfolding configured_server desired_request
  target_for_panel result desired provider = elim (configured_server w result) [
    | some s ↦ record { server = s; source = bytes "configured"; request = none }
    | none ↦ elim (desired_request w desired provider) [
      | some r ↦ record { server = r.server; source = bytes "panel"; request = some r }
      | none ↦ record { server = []; source = []; request = none }
    ]
  ]

  -- `NewExitConfig`; none is its error.
  unfoldable pub new_exit_config : Text → Text → Option ExitConfig
  unfolding Text-discrete
  new_exit_config provider kind =
      let k = if is_text kind [] then bytes "overlay" else kind in
      if is_some (w.lookup provider) && (is_text k (bytes "overlay") || is_sidecar_kind k)
      then some (record { provider = provider; kind = k })
      else none

  -- `StatusView`
  unfoldable pub status_view : Json F → Json F → Text → Text → ℕ → ℕ → Standing × Text
  unfolding new_exit_config assess target_for_panel
  status_view desired result provider kind current now = elim (new_exit_config provider kind) [
    | none ↦ (unknown_state, bytes "unknown provider")
    | some e ↦
        let v = assess e result (target_for_panel result desired provider) current now in
        (v.state, v.label)
  ]
