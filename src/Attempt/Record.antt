-- ===== src/Attempt/Record.antt =====
-- internal/attempt/attempt.go: Load and JSONObject, and the steps of the record.
--
-- Load is given the object that jsonfile.ReadObject found, if it found one.
use molebridge.Base.{
  suc, Bool, true, Option, none, some, [], ◌∷◌, Text, bytes, Text-discrete, if◌then◌else◌,
}
use molebridge.Validate.Json.{
  Json, null, whole, negative, float, string, object, Object, no_member, member, Floats, get,
}
use molebridge.Attempt.State.{
  backoff, reapply_guard_sec, Rejected, Extra, Attempt, idle, is_text, ◌>>=◌, text, state_of,
  known_state, count_of, rejected_of, extra_of, known_action,
}

abbrev pub or_null : {F : Type 0} → Text → Json F
or_null [] = null
or_null (c ∷ cs) = string (c ∷ cs)

abbrev pub or_null_time : {F : Type 0} → Option F → Json F
or_null_time none = null
or_null_time (some t) = float t

-- A member that is left out when it is empty.
abbrev pub if_set : {F : Type 0} → Text → Text → Object F → Object F
if_set k [] rest = rest
if_set k (c ∷ cs) rest = member k (string (c ∷ cs)) rest

unfoldable pub why_and_release : {F : Type 0} → Text → Text → Object F
why_and_release why release = if_set (bytes "why") why (if_set (bytes "release") release no_member)

unfoldable pub rejected_json : {F : Type 0} → Option Rejected → Json F
unfolding why_and_release
rejected_json none = null
rejected_json (some r) = object (
    member (bytes "key") (string r.key)
      (member (bytes "reason") (string r.reason) (why_and_release r.why r.release)))

unfoldable pub extra_json : {F : Type 0} → Extra → Json F
unfolding why_and_release
extra_json e = object (why_and_release e.why e.release)

-- `JSONObject`
unfoldable pub json_object : {F : Type 0} → Attempt F → Object F
unfolding rejected_json extra_json
json_object a = member (bytes "attempt_id") (string a.attempt_id) (
    member (bytes "source") (or_null a.source) (
      member (bytes "target") (or_null a.target) (
        member (bytes "target_key") (or_null a.target_key) (
          member (bytes "state") (string a.state) (
            member (bytes "outcome") (or_null a.outcome) (
              member (bytes "message") (or_null a.message) (
                member (bytes "boot_id") (string a.boot_id) (
                  member (bytes "started_at") (or_null a.started_at) (
                    member (bytes "attempts") (whole a.attempts) (
                      member (bytes "backoff_step") (whole a.backoff_step) (
                        member (bytes "next_action") (or_null a.next_action) (
                          member (bytes "next_action_at") (or_null_time a.next_action_at) (
                            member (bytes "last_mutation_at") (or_null_time a.last_mutation_at) (
                              member (bytes "mutation_certainty") (or_null a.mutation_certainty) (
                                member (bytes "generation") (or_null a.generation) (
                                  member (bytes "rejected") (rejected_json a.rejected) (
                                    member (bytes "extra") (extra_json a.extra)
                                      no_member)))))))))))))))))

module _ {F : Type 0} (fl : Floats F) where
  unfoldable pub clock_of : Option (Json F) → Option F
  clock_of (some (whole n)) = if fl.is_finite (fl.of_whole n) then some (fl.of_whole n) else none
  clock_of (some (negative n)) =
      if fl.is_finite (fl.of_negative n) then some (fl.of_negative n) else none
  clock_of (some (float t)) = if fl.is_finite t then some t else none
  clock_of _ = none

  unfoldable pub clock_value : Object F → Text → Option F
  unfolding get clock_of
  clock_value m k = clock_of (get k m)

  -- The record that the object gives, or none where `Load` starts idle.
  unfoldable pub parse : Object F → Option (Attempt F)
  unfolding text get state_of known_state count_of rejected_of extra_of known_action clock_value
  parse m = do
    attempt_id ← text m (bytes "attempt_id")
    source ← text m (bytes "source")
    target ← text m (bytes "target")
    target_key ← text m (bytes "target_key")
    outcome ← text m (bytes "outcome")
    message ← text m (bytes "message")
    boot_id ← text m (bytes "boot_id")
    started_at ← text m (bytes "started_at")
    next_action ← text m (bytes "next_action")
    mutation_certainty ← text m (bytes "mutation_certainty")
    generation ← text m (bytes "generation")
    found ← state_of (get (bytes "state") m)
    state ← known_state found
    attempts ← count_of (get (bytes "attempts") m)
    backoff_step ← count_of (get (bytes "backoff_step") m)
    some (record {
      attempt_id = attempt_id;
      source = source;
      target = target;
      target_key = target_key;
      state = state;
      outcome = outcome;
      message = message;
      boot_id = boot_id;
      started_at = started_at;
      attempts = attempts;
      backoff_step = backoff_step;
      next_action = known_action next_action;
      next_action_at = clock_value m (bytes "next_action_at");
      last_mutation_at = clock_value m (bytes "last_mutation_at");
      mutation_certainty = mutation_certainty;
      generation = generation;
      rejected = rejected_of (get (bytes "rejected") m);
      extra = extra_of (get (bytes "extra") m);
    })

  -- The time of the next action on another boot: a recheck is due, a reapply waits its step.
  unfoldable pub due_on : F → Attempt F → Option F
  unfolding backoff Text-discrete
  due_on now a =
      if is_text a.next_action (bytes "recheck")
      then some now
      else if is_text a.next_action (bytes "reapply")
      then some (fl.plus_sec now (backoff a.backoff_step))
      else a.next_action_at

  unfoldable pub on_boot : Text → F → Attempt F → Attempt F
  unfolding due_on Text-discrete
  on_boot boot now a =
      if is_text a.boot_id boot
      then a
      else record a { last_mutation_at = none; next_action_at = due_on now a; boot_id = boot }

  abbrev pub or_idle : Text → F → Option (Attempt F) → Attempt F
  or_idle boot now none = idle boot
  or_idle boot now (some a) = on_boot boot now a

  unfoldable pub load : Option (Object F) → Text → F → Attempt F
  unfolding parse on_boot
  load none boot now = idle boot
  load (some m) boot now = or_idle boot now (parse m)

  unfoldable pub guard_passed : Attempt F → F → Bool
  guard_passed a now = elim a.last_mutation_at [
    | none ↦ true
    | some t ↦ fl.since_at_least now t reapply_guard_sec
  ]

  unfoldable pub schedule : Text → F → Attempt F → Attempt F
  unfolding backoff
  schedule action now a = record a {
    next_action = action;
    next_action_at = some (fl.plus_sec now (backoff a.backoff_step));
    backoff_step = suc a.backoff_step;
  }

unfoldable pub settle : {F : Type 0} → Attempt F → Attempt F
settle a = record a {
  state = bytes "idle";
  outcome = bytes "verified";
  message = [];
  next_action = [];
  next_action_at = none;
  backoff_step = 0;
  mutation_certainty = [];
}
