-- ===== src/Attempt/Kept.antt =====
-- internal/attempt/attempt.go: a record written and read back.
use molebridge.Base.{
  ℕ, ◌≤◌, true, ◌≡◌, refl, Option, none, some, [], ◌∷◌, same_refl, any, Text, bytes, Text-discrete,
  arith,
}
use molebridge.Validate.Json.{whole, Floats, get}
use molebridge.Attempt.State.{
  states, Attempt, Rejected, Extra, is_text, text, text_of, state_of, known_state, count_of,
  string_of, string_member, rejected_of, extra_of,
}
use molebridge.Attempt.Record.{
  or_null, or_null_time, why_and_release, rejected_json, extra_json, json_object, clock_of,
  clock_value, parse, on_boot, load,
}
use molebridge.Attempt.Loaded.{IsValid}

-- A time that is none, or neither NaN nor an infinity.
abbrev pub IsFinite : {F : Type 0} → Floats F → Option F → Type 0
IsFinite fl none = Unit
IsFinite fl (some t) = fl.is_finite t ≡ true

module _ (F : Type 0) where
  text_of-or_null : (s : Text) → text_of {F = F} (some (or_null s)) ≡ some s
  unfolding text_of
  text_of-or_null [] = refl
  text_of-or_null (c ∷ cs) = refl

  count_of-whole : (n : ℕ) → n ≤ 0x7fffffff → count_of {F = F} (some (whole n)) ≡ some n
  unfolding count_of
  count_of-whole n h = ground arith

  known_state-known : (s : Text) → any (λ u. is_text u s) states ≡ true → known_state s ≡ some s
  unfolding known_state
  known_state-known s h = rw h refl

  why-kept : (w r : Text) → string_member {F = F} (why_and_release w r) (bytes "why") ≡ w
  unfolding string_member string_of why_and_release get
  why-kept [] [] = refl
  why-kept [] (c ∷ cs) = refl
  why-kept (c ∷ cs) r = refl

  release-kept : (w r : Text) → string_member {F = F} (why_and_release w r) (bytes "release") ≡ r
  unfolding string_member string_of why_and_release get
  release-kept [] [] = refl
  release-kept [] (c ∷ cs) = refl
  release-kept (c ∷ cs) [] = refl
  release-kept (c ∷ cs) (d ∷ ds) = refl

  extra_of-json : (e : Extra) → extra_of {F = F} (some (extra_json e)) ≡ e
  unfolding extra_of extra_json
  extra_of-json e = rw (why-kept e.why e.release, release-kept e.why e.release) refl

  rejected_of-json : (r : Option Rejected) → rejected_of {F = F} (some (rejected_json r)) ≡ r
  unfolding rejected_of rejected_json string_member get string_of
  rejected_of-json none = refl
  rejected_of-json (some r) = rw (why-kept r.why r.release, release-kept r.why r.release) refl

clock_of-json :
    {F : Type 0} (fl : Floats F) (t : Option F)
    → IsFinite fl t
    → clock_of fl (some (or_null_time t)) ≡ t
unfolding clock_of
clock_of-json fl none h = refl
clock_of-json fl (some t) h = rw h refl

-- A record with a known state, counts of at most 2^31 - 1, an action that is known or none, and
-- finite times is what `Load` makes of the object written for it, on the same boot.
pub load-json_object :
    {F : Type 0} (fl : Floats F) (a : Attempt F) (now : F)
    → IsValid a
    → IsFinite fl a.next_action_at
    → IsFinite fl a.last_mutation_at
    → load fl (some (json_object a)) a.boot_id now ≡ a
unfolding load parse text clock_value get json_object state_of on_boot
load-json_object {F} fl a now v h k =
    let at = clock_of-json fl a.next_action_at h in
    let last = clock_of-json fl a.last_mutation_at k in
    rw
      (
        text_of-or_null F a.source,
        text_of-or_null F a.target,
        text_of-or_null F a.target_key,
        text_of-or_null F a.outcome,
        text_of-or_null F a.message,
        text_of-or_null F a.started_at,
        text_of-or_null F a.next_action,
        text_of-or_null F a.mutation_certainty,
        text_of-or_null F a.generation,
        known_state-known F a.state v.state,
        count_of-whole F a.attempts v.attempts,
        count_of-whole F a.backoff_step v.backoff_step,
        v.action,
        at,
        last,
        rejected_of-json F a.rejected,
        extra_of-json F a.extra,
        same_refl Text-discrete a.boot_id,
      )
      refl
