-- ===== src/Examples/Attempts.antt =====
-- internal/attempt: records over a clock of whole seconds.
use molebridge.Base.{ℕ, ◌+◌, true, ◌≡◌, refl, some, List, [], bytes, leb, arith, Text-discrete}
use molebridge.Validate.Json.{string, whole, Object, member, no_member, Floats}
use molebridge.Attempt.State.{Attempt, idle, known_action}
use molebridge.Attempt.Record.{json_object, load}
use molebridge.Attempt.Loaded.{IsValid, load-IsValid}
use molebridge.Attempt.Kept.{load-json_object}

abbrev seconds : Floats ℕ
seconds = record {
  of_whole = λ n. n;
  of_negative = λ n. 0;
  is_finite = λ t. true;
  plus_sec = λ t n. t + n;
  since_at_least = λ now t n. leb (t + n) now;
}

abbrev boot : List ℕ
boot = bytes "b1"

abbrev waiting : Attempt ℕ
waiting = record (idle boot) {
  attempt_id = bytes "a0";
  target = bytes "se-1";
  state = bytes "failed";
  attempts = 3;
  backoff_step = 3;
  next_action = bytes "reapply";
  next_action_at = some 1000;
  last_mutation_at = some 520;
  rejected = some (record { key = bytes "k"; reason = bytes "r"; why = []; release = bytes "s" });
}

-- A file whose count is out of range.
abbrev odd_file : Object ℕ
odd_file =
    member (bytes "state") (string (bytes "pending"))
      (member (bytes "attempts") (whole 4294967296) no_member)

load-IsValid_example :
    IsValid (load seconds (some odd_file) boot 5)
    × ((load seconds (some odd_file) boot 5).boot_id ≡ boot)
load-IsValid_example = load-IsValid seconds (some odd_file) boot 5

load-json_object_example : load seconds (some (json_object waiting)) boot 5 ≡ waiting
unfolding Text-discrete known_action
load-json_object_example =
    load-json_object seconds waiting 5
      (record { state = refl; attempts = omega arith; backoff_step = omega arith; action = refl })
      refl refl
