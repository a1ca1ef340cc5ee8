-- ===== src/Attempt/State.antt =====
-- internal/attempt/attempt.go: the record, its codec over decoded JSON, and its clock.
--
-- Go's ints stay below 2^31 in a loaded record and are natural numbers here; an optional string is
-- the empty text when it is absent, as in the source.
use molebridge.Base.{
  ℕ, zero, suc, Bool, ◌||◌, Option, none, some, List, [], ◌∷◌, leb, same, any, Text, bytes,
  Text-discrete, if◌then◌else◌,
}
use molebridge.Validate.Json.{Json, null, whole, string, object, Object, get}

abbrev pub backoff_sec : List ℕ
backoff_sec = 60 ∷ 120 ∷ 240 ∷ 480 ∷ 900 ∷ []

abbrev pub reapply_guard_sec : ℕ
reapply_guard_sec = 90

-- `list[i]`, and the last element beyond the end.
unfoldable pub at_or_last : List ℕ → ℕ → ℕ
at_or_last [] i = 0
at_or_last (x ∷ []) i = x
at_or_last (x ∷ y ∷ ys) zero = x
at_or_last (x ∷ y ∷ ys) (suc i) = at_or_last (y ∷ ys) i

-- A step is never negative here.
unfoldable pub backoff : ℕ → ℕ
unfolding at_or_last
backoff step = at_or_last backoff_sec step

abbrev pub states : List Text
states =
    bytes "idle"
    ∷ bytes "pending"
    ∷ bytes "rejected"
    ∷ bytes "attempting"
    ∷ bytes "unverified"
    ∷ bytes "failed"
    ∷ []

pub record Rejected : Type 0 where
  pub key : Text
  pub reason : Text
  pub why : Text
  pub release : Text

pub record Extra : Type 0 where
  pub why : Text
  pub release : Text

pub record Attempt (F : Type 0) : Type 0 where
  pub attempt_id : Text
  pub source : Text
  pub target : Text
  pub target_key : Text
  pub state : Text
  pub outcome : Text
  pub message : Text
  pub boot_id : Text
  pub started_at : Text
  pub attempts : ℕ
  pub backoff_step : ℕ
  pub next_action : Text
  pub next_action_at : Option F
  pub last_mutation_at : Option F
  pub mutation_certainty : Text
  pub generation : Text
  pub rejected : Option Rejected
  pub extra : Extra

abbrev pub no_extra : Extra
no_extra = record { why = []; release = [] }

abbrev pub idle : {F : Type 0} → Text → Attempt F
idle boot = record {
  attempt_id = [];
  source = [];
  target = [];
  target_key = [];
  state = bytes "idle";
  outcome = [];
  message = [];
  boot_id = boot;
  started_at = [];
  attempts = 0;
  backoff_step = 0;
  next_action = [];
  next_action_at = none;
  last_mutation_at = none;
  mutation_certainty = [];
  generation = [];
  rejected = none;
  extra = no_extra;
}

-- `New`, with the random id and the formatted wall clock given.
abbrev pub new_attempt :
    {F : Type 0} → Text → Text → Text → Text → Text → Text → Option Rejected → Text → Attempt F
new_attempt id started src tgt key boot rej gen = record (idle boot) {
  attempt_id = id;
  started_at = started;
  source = src;
  target = tgt;
  target_key = key;
  rejected = rej;
  generation = gen;
}

abbrev pub is_text : Text → Text → Bool
is_text a b = same Text-discrete a b

-- An early return of a value that could not be read.
infixl 5 ◌>>=◌
abbrev pub ◌>>=◌ {ℓ κ} : {A : Type ℓ} {B : Type κ} → Option A → (A → Option B) → Option B
none >>= f = none
some a >>= f = f a

unfoldable pub known_state : Text → Option Text
unfolding Text-discrete
known_state s = if any (λ x. is_text x s) states then some s else none

-- An action that is not known is none.
unfoldable pub known_action : Text → Text
unfolding Text-discrete
known_action s = if is_text s (bytes "recheck") || is_text s (bytes "reapply") then s else []

module _ {F : Type 0} where
  -- An optional string member: absent or null is empty.
  unfoldable pub text_of : Option (Json F) → Option Text
  text_of none = some []
  text_of (some null) = some []
  text_of (some (string s)) = some s
  text_of (some _) = none

  unfoldable pub text : Object F → Text → Option Text
  unfolding get text_of
  text m k = text_of (get k m)

  unfoldable pub string_of : Option (Json F) → Text
  string_of (some (string s)) = s
  string_of _ = []

  unfoldable pub string_member : Object F → Text → Text
  unfolding get string_of
  string_member m k = string_of (get k m)

  -- A state that is a string, `idle` when it is absent.
  unfoldable pub state_of : Option (Json F) → Option Text
  state_of none = some (bytes "idle")
  state_of (some (string s)) = some s
  state_of (some _) = none

  -- A count of at most math.MaxInt32, 0 when it is absent.
  unfoldable pub count_of : Option (Json F) → Option ℕ
  count_of none = some 0
  count_of (some (whole n)) = if leb n 0x7fffffff then some n else none
  count_of (some _) = none

  unfoldable pub rejected_of : Option (Json F) → Option Rejected
  unfolding string_member
  rejected_of (some (object m)) = some (record {
    key = string_member m (bytes "key");
    reason = string_member m (bytes "reason");
    why = string_member m (bytes "why");
    release = string_member m (bytes "release");
  })
  rejected_of _ = none

  unfoldable pub extra_of : Option (Json F) → Extra
  unfolding string_member
  extra_of (some (object m)) = record {
    why = string_member m (bytes "why");
    release = string_member m (bytes "release");
  }
  extra_of _ = no_extra
