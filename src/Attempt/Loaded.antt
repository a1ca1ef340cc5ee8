-- ===== src/Attempt/Loaded.antt =====
-- internal/attempt/attempt.go: what a loaded record satisfies, and the waits of its schedule.
use molebridge.Base.{
  ℕ, zero, suc, ◌≤◌, Bool, true, false, ◌≡◌, refl, ap, subst, inl, inr, Option, none, some, leb,
  same→eq, any, Text, bytes, Text-discrete, Bool-cases, if◌then◌else◌, arith,
}
use molebridge.Validate.Json.{
  Json, null, boolean, whole, negative, big, float, string, array, object, Object, Floats, get,
}
use molebridge.Attempt.State.{
  backoff, at_or_last, states, Attempt, idle, is_text, ◌>>=◌, text, state_of, known_state, count_of,
  known_action,
}
use molebridge.Attempt.Record.{parse, on_boot, or_idle, load}

-- Each wait is between one minute and a quarter of an hour, and none is shorter than the one
-- before it.
pub backoff-bounds :
    (s : ℕ) → (60 ≤ backoff s) × ((backoff s ≤ 900) × (backoff s ≤ backoff (suc s)))
unfolding backoff at_or_last
backoff-bounds zero = (omega arith, (omega arith, omega arith))
backoff-bounds (suc zero) = (omega arith, (omega arith, omega arith))
backoff-bounds (suc (suc zero)) = (omega arith, (omega arith, omega arith))
backoff-bounds (suc (suc (suc zero))) = (omega arith, (omega arith, omega arith))
backoff-bounds (suc (suc (suc (suc s)))) = (omega arith, (omega arith, omega arith))

-- What the package writes: a known state, counts in range, and an action that it knows.
pub record IsValid {F : Type 0} (a : Attempt F) : Type 0 where
  pub state : any (λ s. is_text s a.state) states ≡ true
  pub attempts : a.attempts ≤ 0x7fffffff
  pub backoff_step : a.backoff_step ≤ 0x7fffffff
  pub action : known_action a.next_action ≡ a.next_action

unfoldable OptIsValid : {F : Type 0} → Option (Attempt F) → Type 0
OptIsValid none = Unit
OptIsValid (some a) = IsValid a

valid :
    {F : Type 0} (a : Attempt F)
    → any (λ s. is_text s a.state) states ≡ true
    → a.attempts ≤ 0x7fffffff
    → a.backoff_step ≤ 0x7fffffff
    → known_action a.next_action ≡ a.next_action
    → OptIsValid (some a)
unfolding OptIsValid
valid a s n k act = record { state = s; attempts = n; backoff_step = k; action = act }

bind-IsValid :
    {F A : Type 0} (o : Option A) (f : A → Option (Attempt F))
    → ((a : A) → o ≡ some a → OptIsValid (f a))
    → OptIsValid (o >>= f)
unfolding OptIsValid
bind-IsValid none f h = tt
bind-IsValid (some a) f h = h a refl

abbrev or_else {ℓ} : {A : Type ℓ} → A → Option A → A
or_else d none = d
or_else d (some a) = a

-- An option that a test gives.
if_some {ℓ} :
    {A : Type ℓ} (b : Bool) (s x : A) → (if b then some s else none) ≡ some x → (b ≡ true) × (s ≡ x)
if_some true s x h = (refl, ap (or_else s) h)
if_some false s x h = cc

known_state-IsKnown : (s x : Text) → known_state s ≡ some x → any (λ u. is_text u x) states ≡ true
unfolding known_state
known_state-IsKnown s x h =
    let (e, q) = if_some (any (λ u. is_text u s) states) s x h in
    subst (λ z. any (λ u. is_text u z) states ≡ true) q e

count_of-le : {F : Type 0} (v : Option (Json F)) (n : ℕ) → count_of v ≡ some n → n ≤ 0x7fffffff
unfolding count_of
count_of-le none n h = let e = ap (or_else 0) h in omega (arith, e)
count_of-le (some (whole m)) n h =
    let (e, q) = if_some (leb m 0x7fffffff) m n h in ground (arith, e, q)
count_of-le (some null) n h = cc
count_of-le (some (boolean b)) n h = cc
count_of-le (some (negative m)) n h = cc
count_of-le (some (big b k)) n h = cc
count_of-le (some (float t)) n h = cc
count_of-le (some (string t)) n h = cc
count_of-le (some (array vs)) n h = cc
count_of-le (some (object m)) n h = cc

known_action_idem : (s : Text) → known_action (known_action s) ≡ known_action s
unfolding known_action
known_action_idem s = ground arith

module _ {F : Type 0} (fl : Floats F) where
  parse-IsValid : (m : Object F) → OptIsValid (parse fl m)
  unfolding parse
  parse-IsValid m =
      let next = bind-IsValid {F = F} {A = Text} in
      let count = bind-IsValid {F = F} {A = ℕ} in
      next (text m (bytes "attempt_id")) _ (λ id _. next (text m (bytes "source")) _ (λ src _.
        next (text m (bytes "target")) _ (λ tgt _. next (text m (bytes "target_key")) _ (λ key _.
          next (text m (bytes "outcome")) _ (λ out _. next (text m (bytes "message")) _ (λ msg _.
            next (text m (bytes "boot_id")) _ (λ boot _.
              next (text m (bytes "started_at")) _ (λ started _.
                next (text m (bytes "next_action")) _ (λ act _.
                  next (text m (bytes "mutation_certainty")) _ (λ sure _.
                    next (text m (bytes "generation")) _ (λ gen _.
                      next (state_of (get (bytes "state") m)) _ (λ found _.
                        next (known_state found) _ (λ st known.
                          count (count_of (get (bytes "attempts") m)) _ (λ n counted.
                            count (count_of (get (bytes "backoff_step") m)) _ (λ k stepped.
                              valid _ (known_state-IsKnown found st known)
                                (count_of-le (get (bytes "attempts") m) n counted)
                                (count_of-le (get (bytes "backoff_step") m) k stepped)
                                (known_action_idem act))))))))))))))))

  on_boot-IsValid :
      (boot : Text) (now : F) (a : Attempt F)
      → IsValid a
      → IsValid (on_boot fl boot now a) × ((on_boot fl boot now a).boot_id ≡ boot)
  unfolding on_boot
  on_boot-IsValid boot now a v = elim (Bool-cases (is_text a.boot_id boot)) [
    | inl e ↦ rw e (v, same→eq Text-discrete a.boot_id boot e)
    | inr e ↦ rw e (
      record {
        state = v.state;
        attempts = v.attempts;
        backoff_step = v.backoff_step;
        action = v.action;
      },
      refl,
    )
  ]

  idle-IsValid : (boot : Text) → IsValid {F = F} (idle boot)
  unfolding Text-discrete known_action
  idle-IsValid boot = record {
    state = refl;
    attempts = omega arith;
    backoff_step = omega arith;
    action = refl;
  }

  or_idle-IsValid :
      (boot : Text) (now : F) (o : Option (Attempt F))
      → OptIsValid o
      → IsValid (or_idle fl boot now o) × ((or_idle fl boot now o).boot_id ≡ boot)
  unfolding OptIsValid
  or_idle-IsValid boot now none h = (idle-IsValid boot, refl)
  or_idle-IsValid boot now (some a) h = on_boot-IsValid boot now a h

  -- Whatever the file holds, the loaded record has a known state, counts of at most 2^31 - 1, an
  -- action that is known or none, and the id of this boot.
  pub load-IsValid :
      (m : Option (Object F)) (boot : Text) (now : F)
      → IsValid (load fl m boot now) × ((load fl m boot now).boot_id ≡ boot)
  unfolding load
  load-IsValid none boot now = (idle-IsValid boot, refl)
  load-IsValid (some m) boot now = or_idle-IsValid boot now (parse fl m) (parse-IsValid m)
