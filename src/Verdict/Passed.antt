-- ===== src/Verdict/Passed.antt =====
-- internal/verdict/verdict.go `readChecks`: a reading without a problem.
use molebridge.Base.{
  ℕ, Bool, true, false, not, ◌&&◌, ◌||◌, ◌≡◌, refl, inl, inr, Option, none, some, List, [], ◌∷◌,
  ◌++◌, any, All, if◌then◌else◌, Text, bytes, Bool-cases, arith,
}
use molebridge.Validate.Json.{
  Json, string, object, Object, get, is_nil, is_string, as_string, same_values,
}
use molebridge.Validate.Time.{fresh}
use molebridge.Verdict.Request.{is_text, World}
use molebridge.Verdict.Checks.{
  CheckName, owner_record, CheckState, pass, fail, unknown, n_a, not_checked, legacy_state,
  name_text, state_named, evidence_max_age, is_name, server_bound, ExitConfig, Reading, Finding,
  malformed, passing, failing, stale, missing, note, lease_lapsed, valid_shape, is_malformed,
  measured, in_state, from_text, judge_check, read_each,
}

abbrev pub IsClean : Reading → Type 0
IsClean r = (r.failed ≡ []) × (r.expired ≡ []) × (r.unmeasured ≡ [])

snoc-ne-nil {ℓ} : {A : Type ℓ} (xs : List A) (x : A) → xs ++ x ∷ [] ≡ [] → ⊥
snoc-ne-nil [] x h = cc
snoc-ne-nil (y ∷ ys) x h = cc

-- The tests of a measured check that is found passing.
chosen :
    (shaped recent bound equal nil owner lapsed : Bool)
    → (if not shaped
        then malformed
        else if not recent
        then stale
        else if bound && ((not equal || nil) && true)
        then stale
        else if true && not (owner && lapsed)
        then passing
        else failing)
      ≡ passing
    → (shaped ≡ true)
      × (recent ≡ true)
      × (bound ≡ true → (equal ≡ true) × (nil ≡ false))
      × (owner ≡ true → lapsed ≡ false)
chosen shaped recent bound equal nil owner lapsed h =
    (ground arith, ground arith, λ b. (ground arith, ground arith), λ q. ground arith)

-- A measured failure is never found passing.
unchosen :
    (shaped recent bound : Bool)
    → (if not shaped
        then malformed
        else if not recent
        then stale
        else if bound
        then stale
        else failing)
      ≡ passing
    → ⊥
unchosen shaped recent bound h = ground arith

note-IsClean :
    (n : CheckName) (f : Finding) (r : Reading)
    → is_malformed f ≡ false
    → IsClean (note n f r)
    → (f ≡ passing) × IsClean r
unfolding note
note-IsClean n malformed r m c = cc
note-IsClean n passing r m c = (refl, c)
note-IsClean n failing r m c = absurd (snoc-ne-nil _ _ c.0)
note-IsClean n stale r m c = absurd (snoc-ne-nil _ _ c.1)
note-IsClean n missing r m c = absurd (snoc-ne-nil _ _ c.2)

module _ {F : Type 0} (w : World F) (e : ExitConfig) (server : Option (Json F)) (now : ℕ) where
  -- The record shows that the check passed: its state is "pass", it has the shape of its kind, it
  -- was measured lately, on the record's server where the check is of a server, and under a lease
  -- that still runs.
  pub record Proven (n : CheckName) (check : Object F) : Type 0 where
    pub passes : is_string (bytes "pass") (get (bytes "state") check) ≡ true
    pub shaped : valid_shape w n check true e ≡ true
    pub recent : fresh evidence_max_age now (get (bytes "at") check) ≡ true
    pub on_server :
        any (is_name n) server_bound ≡ true
        → (same_values w.same_float (get (bytes "server") check) server ≡ true)
          × (is_nil server ≡ false)
    pub leased : is_name n owner_record ≡ true → lease_lapsed check now ≡ false

  abbrev pub Passed : Object F → CheckName → Type 0
  Passed raw n = (check : Object F) × (get (name_text n) raw ≡ some (object check)) × Proven n check

  -- What the tests of a measured check that is found passing say.
  record Tested (n : CheckName) (check : Object F) : Type 0 where
    shaped : valid_shape w n check true e ≡ true
    recent : fresh evidence_max_age now (get (bytes "at") check) ≡ true
    on_server :
        any (is_name n) server_bound ≡ true
        → (same_values w.same_float (get (bytes "server") check) server ≡ true)
          × (is_nil server ≡ false)
    leased : is_name n owner_record ≡ true → lease_lapsed check now ≡ false

  measured-Tested :
      (n : CheckName) (check : Object F) (p : Bool)
      → measured w e server now n check p ≡ passing
      → (p ≡ true) × Tested n check
  unfolding measured
  measured-Tested n check true h =
      let (a, b, c, d) =
        chosen (valid_shape w n check true e) (fresh evidence_max_age now (get (bytes "at") check))
          (any (is_name n) server_bound)
          (same_values w.same_float (get (bytes "server") check) server) (is_nil server)
          (is_name n owner_record) (lease_lapsed check now) h in
      (refl, record { shaped = a; recent = b; on_server = c; leased = d })
  measured-Tested n check false h = absurd (
      unchosen (valid_shape w n check false e) (fresh evidence_max_age now (get (bytes "at") check))
        (any (is_name n) server_bound
          && ((not (same_values w.same_float (get (bytes "server") check) server) || is_nil server)
              && false))
        h)

  in_state-Tested :
      (n : CheckName) (check : Object F) (s : Option CheckState)
      → in_state w e server now n check s ≡ passing
      → (s ≡ some pass) × Tested n check
  unfolding in_state
  in_state-Tested n check (some pass) h = (refl, (measured-Tested n check true h).1)
  in_state-Tested n check (some fail) h = let (q, k) = measured-Tested n check false h in cc
  in_state-Tested n check (some unknown) h = cc
  in_state-Tested n check (some n_a) h = cc
  in_state-Tested n check (some not_checked) h = cc
  in_state-Tested n check (some legacy_state) h = cc
  in_state-Tested n check none h = cc

  state_named-pass : (t : Text) → state_named t ≡ some pass → is_text t (bytes "pass") ≡ true
  unfolding state_named
  state_named-pass t h = ground arith

  judge_object-Proven :
      (n : CheckName) (check : Object F) (v : Option (Json F))
      → get (bytes "state") check ≡ v
      → from_text w e server now n check (as_string v) ≡ passing
      → Proven n check
  unfolding from_text
  judge_object-Proven n check (some (string s)) q h =
      let (named, k) = in_state-Tested n check (state_named s) h in
      let text = state_named-pass s named in
      record {
        passes = rw q text;
        shaped = k.shaped;
        recent = k.recent;
        on_server = k.on_server;
        leased = k.leased;
      }
  judge_object-Proven n check none q h = cc
  judge_object-Proven n check (some v) q h = cc

  judge_check-Passed :
      (n : CheckName) (v : Option (Json F))
      → judge_check w e server now n v ≡ passing
      → (check : Object F) × (v ≡ some (object check)) × Proven n check
  unfolding judge_check
  judge_check-Passed n (some (object check)) h =
      (check, refl, judge_object-Proven n check (get (bytes "state") check) refl h)
  judge_check-Passed n none h = cc
  judge_check-Passed n (some v) h = cc

  -- A loop that ends well formed and without a problem began without one, and every check passed.
  pub read_each-Passed :
      (raw : Object F) (ns : List CheckName) (r : Reading)
      → (read_each w e server now raw ns r).1 ≡ true
      → IsClean (read_each w e server now raw ns r).0
      → IsClean r × All (Passed raw) ns
  unfolding read_each
  read_each-Passed raw [] r h c = (c, tt)
  read_each-Passed raw (n ∷ ns) r h c =
      let found = judge_check w e server now n (get (name_text n) raw) in
      elim (Bool-cases (is_malformed found)) [
        | inl q ↦ absurd (let k = rw q at h in cc)
        | inr q ↦
            let (k, all) = read_each-Passed raw ns (note n found r) (rw q at h) (rw q at c) in
            let (p, clean) = note-IsClean n found r q k in (clean, (judge_check-Passed n _ p, all))
      ]
