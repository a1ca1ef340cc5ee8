-- ===== src/PortSync/Requests.antt =====
-- internal/portsync/sync.go: the requests that one pass makes.
use molebridge.Base.{
  ℕ, ◌+◌, ◌≤◌, true, false, not, ◌&&◌, ◌≡◌, refl, sym, ap, ◌∙◌, ◌⊎◌, inl, inr, Option, none, some,
  List, [], ◌∷◌, ◌++◌, append_assoc, length, length-append, All, All-append, ◌==◌, Text, bytes,
  Bool-cases, Option-cases, arith,
}
use molebridge.Validate.Json.{Json, whole, Object, get, is_nil, is_string}
use molebridge.Validate.Lenient.{recent}
use molebridge.PortSync.Sync.{
  Kind, record_kind, foreign, port_value, min_port, max_port, max_record_age, Purpose,
  get_preferences, set_port, log_in, Request, Response, Outside, Syncer, line, port_set, Outcome,
  qb_error, good, Run, is_quiet, logged_at, failure, port_in, if_port, port_of, no_port_line,
  forwarded_port, send, session, login_answer, after_login, login_as, login, if_good, refused_again,
  send_again, retry, send_retrying, has_text, call, listen_port, change_port, changed,
  on_preferences, apply, log_error, sync_port, step,
}

-- The same outside, with each request written down, the latest first.
abbrev pub recording : {F S : Type 0} → Outside F S → Outside F (S × List Request)
recording o = record {
  fetch = λ r s. let (a, s') = o.fetch r s.0 in (a, (s', r ∷ s.1));
  now = λ s. o.now s.0;
  cancelled = λ s. o.cancelled s.0;
  has_credentials = o.has_credentials;
  username = λ s. o.username s.0;
  password = λ s. o.password s.0;
  decode_json = o.decode_json;
  trim_space = o.trim_space;
}

-- A login, a read of the preferences, or the change to this port.
abbrev pub IsAbout : ℕ → Request → Type 0
IsAbout port r = elim r.purpose as (λ p. Type 0) [ set_port n ↦ n ≡ port | _ ↦ Unit ]

module _ {F S : Type 0} (o : Outside F S) where
  abbrev pub Logged : Type 0
  Logged = Syncer (S × List Request)

  -- From one state to another at most `n` requests were made, all of them about the port.
  pub record Adds (port n : ℕ) (y z : Logged) : Type 0 where
    pub new : List Request
    pub log : z.outside.1 ≡ new ++ y.outside.1
    pub few : length new ≤ n
    pub about : All (IsAbout port) new

  none_added : (port n : ℕ) (y z : Logged) → z.outside ≡ y.outside → Adds port n y z
  none_added port n y z e = record {
    new = [];
    log = ap (λ s. s.1) e;
    few = omega arith;
    about = tt;
  }

  Adds-trans :
      (port a b : ℕ) {x y z : Logged} → Adds port a x y → Adds port b y z → Adds port (a + b) x z
  Adds-trans port a b {x} {y} {z} f g = record {
    new = g.new ++ f.new;
    log = g.log ∙ (ap (λ l. g.new ++ l) f.log ∙ sym (append_assoc g.new f.new x.outside.1));
    few = omega (arith, length-append g.new f.new, f.few, g.few);
    about = All-append (IsAbout port) g.new f.new g.about f.about;
  }

  at_most : (port a b : ℕ) {x y : Logged} → a ≤ b → Adds port a x y → Adds port b x y
  at_most port a b h f = record {
    new = f.new;
    log = f.log;
    few = omega (arith, f.few);
    about = f.about;
  }

  -- The parts of a call, each on any state.
  send-Adds :
      (port : ℕ) (p : Purpose) (y : Logged)
      → IsAbout port (record { purpose = p; cookie = y.cookie })
      → Adds port 1 y (send (recording o) p y).1
  unfolding send
  send-Adds port p y h = record {
    new = record { purpose = p; cookie = y.cookie } ∷ [];
    log = refl;
    few = omega arith;
    about = (h, tt);
  }

  if_good-Adds {ℓ κ} :
      (port a b : ℕ) {A : Type ℓ} {B : Type κ} (x : Logged) (r : Outcome A × Logged)
      (next : A → Run (recording o) B)
      → Adds port a x r.1
      → ((v : A) (y : Logged) → Adds port b y (next v y).1)
      → Adds port (a + b) x (if_good (recording o) r next).1
  if_good-Adds port a b x (qb_error k, y) next f g = at_most port a (a + b) (omega arith) f
  if_good-Adds port a b x (good v, y) next f g = Adds-trans port a b f (g v y)

  after_login-Adds :
      (port : ℕ) (v : Outcome Response) (y : Logged)
      → Adds port 0 y (after_login (recording o) v y).1
  unfolding after_login
  after_login-Adds port (qb_error k) y = none_added port 0 y y refl
  after_login-Adds port (good r) y = elim (Option-cases (login_answer (recording o) r)) [
    | inr (k, q) ↦ rw q (none_added port 0 y y refl)
    | inl q ↦ elim (Option-cases (session (recording o) r.cookies)) [
      | inl s ↦ rw (q, s) (none_added port 0 y y refl)
      | inr (c, s) ↦ rw (q, s) (none_added port 0 y (record y { cookie = c }) refl)
    ]
  ]

  login_as-Adds :
      (port : ℕ) (u p : Option Text) (y : Logged) → Adds port 1 y (login_as (recording o) u p y).1
  unfolding login_as
  login_as-Adds port (some u) (some p) y =
      let y0 : Logged = record y { cookie = [] } in
      let sent = send (recording o) (log_in u p) y0 in
      Adds-trans port 0 1 (none_added port 0 y y0 refl) (
        Adds-trans port 1 0 (send-Adds port (log_in u p) y0 tt)
          (after_login-Adds port sent.0 sent.1))
  login_as-Adds port none p y = none_added port 1 y y refl
  login_as-Adds port (some u) none y = none_added port 1 y y refl

  login-Adds : (port : ℕ) (y : Logged) → Adds port 1 y (login (recording o) y).1
  unfolding login
  login-Adds port y = login_as-Adds port (o.username y.outside.0) (o.password y.outside.0) y

  module _ (port : ℕ) (p : Purpose)
      (h : (c : Text) → IsAbout port (record { purpose = p; cookie = c })) where
    refused_again-Adds :
        (r : Response) (y : Logged) → Adds port 0 y (refused_again (recording o) r y).1
    unfolding refused_again
    refused_again-Adds r y = elim (Bool-cases (r.status == 403)) [
      | inl q ↦ rw q (none_added port 0 y (record y { cookie = [] }) refl)
      | inr q ↦ rw q (none_added port 0 y y refl)
    ]

    send_again-Adds : (y : Logged) → Adds port 1 y (send_again (recording o) p y).1
    unfolding send_again
    send_again-Adds y =
        if_good-Adds port 1 0 y (send (recording o) p y) (refused_again (recording o))
          (send-Adds port p y (h y.cookie)) refused_again-Adds

    retry-Adds : (r : Response) (y : Logged) → Adds port 2 y (retry (recording o) p r y).1
    unfolding retry
    retry-Adds r y = elim (Bool-cases (not (r.status == 403))) [
      | inl q ↦ rw q (none_added port 2 y y refl)
      | inr q ↦ elim (Bool-cases (not o.has_credentials)) [
        | inl c ↦ rw (q, c) (none_added port 2 y y refl)
        | inr c ↦
            let y0 : Logged = record y { cookie = [] } in
            rw (q, c)
              (Adds-trans port 0 2 (none_added port 0 y y0 refl) (
                if_good-Adds port 1 1 y0 (login (recording o) y0)
                  (λ _ z. send_again (recording o) p z) (login-Adds port y0)
                  (λ _ z. send_again-Adds z)))
      ]
    ]

    send_retrying-Adds : (y : Logged) → Adds port 3 y (send_retrying (recording o) p y).1
    unfolding send_retrying
    send_retrying-Adds y =
        if_good-Adds port 1 2 y (send (recording o) p y) (retry (recording o) p)
          (send-Adds port p y (h y.cookie)) retry-Adds

    call-Adds : (y : Logged) → Adds port 4 y (call (recording o) p y).1
    unfolding call
    call-Adds y = elim (Bool-cases (o.has_credentials && not (has_text o y.cookie))) [
      | inl q ↦ rw q (
          if_good-Adds port 1 3 y (login (recording o) y) (λ _ z. send_retrying (recording o) p z)
            (login-Adds port y) (λ _ z. send_retrying-Adds z))
      | inr q ↦ rw q (at_most port 3 4 (omega arith) (send_retrying-Adds y))
    ]

  changed-Adds :
      (current port : ℕ) (r : Response) (y : Logged)
      → Adds port 0 y (changed (recording o) current port r y).1
  unfolding changed
  changed-Adds current port r y = elim (Bool-cases (r.status == 200)) [
    | inl q ↦ rw q (none_added port 0 y (line (recording o) (port_set current port) y) refl)
    | inr q ↦ rw q (none_added port 0 y y refl)
  ]

  change_port-Adds :
      (current port : ℕ) (y : Logged) → Adds port 4 y (change_port (recording o) current port y).1
  unfolding change_port
  change_port-Adds current port y =
      if_good-Adds port 4 0 y (call (recording o) (set_port port) y)
        (changed (recording o) current port) (call-Adds port (set_port port) (λ c. refl) y)
        (changed-Adds current port)

  on_preferences-Adds :
      (port : ℕ) (r : Response) (y : Logged)
      → Adds port 4 y (on_preferences (recording o) port r y).1
  unfolding on_preferences
  on_preferences-Adds port r y = elim (Bool-cases (not (r.status == 200))) [
    | inl q ↦ rw q (none_added port 4 y y refl)
    | inr q ↦ elim (Option-cases (listen_port (recording o) (o.decode_json r.body))) [
      | inl n ↦ rw (q, n) (none_added port 4 y y refl)
      | inr (current, n) ↦ elim (Bool-cases (current == port)) [
        | inl e ↦ rw (q, n, e) (none_added port 4 y y refl)
        | inr e ↦ rw (q, n, e) (change_port-Adds current port y)
      ]
    ]
  ]

  apply-Adds : (port : ℕ) (y : Logged) → Adds port 8 y (apply (recording o) port y).1
  unfolding apply
  apply-Adds port y =
      if_good-Adds port 4 4 y (call (recording o) get_preferences y)
        (on_preferences (recording o) port) (call-Adds port get_preferences (λ c. tt) y)
        (on_preferences-Adds port)

  failure-outside : (k : Kind) (y : Logged) → (failure (recording o) k y).outside ≡ y.outside
  unfolding failure
  failure-outside k y =
      elim (Bool-cases (is_quiet (logged_at k y.last_logged) (o.now y.outside.0))) [
        | inl q ↦ rw q refl
        | inr q ↦ rw q refl
      ]

  -- What was found in the record, and that finding it asks nothing of the application.
  abbrev Found : Option ℕ × Logged → Logged → Type 0
  Found r y = ((n : ℕ) → r.0 ≡ some n → (min_port ≤ n) × (n ≤ max_port)) × (r.1.outside ≡ y.outside)

  none_found : (y z : Logged) → z.outside ≡ y.outside → Found (none, z) y
  none_found y z e = (λ n h. absurd (cc), e)

  port_in-range :
      (v : Option (Json F)) (n : ℕ)
      → port_in (recording o) v ≡ some n
      → (min_port ≤ n) × (n ≤ max_port)
  unfolding port_in
  port_in-range (some (whole k)) n h = ground arith
  port_in-range none n h = cc
  port_in-range (some v) n h = cc

  port_of-Found : (v : Option (Json F)) (y : Logged) → Found (port_of (recording o) v y) y
  unfolding port_of if_port
  port_of-Found v y = elim (Bool-cases (is_nil v)) [
    | inl e ↦ elim (Bool-cases y.no_port_said) [
      | inl s ↦ rw (e, s) (none_found y y refl)
      | inr s ↦
          rw (e, s)
            (none_found y (line (recording o) no_port_line (record y { no_port_said = true })) refl)
    ]
    | inr e ↦
        let seen : Logged = record y { no_port_said = false } in
        elim (Option-cases (port_in (recording o) v)) [
          | inl q ↦
              rw (e, q)
                (none_found y (failure (recording o) port_value seen)
                  (failure-outside port_value seen))
          | inr (n, q) ↦
              rw (e, q) ((λ k h. let z : n ≡ k = cc in rw (← z) (port_in-range v n q)), refl)
        ]
  ]

  forwarded_port-Found :
      (m : Option (Object F)) (y : Logged) → Found (forwarded_port (recording o) m y) y
  unfolding forwarded_port
  forwarded_port-Found none y =
      none_found y (failure (recording o) record_kind y) (failure-outside record_kind y)
  forwarded_port-Found (some m) y =
      elim (Bool-cases (recent max_record_age (o.now y.outside.0) (get (bytes "checked_at") m))) [
        | inr r ↦
            rw r
              (none_found y (failure (recording o) record_kind y) (failure-outside record_kind y))
        | inl r ↦ elim (Bool-cases (is_string (bytes "sidecar") (get (bytes "kind") m))) [
          | inr k ↦
              rw (r, k) (none_found y (failure (recording o) foreign y) (failure-outside foreign y))
          | inl k ↦ rw (r, k) (port_of-Found (get (bytes "forwarded_port") m) y)
        ]
      ]

  log_error-Adds :
      (port n : ℕ) (x : Logged) (r : Outcome (Unit {0}) × Logged)
      → Adds port n x r.1
      → Adds port n x (log_error (recording o) r)
  log_error-Adds port n x (good v, y) f = f
  log_error-Adds port n x (qb_error k, y) f = at_most port (n + 0) n (omega arith) (
      Adds-trans port n 0 f (none_added port 0 y (failure (recording o) k y) (failure-outside k y)))

  sync_port-Adds : (port : ℕ) (y : Logged) → Adds port 8 y (sync_port (recording o) (some port) y)
  unfolding sync_port
  sync_port-Adds port y = elim (Bool-cases (o.cancelled y.outside.0)) [
    | inl c ↦ rw c (none_added port 8 y y refl)
    | inr c ↦ rw c (log_error-Adds port 8 y (apply (recording o) port y) (apply-Adds port y))
  ]

  -- A pass over a status record makes no request unless it finds a forwarded port in it; then it
  -- makes at most eight, the port is from 1024 to 65535, and no request sets another port.
  pub step-Adds :
      (m : Option (Object F)) (y : Logged)
      → (((forwarded_port (recording o) m y).0 ≡ none)
          × ((step (recording o) m y).outside ≡ y.outside))
        ⊎ ((port : ℕ) × (((forwarded_port (recording o) m y).0 ≡ some port)
              × ((min_port ≤ port) × ((port ≤ max_port) × Adds port 8 y (step (recording o) m y)))))
  unfolding step
  step-Adds m y =
      let (range, same) = forwarded_port-Found m y in
      let found = forwarded_port (recording o) m y in
      elim (Option-cases found.0) [
        | inl q ↦ inl (q, rw q same)
        | inr (port, q) ↦
            let (low, high) = range port q in
            inr (
              port,
              (
                q,
                (
                  low,
                  (
                    high,
                    rw q (
                        Adds-trans port 0 8 (none_added port 0 y found.1 same)
                          (sync_port-Adds port found.1)),
                  ),
                ),
              ),
            )
      ]
