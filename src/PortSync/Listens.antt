-- ===== src/PortSync/Listens.antt =====
-- internal/portsync/sync.go: what a pass without an error leaves in the application.
use molebridge.Base.{
  ℕ, true, not, ◌&&◌, ◌≡◌, refl, ap, ◌∙◌, inl, inr, some, [], ◌==◌, Bool-cases, Option-cases, arith,
}
use molebridge.PortSync.Sync.{
  Purpose, get_preferences, set_port, Request, Response, Outside, Syncer, Outcome, qb_error, good,
  Run, send, login, if_good, refused_again, send_again, retry, send_retrying, has_text, call,
  listen_port, change_port, changed, on_preferences, apply,
}

module _ {F S : Type 0} (o : Outside F S) where
  -- The documented behaviour of the application: it answers with the port that it listens on, and
  -- it listens on the port that it has accepted.
  pub record Honest (listens : S → ℕ) : Type 0 where
    pub answers-listens :
        (q : Request) (s : S) (r : Response) (n : ℕ)
        → q.purpose ≡ get_preferences
        → (o.fetch q s).0 ≡ some r
        → (r.status == 200) ≡ true
        → listen_port o (o.decode_json r.body) ≡ some n
        → listens (o.fetch q s).1 ≡ n
    pub accepts-listens :
        (q : Request) (s : S) (r : Response) (n : ℕ)
        → q.purpose ≡ set_port n
        → (o.fetch q s).0 ≡ some r
        → (r.status == 200) ≡ true
        → listens (o.fetch q s).1 ≡ n

  -- The answer of the application to some request with this purpose, and what it left.
  pub record Answered (p : Purpose) (r : Response) (y : Syncer S) : Type 0 where
    pub request : Request
    pub before : S
    pub asked : request.purpose ≡ p
    pub answer : (o.fetch request before).0 ≡ some r
    pub left : y.outside ≡ (o.fetch request before).1

  Answers : Purpose → Outcome Response × Syncer S → Type 0
  Answers p (qb_error k, y) = Unit
  Answers p (good r, y) = Answered p r y

  send-Answers : (p : Purpose) (y : Syncer S) → Answers p (send o p y)
  unfolding send Answers
  send-Answers p y =
      let q : Request = record { purpose = p; cookie = y.cookie } in
      elim (Option-cases (o.fetch q y.outside).0) [
        | inl e ↦ rw e tt
        | inr (r, e) ↦
            rw e (record { request = q; before = y.outside; asked = refl; answer = e; left = refl })
      ]

  if_good-Answers {ℓ} :
      {A : Type ℓ} (p : Purpose) (r : Outcome A × Syncer S) (next : A → Run o Response)
      → ((v : A) → r.0 ≡ good v → Answers p (next v r.1))
      → Answers p (if_good o r next)
  unfolding Answers
  if_good-Answers p (qb_error k, y) next f = tt
  if_good-Answers p (good v, y) next f = f v refl

  answered :
      (p : Purpose) (x : Outcome Response × Syncer S) (r : Response)
      → Answers p x
      → x.0 ≡ good r
      → Answered p r x.1
  unfolding Answers
  answered p (qb_error k, y) r a h = cc
  answered p (good v, y) r a h = let e : v ≡ r = cc in rw (← e) a

  send_again-Answers : (p : Purpose) (y : Syncer S) → Answers p (send_again o p y)
  unfolding send_again refused_again Answers
  send_again-Answers p y = if_good-Answers p (send o p y) (refused_again o) (λ r e.
      elim (Bool-cases (r.status == 403)) [
        | inl q ↦ rw q tt
        | inr q ↦ rw q (answered p (send o p y) r (send-Answers p y) e)
      ])

  retry-Answers :
      (p : Purpose) (r : Response) (y : Syncer S) → Answered p r y → Answers p (retry o p r y)
  unfolding retry Answers
  retry-Answers p r y a = elim (Bool-cases (not (r.status == 403))) [
    | inl q ↦ rw q a
    | inr q ↦ elim (Bool-cases (not o.has_credentials)) [
      | inl c ↦ rw (q, c) tt
      | inr c ↦
          let y0 : Syncer S = record y { cookie = [] } in
          rw (q, c)
            (if_good-Answers p (login o y0) (λ _ z. send_again o p z)
              (λ _ e. send_again-Answers p (login o y0).1))
    ]
  ]

  send_retrying-Answers : (p : Purpose) (y : Syncer S) → Answers p (send_retrying o p y)
  unfolding send_retrying
  send_retrying-Answers p y =
      if_good-Answers p (send o p y) (retry o p)
        (λ r e. retry-Answers p r (send o p y).1 (answered p (send o p y) r (send-Answers p y) e))

  call-Answers : (p : Purpose) (y : Syncer S) → Answers p (call o p y)
  unfolding call
  call-Answers p y = elim (Bool-cases (o.has_credentials && not (has_text o y.cookie))) [
    | inl q ↦ rw q (
        if_good-Answers p (login o y) (λ _ z. send_retrying o p z)
          (λ _ e. send_retrying-Answers p (login o y).1))
    | inr q ↦ rw q (send_retrying-Answers p y)
  ]

  module _ (listens : S → ℕ) (h : Honest listens) where
    Listening : ℕ → Outcome (Unit {0}) × Syncer S → Type 0
    Listening port (qb_error k, y) = Unit
    Listening port (good v, y) = listens y.outside ≡ port

    listening :
        (port : ℕ) (x : Outcome (Unit {0}) × Syncer S)
        → Listening port x
        → x.0 ≡ good tt
        → listens x.1.outside ≡ port
    unfolding Listening
    listening port (qb_error k, y) l e = cc
    listening port (good v, y) l e = l

    if_good-Listening :
        (port : ℕ) (p : Purpose) (r : Outcome Response × Syncer S)
        (next : Response → Run o (Unit {0}))
        → Answers p r
        → ((v : Response) (y : Syncer S) → Answered p v y → Listening port (next v y))
        → Listening port (if_good o r next)
    unfolding Listening Answers
    if_good-Listening port p (qb_error k, y) next a f = tt
    if_good-Listening port p (good v, y) next a f = f v y a

    changed-Listening :
        (current port : ℕ) (r : Response) (y : Syncer S)
        → Answered (set_port port) r y
        → Listening port (changed o current port r y)
    unfolding changed Listening
    changed-Listening current port r y a = elim (Bool-cases (r.status == 200)) [
      | inr q ↦ rw q tt
      | inl q ↦
          rw q (ap listens a.left ∙ h.accepts-listens a.request a.before r port a.asked a.answer q)
    ]

    change_port-Listening :
        (current port : ℕ) (y : Syncer S) → Listening port (change_port o current port y)
    unfolding change_port
    change_port-Listening current port y =
        if_good-Listening port (set_port port) (call o (set_port port) y) (changed o current port)
          (call-Answers (set_port port) y) (changed-Listening current port)

    on_preferences-Listening :
        (port : ℕ) (r : Response) (y : Syncer S)
        → Answered get_preferences r y
        → Listening port (on_preferences o port r y)
    unfolding on_preferences Listening
    on_preferences-Listening port r y a = elim (Bool-cases (r.status == 200)) [
      | inr q ↦ rw q tt
      | inl q ↦ elim (Option-cases (listen_port o (o.decode_json r.body))) [
        | inl n ↦ rw (q, n) tt
        | inr (current, n) ↦ elim (Bool-cases (current == port)) [
          | inr e ↦ rw (q, n, e) (change_port-Listening current port y)
          | inl e ↦
              let same : current ≡ port = ground arith in
              rw (q, n, e)
                (ap listens a.left
                  ∙ h.answers-listens a.request a.before r current a.asked a.answer q n
                  ∙ same)
        ]
      ]
    ]

    apply-Listening : (port : ℕ) (y : Syncer S) → Listening port (apply o port y)
    unfolding apply
    apply-Listening port y =
        if_good-Listening port get_preferences (call o get_preferences y) (on_preferences o port)
          (call-Answers get_preferences y) (on_preferences-Listening port)

    -- An attempt to set a port that ends without an error leaves the application listening on it,
    -- whether or not a login was needed, if the application answers with the port that it listens
    -- on and listens on a port that it has accepted.
    pub apply-listens :
        (port : ℕ) (y : Syncer S)
        → (apply o port y).0 ≡ good tt
        → listens (apply o port y).1.outside ≡ port
    apply-listens port y e = listening port (apply o port y) (apply-Listening port y) e
