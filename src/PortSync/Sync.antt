-- ===== src/PortSync/Sync.antt =====
-- internal/portsync/sync.go: one pass of the role over the application's HTTP interface.
--
-- The application, the clock and the credential files are a state `S` with one function for each
-- thing that is asked of it. An error is its kind, and a log line its meaning; their texts are left
-- out. A request is its purpose and the cookie that it carries. The decoder of JSON and
-- strings.TrimSpace are parameters.
use molebridge.Base.{
  ℕ, ◌-◌, ◌*◌, ◌^◌, Bool, true, false, not, ◌&&◌, ◌||◌, Option, none, some, List, [], ◌∷◌, ◌++◌,
  ◌==◌, leb, ltb, same, Text, bytes, Text-discrete, if◌then◌else◌,
}
use molebridge.Validate.Json.{Json, whole, object, Object, get, is_nil, is_string}
use molebridge.Validate.Lenient.{recent}

pub data Kind : Type 0 where
  record_kind foreign port_value unreachable credentials login_kind forbidden : Kind
  answer_kind secret_file : Kind

unfoldable pub Kind-discrete : Discrete Kind
Kind-discrete = hlevel

abbrev pub min_port : ℕ
min_port = 1024

abbrev pub max_port : ℕ
max_port = 65535

abbrev pub max_record_age : ℕ
max_record_age = 150

abbrev pub repeat_after : ℕ
repeat_after = 60 * 10 ^ 9

pub data Purpose : Type 0 where
  get_preferences : Purpose
  set_port : ℕ → Purpose
  log_in : Text → Text → Purpose

pub record Request : Type 0 where
  pub purpose : Purpose
  pub cookie : Text

-- `Cookies()` gives names and values.
pub record Response : Type 0 where
  pub status : ℕ
  pub body : Text
  pub cookies : List (Text × Text)

pub data Line : Type 0 where
  failure_line : Kind → Line
  no_port_line : Line
  port_set : ℕ → ℕ → Line

pub record Outside (F S : Type 0) : Type 0 where
  pub fetch : Request → S → Option Response × S
  pub now : S → ℕ
  pub cancelled : S → Bool
  -- `ReadCredential` of the two files, and whether they are set
  pub has_credentials : Bool
  pub username : S → Option Text
  pub password : S → Option Text
  pub decode_json : Text → Option (Json F)
  pub trim_space : Text → Text

-- `Syncer` with what is around it.
pub record Syncer (S : Type 0) : Type 0 where
  pub outside : S
  pub cookie : Text
  -- failure kind and when it was last logged
  pub last_logged : List (Kind × ℕ)
  pub no_port_said : Bool
  pub lines : List Line

abbrev pub logged_at : Kind → List (Kind × ℕ) → Option ℕ
logged_at k [] = none
logged_at k ((j, t) ∷ rest) =
    let later = logged_at k rest in if same Kind-discrete j k then some t else later

-- A failure of the kind is quiet within a minute of the last one, unless the clock went back.
unfoldable pub is_quiet : Option ℕ → ℕ → Bool
is_quiet none now = false
is_quiet (some last) now = ltb (now - last) repeat_after && leb last now

-- `(value, error)` of a call: one of the two.
pub data Outcome {ℓ} (A : Type ℓ) : Type ℓ where
  qb_error : Kind → Outcome A
  good : A → Outcome A

module _ {F S : Type 0} (o : Outside F S) where
  abbrev pub Run {ℓ} : Type ℓ → Type ℓ
  Run A = Syncer S → Outcome A × Syncer S

  abbrev pub line : Line → Syncer S → Syncer S
  line l y = record y { lines = y.lines ++ l ∷ [] }

  unfoldable pub failure : Kind → Syncer S → Syncer S
  unfolding is_quiet Kind-discrete
  failure k y =
      let now = o.now y.outside in
      if is_quiet (logged_at k y.last_logged) now
      then y
      else line (failure_line k) (record y { last_logged = (k, now) ∷ y.last_logged })

  -- An integer in the range.
  unfoldable pub port_in : Option (Json F) → Option ℕ
  port_in (some (whole n)) = if leb min_port n && leb n max_port then some n else none
  port_in _ = none

  unfoldable pub if_port : Option ℕ → Syncer S → Option ℕ × Syncer S
  unfolding failure
  if_port (some n) y = (some n, y)
  if_port none y = (none, failure port_value y)

  -- A judgment of the member: the port, or none after it has logged why not.
  unfoldable pub port_of : Option (Json F) → Syncer S → Option ℕ × Syncer S
  unfolding port_in if_port
  port_of v y =
      if is_nil v
      then (
        none,
        if y.no_port_said then y else line no_port_line (record y { no_port_said = true }),
      )
      else if_port (port_in v) (record y { no_port_said = false })

  unfoldable pub forwarded_port : Option (Object F) → Syncer S → Option ℕ × Syncer S
  unfolding get recent failure port_of Text-discrete
  forwarded_port none y = (none, failure record_kind y)
  forwarded_port (some m) y =
      if not (recent max_record_age (o.now y.outside) (get (bytes "checked_at") m))
      then (none, failure record_kind y)
      else if not (is_string (bytes "sidecar") (get (bytes "kind") m))
      then (none, failure foreign y)
      else port_of (get (bytes "forwarded_port") m) y

  abbrev pub or_unreachable : Option Response → Outcome Response
  or_unreachable none = qb_error unreachable
  or_unreachable (some r) = good r

  unfoldable pub send : Purpose → Run Response
  send p y =
      let (answer, s) = o.fetch (record { purpose = p; cookie = y.cookie }) y.outside in
      (or_unreachable answer, record y { outside = s })

  abbrev pub starts_with : Text → Text → Bool
  starts_with [] s = true
  starts_with (c ∷ cs) [] = false
  starts_with (c ∷ cs) (d ∷ ds) = c == d && starts_with cs ds

  abbrev pub has_text : Text → Bool
  has_text [] = false
  has_text (c ∷ cs) = true

  -- The session cookie among those of an answer: `SID`, or `QBT_SID_<port>`.
  unfoldable pub session : List (Text × Text) → Option Text
  unfolding Text-discrete
  session [] = none
  session ((name, value) ∷ rest) =
      let later = session rest in
      if has_text value
        && (same Text-discrete name (bytes "SID") || starts_with (bytes "QBT_SID_") name)
      then some (name ++ bytes "=" ++ value)
      else later

  -- What the answer to a login says.
  unfoldable pub login_answer : Response → Option Kind
  unfolding Text-discrete
  login_answer r =
      let body = o.trim_space r.body in
      if r.status == 401
      then some credentials
      else if r.status == 204
      then none
      else if r.status == 200
      then (if same Text-discrete body (bytes "Ok.")
          then none
          else if same Text-discrete body (bytes "Fails.")
          then some credentials
          else some login_kind)
      else some login_kind

  abbrev pub keep_session : Option Text → Run (Unit {0})
  keep_session none y = (qb_error login_kind, y)
  keep_session (some c) y = (good tt, record y { cookie = c })

  abbrev pub judge_login : Option Kind → Response → Run (Unit {0})
  judge_login (some k) r y = (qb_error k, y)
  judge_login none r y = keep_session (session r.cookies) y

  unfoldable pub after_login : Outcome Response → Run (Unit {0})
  unfolding login_answer session
  after_login (qb_error k) y = (qb_error k, y)
  after_login (good r) y = judge_login (login_answer r) r y

  unfoldable pub login_as : Option Text → Option Text → Run (Unit {0})
  unfolding send after_login
  login_as (some user) (some pass) y =
      let (answer, y') = send (log_in user pass) (record y { cookie = [] }) in after_login answer y'
  login_as _ _ y = (qb_error secret_file, y)

  unfoldable pub login : Run (Unit {0})
  unfolding login_as
  login y = login_as (o.username y.outside) (o.password y.outside) y

  abbrev pub if_good {ℓ κ} :
      {A : Type ℓ} {B : Type κ} → Outcome A × Syncer S → (A → Run B) → Outcome B × Syncer S
  if_good (qb_error k, y) next = (qb_error k, y)
  if_good (good a, y) next = next a y

  -- The second request, after a new login.
  unfoldable pub refused_again : Response → Run Response
  refused_again r y =
      if r.status == 403 then (qb_error forbidden, record y { cookie = [] }) else (good r, y)

  unfoldable pub send_again : Purpose → Run Response
  unfolding send refused_again
  send_again p y = if_good (send p y) refused_again

  -- What follows an answer: a forbidden request is made again after a new login.
  unfoldable pub retry : Purpose → Response → Run Response
  unfolding login send_again
  retry p r y =
      if not (r.status == 403)
      then (good r, y)
      else if not o.has_credentials
      then (qb_error forbidden, y)
      else if_good (login (record y { cookie = [] })) (λ _ y'. send_again p y')

  unfoldable pub send_retrying : Purpose → Run Response
  unfolding send retry
  send_retrying p y = if_good (send p y) (retry p)

  unfoldable pub call : Purpose → Run Response
  unfolding login send_retrying
  call p y =
      if o.has_credentials && not (has_text y.cookie)
      then if_good (login y) (λ _ y'. send_retrying p y')
      else send_retrying p y

  -- The port that the preferences name.
  unfoldable pub listen_port : Option (Json F) → Option ℕ
  unfolding get
  listen_port (some (object m)) = elim (get (bytes "listen_port") m) [
    | some (whole n) ↦ if leb n 65535 then some n else none
    | _ ↦ none
  ]
  listen_port _ = none

  unfoldable pub changed : ℕ → ℕ → Response → Run (Unit {0})
  changed current port r y =
      if r.status == 200
      then (good tt, line (port_set current port) y)
      else (qb_error answer_kind, y)

  unfoldable pub change_port : ℕ → ℕ → Run (Unit {0})
  unfolding call changed
  change_port current port y = if_good (call (set_port port) y) (changed current port)

  abbrev pub if_other : Option ℕ → ℕ → (ℕ → Run (Unit {0})) → Run (Unit {0})
  if_other none port change y = (qb_error answer_kind, y)
  if_other (some current) port change y = if current == port then (good tt, y) else change current y

  unfoldable pub on_preferences : ℕ → Response → Run (Unit {0})
  unfolding listen_port change_port
  on_preferences port r y =
      if not (r.status == 200)
      then (qb_error answer_kind, y)
      else if_other (listen_port (o.decode_json r.body)) port (λ current. change_port current port)
          y

  unfoldable pub apply : ℕ → Run (Unit {0})
  unfolding call on_preferences
  apply port y = if_good (call get_preferences y) (on_preferences port)

  abbrev pub log_error : Outcome (Unit {0}) × Syncer S → Syncer S
  log_error (qb_error k, y) = failure k y
  log_error (good _, y) = y

  unfoldable pub sync_port : Option ℕ → Syncer S → Syncer S
  unfolding failure apply
  sync_port none y = y
  sync_port (some port) y = if o.cancelled y.outside then y else log_error (apply port y)

  -- `Step`, on the record that was read.
  unfoldable pub step : Option (Object F) → Syncer S → Syncer S
  unfolding forwarded_port sync_port
  step m y = let (port, y') = forwarded_port m y in sync_port port y'
