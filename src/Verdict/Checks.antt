-- ===== src/Verdict/Checks.antt =====
-- internal/verdict/verdict.go: the checks of a status record and how each one is read.
--
-- The names and the states of checks are data types in place of strings; a text that names none of
-- them is none. Kinds, backends and tiers stay texts, as a record may hold any.
use molebridge.Base.{
  ℕ, Bool, true, false, not, ◌&&◌, ◌||◌, ◌*◌, Option, none, some, List, [], ◌∷◌, ◌++◌, ◌==◌, leb,
  same, any, Text, bytes, Text-discrete, if◌then◌else◌, suc,
}
use molebridge.Validate.Json.{
  Json, null, whole, string, array, Items, no_item, item, object, Object, no_member, member, get,
  size, no_items, members_of, as_string, is_string, is_nil, same_values,
}
use molebridge.Validate.Time.{second, fresh, parse_time}
use molebridge.Verdict.Request.{
  tier_provider, tier_tunnel, backend_native, backend_gluetun, is_text, World,
}

pub data CheckName : Type 0 where
  routing netbird owner_record peer handshake egress traffic_protection app_attachment : CheckName

pub data CheckState : Type 0 where
  pass fail unknown n_a not_checked legacy_state : CheckState

unfoldable pub CheckName-discrete : Discrete CheckName
CheckName-discrete = hlevel

unfoldable pub CheckState-discrete : Discrete CheckState
CheckState-discrete = hlevel

unfoldable pub name_text : CheckName → Text
name_text routing = bytes "routing"
name_text netbird = bytes "netbird"
name_text owner_record = bytes "owner_record"
name_text peer = bytes "peer"
name_text handshake = bytes "handshake"
name_text egress = bytes "egress"
name_text traffic_protection = bytes "traffic_protection"
name_text app_attachment = bytes "app_attachment"

-- `contains(CheckStates, text)`, with the state that the text names.
unfoldable pub state_named : Text → Option CheckState
unfolding Text-discrete
state_named t =
    if is_text t (bytes "pass")
    then some pass
    else if is_text t (bytes "fail")
    then some fail
    else if is_text t (bytes "unknown")
    then some unknown
    else if is_text t (bytes "n/a")
    then some n_a
    else if is_text t (bytes "not-checked")
    then some not_checked
    else none

abbrev pub evidence_max_age : ℕ
evidence_max_age = 150

abbrev pub handshake_fresh_sec : ℕ
handshake_fresh_sec = 180

abbrev pub is_name : CheckName → CheckName → Bool
is_name a b = same CheckName-discrete a b

abbrev pub server_bound : List CheckName
server_bound = peer ∷ handshake ∷ egress ∷ []

abbrev pub is_family : Text → Bool
is_family f = is_text f (bytes "4") || is_text f (bytes "6")

abbrev pub is_sidecar_kind : Text → Bool
is_sidecar_kind k = is_text k (bytes "sidecar")

unfoldable pub required_checks : Text → Text → List CheckName
unfolding Text-discrete
required_checks kind backend =
    if is_sidecar_kind kind
    then (if is_text backend backend_native
        then routing ∷ traffic_protection ∷ peer ∷ handshake ∷ egress ∷ []
        else peer ∷ handshake ∷ egress ∷ [])
    else if is_text backend backend_native
    then routing ∷ netbird ∷ owner_record ∷ peer ∷ handshake ∷ egress ∷ traffic_protection ∷ []
    else routing ∷ netbird ∷ peer ∷ handshake ∷ egress ∷ traffic_protection ∷ []

-- `Checks`: the displayed states, in order.
abbrev pub Checks : Type 0
Checks = List (CheckName × CheckState)

unfoldable pub state_of_check : CheckName → Checks → Option CheckState
unfolding CheckName-discrete
state_of_check n [] = none
state_of_check n ((m, s) ∷ cs) =
    let rest = state_of_check n cs in if is_name m n then some s else rest

unfoldable pub set_check : CheckName → CheckState → Checks → Checks
unfolding CheckName-discrete
set_check n s [] = (n, s) ∷ []
set_check n s ((m, t) ∷ cs) =
    let rest = (m, t) ∷ set_check n s cs in if is_name m n then (m, s) ∷ cs else rest

unfoldable pub shows : CheckName → CheckState → Checks → Bool
unfolding state_of_check CheckState-discrete
shows n s cs = elim (state_of_check n cs) [ none ↦ false | some t ↦ same CheckState-discrete t s ]

unfoldable pub fixed_checks : Text → Text → Checks
unfolding Text-discrete
fixed_checks kind backend =
    if is_sidecar_kind kind
    then (if is_text backend backend_native
        then (netbird, n_a) ∷ (owner_record, n_a) ∷ (app_attachment, not_checked) ∷ []
        else (routing, n_a)
          ∷ (netbird, n_a)
          ∷ (owner_record, n_a)
          ∷ (traffic_protection, not_checked)
          ∷ (app_attachment, not_checked)
          ∷ [])
    else if is_text backend backend_gluetun
    then (app_attachment, n_a) ∷ (owner_record, n_a) ∷ []
    else (app_attachment, n_a) ∷ []

-- `ID` is never read here.
pub record ExitConfig : Type 0 where
  pub provider : Text
  pub kind : Text

-- The problems among the required checks, and what is displayed so far.
pub record Reading : Type 0 where
  pub display : Checks
  pub failed : List CheckName
  pub expired : List CheckName
  pub unmeasured : List CheckName

-- A reading before the loop.
abbrev pub none_yet : Checks → Reading
none_yet fixed = record { display = fixed; failed = []; expired = []; unmeasured = [] }

-- What one check comes to.
pub data Finding : Type 0 where
  malformed passing failing stale missing : Finding

abbrev pub is_malformed : Finding → Bool
is_malformed malformed = true
is_malformed _ = false

unfoldable pub note : CheckName → Finding → Reading → Reading
unfolding set_check
note n malformed r = r
note n passing r = record r { display = set_check n pass r.display }
note n failing r = record r { display = set_check n fail r.display; failed = r.failed ++ n ∷ [] }
note n stale r = record r { display = set_check n unknown r.display; expired = r.expired ++ n ∷ [] }
note n missing r = record r {
  display = set_check n unknown r.display;
  unmeasured = r.unmeasured ++ n ∷ [];
}

module _ {F : Type 0} where
  unfoldable pub lease_lapsed : Object F → ℕ → Bool
  unfolding get parse_time
  lease_lapsed check now = elim (get (bytes "expires_at") check) [
    | none ↦ false
    | some v ↦ elim (parse_time (some v)) [
      | none ↦ true
      | some deadline ↦ leb (deadline * second) now
    ]
  ]

  -- Whether the age of a handshake has the right shape.
  unfoldable pub age_ok : Bool → Option (Json F) → Bool
  age_ok passed none = not passed
  age_ok passed (some null) = not passed
  age_ok passed (some (whole n)) = not (passed && leb handshake_fresh_sec n)
  age_ok passed (some _) = false

  unfoldable pub families_known : Object F → Bool
  unfolding Text-discrete state_named
  families_known no_member = true
  families_known (member k (string s) rest) =
      is_family k && (elim (state_named s) [ none ↦ false | some _ ↦ true ] && families_known rest)
  families_known (member k _ rest) = false

  -- The expected families: strings that are families, none of them twice.
  unfoldable pub expected_known : List Text → Items F → Bool
  unfolding Text-discrete
  expected_known seen no_item = true
  expected_known seen (item (string f) rest) =
      is_family f && (not (any (is_text f) seen) && expected_known (f ∷ seen) rest)
  expected_known seen (item _ rest) = false

  unfoldable pub all_pass : Object F → Items F → Bool
  unfolding get Text-discrete
  all_pass families no_item = true
  all_pass families (item (string f) rest) =
      is_string (bytes "pass") (get f families) && all_pass families rest
  all_pass families (item _ rest) = false

  module _ (w : World F) where
    unfoldable pub backend_of : Text → Text
    unfolding Text-discrete
    backend_of provider = elim (w.lookup provider) [
      | none ↦ backend_native
      | some p ↦ if is_text p.backend backend_gluetun then backend_gluetun else backend_native
    ]

    unfoldable pub backend : ExitConfig → Text
    unfolding backend_of
    backend e = backend_of e.provider

    unfoldable pub gluetun_sidecar : ExitConfig → Bool
    unfolding backend Text-discrete
    gluetun_sidecar e = is_sidecar_kind e.kind && is_text (backend e) backend_gluetun

    -- Whether the tier of a passing egress check counts for the exit.
    unfoldable pub tier_ok : ExitConfig → Option (Json F) → Bool
    unfolding gluetun_sidecar Text-discrete
    tier_ok e v = elim (as_string v) [
      | none ↦ false
      | some t ↦
          if is_text t tier_tunnel
          then not (gluetun_sidecar e) && elim (w.lookup e.provider) [
            | none ↦ false
            | some p ↦ is_text p.egress_tier tier_tunnel
          ]
          else is_text t tier_provider
    ]

    unfoldable pub egress_shape : ExitConfig → Bool → Object F → Object F → Items F → Bool
    unfolding families_known expected_known all_pass tier_ok get
    egress_shape e passed check families expected =
        not (no_items expected)
        && (families_known families
            && (expected_known [] expected
                && (not passed
                    || all_pass families expected && tier_ok e (get (bytes "tier") check))))

    unfoldable pub egress_ok : ExitConfig → Bool → Object F → Bool
    unfolding egress_shape get
    egress_ok e passed check = elim (get (bytes "families") check) [
      | some (object families) ↦ elim (get (bytes "expected_families") check) [
        | some (array expected) ↦ egress_shape e passed check families expected
        | _ ↦ false
      ]
      | _ ↦ false
    ]

    unfoldable pub valid_shape : CheckName → Object F → Bool → ExitConfig → Bool
    unfolding age_ok egress_ok get
    valid_shape handshake check passed e = age_ok passed (get (bytes "age_s") check)
    valid_shape egress check passed e = egress_ok e passed check
    valid_shape _ check passed e = true

    -- A measured check: its age, then its server, then the owner's lease.
    unfoldable pub measured :
        ExitConfig → Option (Json F) → ℕ → CheckName → Object F → Bool → Finding
    unfolding valid_shape fresh same_values lease_lapsed get CheckName-discrete
    measured e server now n check passed =
        let at = get (bytes "server") check in
        if not (valid_shape n check passed e)
        then malformed
        else if not (fresh evidence_max_age now (get (bytes "at") check))
        then stale
        else if any (is_name n) server_bound
            && ((not (same_values w.same_float at server) || is_nil server) && passed)
        then stale
        else if passed && not (is_name n owner_record && lease_lapsed check now)
        then passing
        else failing

    unfoldable pub in_state :
        ExitConfig → Option (Json F) → ℕ → CheckName → Object F → Option CheckState → Finding
    unfolding measured
    in_state e server now n check (some pass) = measured e server now n check true
    in_state e server now n check (some fail) = measured e server now n check false
    in_state e server now n check (some unknown) = missing
    in_state e server now n check _ = malformed

    unfoldable pub from_text :
        ExitConfig → Option (Json F) → ℕ → CheckName → Object F → Option Text → Finding
    unfolding state_named in_state
    from_text e server now n check none = malformed
    from_text e server now n check (some s) = in_state e server now n check (state_named s)

    -- One turn of the loop: what the check with this name comes to.
    unfoldable pub judge_check :
        ExitConfig → Option (Json F) → ℕ → CheckName → Option (Json F) → Finding
    unfolding get from_text
    judge_check e server now n (some (object check)) =
        from_text e server now n check (as_string (get (bytes "state") check))
    judge_check e server now n _ = malformed

    -- The loop over the required checks; it is left at a malformed one.
    unfoldable pub read_each :
        ExitConfig → Option (Json F) → ℕ → Object F → List CheckName → Reading → Reading × Bool
    unfolding get name_text judge_check note
    read_each e server now raw [] r = (r, true)
    read_each e server now raw (n ∷ ns) r =
        let found = judge_check e server now n (get (name_text n) raw) in
        let rest = read_each e server now raw ns (note n found r) in
        if is_malformed found then (r, false) else rest

  abbrev pub count_listed : Bool → Option (Json F) → Option ℕ → Option ℕ
  count_listed false listed n = n
  count_listed true none n = none
  count_listed true (some _) none = none
  count_listed true (some _) (some n) = some (suc n)

  -- How many families pass, if each of them is listed.
  unfoldable pub passing_listed : Object F → Object F → Option ℕ
  unfolding get Text-discrete
  passing_listed ips no_member = some 0
  passing_listed ips (member f v rest) =
      count_listed (is_string (bytes "pass") (some v)) (get f ips) (passing_listed ips rest)

  -- `EgressIPsConsistent`
  unfoldable pub egress_ips_consistent : Object F → Bool
  unfolding get passing_listed
  egress_ips_consistent m =
      let checks = members_of (get (bytes "checks") m) in
      elim (get (bytes "egress") checks) [
        | some (object check) ↦ elim (get (bytes "egress_ips") m) [
          | some (object ips) ↦
              elim (passing_listed ips (members_of (get (bytes "families") check))) [
                | none ↦ false
                | some n ↦ size ips == n
              ]
          | _ ↦ false
        ]
        | _ ↦ false
      ]

  -- A pass of traffic protection comes from routing, and routing does not fail.
  unfoldable pub protection_ok : List CheckName → Object F → Checks → Bool
  unfolding get shows CheckName-discrete Text-discrete
  protection_ok required raw display =
      let protection = members_of (get (bytes "traffic_protection") raw) in
      not (any (is_name traffic_protection) required && shows traffic_protection pass display)
      || is_string (bytes "routing") (get (bytes "from") protection)
        && not (shows routing fail display)

  unfoldable pub checks_agree : List CheckName → Object F → Object F → Checks → Bool
  unfolding protection_ok egress_ips_consistent shows
  checks_agree required raw m display =
      protection_ok required raw display
      && (not (shows egress pass display) || egress_ips_consistent m)

  unfoldable pub read_required :
      World F → ExitConfig → Object F → ℕ → Option (Json F) → Reading × Bool
  unfolding backend fixed_checks required_checks read_each checks_agree get
  read_required w e m now (some (object raw)) =
      let required = required_checks e.kind (backend w e) in
      let start = none_yet (fixed_checks e.kind (backend w e)) in
      let (r, ok) = read_each w e (get (bytes "server") m) now raw required start in
      (r, ok && checks_agree required raw m r.display)
  read_required w e m now _ = (none_yet (fixed_checks e.kind (backend w e)), false)

  -- `readChecks`: the reading, and whether the record is well formed.
  unfoldable pub read_checks : World F → ExitConfig → Object F → ℕ → Reading × Bool
  unfolding get read_required
  read_checks w e m now = read_required w e m now (get (bytes "checks") m)
