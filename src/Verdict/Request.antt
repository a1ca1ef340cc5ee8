-- ===== src/Verdict/Request.antt =====
-- internal/state/state.go and internal/providers/providers.go: the panel's request, the configured
-- server of a status record, and what they need of the provider registry.
--
-- `Lookup` reads the registry as it is at the time: a function here. `utf8.DecodeRuneInString` and
-- `unicode.IsPrint` are parameters; a rune's width is the number of bytes to skip.
use molebridge.Base.{
  ℕ, zero, suc, ◌+◌, ◌-◌, ◌*◌, ◌/◌, ◌%◌, Bool, true, false, ◌&&◌, ◌||◌, Option, none, some, [], ◌∷◌,
  ◌++◌, ◌==◌, leb, ltb, same, all, length, is_some, Text, bytes, Text-discrete, if◌then◌else◌,
}
use molebridge.Validate.Json.{
  Json, null, boolean, string, object, Object, no_member, member, get, as_string, is_string,
}
use molebridge.Validate.Lenient.{parse_lenient}

abbrev pub tier_provider : Text
tier_provider = bytes "provider"

abbrev pub tier_tunnel : Text
tier_tunnel = bytes "tunnel"

abbrev pub backend_native : Text
backend_native = bytes "native"

abbrev pub backend_gluetun : Text
backend_gluetun = bytes "gluetun"

abbrev pub is_text : Text → Text → Bool
is_text a b = same Text-discrete a b

-- The members of a registry entry that a judgment reads.
pub record Provider : Type 0 where
  pub egress_tier : Text
  pub backend : Text
  pub server_name : Text → Bool

-- What the packages take from the registry and from Go's libraries.
pub record World (F : Type 0) : Type 0 where
  pub lookup : Text → Option Provider
  pub same_float : F → F → Bool
  -- `utf8.DecodeRuneInString`: the rune and its width
  pub decode_rune : Text → ℕ × ℕ
  pub is_print : ℕ → Bool

pub record Request : Type 0 where
  pub server : Text
  pub requested_at : Text
  -- empty for the old two-field request
  pub request_id : Text

unfoldable pub request_token : Request → Text
request_token r = elim r.request_id [
  | [] ↦ r.server ++ bytes "@" ++ r.requested_at
  | c ∷ cs ↦ c ∷ cs
]

abbrev pub hex_digit : ℕ → ℕ
hex_digit d = if leb d 9 then 48 + d else 87 + d

-- The digits of `%x`, at least `width` of them; eight are enough for a rune.
unfoldable pub hex_from : ℕ → ℕ → ℕ → Text
hex_from zero width n = []
hex_from (suc fuel) width n =
    let rest = hex_from fuel (width - 1) (n / 16) ++ hex_digit (n % 16) ∷ [] in
    if n == 0 && width == 0 then [] else rest

unfoldable pub hex : ℕ → ℕ → Text
unfolding hex_from
hex width n = hex_from 8 width n

abbrev pub taken_bytes : ℕ → Text → Text
taken_bytes zero s = []
taken_bytes (suc n) [] = []
taken_bytes (suc n) (c ∷ s) = c ∷ taken_bytes n s

abbrev pub after_bytes : ℕ → Text → Text
after_bytes zero s = s
after_bytes (suc n) [] = []
after_bytes (suc n) (c ∷ s) = after_bytes n s

abbrev pub rune_error : ℕ
rune_error = 0xfffd

abbrev pub is_surrogate : ℕ → Bool
is_surrogate r = leb 0xd800 r && ltb r 0xe000

abbrev pub first_byte : Text → ℕ
first_byte [] = 0
first_byte (c ∷ s) = c

-- A surrogate in WTF-8 form at the start of a text.
unfoldable pub wtf8 : Text → Option ℕ
wtf8 (a ∷ b ∷ c ∷ s) =
    if a == 0xed && (leb 0xa0 b && (leb b 0xbf && (leb 0x80 c && leb c 0xbf)))
    then some (0xd000 + b % 64 * 64 + c % 64)
    else none
wtf8 _ = none

module _ {F : Type 0} (w : World F) where
  unfoldable pub next_rune : Text → ℕ × ℕ
  unfolding wtf8
  next_rune s =
      let (r, size) = w.decode_rune s in
      if r == rune_error && size == 1
      then elim (wtf8 s) [ none ↦ (r, size) | some u ↦ (u, 3) ]
      else (r, size)

  unfoldable pub escaped_rune : Text → Text
  unfolding next_rune hex
  escaped_rune s =
      let (r, size) = next_rune s in
      if is_surrogate r
      then bytes "\\u" ++ hex 4 r
      else if r == rune_error && size == 1
      then bytes "\\x" ++ hex 2 (first_byte s)
      else taken_bytes size s

  -- The loop that escapes what is no text, with the length of the text as fuel.
  unfoldable pub escaped : ℕ → Text → Text
  unfolding next_rune escaped_rune
  escaped zero s = []
  escaped (suc n) [] = []
  escaped (suc n) (c ∷ s) =
      escaped_rune (c ∷ s) ++ escaped n (after_bytes (next_rune (c ∷ s)).1 (c ∷ s))

  -- The loop that escapes what is not printed, over at most `n` runes.
  unfoldable pub printed : ℕ → Text → Text
  unfolding next_rune hex
  printed zero s = []
  printed (suc n) [] = []
  printed (suc n) (c ∷ s) =
      let (r, size) = next_rune (c ∷ s) in
      (if w.is_print r then taken_bytes size (c ∷ s) else bytes "\\x" ++ hex 2 r)
      ++ printed n (after_bytes size (c ∷ s))

  unfoldable pub truncate_runes : ℕ → Text → Text
  truncate_runes zero s = []
  truncate_runes (suc n) [] = []
  truncate_runes (suc n) (c ∷ s) =
      let size = (w.decode_rune (c ∷ s)).1 in
      taken_bytes size (c ∷ s) ++ truncate_runes n (after_bytes size (c ∷ s))

  unfoldable pub shown_server : Option Text → Option Text
  unfolding escaped printed truncate_runes
  shown_server (some (c ∷ s)) =
      some (truncate_runes 256 (printed 256 (escaped (length (c ∷ s)) (c ∷ s))))
  shown_server _ = none

  -- `ConfiguredServer`
  unfoldable pub configured_server : Json F → Option Text
  unfolding get shown_server
  configured_server (object m) = shown_server (as_string (get (bytes "configured_server") m))
  configured_server _ = none

  unfoldable pub valid_server_name : Option (Json F) → Text → Bool
  valid_server_name v provider = elim (w.lookup provider) [
    | none ↦ false
    | some p ↦ elim (as_string v) [ none ↦ false | some s ↦ p.server_name s ]
  ]

  unfoldable pub is_true : Option (Json F) → Bool
  is_true (some (boolean b)) = b
  is_true _ = false

  unfoldable pub exit_confirmed : Object F → Bool
  unfolding get is_true
  exit_confirmed m = elim (get (bytes "exit_confirmed") m) [
    | none ↦ is_true (get (bytes "mullvad_exit_ip") m)
    | some v ↦ is_true (some v)
  ]

  unfoldable pub egress_tier : Object F → Text → Text
  unfolding exit_confirmed get Text-discrete
  egress_tier m provider = if exit_confirmed m then tier_provider else elim (w.lookup provider) [
    | none ↦ []
    | some p ↦
        if is_string tier_tunnel (get (bytes "egress_tier") m) && is_text p.egress_tier tier_tunnel
        then tier_tunnel
        else []
  ]

  abbrev pub hex_lower : ℕ → Bool
  hex_lower c = leb 48 c && leb c 57 || leb 97 c && leb c 102

  -- `requestIDRE`
  unfoldable pub is_request_id : Text → Bool
  is_request_id s = length s == 32 && all hex_lower s

  abbrev pub known_members : Object F → Bool
  known_members no_member = true
  known_members (member k v rest) =
      (is_text k (bytes "server")
        || (is_text k (bytes "requested_at") || is_text k (bytes "request_id")))
      && known_members rest

  -- The id of a request: empty where it is absent or null.
  unfoldable pub request_id_of : Option (Json F) → Option Text
  unfolding is_request_id
  request_id_of none = some []
  request_id_of (some null) = some []
  request_id_of (some (string s)) = if is_request_id s then some s else none
  request_id_of (some _) = none

  abbrev pub with_id : Option Text → Option Text → Option Text → Option Request
  with_id (some server) (some at) (some id) =
      some (record { server = server; requested_at = at; request_id = id })
  with_id _ _ _ = none

  -- `DesiredRequest`
  unfoldable pub desired_request : Json F → Text → Option Request
  unfolding get valid_server_name parse_lenient request_id_of Text-discrete
  desired_request (object m) provider =
      let server = get (bytes "server") m in
      let at = get (bytes "requested_at") m in
      if known_members m && (valid_server_name server provider && is_some (parse_lenient at))
      then with_id (as_string server) (as_string at) (request_id_of (get (bytes "request_id") m))
      else none
  desired_request _ provider = none
