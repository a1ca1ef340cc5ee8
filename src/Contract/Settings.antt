-- ===== src/Contract/Settings.antt =====
-- internal/contract/config.go: the parsers of the settings.
--
-- `strconv` on digits that were tested is written out; numbers are not cut to a width, and each one
-- that Go's parser would saturate is refused by the next test, as it is there. `netip.ParseAddr`,
-- `netip.ParsePrefix` and `strings.TrimSpace` are parameters.
use molebridge.Base.{
  ℕ, ◌+◌, ◌-◌, ◌*◌, ◌%◌, ◌^◌, Bool, true, false, not, ◌&&◌, ◌||◌, Option, none, some, List, [], ◌∷◌,
  ◌++◌, ◌==◌, leb, same, any, all, length, Text, bytes, Text-discrete, if◌then◌else◌,
}
use molebridge.Rtnl.Addr.{Addr, ip4, is4, Prefix, Prefix-discrete, masked}

pub data Refusal : Type 0 where
  exit_kind tunnel_backend gluetun_interface interface_name same_interfaces : Refusal
  table_numeric table_canonical table_range : Refusal
  overlay_shape overlay_prefix overlay_default overlay_octets overlay_octet overlay_zero : Refusal
  network_address overlay6_shape overlay6_prefix overlay6_text : Refusal
  host_interface host_interface_taken same_tables table_taken control_mark_text : Refusal
  control_mark_byte mark_is_table for_overlay_kind too_many no_prefix default_route : Refusal
  duplicated no_resolver interval_range : Refusal

pub data Parsed {ℓ} (A : Type ℓ) : Type ℓ where
  refused : Refusal → Parsed A
  parsed : A → Parsed A

infixl 5 ◌>>=◌ ◌>>◌
abbrev pub ◌>>=◌ {ℓ κ} : {A : Type ℓ} {B : Type κ} → Parsed A → (A → Parsed B) → Parsed B
refused e >>= f = refused e
parsed a >>= f = f a

abbrev pub ◌>>◌ {ℓ} : {B : Type ℓ} → Parsed (Unit {0}) → Parsed B → Parsed B
m >> k = m >>= λ _. k

-- `if refused { return refuse(…) }`
abbrev pub check : Bool → Refusal → Parsed (Unit {0})
check true e = parsed tt
check false e = refused e

pub record Net : Type 0 where
  -- the address, and whether it has a zone
  pub parse_addr : Text → Option (Addr × Bool)
  pub parse_prefix : Text → Option Prefix
  pub trim_space : Text → Text

abbrev pub digit : ℕ → Bool
digit c = leb 48 c && leb c 57

abbrev pub letter : ℕ → Bool
letter c = leb 97 c && leb c 122 || leb 65 c && leb c 90

abbrev pub is_empty : Text → Bool
is_empty [] = true
is_empty (_ ∷ _) = false

unfoldable pub is_uint : Text → Bool
is_uint s = not (is_empty s) && all digit s

-- Letters, digits and the underscore.
abbrev pub word_char : ℕ → Bool
word_char c = letter c || (digit c || c == 95)

abbrev pub first : (ℕ → Bool) → Text → Bool
first p [] = false
first p (c ∷ cs) = p c

unfoldable pub valid_interface_name : Text → Bool
valid_interface_name s =
    not (is_empty s)
    && (leb (length s) 15
        && (first word_char s && all (λ c. word_char c || (c == 46 || c == 45)) s))

unfoldable pub valid_gluetun_interface : Text → Bool
valid_gluetun_interface s = not (is_empty s) && (leb (length s) 15 && all word_char s)

unfoldable pub decimal_from : ℕ → Text → ℕ
decimal_from n [] = n
decimal_from n (c ∷ cs) = decimal_from (n * 10 + (c - 48)) cs

unfoldable pub decimal : Text → ℕ
unfolding decimal_from
decimal s = decimal_from 0 s

abbrev pub zero_first : Text → Bool
zero_first s = first (λ c. c == 48) s

unfoldable pub parse_table : Text → Parsed ℕ
unfolding is_uint decimal
parse_table v = do
  check (is_uint v) table_numeric
  check (not (zero_first v)) table_canonical
  check (leb (length v) 10) table_range
  check (leb 256 (decimal v) && leb (decimal v) 2147483647) table_range
  parsed (decimal v)

-- What stands before and after the first byte of a value.
unfoldable pub cut : ℕ → Text → Option (Text × Text)
cut b [] = none
cut b (c ∷ cs) =
    let rest = cut b cs in
    if c == b then some ([], cs) else elim rest [ none ↦ none | some p ↦ some (c ∷ p.0, p.1) ]

unfoldable pub split_from : ℕ → Text → Text → List Text
split_from b word [] = word ∷ []
split_from b word (c ∷ cs) =
    let rest = split_from b (if c == b then [] else word ++ c ∷ []) cs in
    if c == b then word ∷ rest else rest

unfoldable pub split : ℕ → Text → List Text
unfolding split_from
split b s = split_from b [] s

unfoldable pub octet : Text → Parsed ℕ
unfolding is_uint decimal Text-discrete
octet o = do
  check (is_uint o) overlay_octet
  check (same Text-discrete o (bytes "0") || not (zero_first o)) overlay_zero
  check (leb (length o) 3 && leb (decimal o) 255) overlay_octet
  parsed (decimal o)

unfoldable pub octets_from : ℕ → List Text → Parsed ℕ
unfolding octet
octets_from n [] = parsed n
octets_from n (o ∷ os) = octet o >>= λ d. octets_from (n * 256 + d) os

-- The prefix has no slash once it is a number, so the last slash is the first.
unfoldable pub overlay4_of : Option (Text × Text) → Parsed Prefix
unfolding is_uint decimal split octets_from
overlay4_of none = refused overlay_shape
overlay4_of (some (address, prefix)) = do
  check (is_uint prefix) overlay_prefix
  check (not (zero_first prefix)) overlay_default
  check (leb (length prefix) 2 && leb (decimal prefix) 32) overlay_prefix
  check (length (split 46 address) == 4) overlay_octets
  number ← octets_from 0 (split 46 address)
  check (number % 2 ^ (32 - decimal prefix) == 0) network_address
  parsed (record { addr = ip4 number; bits = decimal prefix })

unfoldable pub parse_overlay4 : Text → Parsed Prefix
unfolding cut overlay4_of
parse_overlay4 v = overlay4_of (cut 47 v)

abbrev hex_letter : ℕ → Bool
hex_letter c = leb 97 c && leb c 102

unfoldable pub hex_from : ℕ → Text → ℕ
hex_from n [] = n
hex_from n (c ∷ cs) = hex_from (n * 16 + (if digit c then c - 48 else c - 87)) cs

-- A mark of at most eight digits is below 2 ^ 32.
unfoldable pub mark_digits : Text → Parsed ℕ
unfolding hex_from
mark_digits ds = do
  check (not (zero_first ds)) control_mark_text
  check (all (λ c. digit c || hex_letter c) ds) control_mark_text
  check (hex_from 0 ds % 256 == 0) control_mark_byte
  parsed (hex_from 0 ds)

unfoldable pub control_mark_value : Text → Parsed ℕ
unfolding mark_digits
control_mark_value (zero_char ∷ x_char ∷ ds) = do
  check (zero_char == 48 && x_char == 120) control_mark_text
  check (leb 1 (length ds) && leb (length ds) 8) control_mark_text
  mark_digits ds
control_mark_value _ = refused control_mark_text

module _ (net : Net) where
  -- `parseIPv6Text`, with `strings.ToLower` on its hexadecimal digits.
  unfoldable pub lower : Text → Text
  lower [] = []
  lower (c ∷ cs) = (if leb 65 c && leb c 90 then c + 32 else c) ∷ lower cs

  abbrev six_char : ℕ → Bool
  six_char c = c == 58 || (digit c || (hex_letter c || leb 65 c && leb c 70))

  abbrev pub six_only : Option (Addr × Bool) → Option Addr
  six_only none = none
  six_only (some (a, zone)) = if is4 a then none else some a

  unfoldable pub parse_ipv6_text : Text → Option Addr
  unfolding lower
  parse_ipv6_text s =
      if is_empty s || not (all six_char s) then none else six_only (net.parse_addr (lower s))

  abbrev pub or_refuse {ℓ} : {A : Type ℓ} → Refusal → Option A → Parsed A
  or_refuse e none = refused e
  or_refuse e (some a) = parsed a

  unfoldable pub overlay6_of : Option (Text × Text) → Parsed Prefix
  unfolding is_uint decimal parse_ipv6_text masked Prefix-discrete
  overlay6_of none = refused overlay6_shape
  overlay6_of (some (address, prefix)) = do
    check (is_uint prefix && leb (length prefix) 3) overlay6_prefix
    check (leb 1 (decimal prefix) && leb (decimal prefix) 128) overlay6_prefix
    a ← or_refuse overlay6_text (parse_ipv6_text address)
    let p : Prefix = record { addr = a; bits = decimal prefix }
    check (same Prefix-discrete (masked p) p) network_address
    parsed p

  abbrev after_colon : Option (Text × Text) → Bool
  after_colon none = false
  after_colon (some (_, rest)) = any (λ c. c == 47) rest

  -- A colon with a slash after it; a second slash makes the prefix no number.
  unfoldable pub parse_overlay6 : Text → Parsed Prefix
  unfolding cut overlay6_of
  parse_overlay6 v = do check (after_colon (cut 58 v)) overlay6_shape; overlay6_of (cut 47 v)
