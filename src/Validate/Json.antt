-- ===== src/Validate/Json.antt =====
-- internal/validate/text.go and the packages that read decoded JSON: values, members and equality.
--
-- `F` is float64 and `Floats` the operations on it that are used. An object is the list of its
-- members; the decoder refuses a repeated key. `whole n` and `negative n` are the integers n and
-- -n of at most 64 bits with a sign, `big` one beyond them, by its sign and size.
use molebridge.Base.{
  ℕ, suc, Bool, true, false, ◌&&◌, Option, none, some, ◌==◌, same, Text, Text-discrete,
  if◌then◌else◌,
}

mutual
  pub data Json (F : Type 0) : Type 0 where
    null : Json F
    boolean : Bool → Json F
    whole : ℕ → Json F
    negative : ℕ → Json F
    big : Bool → ℕ → Json F
    float : F → Json F
    string : Text → Json F
    array : Items F → Json F
    object : Object F → Json F

  pub data Items (F : Type 0) : Type 0 where
    no_item : Items F
    item : Json F → Items F → Items F

  pub data Object (F : Type 0) : Type 0 where
    no_member : Object F
    member : Text → Json F → Object F → Object F

-- Go's operations on floats that the packages use.
pub record Floats (F : Type 0) : Type 0 where
  pub of_whole : ℕ → F
  pub of_negative : ℕ → F
  -- neither NaN nor an infinity
  pub is_finite : F → Bool
  -- `now + float64(seconds)`
  pub plus_sec : F → ℕ → F
  -- `now - t >= seconds`
  pub since_at_least : F → F → ℕ → Bool

-- `m[key]`
unfoldable pub get : {F : Type 0} → Text → Object F → Option (Json F)
unfolding Text-discrete
get k no_member = none
get k (member j v rest) = let later = get k rest in if same Text-discrete j k then some v else later

-- `len(m)`
abbrev pub size : {F : Type 0} → Object F → ℕ
size no_member = 0
size (member k v rest) = suc (size rest)

abbrev pub no_items : {F : Type 0} → Items F → Bool
no_items no_item = true
no_items (item v rest) = false

-- `object(v)`, where an absent member is nil.
abbrev pub as_object : {F : Type 0} → Option (Json F) → Option (Object F)
as_object (some (object m)) = some m
as_object _ = none

-- `m, _ := object(v)`: what is no object has no members.
abbrev pub members_of : {F : Type 0} → Option (Json F) → Object F
members_of (some (object m)) = m
members_of _ = no_member

-- `v.(string)`
abbrev pub as_string : {F : Type 0} → Option (Json F) → Option Text
as_string (some (string s)) = some s
as_string _ = none

-- `v == "text"`
abbrev pub is_string : {F : Type 0} → Text → Option (Json F) → Bool
is_string t (some (string s)) = same Text-discrete s t
is_string t _ = false

-- `v == nil`
abbrev pub is_nil : {F : Type 0} → Option (Json F) → Bool
is_nil none = true
is_nil (some null) = true
is_nil _ = false

abbrev same_bool : Bool → Bool → Bool
same_bool true b = b
same_bool false true = false
same_bool false false = true

abbrev pub holds_of {ℓ} : {A : Type ℓ} → (A → Bool) → Option A → Bool
holds_of p none = false
holds_of p (some a) = p a

-- `reflect.DeepEqual`, with Go's equality of floats.
module _ {F : Type 0} (same_float : F → F → Bool) where
  unfoldable mutual
    unfolding get Text-discrete

    pub deep_equal : Json F → Json F → Bool
    deep_equal null null = true
    deep_equal (boolean a) (boolean b) = same_bool a b
    deep_equal (whole a) (whole b) = a == b
    deep_equal (negative a) (negative b) = a == b
    deep_equal (big s a) (big t b) = same_bool s t && a == b
    deep_equal (float a) (float b) = same_float a b
    deep_equal (string a) (string b) = same Text-discrete a b
    deep_equal (array a) (array b) = same_items a b
    deep_equal (object a) (object b) = size a == size b && has_members a b
    deep_equal _ _ = false

    pub same_items : Items F → Items F → Bool
    same_items no_item no_item = true
    same_items (item v vs) (item w ws) = deep_equal v w && same_items vs ws
    same_items _ _ = false

    -- Each member of the first object is in the second.
    pub has_members : Object F → Object F → Bool
    has_members no_member b = true
    has_members (member k v rest) b = holds_of (λ w. deep_equal v w) (get k b) && has_members rest b

  -- `same(a, b)` of two members, either of which may be absent.
  unfoldable pub same_values : Option (Json F) → Option (Json F) → Bool
  unfolding deep_equal
  same_values (some v) (some w) = deep_equal v w
  same_values (some v) none = deep_equal v null
  same_values none (some w) = deep_equal null w
  same_values none none = true
