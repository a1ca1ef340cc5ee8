-- ===== src/Verdict/Unrepeated.antt =====
-- internal/verdict/order.go: a record in the order of members repeats no key.
use molebridge.Base.{false, ◌≡◌, Text}
use molebridge.Validate.Json.{Json, array, object, Items, no_item, item, Object, no_member, member}
use molebridge.Verdict.Order.{in_list, keys}

-- No object in the value repeats a key, as the decoder makes sure of every value that it reads.
unfoldable mutual
  pub Unrepeated : {F : Type 0} → Json F → Type 0
  Unrepeated (object m) = UnrepeatedMembers m
  Unrepeated (array vs) = UnrepeatedItems vs
  Unrepeated _ = Unit

  pub UnrepeatedItems : {F : Type 0} → Items F → Type 0
  UnrepeatedItems no_item = Unit
  UnrepeatedItems (item v vs) = Unrepeated v × UnrepeatedItems vs

  pub UnrepeatedMembers : {F : Type 0} → Object F → Type 0
  UnrepeatedMembers no_member = Unit
  UnrepeatedMembers (member k v m) =
      (in_list k (keys m) ≡ false) × Unrepeated v × UnrepeatedMembers m

module _ {F : Type 0} where
  -- A function on values that repeats no key where its argument repeats none.
  abbrev Keeps : (Text → Json F → Json F) → Type 0
  Keeps child = (k : Text) (v : Json F) → Unrepeated v → Unrepeated (child k v)
