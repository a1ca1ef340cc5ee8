-- ===== src/Verdict/Order.antt =====
-- internal/verdict/order.go: a decoded record in the member order of the Python applier.
use molebridge.Base.{
  Bool, true, false, not, ◌&&◌, ◌||◌, Option, none, some, List, [], ◌∷◌, ◌++◌, ◌==◌, ltb, any, keep,
  map, Text, bytes, Text-discrete, if◌then◌else◌,
}
use molebridge.Validate.Json.{Json, object, Object, no_member, member, get}
use molebridge.Verdict.Request.{is_text}
use molebridge.Verdict.Checks.{name_text, required_checks}

abbrev pub in_list : Text → List Text → Bool
in_list k ks = any (is_text k) ks

abbrev pub keys : {F : Type 0} → Object F → List Text
keys no_member = []
keys (member k v rest) = k ∷ keys rest

-- Go's order of strings.
unfoldable pub text_before : Text → Text → Bool
text_before [] s = true
text_before (c ∷ cs) [] = false
text_before (c ∷ cs) (d ∷ ds) = ltb c d || c == d && text_before cs ds

unfoldable pub insert_text : Text → List Text → List Text
unfolding text_before
insert_text k [] = k ∷ []
insert_text k (j ∷ js) =
    let later = j ∷ insert_text k js in if text_before k j then k ∷ j ∷ js else later

-- `sort.Strings`
unfoldable pub sort_strings : List Text → List Text
unfolding insert_text
sort_strings [] = []
sort_strings (k ∷ ks) = insert_text k (sort_strings ks)

abbrev pub record_order : List Text
record_order =
    bytes "schema"
    ∷ bytes "kind"
    ∷ bytes "backend"
    ∷ bytes "provider"
    ∷ bytes "status"
    ∷ bytes "message"
    ∷ bytes "checked_at"
    ∷ bytes "server"
    ∷ bytes "requested_server"
    ∷ bytes "configured_server"
    ∷ bytes "request_id"
    ∷ bytes "selection"
    ∷ bytes "checks"
    ∷ bytes "egress_ip"
    ∷ bytes "egress_ips"
    ∷ bytes "egress_city"
    ∷ bytes "egress_country"
    ∷ []

abbrev pub selection_order : List Text
selection_order =
    bytes "source"
    ∷ bytes "outcome"
    ∷ bytes "attempt"
    ∷ bytes "target"
    ∷ bytes "next_action"
    ∷ bytes "next_action_at"
    ∷ []

abbrev pub check_order : List Text
check_order =
    bytes "state"
    ∷ bytes "at"
    ∷ bytes "server"
    ∷ bytes "tier"
    ∷ bytes "expected_families"
    ∷ bytes "families"
    ∷ bytes "reason"
    ∷ bytes "age_s"
    ∷ bytes "fallback"
    ∷ bytes "from"
    ∷ bytes "by"
    ∷ bytes "expires_at"
    ∷ []

abbrev pub more_checks : List Text
more_checks =
    bytes "owner_record"
    ∷ bytes "app_attachment"
    ∷ bytes "routing"
    ∷ bytes "netbird"
    ∷ bytes "traffic_protection"
    ∷ []

module _ {F : Type 0} where
  -- A member that is there and not yet written is added.
  abbrev pub add_found : Option (Json F) → Bool → Object F → (Json F → Object F) → Object F
  add_found none written skipped added = skipped
  add_found (some v) true skipped added = skipped
  add_found (some v) false skipped added = added v

  -- `add` over a list of keys: each one that is there, once.
  unfoldable pub emit : (Text → Json F → Json F) → Object F → List Text → List Text → Object F
  unfolding get Text-discrete
  emit child m seen [] = no_member
  emit child m seen (k ∷ ks) =
      let skipped = emit child m seen ks in
      add_found (get k m) (in_list k seen) skipped
        (λ v. member k (child k v) (emit child m (k ∷ seen) ks))

  unfoldable pub ordered : Object F → List Text → (Text → Json F → Json F) → Object F
  unfolding emit sort_strings Text-discrete
  ordered m order child =
      let rest = sort_strings (keep (λ k. not (in_list k order)) (keys m)) in
      emit child m [] (order ++ rest)

  abbrev pub as_it_is : Text → Json F → Json F
  as_it_is k v = v

  -- An object in an order, anything else as it is.
  unfoldable pub ordered_value : List Text → (Text → Json F → Json F) → Json F → Json F
  unfolding ordered
  ordered_value order child (object m) = object (ordered m order child)
  ordered_value order child v = v

  unfoldable pub order_check : Text → Json F → Json F
  unfolding ordered_value
  order_check k v = ordered_value check_order as_it_is v

  unfoldable pub order_member : List Text → Text → Json F → Json F
  unfolding ordered_value order_check Text-discrete
  order_member names k v =
      if is_text k (bytes "selection")
      then ordered_value selection_order as_it_is v
      else if is_text k (bytes "checks")
      then ordered_value names order_check v
      else v

  -- `OrderRecord`
  unfoldable pub order_record : Object F → Text → Text → Object F
  unfolding ordered order_member required_checks name_text
  order_record m kind backend =
      let names = map name_text (required_checks kind backend) ++ more_checks in
      ordered m record_order (order_member names)
