-- ===== src/Verdict/Leaves.antt =====
-- internal/verdict/order.go: the order of members forgets nothing of a record.
use molebridge.Base.{
  Bool, true, false, not, ◌&&◌, ◌||◌, ◌≡◌, refl, ap, ◌∙◌, inl, inr, Option, none, some, List, [],
  ◌∷◌, ◌++◌, keep, same→eq, same_refl, any-append, map, Text, bytes, Text-discrete, Bool-cases,
  Option-cases, if◌then◌else◌, arith,
}
use molebridge.Validate.Json.{
  Json, null, boolean, whole, negative, big, float, string, array, object, Object, no_member,
  member, get,
}
use molebridge.Verdict.Request.{is_text}
use molebridge.Verdict.Checks.{name_text, required_checks}
use molebridge.Verdict.Order.{
  in_list, keys, text_before, insert_text, sort_strings, record_order, selection_order, check_order,
  more_checks, emit, ordered, as_it_is, ordered_value, order_check, order_member, order_record,
}

abbrev pub then_in : {F : Type 0} → Option (Json F) → (Json F → Option (Json F)) → Option (Json F)
then_in none f = none
then_in (some v) f = f v

-- The value at the end of a path of keys; of an object, that it is one.
abbrev pub leaf_at : {F : Type 0} → List Text → Json F → Option (Json F)
leaf_at [] (object m) = some (object no_member)
leaf_at [] v = some v
leaf_at (k ∷ ks) (object m) = then_in (get k m) (λ v. leaf_at ks v)
leaf_at (k ∷ ks) v = none

-- The order in which members stand is forgotten: two values agree at every path.
abbrev pub SameLeaves : {F : Type 0} → Json F → Json F → Type 0
SameLeaves v w = (p : List Text) → leaf_at p v ≡ leaf_at p w

is_text_comm : (a b : Text) → is_text a b ≡ is_text b a
is_text_comm a b = elim (Bool-cases (is_text a b)) [
  | inl e ↦ rw (e, same→eq Text-discrete a b e, same_refl Text-discrete b) refl
  | inr e ↦ elim (Bool-cases (is_text b a)) [
    | inl f ↦
        absurd (let z = rw (same→eq Text-discrete b a f, same_refl Text-discrete a) at e in cc)
    | inr f ↦ rw (e, f) refl
  ]
]

in_list-insert :
    (k j : Text) (ks : List Text) → in_list k (insert_text j ks) ≡ (is_text k j || in_list k ks)
unfolding insert_text
in_list-insert k j [] = refl
in_list-insert k j (i ∷ ks) = elim (Bool-cases (text_before j i)) [
  | inl e ↦ rw e refl
  | inr e ↦ rw (e, in_list-insert k j ks) (ground arith)
]

in_list-sort : (k : Text) (ks : List Text) → in_list k (sort_strings ks) ≡ in_list k ks
unfolding sort_strings
in_list-sort k [] = refl
in_list-sort k (j ∷ ks) =
    in_list-insert k j (sort_strings ks) ∙ ap (λ b. is_text k j || b) (in_list-sort k ks)

in_list-keep :
    (k : Text) (p : Text → Bool) (ks : List Text)
    → p k ≡ true
    → in_list k ks ≡ true
    → in_list k (keep p ks) ≡ true
in_list-keep k p [] pk h = cc
in_list-keep k p (j ∷ ks) pk h = elim (Bool-cases (is_text k j)) [
  | inl e ↦ let q : p j ≡ true = rw (← same→eq Text-discrete k j e) pk in rw (q, e) refl
  | inr e ↦
      let r = in_list-keep k p ks pk (rw e at h) in
      elim (Bool-cases (p j)) [ inl q ↦ rw (q, e) r | inr q ↦ rw q r ]
]

module _ {F : Type 0} where
  found : (k : Text) (m : Object F) (v : Json F) → get k m ≡ some v → in_list k (keys m) ≡ true
  unfolding get
  found k no_member v h = cc
  found k (member j w rest) v h = elim (Bool-cases (is_text k j)) [
    | inl e ↦ rw e refl
    | inr e ↦ let d = is_text_comm j k ∙ e in rw e (found k rest v (rw d at h))
  ]

  abbrev child_of : (Text → Json F → Json F) → Text → Option (Json F) → Option (Json F)
  child_of child k none = none
  child_of child k (some v) = some (child k v)

  nothing :
      (a b : Bool) → ◌≡◌ {A = Option (Json F)} (if a then none else none) (if b then none else none)
  nothing a b = ground arith

  module _ (child : Text → Json F → Json F) (m : Object F) where
    emit-get :
        (k : Text) (seen ks : List Text)
        → get k (emit child m seen ks)
          ≡ (if in_list k ks && not (in_list k seen) then child_of child k (get k m) else none)
    unfolding emit get
    emit-get k seen [] = refl
    emit-get k seen (j ∷ ks) = elim (Option-cases (get j m)) [
      | inl q ↦ elim (Bool-cases (is_text k j)) [
        | inr e ↦ rw (q, e) (emit-get k seen ks)
        | inl e ↦
            let n : get k m ≡ none = rw (same→eq Text-discrete k j e) q in
            rw (q, emit-get k seen ks, n) (nothing _ _)
      ]
      | inr (v, q) ↦ elim (Bool-cases (in_list j seen)) [
        | inl s ↦ elim (Bool-cases (is_text k j)) [
          | inr e ↦ rw (q, e, s) (emit-get k seen ks)
          | inl e ↦
              let t : in_list k seen ≡ true = rw (same→eq Text-discrete k j e) s in
              rw (q, s, emit-get k seen ks, t, e) (ground arith)
        ]
        | inr s ↦ elim (Bool-cases (is_text k j)) [
          | inr e ↦
              let f = is_text_comm j k ∙ e in
              rw (q, s, e, f) (emit-get k (j ∷ seen) ks ∙ (rw e refl))
          | inl e ↦
              let d : k ≡ j = same→eq Text-discrete k j e in
              let t : in_list k seen ≡ false = rw d s in
              let n : get k m ≡ some v = rw d q in rw (q, s, is_text_comm j k, e, t, n, d) refl
        ]
      ]
    ]

  module _ (child : Text → Json F → Json F) (m : Object F) (order : List Text) where
    rest_keys : List Text
    rest_keys = sort_strings (keep (λ k. not (in_list k order)) (keys m))

    all_written : (k : Text) → in_list k (keys m) ≡ true → in_list k (order ++ rest_keys) ≡ true
    unfolding rest_keys
    all_written k h = any-append (is_text k) order rest_keys ∙ elim (Bool-cases (in_list k order)) [
      | inl o ↦ rw o refl
      | inr o ↦
          rw (o, in_list-sort k (keep (λ j. not (in_list j order)) (keys m)))
            (in_list-keep k (λ j. not (in_list j order)) (keys m) (rw o refl) h)
    ]

    ordered-get : (k : Text) → get k (ordered m order child) ≡ child_of child k (get k m)
    unfolding ordered rest_keys
    ordered-get k = emit-get child m k [] (order ++ rest_keys) ∙ elim (Option-cases (get k m)) [
      | inl q ↦ rw q (nothing (in_list k (order ++ rest_keys) && true) true)
      | inr (v, q) ↦ rw (all_written k (found k m v q)) refl
    ]

    ordered-SameLeaves :
        ((k : Text) (v : Json F) → SameLeaves (child k v) v)
        → SameLeaves (object (ordered m order child)) (object m)
    ordered-SameLeaves same_child [] = refl
    ordered-SameLeaves same_child (k ∷ ks) = elim (Option-cases (get k m)) [
      | inl q ↦ rw (ordered-get k, q) refl
      | inr (v, q) ↦ rw (ordered-get k, q) (same_child k v ks)
    ]

  ordered_value-SameLeaves :
      (order : List Text) (child : Text → Json F → Json F)
      → ((k : Text) (v : Json F) → SameLeaves (child k v) v)
      → (v : Json F) → SameLeaves (ordered_value order child v) v
  unfolding ordered_value
  ordered_value-SameLeaves order child same_child (object m) p =
      ordered-SameLeaves child m order same_child p
  ordered_value-SameLeaves order child same_child null p = refl
  ordered_value-SameLeaves order child same_child (boolean _) p = refl
  ordered_value-SameLeaves order child same_child (whole _) p = refl
  ordered_value-SameLeaves order child same_child (negative _) p = refl
  ordered_value-SameLeaves order child same_child (big _ _) p = refl
  ordered_value-SameLeaves order child same_child (float _) p = refl
  ordered_value-SameLeaves order child same_child (string _) p = refl
  ordered_value-SameLeaves order child same_child (array _) p = refl

  order_member-SameLeaves :
      (names : List Text) (k : Text) (v : Json F) → SameLeaves (order_member names k v) v
  unfolding order_member order_check
  order_member-SameLeaves names k v p = elim (Bool-cases (is_text k (bytes "selection"))) [
    | inl s ↦ rw s (ordered_value-SameLeaves selection_order as_it_is (λ j u q. refl) v p)
    | inr s ↦ elim (Bool-cases (is_text k (bytes "checks"))) [
      | inr c ↦ rw (s, c) refl
      | inl c ↦
          rw (s, c)
            (ordered_value-SameLeaves names order_check
              (λ j u. ordered_value-SameLeaves check_order as_it_is (λ i x q. refl) u) v p)
    ]
  ]

  pub order_record-SameLeaves :
      (m : Object F) (kind backend : Text)
      → SameLeaves (object (order_record m kind backend)) (object m)
  unfolding order_record
  order_record-SameLeaves m kind backend =
      let names = map name_text (required_checks kind backend) ++ more_checks in
      ordered-SameLeaves (order_member names) m record_order (order_member-SameLeaves names)
