-- ===== src/Rtnl/Items.antt =====
-- internal/rtnl/rule.go `Items`: the canonical form under which two rules are compared.
--
-- The source prints each selector and sorts and deduplicates the strings. Here a printed item is a
-- value of `Item`, one constructor for each format; the sort goes by the numbers of `key`, which
-- tell items apart as the strings do. Only the equality and inclusion of such lists is ever used.
use molebridge.Base.{
  ℕ, Bool, true, false, not, ◌&&◌, Option, none, some, List, [], ◌∷◌, ◌++◌, ◌==◌, ltb, same, all,
  any, when, Text, ℕ_discrete, if◌then◌else◌,
}
use molebridge.Rtnl.Addr.{ip4, ip6, Prefix, masked}
use molebridge.Rtnl.Rule.{
  RawAttr, Rule, invert, extra_flags, effective_mark, fr_act_to_tbl, fr_act_goto, fr_act_nop,
  fr_act_blackhole, fr_act_unreachable, fr_act_prohibit,
}

pub data Item : Type 0 where
  negated : Item
  from_all : Item
  from : Prefix → Item
  to : Prefix → Item
  tos : ℕ → Item
  fwmark : ℕ → ℕ → Item
  iif : Text → Item
  oif : Text → Item
  ipproto : ℕ → Item
  l3mdev : ℕ → Item
  suppress_prefixlength : ℕ → Item
  suppress_ifgroup : ℕ → Item
  lookup : ℕ → Item
  goto : ℕ → Item
  goto_nowhere : Item
  nop : Item
  blackhole : Item
  unreachable : Item
  prohibit : Item
  action : ℕ → Item
  table : ℕ → Item
  flags : ℕ → Item
  attr : ℕ → Text → Item
  bad : Item

unfoldable pub Items-discrete : Discrete (List Item)
unfolding ℕ_discrete
Items-discrete = hlevel ℕ_discrete

unfoldable pub Item-discrete : Discrete Item
unfolding ℕ_discrete
Item-discrete = hlevel ℕ_discrete

prefix_key : Prefix → List ℕ
prefix_key p = elim p.addr [ ip4 n ↦ 4 ∷ n ∷ p.bits ∷ [] | ip6 n ↦ 6 ∷ n ∷ p.bits ∷ [] ]

key : Item → List ℕ
unfolding prefix_key
key negated = 0 ∷ []
key from_all = 1 ∷ []
key (from p) = 2 ∷ prefix_key p
key (to p) = 3 ∷ prefix_key p
key (tos n) = 4 ∷ n ∷ []
key (fwmark m k) = 5 ∷ m ∷ k ∷ []
key (iif s) = 6 ∷ s
key (oif s) = 7 ∷ s
key (ipproto n) = 8 ∷ n ∷ []
key (l3mdev n) = 9 ∷ n ∷ []
key (suppress_prefixlength n) = 10 ∷ n ∷ []
key (suppress_ifgroup n) = 11 ∷ n ∷ []
key (lookup n) = 12 ∷ n ∷ []
key (goto n) = 13 ∷ n ∷ []
key goto_nowhere = 14 ∷ []
key nop = 15 ∷ []
key blackhole = 16 ∷ []
key unreachable = 17 ∷ []
key prohibit = 18 ∷ []
key (action n) = 19 ∷ n ∷ []
key (table n) = 20 ∷ n ∷ []
key (flags n) = 21 ∷ n ∷ []
key (attr t s) = 22 ∷ t ∷ s
key bad = 23 ∷ []

-- Lexicographic `<`.
before : List ℕ → List ℕ → Bool
before [] [] = false
before [] (_ ∷ _) = true
before (_ ∷ _) [] = false
before (x ∷ xs) (y ∷ ys) = let rest = before xs ys in if x == y then rest else ltb x y

-- An insertion sort that drops what is there already.
insert_item : Item → List Item → List Item
unfolding key before Item-discrete
insert_item a [] = a ∷ []
insert_item a (x ∷ xs) =
    let rest = x ∷ insert_item a xs in
    if same Item-discrete a x then x ∷ xs else if before (key a) (key x) then a ∷ x ∷ xs else rest

canonical : List Item → List Item
unfolding insert_item
canonical [] = []
canonical (x ∷ xs) = insert_item x (canonical xs)

from_item : Option Prefix → Item
unfolding masked
from_item none = from_all
from_item (some p) = from (masked p)

to_items : Option Prefix → List Item
unfolding masked
to_items none = []
to_items (some p) = to (masked p) ∷ []

abbrev opt_items : (ℕ → Item) → Option ℕ → List Item
opt_items c none = []
opt_items c (some v) = c v ∷ []

abbrev has_name : Text → Bool
has_name [] = false
has_name (_ ∷ _) = true

abbrev goto_item : Option ℕ → Item
goto_item none = goto_nowhere
goto_item (some v) = goto v

-- The `switch r.Action` of the source.
action_item : Rule → Item
action_item r =
    if r.action == fr_act_to_tbl
    then lookup r.table
    else if r.action == fr_act_goto
    then goto_item r.goto
    else if r.action == fr_act_nop
    then nop
    else if r.action == fr_act_blackhole
    then blackhole
    else if r.action == fr_act_unreachable
    then unreachable
    else if r.action == fr_act_prohibit
    then prohibit
    else action r.action

mark_items : ℕ × ℕ → List Item
mark_items m = when (not (m.1 == 0)) (fwmark m.0 m.1)

attr_items : List RawAttr → List Item
attr_items [] = []
attr_items (a ∷ as') = attr a.typ a.payload ∷ attr_items as'

-- The items in the order in which the source appends them.
selectors : Rule → List Item
unfolding invert extra_flags effective_mark from_item to_items action_item mark_items attr_items
selectors r =
    when (invert r) negated
    ++ (from_item r.src ∷ []
        ++ (to_items r.dst
            ++ (when (not (r.tos == 0)) (tos r.tos)
                ++ (mark_items (effective_mark r)
                    ++ (when (has_name r.iif_name) (iif r.iif_name)
                        ++ (when (has_name r.oif_name) (oif r.oif_name)
                            ++ (opt_items ipproto r.ip_proto
                                ++ (opt_items l3mdev r.l3_mdev
                                    ++ (opt_items suppress_prefixlength r.suppress_prefix_len
                                        ++ (opt_items suppress_ifgroup r.suppress_if_group
                                            ++ (action_item r ∷ []
                                                ++ (when
                                                      (not (r.action == fr_act_to_tbl)
                                                        && not (r.table == 0))
                                                      (table r.table)
                                                    ++ ((if r.action == fr_act_goto
                                                          then []
                                                          else opt_items goto r.goto)
                                                        ++ (when (not (extra_flags r == 0))
                                                            (flags (extra_flags r))
                                                            ++ (attr_items r.unknown
                                                            ++ when r.bad bad)))))))))))))))

unfoldable pub items : Rule → List Item
unfolding selectors canonical
items r = canonical (selectors r)

-- internal/contract/diff.go `equalItems` and `subsetOf`.
abbrev pub equal_items : List Item → List Item → Bool
equal_items a b = same Items-discrete a b

unfoldable pub subset_of : List Item → List Item → Bool
unfolding Item-discrete
subset_of have want = all (λ x. any (λ y. same Item-discrete x y) want) have
