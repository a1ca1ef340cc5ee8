-- ===== src/Contract/Diff.antt =====
-- internal/contract/diff.go: the actions that restore the rules of one family.
pub mod Spares
pub mod Safe
pub mod Exact
pub mod Settled
use molebridge.Base.{
  ℕ, ◌+◌, ◌%◌, ◌^◌, Bool, true, false, not, ◌&&◌, ◌||◌, List, [], ◌∷◌, ◌++◌, map, ◌==◌, leb, any,
  keep, if◌then◌else◌,
}
use molebridge.Rtnl.Addr.{Family}
use molebridge.Rtnl.Rule.{Rule}
use molebridge.Rtnl.Items.{items, equal_items, subset_of}
use molebridge.Rtnl.Delete.{delete_matches}
use molebridge.Contract.Config.{is_native_sidecar}
use molebridge.Contract.Spec.{
  Spec, owned, skipped, return_path_shaped, rules, prio_from_tunnel, prio_ingress_reject,
  prio_kill_switch, prio_return_path, prio_backstop,
}

pub data ActionKind : Type 0 where
  add del sub : ActionKind

pub record Action : Type 0 where
  pub kind : ActionKind
  pub priority : ℕ
  pub rule : Rule

pub record DiffOptions : Type 0 where
  pub hold_kill_switch : Bool

abbrev pub add_order : List ℕ
add_order = 97 ∷ 98 ∷ 89 ∷ 92 ∷ 102 ∷ 103 ∷ 104 ∷ 1 ∷ 80 ∷ 88 ∷ 90 ∷ 91 ∷ 94 ∷ 95 ∷ 96 ∷ []

abbrev pub sidecar_add_order : List ℕ
sidecar_add_order = 97 ∷ 96 ∷ 98 ∷ 89 ∷ 88 ∷ 90 ∷ 93 ∷ 94 ∷ []

abbrev pub order_of : Spec → List ℕ
order_of spec = if is_native_sidecar spec.config then sidecar_add_order else add_order

-- `uint32` plus one.
abbrev pub next_priority : ℕ → ℕ
next_priority p = (p + 1) % 2 ^ 32

-- `hasItems`: a rule at the priority with the same items.
unfoldable pub has_items : List Rule → ℕ → Rule → Bool
has_items rs p want = any (λ r. r.priority == p && equal_items (items r) (items want)) rs

-- `LeftReturnPath`: the source's map by priority is one list here, in order of discovery, whose
-- rules carry the priority that they stand for.
-- A rule one priority before a skipped one counts for the skipped one.
unfoldable pub moved : Spec → Family → Rule → Rule
moved spec f a =
    if skipped spec f (next_priority a.priority)
    then record a { priority = next_priority a.priority }
    else a

-- Only a return-path shaped rule at a skipped priority is left, and once.
unfoldable pub left_add : Spec → Family → List Rule → Rule → List Rule
unfolding has_items
left_add spec f out a =
    if not (skipped spec f a.priority) || not (return_path_shaped spec f a)
    then out
    else if has_items out a.priority a
    then out
    else out ++ a ∷ []

unfoldable pub left_from : Spec → Family → List Rule → List Rule → List Rule
unfolding left_add moved
left_from spec f out [] = out
left_from spec f out (a ∷ as') = left_from spec f (left_add spec f out (moved spec f a)) as'

unfoldable pub left_return_path : Spec → Family → List Rule → List Rule
unfolding left_from
left_return_path spec f actual = left_from spec f [] actual

-- The left rules of one priority: `left[p]`.
abbrev pub at_priority : ℕ → List Rule → List Rule
at_priority p rs = keep (λ r. r.priority == p) rs

unfoldable pub delete_may_take : Rule → List Rule → Bool
delete_may_take a rs = any (λ r. delete_matches a r || subset_of (items a) (items r)) rs

unfoldable pub leftover_copy : Spec → List Rule → Rule → Bool
unfolding has_items
leftover_copy spec want a =
    let above = next_priority a.priority in
    if above == 0 || not (owned spec above) then false else has_items want above a

-- An expected rule with its entry of `matched`.
pub record Wanted : Type 0 where
  pub rule : Rule
  pub matched : Bool

abbrev pub hits : Rule → Wanted → Bool
hits a w = a.priority == w.rule.priority && (not w.matched && equal_items (items a) (items w.rule))

-- The loop over `expected` up to its `break`: the first unmatched equal rule is marked, and the
-- Boolean is `kept`.
unfoldable pub mark : Rule → List Wanted → List Wanted × Bool
mark a [] = ([], false)
mark a (w ∷ ws) =
    let rest = mark a ws in
    if hits a w then (record w { matched = true } ∷ ws, true) else (w ∷ rest.0, rest.1)

-- What the loop leaves in `covered` when nothing was kept.
pub covered : Rule → List Wanted → Bool
covered a ws =
    any
      (λ w.
        a.priority == w.rule.priority
        && (subset_of (items a) (items w.rule) || delete_matches a w.rule))
      ws

-- Whether `want` has an entry for the priority.
unfoldable pub expected_at : ℕ → List Wanted → Bool
expected_at p ws = any (λ w. p == w.rule.priority) ws

-- The variables of the loop over the rules found.
pub record Scan : Type 0 where
  pub wanted : List Wanted
  pub subbed : List ℕ
  pub removals : List Action

unfoldable pub remove : ActionKind → Rule → Scan → Scan
remove k a st = record st {
  removals = st.removals ++ record { kind = k; priority = a.priority; rule = a } ∷ [];
}

-- A `Sub` is emitted once for each priority.
unfoldable pub rebuild : Rule → Scan → Scan
unfolding remove
rebuild a st =
    if any (λ p. p == a.priority) st.subbed
    then st
    else remove sub a (record st { subbed = a.priority ∷ st.subbed })

unfoldable pub judge : Spec → Family → List Rule → Scan → Rule → Scan
judge spec f left st a =
    if not (owned spec a.priority)
    then (if leftover_copy spec (rules spec f) a then remove del a st else st)
    else if skipped spec f a.priority
    then (if return_path_shaped spec f a
        then st
        else if delete_may_take a (at_priority a.priority left)
        then rebuild a st
        else remove del a st)
    else if not (expected_at a.priority st.wanted)
    then remove del a st
    else let (ws, kept) = mark a st.wanted in
      if kept
      then record st { wanted = ws }
      else if covered a st.wanted
      then rebuild a st
      else remove del a st

unfoldable pub scan : Spec → Family → List Rule → Scan → List Rule → Scan
scan spec f left st [] = st
scan spec f left st (a ∷ as') = scan spec f left (judge spec f left st a) as'

abbrev pub unmatched : List Rule → List Wanted
unmatched rs = map (λ r. record { rule = r; matched = false }) rs

abbrev pub start : List Rule → Scan
start want = record { wanted = unmatched want; subbed = []; removals = [] }

unfoldable pub missing : DiffOptions → ℕ → Wanted → Bool
missing opt p w =
    w.rule.priority == p && (not w.matched && not (p == prio_kill_switch && opt.hold_kill_switch))

unfoldable pub add_action : ℕ → Rule → Action
add_action p r = record { kind = add; priority = p; rule = r }

unfoldable pub additions : DiffOptions → List ℕ → List Wanted → List Action
unfolding missing add_action
additions opt [] ws = []
additions opt (p ∷ ps) ws =
    map (λ w. add_action p w.rule) (keep (missing opt p) ws) ++ additions opt ps ws

-- Left rules known only from their protective copy go back first.
unfoldable pub left_additions : List Rule → List Rule → List ℕ → List Action
unfolding add_action has_items
left_additions actual left [] = []
left_additions actual left (p ∷ ps) =
    map (add_action p) (keep (λ l. not (has_items actual p l)) (at_priority p left))
    ++ left_additions actual left ps

unfoldable pub diff : Spec → Family → List Rule → DiffOptions → List Action
unfolding owned skipped rules left_return_path scan judge remove rebuild mark covered expected_at
    additions left_additions
diff spec f actual opt =
    let left = left_return_path spec f actual in
    let st = scan spec f left (start (rules spec f)) actual in
    additions opt (order_of spec) st.wanted
    ++ (left_additions actual left (prio_backstop ∷ prio_return_path ∷ []) ++ st.removals)

unfoldable pub touches_guards : List Action → Bool
touches_guards as' =
    any (λ a. leb prio_from_tunnel a.priority && leb a.priority prio_ingress_reject) as'
