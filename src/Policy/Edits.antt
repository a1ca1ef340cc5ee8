-- ===== src/Policy/Edits.antt =====
-- internal/policy/policy.go: the state that a snapshot gives, and the state after one change.
--
-- `clone` copies what an edit overwrites; values here are never shared, so it is the identity.
use molebridge.Base.{
  ℕ, Bool, true, false, not, ◌&&◌, ◌||◌, Option, none, some, List, [], ◌∷◌, map, ◌==◌, ltb, same,
  is_some, any, keep, if◌then◌else◌,
}
use molebridge.Rtnl.Addr.{Family, is_v4, Addr, Prefix, OptPrefix-discrete, OptAddr-discrete}
use molebridge.Rtnl.Rule.{Rule}
use molebridge.Rtnl.Delete.{OptNat-discrete, delete_matches}
use molebridge.Rtnl.Route.{Route, IfAddr, Link, Snapshot, link, global, routes_in_table}
use molebridge.Contract.Spec.{Spec, update, sort_rules}
use molebridge.Contract.Plan.{interest, index_of, no_items}
use molebridge.Policy.Lookup.{State}

-- `m[f][t] = v`
abbrev update_table : (Family → ℕ → List Route) → Family → ℕ → List Route → Family → ℕ → List Route
update_table m f t v = update m f (λ u. if u == t then v else m f u)

abbrev pub and_before {ℓ} : {A : Type ℓ} → A → Option (List A) → Option (List A)
and_before x none = none
and_before x (some ys) = some (x ∷ ys)

-- The list without the first element that passes the test, if one does.
unfoldable pub without_first {ℓ} : {A : Type ℓ} → (A → Bool) → List A → Option (List A)
without_first p [] = none
without_first p (x ∷ xs) =
    let rest = without_first p xs in if p x then some xs else and_before x rest

-- Before the first rule of a later priority.
unfoldable pub with_added : Rule → List Rule → List Rule
with_added r [] = r ∷ []
with_added r (x ∷ xs) =
    let rest = x ∷ with_added r xs in if ltb r.priority x.priority then r ∷ x ∷ xs else rest

unfoldable pub without_rule : Rule → State → State × Bool
unfolding without_first delete_matches
without_rule req s = elim (without_first (delete_matches req) (s.rules req.family)) [
  | none ↦ (s, false)
  | some rs ↦ (record s { rules = update s.rules req.family rs }, true)
]

unfoldable pub without_priority : Family → ℕ → State → State × Bool
unfolding without_first
without_priority f p s = elim (without_first (λ x. x.priority == p) (s.rules f)) [
  | none ↦ (s, false)
  | some rs ↦ (record s { rules = update s.rules f rs }, true)
]

unfoldable pub with_rule : Rule → State → State
unfolding with_added
with_rule r s = record s { rules = update s.rules r.family (with_added r (s.rules r.family)) }

-- What `NLM_F_REPLACE` takes for the same route.
unfoldable pub same_key : Route → Route → Bool
unfolding OptPrefix-discrete
same_key r x =
    same OptPrefix-discrete x.dst r.dst
    && (x.tos == r.tos
        && (x.metric == r.metric && (is_v4 r.family || same OptPrefix-discrete x.src r.src)))

unfoldable pub replaced : Route → List Route → List Route
unfolding same_key
replaced r [] = r ∷ []
replaced r (x ∷ xs) = let rest = x ∷ replaced r xs in if same_key r x then r ∷ xs else rest

unfoldable pub with_route : Route → State → State
unfolding replaced
with_route r s =
    if s.known r.table
    then record s {
      routes = update_table s.routes r.family r.table (replaced r (s.routes r.family r.table));
    }
    else s

-- A source prefix that is set and not of length zero.
abbrev selects : Option Prefix → Bool
selects none = false
selects (some p) = not (p.bits == 0)

-- Whether the request names the route: the `continue`s of the loop, negated.
unfoldable pub names_route : Route → Route → Bool
unfolding OptPrefix-discrete OptNat-discrete OptAddr-discrete
names_route r x =
    not (
      not (same OptPrefix-discrete x.dst r.dst)
      || (not (r.metric == 0) && not (x.metric == r.metric)))
    && (not (
          is_some r.oif && not (same OptNat-discrete x.oif r.oif)
          || is_some r.gateway && not (same OptAddr-discrete x.gateway r.gateway))
        && (if is_v4 r.family
            then not (
                not (r.tos == 0) && not (x.tos == r.tos)
                || (not (r.kind == 0) && not (x.kind == r.kind)
                    || (not (x.scope == r.scope)
                        || not (r.protocol == 0) && not (x.protocol == r.protocol))))
            else not (selects r.src && not (same OptPrefix-discrete x.src r.src))))

unfoldable pub without_route : Route → State → State × Bool
unfolding without_first names_route
without_route r s =
    if s.known r.table
    then elim (without_first (names_route r) (s.routes r.family r.table)) [
      | none ↦ (s, false)
      | some rts ↦ (record s { routes = update_table s.routes r.family r.table rts }, true)
    ]
    else (s, false)

abbrev locals_of : List IfAddr → List Addr
locals_of as' = map (λ a. a.local.addr) as'

-- The addresses of the interface, each time it has one.
unfoldable pub live_of : Option Link → List IfAddr → List Addr
unfolding global
live_of none as' = []
live_of (some l) as' = locals_of (keep (λ a. a.index == l.index && global a) as')

unfoldable pub from_snapshot : Spec → Snapshot → State
unfolding interest link routes_in_table sort_rules live_of
from_snapshot s snap =
    let known_table : ℕ → Bool = λ t. any (λ u. u == t) (interest s) in
    let exit_link = link snap s.config.exit_if in
    record {
      spec = s;
      rules = λ f. sort_rules (snap.rules f);
      routes = λ f t. if known_table t then routes_in_table snap f t else [];
      known = known_table;
      live = λ f. live_of exit_link (snap.addrs f);
      locals = λ f. locals_of (snap.addrs f);
      exit_idx = index_of exit_link;
      host_idx = if no_items s.config.host_if then 0 else index_of (link snap s.config.host_if);
      overlay_idx = index_of (link snap s.config.overlay_if);
    }
