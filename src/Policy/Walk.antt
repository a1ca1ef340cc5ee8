-- ===== src/Policy/Walk.antt =====
-- internal/policy/policy.go: where a packet can end.
--
-- The FNV hash of a rule's text, by which outcomes name the rule that ended the walk, is the
-- parameter `name`.
use Prim.Native.Nat.{bit_xor}
use molebridge.Base.{
  ℕ, ◌+◌, ◌*◌, ◌/◌, ◌%◌, ◌^◌, Bool, true, false, ◌&&◌, ◌||◌, Option, none, some, List, [], ◌∷◌,
  ◌++◌, map, ◌==◌, same, any, if◌then◌else◌,
}
use molebridge.Rtnl.Rule.{
  Rule, fr_act_to_tbl, fr_act_goto, fr_act_blackhole, fr_act_unreachable, fr_act_prohibit,
}
use molebridge.Policy.Packet.{Packet, never, always, perhaps, matches}
use molebridge.Policy.Lookup.{State, stopped, Outcome, Outcome-discrete, Found, lookup}

abbrev word : ℕ
word = 2 ^ 64

-- `mix` on uint64.
unfoldable pub mix : ℕ → ℕ → ℕ
mix decision seq =
    let x = (seq * 0x9e3779b97f4a7c15 + decision + 0x7f4a7c15) % word in
    let y = bit_xor x (x / 2 ^ 29) * 0xbf58476d1ce4e5b9 % word in bit_xor y (y / 2 ^ 32)

unfoldable pub add_cond : ℕ → Outcome → Outcome
unfolding mix
add_cond decision o = record o { cond = mix decision o.cond }

unfoldable pub tag : ℕ → List Outcome → List Outcome
unfolding add_cond
tag decision os = map (add_cond decision) os

-- The outcomes of the second list that the first does not have are appended to it.
unfoldable pub union : List Outcome → List Outcome → List Outcome
unfolding Outcome-discrete
union out [] = out
union out (o ∷ os) =
    union (if any (λ x. same Outcome-discrete x o) out then out else out ++ o ∷ []) os

abbrev pub end_set : List Outcome
end_set = record { kind = stopped; table = 0; dev = 0; by = 0x9e3779b97f4a7c15; cond = 0 } ∷ []

-- `sets[i]` with its rule, for the rules from some place on.
abbrev pub Sets : Type 0
Sets = List (Rule × List Outcome)

abbrev pub next_set : Sets → List Outcome
next_set [] = end_set
next_set (x ∷ xs) = x.1

-- The set of the first rule with the priority, if there is one.
abbrev pub goto_set : ℕ → Sets → Option (List Outcome)
goto_set n [] = none
goto_set n ((r, set) ∷ xs) = let rest = goto_set n xs in if r.priority == n then some set else rest

abbrev pub has_any : List Outcome → Bool
has_any [] = false
has_any (_ ∷ _) = true

abbrev pub ended_by : ℕ → Outcome → Outcome
ended_by rule o = record o { by = rule }

-- What a lookup leads to, given what it finds and the set of the next rule.
unfoldable pub looked_up : ℕ → Found → List Outcome → List Outcome
unfolding union tag
looked_up by found next =
    let outs = map (ended_by by) found.0 in
    if found.1 && has_any outs
    then union (tag (mix by 1) outs) (tag (mix by 2) next)
    else if found.1
    then next
    else outs

abbrev pub refuses : Rule → Bool
refuses r =
    r.action == fr_act_unreachable || (r.action == fr_act_prohibit || r.action == fr_act_blackhole)

module _ (name : Rule → ℕ) where
  -- The switch over the action of a rule that the packet matches.
  unfoldable pub taken : State → Rule → Packet → Sets → List Outcome
  unfolding lookup looked_up
  taken s r p rest =
      if r.action == fr_act_to_tbl
      then looked_up (name r) (lookup s r p) (next_set rest)
      else if refuses r
      then record { kind = stopped; table = 0; dev = 0; by = name r; cond = 0 } ∷ []
      else if r.action == fr_act_goto
      then elim r.goto [
        | none ↦ next_set rest
        | some n ↦ elim (goto_set n rest) [ none ↦ next_set rest | some set ↦ set ]
      ]
      else next_set rest

  unfoldable pub walk_rule : State → Rule → Packet → Sets → List Outcome
  unfolding matches taken union tag
  walk_rule s r p rest = elim (matches r p) [
    | never ↦ next_set rest
    | always ↦ taken s r p rest
    | perhaps ↦
        union (tag (mix (name r) 3) (taken s r p rest)) (tag (mix (name r) 4) (next_set rest))
  ]

  unfoldable pub walk_from : State → Packet → List Rule → Sets
  unfolding walk_rule
  walk_from s p [] = []
  walk_from s p (r ∷ rs) = let rest = walk_from s p rs in (r, walk_rule s r p rest) ∷ rest

  -- `walk`: every place where the packet can end.
  unfoldable pub walk : State → Packet → List Outcome
  unfolding walk_from
  walk s p = next_set (walk_from s p (s.rules p.family))
