-- ===== src/Mutator/Rebuild.antt =====
-- internal/mutator/apply.go: the rebuild of one priority through protective copies.
use molebridge.Base.{
  ℕ, zero, suc, ◌+◌, ◌-◌, ◌%◌, ◌^◌, Option, none, some, List, [], ◌∷◌, ◌++◌, map, is_some,
  if◌then◌else◌, b2n,
}
use molebridge.Rtnl.Addr.{Family}
use molebridge.Rtnl.Rule.{Rule}
use molebridge.Mutator.Kernel.{Options}
use molebridge.Mutator.Owner.{
  Fault, nothing_expected, Owner, add_rule, del_rule, del_rule_priority, confirmed,
}

-- `uint32` minus one.
abbrev pub previous_priority : ℕ → ℕ
previous_priority p = (p + (2 ^ 32 - 1)) % 2 ^ 32

abbrev pub copy_of : ℕ → Rule → Rule
copy_of p w = record w { priority = previous_priority p }

-- What a loop has done: the mutations counted, and the error that it ends with.
abbrev pub Done : Type 0
Done = ℕ × Option Fault

-- The copies that this call put in, with what the loop has done.
pub record Copies : Type 0 where
  pub mutations : ℕ
  pub installed : List Rule
  pub err : Option Fault

module _ {K : Type 0} (o : Options K) where
  -- The loop that installs the copies; it returns at the first error.
  unfoldable pub install_copies : List Rule → Copies → Owner K → Copies × Owner K
  unfolding add_rule
  install_copies [] st t = (st, t)
  install_copies (cp ∷ cps) st t =
      let (change, t') = add_rule o cp t in
      let rest =
        install_copies cps
          (if change.0
            then record st { mutations = suc st.mutations; installed = st.installed ++ cp ∷ [] }
            else st)
          t' in
      if is_some change.1 then (record st { err = change.1 }, t') else rest

  -- The loop that clears a priority, at most `n` times: none is left, or an error.
  unfoldable pub clear : ℕ → Family → ℕ → ℕ → Owner K → Done × Owner K
  unfolding del_rule_priority
  clear zero f p m t = ((m, none), t)
  clear (suc n) f p m t =
      let (change, t') = del_rule_priority o f p t in
      let rest = clear n f p (suc m) t' in
      if is_some change.1 then ((m, change.1), t') else if change.0 then rest else ((m, none), t')

  -- The loop that puts the rules back; the first error is kept.
  unfoldable pub refill : List Rule → Done → Owner K → Done × Owner K
  unfolding add_rule
  refill [] st t = (st, t)
  refill (w ∷ ws) st t =
      let (change, t') = add_rule o w t in
      refill ws (st.0 + b2n change.0, if is_some st.1 then st.1 else change.1) t'

  -- The loop that takes the copies out; its errors do not count.
  unfoldable pub remove_copies : List Rule → ℕ → Owner K → ℕ × Owner K
  unfolding del_rule
  remove_copies [] m t = (m, t)
  remove_copies (cp ∷ cps) m t =
      let (change, t') = del_rule o cp t in remove_copies cps (m + b2n change.0) t'

  -- After the refill: the rules are confirmed, then the copies go.
  unfoldable pub retire_copies : Family → List Rule → List Rule → Done → Owner K → Done × Owner K
  unfolding confirmed remove_copies
  retire_copies f want installed st t =
      if is_some st.1
      then (st, t)
      else let (fault, t') = confirmed o f want t in
        let (m, t'') = remove_copies installed st.0 t' in
        if is_some fault then ((st.0, fault), t') else ((m, none), t'')

  -- With every copy confirmed: the priority is cleared and refilled.
  unfoldable pub replace_rules : Family → ℕ → List Rule → Copies → Owner K → Done × Owner K
  unfolding clear refill retire_copies
  replace_rules f p want cs t =
      let (cleared, t') = clear 32 f p cs.mutations t in
      let (filled, t'') = refill want cleared t' in
      if is_some cleared.1 then (cleared, t') else retire_copies f want cs.installed filled t''

  unfoldable pub rebuild : Family → ℕ → List Rule → Owner K → Done × Owner K
  unfolding install_copies confirmed replace_rules
  rebuild f p [] t = ((0, some nothing_expected), t)
  rebuild f p (w ∷ ws) t =
      let copies = map (copy_of p) (w ∷ ws) in
      let start : Copies = record { mutations = 0; installed = []; err = none } in
      let (cs, t1) = install_copies copies start t in
      let (fault, t2) = confirmed o f copies t1 in
      let rest = replace_rules f p (w ∷ ws) cs t2 in
      if is_some cs.err
      then ((cs.mutations, cs.err), t1)
      else if is_some fault
      then ((cs.mutations, fault), t2)
      else rest
