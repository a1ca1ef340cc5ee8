-- ===== src/Contract/Diff/Exact.antt =====
-- internal/contract/diff.go: when `Diff` has nothing to do.
use molebridge.Base.{
  ℕ, true, false, ◌&&◌, ◌≡◌, refl, sym, ap, ◌∙◌, List, [], ◌∷◌, ◌++◌, map, keep, All, append_assoc,
  append-nil, is_some, arith, same_refl,
}
use molebridge.Rtnl.Addr.{Family}
use molebridge.Rtnl.Rule.{Rule}
use molebridge.Rtnl.Items.{items, Items-discrete}
use molebridge.Contract.Spec.{
  Spec, owned, skipped, return_path_shaped, rules, guard_rules, control_rules, lan_rules,
  overlay_rules, return_path_pair, exit_rules, kill_rules,
}
use molebridge.Contract.Spec.Shape.{All-rules, by_groups, rules-IsOwned, rules_unskipped}
use molebridge.Contract.Diff.{
  DiffOptions, left_return_path, Wanted, mark, expected_at, next_priority, moved, left_add,
  left_from, missing, additions, left_additions, Scan, judge, scan, unmatched, start, diff,
  order_of,
}
use molebridge.Contract.Diff.Safe.{diff_parts}

-- The rules of `as'` fill the entries of a list of which those of `done` are marked.
abbrev marked : List Rule → List Wanted
marked rs = map (λ r. record { rule = r; matched = true }) rs

mark_next :
    (done : List Rule) (a : Rule) (rest : List Rule)
    → mark a (marked done ++ unmatched (a ∷ rest))
      ≡ (marked (done ++ a ∷ []) ++ unmatched rest, true)
unfolding mark
mark_next [] a rest = ground (arith, same_refl Items-discrete (items a))
mark_next (d ∷ done) a rest = ground (arith, mark_next done a rest)

-- An entry for the priority of a rule that is still to be found.
expected_at-next :
    (done : List Rule) (a : Rule) (rest : List Rule)
    → expected_at a.priority (marked done ++ unmatched (a ∷ rest)) ≡ true
unfolding expected_at
expected_at-next [] a rest = ground arith
expected_at-next (d ∷ done) a rest = ground (arith, expected_at-next done a rest)

abbrev found : List Rule → List Rule → Scan
found done rest = record { wanted = marked done ++ unmatched rest; subbed = []; removals = [] }

module _ (s : Spec) (f : Family) (left : List Rule) where
  judge_next :
      (done : List Rule) (a : Rule) (rest : List Rule)
      → owned s a.priority ≡ true
      → skipped s f a.priority ≡ false
      → judge s f left (found done (a ∷ rest)) a ≡ found (done ++ a ∷ []) rest
  unfolding judge
  judge_next done a rest o k = rw (o, k, expected_at-next done a rest, mark_next done a rest) refl

  scan_exact :
      (done rest : List Rule)
      → All (λ r. owned s r.priority ≡ true) rest
      → All (λ r. skipped s f r.priority ≡ false) rest
      → scan s f left (found done rest) rest ≡ found (done ++ rest) []
  unfolding scan
  scan_exact done [] o k = ap (λ xs. found xs []) (sym (append-nil done))
  scan_exact done (a ∷ rest) o k =
      ap (λ st. scan s f left st rest) (judge_next done a rest o.0 k.0)
      ∙ scan_exact (done ++ a ∷ []) rest o.1 k.1
      ∙ ap (λ xs. found xs []) (append_assoc done (a ∷ []) rest)

-- No expected rule can be taken for the protective copy of a skipped one: it has no source, or
-- the next priority is not skipped.
abbrev NoCopy : Spec → Family → Rule → Type 0
NoCopy s f r = (skipped s f (next_priority r.priority) && is_some r.src) ≡ false

rules-NoCopy : (s : Spec) (f : Family) → All (NoCopy s f) (rules s f)
rules-NoCopy s f = All-rules (NoCopy s f) s f (
    by_groups (NoCopy s f) s f (unfold guard_rules skipped in ground arith)
      (unfold control_rules skipped in ground arith)
      (λ e p. unfold lan_rules skipped in ground arith) (λ e. unfold skipped in ground arith)
      (λ p. unfold overlay_rules skipped in ground arith)
      (λ a. unfold return_path_pair skipped in ground arith)
      (unfold exit_rules skipped in ground arith) (unfold kill_rules skipped in ground arith))

unsourced :
    (s : Spec) (f : Family) (r : Rule) → is_some r.src ≡ false → return_path_shaped s f r ≡ false
unfolding return_path_shaped
unsourced s f r h = ground arith

left_add_none :
    (s : Spec) (f : Family) (out : List Rule) (r : Rule)
    → skipped s f r.priority ≡ false
    → NoCopy s f r
    → left_add s f out (moved s f r) ≡ out
unfolding moved left_add
left_add_none s f out r k c =
    ground (arith, unsourced s f (record r { priority = next_priority r.priority }))

left_from_none :
    (s : Spec) (f : Family) (rs : List Rule)
    → All (λ r. skipped s f r.priority ≡ false) rs
    → All (NoCopy s f) rs
    → left_from s f [] rs ≡ []
unfolding left_from
left_from_none s f [] k c = refl
left_from_none s f (r ∷ rs) k c =
    rw (left_add_none s f [] r k.0 c.0) (left_from_none s f rs k.1 c.1)

additions_none :
    (opt : DiffOptions) (ps : List ℕ) (rs : List Rule) → additions opt ps (marked rs ++ []) ≡ []
unfolding additions missing
additions_none opt [] rs = refl
additions_none opt (p ∷ ps) rs = rw (none_missing p rs, additions_none opt ps rs) refl
  where
    none_missing : (q : ℕ) (xs : List Rule) → keep (missing opt q) (marked xs ++ []) ≡ []
    none_missing p [] = refl
    none_missing p (r ∷ rs) = ground (arith, none_missing p rs)

left-rules : (s : Spec) (f : Family) → left_return_path s f (rules s f) ≡ []
unfolding left_return_path
left-rules s f = left_from_none s f (rules s f) (rules_unskipped s f) (rules-NoCopy s f)

end-rules :
    (s : Spec) (f : Family)
    → scan s f (left_return_path s f (rules s f)) (start (rules s f)) (rules s f)
      ≡ found (rules s f) []
end-rules s f =
    scan_exact s f (left_return_path s f (rules s f)) [] (rules s f) (rules-IsOwned s f)
      (rules_unskipped s f)

-- The contract judged against itself: rules that are exactly the expected ones need nothing.
pub diff-rules : (s : Spec) (f : Family) (opt : DiffOptions) → diff s f (rules s f) opt ≡ []
diff-rules s f opt =
    rw (diff_parts, end-rules s f, additions_none opt (order_of s) (rules s f), left-rules s f)
      (unfold left_additions in refl)
