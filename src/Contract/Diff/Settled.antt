-- ===== src/Contract/Diff/Settled.antt =====
-- internal/contract/diff.go: what it means that `Diff` returns nothing.
use molebridge.Base.{
  ℕ, suc, ◌+◌, Bool, true, false, not, ◌&&◌, ◌≡◌, ◌≢◌, refl, sym, ap, ◌∙◌, subst, inl, inr, List,
  [], ◌∷◌, ◌++◌, map, ◌==◌, any, keep, if◌then◌else◌, All, All-of_Mem, Bool-cases, arith,
}
use molebridge.Rtnl.Addr.{Family}
use molebridge.Rtnl.Rule.{Rule}
use molebridge.Rtnl.Items.{Item, items, equal_items}
use molebridge.Contract.Spec.{
  Spec, owned, skipped, rules, guard_rules, control_rules, lan_rules, overlay_rules,
  return_path_pair, exit_rules, kill_rules,
}
use molebridge.Contract.Spec.Shape.{All-rules, by_groups}
use molebridge.Contract.Diff.{
  del, sub, Action, DiffOptions, left_return_path, Wanted, mark, Scan, remove, rebuild, judge, scan,
  unmatched, start, missing, add_action, additions, diff, order_of,
}
use molebridge.Contract.Diff.Safe.{diff_parts, put, end, end-Inv}
use molebridge.Contract.Diff.Spares.{rules_of}

-- How many rules stand at the priority with the items.
pub tally : ℕ → List Item → List Rule → ℕ
tally p x [] = 0
tally p x (r ∷ rs) =
    let rest = tally p x rs in if p == r.priority && equal_items x (items r) then suc rest else rest

-- The rules that the contract judges: at its priorities, but not left to a transaction.
abbrev pub judged : Spec → Family → List Rule → List Rule
judged s f rs = keep (λ r. owned s r.priority && not (skipped s f r.priority)) rs

-- The same count over the entries that are marked.
filled : ℕ → List Item → List Wanted → ℕ
filled p x [] = 0
filled p x (w ∷ ws) =
    let rest = filled p x ws in
    if w.matched && (p == w.rule.priority && equal_items x (items w.rule)) then suc rest else rest

module _ (p : ℕ) (x : List Item) where
  filled-mark :
      (a : Rule) (ws : List Wanted)
      → (mark a ws).1 ≡ true
      → filled p x (mark a ws).0 ≡ filled p x ws + tally p x (a ∷ [])
  unfolding filled tally mark
  filled-mark a [] h = cc
  filled-mark a (w ∷ ws) h = ground (arith, filled-mark a ws)

  snoc_ne : (xs : List Action) (y : Action) → (xs ++ y ∷ []) ≢ []
  snoc_ne [] y e = cc
  snoc_ne (z ∷ xs) y e = cc

  -- A round that removes nothing marks an entry exactly for a rule that the contract judges.
  judge-tally :
      (s : Spec) (f : Family) (left : List Rule) (st : Scan) (a : Rule)
      → st.subbed ≡ []
      → (judge s f left st a).removals ≡ []
      → (st.removals ≡ [])
        × ((judge s f left st a).subbed ≡ [])
        × (filled p x (judge s f left st a).wanted
            ≡ filled p x st.wanted + tally p x (judged s f (a ∷ [])))
  unfolding judge remove rebuild tally
  judge-tally s f left st a u h = ground (
    arith,
    snoc_ne st.removals (record { kind = del; priority = a.priority; rule = a }),
    snoc_ne st.removals (record { kind = sub; priority = a.priority; rule = a }),
    filled-mark a st.wanted,
  )

  tally-judged :
      (s : Spec) (f : Family) (a : Rule) (rs : List Rule)
      → tally p x (judged s f (a ∷ rs))
        ≡ tally p x (judged s f (a ∷ [])) + tally p x (judged s f rs)
  unfolding tally
  tally-judged s f a rs = ground arith

  judge_removals :
      (s : Spec) (f : Family) (left : List Rule) (st : Scan) (a : Rule)
      → (judge s f left st a).removals ≡ []
      → st.removals ≡ []
  unfolding judge remove rebuild
  judge_removals s f left st a h = ground (
    arith,
    snoc_ne st.removals (record { kind = del; priority = a.priority; rule = a }),
    snoc_ne st.removals (record { kind = sub; priority = a.priority; rule = a }),
  )

  scan_removals :
      (s : Spec) (f : Family) (left : List Rule) (st : Scan) (rs : List Rule)
      → (scan s f left st rs).removals ≡ []
      → st.removals ≡ []
  unfolding scan
  scan_removals s f left st [] h = h
  scan_removals s f left st (a ∷ rs) h =
      judge_removals s f left st a (scan_removals s f left (judge s f left st a) rs h)

  scan-tally :
      (s : Spec) (f : Family) (left : List Rule) (st : Scan) (rs : List Rule)
      → st.subbed ≡ []
      → (scan s f left st rs).removals ≡ []
      → filled p x (scan s f left st rs).wanted ≡ filled p x st.wanted + tally p x (judged s f rs)
  unfolding scan tally
  scan-tally s f left st [] u h = omega arith
  scan-tally s f left st (a ∷ rs) u h =
      let st' = judge s f left st a in
      let step = judge-tally s f left st a u (scan_removals s f left st' rs h) in
      let rest = scan-tally s f left st' rs step.1 h in
      omega (arith, step.2, rest, tally-judged s f a rs)

  filled-unmatched : (rs : List Rule) → filled p x (unmatched rs) ≡ 0
  unfolding filled
  filled-unmatched [] = refl
  filled-unmatched (r ∷ rs) = filled-unmatched rs

  filled_all :
      (ws : List Wanted) → All (λ w. w.matched ≡ true) ws → filled p x ws ≡ tally p x (rules_of ws)
  unfolding filled tally
  filled_all [] h = refl
  filled_all (w ∷ ws) h = ground (arith, filled_all ws h.1)

-- Every expected rule stands at a priority at which additions are made.
pub rules-IsListed :
    (s : Spec) (f : Family) → All (λ r. any (λ p. r.priority == p) (order_of s) ≡ true) (rules s f)
rules-IsListed s f =
    let P = λ (r : Rule). any (λ p. r.priority == p) (order_of s) ≡ true in
    All-rules P s f (
      by_groups P s f (unfold guard_rules in ground arith) (unfold control_rules in ground arith)
        (λ e p. unfold lan_rules in ground arith) (λ e. ground arith)
        (λ p. unfold overlay_rules in ground arith) (λ a. unfold return_path_pair in ground arith)
        (unfold exit_rules in ground arith) (unfold kill_rules in ground arith))

append_nil_parts {ℓ} : {A : Type ℓ} (xs ys : List A) → xs ++ ys ≡ [] → (xs ≡ []) × (ys ≡ [])
append_nil_parts [] ys h = (refl, h)
append_nil_parts (x ∷ xs) ys h = absurd (cc)

keep_nil {ℓ} :
    {A : Type ℓ} (q : A → Bool) (xs : List A) → keep q xs ≡ [] → All (λ x. q x ≡ false) xs
keep_nil q [] h = tt
keep_nil q (x ∷ xs) h = elim (Bool-cases (q x)) [
  | inl e ↦ absurd (let k = rw e at h in cc)
  | inr e ↦ (e, keep_nil q xs (rw e at h))
]

map_nil {ℓ κ} : {A : Type ℓ} {B : Type κ} (g : A → B) (xs : List A) → map g xs ≡ [] → xs ≡ []
map_nil g [] h = refl
map_nil g (x ∷ xs) h = absurd (cc)

-- With nothing to add every listed entry is marked.
additions_nil :
    (opt : DiffOptions) (ps : List ℕ) (ws : List Wanted)
    → opt.hold_kill_switch ≡ false
    → additions opt ps ws ≡ []
    → All (λ w. any (λ p. w.rule.priority == p) ps ≡ true → w.matched ≡ true) ws
unfolding additions missing
additions_nil opt [] ws k h = All-of_Mem _ ws (λ w m q. cc)
additions_nil opt (p ∷ ps) ws k h =
    let (here, later) =
      append_nil_parts (map (λ w. add_action p w.rule) (keep (missing opt p) ws)) _ h in
    combine ws (keep_nil (missing opt p) ws (map_nil _ _ here)) (additions_nil opt ps ws k later)
  where
    combine :
        (vs : List Wanted)
        → All (λ w. missing opt p w ≡ false) vs
        → All (λ w. any (λ p. w.rule.priority == p) ps ≡ true → w.matched ≡ true) vs
        → All (λ w. any (λ p. w.rule.priority == p) (p ∷ ps) ≡ true → w.matched ≡ true) vs
    combine [] a b = tt
    combine (v ∷ vs) a b = (λ q. ground (arith, a.0, b.0), combine vs a.1 b.1)

-- What holds of the rule of each entry holds of each rule, the other way round.
All-entries : (P : Rule → Type 0) (ws : List Wanted) → All P (rules_of ws) → All (λ w. P w.rule) ws
All-entries P [] h = tt
All-entries P (w ∷ ws) h = (h.0, All-entries P ws h.1)

All-apply {ℓ} :
    {A : Type ℓ} (P Q : A → Type 0) (xs : List A) → All P xs → All (λ x. P x → Q x) xs → All Q xs
All-apply P Q [] h k = tt
All-apply P Q (x ∷ xs) h k = (k.0 h.0, All-apply P Q xs h.1 k.1)

-- If the comparison finds nothing to do and the kill switch is not held back, then at each
-- priority the rules that the contract judges are, with their numbers, exactly the expected ones.
pub diff_nil-tally :
    (s : Spec) (f : Family) (rs : List Rule) (opt : DiffOptions)
    → opt.hold_kill_switch ≡ false
    → diff s f rs opt ≡ []
    → (p : ℕ) (x : List Item) → tally p x (judged s f rs) ≡ tally p x (rules s f)
diff_nil-tally s f rs opt k h p x =
    let st = end s f rs in
    let (puts, gone) =
      append_nil_parts (put s f rs opt) st.removals (sym (diff_parts s f rs opt) ∙ h) in
    let (adds, _) = append_nil_parts (additions opt (order_of s) st.wanted) _ puts in
    let same_rules = (end-Inv s f rs).wants in
    let listed = All-entries _ st.wanted (subst (All _) (sym same_rules) (rules-IsListed s f)) in
    let full =
      All-apply _ (λ w. w.matched ≡ true) st.wanted listed
        (additions_nil opt (order_of s) st.wanted k adds) in
    omega (
      arith,
      filled_all p x st.wanted full ∙ ap (tally p x) same_rules,
      scan-tally p x s f (left_return_path s f rs) (start (rules s f)) rs refl gone,
      filled-unmatched p x (rules s f),
    )
