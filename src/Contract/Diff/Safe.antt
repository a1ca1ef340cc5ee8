-- ===== src/Contract/Diff/Safe.antt =====
-- internal/contract/diff.go: what the removals of `Diff` cannot cost.
use mathlib.Core.List.{Memᴰ}
use molebridge.Base.{
  All-Mem, ℕ, Bool, true, false, ◌≡◌, refl, inl, inr, List, [], ◌∷◌, ◌++◌, map, ◌==◌, any, not,
  subst, ◌≢◌, ◌∙◌, if◌then◌else◌, All, All-append, All-map_prop, append_assoc, sym, Bool-cases,
}
use molebridge.Rtnl.Addr.{Family}
use molebridge.Rtnl.Rule.{Rule}
use molebridge.Rtnl.Delete.{delete_matches}
use molebridge.Contract.Spec.{
  Spec, owned, skipped, return_path_shaped, rules, prio_backstop, prio_return_path,
}
use molebridge.Contract.Spec.Shape.{rules-IsOwned, rules_unskipped, skipped-IsOwned}
use molebridge.Contract.Diff.Spares.{
  Spares, rules_of, rules_of-unmatched, rules_of-mark, delete_matches_ne, tells_apart, IsSkipped,
  left-IsSkipped, Spares-at, Spares-uncovered_by, Spares-unexpected_by,
}
use molebridge.Contract.Diff.{
  ActionKind, add, del, sub, Action, DiffOptions, left_return_path, at_priority, delete_may_take,
  leftover_copy, Wanted, mark, covered, expected_at, Scan, remove, rebuild, judge, scan, start,
  additions, left_additions, diff, order_of,
}

-- A removal is no addition, and a plain one takes none of the rules.
abbrev pub IsSafe : List Rule → Action → Type 0
IsSafe rs act = (act.kind ≢ add) × (act.kind ≡ del → Spares act.rule rs)

-- The loop keeps its list of expected rules, and its removals spare the protected rules.
pub record Inv (want left : List Rule) (st : Scan) : Type 0 where
  pub wants : rules_of st.wanted ≡ want
  pub safe : All (IsSafe (want ++ left)) st.removals

module _ {want left : List Rule} where
  remove-Inv :
      (k : ActionKind) (a : Rule) (st : Scan)
      → (k ≢ add)
      → (k ≡ del → Spares a (want ++ left))
      → Inv want left st
      → Inv want left (remove k a st)
  unfolding remove
  remove-Inv k a st n h i = record {
    wants = i.wants;
    safe = All-append (IsSafe (want ++ left)) st.removals _ i.safe ((n, h), tt);
  }

  rebuild-Inv : (a : Rule) (st : Scan) → Inv want left st → Inv want left (rebuild a st)
  unfolding rebuild
  rebuild-Inv a st i = elim (Bool-cases (any (λ p. p == a.priority) st.subbed)) [
    | inl e ↦ rw e i
    | inr e ↦ rw e (
        remove-Inv sub a (record st { subbed = a.priority ∷ st.subbed }) (λ q. cc) (λ q. cc)
          (record { wants = i.wants; safe = i.safe }))
  ]

-- Rules at a priority where nothing is expected, and at another than the left ones.
module _ (s : Spec) (f : Family) (rs : List Rule) (a : Rule) where
  abbrev want : List Rule
  want = rules s f

  abbrev left : List Rule
  left = left_return_path s f rs

  -- A rule whose priority tells it from the rules of a list.
  apart :
      (Q : ℕ → Bool) (b : Bool) (xs : List Rule)
      → Q a.priority ≡ not b
      → All (λ e. Q e.priority ≡ b) xs
      → Spares a xs
  apart Q b xs q h =
      All-map_prop (λ e. Q e.priority ≡ b) (λ e. delete_matches a e ≡ false)
        (λ e w. delete_matches_ne a e (tells_apart Q b q w)) xs h

  Spares-unowned : owned s a.priority ≡ false → Spares a (want ++ left)
  Spares-unowned h = All-append _ want left (apart (owned s) true want h (rules-IsOwned s f)) (
      apart (owned s) true left h (
        All-map_prop (IsSkipped s f) (λ e. owned s e.priority ≡ true)
          (λ e w. skipped-IsOwned s f e.priority w) left (left-IsSkipped s f rs)))

  Spares-skipped :
      skipped s f a.priority ≡ true
      → delete_may_take a (at_priority a.priority left) ≡ false
      → Spares a (want ++ left)
  Spares-skipped h k =
      All-append _ want left (apart (skipped s f) false want h (rules_unskipped s f))
        (Spares-at a left k)

  Spares-left : skipped s f a.priority ≡ false → Spares a left
  Spares-left h = apart (skipped s f) true left h (left-IsSkipped s f rs)

  Spares-kept :
      (ws : List Wanted)
      → skipped s f a.priority ≡ false
      → rules_of ws ≡ want
      → Spares a (rules_of ws)
      → Spares a (want ++ left)
  Spares-kept ws h e k = All-append _ want left (subst (Spares a) e k) (Spares-left h)

  -- The branch of a skipped priority.
  left_alone :
      (st : Scan)
      → Inv want left st
      → skipped s f a.priority ≡ true
      → Inv want left (
          if return_path_shaped s f a
          then st
          else if delete_may_take a (at_priority a.priority left)
          then rebuild a st
          else remove del a st)
  left_alone st i k = elim (Bool-cases (return_path_shaped s f a)) [
    | inl e ↦ rw e i
    | inr e ↦ rw e (elim (Bool-cases (delete_may_take a (at_priority a.priority left))) [
      | inl d ↦ rw d (rebuild-Inv a st i)
      | inr d ↦ rw d (remove-Inv del a st (λ q. cc) (λ _. Spares-skipped k d) i)
    ])
  ]

  -- The branch that compares with the expected rules.
  compared :
      (st : Scan)
      → Inv want left st
      → skipped s f a.priority ≡ false
      → Inv want left (
          if not (expected_at a.priority st.wanted)
          then remove del a st
          else if (mark a st.wanted).1
          then record st { wanted = (mark a st.wanted).0 }
          else if covered a st.wanted
          then rebuild a st
          else remove del a st)
  compared st i k = elim (Bool-cases (expected_at a.priority st.wanted)) [
    | inr e ↦ rw e (
        remove-Inv del a st (λ q. cc)
          (λ _. Spares-kept st.wanted k i.wants (Spares-unexpected_by a st.wanted e)) i)
    | inl e ↦ rw e (elim (Bool-cases (mark a st.wanted).1) [
      | inl m ↦ rw m (record { wants = rules_of-mark a st.wanted ∙ i.wants; safe = i.safe })
      | inr m ↦ rw m (elim (Bool-cases (covered a st.wanted)) [
        | inl c ↦ rw c (rebuild-Inv a st i)
        | inr c ↦ rw c (
            remove-Inv del a st (λ q. cc)
              (λ _. Spares-kept st.wanted k i.wants (Spares-uncovered_by a st.wanted c)) i)
      ])
    ])
  ]

  judge-Inv : (st : Scan) → Inv want left st → Inv want left (judge s f left st a)
  unfolding judge
  judge-Inv st i = elim (Bool-cases (owned s a.priority)) [
    | inr o ↦ rw o (elim (Bool-cases (leftover_copy s (rules s f) a)) [
      | inl e ↦ rw e (remove-Inv del a st (λ q. cc) (λ _. Spares-unowned o) i)
      | inr e ↦ rw e i
    ])
    | inl o ↦ rw o (elim (Bool-cases (skipped s f a.priority)) [
      | inl k ↦ rw k (left_alone st i k)
      | inr k ↦ rw k (compared st i k)
    ])
  ]

module _ (s : Spec) (f : Family) (rs : List Rule) where
  scan-Inv :
      (st : Scan) (as' : List Rule)
      → Inv (rules s f) (left_return_path s f rs) st
      → Inv (rules s f) (left_return_path s f rs) (scan s f (left_return_path s f rs) st as')
  unfolding scan
  scan-Inv st [] i = i
  scan-Inv st (a ∷ as') i =
      scan-Inv (judge s f (left_return_path s f rs) st a) as' (judge-Inv s f rs a st i)

  start-Inv : Inv (rules s f) (left_return_path s f rs) (start (rules s f))
  start-Inv = record { wants = rules_of-unmatched (rules s f); safe = tt }

  -- What the loop over the rules found leaves.
  abbrev pub end : Scan
  end = scan s f (left_return_path s f rs) (start (rules s f)) rs

  pub end-Inv : Inv (rules s f) (left_return_path s f rs) end
  end-Inv = scan-Inv (start (rules s f)) rs start-Inv

abbrev IsAdd : Action → Type 0
IsAdd a = a.kind ≡ add

map-IsAdd {ℓ} :
    {A : Type ℓ} (g : A → Action) (xs : List A) → ((x : A) → IsAdd (g x)) → All IsAdd (map g xs)
map-IsAdd g [] h = tt
map-IsAdd g (x ∷ xs) h = (h x, map-IsAdd g xs h)

additions-IsAdd :
    (opt : DiffOptions) (ps : List ℕ) (ws : List Wanted) → All IsAdd (additions opt ps ws)
unfolding additions
additions-IsAdd opt [] ws = tt
additions-IsAdd opt (p ∷ ps) ws =
    All-append IsAdd (map _ _) _ (map-IsAdd _ _ (λ w. refl)) (additions-IsAdd opt ps ws)

left_additions-IsAdd :
    (actual left : List Rule) (ps : List ℕ) → All IsAdd (left_additions actual left ps)
unfolding left_additions
left_additions-IsAdd actual ls [] = tt
left_additions-IsAdd actual ls (p ∷ ps) =
    All-append IsAdd (map _ _) _ (map-IsAdd _ _ (λ w. refl)) (left_additions-IsAdd actual ls ps)

module _ (s : Spec) (f : Family) (rs : List Rule) (opt : DiffOptions) where
  abbrev pub put : List Action
  put =
      additions opt (order_of s) (end s f rs).wanted
      ++ left_additions rs (left_return_path s f rs) (prio_backstop ∷ prio_return_path ∷ [])

  put-IsAdd : All IsAdd put
  put-IsAdd =
      All-append IsAdd (additions opt _ _) (left_additions rs _ _) (additions-IsAdd opt _ _)
        (left_additions-IsAdd rs _ _)

  pub diff_parts : diff s f rs opt ≡ put ++ (end s f rs).removals
  unfolding diff
  diff_parts = sym (
      append_assoc (additions opt (order_of s) (end s f rs).wanted)
        (left_additions rs (left_return_path s f rs) (prio_backstop ∷ prio_return_path ∷ []))
        (end s f rs).removals)

  -- All additions come before all removals: the actions are a list of additions and then a list
  -- of removals.
  pub adds_first :
      (adds : List Action) × (removals : List Action) × (diff s f rs opt ≡ adds ++ removals)
      × All (λ a. a.kind ≡ add) adds
      × All (λ a. a.kind ≢ add) removals
  adds_first = (
    put,
    (end s f rs).removals,
    diff_parts,
    put-IsAdd,
    All-map_prop (IsSafe _) (λ a. a.kind ≢ add) (λ a h. h.0) _ (end-Inv s f rs).safe,
  )

  spared :
      All
        (λ a. a.kind ≡ del → Spares a.rule (rules s f ++ left_return_path s f rs))
        (diff s f rs opt)
  spared = rw diff_parts (
      All-append _ put _
        (All-map_prop IsAdd
          (λ a. a.kind ≡ del → Spares a.rule (rules s f ++ left_return_path s f rs)) (λ a h d. cc)
          put put-IsAdd)
        (All-map_prop (IsSafe _) _ (λ a h. h.1) _ (end-Inv s f rs).safe))

  -- A plain removal of the repair, as the kernel carries out a delete (a rule that has every
  -- attribute of the request), takes no rule that the contract expects and none that it leaves
  -- to a transaction.
  pub diff-Spares :
      (a : Action)
      → Memᴰ a (diff s f rs opt)
      → a.kind ≡ del
      → Spares a.rule (rules s f ++ left_return_path s f rs)
  diff-Spares a m d =
      All-Mem (λ b. b.kind ≡ del → Spares b.rule (rules s f ++ left_return_path s f rs)) spared m d
