-- ===== src/Contract/Diff/Spares.antt =====
-- internal/contract/diff.go: which rules a kernel delete spares, and the rules left in place.
use molebridge.Base.{
  ℕ, Bool, true, false, ◌≡◌, refl, inl, inr, List, [], ◌∷◌, map, ◌==◌, ap, not, ◌||◌, All,
  All-append, All-map_prop, any-All_not, Bool-cases, arith,
}
use molebridge.Rtnl.Addr.{Family}
use molebridge.Rtnl.Rule.{Rule}
use molebridge.Rtnl.Delete.{delete_matches}
use molebridge.Contract.Spec.{Spec, skipped, return_path_shaped}
use molebridge.Contract.Diff.{
  left_add, left_from, left_return_path, moved, at_priority, delete_may_take, Wanted, hits, mark,
  covered, expected_at, unmatched, has_items,
}

-- A kernel delete with the attributes of `a` takes none of the rules.
abbrev pub Spares : Rule → List Rule → Type 0
Spares a rs = All (λ e. delete_matches a e ≡ false) rs

-- The kernel compares priorities first.
pub delete_matches_ne :
    (a e : Rule) → (a.priority == e.priority) ≡ false → delete_matches a e ≡ false
unfolding delete_matches
delete_matches_ne a e q = rw q refl

pub tells_apart : (Q : ℕ → Bool) (b : Bool) {p q : ℕ} → Q p ≡ not b → Q q ≡ b → (p == q) ≡ false
tells_apart Q true {p} {q} h k = ground (arith, h, k)
tells_apart Q false {p} {q} h k = ground (arith, h, k)

abbrev pub rules_of : List Wanted → List Rule
rules_of ws = map (λ w. w.rule) ws

pub All-rules_of :
    (P : Rule → Type 0) (ws : List Wanted) → All (λ w. P w.rule) ws → All P (rules_of ws)
All-rules_of P [] h = tt
All-rules_of P (w ∷ ws) h = (h.0, All-rules_of P ws h.1)

pub rules_of-unmatched : (rs : List Rule) → rules_of (unmatched rs) ≡ rs
rules_of-unmatched [] = refl
rules_of-unmatched (r ∷ rs) = ap (λ xs. r ∷ xs) (rules_of-unmatched rs)

-- Marking a rule keeps the expected rules.
pub rules_of-mark : (a : Rule) (ws : List Wanted) → rules_of (mark a ws).0 ≡ rules_of ws
unfolding mark
rules_of-mark a [] = refl
rules_of-mark a (w ∷ ws) = elim (Bool-cases (hits a w)) [
  | inl e ↦ rw e refl
  | inr e ↦ rw e (ap (λ xs. w.rule ∷ xs) (rules_of-mark a ws))
]

-- The rules left to the transaction stand at skipped priorities.
abbrev pub IsSkipped : Spec → Family → Rule → Type 0
IsSkipped s f r = skipped s f r.priority ≡ true

left_add-IsSkipped :
    (s : Spec) (f : Family) (out : List Rule) (a : Rule)
    → All (IsSkipped s f) out
    → All (IsSkipped s f) (left_add s f out a)
unfolding left_add
left_add-IsSkipped s f out a h =
    elim (Bool-cases (not (skipped s f a.priority) || not (return_path_shaped s f a))) [
      | inl e ↦ rw e h
      | inr e ↦ rw e (elim (Bool-cases (has_items out a.priority a)) [
        | inl d ↦ rw (d, has_items) h
        | inr d ↦ rw (d, has_items) (All-append (IsSkipped s f) out (a ∷ []) h (ground arith, tt))
      ])
    ]

left_from-IsSkipped :
    (s : Spec) (f : Family) (out rs : List Rule)
    → All (IsSkipped s f) out
    → All (IsSkipped s f) (left_from s f out rs)
unfolding left_from
left_from-IsSkipped s f out [] h = h
left_from-IsSkipped s f out (a ∷ rs) h =
    left_from-IsSkipped s f (left_add s f out (moved s f a)) rs
      (left_add-IsSkipped s f out (moved s f a) h)

pub left-IsSkipped :
    (s : Spec) (f : Family) (rs : List Rule) → All (IsSkipped s f) (left_return_path s f rs)
unfolding left_return_path
left-IsSkipped s f rs = left_from-IsSkipped s f [] rs tt

pub Spares-at :
    (a : Rule) (xs : List Rule)
    → delete_may_take a (at_priority a.priority xs) ≡ false
    → Spares a xs
unfolding delete_may_take
Spares-at a [] h = tt
Spares-at a (x ∷ xs) h = elim (Bool-cases (x.priority == a.priority)) [
  | inl e ↦
      let k = rw e at h in (ground arith, Spares-at a xs (unfold delete_may_take in ground arith))
  | inr e ↦ (delete_matches_ne a x (ground arith), Spares-at a xs (rw e at h))
]

pub Spares-uncovered_by :
    (a : Rule) (ws : List Wanted) → covered a ws ≡ false → Spares a (rules_of ws)
unfolding covered
Spares-uncovered_by a ws h =
    All-rules_of (λ e. delete_matches a e ≡ false) ws
      (All-map_prop _ (λ w. delete_matches a w.rule ≡ false)
        (λ w q. ground (arith, delete_matches_ne a w.rule)) ws (any-All_not _ ws h))

pub Spares-unexpected_by :
    (a : Rule) (ws : List Wanted) → expected_at a.priority ws ≡ false → Spares a (rules_of ws)
unfolding expected_at
Spares-unexpected_by a ws h =
    All-rules_of (λ e. delete_matches a e ≡ false) ws
      (All-map_prop _ (λ w. delete_matches a w.rule ≡ false) (λ w q. delete_matches_ne a w.rule q)
        ws (any-All_not _ ws h))
