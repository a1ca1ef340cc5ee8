-- ===== src/Contract/Plan/Held.antt =====
-- internal/contract/plan.go: the kill switch that waits, and what a plan's problems say.
use mathlib.Core.List.{Memᴰ}
use molebridge.Base.{
  ℕ, true, false, not, ◌≡◌, refl, ◌↔◌, inl, inr, Option, List, [], ◌∷◌, map, ◌==◌, keep, All,
  All-Mem, All-append, All-map_prop, Bool-cases, Text, arith,
}
use molebridge.Rtnl.Addr.{Family, Prefix}
use molebridge.Rtnl.Rule.{Rule}
use molebridge.Rtnl.Route.{Snapshot}
use molebridge.Contract.Spec.{Spec, prio_kill_switch}
use molebridge.Contract.Diff.{
  Action, add, DiffOptions, Wanted, add_action, missing, additions, left_additions, at_priority,
  diff, has_items, order_of, left_return_path,
}
use molebridge.Contract.Diff.Safe.{diff_parts, put, end, IsSafe, end-Inv}
use molebridge.Contract.Plan.{PlanInput, healthy, plan_family}

-- An action that does not install a rule at the kill switch's priority.
abbrev Holds : Action → Type 0
Holds a = (a.priority == prio_kill_switch) ≡ false

-- Additions at one priority, held at the kill switch's.
module _ (opt : DiffOptions) (held : opt.hold_kill_switch ≡ true) where
  added-Holds :
      (p : ℕ) (ws : List Wanted)
      → All Holds (map (λ w. add_action p w.rule) (keep (missing opt p) ws))
  unfolding missing add_action
  added-Holds p [] = tt
  added-Holds p (w ∷ ws) = elim (Bool-cases (missing opt p w)) [
    | inl e ↦ rw e (ground (arith, held), added-Holds p ws)
    | inr e ↦ rw e (added-Holds p ws)
  ]

  additions-Holds : (ps : List ℕ) (ws : List Wanted) → All Holds (additions opt ps ws)
  unfolding additions
  additions-Holds [] ws = tt
  additions-Holds (p ∷ ps) ws =
      All-append Holds (map _ _) _ (added-Holds p ws) (additions-Holds ps ws)

map-Holds :
    (p : ℕ) (rs : List Rule) → (p == prio_kill_switch) ≡ false → All Holds (map (add_action p) rs)
unfolding add_action
map-Holds p [] h = tt
map-Holds p (r ∷ rs) h = (h, map-Holds p rs h)

left_additions-Holds :
    (actual left : List Rule) (ps : List ℕ)
    → All (λ p. (p == prio_kill_switch) ≡ false) ps
    → All Holds (left_additions actual left ps)
unfolding left_additions
left_additions-Holds actual ls [] h = tt
left_additions-Holds actual ls (p ∷ ps) h =
    All-append Holds
      (map (add_action p) (keep (λ l. not (has_items actual p l)) (at_priority p ls)))
      (left_additions actual ls ps) (map-Holds p _ h.0) (left_additions-Holds actual ls ps h.1)

held_apart :
    (s : Spec) (f : Family) (rs : List Rule) (opt : DiffOptions)
    → opt.hold_kill_switch ≡ true
    → All (λ a. a.kind ≡ add → Holds a) (diff s f rs opt)
held_apart s f rs opt h = rw (diff_parts s f rs opt) (
    All-append (λ a. a.kind ≡ add → Holds a) (put s f rs opt) _
      (All-map_prop Holds (λ a. a.kind ≡ add → Holds a) (λ a k _. k) (put s f rs opt)
        (All-append Holds (additions opt (order_of s) (end s f rs).wanted) _
          (additions-Holds opt h (order_of s) (end s f rs).wanted)
          (left_additions-Holds rs (left_return_path s f rs) _ (refl, (refl, tt)))))
      (All-map_prop (IsSafe _) (λ a. a.kind ≡ add → Holds a) (λ a k q. absurd (k.0 q)) _
        (end-Inv s f rs).safe))

-- While the host table is not what the main table's host routes are, the plan adds no rule at
-- the kill switch's priority.
pub plan_family_held :
    (text : Option Prefix → Text) (s : Spec) (snap : Snapshot) (f : Family) (input : PlanInput)
    (a : Action)
    → (plan_family text s snap f input).host_refresh ≡ true
    → Memᴰ a (plan_family text s snap f input).rules
    → a.kind ≡ add
    → (a.priority == prio_kill_switch) ≡ false
unfolding plan_family
plan_family_held text s snap f input a h m k =
    All-Mem (λ b. b.kind ≡ add → Holds b) (held_apart _ f (snap.rules f) _ h) m k

-- A plan is healthy exactly when it lists no problem.
pub healthy-problems :
    (text : Option Prefix → Text) (s : Spec) (snap : Snapshot) (f : Family) (input : PlanInput)
    → (healthy (plan_family text s snap f input) ≡ true)
      ↔ ((plan_family text s snap f input).problems ≡ [])
unfolding plan_family healthy
healthy-problems text s snap f input = ground arith
