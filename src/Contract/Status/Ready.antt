-- ===== src/Contract/Status/Ready.antt =====
-- internal/contract/status.go against diff.go and routes.go: ready families and the repair.
use mathlib.Core.List.{Memᴰ}
use molebridge.Base.{
  ℕ, true, false, not, ◌&&◌, ◌||◌, ◌≡◌, refl, ap, sym, ◌∙◌, inl, inr, Option, List, [], ◌∷◌, ◌==◌,
  all, keep, is_some, All, All-Mem, All-append, Bool-cases, arith,
}
use molebridge.Rtnl.Addr.{Family, Addr}
use molebridge.Rtnl.Rule.{Rule, iif_detached, oif_detached}
use molebridge.Rtnl.Route.{Route}
use molebridge.Contract.Spec.{Spec, owned, skipped, rules}
use molebridge.Contract.Diff.{
  Action, del, DiffOptions, Wanted, unmatched, mark, hits, expected_at, Scan, remove, judge, scan,
  start, additions, left_from, left_add, moved, missing, order_of, diff, leftover_copy,
}
use molebridge.Contract.Routes.{
  TunnelMode, RouteAction, del_route, is_fallback, is_tunnel_route, allowed, required, Sift,
  sift_step, sift, sift_start, exit_table_actions,
}
use molebridge.Contract.Status.{
  StatusOptions, exact_rule, status_spec, claim, Census, check_rule, check_rules, rules_status,
  RouteCensus, check_route, check_routes, no_routes, family_status,
}

-- A detached rule is claimed by no entry; for any other rule the two comparisons agree.
claim-mark :
    (r : Rule) (ws : List Wanted)
    → (iif_detached r || oif_detached r) ≡ false
    → claim r ws ≡ mark r ws
unfolding claim mark exact_rule
claim-mark r [] h = refl
claim-mark r (w ∷ ws) h = elim (Bool-cases (hits r w)) [
  | inl e ↦ ground arith
  | inr e ↦ let k = claim-mark r ws h in ground arith
]

claim_detached :
    (r : Rule) (ws : List Wanted)
    → (iif_detached r || oif_detached r) ≡ true
    → (claim r ws).1 ≡ false
unfolding claim exact_rule
claim_detached r [] h = refl
claim_detached r (w ∷ ws) h = let k = claim_detached r ws h in ground arith

claim_hit : (r : Rule) (ws : List Wanted) → (claim r ws).1 ≡ true → claim r ws ≡ mark r ws
claim_hit r ws h = elim (Bool-cases (iif_detached r || oif_detached r)) [
  | inl e ↦ absurd (let k = claim_detached r ws e in cc)
  | inr e ↦ claim-mark r ws e
]

-- A rule that is kept stands at a priority of an expected rule.
mark-expected_at :
    (a : Rule) (ws : List Wanted) → (mark a ws).1 ≡ true → expected_at a.priority ws ≡ true
unfolding mark expected_at
mark-expected_at a [] h = absurd (cc)
mark-expected_at a (w ∷ ws) h = elim (Bool-cases (hits a w)) [
  | inl e ↦ ground arith
  | inr e ↦ let h' = rw e at h in let k = mark-expected_at a ws h' in ground arith
]

rules_ok-check_rules :
    (s : Spec) (c : Census) (rs : List Rule)
    → (check_rules s c rs).rules_ok ≡ true
    → c.rules_ok ≡ true
unfolding check_rules check_rule
rules_ok-check_rules s c [] h = h
rules_ok-check_rules s c (r ∷ rs) h =
    let k = rules_ok-check_rules s (check_rule s c r) rs h in ground arith

-- Where the Spec leaves nothing to a transaction, no rule is left.
left_from_none :
    (s : Spec) (f : Family) (rs : List Rule)
    → ((p : ℕ) → skipped s f p ≡ false)
    → left_from s f [] rs ≡ []
unfolding left_from
left_from_none s f [] h = refl
left_from_none s f (r ∷ rs) h =
    let k : left_add s f [] (moved s f r) ≡ [] =
      unfold left_add in rw (h (moved s f r).priority) refl in
    rw k (left_from_none s f rs h)

missing_none :
    (opt : DiffOptions) (p : ℕ) (ws : List Wanted)
    → all (λ w. w.matched) ws ≡ true
    → keep (missing opt p) ws ≡ []
unfolding missing
missing_none opt p [] h = refl
missing_none opt p (w ∷ ws) h = let k = missing_none opt p ws (ground arith) in ground arith

additions_none_missing :
    (opt : DiffOptions) (ps : List ℕ) (ws : List Wanted)
    → all (λ w. w.matched) ws ≡ true
    → additions opt ps ws ≡ []
unfolding additions
additions_none_missing opt [] ws h = refl
additions_none_missing opt (p ∷ ps) ws h =
    rw (missing_none opt p ws h) (additions_none_missing opt ps ws h)

-- A removal of a copy at a priority that the contract does not own.
abbrev pub IsStray : Spec → Action → Type 0
IsStray s a = (a.kind ≡ del) × (owned s a.priority ≡ false)

module _ (s : Spec) (f : Family) (unskipped : (p : ℕ) → skipped s f p ≡ false) where
  -- One rule that the status accepts: the repair marks the same entry and removes no owned rule.
  judge_in_step :
      (st : Scan) (c : Census) (r : Rule)
      → st.wanted ≡ c.found
      → All (IsStray s) st.removals
      → (check_rule s c r).rules_ok ≡ true
      → ((judge s f [] st r).wanted ≡ (check_rule s c r).found)
        × All (IsStray s) (judge s f [] st r).removals
  unfolding check_rule judge
  judge_in_step st c r e b h = elim (Bool-cases (owned s r.priority)) [
    | inr o ↦ rw o (elim (Bool-cases (leftover_copy s (rules s f) r)) [
      | inl l ↦ rw l (unfold remove in (e, All-append (IsStray s) st.removals _ b ((refl, o), tt)))
      | inr l ↦ rw l (e, b)
    ])
    | inl o ↦
        let hit : (claim r c.found).1 ≡ true = ground arith in
        let same_mark = claim_hit r c.found hit in
        let kept : (mark r st.wanted).1 ≡ true = rw e (ap (λ x. x.1) (sym same_mark) ∙ hit) in
        let here = mark-expected_at r st.wanted kept in
        rw (o, unskipped r.priority, here, kept) (rw e (ap (λ x. x.0) (sym same_mark)), b)
  ]

  scan_in_step :
      (st : Scan) (c : Census) (rs : List Rule)
      → st.wanted ≡ c.found
      → All (IsStray s) st.removals
      → (check_rules s c rs).rules_ok ≡ true
      → ((scan s f [] st rs).wanted ≡ (check_rules s c rs).found)
        × All (IsStray s) (scan s f [] st rs).removals
  unfolding check_rules scan
  scan_in_step st c [] e b h = (e, b)
  scan_in_step st c (r ∷ rs) e b h =
      let k = rules_ok-check_rules s (check_rule s c r) rs h in
      let (e', b') = judge_in_step st c r e b k in
      scan_in_step (judge s f [] st r) (check_rule s c r) rs e' b' h

  rules_status-IsStray :
      (rs : List Rule) (opt : DiffOptions)
      → rules_status s f rs ≡ true
      → All (IsStray s) (diff s f rs opt)
  unfolding rules_status diff
  rules_status-IsStray rs opt h =
      let c = check_rules s (record { found = unmatched (rules s f); rules_ok = true }) rs in
      let l : left_from s f [] rs ≡ [] = left_from_none s f rs unskipped in
      let (e, b) =
        scan_in_step (start (rules s f)) (record { found = unmatched (rules s f); rules_ok = true })
          rs refl tt (ground arith) in
      let full : all (λ w. w.matched) c.found ≡ true = ground arith in
      let adds =
        additions_none_missing opt (order_of s) (scan s f [] (start (rules s f)) rs).wanted
          (rw e full) in
      rw (l, adds) b

status_spec_unskipped :
    (s : Spec) (f : Family) (a : Option Addr) (p : ℕ) → skipped (status_spec s f a) f p ≡ false
unfolding skipped
status_spec_unskipped s f a p = ground arith

-- What the loop over the routes of the exit table finds, and the repair's own loop.
sift-check_routes :
    (i : ℕ) (mode : TunnelMode) (st : Sift) (c : RouteCensus) (rs : List Route)
    → (c.fallback ≡ true → st.fallback ≡ true)
    → (allowed mode ≡ true → c.tunnel_default ≡ true → st.found ≡ true)
    → ((check_routes i c rs).fallback ≡ true → (sift i mode st rs).fallback ≡ true)
      × (allowed mode ≡ true
          → (check_routes i c rs).tunnel_default ≡ true
          → (sift i mode st rs).found ≡ true)
unfolding check_routes sift
sift-check_routes i mode st c [] h k = (h, k)
sift-check_routes i mode st c (r ∷ rs) h k =
    sift-check_routes i mode (sift_step i mode st r) (check_route i c r) rs
      (unfold sift_step check_route in λ e. ground arith)
      (unfold sift_step check_route in λ m e. ground arith)

abbrev pub IsRemoval : RouteAction → Type 0
IsRemoval a = a.kind ≡ del_route

sift_step-IsRemoval :
    (i : ℕ) (mode : TunnelMode) (st : Sift) (r : Route)
    → All IsRemoval st.del
    → All IsRemoval (sift_step i mode st r).del
unfolding sift_step
sift_step-IsRemoval i mode st r h = elim (Bool-cases (is_fallback r && not st.fallback)) [
  | inl e ↦ rw e h
  | inr e ↦ rw e (elim (Bool-cases (is_tunnel_route r i && (allowed mode && not st.found))) [
    | inl e' ↦ rw e' h
    | inr e' ↦ rw e' (All-append IsRemoval st.del _ h (refl, tt))
  ])
]

sift-IsRemoval :
    (i : ℕ) (mode : TunnelMode) (st : Sift) (rs : List Route)
    → All IsRemoval st.del
    → All IsRemoval (sift i mode st rs).del
unfolding sift
sift-IsRemoval i mode st [] h = h
sift-IsRemoval i mode st (r ∷ rs) h =
    sift-IsRemoval i mode (sift_step i mode st r) rs (sift_step-IsRemoval i mode st r h)

-- A family that the status calls ready needs no rule: all that the comparison of the same rules
-- with the same Spec may still do is remove copies at priorities that the contract does not own.
pub family_status-diff :
    (s : Spec) (f : Family) (rs : List Rule) (routes : List Route) (opt : StatusOptions)
    (d : DiffOptions) (a : Action)
    → (family_status s f rs routes opt).0 ≡ true
    → Memᴰ a (diff (status_spec s f opt.tunnel_address) f rs d)
    → IsStray (status_spec s f opt.tunnel_address) a
unfolding family_status
family_status-diff s f rs routes opt d a h m =
    let s' = status_spec s f opt.tunnel_address in
    All-Mem (IsStray s')
      (rules_status-IsStray s' f (status_spec_unskipped s f opt.tunnel_address) rs d (ground arith))
      m

-- The exit table of a ready family needs no route: with an address on the tunnel and no leave for
-- its route to be missing, the repair of the same routes adds nothing, whether the tunnel route is
-- required or only allowed.
pub family_status-exit_table_actions :
    (s : Spec) (f : Family) (rs : List Rule) (routes : List Route) (opt : StatusOptions) (table : ℕ)
    (mode : TunnelMode) (a : RouteAction)
    → (family_status s f rs routes opt).0 ≡ true
    → is_some opt.tunnel_address ≡ true
    → opt.no_tunnel_route ≡ false
    → allowed mode ≡ true
    → Memᴰ a (exit_table_actions routes f table opt.exit_if_index mode)
    → IsRemoval a
unfolding family_status exit_table_actions
family_status-exit_table_actions s f rs routes opt table mode a h t n al m =
    let i = opt.exit_if_index in
    let (fb, td) =
      sift-check_routes i mode sift_start no_routes routes (λ e. absurd (cc))
        (λ q e. absurd (cc)) in
    let e1 : (sift i mode sift_start routes).fallback ≡ true = fb (ground arith) in
    let e2 : (sift i mode sift_start routes).found ≡ true = td al (ground arith) in
    let e3 : (required mode && (not true && not (i == 0))) ≡ false = ground arith in
    All-Mem IsRemoval (sift-IsRemoval i mode sift_start routes tt) (rw (e1, e2, e3) at m)
