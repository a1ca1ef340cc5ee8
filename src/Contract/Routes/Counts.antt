-- ===== src/Contract/Routes/Counts.antt =====
-- internal/contract/routes.go: what the loop over the exit table keeps and removes, in numbers.
use molebridge.Base.{
  ℕ, ◌+◌, ◌≤◌, Bool, true, false, not, ◌&&◌, ◌||◌, ◌≡◌, refl, ap, inl, inr, List, [], ◌∷◌, ◌++◌,
  ◌==◌, map, b2n, weight, weight-append, erase_all, if◌then◌else◌, arith, Bool-cases,
}
use molebridge.Rtnl.Addr.{Family}
use molebridge.Rtnl.Route.{Route, Route-discrete}
use molebridge.Contract.Routes.{
  TunnelMode, RouteAction, del_route, is_fallback, is_tunnel_route, allowed, required, Sift,
  sift_step, sift, sift_start, exit_table_actions,
}
use molebridge.Contract.Routes.Exact.{fallback_not_tunnel}

abbrev pub removed : List RouteAction → List Route
removed as' = map (λ a. a.route) as'

abbrev pub is_del : RouteAction → Bool
is_del a = elim a.kind [ del_route ↦ true | _ ↦ false ]

-- The routes that the actions install, and those that they remove.
unfoldable pub installs : List RouteAction → List Route
installs [] = []
installs (a ∷ as') = let rest = installs as' in if is_del a then rest else a.route ∷ rest

unfoldable pub removes : List RouteAction → List Route
removes [] = []
removes (a ∷ as') = let rest = removes as' in if is_del a then a.route ∷ rest else rest

-- The table after the actions: a removal takes one route equal to the one that it names.
unfoldable pub carry_out : List RouteAction → List Route → List Route
unfolding installs removes
carry_out as' rs = installs as' ++ erase_all Route-discrete (removes as') rs

pub removed-append : (xs ys : List RouteAction) → removed (xs ++ ys) ≡ removed xs ++ removed ys
removed-append [] ys = refl
removed-append (x ∷ xs) ys = ap (λ t. x.route ∷ t) (removed-append xs ys)

module _ (i : ℕ) (mode : TunnelMode) where
  unfoldable pub kept : Sift → Route → Bool
  kept st r =
      is_fallback r && not st.fallback || is_tunnel_route r i && (allowed mode && not st.found)

  abbrev pub is_tunnel : Route → Bool
  is_tunnel r = is_tunnel_route r i

  abbrev pub is_other : Route → Bool
  is_other r = not (is_fallback r) && not (is_tunnel_route r i)

  abbrev pub gone : (Route → Bool) → Sift → ℕ
  gone w st = weight w (removed st.del)

  -- A round removes the route, or keeps it.
  pub gone-step :
      (w : Route → Bool) (st : Sift) (r : Route)
      → gone w (sift_step i mode st r) + b2n (kept st r && w r) ≡ gone w st + b2n (w r)
  unfolding sift_step kept
  gone-step w st r =
      let del : RouteAction = record { kind = del_route; route = r } in
      let e : weight w (removed (st.del ++ del ∷ [])) ≡ gone w st + b2n (w r) =
        rw (removed-append st.del (del ∷ []), weight-append w (removed st.del) (r ∷ []))
          (omega arith) in
      ground (arith, e)

  pub gone-le :
      (w : Route → Bool) (st : Sift) (rs : List Route)
      → gone w (sift i mode st rs) ≤ gone w st + weight w rs
  unfolding sift
  gone-le w st [] = omega arith
  gone-le w st (r ∷ rs) = omega (arith, gone-step w st r, gone-le w (sift_step i mode st r) rs)

  pub fallback-step :
      (st : Sift) (r : Route)
      → gone is_fallback (sift_step i mode st r) + b2n (sift_step i mode st r).fallback
        ≡ gone is_fallback st + b2n st.fallback + b2n (is_fallback r)
  unfolding sift_step kept
  fallback-step st r = ground (arith, gone-step is_fallback st r, fallback_not_tunnel r i)

  pub tunnel-step :
      (st : Sift) (r : Route)
      → gone is_tunnel (sift_step i mode st r) + b2n (sift_step i mode st r).found
        ≡ gone is_tunnel st + b2n st.found + b2n (is_tunnel r)
  unfolding sift_step kept
  tunnel-step st r = ground (arith, gone-step is_tunnel st r, fallback_not_tunnel r i)

  pub other-step :
      (st : Sift) (r : Route)
      → gone is_other (sift_step i mode st r) ≡ gone is_other st + b2n (is_other r)
  unfolding kept
  other-step st r = ground (arith, gone-step is_other st r)

  -- The counts of the routes that the loop removes and keeps, of each kind.
  pub record Counts (st : Sift) (rs : List Route) (end : Sift) : Type 0 where
    pub fallbacks :
        gone is_fallback end + b2n end.fallback
        ≡ gone is_fallback st + b2n st.fallback + weight is_fallback rs
    pub tunnels :
        gone is_tunnel end + b2n end.found ≡ gone is_tunnel st + b2n st.found + weight is_tunnel rs
    pub others : gone is_other end ≡ gone is_other st + weight is_other rs

  pub sift-Counts : (st : Sift) (rs : List Route) → Counts st rs (sift i mode st rs)
  unfolding sift
  sift-Counts st [] = record {
    fallbacks = omega arith;
    tunnels = omega arith;
    others = omega arith;
  }
  sift-Counts st (r ∷ rs) =
      let c = sift-Counts (sift_step i mode st r) rs in
      record {
        fallbacks = omega (arith, c.fallbacks, fallback-step st r);
        tunnels = omega (arith, c.tunnels, tunnel-step st r);
        others = omega (arith, c.others, other-step st r);
      }

  -- A fallback that is read is kept, unless one was kept before.
  pub unseen_fallback :
      (st : Sift) (rs : List Route)
      → (sift i mode st rs).fallback ≡ false
      → (st.fallback ≡ false) × (weight is_fallback rs ≡ 0)
  unfolding sift
  unseen_fallback st [] h = (h, refl)
  unseen_fallback st (r ∷ rs) h =
      let ih = unseen_fallback (sift_step i mode st r) rs h in
      unfold sift_step in ground (arith, ih)

  -- So is a tunnel route, in the modes that allow one.
  pub unseen_tunnel :
      (st : Sift) (rs : List Route)
      → allowed mode ≡ true
      → (sift i mode st rs).found ≡ false
      → (st.found ≡ false) × (weight is_tunnel rs ≡ 0)
  unfolding sift
  unseen_tunnel st [] a h = (h, refl)
  unseen_tunnel st (r ∷ rs) a h =
      let ih = unseen_tunnel (sift_step i mode st r) rs a h in
      unfold sift_step in ground (arith, ih, fallback_not_tunnel r i)

  pub not_allowed :
      (st : Sift) (rs : List Route) → allowed mode ≡ false → (sift i mode st rs).found ≡ st.found
  unfolding sift
  not_allowed st [] a = refl
  not_allowed st (r ∷ rs) a =
      let ih = not_allowed (sift_step i mode st r) rs a in unfold sift_step in ground (arith, ih)

  pub nothing_gone :
      (ds : List RouteAction)
      → weight is_fallback (removed ds) ≡ 0
      → weight is_tunnel (removed ds) ≡ 0
      → weight is_other (removed ds) ≡ 0
      → ds ≡ []
  nothing_gone [] a b c = refl
  nothing_gone (d ∷ ds) a b c = absurd (ground arith)

  pub sees_fallback :
      (rs : List Route) → weight is_fallback rs ≡ 1 → (sift i mode sift_start rs).fallback ≡ true
  sees_fallback rs a = elim (Bool-cases (sift i mode sift_start rs).fallback) [
    | inl e ↦ e
    | inr e ↦ absurd (omega (arith, (unseen_fallback sift_start rs e).1))
  ]

  pub sees_tunnel :
      (rs : List Route)
      → b2n (required mode && not (i == 0)) ≤ weight is_tunnel rs
      → (required mode && (not (sift i mode sift_start rs).found && not (i == 0))) ≡ false
  sees_tunnel rs c = elim (Bool-cases (sift i mode sift_start rs).found) [
    | inl e ↦ rw e (ground arith)
    | inr e ↦
        rw e (ground (arith, λ (p : allowed mode ≡ true). (unseen_tunnel sift_start rs p e).1))
  ]

  pub tunnels_stay :
      (rs : List Route)
      → weight is_tunnel rs ≤ b2n (allowed mode)
      → gone is_tunnel (sift i mode sift_start rs) ≡ 0
  tunnels_stay rs b = elim (Bool-cases (sift i mode sift_start rs).found) [
    | inl e ↦ ground (arith, (sift-Counts sift_start rs).tunnels)
    | inr e ↦ ground (
      arith,
      (sift-Counts sift_start rs).tunnels,
      λ (p : allowed mode ≡ true). (unseen_tunnel sift_start rs p e).1,
    )
  ]

  -- A table with one fallback, at most one tunnel route (one where the mode requires it) and
  -- nothing else needs no action.
  pub clean_table :
      (f : Family) (table : ℕ) (rs : List Route)
      → weight is_fallback rs ≡ 1
      → weight is_tunnel rs ≤ b2n (allowed mode)
      → b2n (required mode && not (i == 0)) ≤ weight is_tunnel rs
      → weight is_other rs ≡ 0
      → exit_table_actions rs f table i mode ≡ []
  unfolding exit_table_actions
  clean_table f table rs a b c d =
      let k = sift-Counts sift_start rs in
      let fb = sees_fallback rs a in
      let tn = sees_tunnel rs c in
      let none_left =
        nothing_gone (sift i mode sift_start rs).del (ground (arith, k.fallbacks))
          (tunnels_stay rs b) (omega (arith, k.others)) in
      rw (fb, tn, none_left) refl
