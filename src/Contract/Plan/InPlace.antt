-- ===== src/Contract/Plan/InPlace.antt =====
-- internal/contract/plan.go over diff.go and routes.go: what a plan with nothing to do says of the
-- look that it was made on.
use molebridge.Base.{ℕ, true, false, ◌≡◌, refl, Option, List, [], ◌∷◌, Text, arith}
use molebridge.Rtnl.Addr.{Family, Prefix}
use molebridge.Rtnl.Items.{Item}
use molebridge.Rtnl.Route.{Snapshot, link, routes_in_table}
use molebridge.Contract.Spec.{Spec, rules}
use molebridge.Contract.Diff.Settled.{judged, tally, diff_nil-tally}
use molebridge.Contract.Routes.{exit_table_actions}
use molebridge.Contract.Plan.{
  PlanInput, no_items, clean, effective_spec, index_of, tunnel_mode, host_differs, plan_family,
}

no_items-nil {ℓ} : {A : Type ℓ} (xs : List A) → no_items xs ≡ true → xs ≡ []
no_items-nil [] h = refl
no_items-nil (x ∷ xs) h = cc

module _ (text : Option Prefix → Text) (s : Spec) (snap : Snapshot) (f : Family)
    (input : PlanInput) where
  -- The rules of the look that the contract judges are, with their numbers, the expected ones, the
  -- exit table needs no change, and the host table is what the main table's host routes are.
  pub record InPlace : Type 0 where
    pub as_expected :
        (p : ℕ) (x : List Item)
        → tally p x (judged (effective_spec s snap f) f (snap.rules f))
          ≡ tally p x (rules (effective_spec s snap f) f)
    pub exit_table :
        exit_table_actions
          (routes_in_table snap f s.config.table)
          f
          s.config.table
          (index_of (link snap s.config.exit_if))
          (tunnel_mode s snap f input)
        ≡ []
    pub host_table : host_differs text s snap f ≡ false

  pub clean-InPlace : clean (plan_family text s snap f input) ≡ true → InPlace
  unfolding clean plan_family
  clean-InPlace h =
      let same_host : host_differs text s snap f ≡ false = ground arith in
      record {
        as_expected = λ p x.
            diff_nil-tally (effective_spec s snap f) f (snap.rules f) _ same_host
              (no_items-nil _ (ground arith)) p x;
        exit_table = no_items-nil _ (ground arith);
        host_table = same_host;
      }
