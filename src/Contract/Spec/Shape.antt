-- ===== src/Contract/Spec/Shape.antt =====
-- internal/contract/spec.go: at which priorities the expected rules stand.
use molebridge.Base.{
  ℕ, true, false, not, ◌≡◌, inl, inr, Option, none, some, List, [], ◌∷◌, leb, All, All-append,
  All-keep, keep-All, All-map_prop, Bool-cases, arith,
}
use molebridge.Rtnl.Addr.{Family, Addr, Prefix}
use molebridge.Rtnl.Rule.{Rule}
use molebridge.Contract.Config.{Config, is_native_sidecar, is_gluetun_sidecar, lan_for, overlay_for}
use molebridge.Contract.Spec.{
  Spec, owned, skipped, return_path_pair, guard_rules, control_rules, lan_rules, sidecar_rules,
  overlay_rules, return_rules, exit_rules, kill_rules, all_rules, tunnel_rule, insert_rule,
  sort_rules, rules,
}

module _ {κ} (P : Rule → Type κ) where
  All-insert_rule : (r : Rule) (xs : List Rule) → P r → All P xs → All P (insert_rule r xs)
  unfolding insert_rule
  All-insert_rule r [] p h = (p, tt)
  All-insert_rule r (x ∷ xs) p h = elim (Bool-cases (leb r.priority x.priority)) [
    | inl e ↦ rw e (p, h)
    | inr e ↦ rw e (h.0, All-insert_rule r xs p h.1)
  ]

  pub All-sort_rules : (xs : List Rule) → All P xs → All P (sort_rules xs)
  unfolding sort_rules
  All-sort_rules [] h = tt
  All-sort_rules (x ∷ xs) h = All-insert_rule x (sort_rules xs) h.0 (All-sort_rules xs h.1)

  -- What holds of the rules that the source adds holds of the rules that it returns.
  pub All-rules : (s : Spec) (f : Family) → All P (all_rules s f) → All P (rules s f)
  unfolding rules
  All-rules s f h = elim (Bool-cases (is_gluetun_sidecar s.config)) [
    | inl e ↦ rw e tt
    | inr e ↦ rw e (All-sort_rules _ (All-keep P _ (all_rules s f) h))
  ]

  -- To show a property of every rule that the source adds, show it of each group.
  pub all_rules-All :
      (s : Spec) (f : Family)
      → All P (guard_rules s f)
      → All P (control_rules s.config f)
      → All P (sidecar_rules s.config f)
      → All P (overlay_rules s.config f (overlay_for s.config f))
      → All P (return_rules s.config f (s.return_path f))
      → All P (exit_rules s.config f)
      → All P (kill_rules s.config f)
      → All P (all_rules s f)
  unfolding all_rules
  all_rules-All s f a b c d e g k =
      let app = All-append P in
      app (guard_rules s f) _ a (
        app (control_rules s.config f) _ b (
          app (sidecar_rules s.config f) _ c (
            app (overlay_rules s.config f (overlay_for s.config f)) _ d (
              app (return_rules s.config f (s.return_path f)) _ e
                (app (exit_rules s.config f) (kill_rules s.config f) g k)))))

  lan_rules-All :
      (f : Family) (ps : List Prefix)
      → ((p : Prefix) → All P (lan_rules f (p ∷ [])))
      → All P (lan_rules f ps)
  unfolding lan_rules
  lan_rules-All f [] h = tt
  lan_rules-All f (p ∷ ps) h = ((h p).0, lan_rules-All f ps h)

  sidecar_rules-All :
      (c : Config) (f : Family)
      → (is_native_sidecar c ≡ true → (p : Prefix) → All P (lan_rules f (p ∷ [])))
      → (is_native_sidecar c ≡ true → All P (tunnel_rule c f ∷ []))
      → All P (sidecar_rules c f)
  unfolding sidecar_rules
  sidecar_rules-All c f h k = elim (Bool-cases (is_native_sidecar c)) [
    | inl e ↦
        rw e
          (All-append P (lan_rules f (lan_for c f)) _ (lan_rules-All f (lan_for c f) (h e)) (k e))
    | inr e ↦ rw e tt
  ]

  return_rules-All :
      (c : Config) (f : Family) (as' : List Addr)
      → ((a : Addr) → All P (return_path_pair c f a))
      → All P (return_rules c f as')
  unfolding return_rules
  return_rules-All c f [] h = tt
  return_rules-All c f (a ∷ as') h =
      All-append P (return_path_pair c f a) (return_rules c f as') (h a)
        (return_rules-All c f as' h)

  overlay_rules-All :
      (c : Config) (f : Family) (o : Option Prefix)
      → ((p : Prefix) → All P (overlay_rules c f (some p)))
      → All P (overlay_rules c f o)
  unfolding overlay_rules
  overlay_rules-All c f none h = tt
  overlay_rules-All c f (some p) h = h p

-- A property that each group has in every configuration, and so the whole set.
module _ (P : Rule → Type 0) (s : Spec) (f : Family) where
  pub by_groups :
      All P (guard_rules s f)
      → All P (control_rules s.config f)
      → (is_native_sidecar s.config ≡ true → (p : Prefix) → All P (lan_rules f (p ∷ [])))
      → (is_native_sidecar s.config ≡ true → All P (tunnel_rule s.config f ∷ []))
      → ((p : Prefix) → All P (overlay_rules s.config f (some p)))
      → ((a : Addr) → All P (return_path_pair s.config f a))
      → All P (exit_rules s.config f)
      → All P (kill_rules s.config f)
      → All P (all_rules s f)
  by_groups a b c d e g k l =
      all_rules-All P s f a b (sidecar_rules-All P s.config f c d)
        (overlay_rules-All P s.config f (overlay_for s.config f) e)
        (return_rules-All P s.config f (s.return_path f) g) k l

abbrev IsOwned : Spec → Rule → Type 0
IsOwned s r = owned s r.priority ≡ true

-- Every rule that the contract expects stands at a priority that it owns.
pub rules-IsOwned : (s : Spec) (f : Family) → All (λ r. owned s r.priority ≡ true) (rules s f)
rules-IsOwned s f = All-rules (IsOwned s) s f (
    by_groups (IsOwned s) s f (unfold guard_rules owned in ground arith)
      (unfold control_rules owned in ground arith) (λ e p. unfold lan_rules owned in ground arith)
      (λ e. unfold owned in ground arith) (λ p. unfold overlay_rules owned in ground arith)
      (λ a. unfold return_path_pair owned in ground arith) (unfold exit_rules owned in ground arith)
      (unfold kill_rules owned in ground arith))

-- No expected rule stands at a priority that the Spec leaves to a transaction.
pub rules_unskipped :
    (s : Spec) (f : Family) → All (λ r. skipped s f r.priority ≡ false) (rules s f)
unfolding rules
rules_unskipped s f = elim (Bool-cases (is_gluetun_sidecar s.config)) [
  | inl e ↦ rw e tt
  | inr e ↦ rw e (
      All-sort_rules (λ r. skipped s f r.priority ≡ false) _
        (All-map_prop _ (λ r. skipped s f r.priority ≡ false) (λ r h. ground arith) _
          (keep-All (λ r. not (skipped s f r.priority)) (all_rules s f))))
]

-- The priorities that are left to a transaction are owned.
pub skipped-IsOwned : (s : Spec) (f : Family) (p : ℕ) → skipped s f p ≡ true → owned s p ≡ true
unfolding skipped owned
skipped-IsOwned s f p h = ground arith
