-- ===== src/Policy/Closed.antt =====
-- internal/policy/policy.go over internal/contract: packets from the overlay under a settled
-- contract.
use mathlib.Core.List.{Memᴰ}
use molebridge.Base.{
  ℕ, Bool, true, false, not, ◌&&◌, ◌≡◌, refl, sym, subst, ◌⊎◌, inl, inr, List, [], ◌∷◌, ◌++◌, ◌==◌,
  leb, keep, when, All, All-keep, Memᴰ-append_left, Memᴰ-append_right, Memᴰ-keep, Bool-cases, arith,
}
use molebridge.Rtnl.Addr.{Family}
use molebridge.Rtnl.Rule.{Rule, fr_act_unreachable, table_local, invert, extra_flags}
use molebridge.Rtnl.Route.{Route}
use molebridge.Contract.Config.{is_gluetun_sidecar, is_native_sidecar, is_sidecar, overlay_for}
use molebridge.Contract.Spec.{
  Spec, skipped, rules, all_rules, exit_rules, guard_rules, control_rules, sidecar_rules,
  overlay_rules, return_rules, insert_rule, sort_rules, reject, prio_ingress_reject,
}
use molebridge.Contract.Routes.{
  TunnelMode, is_fallback, is_tunnel_route, allowed, required, Sift, sift_step, sift, sift_start,
  exit_table_actions, del_route, add_fallback, add_tunnel, fallback_route, tunnel_route,
}
use molebridge.Policy.Packet.{Packet, matches, unsure}
use molebridge.Policy.FailClosed.{FromOverlay, Contained, rules-Contained, takes_all}
use molebridge.Policy.Lookup.{State}
use molebridge.Policy.Walk.{walk}
use molebridge.Policy.Outcomes.{IsClosed, IsExitRoute, IsEnd, walk_from-Closed}

Mem-insert_new : (r : Rule) (xs : List Rule) → Memᴰ r (insert_rule r xs)
unfolding insert_rule
Mem-insert_new r [] = Memᴰ.head refl
Mem-insert_new r (x ∷ xs) = elim (Bool-cases (leb r.priority x.priority)) [
  | inl e ↦ rw e (Memᴰ.head refl)
  | inr e ↦ rw e (Memᴰ.tail (Mem-insert_new r xs))
]

Mem-insert_old : (a r : Rule) (xs : List Rule) → Memᴰ a xs → Memᴰ a (insert_rule r xs)
unfolding insert_rule
Mem-insert_old a r [] m = elim m [ ]
Mem-insert_old a r (x ∷ xs) (Memᴰ.head q) = elim (Bool-cases (leb r.priority x.priority)) [
  | inl e ↦ rw e (Memᴰ.tail (Memᴰ.head q))
  | inr e ↦ rw e (Memᴰ.head q)
]
Mem-insert_old a r (x ∷ xs) (Memᴰ.tail m) = elim (Bool-cases (leb r.priority x.priority)) [
  | inl e ↦ rw e (Memᴰ.tail (Memᴰ.tail m))
  | inr e ↦ rw e (Memᴰ.tail (Mem-insert_old a r xs m))
]

Mem-sort_rules : (a : Rule) (xs : List Rule) → Memᴰ a xs → Memᴰ a (sort_rules xs)
unfolding sort_rules
Mem-sort_rules a [] m = elim m [ ]
Mem-sort_rules a (x ∷ xs) (Memᴰ.head e) =
    subst (λ z. Memᴰ z (insert_rule x (sort_rules xs))) (sym e) (Mem-insert_new x (sort_rules xs))
Mem-sort_rules a (x ∷ xs) (Memᴰ.tail m) = Mem-insert_old a x (sort_rules xs) (Mem-sort_rules a xs m)

-- The rules of the contract up to the one that rejects what comes from the overlay.
abbrev pub guards : Spec → Family → List Rule
guards s f = keep (λ r. leb r.priority prio_ingress_reject) (rules s f)

abbrev last_word : Spec → Family → Rule
last_word s f = record (reject prio_ingress_reject f) { iif_name = s.config.overlay_if }

exit_rules-last_word :
    (s : Spec) (f : Family)
    → is_native_sidecar s.config ≡ false
    → Memᴰ (last_word s f) (exit_rules s.config f)
unfolding exit_rules
exit_rules-last_word s f h = rw h (Memᴰ.tail (Memᴰ.tail (Memᴰ.head refl)))

all_rules-last_word :
    (s : Spec) (f : Family)
    → is_native_sidecar s.config ≡ false
    → Memᴰ (last_word s f) (all_rules s f)
unfolding all_rules
all_rules-last_word s f h = Memᴰ-append_right (guard_rules s f) (
    Memᴰ-append_right (control_rules s.config f) (
      Memᴰ-append_right (sidecar_rules s.config f) (
        Memᴰ-append_right (overlay_rules s.config f (overlay_for s.config f)) (
          Memᴰ-append_right (return_rules s.config f (s.return_path f))
            (Memᴰ-append_left _ (exit_rules-last_word s f h))))))

guards-last_word :
    (s : Spec) (f : Family) → is_sidecar s.config ≡ false → Memᴰ (last_word s f) (guards s f)
unfolding rules skipped
guards-last_word s f h =
    let g : is_gluetun_sidecar s.config ≡ false = ground arith in
    let n : is_native_sidecar s.config ≡ false = ground arith in
    let k : not (skipped s f prio_ingress_reject) ≡ true = ground arith in
    rw g (
      Memᴰ-keep _ _ refl (
        Mem-sort_rules (last_word s f) _
          (Memᴰ-keep _ (all_rules s f) k (all_rules-last_word s f n))))

last_word-IsEnd :
    (s : Spec) (f : Family) (p : Packet) → FromOverlay s.config p → IsEnd p (last_word s f)
unfolding matches invert unsure extra_flags
last_word-IsEnd s f p o = (
  rw (takes_all f prio_ingress_reject fr_act_unreachable 0 0 s.config.overlay_if p o.arrives) refl,
  refl,
)

-- What the loop over the exit table keeps.
IsKept : ℕ → Route → Type 0
IsKept i r = (is_fallback r ≡ true) ⊎ (is_tunnel_route r i ≡ true)

append_cons_ne {ℓ} : {A : Type ℓ} (xs : List A) (x : A) → ¬ (xs ++ x ∷ [] ≡ [])
append_cons_ne [] x h = absurd (cc)
append_cons_ne (y ∷ xs) x h = absurd (cc)

del_nil-sift :
    (i : ℕ) (mode : TunnelMode) (st : Sift) (rs : List Route)
    → (sift i mode st rs).del ≡ []
    → (st.del ≡ []) × All (IsKept i) rs
unfolding sift sift_step IsKept
del_nil-sift i mode st [] h = (h, tt)
del_nil-sift i mode st (r ∷ rs) h =
    let (a, b) = del_nil-sift i mode (sift_step i mode st r) rs h in
    elim (Bool-cases (is_fallback r && not st.fallback)) [
      | inl e ↦ let a' = rw e at a in (a', (inl (ground arith), b))
      | inr e ↦ elim (Bool-cases (is_tunnel_route r i && (allowed mode && not st.found))) [
        | inl e' ↦ let a' = rw (e, e') at a in (a', (inr (ground arith), b))
        | inr e' ↦
            let a' = rw (e, e') at a in
            absurd (append_cons_ne st.del (record { kind = del_route; route = r }) a')
      ]
    ]

when_nil {ℓ} :
    {A : Type ℓ} (b c : Bool) (x y : A) (zs : List A) → when b x ++ (when c y ++ zs) ≡ [] → zs ≡ []
when_nil false false x y zs h = h
when_nil true c x y zs h = absurd (cc)
when_nil false true x y zs h = absurd (cc)

IsKept-exit_table_actions :
    (rs : List Route) (f : Family) (t i : ℕ) (mode : TunnelMode)
    → exit_table_actions rs f t i mode ≡ []
    → All (IsKept i) rs
unfolding exit_table_actions
IsKept-exit_table_actions rs f t i mode h =
    let end = sift i mode sift_start rs in
    let gone =
      when_nil (not end.fallback) (required mode && (not end.found && not (i == 0)))
        (record { kind = add_fallback; route = fallback_route f t })
        (record { kind = add_tunnel; route = tunnel_route f t i }) end.del h in
    let (a, b) = del_nil-sift i mode sift_start rs gone in b

exit_routes :
    (t i : ℕ) (rs : List Route)
    → All (IsKept i) rs
    → All (λ r. (r.encap ≡ false) × (r.table ≡ t)) rs
    → All (IsExitRoute t i) rs
unfolding IsKept
exit_routes t i [] h k = tt
exit_routes t i (r ∷ rs) h k =
    (elim h.0 [ inl a ↦ inl a | inr b ↦ inr (b, k.0.0, k.0.1) ], exit_routes t i rs h.1 k.1)

-- The contract and the model of the kernel's lookup: if the rules of a family begin with those that
-- the contract expects up to the one that rejects what comes from the overlay, whatever rules come
-- after them, and the repair of the exit table finds nothing to do in a table that was read, is not
-- the local table and holds no encapsulating route, then wherever a packet that arrives on the
-- overlay interface can end, it is stopped or leaves through the tunnel interface by the exit table.
pub walk-IsClosed :
    (name : Rule → ℕ) (s : State) (p : Packet) (after : List Rule) (mode : TunnelMode)
    → FromOverlay s.spec.config p
    → s.rules p.family ≡ guards s.spec p.family ++ after
    → (s.spec.config.table == table_local) ≡ false
    → s.known s.spec.config.table ≡ true
    → All
        (λ r. (r.encap ≡ false) × (r.table ≡ s.spec.config.table))
        (s.routes p.family s.spec.config.table)
    → exit_table_actions
        (s.routes p.family s.spec.config.table)
        p.family
        s.spec.config.table
        s.exit_idx
        mode
      ≡ []
    → All (IsClosed s.spec.config.table s.exit_idx) (walk name s p)
unfolding walk
walk-IsClosed name s p after mode o rs l k plain done =
    let exits =
      exit_routes s.spec.config.table s.exit_idx (s.routes p.family s.spec.config.table)
        (IsKept-exit_table_actions (s.routes p.family s.spec.config.table) p.family
          s.spec.config.table s.exit_idx mode done)
        plain in
    rw rs (
      walk_from-Closed name s p (record { not_local = l; read = k; only_exits = exits })
        (guards s.spec p.family) after (last_word s.spec p.family)
        (All-keep (Contained s.spec.config p) _ (rules s.spec p.family)
          (rules-Contained s.spec p.family p o))
        (guards-last_word s.spec p.family o.overlay_node) (last_word-IsEnd s.spec p.family p o))
