-- ===== src/Policy/FailClosed.antt =====
-- internal/policy/policy.go over internal/contract/spec.go: what the expected rules do with a packet
-- that arrives on the overlay interface.
use Prim.Native.Nat.{bit_xor}
use molebridge.Base.{
  ℕ, true, false, ◌||◌, ◌≡◌, refl, ◌⊎◌, inl, inr, some, [], ◌∷◌, same, same_refl, bit_and_zero, All,
  Bool-cases, Text, Text-discrete, arith,
}
use molebridge.Rtnl.Addr.{Family, Addr, Prefix}
use molebridge.Rtnl.Rule.{
  Rule, fr_act_unreachable, fr_act_to_tbl, invert, extra_flags, effective_mark, effective_mask,
  new_rule,
}
use molebridge.Contract.Config.{Config, is_sidecar, is_gluetun, is_native_sidecar}
use molebridge.Contract.Spec.{
  Spec, guard_rules, control_rules, overlay_rules, return_path_pair, exit_rules, kill_rules, rules,
  lo,
}
use molebridge.Contract.Spec.Shape.{by_groups, All-rules}
use molebridge.Policy.Packet.{
  Packet, never, matches, known, unsure, name_passes, src_passes, dst_passes, mark_passes, is_unset,
  ext,
}

-- A packet that the namespace receives on its overlay interface, in a configuration whose
-- interfaces have names of their own.
pub record FromOverlay (c : Config) (p : Packet) : Type 0 where
  pub overlay_node : is_sidecar c ≡ false
  pub overlay_named : is_unset c.overlay_if ≡ false
  pub exit_named : is_unset c.exit_if ≡ false
  pub not_exit : same Text-discrete c.exit_if c.overlay_if ≡ false
  pub not_lo : same Text-discrete lo c.overlay_if ≡ false
  pub arrives : p.iif ≡ c.overlay_if

name_misses :
    (sel name : Text)
    → is_unset sel ≡ false
    → same Text-discrete sel name ≡ false
    → name_passes sel name ≡ false
unfolding name_passes
name_misses [] name h k = absurd (cc)
name_misses (c ∷ cs) name h k = k

name_hits : (sel : Text) → name_passes sel sel ≡ true
unfolding name_passes
name_hits [] = refl
name_hits (c ∷ cs) = same_refl Text-discrete (c ∷ cs)

-- A rule whose interface another packet came in on does not take the packet.
misses :
    (r : Rule) (p : Packet)
    → name_passes r.iif_name p.iif ≡ false
    → invert r ≡ false
    → matches r p ≡ never
unfolding matches known
misses r p h k = ground arith

-- A rule with an interface and nothing else takes what comes in on the interface.
pub takes_all :
    (f : Family) (priority action table flags : ℕ) (name : Text) (p : Packet)
    → p.iif ≡ name
    → known
        (record (new_rule f priority action) { table = table; flags = flags; iif_name = name })
        p
      ≡ true
unfolding known name_passes src_passes dst_passes mark_passes effective_mark effective_mask ext
takes_all f priority action table flags name p e =
    rw (e, name_hits name, bit_and_zero (bit_xor 0 p.mark)) refl

-- The rule never takes the packet, rejects it, or looks it up in the exit table.
abbrev pub Contained : Config → Packet → Rule → Type 0
Contained c p r =
    (matches r p ≡ never)
    ⊎ ((r.action ≡ fr_act_unreachable) ⊎ ((r.action ≡ fr_act_to_tbl) × (r.table ≡ c.table)))

module _ (s : Spec) (f : Family) (p : Packet) (o : FromOverlay s.config p) where
  abbrev Here : Rule → Type 0
  Here = Contained s.config p

  -- A rule for the namespace's own packets.
  own_packets : (r : Rule) → r.iif_name ≡ lo → invert r ≡ false → Here r
  own_packets r e k =
      inl (misses r p (rw (e, o.arrives) (name_misses lo s.config.overlay_if refl o.not_lo)) k)

  from_exit : (r : Rule) → r.iif_name ≡ s.config.exit_if → invert r ≡ false → Here r
  from_exit r e k = inl (
      misses r p
        (rw (e, o.arrives)
          (name_misses s.config.exit_if s.config.overlay_if o.exit_named o.not_exit))
        k)

  -- The guard of local delivery is inverted: it takes what comes in elsewhere.
  guard_inverted :
      matches
        (record (new_rule f 1 fr_act_to_tbl) {
          table = 255;
          flags = 2;
          iif_name = s.config.overlay_if;
        })
        p
      ≡ never
  unfolding matches invert unsure extra_flags
  guard_inverted = rw (takes_all f 1 fr_act_to_tbl 255 2 s.config.overlay_if p o.arrives) refl

  guards : All Here (guard_rules s f)
  unfolding guard_rules
  guards = elim (Bool-cases (is_native_sidecar s.config)) [
    | inl e ↦ rw e tt
    | inr e ↦ rw e (
      inl guard_inverted,
      elim (Bool-cases (s.temp_guard f)) [ inl t ↦ rw t (inr (inl refl), tt) | inr t ↦ rw t tt ],
    )
  ]

  control : All Here (control_rules s.config f)
  unfolding control_rules invert
  control = elim (Bool-cases (is_gluetun s.config || is_native_sidecar s.config)) [
    | inl e ↦ rw e (own_packets _ refl refl, (inr (inl refl), tt))
    | inr e ↦ rw e tt
  ]

  overlay_paths : (q : Prefix) → All Here (overlay_rules s.config f (some q))
  unfolding overlay_rules invert
  overlay_paths q = elim (Bool-cases (is_gluetun s.config)) [
    | inl e ↦ rw e (from_exit _ refl refl, (own_packets _ refl refl, (inr (inl refl), tt)))
    | inr e ↦ rw e (from_exit _ refl refl, tt)
  ]

  pairs : (a : Addr) → All Here (return_path_pair s.config f a)
  unfolding return_path_pair
  pairs a = elim (Bool-cases (is_gluetun s.config)) [
    | inl e ↦ rw e (inr (inr (refl, refl)), tt)
    | inr e ↦ rw e (inr (inr (refl, refl)), (inr (inl refl), tt))
  ]

  exits : All Here (exit_rules s.config f)
  unfolding exit_rules
  exits = elim (Bool-cases (is_native_sidecar s.config)) [
    | inl e ↦ rw e (inr (inr (refl, refl)), (inr (inl refl), tt))
    | inr e ↦ rw e (inr (inr (refl, refl)), (inr (inr (refl, refl)), (inr (inl refl), tt)))
  ]

  kill : All Here (kill_rules s.config f)
  unfolding kill_rules invert
  kill = elim (Bool-cases (is_gluetun s.config)) [
    | inl e ↦ rw e (own_packets _ refl refl, (own_packets _ refl refl, (inr (inl refl), tt)))
    | inr e ↦ rw e tt
  ]

  -- Each rule that the contract expects of an overlay node never takes a packet that arrives on
  -- the overlay interface, rejects it, or looks it up in the exit table.
  pub rules-Contained : All (Contained s.config p) (rules s f)
  rules-Contained = All-rules Here s f (
      by_groups Here s f guards control (λ e q. absurd (let k = o.overlay_node in ground arith))
        (λ e. absurd (let k = o.overlay_node in ground arith)) overlay_paths pairs exits kill)
