-- ===== src/Contract/Routing/Guarded.antt =====
-- internal/contract/status.go: what a protected namespace has.
use molebridge.Base.{
  ℕ, true, false, not, ◌&&◌, ◌||◌, ◌≡◌, refl, inl, inr, Option, some, Option-cases, List, [], ◌∷◌,
  ◌==◌, keep, map, sym, ◌∙◌, arith, Bool-cases,
}
use molebridge.Rtnl.Addr.{Family, v4, v6, Addr}
use molebridge.Rtnl.Route.{IfAddr, Link, Snapshot, link, global, routes_in_table}
use molebridge.Contract.Spec.{Spec}
use molebridge.Contract.Routing.{
  Sole, no_addr, several, one_addr, sole_addr, opt_addr, RoutingOptions, routing_status, status_of,
  is_several,
}
use molebridge.Contract.Status.{only, family_status}

-- The global addresses of one interface.
abbrev pub globals_of : ℕ → List IfAddr → List IfAddr
globals_of i as' = keep (λ a. a.index == i && global a) as'

abbrev pub addrs_on : ℕ → List IfAddr → List Addr
addrs_on i as' = map (λ a. a.local.addr) (globals_of i as')

-- What the loop makes of a list of addresses.
abbrev classify : List Addr → Sole
classify [] = no_addr
classify (a ∷ []) = one_addr a
classify (a ∷ b ∷ as') = several

several_stays : (i : ℕ) (as' : List IfAddr) → sole_addr i as' several ≡ several
unfolding sole_addr
several_stays i [] = refl
several_stays i (a ∷ as') = elim (Bool-cases (not (a.index == i) || not (global a))) [
  | inl e ↦ rw e (several_stays i as')
  | inr e ↦ rw e (several_stays i as')
]

one_then :
    (i : ℕ) (as' : List IfAddr) (b : Addr)
    → sole_addr i as' (one_addr b) ≡ classify (b ∷ addrs_on i as')
unfolding sole_addr
one_then i [] b = refl
one_then i (a ∷ as') b = elim (Bool-cases (a.index == i && global a)) [
  | inl e ↦
      let k : (not (a.index == i) || not (global a)) ≡ false = ground arith in
      rw (e, k) (several_stays i as')
  | inr e ↦
      let k : (not (a.index == i) || not (global a)) ≡ true = ground arith in
      rw (e, k) (one_then i as' b)
]

sole_addr-classify :
    (i : ℕ) (as' : List IfAddr) → sole_addr i as' no_addr ≡ classify (addrs_on i as')
unfolding sole_addr
sole_addr-classify i [] = refl
sole_addr-classify i (a ∷ as') = elim (Bool-cases (a.index == i && global a)) [
  | inl e ↦
      let k : (not (a.index == i) || not (global a)) ≡ false = ground arith in
      rw (e, k) (one_then i as' a.local.addr)
  | inr e ↦
      let k : (not (a.index == i) || not (global a)) ≡ true = ground arith in
      rw (e, k) (sole_addr-classify i as')
]

only-classify :
    (as' : List Addr) → is_several (classify as') ≡ false → as' ≡ only (opt_addr (classify as'))
only-classify [] h = refl
only-classify (a ∷ []) h = refl
only-classify (a ∷ b ∷ as') h = absurd (cc)

-- The tunnel interface of a protected namespace, and its family's address.
pub record Guarded (s : Spec) (snap : Snapshot) (f : Family) : Type 0 where
  pub exit : Link
  pub address : Option Addr
  pub exit_found : link snap s.config.exit_if ≡ some exit
  pub sole : addrs_on exit.index (snap.addrs f) ≡ only address
  pub ready :
      (family_status s f (snap.rules f) (routes_in_table snap f s.config.table) (record {
        tunnel_address = address;
        no_tunnel_route = false;
        exit_if_index = exit.index;
      })).0
      ≡ true

guarded :
    (s : Spec) (snap : Snapshot) (f : Family) (l : Link) (a : Sole)
    → link snap s.config.exit_if ≡ some l
    → sole_addr l.index (snap.addrs f) no_addr ≡ a
    → is_several a ≡ false
    → (status_of s snap l a f).0 ≡ true
    → Guarded s snap f
guarded s snap f l a e d n h =
    let c = sym (sole_addr-classify l.index (snap.addrs f)) ∙ d in
    record {
      exit = l;
      address = opt_addr a;
      exit_found = e;
      sole = rw (← c) (only-classify (addrs_on l.index (snap.addrs f)) (rw c n));
      ready = h;
    }

-- A protected namespace has its tunnel interface with at most one global address of each family,
-- and each family is ready with exactly that address.
pub routing_status-Guarded :
    (s : Spec) (snap : Snapshot) (opt : RoutingOptions) (f : Family)
    → (routing_status s snap opt).0 ≡ true
    → Guarded s snap f
unfolding routing_status
routing_status-Guarded s snap opt f h = elim (Option-cases (link snap s.config.exit_if)) [
  | inl e ↦ absurd (let k = rw e at h in ground arith)
  | inr (l, e) ↦
      let k = rw e at h in
      elim f as (λ g. Guarded s snap g) [
        | v4 ↦ guarded s snap v4 l _ e refl (ground arith) (ground arith)
        | v6 ↦ guarded s snap v6 l _ e refl (ground arith) (ground arith)
      ]
]
