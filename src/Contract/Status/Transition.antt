-- ===== src/Contract/Status/Transition.antt =====
-- internal/contract/status.go: what a gluetun node holds while its tunnel is being replaced.
use mathlib.Core.List.{Memᴰ}
use molebridge.Base.{
  true, false, not, ◌≡◌, sym, ◌⊎◌, inl, inr, none, some, some_inj, List, [], ◌∷◌, ◌==◌, keep,
  Bool-cases, Option-cases, arith,
}
use molebridge.Rtnl.Addr.{Family, Addr}
use molebridge.Rtnl.Rule.{Rule}
use molebridge.Rtnl.Route.{Route}
use molebridge.Contract.Spec.{Spec, prio_return_path}
use molebridge.Contract.Diff.{DiffOptions, Action, diff}
use molebridge.Contract.Status.Ready.{IsStray, family_status-diff}
use molebridge.Contract.Status.{
  TransitionOptions, adjust, allowed_addrs, is_path_of, hit_of, paths_ok, contains_addr,
  status_spec, family_status, gluetun_transition_status,
}

hit_of-path :
    (s : Spec) (f : Family) (r : Rule) (as' : List Addr) (a : Addr)
    → hit_of s f r as' ≡ some a
    → (is_path_of s f r a ≡ true) × Memᴰ a as'
unfolding hit_of
hit_of-path s f r [] a h = cc
hit_of-path s f r (b ∷ as') a h = elim (Option-cases (hit_of s f r as')) [
  | inl e ↦ elim (Bool-cases (is_path_of s f r b)) [
    | inl p ↦
        let k = rw (e, hit_of, p) at h in
        let q : b ≡ a = some_inj b a k in (rw (← q) p, Memᴰ.head (sym q))
    | inr p ↦ let k = rw (e, hit_of, p) at h in cc
  ]
  | inr (c, e) ↦
      let k = rw (e, hit_of) at h in
      let q : c ≡ a = some_inj c a k in
      let (path, m) = hit_of-path s f r as' c e in (rw (← q) path, Memᴰ.tail (rw (← q) m))
]

-- No address is among those before it.
abbrev pub Apart : List Addr → List Addr → Type 0
Apart before [] = Unit
Apart before (a ∷ as') = (contains_addr before a ≡ false) × Apart (a ∷ before) as'

module _ (s : Spec) (f : Family) (allowed : List Addr) where
  -- Each rule is exactly that of its address, which is an allowed one.
  abbrev pub PathsOf : List Rule → List Addr → Type 0
  PathsOf [] [] = Unit
  PathsOf (r ∷ rs) (a ∷ as') = (is_path_of s f r a ≡ true) × Memᴰ a allowed × PathsOf rs as'
  PathsOf _ _ = ⊥

  paths_ok-PathsOf :
      (matched : List Addr) (rs : List Rule)
      → paths_ok s f allowed matched rs ≡ true
      → (as' : List Addr) × PathsOf rs as' × Apart matched as'
  unfolding paths_ok
  paths_ok-PathsOf matched [] h = ([], tt, tt)
  paths_ok-PathsOf matched (r ∷ rs) h = elim (Option-cases (hit_of s f r allowed)) [
    | inl e ↦ absurd (let k = rw (e, paths_ok) at h in cc)
    | inr (a, e) ↦ elim (Bool-cases (contains_addr matched a)) [
      | inl c ↦ absurd (let k = rw (e, paths_ok, c) at h in cc)
      | inr c ↦
          let (as', paths, apart) = paths_ok-PathsOf (a ∷ matched) rs (rw (e, paths_ok, c) at h) in
          let (path, m) = hit_of-path s f r allowed a e in (a ∷ as', (path, m, paths), (c, apart))
    ]
  ]

-- What a transition that is judged safe, of a family that is not ready, has.
pub record Switching (s : Spec) (f : Family) (rs : List Rule) (opt : TransitionOptions)
    : Type 0 where
  pub paths : List Addr
  pub exact :
      PathsOf s f
        (allowed_addrs opt.previous_address opt.tunnel_address)
        (keep (λ r. r.priority == prio_return_path) rs)
        paths
  pub once : Apart [] paths
  pub others :
      (d : DiffOptions) (a : Action)
      → Memᴰ a (diff (status_spec s f none) f (adjust opt.interface_present rs) d)
      → IsStray (status_spec s f none) a

-- A transition is judged safe only of a family that is ready, or whose return-path rules are each
-- exactly that of the previous or of the current address, each address at most once, while for the
-- other rules, without the marks of detachment that an absent tunnel explains, the comparison with
-- the Spec that has no return path asks for nothing but the removal of copies at priorities not
-- owned.
pub gluetun_transition_status_safe :
    (s : Spec) (f : Family) (rs : List Rule) (routes : List Route) (opt : TransitionOptions)
    → (gluetun_transition_status s f rs routes opt).0 ≡ true
    → ((gluetun_transition_status s f rs routes opt).1 ≡ true) ⊎ Switching s f rs opt
unfolding gluetun_transition_status
gluetun_transition_status_safe s f rs routes opt h =
    let allowed = allowed_addrs opt.previous_address opt.tunnel_address in
    let paths = keep (λ r. r.priority == prio_return_path) rs in
    elim (Bool-cases
      (family_status s f rs routes (record {
        tunnel_address = opt.tunnel_address;
        no_tunnel_route = not opt.interface_up;
        exit_if_index = opt.exit_if_index;
      })).0) [
        | inl e ↦ inl (ground arith)
        | inr e ↦
            let ok : paths_ok s f allowed [] paths ≡ true = ground arith in
            let (as', exact, once) = paths_ok-PathsOf s f allowed [] paths ok in
            inr (record {
              paths = as';
              exact = exact;
              once = once;
              others = λ d a m.
                  family_status-diff s f (adjust opt.interface_present rs) routes
                    (record {
                      tunnel_address = none;
                      no_tunnel_route = false;
                      exit_if_index = opt.exit_if_index;
                    })
                    d a (ground arith) m;
            })
      ]
