-- ===== src/Contract/Host/Refill.antt =====
-- internal/contract/routes.go: the copies of host routes that a refill installs.
use molebridge.Base.{
  ℕ, Bool, true, false, not, ◌&&◌, ◌≡◌, ◌≢◌, refl, inl, inr, Option, none, some, List, [], ◌∷◌, map,
  ◌==◌, is_some, same_refl, length, Text, All, Bool-cases, arith,
}
use molebridge.Rtnl.Addr.{Family, Addr, ip4, ip6, Prefix}
use molebridge.Rtnl.Route.{Route, is_default, unconditional, on_link}
use molebridge.Contract.Host.{
  HostRoute, HostRoute-discrete, is_copied, host_route_of, host_copy, host_less, insert_host,
  host_routes, same_routes, host_table_matches, no_bits, text_less, addr_less,
}

-- A gateway is only that of a default route, as HostRoutes takes it.
abbrev pub IsHostRoute : HostRoute → Type 0
IsHostRoute h = (is_some h.via && not (no_bits h.dst)) ≡ false

host_copy-is_copied :
    (h : HostRoute) (f : Family) (t i : ℕ)
    → i ≢ 0
    → IsHostRoute h
    → is_copied i (host_copy h f t i) ≡ true
unfolding is_copied host_copy unconditional is_default
host_copy-is_copied h f t i n d = ground arith

host_route_of-host_copy :
    (h : HostRoute) (f : Family) (t i : ℕ) → host_route_of (host_copy h f t i) ≡ h
unfolding host_route_of host_copy on_link
host_route_of-host_copy h f t i = elim (Bool-cases h.on_link) [
  | inl e ↦ ground arith
  | inr e ↦ ground arith
]

text_less_asym : (s t : Text) → text_less s t ≡ true → text_less t s ≡ false
text_less_asym [] [] h = refl
text_less_asym [] (d ∷ ds) h = refl
text_less_asym (c ∷ cs) [] h = absurd (cc)
text_less_asym (c ∷ cs) (d ∷ ds) h = elim (Bool-cases (c == d)) [
  | inl e ↦ let k = text_less_asym cs ds (ground arith) in ground arith
  | inr e ↦ ground arith
]

addr_less_asym : (a b : Option Addr) → addr_less a b ≡ true → addr_less b a ≡ false
addr_less_asym none none h = refl
addr_less_asym none (some (ip4 m)) h = refl
addr_less_asym none (some (ip6 m)) h = refl
addr_less_asym (some a) none h = absurd (cc)
addr_less_asym (some (ip4 n)) (some (ip4 m)) h = ground arith
addr_less_asym (some (ip4 n)) (some (ip6 m)) h = refl
addr_less_asym (some (ip6 n)) (some (ip4 m)) h = absurd (cc)
addr_less_asym (some (ip6 n)) (some (ip6 m)) h = ground arith

insert-IsHostRoute :
    (text : Option Prefix → Text) (h : HostRoute) (hs : List HostRoute)
    → IsHostRoute h
    → All IsHostRoute hs
    → All IsHostRoute (insert_host text h hs)
unfolding insert_host
insert-IsHostRoute text h [] p k = (p, tt)
insert-IsHostRoute text h (x ∷ xs) p k = elim (Bool-cases (host_less text x h)) [
  | inl e ↦ rw e (k.0, insert-IsHostRoute text h xs p k.1)
  | inr e ↦ rw e (p, k)
]

copied-IsHostRoute : (i : ℕ) (r : Route) → is_copied i r ≡ true → IsHostRoute (host_route_of r)
unfolding is_copied host_route_of is_default
copied-IsHostRoute i r h = ground arith

host_routes-IsHostRoute :
    (text : Option Prefix → Text) (rs : List Route) (i : ℕ) (check : Bool)
    → All IsHostRoute (host_routes text rs i check).0
unfolding host_routes
host_routes-IsHostRoute text [] i check = tt
host_routes-IsHostRoute text (r ∷ rs) i check = elim (Bool-cases (is_copied i r)) [
  | inl e ↦ rw e (
      insert-IsHostRoute text (host_route_of r) _ (copied-IsHostRoute i r e)
        (host_routes-IsHostRoute text rs i check))
  | inr e ↦ rw e (host_routes-IsHostRoute text rs i check)
]

module _ (text : Option Prefix → Text) where
  host_less_asym : (a b : HostRoute) → host_less text a b ≡ true → host_less text b a ≡ false
  unfolding host_less
  host_less_asym a b h =
      let x = text_less_asym (text a.dst) (text b.dst) in
      let y = addr_less_asym a.via b.via in let z = addr_less_asym a.src b.src in ground arith

  -- No route is less than the one before it.
  IsSorted : List HostRoute → Type 0
  IsSorted [] = Unit
  IsSorted (x ∷ []) = Unit
  IsSorted (x ∷ y ∷ ys) = (host_less text y x ≡ false) × IsSorted (y ∷ ys)

  insert-IsSorted :
      (h : HostRoute) (xs : List HostRoute) → IsSorted xs → IsSorted (insert_host text h xs)
  unfolding insert_host IsSorted
  insert-IsSorted h [] k = tt
  insert-IsSorted h (x ∷ []) k = elim (Bool-cases (host_less text x h)) [
    | inl e ↦ rw e (host_less_asym x h e, tt)
    | inr e ↦ rw e (e, tt)
  ]
  insert-IsSorted h (x ∷ y ∷ ys) k = elim (Bool-cases (host_less text x h)) [
    | inr e ↦ rw e (e, k)
    | inl e ↦
        let rest = insert-IsSorted h (y ∷ ys) k.1 in
        elim (Bool-cases (host_less text y h)) [
          | inl e' ↦ let rest' = rw e' at rest in rw (e, e') (k.0, rest')
          | inr e' ↦ let rest' = rw e' at rest in rw (e, e') (host_less_asym x h e, rest')
        ]
  ]

  host_routes-IsSorted :
      (rs : List Route) (i : ℕ) (check : Bool) → IsSorted (host_routes text rs i check).0
  unfolding host_routes IsSorted
  host_routes-IsSorted [] i check = tt
  host_routes-IsSorted (r ∷ rs) i check = elim (Bool-cases (is_copied i r)) [
    | inl e ↦ rw e (insert-IsSorted (host_route_of r) _ (host_routes-IsSorted rs i check))
    | inr e ↦ rw e (host_routes-IsSorted rs i check)
  ]

  insert_first :
      (h : HostRoute) (hs : List HostRoute) → IsSorted (h ∷ hs) → insert_host text h hs ≡ h ∷ hs
  unfolding insert_host IsSorted
  insert_first h [] k = refl
  insert_first h (x ∷ xs) k = rw (k.0) refl

  tail-IsSorted : (h : HostRoute) (hs : List HostRoute) → IsSorted (h ∷ hs) → IsSorted hs
  unfolding IsSorted
  tail-IsSorted h [] k = tt
  tail-IsSorted h (x ∷ xs) k = k.1

  -- The copies of sorted host routes are read back as those routes.
  read_back :
      (f : Family) (t i : ℕ) (hs : List HostRoute)
      → i ≢ 0
      → All IsHostRoute hs
      → IsSorted hs
      → host_routes text (map (λ h. host_copy h f t i) hs) i true ≡ (hs, false)
  unfolding host_routes
  read_back f t i [] n a k = refl
  read_back f t i (h ∷ hs) n a k =
      rw
        (
          host_copy-is_copied h f t i n a.0,
          host_route_of-host_copy h f t i,
          read_back f t i hs n a.1 (tail-IsSorted h hs k),
          insert_first h hs k,
        )
        refl

same_routes_refl : (hs : List HostRoute) → same_routes hs hs ≡ true
unfolding same_routes
same_routes_refl [] = refl
same_routes_refl (h ∷ hs) = rw (same_refl HostRoute-discrete h) (same_routes_refl hs)

host_table_matches_refl : (hs : List HostRoute) → host_table_matches hs hs false ≡ true
unfolding host_table_matches
host_table_matches_refl hs =
    let k : (length hs == length hs) ≡ true = ground arith in rw k (same_routes_refl hs)

-- A refill settles the host table: a table of exactly the copies of the main table's host routes,
-- for a host interface that exists, matches what the main table asks for.
pub host_routes-host_copy :
    (text : Option Prefix → Text) (main : List Route) (f : Family) (t i : ℕ)
    → i ≢ 0
    → let want = (host_routes text main i false).0 in
      let found = host_routes text (map (λ h. host_copy h f t i) want) i true in
      host_table_matches want found.0 found.1 ≡ true
host_routes-host_copy text main f t i n =
    let want = (host_routes text main i false).0 in
    rw
      (read_back text f t i want n (host_routes-IsHostRoute text main i false)
        (host_routes-IsSorted text main i false))
      (host_table_matches_refl want)
