-- ===== src/Policy/Points.antt =====
-- internal/policy/classes.go, `points`: the addresses of the packets on which states are judged, one
-- for each set that the rules, the routes and the classes cannot tell apart.
--
-- A set is the list of its elements in order. The tables of a state are those that its Spec asks
-- for, which every state of the package has. The order in which Go visits a map is not kept: it
-- only permutes the facts of a signature. A signature is the list of its facts.
use molebridge.Base.{
  ℕ, ◌+◌, ◌-◌, ◌^◌, Bool, true, false, not, ◌&&◌, ◌||◌, Option, none, some, List, [], ◌∷◌, ◌++◌,
  map, ◌==◌, ltb, any, keep, when, same, if◌then◌else◌,
}
use molebridge.Rtnl.Addr.{
  Family, v4, v6, is_v4, Addr, ip4, ip6, is4, Addr-discrete, Prefix, host_prefix, masked, covers,
  contains,
}
use molebridge.Rtnl.Rule.{Rule}
use molebridge.Rtnl.Route.{Route}
use molebridge.Contract.Config.{Config, is_native_sidecar, lan_for, overlay_for}
use molebridge.Contract.Plan.{interest}
use molebridge.Policy.Lookup.{State, is_loopback}
use molebridge.Policy.Classes.{has_addr, is_unspecified, in_prefix, protected_addrs, host_subnets}

abbrev pub flat {ℓ κ} : {A : Type ℓ} {B : Type κ} → (A → List B) → List A → List B
flat f [] = []
flat f (x ∷ xs) = f x ++ flat f xs

-- `Addr.Prev` and `Addr.Next`, where there is one.
abbrev prev_of : Addr → List Addr
prev_of (ip4 n) = when (ltb 0 n) (ip4 (n - 1))
prev_of (ip6 n) = when (ltb 0 n) (ip6 (n - 1))

abbrev next_of : Addr → List Addr
next_of (ip4 n) = when (ltb (n + 1) (2 ^ 32)) (ip4 (n + 1))
next_of (ip6 n) = when (ltb (n + 1) (2 ^ 128)) (ip6 (n + 1))

-- The address with the bits behind a length set, of one where they are clear.
abbrev last_of : ℕ → Addr → Addr
last_of bits (ip4 n) = ip4 (n + (2 ^ (32 - bits) - 1))
last_of bits (ip6 n) = ip6 (n + (2 ^ (128 - bits) - 1))

unfoldable pub boundary_points : Option Prefix → List Addr
unfolding masked
boundary_points none = []
boundary_points (some p) =
    let first = (masked p).addr in
    let last = last_of p.bits first in first ∷ last ∷ [] ++ prev_of first ++ next_of last

abbrev zero_addr : Family → Addr
zero_addr v4 = ip4 0
zero_addr v6 = ip6 0

-- 8.8.8.8 and 2001:4860:4860::8888.
abbrev other_addr : Family → Addr
other_addr v4 = ip4 134744072
other_addr v6 = ip6 42541956123769884636017138956568135816

-- `Addr.Less`
abbrev addr_less : Addr → Addr → Bool
addr_less (ip4 n) (ip4 m) = ltb n m
addr_less (ip4 n) (ip6 m) = true
addr_less (ip6 n) (ip4 m) = false
addr_less (ip6 n) (ip6 m) = ltb n m

unfoldable add_addr : Addr → List Addr → List Addr
unfolding Addr-discrete
add_addr a [] = a ∷ []
add_addr a (x ∷ xs) =
    let rest = x ∷ add_addr a xs in
    if same Addr-discrete a x then x ∷ xs else if addr_less a x then a ∷ x ∷ xs else rest

unfoldable addr_set : List Addr → List Addr
unfolding add_addr
addr_set [] = []
addr_set (a ∷ as') = add_addr a (addr_set as')

abbrev pub Sig : Type 0
Sig = Option (List Bool)

unfoldable Sig-discrete : Discrete Sig
Sig-discrete = hlevel

-- `pick`: the first element of each signature.
module _ {A : Type 0} (sig : A → Sig) where
  unfoldable pub pick_from : List Sig → List A → List A
  unfolding Sig-discrete
  pick_from seen [] = []
  pick_from seen (x ∷ xs) =
      let found = any (same Sig-discrete (sig x)) seen in
      when (not found) x ++ pick_from (if found then seen else sig x ∷ seen) xs

-- What all the states together hold, of one family.
pub record Held : Type 0 where
  pub rules : List Rule
  pub routes : List Route
  pub prot : List Addr
  pub locals : List Addr
  pub subnets : List Prefix
  pub lan : List Prefix

abbrev pub held : Family → List State → Held
held f ss = record {
  rules = flat (λ s. s.rules f) ss;
  routes = flat (λ s. flat (s.routes f) (interest s.spec)) ss;
  prot = flat (λ s. protected_addrs s f) ss;
  locals = flat (λ s. s.locals f) ss;
  subnets = flat (λ s. host_subnets s f) ss;
  lan = flat (λ s. lan_for s.spec.config f) ss;
}

-- The prefix is set, not of length zero, and holds the address.
abbrev narrows : Option Prefix → Addr → Bool
narrows none a = false
narrows (some p) a = not (p.bits == 0) && contains p a

abbrev loopback_prefix : Family → Prefix
loopback_prefix v4 = record { addr = ip4 2130706432; bits = 8 }
loopback_prefix v6 = record { addr = ip6 1; bits = 128 }

module _ (c : Config) (f : Family) (h : Held) where
  unfoldable prefixes : List (Option Prefix)
  prefixes =
      flat (λ r. r.src ∷ r.dst ∷ []) h.rules
      ++ flat (λ r. r.dst ∷ r.src ∷ []) h.routes
      ++ overlay_for c f ∷ map some h.subnets
      ++ map some h.lan
      ++ when (is_native_sidecar c) (some (loopback_prefix f))
      ++ map (λ a. some (host_prefix a)) h.prot
      ++ map (λ a. some (host_prefix a)) h.locals

  unfoldable pub candidates : List Addr
  unfolding prefixes addr_set boundary_points
  candidates = addr_set (
      zero_addr f
      ∷ other_addr f
      ∷ keep (λ a. if is4 a then is_v4 f else not (is_v4 f)) (flat boundary_points prefixes))

  unfoldable is_local : Addr → Bool
  unfolding has_addr is_loopback
  is_local a = has_addr h.locals a || is_loopback a

  unfoldable pub src_sig : Addr → Sig
  unfolding has_addr is_local covers
  src_sig a = some (
      map (λ r. narrows r.src a) h.rules
      ++ map (λ r. narrows r.src a) h.routes
      ++ is_unspecified a ∷ has_addr h.prot a ∷ is_local a ∷ [])

  -- The unspecified address is no destination, and stands for no other.
  unfoldable pub dst_sig : Addr → Sig
  unfolding is_local covers
  dst_sig a =
      if is_unspecified a
      then none
      else some (
          map (λ r. narrows r.dst a) h.rules
          ++ map (λ r. in_prefix r.dst a) h.routes
          ++ is_local a ∷ in_prefix (overlay_for c f) a ∷ map (λ p. contains p a) h.subnets
          ++ map (λ p. contains p a) h.lan)
