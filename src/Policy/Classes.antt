-- ===== src/Policy/Classes.antt =====
-- internal/policy/classes.go and the classes of policy.go: what is asked of a packet, and what one
-- state, or a change from one state to another, lets reach a forbidden place.
--
-- The points to judge are an argument of the loops here, and gathered in Gather. A violation keeps the packet and the outcome whose text the
-- source prints.
use molebridge.Base.{
  ℕ, Bool, true, false, not, ◌&&◌, ◌||◌, Option, none, some, List, [], ◌∷◌, ◌++◌, ◌==◌, Text, bytes,
  same, any, Text-discrete, if◌then◌else◌,
}
use molebridge.Rtnl.Addr.{Family, is_v4, Addr, ip4, ip6, Addr-discrete, Prefix, covers, contains}
use molebridge.Rtnl.Rule.{Rule, table_main}
use molebridge.Rtnl.Route.{Route}
use molebridge.Contract.Config.{
  is_gluetun, is_native_sidecar, tunnel_mark, lan_for, overlay_for, gluetun_mark,
}
use molebridge.Policy.Packet.{Packet, is_lo}
use molebridge.Policy.Lookup.{
  State, OutKind, stopped, local, via_dev, via_table, Outcome, Outcome-discrete, unknown_dev,
  is_loopback,
}
use molebridge.Policy.Walk.{walk}

-- The class of a packet: the outcomes that are safe for it.
pub record Class : Type 0 where
  pub name : Text
  pub any : Bool
  pub devs : List ℕ
  pub tables : List ℕ

abbrev pub allows_end : Class → ℕ → ℕ → OutKind → Bool
allows_end c table dev stopped = true
allows_end c table dev local = false
allows_end c table dev via_dev =
    any (λ d. d == dev && (not (d == 0) && not (d == unknown_dev))) c.devs
allows_end c table dev via_table = any (λ t. t == table) c.tables

unfoldable pub allows : Class → Outcome → Bool
allows c o = c.any || allows_end c o.table o.dev o.kind

-- Nothing is asked.
abbrev pub no_class : Class
no_class = record { name = []; any = true; devs = []; tables = [] }

abbrev asks : Text → List ℕ → List ℕ → Class
asks name devs tables = record { name = name; any = false; devs = devs; tables = tables }

unfoldable pub has_addr : List Addr → Addr → Bool
unfolding Addr-discrete
has_addr xs a = any (λ x. same Addr-discrete x a) xs

-- An unbound source is in no set of addresses.
abbrev pub has_source : List Addr → Option Addr → Bool
has_source xs none = false
has_source xs (some a) = has_addr xs a

abbrev pub is_unspecified : Addr → Bool
is_unspecified (ip4 n) = n == 0
is_unspecified (ip6 n) = n == 0

abbrev pub is_unbound : Option Addr → Bool
is_unbound none = true
is_unbound (some a) = is_unspecified a

abbrev pub in_prefix : Option Prefix → Addr → Bool
in_prefix none a = false
in_prefix (some q) a = contains q a

abbrev pub is_icmp : Packet → Bool
is_icmp p = if is_v4 p.family then p.proto == 1 else p.proto == 58

-- The live tunnel addresses, and those that the contract expects.
unfoldable pub protected_addrs : State → Family → List Addr
protected_addrs s f = s.live f ++ s.spec.return_path f

abbrev host_subnet : State → Route → List Prefix
host_subnet s rt = elim rt.dst [
  | none ↦ []
  | some q ↦ elim rt.oif [
    | none ↦ []
    | some i ↦
        if not (q.bits == 0) && (i == s.host_idx && not (s.host_idx == 0)) then q ∷ [] else []
  ]
]

unfoldable pub subnets_in : State → List Route → List Prefix
subnets_in s [] = []
subnets_in s (rt ∷ rts) = host_subnet s rt ++ subnets_in s rts

-- The host's own subnets; only gluetun's classes know them.
unfoldable pub host_subnets : State → Family → List Prefix
unfolding subnets_in
host_subnets s f =
    if is_gluetun s.spec.config
    then subnets_in s (s.routes f s.spec.config.host_table) ++ subnets_in s (s.routes f table_main)
    else []

-- What the namespace of a native sidecar sends.
unfoldable pub sidecar_class : State → Packet → Class
unfolding covers
sidecar_class s p =
    if p.mark == s.spec.config.control_mark
    then asks (bytes "control-marked traffic the exit sends") (s.host_idx ∷ s.exit_idx ∷ []) []
    else if p.mark == tunnel_mark s.spec.config
    then no_class
    else if any (λ q. contains q p.dst) (lan_for s.spec.config p.family)
    then no_class
    else asks (bytes "unmarked traffic the namespace sends") (s.exit_idx ∷ []) []

abbrev tunnel_icmp : State → Class
tunnel_icmp s = asks (bytes "ICMP the exit sends from a tunnel address") (s.exit_idx ∷ []) []

-- What the exit sends, with gluetun.
unfoldable pub gluetun_class : State → Packet → Bool → List Prefix → Class
unfolding covers
gluetun_class s p from_tunnel subnets =
    if p.mark == s.spec.config.control_mark
    then asks (bytes "control-marked traffic the exit sends") (s.host_idx ∷ []) []
    else if p.mark == gluetun_mark
    then no_class
    else if in_prefix (overlay_for s.spec.config p.family) p.dst
    then asks (bytes "traffic the exit sends to a client of " ++ s.spec.config.overlay_if)
        (s.overlay_idx ∷ []) []
    else if from_tunnel && is_icmp p
    then tunnel_icmp s
    else if any (λ q. contains q p.dst) subnets
    then no_class
    else if is_unbound p.src || from_tunnel
    then asks (bytes "unmarked traffic the exit sends") (s.exit_idx ∷ []) (gluetun_mark ∷ [])
    else no_class

unfoldable pub classify : State → Packet → List Addr → List Prefix → Class
unfolding Text-discrete is_lo is_loopback has_addr sidecar_class gluetun_class
classify s p prot subnets =
    if not (is_native_sidecar s.spec.config) && same Text-discrete p.iif s.spec.config.overlay_if
    then asks (bytes "traffic arriving on " ++ s.spec.config.overlay_if) (s.exit_idx ∷ []) []
    else if not (is_lo p.iif)
    then no_class
    else if has_addr (s.locals p.family) p.dst || is_loopback p.dst
    then no_class
    else if is_native_sidecar s.spec.config
    then sidecar_class s p
    else if is_gluetun s.spec.config
    then gluetun_class s p (has_source prot p.src) subnets
    else if has_source prot p.src && is_icmp p
    then tunnel_icmp s
    else no_class

unfoldable pub class_of : State → Packet → Class
unfolding classify protected_addrs host_subnets
class_of s p = classify s p (protected_addrs s p.family) (host_subnets s p.family)

-- `too_many_classes`: the rules define more classes of traffic than are judged.
pub data Violation : Type 0 where
  reaches : Text → Packet → Outcome → Violation
  too_many_classes : Violation

-- The first outcome that the class forbids.
unfoldable pub forbidden : Class → List Outcome → Option Outcome
unfolding allows
forbidden c [] = none
forbidden c (o ∷ os) = let rest = forbidden c os in if allows c o then rest else some o

abbrev pub report : Class → Packet → Option Outcome → List Violation → List Violation
report c p none rest = rest
report c p (some o) rest = reaches c.name p o ∷ rest

-- Whether the walk before the change could already end there.
unfoldable pub is_prior : List Outcome → Outcome → Bool
unfolding Outcome-discrete
is_prior prior o = any (λ x. same Outcome-discrete x o) prior

-- The forbidden outcomes that the walk before could not end in.
unfoldable pub gained : Class → Packet → List Outcome → List Outcome → List Violation
unfolding allows is_prior
gained c p prior [] = []
gained c p prior (o ∷ os) =
    let rest = gained c p prior os in
    if allows c o || is_prior prior o then rest else reaches c.name p o ∷ rest

module _ (name : Rule → ℕ) where
  unfoldable pub judge : State → List Packet → List Violation
  unfolding class_of forbidden walk
  judge s [] = []
  judge s (p ∷ ps) =
      let rest = judge s ps in
      if (class_of s p).any
      then rest
      else report (class_of s p) p (forbidden (class_of s p) (walk name s p)) rest

  -- What the change opens, at each point.
  unfoldable pub opened : State → State → List Packet → List Violation
  unfolding class_of walk gained
  opened before after [] = []
  opened before after (p ∷ ps) =
      let rest = opened before after ps in
      if (class_of after p).any
      then rest
      else gained (class_of after p) p (walk name before p) (walk name after p) ++ rest
