-- ===== src/Contract/Spec.antt =====
-- internal/contract/spec.go: the rules that the contract expects of each family.
--
-- `Clone` copies maps and slices; values here are never shared, so it is the identity.
pub mod Shape
use molebridge.Base.{
  ℕ, Bool, false, not, ◌&&◌, ◌||◌, Option, none, some, List, [], ◌∷◌, ◌++◌, ◌==◌, leb, same, any,
  keep, when, Text, bytes, if◌then◌else◌,
}
use molebridge.Rtnl.Addr.{
  Family, v4, v6, Family-discrete, Addr, Prefix, bit_len, is4, is_v4, host_prefix,
}
use molebridge.Rtnl.Rule.{
  Rule, new_rule, fr_act_to_tbl, fr_act_unreachable, fib_rule_invert, table_main, table_local,
}
use molebridge.Rtnl.Items.{items, equal_items}
use molebridge.Contract.Config.{
  Config, is_gluetun, is_native_sidecar, is_gluetun_sidecar, tunnel_mark, lan_for, overlay_for,
  gluetun_mark,
}

abbrev pub prio_local_guard : ℕ
prio_local_guard = 1

abbrev pub prio_temp_guard : ℕ
prio_temp_guard = 80

abbrev pub prio_mark_host : ℕ
prio_mark_host = 88

abbrev pub prio_mark_reject : ℕ
prio_mark_reject = 89

abbrev pub prio_from_tunnel : ℕ
prio_from_tunnel = 90

abbrev pub prio_overlay_main : ℕ
prio_overlay_main = 91

abbrev pub prio_overlay_reject : ℕ
prio_overlay_reject = 92

abbrev pub prio_tunnel_mark : ℕ
prio_tunnel_mark = 93

abbrev pub prio_return_path : ℕ
prio_return_path = 94

abbrev pub prio_ingress : ℕ
prio_ingress = 95

abbrev pub prio_egress : ℕ
prio_egress = 96

abbrev pub prio_ingress_reject : ℕ
prio_ingress_reject = 97

abbrev pub prio_backstop : ℕ
prio_backstop = 98

abbrev pub prio_gluetun_mark : ℕ
prio_gluetun_mark = 102

abbrev pub prio_host_subnets : ℕ
prio_host_subnets = 103

abbrev pub prio_kill_switch : ℕ
prio_kill_switch = 104

-- Go's maps by family are functions; a missing key gives the zero value in both.
pub record Spec : Type 0 where
  pub config : Config
  pub return_path : Family → List Addr
  pub leave_return_path : Family → Bool
  pub temp_guard : Family → Bool

-- `m[f] = v`
abbrev pub update {ℓ} : {A : Type ℓ} → (Family → A) → Family → A → Family → A
update m f v g = if same Family-discrete g f then v else m g

unfoldable pub owned : Spec → ℕ → Bool
owned s p =
    if is_native_sidecar s.config
    then leb 1 p && leb p prio_backstop
    else if is_gluetun s.config
    then leb p 97 || (leb prio_gluetun_mark p && leb p prio_kill_switch)
    else leb p prio_backstop

unfoldable pub skipped : Spec → Family → ℕ → Bool
skipped s f p =
    not (is_gluetun s.config)
    && (s.leave_return_path f && (p == prio_return_path || p == prio_backstop))

abbrev pub lo : Text
lo = bytes "lo"

abbrev pub icmp : Family → ℕ
icmp v6 = 58
icmp v4 = 1

abbrev pub lookup : ℕ → Family → ℕ → Rule
lookup p f t = record (new_rule f p fr_act_to_tbl) { table = t }

abbrev pub reject : ℕ → Family → Rule
reject p f = new_rule f p fr_act_unreachable

-- The source and protocol that a return-path rule selects.
abbrev pub icmp_from : Family → Addr → Rule → Rule
icmp_from f a r = record r { src = some (host_prefix a); ip_proto = some (icmp f) }

-- `exactMark`: the mark under the full mask, on packets of the namespace itself.
abbrev pub with_mark : ℕ → Rule → Rule
with_mark mark r = record r { iif_name = lo; fw_mark = some mark; fw_mask = some 0xffffffff }

unfoldable pub return_path_pair : Config → Family → Addr → List Rule
return_path_pair c f a =
    icmp_from f a (lookup prio_return_path f c.table)
    ∷ when (not (is_gluetun c)) (icmp_from f a (reject prio_backstop f))

same_shape : Rule → Rule → Bool
same_shape r e = e.priority == r.priority && equal_items (items r) (items e)

-- A full-length source of the rule's family.
host_source : Family → Prefix → Bool
host_source f p =
    p.bits == bit_len p.addr && not (not (is_v4 f) && is4 p.addr || is_v4 f && not (is4 p.addr))

unfoldable pub return_path_shaped : Spec → Family → Rule → Bool
unfolding same_shape host_source return_path_pair
return_path_shaped s f r = same Family-discrete r.family f && (elim r.src [
  | none ↦ false
  | some p ↦ host_source f p && any (same_shape r) (return_path_pair s.config f p.addr)
])

unfoldable pub guard_rules : Spec → Family → List Rule
guard_rules s f =
    if is_native_sidecar s.config
    then []
    else record (lookup prio_local_guard f table_local) {
      flags = fib_rule_invert;
      iif_name = s.config.overlay_if;
    }
      ∷ when (s.temp_guard f) (record (reject prio_temp_guard f) { iif_name = s.config.overlay_if })

unfoldable pub control_rules : Config → Family → List Rule
control_rules c f =
    if is_gluetun c || is_native_sidecar c
    then with_mark c.control_mark
        (lookup prio_mark_host f (if is_native_sidecar c then table_main else c.host_table))
      ∷ with_mark c.control_mark (reject prio_mark_reject f)
      ∷ []
    else []

unfoldable pub lan_rules : Family → List Prefix → List Rule
lan_rules f [] = []
lan_rules f (p ∷ ps) =
    record (lookup prio_from_tunnel f table_main) { iif_name = lo; dst = some p } ∷ lan_rules f ps

abbrev pub tunnel_rule : Config → Family → Rule
tunnel_rule c f = with_mark (tunnel_mark c) (lookup prio_tunnel_mark f table_main)

unfoldable pub sidecar_rules : Config → Family → List Rule
unfolding lan_rules
sidecar_rules c f =
    if is_native_sidecar c then lan_rules f (lan_for c f) ++ tunnel_rule c f ∷ [] else []

unfoldable pub overlay_rules : Config → Family → Option Prefix → List Rule
overlay_rules c f none = []
overlay_rules c f (some p) =
    record (lookup prio_from_tunnel f table_main) { iif_name = c.exit_if; dst = some p }
    ∷ (if is_gluetun c
        then record (lookup prio_overlay_main f table_main) {
          iif_name = lo;
          dst = some p;
          suppress_prefix_len = some 0;
        }
          ∷ record (reject prio_overlay_reject f) { iif_name = lo; dst = some p }
          ∷ []
        else [])

unfoldable pub return_rules : Config → Family → List Addr → List Rule
unfolding return_path_pair
return_rules c f [] = []
return_rules c f (a ∷ as') = return_path_pair c f a ++ return_rules c f as'

unfoldable pub exit_rules : Config → Family → List Rule
exit_rules c f =
    if is_native_sidecar c
    then record (lookup prio_egress f c.table) { iif_name = lo }
      ∷ record (reject prio_ingress_reject f) { iif_name = lo }
      ∷ []
    else record (lookup prio_ingress f c.table) { iif_name = c.overlay_if }
      ∷ record (lookup prio_egress f c.table) { oif_name = c.exit_if }
      ∷ record (reject prio_ingress_reject f) { iif_name = c.overlay_if }
      ∷ []

unfoldable pub kill_rules : Config → Family → List Rule
kill_rules c f =
    if is_gluetun c
    then with_mark gluetun_mark (lookup prio_gluetun_mark f table_main)
      ∷ record (lookup prio_host_subnets f c.host_table) {
        iif_name = lo;
        suppress_prefix_len = some 0;
      }
      ∷ record (reject prio_kill_switch f) { iif_name = lo }
      ∷ []
    else []

-- The rules in the order in which the source adds them, before the skipped ones are left out.
unfoldable pub all_rules : Spec → Family → List Rule
unfolding guard_rules control_rules sidecar_rules overlay_rules return_rules exit_rules kill_rules
all_rules s f =
    guard_rules s f
    ++ (control_rules s.config f
        ++ (sidecar_rules s.config f
            ++ (overlay_rules s.config f (overlay_for s.config f)
                ++ (return_rules s.config f (s.return_path f)
                    ++ (exit_rules s.config f ++ kill_rules s.config f)))))

-- `sort.SliceStable` by priority: a rule goes before the first one that is not before it.
unfoldable pub insert_rule : Rule → List Rule → List Rule
insert_rule r [] = r ∷ []
insert_rule r (x ∷ xs) =
    let rest = x ∷ insert_rule r xs in if leb r.priority x.priority then r ∷ x ∷ xs else rest

unfoldable pub sort_rules : List Rule → List Rule
unfolding insert_rule
sort_rules [] = []
sort_rules (x ∷ xs) = insert_rule x (sort_rules xs)

unfoldable pub rules : Spec → Family → List Rule
unfolding all_rules sort_rules skipped
rules s f =
    if is_gluetun_sidecar s.config
    then []
    else sort_rules (keep (λ r. not (skipped s f r.priority)) (all_rules s f))

unfoldable pub rules_at : Spec → Family → ℕ → List Rule
unfolding rules
rules_at s f p = keep (λ r. r.priority == p) (rules s f)
