-- ===== src/Policy/Packet.antt =====
-- internal/policy/policy.go: packets, and whether a rule's selectors take one.
--
-- Byte order of raw attributes is that of amd64 and arm64, the platforms of the image.
use Prim.Native.Nat.{bit_and, bit_xor}
use molebridge.Base.{
  ℕ, ◌+◌, ◌*◌, ◌/◌, Bool, true, false, not, ◌&&◌, ◌||◌, Option, none, some, List, [], ◌∷◌, ◌==◌,
  leb, same, Text, Text-discrete, if◌then◌else◌,
}
use molebridge.Rtnl.Addr.{Family, Addr, Prefix, contains, covers}
use molebridge.Rtnl.Rule.{RawAttr, Rule, invert, extra_flags, effective_mark}
use molebridge.Contract.Spec.{lo}

-- The destination is always an address; an unbound source is `none`.
pub record Packet : Type 0 where
  pub family : Family
  pub iif : Text
  pub mark : ℕ
  pub proto : ℕ
  pub src : Option Addr
  pub dst : Addr
  pub tos : ℕ
  pub sport : ℕ
  pub dport : ℕ
  pub uid : ℕ
  pub l3 : Bool

pub data Tri : Type 0 where
  never always perhaps : Tri

pub record Ext : Type 0 where
  pub uid : Option (ℕ × ℕ)
  pub sport : Option (ℕ × ℕ)
  pub dport : Option (ℕ × ℕ)
  pub dscp : Option ℕ
  pub other : Bool

le16 : ℕ → ℕ → ℕ
le16 a b = a + 256 * b

le32 : ℕ → ℕ → ℕ → ℕ → ℕ
le32 a b c d = a + 256 * (b + 256 * (c + 256 * d))

-- One attribute; any other type or length sets `other`.
ext_attr : ℕ → List ℕ → Ext → Ext
unfolding le16 le32
ext_attr t (a ∷ b ∷ c ∷ d ∷ a' ∷ b' ∷ c' ∷ d' ∷ []) e =
    if t == 20
    then record e { uid = some (le32 a b c d, le32 a' b' c' d') }
    else record e { other = true }
ext_attr t (a ∷ b ∷ c ∷ d ∷ []) e =
    if t == 23
    then record e { sport = some (le16 a b, le16 c d) }
    else if t == 24
    then record e { dport = some (le16 a b, le16 c d) }
    else record e { other = true }
ext_attr t (a ∷ []) e = if t == 25 then record e { dscp = some a } else record e { other = true }
ext_attr t _ e = record e { other = true }

ext_from : Ext → List RawAttr → Ext
unfolding ext_attr
ext_from e [] = e
ext_from e (a ∷ as') = ext_from (ext_attr a.typ a.payload e) as'

unfoldable pub ext : Rule → Ext
unfolding ext_from
ext r =
    ext_from (record { uid = none; sport = none; dport = none; dscp = none; other = false })
      r.unknown

-- An unset name selects everything.
unfoldable pub name_passes : Text → Text → Bool
unfolding Text-discrete
name_passes [] name = true
name_passes sel name = same Text-discrete sel name

abbrev pub is_unset : Text → Bool
is_unset [] = true
is_unset (_ ∷ _) = false

unfoldable pub src_passes : Option Prefix → Option Addr → Bool
unfolding covers
src_passes none a = true
src_passes (some p) none = p.bits == 0
src_passes (some p) (some a) = p.bits == 0 || contains p a

unfoldable pub dst_passes : Option Prefix → Addr → Bool
unfolding covers
dst_passes none a = true
dst_passes (some p) a = p.bits == 0 || contains p a

unfoldable pub mark_passes : ℕ × ℕ → ℕ → Bool
mark_passes m mark = bit_and (bit_xor m.0 mark) m.1 == 0

abbrev pub opt_passes : Option ℕ → ℕ → Bool
opt_passes none v = true
opt_passes (some w) v = w == 0 || w == v

abbrev pub l3_passes : Option ℕ → Bool → Bool
l3_passes none l3 = true
l3_passes (some w) l3 = w == 0 || l3

abbrev pub range_passes : Option (ℕ × ℕ) → ℕ → Bool
range_passes none v = true
range_passes (some b) v = leb b.0 v && leb v b.1

abbrev pub dscp_passes : Option ℕ → ℕ → Bool
dscp_passes none tos = true
dscp_passes (some d) tos = tos / 4 == d

unfoldable pub is_lo : Text → Bool
unfolding Text-discrete
is_lo name = same Text-discrete name lo

-- The tests after which `known` is not `no`. A packet that is not the namespace's own has no
-- output interface at the lookup.
unfoldable pub known : Rule → Packet → Bool
unfolding effective_mark name_passes src_passes dst_passes mark_passes is_lo ext
known r p =
    name_passes r.iif_name p.iif
    && ((is_unset r.oif_name || is_lo p.iif)
        && (src_passes r.src p.src
            && (dst_passes r.dst p.dst
                && (mark_passes (effective_mark r) p.mark
                    && (opt_passes r.ip_proto p.proto
                        && ((r.tos == 0 || r.tos == p.tos)
                            && (l3_passes r.l3_mdev p.l3
                                && (range_passes (ext r).uid p.uid
                                    && (range_passes (ext r).sport p.sport
                                        && (range_passes (ext r).dport p.dport
                                            && dscp_passes (ext r).dscp p.tos))))))))))

-- What the model cannot decide.
unfoldable pub unsure : Rule → Packet → Bool
unfolding extra_flags is_lo ext
unsure r p =
    (ext r).other
    || (r.bad || (not (extra_flags r == 0) || (not (is_unset r.oif_name) && is_lo p.iif)))

abbrev pub flip : Tri → Tri
flip always = never
flip never = always
flip perhaps = perhaps

unfoldable pub matches : Rule → Packet → Tri
unfolding invert known unsure
matches r p =
    let res = if known r p then (if unsure r p then perhaps else always) else never in
    if invert r then flip res else res
