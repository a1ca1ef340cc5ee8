-- ===== src/Policy/Gather.antt =====
-- internal/policy/classes.go: the packets on which states are judged (`points`, `allPoints`), and
-- the judgement of a state and of a change on them.
use Prim.Native.Nat.{bit_and, bit_or, bit_xor}
use molebridge.Base.{
  ℕ, ◌-◌, ◌*◌, ◌%◌, ◌^◌, Bool, true, false, not, ◌&&◌, Option, none, some, List, [], ◌∷◌, ◌++◌, map,
  ◌==◌, ltb, any, keep, when, length, Text, if◌then◌else◌,
}
use molebridge.Rtnl.Addr.{Family, v4, v6, is_v4}
use molebridge.Rtnl.Rule.{Rule, effective_mark}
use molebridge.Rtnl.Route.{Route}
use molebridge.Contract.Config.{
  Config, is_native_sidecar, tunnel_mark, gluetun_mark, is_gluetun_sidecar,
}
use molebridge.Contract.Spec.{lo}
use molebridge.Contract.Plan.{interest}
use molebridge.Policy.Packet.{Packet, Ext, ext}
use molebridge.Policy.Lookup.{State}
use molebridge.Policy.Classes.{
  judge, opened, Violation, too_many_classes, is_unspecified, protected_addrs, host_subnets,
}
use molebridge.Policy.Ranges.{keys, refine_range}
use molebridge.Policy.Points.{flat, Sig, pick_from, Held, held, candidates, src_sig, dst_sig}

abbrev pub max_points : ℕ
max_points = 400000

module _ (c : Config) (f : Family) (h : Held) where
  -- The mark of a rule, the complement of it, and one that differs in the lowest bit looked at.
  marks_of : Rule → List ℕ
  unfolding effective_mark
  marks_of r =
      let (mark, mask) = effective_mark r in
      if mask == 0
      then []
      else mark ∷ bit_xor mark mask ∷ bit_xor mark (bit_and mask (2 ^ 32 - mask)) ∷ []

  all_marks : List ℕ
  unfolding marks_of
  all_marks = keys (
      0
        ∷ 0xffffffff
        ∷ c.control_mark
        ∷ bit_or c.control_mark 0x21
        ∷ gluetun_mark
        ∷ when (is_native_sidecar c) (tunnel_mark c)
      ++ flat marks_of h.rules)

  mark_sig : ℕ → Sig
  unfolding effective_mark
  mark_sig m = some (
      map
        (λ r.
          let (mark, mask) = effective_mark r in
          not (mask == 0) && bit_and (bit_xor mark m) mask == 0)
        h.rules
      ++ (m == c.control_mark)
        ∷ (m == gluetun_mark)
        ∷ when (is_native_sidecar c) (m == tunnel_mark c))

  proto_of : Rule → List ℕ
  proto_of r = elim r.ip_proto [ none ↦ [] | some v ↦ when (not (v == 0)) v ]

  protos : List ℕ
  unfolding proto_of
  protos = keys ((if is_v4 f then 1 else 58) ∷ 6 ∷ 17 ∷ 253 ∷ flat proto_of h.rules)

  tos_of : Rule → List ℕ
  unfolding ext
  tos_of r = r.tos ∷ (elim (ext r).dscp [ none ↦ [] | some d ↦ d * 4 % 256 ∷ [] ])

  tos_set : List ℕ
  unfolding tos_of
  tos_set =
      keys
        (0 ∷ flat tos_of h.rules ++ (if is_v4 f then map (λ (rt : Route). rt.tos) h.routes else []))

  -- The first value that no rule and no route selects on.
  another : List ℕ → List ℕ → List ℕ
  another taken [] = []
  another taken (o ∷ os) =
      let rest = another taken os in if any (λ t. t == o) taken then rest else o ∷ []

  toses : List ℕ
  unfolding tos_set another
  toses = elim tos_set [
    | [] ↦ []
    | t ∷ ts ↦ elim ts [
      | [] ↦ tos_set
      | u ∷ us ↦ keys (another tos_set (0xe0 ∷ 0xb8 ∷ 0x28 ∷ 0x04 ∷ []) ++ tos_set)
    ]
  ]

  abbrev given : Option (ℕ × ℕ) → List (ℕ × ℕ)
  given none = []
  given (some b) = b ∷ []

  ranges : (Ext → Option (ℕ × ℕ)) → List (ℕ × ℕ)
  unfolding ext
  ranges part = flat (λ r. given (part (ext r))) h.rules

  l3s : List Bool
  l3s =
      false ∷ when (any (λ r. elim r.l3_mdev [ none ↦ false | some v ↦ not (v == 0) ]) h.rules) true

  iifs : List Text
  iifs = if is_native_sidecar c then lo ∷ [] else c.overlay_if ∷ lo ∷ []

  -- The packets, or none where there would be more than `max_points`.
  unfoldable points_of : Option (List Packet)
  unfolding candidates src_sig dst_sig pick_from all_marks mark_sig protos toses ranges l3s iifs
      refine_range
  points_of =
      let srcs = pick_from (src_sig c f h) [] (candidates c f h) in
      let dsts = pick_from (dst_sig c f h) [] (candidates c f h) in
      let marks = pick_from mark_sig [] all_marks in
      let sports = refine_range (ranges (λ e. e.sport)) 65535 in
      let dports = refine_range (ranges (λ e. e.dport)) 65535 in
      let uids = refine_range (ranges (λ e. e.uid)) 0xffffffff in
      let selected =
        length iifs
        * length marks
        * length protos
        * length toses
        * length sports
        * length dports
        * length uids
        * length l3s in
      if ltb max_points (selected * length srcs * length dsts)
      then none
      else some (
          flat
            (λ iif.
              flat
                (λ mark.
                  flat
                    (λ proto.
                      flat
                        (λ tos.
                          flat
                            (λ sport.
                              flat
                                (λ dport.
                                  flat
                                    (λ uid.
                                      flat
                                        (λ l3.
                                          flat
                                            (λ src.
                                              map
                                                (λ dst. record {
                                                  family = f;
                                                  iif = iif;
                                                  mark = mark;
                                                  proto = proto;
                                                  src = some src;
                                                  dst = dst;
                                                  tos = tos;
                                                  sport = sport;
                                                  dport = dport;
                                                  uid = uid;
                                                  l3 = l3;
                                                })
                                                (keep (λ a. not (is_unspecified a)) dsts))
                                            srcs)
                                        l3s)
                                    uids)
                                dports)
                            sports)
                        toses)
                    protos)
                marks)
            iifs)

-- The packets of a family, refined over all the states.
unfoldable pub points : Family → State → List State → Option (List Packet)
unfolding points_of interest protected_addrs host_subnets
points f s ss = points_of s.spec.config f (held f (s ∷ ss))

unfoldable pub all_points : State → List State → Option (List Packet)
unfolding points
all_points s ss = elim (points v4 s ss) [
  | none ↦ none
  | some four ↦ elim (points v6 s ss) [ none ↦ none | some six ↦ some (four ++ six) ]
]

module _ (name : Rule → ℕ) where
  unfoldable pub violations : State → List Violation
  unfolding judge all_points
  violations s =
      if is_gluetun_sidecar s.spec.config
      then []
      else elim (all_points s []) [ none ↦ too_many_classes ∷ [] | some ps ↦ judge name s ps ]

  -- What the change opens.
  unfoldable pub worsens : State → State → List Violation
  unfolding opened all_points
  worsens before after =
      if is_gluetun_sidecar before.spec.config then [] else elim (all_points before (after ∷ [])) [
        | none ↦ too_many_classes ∷ []
        | some ps ↦ opened name before after ps
      ]
