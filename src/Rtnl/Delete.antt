-- ===== src/Rtnl/Delete.antt =====
-- internal/rtnl/rule_delete.go: which rule the kernel's delete would take for a request.
use molebridge.Base.{
  ℕ, Bool, true, ◌&&◌, ◌||◌, Option, none, some, List, [], ◌==◌, same, all, any, Text,
  Text-discrete, ℕ_discrete,
}
use molebridge.Rtnl.Addr.{Prefix, OptPrefix-discrete}
use molebridge.Rtnl.Rule.{RawAttr, Rule}

unfoldable pub OptNat-discrete : Discrete (Option ℕ)
unfolding ℕ_discrete
OptNat-discrete = hlevel ℕ_discrete

-- A number: zero in the request is a wildcard.
wild_num : ℕ → ℕ → Bool
wild_num req x = req == 0 || req == x

-- A name: empty in the request is a wildcard.
wild_name : Text → Text → Bool
unfolding Text-discrete
wild_name [] x = true
wild_name req x = same Text-discrete req x

-- An Opt: absent or zero in the request is a wildcard.
wild_opt : Option ℕ → Option ℕ → Bool
unfolding OptNat-discrete
wild_opt none x = true
wild_opt (some v) x = v == 0 || same OptNat-discrete (some v) x

-- A suppressor: only an absent one is a wildcard.
wild_suppress : Option ℕ → Option ℕ → Bool
unfolding OptNat-discrete
wild_suppress none x = true
wild_suppress (some v) x = same OptNat-discrete (some v) x

-- A prefix: absent or of length zero in the request is a wildcard.
wild_prefix : Option Prefix → Option Prefix → Bool
unfolding OptPrefix-discrete
wild_prefix none x = true
wild_prefix (some p) x = p.bits == 0 || same OptPrefix-discrete (some p) x

same_attr : RawAttr → RawAttr → Bool
unfolding Text-discrete
same_attr u v = u.typ == v.typ && same Text-discrete u.payload v.payload

-- The request's raw attributes are all among the rule's.
wild_attrs : List RawAttr → List RawAttr → Bool
unfolding same_attr
wild_attrs us vs = all (λ u. any (λ v. same_attr u v) vs) us

unfoldable pub delete_matches : Rule → Rule → Bool
unfolding wild_num wild_name wild_opt wild_suppress wild_prefix wild_attrs
delete_matches req x =
    req.priority == x.priority
    && (wild_num req.action x.action
        && (wild_num req.table x.table
            && (wild_name req.iif_name x.iif_name
                && (wild_name req.oif_name x.oif_name
                    && (wild_opt req.fw_mark x.fw_mark
                        && (wild_opt req.fw_mask x.fw_mask
                            && (wild_suppress req.suppress_if_group x.suppress_if_group
                                && (wild_suppress req.suppress_prefix_len x.suppress_prefix_len
                                    && (wild_opt req.l3_mdev x.l3_mdev
                                        && (wild_opt req.ip_proto x.ip_proto
                                            && (wild_opt req.protocol x.protocol
                                                && (wild_prefix req.src x.src
                                                    && (wild_prefix req.dst x.dst
                                                        && (wild_num req.tos x.tos
                                                            && wild_attrs req.unknown
                                                            x.unknown))))))))))))))
