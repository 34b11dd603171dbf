-- ===== src/Proxy/Filters/Keeps.antt =====
-- What errors keep of the condition, the IP filters of a route keep.
use contour.Prelude.{inl, inr, Bool, true, false, Option-cases, List, [], ◌∷◌, codes}
use contour.Status.Detailed.{DetailedCondition, add_error}
use contour.Proxy.Monad.Keeps.{Reported, IsStable}
use contour.Proxy.Source.{Externals, Backend}
use contour.Proxy.Filters.{
  IpFilterPolicy, IpFilterRule, filter_rules, filter_result, to_ip_filter_rules, as_cidr,
}

module _ {ℓ} (P Q : DetailedCondition → Type ℓ) (stable : IsStable P Q) where
  module _ (ext : Externals) (backend : Backend) where
    forget_err : (err : Bool) (dc : DetailedCondition) → Reported P Q err dc → P dc
    forget_err true dc q = stable.forget dc q
    forget_err false dc p = p

    filter_rules-Reported :
        (ps : List IpFilterPolicy) (filters : List (IpFilterRule ext)) (err : Bool)
        (dc : DetailedCondition)
        → Reported P Q err dc
        → Reported P Q (filter_rules ext ps filters err dc).1 (filter_rules ext ps filters err dc).2
    unfolding filter_rules
    filter_rules-Reported [] filters err dc p = p
    filter_rules-Reported (q ∷ ps) filters err dc p =
        elim (Option-cases (ext.parse_cidr (as_cidr q.cidr))) [
          | inl bad ↦
              rw (bad, filter_rules)
                (filter_rules-Reported ps filters true
                  (add_error (codes "IPFilterError") (codes "InvalidCIDR") [] dc)
                  (stable.error (codes "IPFilterError") (codes "InvalidCIDR") [] dc
                    (forget_err err dc p)))
          | inr (cidr, good) ↦
              rw (good, filter_rules) (filter_rules-Reported ps _ false dc (forget_err err dc p))
        ]

    filter_result-Reported :
        (allow : Bool) (filters : List (IpFilterRule ext)) (err : Bool) (dc : DetailedCondition)
        → Reported P Q err dc
        → Reported P Q
            (filter_result ext allow (filters, err, dc)).2
            (filter_result ext allow (filters, err, dc)).3
    filter_result-Reported allow filters true dc q = q
    filter_result-Reported allow filters false dc p = p

    pub to_ip_filter_rules-Reported :
        (allow deny : List IpFilterPolicy) (dc : DetailedCondition)
        → P dc
        → Reported P Q
            (to_ip_filter_rules ext allow deny dc).2
            (to_ip_filter_rules ext allow deny dc).3
    unfolding to_ip_filter_rules
    to_ip_filter_rules-Reported [] [] dc p = p
    to_ip_filter_rules-Reported (a ∷ allow) (d ∷ deny) dc p =
        stable.error (codes "IPFilterError") (codes "IncompatibleIPAddressFilters") [] dc p
    to_ip_filter_rules-Reported (a ∷ allow) [] dc p =
        filter_result-Reported true _ _ _ (filter_rules-Reported (a ∷ allow) [] false dc p)
    to_ip_filter_rules-Reported [] (d ∷ deny) dc p =
        filter_result-Reported false _ _ _ (filter_rules-Reported (d ∷ deny) [] false dc p)
