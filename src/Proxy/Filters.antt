-- ===== src/Proxy/Filters.antt =====
-- `toIPFilterRules` of internal/dag/httpproxy_processor.go.
pub mod Keeps
use contour.Prelude.{
  Bool, true, false, ◌==◌, none, some, List, [], ◌∷◌, ◌++◌, Text, codes, if◌then◌else◌, any,
}
use contour.Status.Detailed.{DetailedCondition, add_error}
use contour.Proxy.Source.{Externals}

-- `IPFilterPolicy`; `remote` says that the source is `IPFilterSourceRemote`.
pub record IpFilterPolicy : Type 0 where
  pub remote : Bool
  pub cidr : Text

abbrev pub contains_byte : Text → Text → Bool
contains_byte [] s = true
contains_byte (c ∷ rest) s = any (λ d. d == c) s

-- A bare address becomes a range of one.
unfoldable pub as_cidr : Text → Text
as_cidr s =
    if contains_byte (codes "/") s
    then s
    else if contains_byte (codes ":") s
    then s ++ codes "/128"
    else s ++ codes "/32"

module _ (ext : Externals) where
  open ext use {Cidr, parse_cidr}

  pub record IpFilterRule : Type 0 where
    pub remote : Bool
    pub cidr : Cidr

  -- The loop, with `filters`, whether `err` is set, and `validCond` as its variables. `err` is that of
  -- the last round.
  unfoldable pub filter_rules :
      List IpFilterPolicy
      → List IpFilterRule
      → Bool
      → DetailedCondition
      → List IpFilterRule × Bool × DetailedCondition
  unfolding as_cidr
  filter_rules [] filters err dc = (filters, err, dc)
  filter_rules (p ∷ ps) filters err dc = elim (parse_cidr (as_cidr p.cidr)) [
    | none ↦
        filter_rules ps filters true (add_error (codes "IPFilterError") (codes "InvalidCIDR") [] dc)
    | some cidr ↦
        filter_rules ps (filters ++ record { remote = p.remote; cidr = cidr } ∷ []) false dc
  ]

  -- What follows the loop.
  abbrev pub filter_result :
      Bool
      → List IpFilterRule × Bool × DetailedCondition
      → Bool × List IpFilterRule × Bool × DetailedCondition
  filter_result allow (filters, true, dc) = (false, [], true, dc)
  filter_result allow (filters, false, dc) = (allow, filters, false, dc)

  -- The results `allow`, `filters` and whether there is an error, with the condition.
  unfoldable pub to_ip_filter_rules :
      List IpFilterPolicy
      → List IpFilterPolicy
      → DetailedCondition
      → Bool × List IpFilterRule × Bool × DetailedCondition
  unfolding filter_rules
  to_ip_filter_rules [] [] dc = (false, [], false, dc)
  to_ip_filter_rules (a ∷ allow) (d ∷ deny) dc = (
    false,
    [],
    true,
    add_error (codes "IPFilterError") (codes "IncompatibleIPAddressFilters") [] dc,
  )
  to_ip_filter_rules (a ∷ allow) [] dc = filter_result true (filter_rules (a ∷ allow) [] false dc)
  to_ip_filter_rules [] (d ∷ deny) dc = filter_result false (filter_rules (d ∷ deny) [] false dc)
