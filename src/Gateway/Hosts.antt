-- ===== src/Gateway/Hosts.antt =====
-- `computeHosts` and `hostnameMatchesWildcardHostname` of internal/dag/gatewayapi_processor.go.
pub mod Suffix
pub mod Laws
pub mod Complete
use contour.Prelude.{
  ℕ, Bool, true, false, not, ◌&&◌, ◌||◌, ◌==◌, Option, none, some, List, [], ◌∷◌, ◌++◌, Text,
  text_eq, is_empty, ltb, length, any, if◌then◌else◌,
}
use contour.Conditions.Path.{nonempty}
use contour.Listeners.{HostnameRules, is_valid_hostname}

-- `strings.TrimPrefix(s, "*")`.
abbrev pub trim_star : Text → Text
trim_star [] = []
trim_star (c ∷ s) = if c == b'*' then s else c ∷ s

-- `strings.HasPrefix(s, "*")`.
abbrev pub has_star : Text → Bool
has_star [] = false
has_star (c ∷ s) = c == b'*'

-- `strings.TrimSuffix(s, suffix)` where `strings.HasSuffix(s, suffix)`, else none.
unfoldable pub cut_suffix : Text → Text → Option Text
cut_suffix [] suffix = if text_eq [] suffix then some [] else none
cut_suffix (c ∷ s) suffix =
    let rest = cut_suffix s suffix in
    if text_eq (c ∷ s) suffix then some [] else (elim rest [ none ↦ none | some m ↦ some (c ∷ m) ])

unfoldable pub hostname_matches_wildcard_hostname : Text → Text → Bool
unfolding cut_suffix
hostname_matches_wildcard_hostname hostname wildcard_hostname =
    elim (cut_suffix hostname (trim_star wildcard_hostname)) [
      | none ↦ false
      | some wildcard_match ↦ nonempty wildcard_match
    ]

-- The function `otherListenerIntersection`.
unfoldable pub other_listener_intersection : List Text → Text → Text → Bool
unfolding hostname_matches_wildcard_hostname
other_listener_intersection others route_hostname actual_listener_hostname =
    any
      (λ other.
        text_eq route_hostname other
        || (has_star other
            && hostname_matches_wildcard_hostname route_hostname other
            && ltb (length actual_listener_hostname) (length other)))
      others

-- The `switch`: the host name that a valid host name of the route puts in the set.
unfoldable pub host_for : List Text → Text → Text → Option Text
unfolding other_listener_intersection
host_for others listener_hostname route_hostname =
    if is_empty listener_hostname
    then (if other_listener_intersection others route_hostname listener_hostname
        then none
        else some route_hostname)
    else if text_eq listener_hostname route_hostname
    then some route_hostname
    else if has_star listener_hostname
    then (if hostname_matches_wildcard_hostname route_hostname listener_hostname
          && not (other_listener_intersection others route_hostname listener_hostname)
        then some route_hostname
        else none)
    else if has_star route_hostname
    then (if hostname_matches_wildcard_hostname listener_hostname route_hostname
        then some listener_hostname
        else none)
    else none

-- `Insert` into a set.
abbrev pub put : Text → List Text → List Text
put s set = if any (λ t. text_eq t s) set then set else set ++ s ∷ []

module _ (rules : HostnameRules) (others : List Text) (listener_hostname : Text) where
  -- The loop, with `hostnames` and the names that are not valid.
  unfoldable pub add_hosts : List Text → List Text → List Text → List Text × List Text
  unfolding host_for
  add_hosts [] hostnames errs = (hostnames, errs)
  add_hosts (r ∷ rs) hostnames errs =
      if not (is_valid_hostname rules r)
      then add_hosts rs hostnames (errs ++ r ∷ [])
      else (elim (host_for others listener_hostname r) [
        | none ↦ add_hosts rs hostnames errs
        | some h ↦ add_hosts rs (put h hostnames) errs
      ])

  -- The set is a list without repetitions.
  unfoldable pub compute_hosts : List Text → List Text × List Text
  unfolding add_hosts
  compute_hosts [] =
      ((if nonempty listener_hostname then listener_hostname else b'*' ∷ []) ∷ [], [])
  compute_hosts (r ∷ rs) = add_hosts (r ∷ rs) [] []
