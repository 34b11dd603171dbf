-- ===== src/Policy/Balance.antt =====
-- `loadBalancerPolicy` and `loadBalancerRequestHashPolicies` of internal/dag/policy.go.
pub mod Rounds
pub mod Laws
use contour.Prelude.{
  ℕ, ◌+◌, Bool, true, false, not, ◌&&◌, ◌||◌, ◌==◌, Option, none, some, List, [], ◌∷◌, ◌++◌, Text,
  codes, text_eq, to_lower, is_empty, if◌then◌else◌,
}
use contour.Conditions.Header.{has_name}
use contour.Policy.Headers.{Library}

-- `RequestHashPolicy` of apis/projectcontour/v1/httpproxy.go: the options by the name they hold.
pub record HashSpec : Type 0 where
  pub terminal : Bool
  pub hash_source_ip : Bool
  pub header_hash_options : Option Text
  pub query_parameter_hash_options : Option Text

pub record CookieHashOptions : Type 0 where
  pub cookie_name : Text
  pub ttl : ℕ
  pub path : Text

-- `RequestHashPolicy` of internal/dag/dag.go: the header and query options by the name they hold.
pub record RequestHashPolicy : Type 0 where
  pub terminal : Bool
  pub hash_source_ip : Bool
  pub header_name : Option Text
  pub parameter_name : Option Text
  pub cookie_hash_options : Option CookieHashOptions

pub record LoadBalancerSpec : Type 0 where
  pub strategy : Text
  pub request_hash_policies : List HashSpec

abbrev pub cookie : Text
cookie = codes "Cookie"

abbrev pub request_hash : Text
request_hash = codes "RequestHash"

abbrev pub round_robin : Text
round_robin = codes "RoundRobin"

unfoldable pub load_balancer_policy : Option LoadBalancerSpec → Text
load_balancer_policy none = []
load_balancer_policy (some lbp) =
    if text_eq lbp.strategy (codes "WeightedLeastRequest")
      || text_eq lbp.strategy (codes "Random")
      || text_eq lbp.strategy cookie
      || text_eq lbp.strategy request_hash
    then lbp.strategy
    else []

-- The variables of the loop; `warnings` counts the warnings added to the condition.
pub record Hashing : Type 0 where
  pub rhps : List RequestHashPolicy
  pub hash_source_ip_set : Bool
  pub header_hash_policies : List Text
  pub query_parameter_hash_policies : List Text
  pub warnings : ℕ

abbrev pub warned : Hashing → Hashing
warned s = record s { warnings = s.warnings + 1 }

abbrev count {ℓ} : {A : Type ℓ} → Option A → ℕ
count none = 0
count (some x) = 1

unfoldable pub attr_counter : HashSpec → ℕ
attr_counter p =
    (if p.hash_source_ip then 1 else 0)
    + count p.header_hash_options
    + count p.query_parameter_hash_options

-- The last part of a round: the query parameter, and the policy is appended.
unfoldable pub hash_query : Hashing → RequestHashPolicy → Option Text → Hashing
hash_query s rhp none = record s { rhps = s.rhps ++ rhp ∷ [] }
hash_query s rhp (some name) =
    let query_parameter = to_lower name in
    if is_empty query_parameter || has_name query_parameter s.query_parameter_hash_policies
    then warned s
    else record s {
      query_parameter_hash_policies = s.query_parameter_hash_policies ++ query_parameter ∷ [];
      rhps = s.rhps ++ record rhp { parameter_name = some query_parameter } ∷ [];
    }

abbrev pub no_hashing : Hashing
no_hashing = record {
  rhps = [];
  hash_source_ip_set = false;
  header_hash_policies = [];
  query_parameter_hash_policies = [];
  warnings = 0;
}

-- What follows the loop: with no policy left the strategy is the default, with a warning.
unfoldable pub settle_strategy :
    Text → ℕ → List RequestHashPolicy → List RequestHashPolicy × Text × ℕ
settle_strategy strategy warnings [] = ([], round_robin, warnings + 1)
settle_strategy strategy warnings (rhp ∷ rhps) = (rhp ∷ rhps, strategy, warnings)

module _ (lib : Library) where
  open lib use {canonical_header_key, is_http_header_name}

  -- The middle part of a round: the header.
  unfoldable pub hash_header : Hashing → RequestHashPolicy → Option Text → Option Text → Hashing
  unfolding hash_query
  hash_header s rhp none query = hash_query s rhp query
  hash_header s rhp (some name) query =
      let header_name = canonical_header_key name in
      if not (is_http_header_name header_name) || has_name header_name s.header_hash_policies
      then warned s
      else hash_query
          (record s { header_hash_policies = s.header_hash_policies ++ header_name ∷ [] })
          (record rhp { header_name = some header_name }) query

  -- One round of the loop over `lbp.RequestHashPolicies`.
  unfoldable pub hash_policy : Hashing → HashSpec → Hashing
  unfolding attr_counter hash_header
  hash_policy s p =
      let rhp : RequestHashPolicy = record {
        terminal = p.terminal;
        hash_source_ip = p.hash_source_ip;
        header_name = none;
        parameter_name = none;
        cookie_hash_options = none;
      } in
      if not (attr_counter p == 1)
      then warned s
      else if p.hash_source_ip
      then (if s.hash_source_ip_set
          then warned s
          else hash_header (record s { hash_source_ip_set = true }) rhp p.header_hash_options
              p.query_parameter_hash_options)
      else hash_header s rhp p.header_hash_options p.query_parameter_hash_options

  unfoldable pub hash_all : Hashing → List HashSpec → Hashing
  unfolding hash_policy
  hash_all s [] = s
  hash_all s (p ∷ ps) = hash_all (hash_policy s p) ps

  -- The policies, the strategy and the number of warnings.
  unfoldable pub load_balancer_request_hash_policies :
      Option LoadBalancerSpec → List RequestHashPolicy × Text × ℕ
  unfolding load_balancer_policy hash_all settle_strategy
  load_balancer_request_hash_policies none = ([], [], 0)
  load_balancer_request_hash_policies (some lbp) =
      let strategy = load_balancer_policy (some lbp) in
      let s = hash_all no_hashing lbp.request_hash_policies in
      if text_eq strategy cookie
      then (
        record {
          terminal = false;
          hash_source_ip = false;
          header_name = none;
          parameter_name = none;
          cookie_hash_options = some (record {
            cookie_name = codes "X-Contour-Session-Affinity";
            ttl = 0;
            path = codes "/";
          });
        }
            ∷ [],
        cookie,
        0,
      )
      else if text_eq strategy request_hash
      then settle_strategy strategy s.warnings s.rhps
      else ([], strategy, 0)
