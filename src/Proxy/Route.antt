-- ===== src/Proxy/Route.antt =====
-- Parts of one route of an HTTPProxy, of the body of `for _, route := range proxy.Spec.Routes` in `computeRoutes`,
-- internal/dag/httpproxy_processor.go.
use contour.Prelude.{
  Bool, false, ◌&&◌, Option, none, some, List, [], ◌∷◌, Text, text_eq, is_empty, if◌then◌else◌,
}
use contour.Conditions.Types.{PathMatchCondition, prefix_match, exact_match, regex_match}
use contour.Conditions.Path.{nonempty}
use contour.Timeout.{Duration}
use contour.Policy.Cookies.{
  ReplacePrefix, prefix_replacements_are_valid, duplicate_replacement, ambiguous_replacement,
}
use contour.Proxy.Monad.{Run, done, refuse}
use contour.Proxy.Actions.{PathRewritePolicy, AuthPolicy, authorization_context}
use contour.Proxy.Cluster.{ClusterConfig}

-- `JWTVerificationPolicy`.
pub record JwtPolicy : Type 0 where
  pub required : Text
  pub disabled : Bool

-- The fields of `HTTPProxyProcessor` that routes depend on. `global_auth` is there where
-- `GlobalExternalAuthorization` is, with its policy.
pub record RouteConfig : Type 0 where
  pub clusters : ClusterConfig
  pub connect_timeout : Duration
  pub disable_permit_insecure : Bool
  pub set_source_metadata_on_routes : Bool
  pub global_auth : Option (Option AuthPolicy)

-- The virtual host of the root proxy: its name, and its authorization with its policy.
pub record RootHost : Type 0 where
  pub fqdn : Text
  pub authorization : Option (Option AuthPolicy)

abbrev pub disabled_of : Option AuthPolicy → Bool
disabled_of none = false
disabled_of (some policy) = policy.disabled

abbrev pub context_of : Option AuthPolicy → List (Text × Text)
context_of none = []
context_of (some policy) = policy.context

-- `AuthDisabled` and `AuthContext`: by the route's policy, else by that of the virtual host, else by the
-- global one.
unfoldable pub route_authorization :
    Option (Option AuthPolicy)
    → Option (Option AuthPolicy)
    → Option AuthPolicy
    → Bool × List (Text × Text)
unfolding authorization_context
route_authorization none none route = (false, [])
route_authorization (some global) none route = (
  (elim route [ some policy ↦ policy.disabled | none ↦ disabled_of global ]),
  authorization_context route (context_of global),
)
route_authorization global (some host) route = (
  (elim route [ some policy ↦ policy.disabled | none ↦ disabled_of host ]),
  authorization_context route (context_of host),
)

-- The two loops over the prefix replacements.
unfoldable pub exact_replacement : Text → List ReplacePrefix → Option PathRewritePolicy
exact_replacement routing_prefix [] = none
exact_replacement routing_prefix (r ∷ rs) =
    let rest = exact_replacement routing_prefix rs in
    if nonempty r.prefix && text_eq routing_prefix r.prefix
    then some (record { prefix_rewrite = r.replacement; full_path_rewrite = [] })
    else rest

unfoldable pub default_replacement : List ReplacePrefix → Option PathRewritePolicy
default_replacement [] = none
default_replacement (r ∷ rs) =
    let rest = default_replacement rs in
    if is_empty r.prefix
    then some (record { prefix_rewrite = r.replacement; full_path_rewrite = [] })
    else rest

unfoldable pub replacement_of : Text → List ReplacePrefix → Option PathRewritePolicy
unfolding exact_replacement default_replacement
replacement_of routing_prefix rs = elim (exact_replacement routing_prefix rs) [
  | some policy ↦ some policy
  | none ↦ default_replacement rs
]

-- The part on prefix replacements: the route's `PathRewritePolicy`.
unfoldable pub rewrite_of : PathMatchCondition → List ReplacePrefix → Run (Option PathRewritePolicy)
unfolding replacement_of
rewrite_of path [] = done none
rewrite_of (prefix_match prefix kind) (r ∷ rs) = elim (prefix_replacements_are_valid (r ∷ rs)) [
  | some (duplicate_replacement p) ↦ refuse "PrefixReplaceError" "DuplicateReplacement"
  | some ambiguous_replacement ↦ refuse "PrefixReplaceError" "AmbiguousReplacement"
  | none ↦ done (replacement_of prefix (r ∷ rs))
]
rewrite_of (exact_match s) (r ∷ rs) = refuse "PrefixReplaceError" "MustHavePrefix"
rewrite_of (regex_match s) (r ∷ rs) = refuse "PrefixReplaceError" "MustHavePrefix"

-- The `switch` on the JWT policy of the route.
unfoldable pub jwt_provider_of : Option JwtPolicy → Text → Run Text
jwt_provider_of none default = done default
jwt_provider_of (some jwt) default =
    if nonempty jwt.required
    then (if jwt.disabled
        then refuse "JWTVerificationError" "InvalidJWTVerificationPolicy"
        else done jwt.required)
    else if jwt.disabled
    then done []
    else done default
