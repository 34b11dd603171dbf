-- ===== src/Proxy/Actions.antt =====
-- Small functions of internal/dag/httpproxy_processor.go on one route or service.
use contour.Prelude.{
  ℕ, ◌⊎◌, inl, inr, Bool, false, not, ◌&&◌, ◌||◌, Option, none, some, List, [], ◌∷◌, Text, codes,
  text_eq, if◌then◌else◌, map, insert,
}
use contour.Conditions.Path.{nonempty}
use contour.Policy.Headers.{HeadersPolicy}
use contour.Policy.RateLimit.{RateLimitSpec}
use contour.Policy.Settings.{ℤ, uint32}
use contour.Proxy.Source.{Service}

pub record DirectResponse : Type 0 where
  pub status_code : ℕ
  pub body : Text

-- `PathRewritePolicy` of internal/dag/dag.go, the fields that HTTPProxies set.
pub record PathRewritePolicy : Type 0 where
  pub prefix_rewrite : Text
  pub full_path_rewrite : Text

-- `HTTPRequestRedirectPolicy` of apis/projectcontour/v1/httpproxy.go.
pub record RedirectSpec : Type 0 where
  pub scheme : Option Text
  pub hostname : Option Text
  pub port : Option ℤ
  pub status_code : Option ℤ
  pub path : Option Text
  pub prefix : Option Text

-- `Redirect` of internal/dag/dag.go; a status code of `none` is 0.
pub record Redirect : Type 0 where
  pub hostname : Text
  pub scheme : Text
  pub port_number : ℕ
  pub status_code : Option ℤ
  pub path_rewrite_policy : Option PathRewritePolicy

pub data RedirectError : Type 0 where
  path_and_prefix : RedirectError

abbrev pub text_or : Option Text → Text
text_or none = []
text_or (some s) = s

unfoldable pub redirect_route_policy : Option RedirectSpec → RedirectError ⊎ Option Redirect
redirect_route_policy none = inr none
redirect_route_policy (some redirect) = elim redirect.path [
  | some path ↦ elim redirect.prefix [
    | some prefix ↦ inl path_and_prefix
    | none ↦ inr (some (made (some (record { prefix_rewrite = []; full_path_rewrite = path }))))
  ]
  | none ↦ elim redirect.prefix [
    | some prefix ↦
        inr (some (made (some (record { prefix_rewrite = prefix; full_path_rewrite = [] }))))
    | none ↦ inr (some (made none))
  ]
]
  where
    made : Option PathRewritePolicy → Redirect
    made rewrite = record {
      hostname = text_or redirect.hostname;
      scheme = text_or redirect.scheme;
      port_number = elim redirect.port [ none ↦ 0 | some port ↦ uint32 port ];
      status_code = redirect.status_code;
      path_rewrite_policy = rewrite;
    }

unfoldable pub direct_response : ℕ → Text → DirectResponse
direct_response status_code body = record { status_code = status_code; body = body }

unfoldable pub direct_response_policy : Option (ℤ × Text) → Option DirectResponse
unfolding direct_response
direct_response_policy none = none
direct_response_policy (some (status_code, body)) = some (direct_response (uint32 status_code) body)

-- `HTTPInternalRedirectPolicy`, both the CRD's and the DAG's: the last field is the text that the CRD
-- has, and the policy for other schemes that the DAG has.
pub record InternalRedirectSpec : Type 0 where
  pub max_internal_redirects : ℕ
  pub redirect_response_codes : List ℤ
  pub allow_cross_scheme_redirect : Text
  pub deny_repeated_route_redirect : Bool

pub data CrossScheme : Type 0 where
  always safe_only never : CrossScheme

pub record InternalRedirectPolicy : Type 0 where
  pub max_internal_redirects : ℕ
  pub redirect_response_codes : List ℕ
  pub allow_cross_scheme_redirect : CrossScheme
  pub deny_repeated_route_redirect : Bool

unfoldable pub internal_redirect_policy :
    Option InternalRedirectSpec → Option InternalRedirectPolicy
internal_redirect_policy none = none
internal_redirect_policy (some internal) = some (record {
  max_internal_redirects = internal.max_internal_redirects;
  redirect_response_codes = map uint32 internal.redirect_response_codes;
  allow_cross_scheme_redirect =
      if text_eq internal.allow_cross_scheme_redirect (codes "Always")
      then always
      else if text_eq internal.allow_cross_scheme_redirect (codes "SafeOnly")
      then safe_only
      else never;
  deny_repeated_route_redirect = internal.deny_repeated_route_redirect;
})

-- Whether the route ignores the rate limits of its virtual host.
unfoldable pub rate_limit_per_route : Option RateLimitSpec → Bool
rate_limit_per_route none = false
rate_limit_per_route (some spec) = elim spec.global [ none ↦ false | some g ↦ g.disabled ]

unfoldable pub route_enforce_tls : Bool → Bool → Bool
route_enforce_tls enforce_tls permit_insecure = enforce_tls && not permit_insecure

-- `getProtocol`, by the protocol that the HTTPProxy gives for the service; `none` is an error.
unfoldable pub get_protocol : Option Text → Service → Option Text
get_protocol none s = some s.protocol
get_protocol (some protocol) s =
    if text_eq protocol (codes "h2c")
      || text_eq protocol (codes "h2")
      || text_eq protocol (codes "tls")
    then some protocol
    else none

abbrev pub host_rewrite_of : Option HeadersPolicy → Text
host_rewrite_of none = []
host_rewrite_of (some p) = p.host_rewrite

unfoldable pub determine_sni : Option HeadersPolicy → Option HeadersPolicy → Service → Text
determine_sni route_headers cluster_headers service =
    if nonempty (host_rewrite_of cluster_headers)
    then host_rewrite_of cluster_headers
    else if nonempty (host_rewrite_of route_headers)
    then host_rewrite_of route_headers
    else service.external_name

-- `AuthorizationPolicy`: whether it is disabled, and its context.
pub record AuthPolicy : Type 0 where
  pub disabled : Bool
  pub context : List (Text × Text)

-- The loop that copies the entries of one map over another.
abbrev pub put_all : List (Text × Text) → List (Text × Text) → List (Text × Text)
put_all [] values = values
put_all ((k, v) ∷ entries) values = put_all entries (insert text_eq k v values)

-- `Route.AuthorizationContext`.
unfoldable pub authorization_context : Option AuthPolicy → List (Text × Text) → List (Text × Text)
authorization_context none parent = put_all parent []
authorization_context (some policy) parent = put_all policy.context (put_all parent [])
