-- ===== src/Proxy/Routes.antt =====
-- One route of an HTTPProxy: the body of `for _, route := range proxy.Spec.Routes` in `computeRoutes`,
-- internal/dag/httpproxy_processor.go.
pub mod Laws
pub mod Keeps
use contour.Prelude.{
  ℕ, ◌+◌, ◌⊎◌, inl, inr, Bool, true, false, not, ◌&&◌, ◌||◌, ◌==◌, Option, none, some, List, [],
  ◌∷◌, ◌++◌, Text, codes, text_eq, is_empty, if◌then◌else◌,
}
use contour.Conditions.Types.{
  Condition, PathMatchCondition, prefix_match, exact_match, regex_match, HeaderMatchCondition,
  HeaderMatchType, QueryParamMatchCondition,
}
use contour.Conditions.Path.{nonempty, merge_path_match_conditions, path_match_conditions_valid}
use contour.Conditions.Header.{merge_header_match_conditions, header_match_conditions_valid}
use contour.Conditions.Query.{
  merge_query_param_match_conditions, query_parameter_match_conditions_valid,
}
use contour.Status.Updates.{NamespacedName}
use contour.Timeout.{Duration}
use contour.Policy.Headers.{HeadersSpec, HeadersPolicy, headers_policy_route}
use contour.Policy.Cookies.{
  CookieSpec, CookieRewritePolicy, cookie_rewrite_policies, ReplacePrefix,
  prefix_replacements_are_valid, ReplacementError, duplicate_replacement, ambiguous_replacement,
}
use contour.Policy.RateLimit.{RateLimitSpec, RateLimitPolicy, rate_limit_policy}
use contour.Policy.Balance.{
  LoadBalancerSpec, RequestHashPolicy, load_balancer_request_hash_policies,
}
use contour.Policy.Settings.{
  RetrySpec, RetryPolicy, retry_policy, TimeoutSpec, RouteTimeoutPolicy, ClusterTimeoutPolicy,
  timeout_policy, ℤ,
}
use contour.Policy.Health.{HealthSpec, HttpHealthCheckPolicy, http_health_check_policy}
use contour.Policy.Escape.{has_prefix}
use contour.Proxy.Monad.{Run, done, ◌>>=◌, ◌>>◌, refuse, no_error, value, unless_bad, warn}
use contour.Proxy.Source.{Externals, Backend}
use contour.Proxy.Actions.{
  DirectResponse, direct_response, direct_response_policy, PathRewritePolicy, RedirectSpec,
  Redirect, redirect_route_policy, InternalRedirectSpec, InternalRedirectPolicy,
  internal_redirect_policy, rate_limit_per_route, route_enforce_tls, AuthPolicy,
  authorization_context,
}
use contour.Proxy.Cluster.{
  ClusterConfig, ServiceSpec, Cluster, MirrorPolicy, Targets, RouteDefaults, add_services,
}
use contour.Proxy.Filters.{IpFilterPolicy, IpFilterRule, to_ip_filter_rules}
use contour.Proxy.Route.{
  JwtPolicy, RouteConfig, RootHost, route_authorization, rewrite_of, jwt_provider_of,
}

abbrev one_if : Bool → ℕ
one_if true = 1
one_if false = 0

abbrev pub is_some {ℓ} : {A : Type ℓ} → Option A → Bool
is_some none = false
is_some (some a) = true

abbrev pub is_cons {ℓ} : {A : Type ℓ} → List A → Bool
is_cons [] = false
is_cons (x ∷ xs) = true

abbrev tail : Text → Text
tail [] = []
tail (c ∷ s) = s

-- What a round of the loop knows of the traversal.
pub record Place : Type 0 where
  pub root : RootHost
  -- The proxy that has the route.
  pub proxy : NamespacedName
  -- The conditions of the includes that lead to it.
  pub conditions : List Condition
  pub enforce_tls : Bool
  pub default_jwt_provider : Text

module _ (ext : Externals) (backend : Backend) where
  open ext use {lib, compiles, parse_duration, quote_meta}

  -- `Route` of apis/projectcontour/v1/httpproxy.go.
  pub record RouteSpec : Type 0 where
    pub conditions : List Condition
    pub services : List (ServiceSpec ext backend)
    pub enable_websockets : Bool
    pub permit_insecure : Bool
    pub auth_policy : Option AuthPolicy
    pub timeout_policy : Option TimeoutSpec
    pub retry_policy : Option RetrySpec
    pub health_check_policy : Option HealthSpec
    pub load_balancer_policy : Option LoadBalancerSpec
    pub prefix_replacements : List ReplacePrefix
    pub request_headers_policy : Option HeadersSpec
    pub response_headers_policy : Option HeadersSpec
    pub cookie_rewrite_policies : List CookieSpec
    pub rate_limit_policy : Option RateLimitSpec
    pub request_redirect_policy : Option RedirectSpec
    -- The status code and the body.
    pub direct_response_policy : Option (ℤ × Text)
    pub internal_redirect_policy : Option InternalRedirectSpec
    pub jwt_verification_policy : Option JwtPolicy
    pub ip_allow_filter_policy : List IpFilterPolicy
    pub ip_deny_filter_policy : List IpFilterPolicy

  -- `Route` of internal/dag/dag.go, without `Priority`, which HTTPProxies leave at 0; `source` holds
  -- `Namespace` and `Name`, with the kind "HTTPProxy".
  pub record DagRoute : Type 0 where
    pub path : PathMatchCondition
    pub headers : List HeaderMatchCondition
    pub query_params : List QueryParamMatchCondition
    pub clusters : List (Cluster ext backend)
    pub https_upgrade : Bool
    pub auth_disabled : Bool
    pub auth_context : List (Text × Text)
    pub websocket : Bool
    pub timeout_policy : RouteTimeoutPolicy
    pub retry_policy : Option RetryPolicy
    pub path_rewrite_policy : Option PathRewritePolicy
    pub mirror_policies : List (MirrorPolicy ext backend)
    pub request_headers_policy : Option HeadersPolicy
    pub response_headers_policy : Option HeadersPolicy
    pub cookie_rewrite_policies : List CookieRewritePolicy
    pub rate_limit_policy : Option RateLimitPolicy
    pub ignores_vh_rate_limits : Bool
    pub request_hash_policies : List RequestHashPolicy
    pub direct_response : Option DirectResponse
    pub redirect : Option Redirect
    pub jwt_provider : Text
    pub internal_redirect_policy : Option InternalRedirectPolicy
    pub ip_filter_allow : Bool
    pub ip_filter_rules : List (IpFilterRule ext)
    pub source : Option NamespacedName

  -- `routeActionCountValid`.
  unfoldable pub route_action_count_valid : RouteSpec → Bool
  route_action_count_valid route =
      one_if (is_cons route.services)
        + one_if (is_some route.request_redirect_policy)
        + one_if (is_some route.direct_response_policy)
      == 1

  -- `wildcardDomainHeaderMatch`.
  unfoldable pub wildcard_domain_header_match : Text → HeaderMatchCondition
  wildcard_domain_header_match fqdn = record {
    name = codes ":authority";
    value =
        codes "^[a-z0-9]([-a-z0-9]*[a-z0-9])?" ++ (quote_meta (tail fqdn) ++ codes "(:[0-9]+)?");
    match_type = HeaderMatchType.regex;
    invert = false;
    ignore_case = false;
    treat_missing_as_empty = false;
  }

  -- The wildcard rule of the route's host.
  unfoldable pub host_headers : Text → List HeaderMatchCondition → List HeaderMatchCondition
  unfolding wildcard_domain_header_match
  host_headers fqdn headers =
      if has_prefix fqdn (codes "*.")
      then headers ++ wildcard_domain_header_match fqdn ∷ []
      else headers

  -- The direct response of a route that has nothing else to answer with.
  unfoldable pub or_unavailable :
      RouteSpec → List (Cluster ext backend) → Option DirectResponse → Option DirectResponse
  unfolding direct_response
  or_unavailable route clusters answer =
      if not (is_cons clusters)
        && not (is_some route.request_redirect_policy)
        && not (is_some route.direct_response_policy)
      then some (direct_response 503 [])
      else answer

  unfoldable pub ip_filters : RouteSpec → Run (Bool × List (IpFilterRule ext))
  ip_filters route dc =
      let (allow, rules, err, dc') =
        to_ip_filter_rules ext route.ip_allow_filter_policy route.ip_deny_filter_policy dc in
      if err then (dc', none) else (dc', some (allow, rules))

  -- One round: the route, and `dynamicHeaders` as it leaves them.
  unfoldable pub route_of :
      RouteConfig → Place → List (Text × Text) → RouteSpec → Run (DagRoute × List (Text × Text))
  unfolding route_action_count_valid host_headers or_unavailable ip_filters route_authorization
      rewrite_of jwt_provider_of
  route_of config place dynamic_headers route = do
    unless_bad (not (route_action_count_valid route)) "RouteError" "RouteActionCountNotValid"
    no_error (path_match_conditions_valid compiles route.conditions) "RouteError"
        "PathMatchConditionsNotValid"
    let conditions = place.conditions ++ route.conditions
    no_error (header_match_conditions_valid compiles conditions) "RouteError"
        "HeaderMatchConditionsNotValid"
    no_error (query_parameter_match_conditions_valid compiles conditions) "RouteError"
        "QueryParameterMatchConditionsNotValid"
    request ←
        value (headers_policy_route lib route.request_headers_policy true dynamic_headers)
          "RouteError" "RequestHeadersPolicyInvalid"
    response ←
        value (headers_policy_route lib route.response_headers_policy false dynamic_headers)
          "RouteError" "ResponseHeaderPolicyInvalid"
    cookies ←
        value (cookie_rewrite_policies route.cookie_rewrite_policies) "RouteError"
          "CookieRewritePoliciesInvalid"
    timeouts ←
        value (timeout_policy parse_duration route.timeout_policy config.connect_timeout)
          "RouteError" "TimeoutPolicyNotValid"
    limits ←
        value (rate_limit_policy lib route.rate_limit_policy) "RouteError" "RateLimitPolicyNotValid"
    let balance = load_balancer_request_hash_policies lib route.load_balancer_policy
    warn balance.2 "SpecError" "IgnoredField"
    redirect ←
        value (redirect_route_policy route.request_redirect_policy) "RouteError"
          "RequestRedirectPolicy"
    let path = merge_path_match_conditions conditions
    let auth = route_authorization config.global_auth place.root.authorization route.auth_policy
    rewrite ← rewrite_of path route.prefix_replacements
    health ←
        value (http_health_check_policy route.health_check_policy) "RouteError"
          "HealthCheckPolicyInvalid"
    targets ←
        add_services ext backend config.clusters
          (record {
            namespace = place.proxy.namespace;
            lb_policy = balance.1;
            health_policy = health;
            request_headers = request;
            timeouts = timeouts.1;
          })
          (record { clusters = []; mirror_policies = []; dynamic_headers = dynamic_headers })
          route.services
    jwt ← jwt_provider_of route.jwt_verification_policy place.default_jwt_provider
    filters ← ip_filters route
    done (
      record {
        path = path;
        headers = host_headers place.root.fqdn (merge_header_match_conditions conditions);
        query_params = merge_query_param_match_conditions conditions;
        clusters = targets.clusters;
        https_upgrade =
            route_enforce_tls place.enforce_tls
              (route.permit_insecure && not config.disable_permit_insecure);
        auth_disabled = auth.0;
        auth_context = auth.1;
        websocket = route.enable_websockets;
        timeout_policy = timeouts.0;
        retry_policy = retry_policy parse_duration route.retry_policy;
        path_rewrite_policy = rewrite;
        mirror_policies = targets.mirror_policies;
        request_headers_policy = request;
        response_headers_policy = response;
        cookie_rewrite_policies = cookies;
        rate_limit_policy = limits;
        ignores_vh_rate_limits = rate_limit_per_route route.rate_limit_policy;
        request_hash_policies = balance.0;
        direct_response =
            or_unavailable route targets.clusters
              (direct_response_policy route.direct_response_policy);
        redirect = redirect;
        jwt_provider = jwt;
        internal_redirect_policy = internal_redirect_policy route.internal_redirect_policy;
        ip_filter_allow = filters.0;
        ip_filter_rules = filters.1;
        source = (if config.set_source_metadata_on_routes then some place.proxy else none);
      },
      targets.dynamic_headers,
    )
