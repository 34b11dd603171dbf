-- ===== src/Proxy/Cluster.antt =====
-- One service of a route: the body of `for _, service := range route.Services` in `computeRoutes`,
-- internal/dag/httpproxy_processor.go.
pub mod Keeps
use contour.Prelude.{
  ℕ, inl, inr, Bool, true, false, not, ◌&&◌, ◌||◌, ◌==◌, Option, none, some, List, [], ◌∷◌, ◌++◌,
  Text, codes, text_eq, if◌then◌else◌, insert,
}
use contour.Conditions.Path.{nonempty}
use contour.Status.Detailed.{add_error}
use contour.Status.Updates.{NamespacedName}
use contour.Timeout.{Duration}
use contour.Policy.Headers.{HeadersSpec, HeadersPolicy}
use contour.Policy.Service.{headers_policy_service}
use contour.Policy.Cookies.{CookieSpec, CookieRewritePolicy, cookie_rewrite_policies}
use contour.Policy.Settings.{
  ℤ, pos, negsuc, below, above, uint32, CircuitBreakers, service_circuit_breaker_policy,
  ClusterTimeoutPolicy,
}
use contour.Policy.Health.{HttpHealthCheckPolicy}
use contour.Proxy.Monad.{Run, done, ◌>>=◌, refuse, value, required}
use contour.Proxy.Source.{Service, delegation_not_permitted, other_error, Externals, Backend}
use contour.Proxy.Actions.{get_protocol, determine_sni}

-- `SlowStartPolicy` of apis/projectcontour/v1/httpproxy.go.
pub record SlowStartSpec : Type 0 where
  pub window : Text
  pub aggression : Text
  pub minimum_weight_percent : ℕ

-- The fields of `HTTPProxyProcessor` that a service's cluster depends on. Those that are only copied to
-- the cluster are left out, here and in `Cluster`.
pub record ClusterConfig : Type 0 where
  pub global_circuit_breaker_defaults : Option CircuitBreakers
  pub request_headers_policy : Option HeadersPolicy
  pub response_headers_policy : Option HeadersPolicy
  pub client_certificate : Option NamespacedName

module _ (ext : Externals) (backend : Backend) where
  open ext use {lib, Float, one, parse_float, parse_duration, itoa}
  open backend use {
    Validation, PeerValidation, Secret, ensure_service, lookup_upstream_validation,
    lookup_client_certificate,
  }

  -- `Service` of apis/projectcontour/v1/httpproxy.go.
  pub record ServiceSpec : Type 0 where
    pub name : Text
    pub port : ℤ
    pub health_port : ℤ
    pub protocol : Option Text
    pub weight : ℤ
    pub mirror : Bool
    pub upstream_validation : Option Validation
    pub request_headers_policy : Option HeadersSpec
    pub response_headers_policy : Option HeadersSpec
    pub cookie_rewrite_policies : List CookieSpec
    pub slow_start_policy : Option SlowStartSpec

  -- `SlowStartConfig` of internal/dag/dag.go.
  pub record SlowStartConfig : Type 0 where
    pub window : Duration
    pub aggression : Float
    pub min_weight_percent : ℕ

  pub record Cluster : Type 0 where
    pub upstream : Service
    pub load_balancer_policy : Text
    pub weight : ℕ
    pub http_health_check_policy : Option HttpHealthCheckPolicy
    pub upstream_validation : Option PeerValidation
    pub request_headers_policy : Option HeadersPolicy
    pub response_headers_policy : Option HeadersPolicy
    pub cookie_rewrite_policies : List CookieRewritePolicy
    pub protocol : Text
    pub sni : Text
    pub client_certificate : Option Secret
    pub timeout_policy : ClusterTimeoutPolicy
    pub slow_start_config : Option SlowStartConfig

  -- `slowStartConfig`; `none` is an error.
  unfoldable pub slow_start_config : SlowStartSpec → Option SlowStartConfig
  slow_start_config spec = elim (parse_duration spec.window) [
    | none ↦ none
    | some window ↦
        elim (if nonempty spec.aggression then parse_float spec.aggression else some one) [
          | none ↦ none
          | some aggression ↦ some (record {
            window = window;
            aggression = aggression;
            min_weight_percent = spec.minimum_weight_percent;
          })
        ]
  ]

  unfoldable pub health_port_of : Option HttpHealthCheckPolicy → ServiceSpec → ℤ
  health_port_of none service = service.port
  health_port_of (some policy) service =
      if above service.health_port 0 then service.health_port else service.port

  -- `serviceCircuitBreakerPolicy` on the service that was found.
  unfoldable pub limited : Option CircuitBreakers → Service → Service
  unfolding service_circuit_breaker_policy
  limited defaults s = elim (service_circuit_breaker_policy (some s.circuit_breakers) defaults) [
    | none ↦ s
    | some limits ↦ record s { circuit_breakers = limits }
  ]

  -- The validation of the upstream, for protocols that talk TLS.
  unfoldable pub validation_of : Text → Option Validation → Text → Run (Option PeerValidation)
  validation_of protocol none namespace = done none
  validation_of protocol (some validation) namespace =
      if text_eq protocol (codes "tls") || text_eq protocol (codes "h2")
      then (elim (lookup_upstream_validation validation namespace) [
        | inr uv ↦ done (some uv)
        | inl delegation_not_permitted ↦ refuse "TLSError" "CACertificateNotDelegated"
        | inl other_error ↦ refuse "ServiceError" "TLSUpstreamValidation"
      ])
      else done none

  unfoldable pub certificate_of : Option NamespacedName → Run (Option Secret)
  certificate_of none = done none
  certificate_of (some name) = elim (lookup_client_certificate name) [
    | none ↦ refuse "TLSError" "SecretNotValid"
    | some secret ↦ done (some secret)
  ]

  unfoldable pub slow_start_of : Text → Option SlowStartSpec → Run (Option SlowStartConfig)
  unfolding slow_start_config
  slow_start_of lb_policy none = done none
  slow_start_of lb_policy (some spec) =
      if nonempty lb_policy
        && not (text_eq lb_policy (codes "RoundRobin"))
        && not (text_eq lb_policy (codes "WeightedLeastRequest"))
      then refuse "ServiceError" "SlowStartInvalid"
      else (elim (slow_start_config spec) [
        | none ↦ refuse "ServiceError" "SlowStartInvalid"
        | some config ↦ done (some config)
      ])

  -- What the route gives to all its clusters.
  pub record RouteDefaults : Type 0 where
    pub namespace : Text
    pub lb_policy : Text
    pub health_policy : Option HttpHealthCheckPolicy
    pub request_headers : Option HeadersPolicy
    pub timeouts : ClusterTimeoutPolicy

  -- The round for a service that was found: its cluster.
  unfoldable pub cluster_of :
      ClusterConfig → RouteDefaults → List (Text × Text) → ServiceSpec → Service → Run Cluster
  unfolding limited validation_of certificate_of slow_start_of
  cluster_of config route dynamic_headers service found = do
    let s = limited config.global_circuit_breaker_defaults found
    protocol ← required (get_protocol service.protocol s) "ServiceError" "UnsupportedProtocol"
    uv ← validation_of protocol service.upstream_validation route.namespace
    request ←
        value
          (headers_policy_service lib config.request_headers_policy service.request_headers_policy
            true dynamic_headers)
          "ServiceError" "RequestHeadersPolicyInvalid"
    response ←
        value
          (headers_policy_service lib config.response_headers_policy service.response_headers_policy
            false dynamic_headers)
          "ServiceError" "ResponseHeadersPolicyInvalid"
    cookies ←
        value (cookie_rewrite_policies service.cookie_rewrite_policies) "RouteError"
          "CookieRewritePoliciesInvalid"
    certificate ← certificate_of config.client_certificate
    slow_start ← slow_start_of route.lb_policy service.slow_start_policy
    done (record {
      upstream = s;
      load_balancer_policy = route.lb_policy;
      weight = uint32 service.weight;
      http_health_check_policy = route.health_policy;
      upstream_validation = uv;
      request_headers_policy = request;
      response_headers_policy = response;
      cookie_rewrite_policies = cookies;
      protocol = protocol;
      sni = determine_sni route.request_headers request s;
      client_certificate = certificate;
      timeout_policy = route.timeouts;
      slow_start_config = slow_start;
    })

  pub record MirrorPolicy : Type 0 where
    pub cluster : Cluster
    pub weight : ℤ

  -- The variables of the loop: `r.Clusters`, `r.MirrorPolicies` and `dynamicHeaders`.
  pub record Targets : Type 0 where
    pub clusters : List Cluster
    pub mirror_policies : List MirrorPolicy
    pub dynamic_headers : List (Text × Text)

  -- What is done with the cluster.
  unfoldable pub add_cluster : ServiceSpec → Cluster → Targets → Run Targets
  add_cluster service c t =
      if service.mirror
      then (elim t.mirror_policies [
        | m ∷ ms ↦ refuse "ServiceError" "OnlyOneMirror"
        | [] ↦ done (record t {
          mirror_policies =
              record {
                cluster = c;
                weight = (if is_zero service.weight then pos 100 else service.weight);
              }
              ∷ [];
        })
      ])
      else done (record t { clusters = t.clusters ++ c ∷ [] })
    where
      is_zero : ℤ → Bool
      is_zero (pos n) = n == 0
      is_zero (negsuc n) = false

  -- One round of the loop; a service that is not found is reported and skipped.
  unfoldable pub add_service : ClusterConfig → RouteDefaults → Targets → ServiceSpec → Run Targets
  unfolding cluster_of add_cluster health_port_of
  add_service config route t service =
      let m : NamespacedName = record { namespace = route.namespace; name = service.name } in
      let dynamic_headers =
        insert text_eq (codes "CONTOUR_SERVICE_PORT") (itoa service.port)
          (insert text_eq (codes "CONTOUR_SERVICE_NAME") service.name t.dynamic_headers) in
      if below service.port 1 || above service.port 65535
      then refuse "ServiceError" "ServicePortInvalid"
      else (elim (ensure_service m service.port (health_port_of route.health_policy service)) [
        | none ↦ λ dc.
            done t (add_error (codes "ServiceError") (codes "ServiceUnresolvedReference") [] dc)
        | some found ↦ do
          c ← cluster_of config route dynamic_headers service found
          add_cluster service c (record t { dynamic_headers = dynamic_headers })
      ])

  unfoldable pub add_services :
      ClusterConfig → RouteDefaults → Targets → List ServiceSpec → Run Targets
  unfolding add_service
  add_services config route t [] = done t
  add_services config route t (service ∷ services) = do
    t' ← add_service config route t service
    add_services config route t' services
