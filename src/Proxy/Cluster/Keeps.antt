-- ===== src/Proxy/Cluster/Keeps.antt =====
-- What errors keep of the condition, the checks of a service keep.
use contour.Prelude.{
  true, false, ◌||◌, Option, none, some, List, [], ◌∷◌, arith, Text, codes, text_eq, insert,
}
use contour.Status.Detailed.{DetailedCondition, add_error}
use contour.Status.Updates.{NamespacedName}
use contour.Policy.Service.{headers_policy_service}
use contour.Policy.Cookies.{cookie_rewrite_policies}
use contour.Policy.Settings.{below, above}
use contour.Proxy.Monad.{done}
use contour.Proxy.Monad.Keeps.{
  if-Keeps, option-Keeps, IsStable, Keeps, bind-Keeps, done-Keeps, refuse-Keeps, value-Keeps,
  required-Keeps, error_on,
}
use contour.Proxy.Source.{Service, Externals, Backend}
use contour.Proxy.Actions.{get_protocol}
use contour.Proxy.Cluster.{
  ClusterConfig, ServiceSpec, Cluster, RouteDefaults, Targets, limited, validation_of,
  certificate_of, slow_start_of, cluster_of, add_cluster, add_service, add_services, SlowStartSpec,
  health_port_of,
}

module _ {ℓ} (P Q : DetailedCondition → Type ℓ) (stable : IsStable P Q) where
  module _ (ext : Externals) (backend : Backend) where
    open backend use {
      Validation, PeerValidation, Secret, lookup_upstream_validation, lookup_client_certificate,
      ensure_service,
    }

    validation_of-Keeps :
        (protocol : Text) (v : Option Validation) (namespace : Text)
        → Keeps P Q (validation_of ext backend protocol v namespace)
    unfolding validation_of
    validation_of-Keeps protocol none namespace = record { apply = λ dc p. p }
    validation_of-Keeps protocol (some v) namespace = record {
      apply = λ dc p. ground (
        arith,
        stable.error (codes "TLSError") (codes "CACertificateNotDelegated") [] dc p,
        stable.error (codes "ServiceError") (codes "TLSUpstreamValidation") [] dc p,
        p,
      );
    }

    certificate_of-Keeps :
        (name : Option NamespacedName) → Keeps P Q (certificate_of ext backend name)
    unfolding certificate_of
    certificate_of-Keeps none = record { apply = λ dc p. p }
    certificate_of-Keeps (some name) =
        option-Keeps P Q (lookup_client_certificate name) _ _
          (refuse-Keeps P Q stable (Option Secret) "TLSError" "SecretNotValid")
          (λ secret. record { apply = λ dc p. p })

    slow_start_of-Keeps :
        (lb_policy : Text) (spec : Option SlowStartSpec)
        → Keeps P Q (slow_start_of ext backend lb_policy spec)
    unfolding slow_start_of
    slow_start_of-Keeps lb_policy none = record { apply = λ dc p. p }
    slow_start_of-Keeps lb_policy (some spec) = record {
      apply = λ dc p.
          ground (arith, stable.error (codes "ServiceError") (codes "SlowStartInvalid") [] dc p, p);
    }

    module _ (config : ClusterConfig) (route : RouteDefaults ext backend) where
      cluster_of-Keeps :
          (dynamic_headers : List (Text × Text)) (service : ServiceSpec ext backend)
          (found : Service)
          → Keeps P Q (cluster_of ext backend config route dynamic_headers service found)
      unfolding cluster_of
      cluster_of-Keeps dynamic_headers service found =
          bind-Keeps P Q _ _
            (required-Keeps P Q stable
              (get_protocol service.protocol
                (limited ext backend config.global_circuit_breaker_defaults found))
              "ServiceError" "UnsupportedProtocol")
            λ protocol.
              bind-Keeps P Q _ _
                (validation_of-Keeps protocol service.upstream_validation route.namespace)
                λ uv.
                  bind-Keeps P Q _ _
                    (value-Keeps P Q stable
                      (headers_policy_service ext.lib config.request_headers_policy
                        service.request_headers_policy true dynamic_headers)
                      "ServiceError" "RequestHeadersPolicyInvalid")
                    λ request.
                      bind-Keeps P Q _ _
                        (value-Keeps P Q stable
                          (headers_policy_service ext.lib config.response_headers_policy
                            service.response_headers_policy false dynamic_headers)
                          "ServiceError" "ResponseHeadersPolicyInvalid")
                        λ response.
                          bind-Keeps P Q _ _
                            (value-Keeps P Q stable
                              (cookie_rewrite_policies service.cookie_rewrite_policies) "RouteError"
                              "CookieRewritePoliciesInvalid")
                            λ cookies.
                              bind-Keeps P Q _ _ (certificate_of-Keeps config.client_certificate)
                                λ certificate.
                                  bind-Keeps P Q _ _
                                    (slow_start_of-Keeps route.lb_policy service.slow_start_policy)
                                    λ slow_start. done-Keeps P Q _

      add_cluster-Keeps :
          (service : ServiceSpec ext backend) (c : Cluster ext backend) (t : Targets ext backend)
          → Keeps P Q (add_cluster ext backend service c t)
      unfolding add_cluster
      add_cluster-Keeps service c t = record {
        apply = λ dc p.
            ground (arith, stable.error (codes "ServiceError") (codes "OnlyOneMirror") [] dc p, p);
      }

      add_service-Keeps :
          (t : Targets ext backend) (service : ServiceSpec ext backend)
          → Keeps P Q (add_service ext backend config route t service)
      unfolding add_service
      add_service-Keeps t service =
          let dynamic_headers =
            insert text_eq (codes "CONTOUR_SERVICE_PORT") (ext.itoa service.port)
              (insert text_eq (codes "CONTOUR_SERVICE_NAME") service.name t.dynamic_headers) in
          if-Keeps P Q (below service.port 1 || above service.port 65535) _ _
            (refuse-Keeps P Q stable (Targets ext backend) "ServiceError" "ServicePortInvalid")
            (option-Keeps P Q
              (ensure_service (record { namespace = route.namespace; name = service.name })
                service.port (health_port_of ext backend route.health_policy service))
              (λ dc.
                done t
                  (add_error (codes "ServiceError") (codes "ServiceUnresolvedReference") [] dc))
              _ (record { apply = error_on P Q stable "ServiceError" "ServiceUnresolvedReference" })
              λ found.
                bind-Keeps P Q _ _ (cluster_of-Keeps dynamic_headers service found)
                  λ c. add_cluster-Keeps service c (record t { dynamic_headers = dynamic_headers }))

      pub add_services-Keeps :
          (t : Targets ext backend) (services : List (ServiceSpec ext backend))
          → Keeps P Q (add_services ext backend config route t services)
      unfolding add_services
      add_services-Keeps t [] = record { apply = λ dc p. p }
      add_services-Keeps t (service ∷ services) =
          bind-Keeps P Q _ _ (add_service-Keeps t service) λ t'. add_services-Keeps t' services
