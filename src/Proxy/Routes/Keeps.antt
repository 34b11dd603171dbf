-- ===== src/Proxy/Routes/Keeps.antt =====
-- What errors and warnings keep of the condition, the checks of a route and of its services keep.
use contour.Prelude.{
  Bool, true, false, Option, none, some, List, [], ◌∷◌, arith, Text, codes, if◌then◌else◌,
}
use contour.Conditions.Types.{PathMatchCondition, prefix_match, exact_match, regex_match}
use contour.Conditions.Path.{nonempty}
use contour.Status.Detailed.{DetailedCondition}
use contour.Policy.Cookies.{ReplacePrefix}
use contour.Proxy.Monad.Keeps.{
  if-Keeps, Reported, IsStable, Keeps, bind-Keeps, done-Keeps, refuse-Keeps, no_error-Keeps,
  value-Keeps, unless_bad-Keeps, warn-Keeps, After,
}
use contour.Proxy.Source.{Externals, Backend}
use contour.Proxy.Filters.{to_ip_filter_rules}
use contour.Proxy.Route.{RouteConfig, JwtPolicy, rewrite_of, jwt_provider_of}
use contour.Proxy.Routes.{RouteSpec, Place, ip_filters, route_of}
use contour.Proxy.Cluster.Keeps.{add_services-Keeps}
use contour.Proxy.Filters.Keeps.{to_ip_filter_rules-Reported}

module _ {ℓ} (P Q : DetailedCondition → Type ℓ) (stable : IsStable P Q) where
  rewrite_of-Keeps :
      (path : PathMatchCondition) (rs : List ReplacePrefix) → Keeps P Q (rewrite_of path rs)
  unfolding rewrite_of
  rewrite_of-Keeps path [] = record { apply = λ dc p. p }
  rewrite_of-Keeps (prefix_match s kind) (r ∷ rs) = record {
    apply = λ dc p. ground (
      arith,
      stable.error (codes "PrefixReplaceError") (codes "DuplicateReplacement") [] dc p,
      stable.error (codes "PrefixReplaceError") (codes "AmbiguousReplacement") [] dc p,
      p,
    );
  }
  rewrite_of-Keeps (exact_match s) (r ∷ rs) = record {
    apply = λ dc p. stable.error (codes "PrefixReplaceError") (codes "MustHavePrefix") [] dc p;
  }
  rewrite_of-Keeps (regex_match s) (r ∷ rs) = record {
    apply = λ dc p. stable.error (codes "PrefixReplaceError") (codes "MustHavePrefix") [] dc p;
  }

  jwt_provider_of-Keeps :
      (jwt : Option JwtPolicy) (default : Text) → Keeps P Q (jwt_provider_of jwt default)
  unfolding jwt_provider_of
  jwt_provider_of-Keeps none default = record { apply = λ dc p. p }
  jwt_provider_of-Keeps (some jwt) default =
      if-Keeps P Q (nonempty jwt.required) _ _
        (if-Keeps P Q jwt.disabled _ _
          (refuse-Keeps P Q stable Text "JWTVerificationError" "InvalidJWTVerificationPolicy")
          (record { apply = λ dc p. p }))
        (if-Keeps P Q jwt.disabled _ _ (record { apply = λ dc p. p })
          (record { apply = λ dc p. p }))

  module _ (ext : Externals) (backend : Backend) where
    abbrev stop_if {κ} : {A : Type κ} → Bool → DetailedCondition → A → DetailedCondition × Option A
    stop_if err dc v = if err then (dc, none) else (dc, some v)

    stop_if-After {κ} :
        {A : Type κ} (err : Bool) (dc : DetailedCondition) (v : A)
        → Reported P Q err dc
        → After P Q (stop_if err dc v).0 (stop_if err dc v).1
    stop_if-After true dc v q = q
    stop_if-After false dc v p = p

    ip_filters-Keeps : (route : RouteSpec ext backend) → Keeps P Q (ip_filters ext backend route)
    unfolding ip_filters
    ip_filters-Keeps route = record {
      apply = λ dc p.
          let result =
            to_ip_filter_rules ext route.ip_allow_filter_policy route.ip_deny_filter_policy dc in
          stop_if-After result.2 result.3 (result.0, result.1)
            (to_ip_filter_rules-Reported P Q stable ext backend route.ip_allow_filter_policy
              route.ip_deny_filter_policy dc p);
    }

    pub route_of-Keeps :
        (config : RouteConfig) (place : Place) (dynamic_headers : List (Text × Text))
        (route : RouteSpec ext backend)
        → Keeps P Q (route_of ext backend config place dynamic_headers route)
    unfolding route_of
    route_of-Keeps config place dynamic_headers route =
        bind-Keeps P Q _ _ (unless_bad-Keeps P Q stable _ "RouteError" "RouteActionCountNotValid")
          λ u1.
            bind-Keeps P Q _ _
              (no_error-Keeps P Q stable _ "RouteError" "PathMatchConditionsNotValid")
              λ u2.
                bind-Keeps P Q _ _
                  (no_error-Keeps P Q stable _ "RouteError" "HeaderMatchConditionsNotValid")
                  λ u3.
                    bind-Keeps P Q _ _
                      (no_error-Keeps P Q stable _ "RouteError"
                        "QueryParameterMatchConditionsNotValid")
                      λ u4.
                        bind-Keeps P Q _ _
                          (value-Keeps P Q stable _ "RouteError" "RequestHeadersPolicyInvalid")
                          λ request.
                            bind-Keeps P Q _ _
                              (value-Keeps P Q stable _ "RouteError" "ResponseHeaderPolicyInvalid")
                              λ response.
                                bind-Keeps P Q _ _
                                  (value-Keeps P Q stable _ "RouteError"
                                    "CookieRewritePoliciesInvalid")
                                  λ cookies.
                                    bind-Keeps P Q _ _
                                      (value-Keeps P Q stable _ "RouteError"
                                        "TimeoutPolicyNotValid")
                                      λ timeouts.
                                        bind-Keeps P Q _ _
                                          (value-Keeps P Q stable _ "RouteError"
                                            "RateLimitPolicyNotValid")
                                          λ limits.
                                            bind-Keeps P Q _ _
                                              (warn-Keeps P Q stable _ "SpecError" "IgnoredField")
                                              λ u5.
                                                bind-Keeps P Q _ _
                                                  (value-Keeps P Q stable _ "RouteError"
                                                    "RequestRedirectPolicy")
                                                  λ redirect.
                                                    bind-Keeps P Q _ _ (rewrite_of-Keeps _ _)
                                                      λ rewrite.
                                                        bind-Keeps P Q _ _
                                                          (value-Keeps P Q stable _ "RouteError"
                                                            "HealthCheckPolicyInvalid")
                                                          λ health.
                                                            bind-Keeps P Q _ _
                                                            (add_services-Keeps P Q stable ext
                                                            backend config.clusters _ _ _)
                                                            λ targets.
                                                            bind-Keeps P Q _ _
                                                            (jwt_provider_of-Keeps _ _)
                                                            λ jwt.
                                                            bind-Keeps P Q _ _
                                                            (ip_filters-Keeps route)
                                                            λ filters. done-Keeps P Q _
