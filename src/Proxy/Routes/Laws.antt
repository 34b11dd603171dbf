-- ===== src/Proxy/Routes/Laws.antt =====
-- What a route that is accepted matches and how it answers.
use contour.Prelude.{Option, refl, inr, ◌≡◌, true, ◌||◌, none, some, List, ◌++◌, arith, Text}
use contour.Conditions.Path.{merge_path_match_conditions, path_match_conditions_valid}
use contour.Conditions.Header.{merge_header_match_conditions, header_match_conditions_valid}
use contour.Conditions.Query.{
  merge_query_param_match_conditions, query_parameter_match_conditions_valid,
}
use contour.Proxy.Monad.Ensures.{
  Ensures, Ensures-result, bind-Ensures, then-Ensures, done-Ensures, no_error-Ensures,
  value-Ensures,
}
use contour.Proxy.Cluster.{Cluster}
use contour.Status.Detailed.{DetailedCondition}
use contour.Proxy.Source.{Externals, Backend}
use contour.Proxy.Actions.{Redirect, redirect_route_policy, direct_response_policy}
use contour.Proxy.Route.{RouteConfig}
use contour.Proxy.Routes.{
  RouteSpec, DagRoute, Place, route_of, is_some, is_cons, or_unavailable, host_headers,
}

module _ (ext : Externals) (backend : Backend) where
  open ext use {compiles}

  module _ (config : RouteConfig) (place : Place) where
    -- What is said of an accepted route: its conditions are valid and are those of the includes and
    -- its own merged, and it has something to answer with.
    pub record IsAccepted (route : RouteSpec ext backend) (r : DagRoute ext backend) : Type 0 where
      pub path : r.path ≡ merge_path_match_conditions (place.conditions ++ route.conditions)
      pub headers :
          r.headers
          ≡ host_headers ext backend place.root.fqdn
              (merge_header_match_conditions (place.conditions ++ route.conditions))
      pub query_params :
          r.query_params ≡ merge_query_param_match_conditions (place.conditions ++ route.conditions)
      pub path_valid : path_match_conditions_valid compiles route.conditions ≡ none
      pub headers_valid :
          header_match_conditions_valid compiles (place.conditions ++ route.conditions) ≡ none
      pub query_valid :
          query_parameter_match_conditions_valid compiles (place.conditions ++ route.conditions)
          ≡ none
      pub answers : (is_cons r.clusters || is_some r.redirect || is_some r.direct_response) ≡ true

    module _ (dynamic_headers : List (Text × Text)) (route : RouteSpec ext backend) where
      redirect-is_some :
          (redirect : Option Redirect)
          → redirect_route_policy route.request_redirect_policy ≡ inr redirect
          → is_some redirect ≡ is_some route.request_redirect_policy
      unfolding redirect_route_policy
      redirect-is_some redirect e = ground arith

      -- What a route answers with, by its clusters and its redirect.
      answers_always :
          (clusters : List (Cluster ext backend)) (redirect : Option Redirect)
          → redirect_route_policy route.request_redirect_policy ≡ inr redirect
          → (is_cons clusters
              || is_some redirect
              || is_some (
                  or_unavailable ext backend route clusters
                    (direct_response_policy route.direct_response_policy)))
            ≡ true
      unfolding or_unavailable direct_response_policy
      answers_always clusters redirect e = ground (arith, redirect-is_some redirect e)

      abbrev Made : DagRoute ext backend × List (Text × Text) → Type 0
      Made (r, after) = IsAccepted route r

      route_of-Ensures : Ensures Made (route_of ext backend config place dynamic_headers route)
      unfolding route_of
      route_of-Ensures = then-Ensures Made _ _ λ u1.
          bind-Ensures _ Made _ _ (no_error-Ensures _ "RouteError" "PathMatchConditionsNotValid")
            λ u2 path_valid.
              bind-Ensures _ Made _ _
                (no_error-Ensures _ "RouteError" "HeaderMatchConditionsNotValid")
                λ u3 headers_valid.
                  bind-Ensures _ Made _ _
                    (no_error-Ensures _ "RouteError" "QueryParameterMatchConditionsNotValid")
                    λ u4 query_valid. then-Ensures Made _ _ λ request.
                      then-Ensures Made _ _ λ response. then-Ensures Made _ _ λ cookies.
                        then-Ensures Made _ _ λ timeouts. then-Ensures Made _ _ λ limits.
                          then-Ensures Made _ _ λ u5.
                            bind-Ensures _ Made _ _
                              (value-Ensures _ "RouteError" "RequestRedirectPolicy")
                              λ redirect redirected. then-Ensures Made _ _ λ rewrite.
                                then-Ensures Made _ _ λ health. then-Ensures Made _ _ λ targets.
                                  then-Ensures Made _ _ λ jwt. then-Ensures Made _ _ λ filters.
                                    done-Ensures Made _ (record {
                                      path = refl;
                                      headers = refl;
                                      query_params = refl;
                                      path_valid = path_valid;
                                      headers_valid = headers_valid;
                                      query_valid = query_valid;
                                      answers = answers_always targets.clusters redirect redirected;
                                    })

      -- A round that makes a route makes it from valid conditions, with those of the includes and the
      -- route's own merged and the rule of a wildcard host added, and with clusters, a redirect or a
      -- direct response to answer with.
      pub route_of-IsAccepted :
          (dc dc' : DetailedCondition) (r : DagRoute ext backend) (after : List (Text × Text))
          → route_of ext backend config place dynamic_headers route dc ≡ (dc', some (r, after))
          → IsAccepted route r
      route_of-IsAccepted dc dc' r after e =
          Ensures-result Made (route_of ext backend config place dynamic_headers route) dc dc'
            (r, after) route_of-Ensures e
