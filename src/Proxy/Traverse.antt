-- ===== src/Proxy/Traverse.antt =====
-- `computeRoutes` of internal/dag/httpproxy_processor.go: the routes of an HTTPProxy and of those that
-- it includes.
pub mod Measure
pub mod Includes
pub mod Ends
pub mod Rounds
use contour.Prelude.{
  ℕ, zero, suc, Bool, true, false, not, ◌&&◌, Option, none, some, List, [], ◌∷◌, ◌++◌, Text, codes,
  text_eq, is_empty, if◌then◌else◌, any, find, filter,
}
use contour.Conditions.Types.{Condition}
use contour.Conditions.Path.{
  merge_path_match_conditions, path_match_conditions_valid, include_match_conditions_valid,
}
use contour.Conditions.Header.{merge_header_match_conditions, header_match_conditions_valid}
use contour.Conditions.Query.{
  merge_query_param_match_conditions, query_parameter_match_conditions_valid,
}
use contour.Timeout.{default_setting}
use contour.Status.Detailed.{DetailedCondition, add_error, valid_condition_type}
use contour.Status.Updates.{
  NamespacedName, same_name, ProxyUpdates, proxy_accessor, condition_for, on_condition, commit,
}
use contour.Proxy.Source.{Externals, Backend}
use contour.Proxy.Actions.{direct_response}
use contour.Proxy.Route.{RouteConfig, RootHost}
use contour.Proxy.Routes.{RouteSpec, DagRoute, Place, route_of, is_cons}
use contour.Proxy.Identical.{Seen, include_match_conditions_identical}
use contour.Proxy.Expand.{expand_prefix_matches}

-- `Include` of apis/projectcontour/v1/httpproxy.go.
pub record Include : Type 0 where
  pub name : Text
  pub namespace : Text
  pub conditions : List Condition

-- `none` for a panic is kept apart from the fuel that is used up.
pub data Outcome {ℓ} (A : Type ℓ) : Type ℓ where
  finished : A → Outcome A
  panicked exhausted : Outcome A

-- The variables outside one call: the status cache and `p.orphaned`.
pub record World : Type 0 where
  pub updates : ProxyUpdates
  pub orphaned : List NamespacedName

module _ (ext : Externals) (backend : Backend) where
  open ext use {compiles}

  -- An HTTPProxy, by whether it has a virtual host, its includes and its routes.
  pub record HttpProxy : Type 0 where
    pub name : NamespacedName
    pub generation : ℕ
    pub is_root : Bool
    pub includes : List Include
    pub routes : List (RouteSpec ext backend)

  -- What stays the same through a traversal; `now` is the time of the updates.
  pub record Traversal : Type 0 where
    pub proxies : List (NamespacedName × HttpProxy)
    pub config : RouteConfig
    pub root : RootHost
    pub enforce_tls : Bool
    pub default_jwt_provider : Text
    pub now : ℕ

  -- What one call gives back: the routes, its condition, and what it leaves outside.
  pub record Result : Type 0 where
    pub routes : List (DagRoute ext backend)
    pub condition : DetailedCondition
    pub world : World

  abbrev pub fail : Text → Text → DetailedCondition → DetailedCondition
  fail kind reason dc = add_error kind reason [] dc

  -- The error of an include's own conditions, if any.
  unfoldable pub check_include : List Condition → Option (Text × Text)
  check_include conds = elim (include_match_conditions_valid conds) [
    | some e ↦ some (codes "IncludeError", codes "PathMatchConditionsNotValid")
    | none ↦ elim (path_match_conditions_valid compiles conds) [
      | some e ↦ some (codes "IncludeError", codes "PathMatchConditionsNotValid")
      | none ↦ elim (header_match_conditions_valid compiles conds) [
        | some e ↦ some (codes "RouteError", codes "HeaderMatchConditionsNotValid")
        | none ↦ elim (query_parameter_match_conditions_valid compiles conds) [
          | some e ↦ some (codes "RouteError", codes "QueryParameterMatchConditionsNotValid")
          | none ↦ none
        ]
      ]
    ]
  ]

  -- `addStatusBadGatewayRoute`: what it appends.
  unfoldable pub bad_gateway_routes :
      RouteConfig → NamespacedName → List Condition → List (DagRoute ext backend)
  unfolding direct_response
  bad_gateway_routes config proxy [] = []
  bad_gateway_routes config proxy (c ∷ conds) =
      record {
        path = merge_path_match_conditions (c ∷ conds);
        headers = merge_header_match_conditions (c ∷ conds);
        query_params = merge_query_param_match_conditions (c ∷ conds);
        clusters = [];
        https_upgrade = false;
        auth_disabled = false;
        auth_context = [];
        websocket = false;
        timeout_policy = record {
          response_timeout = default_setting;
          idle_stream_timeout = default_setting;
        };
        retry_policy = none;
        path_rewrite_policy = none;
        mirror_policies = [];
        request_headers_policy = none;
        response_headers_policy = none;
        cookie_rewrite_policies = [];
        rate_limit_policy = none;
        ignores_vh_rate_limits = false;
        request_hash_policies = [];
        direct_response = some (direct_response 502 []);
        redirect = none;
        jwt_provider = [];
        internal_redirect_policy = none;
        ip_filter_allow = false;
        ip_filter_rules = [];
        source = (if config.set_source_metadata_on_routes then some proxy else none);
      }
      ∷ []

  -- `delete(p.orphaned, name)`.
  unfoldable pub adopt : NamespacedName → World → World
  adopt name w = record w { orphaned = filter (λ n. not (same_name n name)) w.orphaned }

  module _ (t : Traversal) where
    -- One call of `computeRoutes`, by the conditions, the proxy, its condition and the world.
    abbrev pub Visit : Type 0
    Visit = List Condition → HttpProxy → DetailedCondition → World → Outcome Result

    -- An included proxy that is there and no root: the call, and the commit of its status.
    unfoldable pub visit_include : Visit → List Condition → HttpProxy → World → Outcome Result
    unfolding adopt
    visit_include visit conditions included w =
        let pu = proxy_accessor included.name included.generation t.now in
        elim (visit conditions included (condition_for valid_condition_type pu).0 w) [
          | exhausted ↦ exhausted
          | panicked ↦ panicked
          | finished r ↦
              elim (commit (on_condition valid_condition_type (λ _. r.condition) pu)
                r.world.updates) [
                  | none ↦ panicked
                  | some updates ↦ finished (record r {
                    world = adopt included.name (record r.world { updates = updates });
                  })
                ]
        ]

    abbrev pub include_name : HttpProxy → Include → NamespacedName
    include_name proxy include = record {
      namespace = if is_empty include.namespace then proxy.name.namespace else include.namespace;
      name = include.name;
    }

    -- One round of the loop over the includes, on the routes, the condition and the world so far, and
    -- `seenConds`.
    unfoldable pub follow_include :
        Visit → List Condition → HttpProxy → Include → Result → Seen → Outcome (Result × Seen)
    unfolding check_include visit_include
    follow_include visit conditions proxy include acc seen =
        elim (check_include include.conditions) [
          | some (kind, reason) ↦
              finished (record acc { condition = fail kind reason acc.condition }, seen)
          | none ↦
              let (identical, seen') = include_match_conditions_identical include.conditions seen in
              if identical
              then finished (
                record acc {
                  condition =
                      fail (codes "IncludeError") (codes "DuplicateMatchConditions") acc.condition;
                },
                seen',
              )
              else (elim (find same_name (include_name proxy include) t.proxies) [
                | none ↦ finished (
                  record acc {
                    condition = fail (codes "IncludeError") (codes "IncludeNotFound") acc.condition;
                    routes =
                        acc.routes ++ bad_gateway_routes t.config proxy.name include.conditions;
                  },
                  seen',
                )
                | some included ↦
                    if included.is_root
                    then finished (
                      record acc {
                        condition =
                            fail (codes "IncludeError") (codes "RootIncludesRoot") acc.condition;
                        routes =
                            acc.routes ++ bad_gateway_routes t.config proxy.name include.conditions;
                      },
                      seen',
                    )
                    else (elim (visit_include visit (conditions ++ include.conditions) included
                        acc.world) [
                          | exhausted ↦ exhausted
                          | panicked ↦ panicked
                          | finished r ↦ finished (
                            record acc { routes = acc.routes ++ r.routes; world = r.world },
                            seen',
                          )
                        ])
              ])
        ]

    unfoldable pub follow_includes :
        Visit → List Condition → HttpProxy → List Include → Result → Seen → Outcome Result
    unfolding follow_include
    follow_includes visit conditions proxy [] acc seen = finished acc
    follow_includes visit conditions proxy (include ∷ includes) acc seen =
        elim (follow_include visit conditions proxy include acc seen) [
          | exhausted ↦ exhausted
          | panicked ↦ panicked
          | finished (acc', seen') ↦ follow_includes visit conditions proxy includes acc' seen'
        ]

    -- The loop over the routes, with `dynamicHeaders`; an error in one route drops all routes.
    unfoldable pub add_routes :
        List Condition
        → HttpProxy
        → List (RouteSpec ext backend)
        → List (Text × Text)
        → Result
        → Result
    add_routes conditions proxy [] dynamic_headers acc = record acc {
      routes = expand_prefix_matches ext backend acc.routes;
    }
    add_routes conditions proxy (route ∷ routes) dynamic_headers acc =
        let place : Place = record {
          root = t.root;
          proxy = proxy.name;
          conditions = conditions;
          enforce_tls = t.enforce_tls;
          default_jwt_provider = t.default_jwt_provider;
        } in
        let (dc, made) = route_of ext backend t.config place dynamic_headers route acc.condition in
        elim made [
          | none ↦ record acc { routes = []; condition = dc }
          | some (r, dynamic_headers') ↦
              add_routes conditions proxy routes dynamic_headers'
                (record acc { routes = acc.routes ++ r ∷ []; condition = dc })
        ]

    -- `computeRoutes`. Each call visits a proxy that no call around it visits.
    unfoldable pub compute_routes : ℕ → List NamespacedName → Visit
    unfolding follow_includes add_routes
    compute_routes zero visited conditions proxy dc w = exhausted
    compute_routes (suc fuel) visited conditions proxy dc w =
        if any (λ v. same_name v proxy.name) visited
        then finished (record {
          routes = [];
          condition = fail (codes "IncludeError") (codes "IncludeCreatesCycle") dc;
          world = w;
        })
        else (elim (follow_includes (compute_routes fuel (visited ++ proxy.name ∷ [])) conditions
            proxy proxy.includes (record { routes = []; condition = dc; world = w }) []) [
              | exhausted ↦ exhausted
              | panicked ↦ panicked
              | finished acc ↦ finished (
                  add_routes conditions proxy proxy.routes
                    ((codes "CONTOUR_NAMESPACE", proxy.name.namespace) ∷ []) acc)
            ])
