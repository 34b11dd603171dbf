-- ===== src/Tests/Proxy.antt =====
-- Runs of the routes of HTTPProxies on concrete inputs.
use contour.Prelude.{
  ℕ, ◌≡◌, refl, ◌⊎◌, inr, none, some, List, [], ◌∷◌, Text, codes, text_eq, find, true, false, arith,
}
use contour.Conditions.Types.{prefix_match, string}
use contour.Timeout.{Duration, default_setting}
use contour.Policy.Settings.{pos, CircuitBreakers}
use contour.Status.Detailed.{DetailedCondition, valid_condition_type}
use contour.Status.Detailed.Laws.{Fails}
use contour.Status.Updates.{NamespacedName, same_name, new_condition}
use contour.Proxy.Monad.{◌>>=◌, no_error, value, unless_bad, warn}
use contour.Proxy.Source.{Externals, Backend}
use contour.Proxy.Actions.{
  redirect_route_policy, direct_response_policy, direct_response, internal_redirect_policy,
  rate_limit_per_route, route_enforce_tls,
}
use contour.Proxy.Cluster.{add_services}
use contour.Conditions.Path.{merge_path_match_conditions, path_match_conditions_valid}
use contour.Conditions.Header.{merge_header_match_conditions, header_match_conditions_valid}
use contour.Conditions.Query.{
  merge_query_param_match_conditions, query_parameter_match_conditions_valid,
}
use contour.Policy.Headers.{headers_policy_route}
use contour.Policy.Cookies.{cookie_rewrite_policies}
use contour.Policy.Settings.{timeout_policy, retry_policy}
use contour.Policy.RateLimit.{rate_limit_policy}
use contour.Policy.Balance.{load_balancer_request_hash_policies}
use contour.Policy.Health.{http_health_check_policy}
use contour.Proxy.Route.{RouteConfig, RootHost, rewrite_of, jwt_provider_of, route_authorization}
use contour.Proxy.Routes.{
  RouteSpec, DagRoute, Place, route_of, host_headers, route_action_count_valid, or_unavailable,
  ip_filters,
}
use contour.Proxy.Routes.Laws.{IsAccepted, route_of-IsAccepted}
use contour.Proxy.Filters.{IpFilterPolicy, to_ip_filter_rules}
use contour.Proxy.Traverse.{
  Include, HttpProxy, Traversal, Result, World, finished, compute_routes, add_routes,
}
use contour.Proxy.Traverse.Includes.{IsSound}
use contour.Proxy.Traverse.Ends.{compute_routes-ends}
use contour.Proxy.Traverse.Rounds.{AllAccepted, add_routes-all_or_none}
use contour.Tests.Policy.{plain_library}

abbrev no_limits : CircuitBreakers
no_limits = record {
  max_connections = 0;
  max_pending_requests = 0;
  max_requests = 0;
  max_retries = 0;
  per_host_max_connections = 0;
}

-- Every expression compiles, no duration is read, and only "10.0.0.0/8" is a range.
abbrev externals : Externals
externals = record {
  lib = plain_library;
  compiles = λ s. true;
  quote_meta = λ s. s;
  parse_duration = λ s. none;
  Float = ℕ;
  one = 1;
  parse_float = λ s. none;
  Cidr = Text;
  parse_cidr = λ s. elim (text_eq s (codes "10.0.0.0/8")) [ true ↦ some s | false ↦ none ];
  itoa = λ n. codes "80";
}

-- Every service is there.
abbrev backend : Backend
backend = record {
  Validation = Unit;
  PeerValidation = Unit;
  Secret = Unit;
  ensure_service = λ m port health_port. some (record {
    upstream = m;
    port = port;
    health_port = health_port;
    protocol = [];
    circuit_breakers = no_limits;
    external_name = [];
  });
  lookup_upstream_validation = λ v namespace. inr tt;
  lookup_client_certificate = λ name. none;
}

abbrev config : RouteConfig
config = record {
  clusters = record {
    global_circuit_breaker_defaults = none;
    request_headers_policy = none;
    response_headers_policy = none;
    client_certificate = none;
  };
  connect_timeout = Duration.pos 0;
  disable_permit_insecure = false;
  set_source_metadata_on_routes = true;
  global_auth = none;
}

abbrev host : RootHost
host = record { fqdn = codes "a.com"; authorization = none }

-- A route with nothing set.
abbrev idle_route : RouteSpec externals backend
idle_route = record {
  conditions = [];
  services = [];
  enable_websockets = false;
  permit_insecure = false;
  auth_policy = none;
  timeout_policy = none;
  retry_policy = none;
  health_check_policy = none;
  load_balancer_policy = none;
  prefix_replacements = [];
  request_headers_policy = none;
  response_headers_policy = none;
  cookie_rewrite_policies = [];
  rate_limit_policy = none;
  request_redirect_policy = none;
  direct_response_policy = none;
  internal_redirect_policy = none;
  jwt_verification_policy = none;
  ip_allow_filter_policy = [];
  ip_deny_filter_policy = [];
}

abbrev direct_route : RouteSpec externals backend
direct_route = record idle_route { direct_response_policy = some (pos 200, codes "ok") }

abbrev root_name : NamespacedName
root_name = record { namespace = codes "ns"; name = codes "root" }

abbrev blog_name : NamespacedName
blog_name = record { namespace = codes "ns"; name = codes "blog" }

-- The root includes the blog, which includes itself and has a route that is not valid.
abbrev blog_include : Include
blog_include = record { name = codes "blog"; namespace = []; conditions = [] }

abbrev root : HttpProxy externals backend
root = record {
  name = root_name;
  generation = 1;
  is_root = true;
  includes = blog_include ∷ [];
  routes = direct_route ∷ [];
}

abbrev blog : HttpProxy externals backend
blog = record {
  name = blog_name;
  generation = 2;
  is_root = false;
  includes = blog_include ∷ [];
  routes = idle_route ∷ [];
}

abbrev traversal : Traversal externals backend
traversal = record {
  proxies = (root_name, root) ∷ (blog_name, blog) ∷ [];
  config = config;
  root = host;
  enforce_tls = true;
  default_jwt_provider = [];
  now = 7;
}

abbrev fresh : DetailedCondition
fresh = new_condition valid_condition_type 1

abbrev empty_world : World
empty_world = record { updates = []; orphaned = root_name ∷ blog_name ∷ [] }

root-known : find same_name root_name traversal.proxies ≡ some root
unfolding same_name text_eq
root-known = refl

ends_example :
    (r : Result externals backend) × (compute_routes externals backend traversal 3 [] [] root fresh
        empty_world
      ≡ finished r)
    × IsSound externals backend fresh r
ends_example =
    compute_routes-ends externals backend traversal (refl, (refl, tt)) 3 [] root fresh empty_world
      (omega arith) root-known tt

abbrev nothing : Result externals backend
nothing = record { routes = []; condition = fresh; world = empty_world }

rounds_example :
    ((add_routes externals backend traversal [] blog
          (direct_route ∷ idle_route ∷ [])
          []
          nothing).routes
        ≡ []
      × Fails fresh
          (add_routes externals backend traversal [] blog
            (direct_route ∷ idle_route ∷ [])
            []
            nothing).condition)
    ⊎ AllAccepted externals backend traversal [] blog
        (direct_route ∷ idle_route ∷ [])
        fresh
        nothing
        (add_routes externals backend traversal [] blog (direct_route ∷ idle_route ∷ []) [] nothing)
rounds_example =
    add_routes-all_or_none externals backend traversal [] blog (direct_route ∷ idle_route ∷ []) []
      nothing

abbrev root_place : Place
root_place = record {
  root = host;
  proxy = root_name;
  conditions = [];
  enforce_tls = true;
  default_jwt_provider = [];
}

abbrev made_route : DagRoute externals backend
made_route = record {
  path = prefix_match (codes "/") string;
  headers = [];
  query_params = [];
  clusters = [];
  https_upgrade = true;
  auth_disabled = false;
  auth_context = [];
  websocket = false;
  timeout_policy = record {
    response_timeout = default_setting;
    idle_stream_timeout = default_setting;
  };
  retry_policy = none;
  path_rewrite_policy = none;
  mirror_policies = [];
  request_headers_policy = none;
  response_headers_policy = none;
  cookie_rewrite_policies = [];
  rate_limit_policy = none;
  ignores_vh_rate_limits = false;
  request_hash_policies = [];
  direct_response = some (record { status_code = 200; body = codes "ok" });
  redirect = none;
  jwt_provider = [];
  internal_redirect_policy = none;
  ip_filter_allow = false;
  ip_filter_rules = [];
  source = some root_name;
}

direct_route_made :
    route_of externals backend config root_place [] direct_route fresh
    ≡ (fresh, some (made_route, []))
unfolding route_of ◌>>=◌ no_error value unless_bad warn path_match_conditions_valid
    header_match_conditions_valid query_parameter_match_conditions_valid headers_policy_route
    cookie_rewrite_policies timeout_policy rate_limit_policy load_balancer_request_hash_policies
    redirect_route_policy http_health_check_policy add_services direct_response_policy
    direct_response internal_redirect_policy retry_policy rate_limit_per_route route_enforce_tls
    host_headers route_action_count_valid or_unavailable merge_path_match_conditions
    merge_header_match_conditions merge_query_param_match_conditions rewrite_of jwt_provider_of
    ip_filters to_ip_filter_rules route_authorization
direct_route_made = refl

accepted_example : IsAccepted externals backend config root_place direct_route made_route
accepted_example =
    route_of-IsAccepted externals backend config root_place [] direct_route fresh fresh made_route
      [] direct_route_made

-- An allow list with a range that cannot be parsed before one that can is shortened without an error.
abbrev allowed : List IpFilterPolicy
allowed =
    record { remote = true; cidr = codes "10.0.0.0/99" }
    ∷ record { remote = true; cidr = codes "10.0.0.0/8" }
    ∷ []

ip_filter_tests :
    ((to_ip_filter_rules externals allowed [] fresh).2 ≡ false)
    × ((to_ip_filter_rules externals allowed [] fresh).1
        ≡ record { remote = true; cidr = codes "10.0.0.0/8" } ∷ [])
unfolding to_ip_filter_rules text_eq
ip_filter_tests = (refl, refl)
