-- ===== src/Lib.antt =====
-- Contour turns Kubernetes objects (HTTPProxy, Ingress, Gateway API) into a DAG of virtual hosts
-- and routes, and the DAG into configuration that Envoy fetches over xDS. This library models parts
-- of that path and proves what makes them correct.
--
-- How the parts interact: the informers hand objects to the event handler
-- (internal/contour/handler.go), which inserts them into a cache and, after a holdoff, has the DAG
-- builder build and publish a DAG. The processors of internal/dag validate and merge the match
-- conditions of HTTPProxies (internal/dag/conditions.go), read timeouts from text
-- (internal/timeout/timeout.go) and turn what the objects say of headers, rate limits, cookies,
-- balancing and retries into the policies of routes (internal/dag/policy.go). The HTTPProxy
-- processor (internal/dag/httpproxy_processor.go) walks from a root proxy through its includes,
-- makes the routes with these parts, and commits a verdict on every proxy to the status cache
-- (internal/status). For a Gateway the listeners are validated first
-- (internal/gatewayapi/listeners.go). Routes, headers and clusters are put in order
-- (internal/sorter/sorter.go) before they reach Envoy, and the xDS side waits for changes on a
-- condition variable (internal/contour/cond.go).
--
-- Files:
--   Prelude             shared names, Boolean tests, lists, byte strings, comparisons and orders
--   Conditions/Types    MatchCondition, HeaderMatchCondition, QueryParameterMatchCondition of
--                       apis/projectcontour/v1/httpproxy.go and the DAG's conditions, internal/dag/dag.go
--   Conditions/Path     mergePathMatchConditions, pathMatchConditionsValid, includeMatchConditionsValid
--   Conditions/Header   mergeHeaderMatchConditions, headerMatchConditions, headerMatchConditionsValid
--   Conditions/Query    mergeQueryParamMatchConditions, queryParameterMatchConditions,
--                       queryParameterMatchConditionsValid
--   Sorter              the Less methods of internal/sorter/sorter.go; Sorter/Keys and Sorter/Routes give
--                       the orders they mean, Sorter/Order compares the two
--   Timeout             Setting, Parse and ParseMaxAge of internal/timeout/timeout.go
--   Rendezvous          Cond, Register and Notify of internal/contour/cond.go
--   Handler             onUpdate, incSequence and the select of Start, internal/contour/handler.go
--   Listeners           ValidateListeners, toContainerPort and IsValidHostname of
--                       internal/gatewayapi/listeners.go
--   Policy              policies of internal/dag/policy.go: Policy/Headers headersPolicyRoute, Policy/Escape
--                       escapeHeaderValue, Policy/RateLimit rateLimitPolicy and its two parts, Policy/Cookies
--                       cookieRewritePolicies and prefixReplacementsAreValid, Policy/Balance
--                       loadBalancerRequestHashPolicies, Policy/Settings retryPolicy, timeoutPolicy, the
--                       expected statuses of httpHealthCheckPolicy, serviceCircuitBreakerPolicy;
--                       Policy/Loops the loops with an early return that they share;
--                       Policy/Service headersPolicyService, Policy/Health httpHealthCheckPolicy
--   Status/Detailed     DetailedCondition and its methods, apis/projectcontour/v1/helpers.go
--   Status/Updates      ProxyUpdate (internal/status/proxystatus.go) and ProxyAccessor with its commit
--                       function (internal/status/cache.go)
--   Proxy               computeRoutes of internal/dag/httpproxy_processor.go: Proxy/Traverse the includes
--                       and the loop over the routes, Proxy/Routes one route, Proxy/Route and Proxy/Actions
--                       its parts, Proxy/Cluster one service, Proxy/Filters toIPFilterRules,
--                       Proxy/Identical includeMatchConditionsIdentical, Proxy/Expand expandPrefixMatches;
--                       Proxy/Monad the checks that report on a condition and may return,
--                       Proxy/Source what they call elsewhere
--   Gateway             internal/dag/gatewayapi_processor.go: Gateway/Hosts computeHosts, Gateway/Matches
--                       gatewayPathMatchCondition, gatewayHeaderMatchConditions and
--                       gatewayQueryParamMatchConditions, Gateway/Timeouts parseHTTPRouteTimeouts
--   Tests               runs on concrete inputs and instances of the theorems
-- A function keeps the name of the Go function in snake case, a method its receiver's subject; a loop
-- is a function of its own over its variables, and a Go map is a list of its entries, iterated in
-- their order: the groups of expandPrefixMatches and the conditions of an update are taken in the order
-- in which they were first put in.
--
-- Strings are lists of bytes. strings.ToLower and strings.ToUpper are modelled on ASCII. What is
-- not under the repository enters as a parameter: regexp.Compile, time.ParseDuration, the judges of
-- host names, what the header policies call of net/http, regexp and Kubernetes (the record
-- Library), and for HTTPProxies the libraries of the record Externals. The cache and the DAG
-- builder that the event handler calls are the interface Builder, of which no law is assumed.
-- Whether an event changed the cache is what the cache reports; that it reports every change is not
-- assumed. The lookups of services, validations and secrets (internal/dag/accessors.go and
-- cache.go) are the interface Backend, by functions that do not change during a traversal; fields
-- that are only copied from an object to a cluster or route are left out. Ports are natural numbers
-- in the range that the Gateway API admits, so that no sum overflows an int32; the sums and
-- conversions to uint32 of the policies keep their wrap-around. All recursion is on lists but for
-- computeRoutes, which follows includes with fuel (one more than the number of HTTPProxies is
-- enough, since each call around another visits a different proxy), and for the printing of a port,
-- which has fuel for the ten digits that an int32 can have.
--
-- Not modelled: messages of errors and conditions, logging, metrics, the Kubernetes cache, virtual
-- hosts, TCP proxies, the assembly of routes from Gateway API objects and the processors of
-- Ingresses and listeners, the generation of Envoy resources, the provisioner, configuration files
-- and commands.
pub mod Prelude
pub mod Conditions
pub mod Sorter
pub mod Timeout
pub mod Rendezvous
pub mod Handler
pub mod Listeners
pub mod Policy
pub mod Status
pub mod Proxy
pub mod Gateway
mod Tests
