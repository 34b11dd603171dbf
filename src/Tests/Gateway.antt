-- ===== src/Tests/Gateway.antt =====
-- Gateway listeners.
use contour.Prelude.{
  ℕ, ◌≡◌, ◌↔◌, refl, true, false, ◌||◌, none, [], ◌∷◌, Text, codes, text_eq, All, Pairs, is_empty,
  length, List, Option, some, inl, inr, any, if◌then◌else◌,
}
use contour.Conditions.Types.{HeaderMatchCondition, prefix_match, segment}
use contour.Timeout.{Duration, pos, Setting, duration, disabled_setting, parse}
use contour.Gateway.Hosts.{
  compute_hosts, host_for, other_listener_intersection, hostname_matches_wildcard_hostname,
}
use contour.Gateway.Hosts.Laws.{covers, IsWithin, compute_hosts-IsWithin}
use contour.Gateway.Hosts.Complete.{names, compute_hosts-serves}
use contour.Gateway.Matches.{
  PathMatch, NameMatch, matched, gateway_path_match_condition, header_condition,
  gateway_header_match_conditions,
}
use contour.Gateway.Matches.Laws.{
  IsPath, gateway_path_match_condition-IsPath, Apart, gateway_header_match_conditions-Apart,
}
use contour.Gateway.Timeouts.{
  parse_timeout, IsAdmitted, backend_too_long, parse_http_route_timeouts,
  parse_http_route_timeouts_iff,
}
use contour.Listeners.{
  Listener, Protocol, http, https, tcp, HostnameRules, check_listener, validate_listeners,
  envoy_listener_name, is_valid_hostname, hostname_of, is_supported,
}
use contour.Listeners.Laws.{IsCompatible, check_listener_iff}
use contour.Listeners.Result.{IsOpenedFor, Differ, validate_listeners_distinct}
use contour.Listeners.Complete.{IsRecorded, validate_listeners_complete}

abbrev rules : HostnameRules
rules = record { is_ip = λ h. false; is_wildcard_subdomain = λ h. true; is_subdomain = λ h. true }

abbrev listener : Text → ℕ → Protocol → Listener
listener name port protocol = record {
  name = name;
  hostname = none;
  port = port;
  protocol = protocol;
}

abbrev web : Listener
web = listener (codes "web") 80 http

abbrev secure : Listener
secure = listener (codes "secure") 443 https

abbrev clash : Listener
clash = listener (codes "clash") 80 tcp

check_example : (check_listener rules (web ∷ []) secure ≡ none) ↔ (
    ((is_empty (hostname_of secure) || is_valid_hostname rules (hostname_of secure)) ≡ true)
    × (is_supported secure.protocol ≡ true)
    × All (IsCompatible secure) (web ∷ []))
check_example = check_listener_iff rules (web ∷ []) secure

result_tests :
    (envoy_listener_name secure ≡ codes "https-443")
    × (length (validate_listeners rules (web ∷ clash ∷ secure ∷ [])).ports ≡ 2)
    × (length (validate_listeners rules (web ∷ clash ∷ secure ∷ [])).invalid_listener_conditions
        ≡ 1)
unfolding validate_listeners text_eq envoy_listener_name
result_tests = (refl, refl, refl)

distinct_example :
    let ports = (validate_listeners rules (web ∷ clash ∷ secure ∷ [])).ports in
    All (IsOpenedFor (web ∷ clash ∷ secure ∷ [])) ports × Pairs Differ ports
distinct_example = validate_listeners_distinct rules (web ∷ clash ∷ secure ∷ [])

complete_example :
    IsRecorded clash
      (check_listener rules (web ∷ []) clash)
      (validate_listeners rules (web ∷ clash ∷ secure ∷ []))
unfolding text_eq
complete_example =
    validate_listeners_complete rules (web ∷ []) (secure ∷ []) clash (refl, tt) (refl, tt)

-- A listener for the hosts of one domain, and a route for two hosts and one of another domain.
abbrev domain : Text
domain = codes "*.foo"

abbrev route_names : List Text
route_names = codes "a.foo" ∷ codes "b.bar" ∷ codes "*.a.foo" ∷ []

hosts_tests :
    (compute_hosts rules [] domain route_names ≡ (codes "a.foo" ∷ codes "*.a.foo" ∷ [], []))
    × (compute_hosts rules [] (codes "*.a.foo") (domain ∷ []) ≡ ([], []))
unfolding compute_hosts is_valid_hostname host_for other_listener_intersection text_eq
    hostname_matches_wildcard_hostname
hosts_tests = (refl, refl)

within_example :
    All (IsWithin rules [] domain route_names) (compute_hosts rules [] domain route_names).0
within_example = compute_hosts-IsWithin rules [] domain route_names

domain-covers : (is_empty domain || covers domain (codes "c.a.foo")) ≡ true
unfolding hostname_matches_wildcard_hostname text_eq
domain-covers = refl

route-names : any (names rules domain (codes "c.a.foo")) route_names ≡ true
unfolding hostname_matches_wildcard_hostname text_eq is_valid_hostname
route-names = refl

serves_example :
    any (λ h. covers h (codes "c.a.foo")) (compute_hosts rules [] domain route_names).0 ≡ true
serves_example =
    compute_hosts-serves rules domain (codes "c.a.foo") (codes "a.foo")
      (codes "b.bar" ∷ codes "*.a.foo" ∷ []) domain-covers route-names

abbrev api_path : PathMatch
api_path = record { kind = none; value = some (codes "/api") }

api_path_matched :
    gateway_path_match_condition (λ s. true) (some api_path)
    ≡ matched (prefix_match (codes "/api") segment)
unfolding gateway_path_match_condition text_eq
api_path_matched = refl

IsPath-example : IsPath (λ s. true) (prefix_match (codes "/api") segment)
IsPath-example =
    gateway_path_match_condition-IsPath (λ s. true) (some api_path)
      (prefix_match (codes "/api") segment) api_path_matched

abbrev on_header : Text → Text → NameMatch
on_header name value = record { kind = none; name = name; value = value }

abbrev header_matches : List NameMatch
header_matches =
    on_header (codes "X-A") (codes "1")
    ∷ on_header (codes "x-a") (codes "2")
    ∷ on_header (codes "X-B") (codes "3")
    ∷ []

abbrev header_conditions_made : List HeaderMatchCondition
header_conditions_made =
    header_condition (λ s. true) (on_header (codes "X-A") (codes "1")) false
    ∷ header_condition (λ s. true) (on_header (codes "X-B") (codes "3")) false
    ∷ []

header_matches_accepted :
    gateway_header_match_conditions (λ s. true) header_matches ≡ inr header_conditions_made
unfolding gateway_header_match_conditions text_eq
header_matches_accepted = refl

Apart-example : Pairs (Apart (λ s. true)) header_conditions_made
Apart-example =
    gateway_header_match_conditions-Apart (λ s. true) header_matches header_conditions_made
      header_matches_accepted

-- A reader of "2s" and "1s".
abbrev seconds_of : Text → Option Duration
seconds_of s = if text_eq s (codes "2s") then some (pos 2) else some (pos 1)

abbrev set_to : ℕ → Setting
set_to n = record { val = pos n; valset = true; disabled = false }

two_seconds : parse_timeout seconds_of (codes "2s") ≡ some (set_to 2)
unfolding parse text_eq disabled_setting duration
two_seconds = refl

timeouts_example :
    (parse_http_route_timeouts seconds_of
        (some (record { request = some (codes "2s"); backend_request = some (codes "1s") }))
      ≡ inr (some (set_to 1)))
    ↔ ((parse_timeout seconds_of (codes "1s") ≡ some (set_to 1)) × IsAdmitted (set_to 2) (set_to 1))
timeouts_example =
    parse_http_route_timeouts_iff seconds_of (codes "2s") (codes "1s") (set_to 2) (set_to 1)
      two_seconds

-- An infinite timeout of the backend behind a request's two seconds.
timeouts_tests :
    (parse_http_route_timeouts seconds_of
        (some (record { request = some (codes "2s"); backend_request = some (codes "infinity") }))
      ≡ inr (some disabled_setting))
    × (parse_http_route_timeouts seconds_of
          (some (record { request = some (codes "1s"); backend_request = some (codes "2s") }))
        ≡ inl backend_too_long)
unfolding parse_http_route_timeouts parse text_eq disabled_setting duration
timeouts_tests = (refl, refl)
