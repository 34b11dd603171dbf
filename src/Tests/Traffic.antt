-- ===== src/Tests/Traffic.antt =====
-- Runs of the rate limit, cookie, balancing and timeout policies on concrete inputs.
use contour.Prelude.{
  Both, ◌+◌, ◌^◌, ◌≤◌, ◌<◌, ◌≡◌, refl, ◌↔◌, inr, true, false, Option, none, some, List, [], ◌∷◌,
  map, arith, Text, codes, text_eq, All, Pairs,
}
use contour.Timeout.{Duration, parse}
use contour.Policy.Loops.{Apart}
use contour.Policy.RateLimit.{
  LocalSpec, LocalRateLimitPolicy, EntrySpec, DescriptorEntry, generic_key_entry,
  remote_address_entry, second, local_rate_limit_policy, global_rate_limit_policy,
}
use contour.Policy.RateLimit.Laws.{local_rate_limit_policy-tokens}
use contour.Policy.RateLimit.Entries.{Gives, global_rate_limit_policy_iff}
use contour.Policy.Cookies.{CookieSpec, CookieRewritePolicy, cookie_rewrite_policies, ReplacePrefix}
use contour.Policy.Cookies.Laws.{
  rewrites_something, every, cookie_name, policy_of_cookie, cookie_rewrite_policies_iff,
}
use contour.Policy.Balance.{LoadBalancerSpec, request_hash, load_balancer_request_hash_policies}
use contour.Policy.Balance.Laws.{IsHashResult, load_balancer_request_hash_policies-IsHashResult}
use contour.Policy.Settings.{
  pos, num_retries, TimeoutSpec, RouteTimeoutPolicy, ClusterTimeoutPolicy, timeout_policy,
  StatusRange,
}
use contour.Policy.Settings.Laws.{NoRetry, num_retries-zero_iff}
use contour.Tests.Policy.{plain_library}

abbrev ten_a_second : LocalSpec
ten_a_second = record {
  requests = 10;
  unit = codes "second";
  burst = 5;
  response_status_code = 429;
  response_headers_to_add = [];
}

abbrev ten_tokens : LocalRateLimitPolicy
ten_tokens = record {
  max_tokens = 15;
  tokens_per_fill = 10;
  fill_interval = second;
  response_status_code = 429;
  response_headers_to_add = [];
}

local_accepted : local_rate_limit_policy plain_library (some ten_a_second) ≡ inr (some ten_tokens)
unfolding local_rate_limit_policy text_eq
local_accepted = refl

tokens_example :
    (1 ≤ ten_tokens.tokens_per_fill)
    × ((ten_tokens.tokens_per_fill ≤ ten_tokens.max_tokens)
        ↔ (ten_a_second.requests + ten_a_second.burst < 2 ^ 32))
tokens_example =
    local_rate_limit_policy-tokens plain_library ten_a_second ten_tokens local_accepted
      (ground arith) (ground arith)

abbrev two_entries : List (List EntrySpec)
two_entries =
    (record {
      generic_key = some (codes "k", codes "v");
      request_header = none;
      request_header_value_match = none;
      remote_address = false;
    }
      ∷ record {
        generic_key = none;
        request_header = none;
        request_header_value_match = none;
        remote_address = true;
      }
      ∷ [])
    ∷ []

abbrev two_entries_made : List (List DescriptorEntry)
two_entries_made = (generic_key_entry (codes "k") (codes "v") ∷ remote_address_entry ∷ []) ∷ []

global_example :
    (global_rate_limit_policy (some (record { disabled = false; descriptors = two_entries }))
      ≡ inr (some two_entries_made))
    ↔ Both (Both Gives) two_entries two_entries_made
global_example = global_rate_limit_policy_iff two_entries two_entries_made

abbrev secure_cookie : CookieSpec
secure_cookie = record {
  name = codes "id";
  path_rewrite = none;
  domain_rewrite = none;
  secure = some true;
  same_site = none;
}

abbrev secure_rewrite : CookieRewritePolicy
secure_rewrite = record {
  name = codes "id";
  path = none;
  domain = none;
  secure = 2;
  same_site = none;
}

cookies_example : (cookie_rewrite_policies (secure_cookie ∷ []) ≡ inr (secure_rewrite ∷ [])) ↔ (
    All (λ p. rewrites_something p ≡ true) (secure_cookie ∷ [])
    × Pairs (Apart cookie_name every) (secure_cookie ∷ [])
    × (map policy_of_cookie (secure_cookie ∷ []) ≡ secure_rewrite ∷ []))
cookies_example = cookie_rewrite_policies_iff (secure_cookie ∷ []) (secure_rewrite ∷ [])

abbrev two_replacements : List ReplacePrefix
two_replacements =
    record { prefix = codes "/a"; replacement = codes "/" }
    ∷ record { prefix = []; replacement = codes "/b" }
    ∷ []

abbrev hashed : LoadBalancerSpec
hashed = record {
  strategy = request_hash;
  request_hash_policies =
      record {
        terminal = true;
        hash_source_ip = false;
        header_hash_options = some (codes "X-User");
        query_parameter_hash_options = none;
      }
      ∷ record {
        terminal = false;
        hash_source_ip = true;
        header_hash_options = none;
        query_parameter_hash_options = none;
      }
      ∷ [];
}

hash_example :
    IsHashResult plain_library (load_balancer_request_hash_policies plain_library (some hashed))
hash_example = load_balancer_request_hash_policies-IsHashResult plain_library hashed refl

retries_example :
    (num_retries (pos 4294967296) < 2 ^ 32)
    × ((num_retries (pos 4294967296) ≡ 0) ↔ NoRetry (pos 4294967296))
retries_example = num_retries-zero_iff (pos 4294967296)

abbrev five_seconds : Text → Option Duration
five_seconds s = some (Duration.pos 5)

abbrev some_timeouts : TimeoutSpec
some_timeouts = record { response = codes "5s"; idle = codes "infinity"; idle_connection = [] }

abbrev route_timeouts : RouteTimeoutPolicy
route_timeouts = record {
  response_timeout = record { val = Duration.pos 5; valset = true; disabled = false };
  idle_stream_timeout = record { val = Duration.pos 0; valset = false; disabled = true };
}

abbrev cluster_timeouts : ClusterTimeoutPolicy
cluster_timeouts = record {
  idle_connection_timeout = record { val = Duration.pos 0; valset = false; disabled = false };
  connect_timeout = Duration.pos 2;
}

timeouts_accepted :
    timeout_policy five_seconds (some some_timeouts) (Duration.pos 2)
    ≡ inr (route_timeouts, cluster_timeouts)
unfolding timeout_policy parse text_eq
timeouts_accepted = refl

abbrev successes : List StatusRange
successes = record { start = pos 200; end = pos 300 } ∷ []
