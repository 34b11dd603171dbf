-- ===== src/Tests/Policy.antt =====
-- Runs of the policies of routes and services on concrete inputs.
use contour.Prelude.{◌≡◌, refl, ◌↔◌, inr, true, none, some, [], ◌∷◌, Text, codes, text_eq}
use contour.Policy.Escape.{escape_header_value, extract_host_rewrite_header_value}
use contour.Policy.Headers.{HeaderValue, HeadersSpec, HeadersPolicy, Library, headers_policy_route}
use contour.Policy.Headers.Laws.{IsAccepted, policy_of}
use contour.Policy.Headers.Result.{headers_policy_route_iff, headers_policy_route-host}

-- Libraries that take names as they are, find no `%REQ(...)%` and replace nothing.
abbrev pub plain_library : Library
plain_library = record {
  canonical_header_key = λ s. s;
  is_http_header_name = λ s. true;
  find_string_submatch = λ s. none;
  trim_space = λ s. s;
  replace_req = λ s. s;
  sorted_list = λ s. s;
}

abbrev entry : Text → Text → HeaderValue
entry name value = record { name = name; value = value }

abbrev two_headers : HeadersSpec
two_headers = record {
  set = entry (codes "Host") (codes "a.com") ∷ entry (codes "X-A") (codes "50%") ∷ [];
  remove = codes "X-B" ∷ [];
}

abbrev two_headers_policy : HeadersPolicy
two_headers_policy = record {
  set = (codes "X-A", codes "50%%") ∷ [];
  host_rewrite = codes "a.com";
  host_rewrite_header = [];
  remove = codes "X-B" ∷ [];
}

escape_tests :
    (escape_header_value (λ s. s) (codes "%PROTOCOL% 5%") [] ≡ codes "%PROTOCOL% 5%%")
    × (escape_header_value (λ s. s) (codes "%NS%") ((codes "NS", codes "web") ∷ []) ≡ codes "web")
unfolding escape_header_value
escape_tests = (refl, refl)

two_headers_accepted :
    headers_policy_route plain_library (some two_headers) true [] ≡ inr (some two_headers_policy)
unfolding headers_policy_route escape_header_value text_eq extract_host_rewrite_header_value
two_headers_accepted = refl

route_iff_example :
    (headers_policy_route plain_library (some two_headers) true [] ≡ inr (some two_headers_policy))
    ↔ (IsAccepted plain_library true two_headers
        × (policy_of plain_library [] two_headers ≡ two_headers_policy))
route_iff_example = headers_policy_route_iff plain_library [] true two_headers two_headers_policy

route_host_example :
    headers_policy_route plain_library
      (some (record {
        set =
            entry (codes "Host") (codes "a.com")
            ∷ entry (codes "X-A") (codes "50%")
            ∷ entry (codes "Host") (codes "b.com")
            ∷ [];
        remove = codes "X-B" ∷ [];
      }))
      true
      []
    ≡ inr (some (record two_headers_policy { host_rewrite = codes "b.com" }))
unfolding extract_host_rewrite_header_value
route_host_example =
    headers_policy_route-host plain_library [] two_headers.set two_headers.remove
      (entry (codes "Host") (codes "b.com")) two_headers_policy refl refl two_headers_accepted
