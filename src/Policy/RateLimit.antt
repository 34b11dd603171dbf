-- ===== src/Policy/RateLimit.antt =====
-- `rateLimitPolicy`, `localRateLimitPolicy` and `globalRateLimitPolicy` of internal/dag/policy.go.
pub mod Laws
pub mod Entries
use contour.Prelude.{
  ℕ, zero, ◌+◌, ◌*◌, ◌%◌, ◌^◌, ◌⊎◌, inl, inr, Bool, true, false, not, ◌&&◌, ◌||◌, ◌==◌, Option,
  none, some, List, [], ◌∷◌, ◌++◌, Text, codes, text_eq, map, if◌then◌else◌,
}
use contour.Conditions.Types.{HeaderCondition, HeaderMatchCondition}
use contour.Conditions.Header.{has_name, header_match_conditions}
use contour.Policy.Loops.{rounds}
use contour.Policy.Escape.{escape_header_value}
use contour.Policy.Headers.{HeaderValue, Library}

-- Requests, burst and status code are uint32.
pub record LocalSpec : Type 0 where
  pub requests : ℕ
  pub unit : Text
  pub burst : ℕ
  pub response_status_code : ℕ
  pub response_headers_to_add : List HeaderValue

pub record LocalRateLimitPolicy : Type 0 where
  pub max_tokens : ℕ
  pub tokens_per_fill : ℕ
  -- Nanoseconds.
  pub fill_interval : ℕ
  pub response_status_code : ℕ
  pub response_headers_to_add : List (Text × Text)

pub record ValueMatch : Type 0 where
  pub headers : List HeaderCondition
  pub expect_match : Bool
  pub value : Text

-- `RateLimitDescriptorEntry` of apis/projectcontour/v1/httpproxy.go: a field that is nil is `none`.
pub record EntrySpec : Type 0 where
  pub generic_key : Option (Text × Text)
  -- The header's name and the descriptor's key.
  pub request_header : Option (Text × Text)
  pub request_header_value_match : Option ValueMatch
  pub remote_address : Bool

pub record GlobalSpec : Type 0 where
  pub disabled : Bool
  pub descriptors : List (List EntrySpec)

-- `RateLimitDescriptorEntry` of internal/dag/dag.go, of which one field is set.
pub data DescriptorEntry : Type 0 where
  generic_key_entry : (key value : Text) → DescriptorEntry
  header_match_entry : (header_name key : Text) → DescriptorEntry
  header_value_match_entry :
      List HeaderMatchCondition → (expect_match : Bool) → (value : Text) → DescriptorEntry
  remote_address_entry : DescriptorEntry

pub record RateLimitSpec : Type 0 where
  pub local : Option LocalSpec
  pub global : Option GlobalSpec

pub record RateLimitPolicy : Type 0 where
  pub local : Option LocalRateLimitPolicy
  pub global : Option (List (List DescriptorEntry))

pub data RateLimitError : Type 0 where
  invalid_requests invalid_unit duplicate_header invalid_header : RateLimitError
  not_exactly_one_field : RateLimitError

abbrev pub second : ℕ
second = 10 ^ 9

-- The `switch in.Unit`.
unfoldable pub fill_interval_of : Text → Option ℕ
fill_interval_of unit =
    if text_eq unit (codes "second")
    then some second
    else if text_eq unit (codes "minute")
    then some (60 * second)
    else if text_eq unit (codes "hour")
    then some (3600 * second)
    else none

abbrev pub names_of : List (Text × Text) → List Text
names_of headers = map (λ h. h.0) headers

module _ (lib : Library) where
  open lib use {canonical_header_key, is_http_header_name, replace_req}

  -- One round of the loop over `in.ResponseHeadersToAdd`.
  unfoldable pub add_response_header :
      List (Text × Text) → HeaderValue → RateLimitError ⊎ List (Text × Text)
  add_response_header headers h =
      let key = canonical_header_key h.name in
      if has_name key (names_of headers)
      then inl duplicate_header
      else if not (is_http_header_name key)
      then inl invalid_header
      else inr ((key, escape_header_value replace_req h.value []) ∷ headers)

  unfoldable pub local_rate_limit_policy :
      Option LocalSpec → RateLimitError ⊎ Option LocalRateLimitPolicy
  unfolding fill_interval_of add_response_header
  local_rate_limit_policy none = inr none
  local_rate_limit_policy (some spec) =
      if spec.requests == 0 then inl invalid_requests else (elim (fill_interval_of spec.unit) [
        | none ↦ inl invalid_unit
        | some interval ↦ elim (rounds add_response_header [] spec.response_headers_to_add) [
          | inl err ↦ inl err
          | inr headers ↦ inr (
              some (record {
                max_tokens = (spec.requests + spec.burst) % 2 ^ 32;
                tokens_per_fill = spec.requests;
                fill_interval = interval;
                response_status_code = spec.response_status_code;
                response_headers_to_add = headers;
              }))
        ]
      ])

-- What one entry appends to `rld.Entries`; `set` counts the same fields.
unfoldable pub entries_of : EntrySpec → List DescriptorEntry
entries_of e =
    elim e.generic_key [ none ↦ [] | some (key, value) ↦ generic_key_entry key value ∷ [] ]
    ++ elim e.request_header [ none ↦ [] | some (name, key) ↦ header_match_entry name key ∷ [] ]
    ++ elim e.request_header_value_match [
      | none ↦ []
      | some m ↦
          header_value_match_entry (header_match_conditions m.headers) m.expect_match m.value ∷ []
    ]
    ++ (if e.remote_address then remote_address_entry ∷ [] else [])

abbrev is_set {ℓ} : {A : Type ℓ} → Option A → ℕ
is_set none = 0
is_set (some x) = 1

unfoldable pub fields_set : EntrySpec → ℕ
fields_set e =
    is_set e.generic_key
    + is_set e.request_header
    + is_set e.request_header_value_match
    + (if e.remote_address then 1 else 0)

-- One round of the loop over `d.Entries`.
unfoldable pub add_entry : List DescriptorEntry → EntrySpec → RateLimitError ⊎ List DescriptorEntry
unfolding entries_of fields_set
add_entry entries e =
    if not (fields_set e == 1) then inl not_exactly_one_field else inr (entries ++ entries_of e)

-- One round of the loop over `in.Descriptors`.
unfoldable pub add_descriptor :
    List (List DescriptorEntry) → List EntrySpec → RateLimitError ⊎ List (List DescriptorEntry)
unfolding add_entry
add_descriptor descriptors d = elim (rounds add_entry [] d) [
  | inl err ↦ inl err
  | inr rld ↦ inr (descriptors ++ rld ∷ [])
]

unfoldable pub global_rate_limit_policy :
    Option GlobalSpec → RateLimitError ⊎ Option (List (List DescriptorEntry))
unfolding add_descriptor
global_rate_limit_policy none = inr none
global_rate_limit_policy (some spec) =
    if spec.disabled then inr none else (elim (rounds add_descriptor [] spec.descriptors) [
      | inl err ↦ inl err
      | inr descriptors ↦ inr (some descriptors)
    ])

abbrev pub no_descriptors : Option GlobalSpec → Bool
no_descriptors none = true
no_descriptors (some g) = elim g.descriptors [ [] ↦ true | d ∷ ds ↦ false ]

abbrev pub is_nil {ℓ} : {A : Type ℓ} → Option A → Bool
is_nil none = true
is_nil (some x) = false

unfoldable pub rate_limit_policy :
    Library → Option RateLimitSpec → RateLimitError ⊎ Option RateLimitPolicy
unfolding local_rate_limit_policy global_rate_limit_policy
rate_limit_policy lib none = inr none
rate_limit_policy lib (some spec) =
    if is_nil spec.local && no_descriptors spec.global
    then inr none
    else (elim (local_rate_limit_policy lib spec.local) [
      | inl err ↦ inl err
      | inr local ↦ elim (global_rate_limit_policy spec.global) [
        | inl err ↦ inl err
        | inr global ↦ inr (some (record { local = local; global = global }))
      ]
    ])
