-- ===== src/Policy/Headers.antt =====
-- `headersPolicyRoute` of internal/dag/policy.go.
pub mod Laws
pub mod Result
use contour.Prelude.{
  ◌≡◌, refl, ◌⊎◌, inl, inr, Bool, true, false, not, Option, none, some, List, [], ◌∷◌, map, Text,
  codes, text_eq, is_empty, if◌then◌else◌,
}
use contour.Conditions.Path.{nonempty}
use contour.Conditions.Header.{has_name}
use contour.Policy.Loops.{rounds}
use contour.Policy.Escape.{escape_header_value, extract_host_rewrite_header_value}

pub record HeaderValue : Type 0 where
  pub name : Text
  pub value : Text

-- `HeadersPolicy` of apis/projectcontour/v1/httpproxy.go.
pub record HeadersSpec : Type 0 where
  pub set : List HeaderValue
  pub remove : List Text

-- `HeadersPolicy` of internal/dag/dag.go. The map `set` is a list of its entries; a nil map and an
-- empty one are the empty list.
pub record HeadersPolicy : Type 0 where
  pub set : List (Text × Text)
  pub host_rewrite : Text
  pub host_rewrite_header : Text
  pub remove : List Text

pub data HeadersError : Type 0 where
  duplicate_addition host_not_supported invalid_set : HeadersError
  duplicate_removal invalid_remove : HeadersError

-- What the code calls of other modules: `http.CanonicalHeaderKey`, `validation.IsHTTPHeaderName`
-- (`true` where it has no message), the regular expressions, `TrimSpace`, and `sets.String.List`.
pub record Library : Type 0 where
  pub canonical_header_key : Text → Text
  pub is_http_header_name : Text → Bool
  pub find_string_submatch : Text → Option Text
  pub trim_space : Text → Text
  pub replace_req : Text → Text
  pub sorted_list : List Text → List Text

abbrev pub keys_of : HeadersPolicy → List Text
keys_of p = map (λ entry. entry.0) p.set

abbrev pub is_host : Text → Bool
is_host key = text_eq key (codes "Host")

abbrev pub no_policy : HeadersPolicy
no_policy = record { set = []; host_rewrite = []; host_rewrite_header = []; remove = [] }

module _ (lib : Library) where
  open lib use {
    canonical_header_key, is_http_header_name, find_string_submatch, trim_space, replace_req,
    sorted_list,
  }

  module _ (allow_host_rewrite : Bool) (dynamic_headers : List (Text × Text)) where
    -- One round of the loop over `policy.Set`.
    unfoldable pub set_header : HeadersPolicy → HeaderValue → HeadersError ⊎ HeadersPolicy
    set_header p entry =
        let key = canonical_header_key entry.name in
        let header =
          extract_host_rewrite_header_value find_string_submatch trim_space entry.value in
        if has_name key (keys_of p)
        then inl duplicate_addition
        else if is_host key
        then (if not allow_host_rewrite
            then inl host_not_supported
            else if nonempty header
            then inr (record p { host_rewrite_header = canonical_header_key header })
            else inr (record p { host_rewrite = entry.value }))
        else if not (is_http_header_name key)
        then inl invalid_set
        else inr (record p {
          set = (key, escape_header_value replace_req entry.value dynamic_headers) ∷ p.set;
        })

  -- One round of the loop over `policy.Remove`.
  unfoldable pub remove_header : List Text → Text → HeadersError ⊎ List Text
  remove_header remove entry =
      let key = canonical_header_key entry in
      if has_name key remove
      then inl duplicate_removal
      else if not (is_http_header_name key)
      then inl invalid_remove
      else inr (key ∷ remove)

  unfoldable pub headers_policy_route :
      Option HeadersSpec → Bool → List (Text × Text) → HeadersError ⊎ Option HeadersPolicy
  unfolding set_header remove_header
  headers_policy_route none allow_host_rewrite dynamic_headers = inr none
  headers_policy_route (some policy) allow_host_rewrite dynamic_headers =
      elim (rounds (set_header allow_host_rewrite dynamic_headers) no_policy policy.set) [
        | inl err ↦ inl err
        | inr p ↦ elim (rounds remove_header [] policy.remove) [
          | inl err ↦ inl err
          | inr remove ↦ inr (some (record p { remove = sorted_list remove }))
        ]
      ]
