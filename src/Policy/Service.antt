-- ===== src/Policy/Service.antt =====
-- `headersPolicyService` of internal/dag/policy.go.
use contour.Prelude.{
  ◌⊎◌, inl, inr, Bool, not, Option, none, some, List, [], ◌∷◌, ◌++◌, Text, if◌then◌else◌,
}
use contour.Conditions.Path.{nonempty}
use contour.Conditions.Header.{has_name}
use contour.Policy.Loops.{rounds}
use contour.Policy.Escape.{escape_header_value, extract_host_rewrite_header_value}
use contour.Policy.Headers.{
  HeadersSpec, HeadersPolicy, HeadersError, Library, keys_of, is_host, no_policy,
  headers_policy_route,
}

pub data ServiceHeadersError : Type 0 where
  user_policy : HeadersError → ServiceHeadersError
  default_host_not_supported default_host_dynamic : ServiceHeadersError
  default_invalid : ServiceHeadersError

module _ (lib : Library) where
  open lib use {
    canonical_header_key, is_http_header_name, find_string_submatch, trim_space, replace_req,
  }

  -- One round of the loop over `defaultPolicy.Set`.
  unfoldable pub default_header :
      Bool → List (Text × Text) → HeadersPolicy → Text × Text → ServiceHeadersError ⊎ HeadersPolicy
  default_header allow_host_rewrite dynamic_headers p (k, v) =
      let key = canonical_header_key k in
      if is_host key
      then (if not allow_host_rewrite
          then inl default_host_not_supported
          else if nonempty p.host_rewrite
          then inr p
          else if nonempty (extract_host_rewrite_header_value find_string_submatch trim_space v)
          then inl default_host_dynamic
          else inr (record p { host_rewrite = v }))
      else if not (is_http_header_name key)
      then inl default_invalid
      else if has_name key (keys_of p)
      then inr p
      else inr (record p { set = (key, escape_header_value replace_req v dynamic_headers) ∷ p.set })

  -- One round of the loop over `defaultPolicy.Remove`; `user_remove` is the set of the user's names.
  unfoldable pub default_remove :
      List Text → HeadersPolicy → Text → ServiceHeadersError ⊎ HeadersPolicy
  default_remove user_remove p entry =
      let key = canonical_header_key entry in
      if not (is_http_header_name key)
      then inl default_invalid
      else if has_name key user_remove
      then inr p
      else inr (record p { remove = p.remove ++ key ∷ [] })

  -- A nil user policy is an empty one.
  abbrev pub or_empty : Option HeadersPolicy → HeadersPolicy
  or_empty none = no_policy
  or_empty (some p) = p

  unfoldable pub headers_policy_service :
      Option HeadersPolicy
      → Option HeadersSpec
      → Bool
      → List (Text × Text)
      → ServiceHeadersError ⊎ Option HeadersPolicy
  unfolding default_header default_remove
  headers_policy_service none policy allow_host_rewrite dynamic_headers =
      elim (headers_policy_route lib policy allow_host_rewrite dynamic_headers) [
        | inl err ↦ inl (user_policy err)
        | inr p ↦ inr p
      ]
  headers_policy_service (some default) policy allow_host_rewrite dynamic_headers =
      elim (headers_policy_route lib policy allow_host_rewrite dynamic_headers) [
        | inl err ↦ inl (user_policy err)
        | inr user ↦
            elim (rounds (default_header allow_host_rewrite dynamic_headers) (or_empty user)
              default.set) [
                | inl err ↦ inl err
                | inr p ↦ elim (rounds (default_remove (or_empty user).remove) p default.remove) [
                  | inl err ↦ inl err
                  | inr p' ↦ inr (some p')
                ]
              ]
      ]
