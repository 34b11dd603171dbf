-- ===== src/Policy/Headers/Laws.antt =====
-- Which header policies are accepted, and what they set.
use contour.Prelude.{
  Sum-cases, ◌≡◌, refl, ◌↔◌, ◌⊎◌, inl, inr, Bool, true, false, not, Option, none, some, List, [],
  ◌∷◌, arith, Text, text_eq, if◌then◌else◌, All, Pairs, All-imp,
}
use contour.Conditions.Path.{nonempty}
use contour.Conditions.Header.{has_name}
use contour.Policy.Loops.{rounds, rounds_all, rounds_iff, Apart, Fresh}
use contour.Policy.Escape.{escape_header_value, extract_host_rewrite_header_value}
use contour.Policy.Headers.{
  HeaderValue, HeadersSpec, HeadersPolicy, HeadersError, Library, keys_of, is_host, set_header,
  remove_header, no_policy, headers_policy_route,
}

-- The value of a key in a map.
abbrev pub lookup : Text → List (Text × Text) → Option Text
lookup k [] = none
lookup k ((k', v) ∷ rest) = let other = lookup k rest in if text_eq k' k then some v else other

module _ (lib : Library) where
  open lib use {
    canonical_header_key, is_http_header_name, find_string_submatch, trim_space, replace_req,
    sorted_list,
  }

  abbrev pub key_of_entry : HeaderValue → Text
  key_of_entry e = canonical_header_key e.name

  abbrev pub not_host : HeaderValue → Bool
  not_host e = not (is_host (key_of_entry e))

  abbrev pub is_allowed : Bool → HeaderValue → Bool
  is_allowed allow_host_rewrite e =
      if is_host (key_of_entry e) then allow_host_rewrite else is_http_header_name (key_of_entry e)

  module _ (dynamic_headers : List (Text × Text)) where
    -- What an entry does to the policy, with no check.
    unfoldable pub put_entry : HeadersPolicy → HeaderValue → HeadersPolicy
    put_entry p e =
        let header = extract_host_rewrite_header_value find_string_submatch trim_space e.value in
        if is_host (key_of_entry e)
        then (if nonempty header
            then record p { host_rewrite_header = canonical_header_key header }
            else record p { host_rewrite = e.value })
        else record p {
          set = (key_of_entry e, escape_header_value replace_req e.value dynamic_headers) ∷ p.set;
        }

    put_entry-keys :
        (p : HeadersPolicy) (e : HeaderValue)
        → keys_of (put_entry p e) ≡ (if not_host e then key_of_entry e ∷ keys_of p else keys_of p)
    unfolding put_entry
    put_entry-keys p e = ground arith

    module _ (allow : Bool) where
      set_header-inr :
          (p : HeadersPolicy) (e : HeaderValue)
          → is_allowed allow e ≡ true
          → has_name (key_of_entry e) (keys_of p) ≡ false
          → set_header lib allow dynamic_headers p e ≡ inr (put_entry p e)
      unfolding set_header put_entry
      set_header-inr p e a f = ground arith

      set_header-allowed :
          (p : HeadersPolicy) (e : HeaderValue) (p' : HeadersPolicy)
          → set_header lib allow dynamic_headers p e ≡ inr p'
          → (is_allowed allow e ≡ true) × (has_name (key_of_entry e) (keys_of p) ≡ false)
      unfolding set_header
      set_header-allowed p e p' h = ground arith

      set_headers_iff :
          (p p' : HeadersPolicy) (es : List HeaderValue)
          → (rounds (set_header lib allow dynamic_headers) p es ≡ inr p') ↔ (
              All (λ e. is_allowed allow e ≡ true) es
              × All (Fresh key_of_entry (keys_of p)) es
              × Pairs (Apart key_of_entry not_host) es
              × (rounds_all put_entry p es ≡ p'))
      set_headers_iff p p' es =
          rounds_iff key_of_entry not_host (is_allowed allow) keys_of
            (set_header lib allow dynamic_headers) put_entry put_entry-keys set_header-inr
            set_header-allowed p p' es

  put_key : List Text → Text → List Text
  put_key keys name = canonical_header_key name ∷ keys

  remove_headers_iff :
      (keys keys' names : List Text)
      → (rounds (remove_header lib) keys names ≡ inr keys') ↔ (
          All (λ n. is_http_header_name (canonical_header_key n) ≡ true) names
          × All (Fresh canonical_header_key keys) names
          × Pairs (Apart canonical_header_key (λ _. true)) names
          × (rounds_all put_key keys names ≡ keys'))
  unfolding remove_header put_key
  remove_headers_iff keys keys' names =
      rounds_iff canonical_header_key (λ _. true)
        (λ n. is_http_header_name (canonical_header_key n)) (λ seen. seen) (remove_header lib)
        put_key (λ seen n. refl) (λ seen n valid new. ground arith) (λ seen n seen' h. ground arith)
        keys keys' names

  -- The conditions under which `headersPolicyRoute` returns no error: "Host" may be set several times.
  abbrev pub IsAccepted : Bool → HeadersSpec → Type 0
  IsAccepted allow policy =
      All (λ e. is_allowed allow e ≡ true) policy.set
      × Pairs (Apart key_of_entry not_host) policy.set
      × All (λ n. is_http_header_name (canonical_header_key n) ≡ true) policy.remove
      × Pairs (Apart canonical_header_key (λ _. true)) policy.remove

  module _ (dynamic_headers : List (Text × Text)) where
    -- The policy that the entries give, with no check.
    unfoldable pub policy_of : HeadersSpec → HeadersPolicy
    unfolding put_entry put_key
    policy_of policy = record (rounds_all (put_entry dynamic_headers) no_policy policy.set) {
      remove = sorted_list (rounds_all put_key [] policy.remove);
    }

    module _ (allow : Bool) (policy : HeadersSpec) where
      pub route_accepted :
          IsAccepted allow policy
          → headers_policy_route lib (some policy) allow dynamic_headers
            ≡ inr (some (policy_of policy))
      unfolding headers_policy_route policy_of
      route_accepted (allowed, apart, valid, distinct) =
          rw
            (
              (set_headers_iff dynamic_headers allow no_policy
                    (rounds_all (put_entry dynamic_headers) no_policy policy.set) policy.set).1
                  (allowed, All-imp policy.set (λ e _. refl) allowed, apart, refl),
              (remove_headers_iff [] (rounds_all put_key [] policy.remove) policy.remove).1
                  (valid, All-imp policy.remove (λ n _. refl) valid, distinct, refl),
              headers_policy_route,
            )
            refl

      pub route_refused :
          (p : HeadersPolicy)
          → headers_policy_route lib (some policy) allow dynamic_headers ≡ inr (some p)
          → IsAccepted allow policy
      unfolding headers_policy_route
      route_refused p e =
          elim (Sum-cases (rounds (set_header lib allow dynamic_headers) no_policy policy.set)) [
            | inl (err, failed) ↦ absurd (
                let q : ◌≡◌ {A = HeadersError ⊎ Option HeadersPolicy} (inl err) (inr (some p)) =
                  rw (failed, headers_policy_route) at e in
                cc)
            | inr (p', set) ↦ elim (Sum-cases (rounds (remove_header lib) [] policy.remove)) [
              | inl (err, failed) ↦ absurd (
                  let q : ◌≡◌ {A = HeadersError ⊎ Option HeadersPolicy} (inl err) (inr (some p)) =
                    rw (set, failed, headers_policy_route) at e in
                  cc)
              | inr (keys, removed) ↦
                  let (allowed, _, apart, _) =
                    (set_headers_iff dynamic_headers allow no_policy p' policy.set).0 set in
                  let (valid, _, distinct, _) =
                    (remove_headers_iff [] keys policy.remove).0 removed in
                  (allowed, apart, valid, distinct)
            ]
          ]
