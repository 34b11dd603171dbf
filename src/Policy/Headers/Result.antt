-- ===== src/Policy/Headers/Result.antt =====
-- What an accepted header policy sets, and what a further entry for "Host" does.
use contour.Prelude.{
  ◌≡◌, refl, sym, ◌∙◌, ◌↔◌, ◌⊎◌, inl, inr, Bool, true, false, some, List, [], ◌∷◌, ◌++◌, arith,
  Text, codes, text_eq, text_eq_iff, All, All-snoc, Pairs, Pairs-snoc, All-imp, Bool-cases,
}
use contour.Policy.Loops.{rounds_all, Apart}
use contour.Policy.Escape.{escape_header_value, extract_host_rewrite_header_value}
use contour.Policy.Headers.{
  HeaderValue, HeadersSpec, HeadersPolicy, Library, is_host, no_policy, headers_policy_route,
}
use contour.Policy.Headers.Laws.{
  lookup, key_of_entry, not_host, is_allowed, put_entry, IsAccepted, policy_of, route_accepted,
  route_refused,
}

module _ (lib : Library) (dynamic_headers : List (Text × Text)) where
  open lib use {find_string_submatch, trim_space, replace_req}

  -- `headersPolicyRoute` returns a policy exactly when every name in `Set` is a header name, or is
  -- "Host" where that is allowed, no two other than "Host" are one header, and the names in `Remove`
  -- are header names of different headers. It is then the policy that the entries give in turn.
  pub headers_policy_route_iff :
      (allow : Bool) (policy : HeadersSpec) (p : HeadersPolicy)
      → (headers_policy_route lib (some policy) allow dynamic_headers ≡ inr (some p))
        ↔ (IsAccepted lib allow policy × (policy_of lib dynamic_headers policy ≡ p))
  headers_policy_route_iff allow policy p = (
    λ e.
        let ok = route_refused lib dynamic_headers allow policy p e in
        (ok, cc (sym (route_accepted lib dynamic_headers allow policy ok) ∙ e)),
    λ (ok, same). rw (sym same) (route_accepted lib dynamic_headers allow policy ok),
  )

  -- Later entries with other keys keep the value of a key.
  lookup-put_entries :
      (k : Text) (p : HeadersPolicy) (es : List HeaderValue)
      → All (λ e. text_eq (key_of_entry lib e) k ≡ false) es
      → lookup k (rounds_all (put_entry lib dynamic_headers) p es).set ≡ lookup k p.set
  unfolding put_entry
  lookup-put_entries k p [] h = refl
  lookup-put_entries k p (e ∷ es) (other, h) =
      lookup-put_entries k (put_entry lib dynamic_headers p e) es h ∙ ground arith

  abbrev pub Sets : HeadersPolicy → HeaderValue → Type 0
  Sets p e =
      (not_host lib e ≡ false)
      ⊎ (lookup (key_of_entry lib e) p.set
          ≡ some (escape_header_value replace_req e.value dynamic_headers))

  put_entry-lookup :
      (p : HeadersPolicy) (e : HeaderValue)
      → not_host lib e ≡ true
      → lookup (key_of_entry lib e) (put_entry lib dynamic_headers p e).set
        ≡ some (escape_header_value replace_req e.value dynamic_headers)
  unfolding put_entry
  put_entry-lookup p e h =
      ground (arith, (text_eq_iff (key_of_entry lib e) (key_of_entry lib e)).1 refl)

  put_entries-Sets :
      (p : HeadersPolicy) (es : List HeaderValue)
      → Pairs (Apart (key_of_entry lib) (not_host lib)) es
      → All (Sets (rounds_all (put_entry lib dynamic_headers) p es)) es
  put_entries-Sets p [] h = tt
  put_entries-Sets p (e ∷ es) (apart, h) = (
    elim (Bool-cases (not_host lib e)) [
      | inr host ↦ inl host
      | inl kept ↦ inr (
          lookup-put_entries (key_of_entry lib e) (put_entry lib dynamic_headers p e) es
            (All-imp es (λ later a. ground (arith, kept)) apart)
          ∙ put_entry-lookup p e kept)
    ],
    put_entries-Sets (put_entry lib dynamic_headers p e) es h,
  )

  -- Where `headersPolicyRoute` returns a policy, it maps the canonical name of each entry of `Set` but
  -- those for "Host" to the entry's value, escaped.
  pub headers_policy_route-Sets :
      (allow : Bool) (policy : HeadersSpec) (p : HeadersPolicy)
      → headers_policy_route lib (some policy) allow dynamic_headers ≡ inr (some p)
      → All (Sets p) policy.set
  unfolding policy_of
  headers_policy_route-Sets allow policy p e =
      let (ok, same) = (headers_policy_route_iff allow policy p).0 e in
      rw (sym same) (put_entries-Sets no_policy policy.set ok.1)

  put_entries-snoc :
      (p : HeadersPolicy) (es : List HeaderValue) (e : HeaderValue)
      → rounds_all (put_entry lib dynamic_headers) p (es ++ e ∷ [])
        ≡ put_entry lib dynamic_headers (rounds_all (put_entry lib dynamic_headers) p es) e
  put_entries-snoc p [] e = refl
  put_entries-snoc p (x ∷ es) e = put_entries-snoc (put_entry lib dynamic_headers p x) es e

  All-Apart-host :
      (es : List HeaderValue) (e : HeaderValue)
      → key_of_entry lib e ≡ codes "Host"
      → All (λ x. Apart (key_of_entry lib) (not_host lib) x e) es
  All-Apart-host [] e h = tt
  All-Apart-host (x ∷ es) e h = (host x, All-Apart-host es e h)
    where
      host : (x : HeaderValue) → Apart (key_of_entry lib) (not_host lib) x e
      host x = elim (Bool-cases (text_eq (codes "Host") (key_of_entry lib x))) [
        | inl same ↦
            rw
              (
                h,
                sym ((text_eq_iff (codes "Host") (key_of_entry lib x)).0 same),
                (text_eq_iff (codes "Host") (codes "Host")).1 refl,
              )
              refl
        | inr other ↦ rw (h, other) (ground arith)
      ]

  -- Where "Host" may be rewritten and `headersPolicyRoute` accepts a policy, it accepts the policy with
  -- a further entry for "Host" whose value is not a `%REQ(...)%`, and that entry's value replaces what
  -- earlier entries for "Host" said.
  pub headers_policy_route-host :
      (set : List HeaderValue) (remove : List Text) (e : HeaderValue) (p : HeadersPolicy)
      → key_of_entry lib e ≡ codes "Host"
      → extract_host_rewrite_header_value find_string_submatch trim_space e.value ≡ []
      → headers_policy_route lib (some (record { set = set; remove = remove })) true dynamic_headers
        ≡ inr (some p)
      → headers_policy_route lib
          (some (record { set = set ++ e ∷ []; remove = remove }))
          true
          dynamic_headers
        ≡ inr (some (record p { host_rewrite = e.value }))
  unfolding put_entry policy_of
  headers_policy_route-host set remove e p host plain accepted =
      let given : HeadersSpec = record { set = set; remove = remove } in
      let longer : HeadersSpec = record { set = set ++ e ∷ []; remove = remove } in
      let (ok, same) = (headers_policy_route_iff true given p).0 accepted in
      let is_host_entry : is_host (key_of_entry lib e) ≡ true =
        rw host ((text_eq_iff (codes "Host") (codes "Host")).1 refl) in
      (headers_policy_route_iff true longer (record p { host_rewrite = e.value })).1 (
        (
          All-snoc (λ x. is_allowed lib true x ≡ true) set e ok.0 (rw is_host_entry refl),
          Pairs-snoc (Apart (key_of_entry lib) (not_host lib)) set e ok.1
              (All-Apart-host set e host),
          ok.2,
          ok.3,
        ),
        rw (put_entries-snoc no_policy set e, is_host_entry, plain, sym same) refl,
      )
