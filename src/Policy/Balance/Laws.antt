-- ===== src/Policy/Balance/Laws.antt =====
-- What the accepted hash policies look like.
use contour.Prelude.{
  ℕ, ◌≤◌, ◌≡◌, refl, ◌∙◌, ap, true, false, some, List, [], ◌∷◌, ◌++◌, append-nil, arith, Text,
  text_eq, is_empty, if◌then◌else◌, All, All-snoc, Pairs, Pairs-snoc,
}
use contour.Policy.Headers.{Library}
use contour.Policy.Balance.{
  HashSpec, RequestHashPolicy, LoadBalancerSpec, Hashing, hash_policy, hash_all, no_hashing,
  request_hash, round_robin, settle_strategy, load_balancer_policy,
  load_balancer_request_hash_policies,
}
use contour.Policy.Balance.Rounds.{
  headers_of, parameters_of, source_ips, Differ, any-All, headers_of-snoc, parameters_of-snoc,
  source_ips-snoc, IsSingle, is_nil, plain, Round, ignored, address, header, parameter, round,
}

module _ (lib : Library) where
  open lib use {is_http_header_name}

  -- The variables of the loop agree with the policies accepted so far.
  record IsHashing (s : Hashing) : Type 0 where
    singles : All IsSingle s.rhps
    addresses : source_ips s.rhps ≡ (if s.hash_source_ip_set then 1 else 0)
    headers : headers_of s.rhps ≡ s.header_hash_policies
    parameters : parameters_of s.rhps ≡ s.query_parameter_hash_policies
    valid : All (λ n. is_http_header_name n ≡ true) s.header_hash_policies
    named : All (λ n. is_empty n ≡ false) s.query_parameter_hash_policies
    headers_differ : Pairs Differ s.header_hash_policies
    parameters_differ : Pairs Differ s.query_parameter_hash_policies

  round-IsHashing : (s s' : Hashing) → IsHashing s → Round lib s s' → IsHashing s'
  round-IsHashing s _ h ignored = record {
    singles = h.singles;
    addresses = h.addresses;
    headers = h.headers;
    parameters = h.parameters;
    valid = h.valid;
    named = h.named;
    headers_differ = h.headers_differ;
    parameters_differ = h.parameters_differ;
  }
  round-IsHashing s _ h (address terminal unset) =
      let r = record (plain terminal) { hash_source_ip = true } in
      record {
        singles = All-snoc IsSingle s.rhps r h.singles refl;
        addresses = source_ips-snoc s.rhps r ∙ rw (h.addresses, unset) refl;
        headers = headers_of-snoc s.rhps r ∙ append-nil (headers_of s.rhps) ∙ h.headers;
        parameters = parameters_of-snoc s.rhps r ∙ append-nil (parameters_of s.rhps) ∙ h.parameters;
        valid = h.valid;
        named = h.named;
        headers_differ = h.headers_differ;
        parameters_differ = h.parameters_differ;
      }
  round-IsHashing s _ h (header terminal n good new) =
      let r = record (plain terminal) { header_name = some n } in
      record {
        singles = All-snoc IsSingle s.rhps r h.singles refl;
        addresses = source_ips-snoc s.rhps r ∙ omega (arith, h.addresses);
        headers = headers_of-snoc s.rhps r ∙ ap (λ names. names ++ n ∷ []) h.headers;
        parameters = parameters_of-snoc s.rhps r ∙ append-nil (parameters_of s.rhps) ∙ h.parameters;
        valid = All-snoc (λ n. is_http_header_name n ≡ true) s.header_hash_policies n h.valid good;
        named = h.named;
        headers_differ =
            Pairs-snoc Differ s.header_hash_policies n h.headers_differ
              (any-All n s.header_hash_policies new);
        parameters_differ = h.parameters_differ;
      }
  round-IsHashing s _ h (parameter terminal n good new) =
      let r = record (plain terminal) { parameter_name = some n } in
      record {
        singles = All-snoc IsSingle s.rhps r h.singles refl;
        addresses = source_ips-snoc s.rhps r ∙ omega (arith, h.addresses);
        headers = headers_of-snoc s.rhps r ∙ append-nil (headers_of s.rhps) ∙ h.headers;
        parameters = parameters_of-snoc s.rhps r ∙ ap (λ names. names ++ n ∷ []) h.parameters;
        valid = h.valid;
        named = All-snoc (λ n. is_empty n ≡ false) s.query_parameter_hash_policies n h.named good;
        headers_differ = h.headers_differ;
        parameters_differ =
            Pairs-snoc Differ s.query_parameter_hash_policies n h.parameters_differ
              (any-All n s.query_parameter_hash_policies new);
      }

  hash_all-IsHashing :
      (s : Hashing) (ps : List HashSpec) → IsHashing s → IsHashing (hash_all lib s ps)
  unfolding hash_all
  hash_all-IsHashing s [] h = h
  hash_all-IsHashing s (p ∷ ps) h = hash_all-IsHashing (hash_policy lib s p) ps (
      round-IsHashing s (hash_policy lib s p) h (
        round lib s p.terminal p.hash_source_ip p.header_hash_options
          p.query_parameter_hash_options))

  -- What the result promises of its policies.
  pub record AreHashPolicies (rhps : List RequestHashPolicy) : Type 0 where
    pub singles : All IsSingle rhps
    pub addresses : source_ips rhps ≤ 1
    pub valid : All (λ n. is_http_header_name n ≡ true) (headers_of rhps)
    pub named : All (λ n. is_empty n ≡ false) (parameters_of rhps)
    pub headers_differ : Pairs Differ (headers_of rhps)
    pub parameters_differ : Pairs Differ (parameters_of rhps)

  hash_all-AreHashPolicies :
      (ps : List HashSpec) → AreHashPolicies (hash_all lib no_hashing ps).rhps
  hash_all-AreHashPolicies ps =
      let h = hash_all-IsHashing no_hashing ps (record {
        singles = tt;
        addresses = refl;
        headers = refl;
        parameters = refl;
        valid = tt;
        named = tt;
        headers_differ = tt;
        parameters_differ = tt;
      }) in
      record {
        singles = h.singles;
        addresses = rw h.addresses (ground arith);
        headers_differ = rw h.headers h.headers_differ;
        parameters_differ = rw h.parameters h.parameters_differ;
        valid = rw h.headers h.valid;
        named = rw h.parameters h.named;
      }

  -- The three results together.
  abbrev pub IsHashResult : List RequestHashPolicy × Text × ℕ → Type 0
  IsHashResult (rhps, strategy, warnings) =
      AreHashPolicies rhps
      × (strategy ≡ (if is_nil rhps then round_robin else request_hash))
      × ((if is_nil rhps then 1 else 0) ≤ warnings)

  settle_strategy-IsHashResult :
      (strategy : Text) (warnings : ℕ) (rhps : List RequestHashPolicy)
      → strategy ≡ request_hash
      → AreHashPolicies rhps
      → IsHashResult (settle_strategy strategy warnings rhps)
  unfolding settle_strategy
  settle_strategy-IsHashResult strategy warnings [] hash ok = (ok, refl, omega arith)
  settle_strategy-IsHashResult strategy warnings (r ∷ rs) hash ok = (ok, hash, omega arith)

  -- Where the strategy is a request hash, `loadBalancerRequestHashPolicies` returns policies each of
  -- which hashes one attribute, the address at most once, valid header names and nonempty parameter
  -- names no two of which are equal. It keeps the strategy exactly when a policy is left; else the
  -- strategy is round robin and there is a warning.
  pub load_balancer_request_hash_policies-IsHashResult :
      (lbp : LoadBalancerSpec)
      → lbp.strategy ≡ request_hash
      → IsHashResult (load_balancer_request_hash_policies lib (some lbp))
  unfolding load_balancer_request_hash_policies load_balancer_policy text_eq
  load_balancer_request_hash_policies-IsHashResult lbp hash = rw hash (
      settle_strategy-IsHashResult request_hash
        (hash_all lib no_hashing lbp.request_hash_policies).warnings
        (hash_all lib no_hashing lbp.request_hash_policies).rhps refl
        (hash_all-AreHashPolicies lbp.request_hash_policies))
