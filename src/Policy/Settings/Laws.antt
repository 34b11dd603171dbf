-- ===== src/Policy/Settings/Laws.antt =====
-- Laws of the retry, timeout, health check and circuit breaker policies.
use contour.Prelude.{
  ℕ, zero, suc, ◌-◌, ◌%◌, ◌^◌, ◌≤◌, ◌<◌, ◌≡◌, refl, sym, ◌∙◌, ◌↔◌, ◌⊎◌, inl, inr, Option, none,
  some, List, [], ◌∷◌, ◌++◌, append_assoc, append-nil, arith, Text, All,
}
use contour.Timeout.{Duration, default_setting, parse}
use contour.Timeout.Laws.{IsSetting, parse-IsSetting}
use contour.Policy.Loops.{rounds_all, rounds-Good_iff}
use contour.Policy.Settings.{
  ℤ, pos, negsuc, num_retries, TimeoutSpec, RouteTimeoutPolicy, ClusterTimeoutPolicy,
  timeout_policy, StatusRange, add_status, expected_statuses, CircuitBreakers,
  service_circuit_breaker_policy,
}

-- The counts that end up as no retry.
abbrev pub NoRetry : ℤ → Type 0
NoRetry (pos n) = (1 ≤ n) × (n % 2 ^ 32 ≡ 0)
NoRetry (negsuc n) = (n ≡ 0) ⊎ (n % 2 ^ 32 ≡ 2 ^ 32 - 1)

-- The number of retries is a uint32, and it is zero exactly for -1 and for the other counts but 0
-- whose low 32 bits are zero, such as 4294967296.
pub num_retries-zero_iff : (z : ℤ) → (num_retries z < 2 ^ 32) × ((num_retries z ≡ 0) ↔ NoRetry z)
unfolding num_retries
num_retries-zero_iff (pos zero) = (ground arith, (λ e. ground arith, λ e. ground arith))
num_retries-zero_iff (pos (suc n)) = (omega arith, (λ e. (omega arith, e), λ e. e.1))
num_retries-zero_iff (negsuc zero) = (ground arith, (λ e. inl refl, λ e. refl))
num_retries-zero_iff (negsuc (suc n)) = (omega arith, (λ e. inr (omega arith), λ e. ground arith))

module _ (parse_duration : Text → Option Duration) where
  default-IsSetting : IsSetting default_setting
  unfolding default_setting
  default-IsSetting = record { one_of = refl; set_nonzero = refl; unset_zero = refl }

  timeout_policy-none :
      (connect : Duration) (r : RouteTimeoutPolicy) (c : ClusterTimeoutPolicy)
      → timeout_policy parse_duration none connect ≡ inr (r, c)
      → (r.response_timeout ≡ default_setting)
        × (r.idle_stream_timeout ≡ default_setting)
        × (c.idle_connection_timeout ≡ default_setting)
        × (c.connect_timeout ≡ connect)
  unfolding timeout_policy
  timeout_policy-none connect r c e = ground arith

  timeout_policy-parse :
      (tp : TimeoutSpec) (connect : Duration) (r : RouteTimeoutPolicy) (c : ClusterTimeoutPolicy)
      → timeout_policy parse_duration (some tp) connect ≡ inr (r, c)
      → (parse parse_duration tp.response ≡ some r.response_timeout)
        × (parse parse_duration tp.idle ≡ some r.idle_stream_timeout)
        × (parse parse_duration tp.idle_connection ≡ some c.idle_connection_timeout)
        × (c.connect_timeout ≡ connect)
  unfolding timeout_policy
  timeout_policy-parse tp connect r c e = ground arith

  -- Every timeout that `timeoutPolicy` returns, with or without a policy, is well formed, and the
  -- connect timeout is passed on.
  pub timeout_policy-IsSetting :
      (tp : Option TimeoutSpec) (connect : Duration) (r : RouteTimeoutPolicy)
      (c : ClusterTimeoutPolicy)
      → timeout_policy parse_duration tp connect ≡ inr (r, c)
      → IsSetting r.response_timeout
        × IsSetting r.idle_stream_timeout
        × IsSetting c.idle_connection_timeout
        × (c.connect_timeout ≡ connect)
  timeout_policy-IsSetting none connect r c e =
      let (response, idle, idle_connection, kept) = timeout_policy-none connect r c e in
      (
        rw response default-IsSetting,
        rw idle default-IsSetting,
        rw idle_connection default-IsSetting,
        kept,
      )
  timeout_policy-IsSetting (some tp) connect r c e =
      let (response, idle, idle_connection, kept) = timeout_policy-parse tp connect r c e in
      let parsed = parse-IsSetting parse_duration in
      (
        parsed tp.response r.response_timeout (inl response),
        parsed tp.idle r.idle_stream_timeout (inl idle),
        parsed tp.idle_connection c.idle_connection_timeout (inl idle_connection),
        kept,
      )

abbrev pub InRange : StatusRange → Type 0
InRange r =
    ((s : ℕ) × (r.start ≡ pos s) × (100 ≤ s) × (s ≤ 599))
    × ((e : ℕ) × (r.end ≡ pos e) × (101 ≤ e) × (e ≤ 600))

abbrev statuses_onto : List StatusRange → StatusRange → List StatusRange
statuses_onto rs r = rs ++ r ∷ []

statuses_onto-all :
    (rs ranges : List StatusRange) → rounds_all statuses_onto rs ranges ≡ rs ++ ranges
statuses_onto-all rs [] = sym (append-nil rs)
statuses_onto-all rs (r ∷ ranges) =
    statuses_onto-all (rs ++ r ∷ []) ranges ∙ append_assoc rs (r ∷ []) ranges

add_status-inr :
    (rs : List StatusRange) (r : StatusRange) → InRange r → add_status rs r ≡ inr (rs ++ r ∷ [])
unfolding add_status
add_status-inr rs r ((s, es, low, high), (e, ee, low', high')) = rw (es, ee) (ground arith)

in_range :
    (rs : List StatusRange) (start end : ℤ) (rs' : List StatusRange)
    → add_status rs (record { start = start; end = end }) ≡ inr rs'
    → InRange (record { start = start; end = end })
unfolding add_status
in_range rs (pos s) (pos e) rs' h =
    ((s, refl, ground arith, ground arith), (e, refl, ground arith, ground arith))
in_range rs (pos s) (negsuc e) rs' h = ground arith
in_range rs (negsuc s) e rs' h = ground arith

add_status-InRange :
    (rs : List StatusRange) (r : StatusRange) (rs' : List StatusRange)
    → add_status rs r ≡ inr rs'
    → InRange r
add_status-InRange rs r rs' h = in_range rs r.start r.end rs' h

-- The expected statuses are accepted exactly when every start is in [100, 599] and every end is in
-- [101, 600], and they are then passed on as they are.
pub expected_statuses_iff :
    (ranges rs : List StatusRange)
    → (expected_statuses ranges ≡ inr rs) ↔ (All InRange ranges × (ranges ≡ rs))
unfolding expected_statuses
expected_statuses_iff ranges rs =
    let loop =
      rounds-Good_iff InRange add_status statuses_onto add_status-inr add_status-InRange [] rs
        ranges in
    let all = statuses_onto-all [] ranges in
    (
      λ e. let (good, same) = loop.0 e in (good, sym all ∙ same),
      λ (good, same). loop.1 (good, all ∙ same),
    )

-- A second application of the same defaults changes nothing.
pub service_circuit_breaker_policy_idempotent :
    (s cb : Option CircuitBreakers)
    → service_circuit_breaker_policy (service_circuit_breaker_policy s cb) cb
      ≡ service_circuit_breaker_policy s cb
unfolding service_circuit_breaker_policy
service_circuit_breaker_policy_idempotent s cb = ground arith
