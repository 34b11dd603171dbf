-- ===== src/Policy/Settings.antt =====
-- `retryOn`, `retryPolicy`, `timeoutPolicy`, the expected statuses of
-- `httpHealthCheckPolicy`, and `serviceCircuitBreakerPolicy` of internal/dag/policy.go.
pub mod Laws
use contour.Prelude.{
  ℕ, zero, suc, ◌+◌, ◌-◌, ◌*◌, ◌%◌, ◌^◌, ◌⊎◌, inl, inr, Bool, true, false, ◌||◌, ltb, ◌==◌, Option,
  none, some, List, [], ◌∷◌, ◌++◌, Text, codes, if◌then◌else◌,
}
use contour.Timeout.{Duration, Setting, default_setting, duration_setting, parse}
use contour.Policy.Loops.{rounds}

-- An int64: `negsuc n` is -(n + 1).
pub data ℤ : Type 0 where
  pos negsuc : ℕ → ℤ

-- The conversion to uint32, which keeps the low bits.
abbrev pub uint32 : ℤ → ℕ
uint32 (pos n) = n % 2 ^ 32
uint32 (negsuc n) = 2 ^ 32 - 1 - n % 2 ^ 32

pub record RetrySpec : Type 0 where
  pub num_retries : ℤ
  pub per_try_timeout : Text
  pub retry_on : List Text
  pub retriable_status_codes : List ℕ

pub record RetryPolicy : Type 0 where
  pub retry_on : Text
  pub retriable_status_codes : List ℕ
  pub num_retries : ℕ
  pub per_try_timeout : Setting

-- `strings.Join` with a comma.
abbrev join : List Text → Text
join [] = []
join (s ∷ []) = s
join (s ∷ t ∷ rest) = s ++ codes "," ++ join (t ∷ rest)

unfoldable pub retry_on : List Text → Text
retry_on [] = codes "5xx"
retry_on (s ∷ rest) = join (s ∷ rest)

-- The `switch rp.NumRetries`, and the conversion of its result.
unfoldable pub num_retries : ℤ → ℕ
num_retries (negsuc zero) = uint32 (pos 0)
num_retries (pos zero) = uint32 (pos 1)
num_retries (pos (suc n)) = uint32 (pos (suc n))
num_retries (negsuc (suc n)) = uint32 (negsuc (suc n))

pub record TimeoutSpec : Type 0 where
  pub response : Text
  pub idle : Text
  pub idle_connection : Text

pub record RouteTimeoutPolicy : Type 0 where
  pub response_timeout : Setting
  pub idle_stream_timeout : Setting

pub record ClusterTimeoutPolicy : Type 0 where
  pub idle_connection_timeout : Setting
  pub connect_timeout : Duration

pub data TimeoutError : Type 0 where
  response_error idle_error idle_connection_error : TimeoutError

-- `time.ParseDuration` is a parameter; `none` is its error.
module _ (parse_duration : Text → Option Duration) where
  unfoldable pub retry_policy : Option RetrySpec → Option RetryPolicy
  unfolding retry_on num_retries
  retry_policy none = none
  retry_policy (some rp) = some (record {
    retry_on = retry_on rp.retry_on;
    retriable_status_codes = rp.retriable_status_codes;
    num_retries = num_retries rp.num_retries;
    per_try_timeout = elim (parse_duration rp.per_try_timeout) [
      | none ↦ default_setting
      | some d ↦ duration_setting d
    ];
  })

  unfoldable pub timeout_policy :
      Option TimeoutSpec → Duration → TimeoutError ⊎ (RouteTimeoutPolicy × ClusterTimeoutPolicy)
  timeout_policy none connect_timeout = inr (
    record { response_timeout = default_setting; idle_stream_timeout = default_setting },
    record { idle_connection_timeout = default_setting; connect_timeout = connect_timeout },
  )
  timeout_policy (some tp) connect_timeout = elim (parse parse_duration tp.response) [
    | none ↦ inl response_error
    | some response ↦ elim (parse parse_duration tp.idle) [
      | none ↦ inl idle_error
      | some idle ↦ elim (parse parse_duration tp.idle_connection) [
        | none ↦ inl idle_connection_error
        | some idle_connection ↦ inr (
          record { response_timeout = response; idle_stream_timeout = idle },
          record { idle_connection_timeout = idle_connection; connect_timeout = connect_timeout },
        )
      ]
    ]
  ]

-- An `HTTPStatusRange`.
pub record StatusRange : Type 0 where
  pub start : ℤ
  pub end : ℤ

pub data HealthError : Type 0 where
  invalid_start invalid_end : HealthError

-- `z < n` and `z > n`.
abbrev pub below : ℤ → ℕ → Bool
below (pos m) n = ltb m n
below (negsuc m) n = true

abbrev pub above : ℤ → ℕ → Bool
above (pos m) n = ltb n m
above (negsuc m) n = false

-- One round of the loop over `hc.ExpectedStatuses`.
unfoldable pub add_status : List StatusRange → StatusRange → HealthError ⊎ List StatusRange
add_status statuses r =
    if below r.start 100 || above r.start 599
    then inl invalid_start
    else if below r.end 101 || above r.end 600
    then inl invalid_end
    else inr (statuses ++ r ∷ [])

unfoldable pub expected_statuses : List StatusRange → HealthError ⊎ List StatusRange
unfolding add_status
expected_statuses ranges = rounds add_status [] ranges

-- `CircuitBreakers`, all uint32.
pub record CircuitBreakers : Type 0 where
  pub max_connections : ℕ
  pub max_pending_requests : ℕ
  pub max_requests : ℕ
  pub max_retries : ℕ
  pub per_host_max_connections : ℕ

abbrev pub or_default : ℕ → ℕ → ℕ
or_default own default = if own == 0 then default else own

-- The service by its circuit breakers, the only field that the function reads or writes.
unfoldable pub service_circuit_breaker_policy :
    Option CircuitBreakers → Option CircuitBreakers → Option CircuitBreakers
service_circuit_breaker_policy none cb = none
service_circuit_breaker_policy (some s) none = some s
service_circuit_breaker_policy (some s) (some cb) = some (record {
  max_connections = or_default s.max_connections cb.max_connections;
  max_pending_requests = or_default s.max_pending_requests cb.max_pending_requests;
  max_requests = or_default s.max_requests cb.max_requests;
  max_retries = or_default s.max_retries cb.max_retries;
  per_host_max_connections = or_default s.per_host_max_connections cb.per_host_max_connections;
})
