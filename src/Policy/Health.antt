-- ===== src/Policy/Health.antt =====
-- `httpHealthCheckPolicy` of internal/dag/policy.go.
use contour.Prelude.{
  ℕ, suc, ◌-◌, ◌*◌, ◌%◌, ◌^◌, ltb, ◌==◌, ◌⊎◌, inl, inr, Option, none, some, List, Text,
  if◌then◌else◌,
}
use contour.Policy.Settings.{ℤ, pos, negsuc, uint32, StatusRange, HealthError, expected_statuses}

-- The int64 whose low 64 bits are those of `n`, and of `-n`.
abbrev pub int64 : ℕ → ℤ
int64 n = let low = n % 2 ^ 64 in if ltb low (2 ^ 63) then pos low else negsuc (2 ^ 64 - 1 - low)

abbrev pub int64_neg : ℕ → ℤ
int64_neg n = let low = n % 2 ^ 64 in if low == 0 then pos 0 else int64 (2 ^ 64 - low)

-- `time.Duration(z) * time.Second`, which wraps.
unfoldable pub seconds : ℤ → ℤ
seconds (pos n) = int64 (n * 10 ^ 9)
seconds (negsuc n) = int64_neg (suc n * 10 ^ 9)

-- `HTTPHealthCheckPolicy` of apis/projectcontour/v1/httpproxy.go.
pub record HealthSpec : Type 0 where
  pub path : Text
  pub host : Text
  pub interval_seconds : ℤ
  pub timeout_seconds : ℤ
  pub unhealthy_threshold_count : ℤ
  pub healthy_threshold_count : ℤ
  pub expected_statuses : List StatusRange

-- `HTTPHealthCheckPolicy` of internal/dag/dag.go; durations are nanoseconds.
pub record HttpHealthCheckPolicy : Type 0 where
  pub path : Text
  pub host : Text
  pub interval : ℤ
  pub timeout : ℤ
  pub unhealthy_threshold : ℕ
  pub healthy_threshold : ℕ
  pub expected_statuses : List StatusRange

unfoldable pub http_health_check_policy :
    Option HealthSpec → HealthError ⊎ Option HttpHealthCheckPolicy
unfolding seconds
http_health_check_policy none = inr none
http_health_check_policy (some hc) = elim (expected_statuses hc.expected_statuses) [
  | inl err ↦ inl err
  | inr statuses ↦ inr (
      some (record {
        path = hc.path;
        host = hc.host;
        interval = seconds hc.interval_seconds;
        timeout = seconds hc.timeout_seconds;
        unhealthy_threshold = uint32 hc.unhealthy_threshold_count;
        healthy_threshold = uint32 hc.healthy_threshold_count;
        expected_statuses = statuses;
      }))
]
