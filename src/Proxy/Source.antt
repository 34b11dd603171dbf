-- ===== src/Proxy/Source.antt =====
-- What the processor gets from outside: libraries, and the services and secrets of the cache.
use contour.Prelude.{Bool, Option, ◌⊎◌, Text}
use contour.Timeout.{Duration}
use contour.Policy.Headers.{Library}
use contour.Policy.Settings.{ℤ, CircuitBreakers}
use contour.Status.Updates.{NamespacedName}

-- `Service` of internal/dag/dag.go: the name and port of the weighted service, the protocol, the
-- limits and the external name.
pub record Service : Type 0 where
  pub upstream : NamespacedName
  pub port : ℤ
  pub health_port : ℤ
  pub protocol : Text
  pub circuit_breakers : CircuitBreakers
  pub external_name : Text

pub data LookupError : Type 0 where
  delegation_not_permitted other_error : LookupError

-- Functions of other modules and of the Go library: `none` and `inl` are errors.
pub record Externals : Type 1 where
  pub lib : Library
  -- `regexp.Compile`.
  pub compiles : Text → Bool
  pub quote_meta : Text → Text
  pub parse_duration : Text → Option Duration
  -- float64, 1.0 and `strconv.ParseFloat`.
  pub Float : Type 0
  pub one : Float
  pub parse_float : Text → Option Float
  -- `net.IPNet` and `net.ParseCIDR`.
  pub Cidr : Type 0
  pub parse_cidr : Text → Option Cidr
  -- `strconv.Itoa`.
  pub itoa : ℤ → Text

-- What the processor asks of the DAG and of the cache: `EnsureService`, `LookupUpstreamValidation` of a
-- service's validation (by the names of the CA's secret and of the namespace), and
-- `LookupTLSSecretInsecure`.
pub record Backend : Type 1 where
  pub Validation : Type 0
  pub PeerValidation : Type 0
  pub Secret : Type 0
  pub ensure_service : NamespacedName → (port health_port : ℤ) → Option Service
  pub lookup_upstream_validation : Validation → (namespace : Text) → LookupError ⊎ PeerValidation
  pub lookup_client_certificate : NamespacedName → Option Secret
