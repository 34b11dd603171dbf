-- ===== src/Listeners.antt =====
-- Validation of Gateway listeners (internal/gatewayapi/listeners.go).
pub mod Ports
pub mod Laws
pub mod Result
pub mod Complete
use contour.Prelude.{
  ℕ, zero, suc, ◌+◌, ◌-◌, ◌/◌, ◌%◌, Bool, true, false, not, ◌&&◌, Option, none, some, List, [], ◌∷◌,
  ◌++◌, Text, codes, text_eq, is_empty, if◌then◌else◌, ◌==◌, ltb, leb, any, insert,
}

-- `gatewayapi_v1.ProtocolType` with `ContourHTTPSProtocolType`; `other` is any other string.
pub data Protocol : Type 0 where
  http https tls tcp contour_https : Protocol
  other : Text → Protocol

-- What the validation reads of `gatewayapi_v1.Listener`. A port is between 1 and 65535.
pub record Listener : Type 0 where
  pub name : Text
  pub hostname : Option Text
  pub port : ℕ
  pub protocol : Protocol

pub record ListenerPort : Type 0 where
  pub name : Text
  pub port : ℕ
  pub container_port : ℕ
  pub protocol : Text

-- The conditions that are set, by type, status and reason; messages are left out.
pub data ConditionType : Type 0 where
  programmed accepted conflicted : ConditionType

pub data Reason : Type 0 where
  invalid unsupported_protocol port_unavailable protocol_conflict hostname_conflict : Reason

pub record ListenerCondition : Type 0 where
  pub type : ConditionType
  pub status : Bool
  pub reason : Reason

-- The maps are lists of entries, one for each key.
pub record ValidateListenersResult : Type 0 where
  pub listener_names : List (Text × Text)
  pub ports : List ListenerPort
  pub invalid_listener_conditions : List (Text × ListenerCondition)

-- `toContainerPort`; the subtraction is made above 65535 only.
unfoldable pub to_container_port : ℕ → ℕ
to_container_port listener_port =
    let p = listener_port + 8000 in
    let q = if ltb 65535 p then p - 65535 else p in if leb q 1023 then q + 1023 else q

unfoldable pub conflicted_condition : Reason → ListenerCondition
conflicted_condition reason = record { type = conflicted; status = true; reason = reason }

-- `compatibleTLSProtocols.Has`.
abbrev pub is_tls_protocol : Protocol → Bool
is_tls_protocol https = true
is_tls_protocol tls = true
is_tls_protocol contour_https = true
is_tls_protocol _ = false

abbrev is_http : Protocol → Bool
is_http http = true
is_http _ = false

abbrev is_tcp : Protocol → Bool
is_tcp tcp = true
is_tcp _ = false

abbrev pub is_supported : Protocol → Bool
is_supported (other p) = false
is_supported _ = true

-- `ptr.Deref(listener.Hostname, "")`.
abbrev pub hostname_of : Listener → Text
hostname_of l = elim l.hostname [ none ↦ [] | some h ↦ h ]

-- The `switch` on protocols: whether the other listener's protocol is in conflict.
unfoldable pub protocol_conflicts : Protocol → Protocol → Bool
protocol_conflicts http o = not (is_http o)
protocol_conflicts https o = not (is_tls_protocol o)
protocol_conflicts tls o = not (is_tls_protocol o)
protocol_conflicts contour_https o = not (is_tls_protocol o)
protocol_conflicts tcp o = not (is_tcp o)
protocol_conflicts (other p) o = false

-- The loop over the listeners before this one, in their order.
unfoldable pub find_conflict : Listener → List Listener → Option ListenerCondition
unfolding conflicted_condition
find_conflict l [] = none
find_conflict l (o ∷ earlier) =
    let rest = find_conflict l earlier in
    if not (l.port == o.port)
    then (if to_container_port l.port == to_container_port o.port
        then some (record { type = accepted; status = false; reason = port_unavailable })
        else rest)
    else if protocol_conflicts l.protocol o.protocol
    then some (conflicted_condition protocol_conflict)
    else if text_eq (hostname_of l) (hostname_of o)
    then some (conflicted_condition hostname_conflict)
    else rest

-- The `protocol` of the Envoy listener.
unfoldable pub envoy_protocol : Protocol → Text
envoy_protocol http = codes "http"
envoy_protocol https = codes "https"
envoy_protocol tls = codes "https"
envoy_protocol contour_https = codes "https"
envoy_protocol tcp = codes "tcp"
envoy_protocol (other p) = []

-- `%d`, with as many digits as there is fuel for.
unfoldable pub decimal : ℕ → ℕ → Text → Text
decimal zero n digits = digits
decimal (suc fuel) n digits =
    let more = decimal fuel (n / 10) ((b'0' + n % 10) ∷ digits) in
    if ltb n 10 then (b'0' + n) ∷ digits else more

-- `fmt.Sprintf("%s-%d", protocol, listener.Port)`; ten digits hold any int32.
unfoldable pub envoy_listener_name : Listener → Text
unfolding envoy_protocol decimal
envoy_listener_name l = envoy_protocol l.protocol ++ b'-' ∷ decimal 10 l.port []

-- The rest of a round: the listener's name and, if it is new, its port.
unfoldable pub add_listener : Listener → ValidateListenersResult → ValidateListenersResult
unfolding envoy_listener_name to_container_port
add_listener l result =
    let name = envoy_listener_name l in
    let named = record result {
      listener_names = insert text_eq l.name name result.listener_names;
    } in
    if any (λ (p : ListenerPort). text_eq p.name name) result.ports then named else record named {
      ports =
          result.ports
          ++ record {
            name = name;
            port = l.port;
            container_port = to_container_port l.port;
            protocol = envoy_protocol l.protocol;
          }
            ∷ [];
    }

-- What a round does with the condition that it found.
unfoldable pub settle :
    Listener → Option ListenerCondition → ValidateListenersResult → ValidateListenersResult
unfolding add_listener
settle l none result = add_listener l result
settle l (some c) result = record result {
  invalid_listener_conditions = insert text_eq l.name c result.invalid_listener_conditions;
}

-- The libraries that judge host names: whether `net.ParseIP` parses the name, and whether
-- `IsWildcardDNS1123Subdomain` and `IsDNS1123Subdomain` find no error in it.
pub record HostnameRules : Type 0 where
  pub is_ip : Text → Bool
  pub is_wildcard_subdomain : Text → Bool
  pub is_subdomain : Text → Bool

module _ (rules : HostnameRules) where
  unfoldable pub is_valid_hostname : Text → Bool
  is_valid_hostname hostname =
      if rules.is_ip hostname
      then false
      else if any (λ c. c == b'*') hostname
      then rules.is_wildcard_subdomain hostname
      else rules.is_subdomain hostname

  -- One round of the loop up to `if conflicted`: the condition that it sets, if any.
  unfoldable pub check_listener : List Listener → Listener → Option ListenerCondition
  unfolding is_valid_hostname find_conflict protocol_conflicts to_container_port
  check_listener earlier l =
      if not (is_empty (hostname_of l)) && not (is_valid_hostname (hostname_of l))
      then some (record { type = programmed; status = false; reason = invalid })
      else if not (is_supported l.protocol)
      then some (record { type = accepted; status = false; reason = unsupported_protocol })
      else find_conflict l earlier

  -- The loop, with the listeners already seen.
  unfoldable pub validate_from :
      List Listener → List Listener → ValidateListenersResult → ValidateListenersResult
  validate_from earlier [] result = result
  validate_from earlier (l ∷ ls) result =
      validate_from (earlier ++ l ∷ []) ls (settle l (check_listener earlier l) result)

  unfoldable pub validate_listeners : List Listener → ValidateListenersResult
  unfolding validate_from check_listener settle
  validate_listeners listeners =
      validate_from [] listeners
        (record { listener_names = []; ports = []; invalid_listener_conditions = [] })
