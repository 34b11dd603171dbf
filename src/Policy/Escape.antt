-- ===== src/Policy/Escape.antt =====
-- `escapeHeaderValue` and `extractHostRewriteHeaderValue` of internal/dag/policy.go.

use contour.Prelude.{
  ℕ, zero, suc, ◌-◌, Bool, true, false, ◌&&◌, ◌==◌, Option, none, some, List, [], ◌∷◌, ◌++◌, Text,
  codes, length, any, if◌then◌else◌,
}

abbrev pub has_prefix : Text → Text → Bool
has_prefix s [] = true
has_prefix [] (c ∷ p) = false
has_prefix (d ∷ s) (c ∷ p) = (c == d) && has_prefix s p

-- `strings.ReplaceAll` for an `old` that is not empty: `skip` bytes belong to the last occurrence.
unfoldable pub replace_from : Text → Text → ℕ → Text → Text
replace_from old new skip [] = []
replace_from old new (suc skip) (c ∷ s) = replace_from old new skip s
replace_from old new zero (c ∷ s) =
    let replaced = new ++ replace_from old new (length old - 1) s in
    let kept = c ∷ replace_from old new zero s in if has_prefix (c ∷ s) old then replaced else kept

unfoldable pub replace_all : Text → Text → Text → Text
unfolding replace_from
replace_all s old new = replace_from old new zero s

abbrev pub contains_percent : Text → Bool
contains_percent s = any (λ c. c == b'%') s

abbrev envoy_vars : List Text
envoy_vars =
    codes "DOWNSTREAM_REMOTE_ADDRESS"
    ∷ codes "DOWNSTREAM_REMOTE_ADDRESS_WITHOUT_PORT"
    ∷ codes "DOWNSTREAM_LOCAL_ADDRESS"
    ∷ codes "DOWNSTREAM_LOCAL_ADDRESS_WITHOUT_PORT"
    ∷ codes "DOWNSTREAM_LOCAL_PORT"
    ∷ codes "DOWNSTREAM_LOCAL_URI_SAN"
    ∷ codes "DOWNSTREAM_PEER_URI_SAN"
    ∷ codes "DOWNSTREAM_LOCAL_SUBJECT"
    ∷ codes "DOWNSTREAM_PEER_SUBJECT"
    ∷ codes "DOWNSTREAM_PEER_ISSUER"
    ∷ codes "DOWNSTREAM_TLS_SESSION_ID"
    ∷ codes "DOWNSTREAM_TLS_CIPHER"
    ∷ codes "DOWNSTREAM_TLS_VERSION"
    ∷ codes "DOWNSTREAM_PEER_FINGERPRINT_256"
    ∷ codes "DOWNSTREAM_PEER_FINGERPRINT_1"
    ∷ codes "DOWNSTREAM_PEER_SERIAL"
    ∷ codes "DOWNSTREAM_PEER_CERT"
    ∷ codes "DOWNSTREAM_PEER_CERT_V_START"
    ∷ codes "DOWNSTREAM_PEER_CERT_V_END"
    ∷ codes "HOSTNAME"
    ∷ codes "PROTOCOL"
    ∷ codes "UPSTREAM_REMOTE_ADDRESS"
    ∷ codes "RESPONSE_FLAGS"
    ∷ codes "RESPONSE_CODE_DETAILS"
    ∷ []

-- The loop over `dynamicHeaders`, a Go map: the list has its entries in the order of the iteration.
abbrev pub put_dynamic : List (Text × Text) → Text → Text
put_dynamic [] s = s
put_dynamic ((name, value) ∷ rest) s =
    put_dynamic rest (replace_all s (codes "%%" ++ name ++ codes "%%") value)

-- The loop over the names of Envoy's variables.
abbrev pub put_envoy : List Text → Text → Text
put_envoy [] s = s
put_envoy (name ∷ rest) s =
    put_envoy rest
      (replace_all s (codes "%%" ++ name ++ codes "%%") (codes "%" ++ name ++ codes "%"))

-- `regexp.ReplaceAllString` with the expression for `%REQ(...)%` is a parameter.
module _ (replace_req : Text → Text) where
  unfoldable pub escape_header_value : Text → List (Text × Text) → Text
  unfolding replace_all
  escape_header_value value dynamic_headers =
      if contains_percent value
      then replace_req (
          put_envoy envoy_vars
            (put_dynamic dynamic_headers (replace_all value (codes "%") (codes "%%"))))
      else value

-- `FindStringSubmatch` with the expression for `%REQ(name)%`, its group where it matches, and
-- `strings.TrimSpace` are parameters.
module _ (find_string_submatch : Text → Option Text) (trim_space : Text → Text) where
  unfoldable pub extract_host_rewrite_header_value : Text → Text
  extract_host_rewrite_header_value s = (elim (find_string_submatch s) [
    | none ↦ []
    | some name ↦ trim_space name
  ])
