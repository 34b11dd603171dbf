-- ===== src/Listeners/Laws.antt =====
-- Which listeners are accepted together, and what is opened for them.
use contour.Prelude.{
  ◌≡◌, ◌≢◌, refl, ◌↔◌, inl, inr, true, false, ◌||◌, none, List, [], ◌∷◌, arith, text_eq,
  text_eq_iff, is_empty, All, Bool-cases, ◌==◌,
}
use contour.Listeners.{
  Protocol, http, https, tls, tcp, contour_https, other, Listener, to_container_port, hostname_of,
  protocol_conflicts, find_conflict, is_valid_hostname, is_supported, envoy_protocol, HostnameRules,
  check_listener,
}

-- Two listeners can be served together: on different ports they have different container ports, and
-- on one port they are served by Envoy listeners of one protocol, for different host names.
pub record IsCompatible (l o : Listener) : Type 0 where
  pub ports : l.port ≢ o.port → to_container_port l.port ≢ to_container_port o.port
  pub protocols : l.port ≡ o.port → envoy_protocol l.protocol ≡ envoy_protocol o.protocol
  pub hostnames : l.port ≡ o.port → hostname_of l ≢ hostname_of o

protocol_conflicts_iff :
    (p q : Protocol)
    → is_supported p ≡ true
    → (protocol_conflicts p q ≡ false) ↔ (envoy_protocol p ≡ envoy_protocol q)
unfolding protocol_conflicts envoy_protocol
protocol_conflicts_iff http q h = (λ e. ground arith, λ e. ground arith)
protocol_conflicts_iff https q h = (λ e. ground arith, λ e. ground arith)
protocol_conflicts_iff tls q h = (λ e. ground arith, λ e. ground arith)
protocol_conflicts_iff contour_https q h = (λ e. ground arith, λ e. ground arith)
protocol_conflicts_iff tcp q h = (λ e. ground arith, λ e. ground arith)
protocol_conflicts_iff (other s) q h = cc

find_conflict-cons :
    (l o : Listener) (earlier : List Listener)
    → is_supported l.protocol ≡ true
    → (find_conflict l (o ∷ earlier) ≡ none) ↔ (IsCompatible l o × (find_conflict l earlier ≡ none))
unfolding find_conflict
find_conflict-cons l o earlier h =
    let same_protocol = protocol_conflicts_iff l.protocol o.protocol h in
    let same_hostname = text_eq_iff (hostname_of l) (hostname_of o) in
    elim (Bool-cases (l.port == o.port)) [
      | inl same ↦ (
        λ e. (
          record {
            ports = λ apart. absurd (apart (ground arith));
            protocols = λ _. same_protocol.0 (ground arith);
            hostnames = λ _ k. absurd (ground (arith, same_hostname.1 k));
          },
          ground arith,
        ),
        λ c. ground (
          arith,
          same_protocol.1 (c.0.protocols (ground arith)),
          λ (k : text_eq (hostname_of l) (hostname_of o) ≡ true).
              c.0.hostnames (ground arith) (same_hostname.0 k),
        ),
      )
      | inr differ ↦ (
        λ e. (
          record {
            ports = λ _ k. absurd (ground arith);
            protocols = λ k. absurd (ground arith);
            hostnames = λ k _. ground arith;
          },
          ground arith,
        ),
        λ c. ground (arith, c.0.ports (ground arith)),
      )
    ]

find_conflict_iff :
    (l : Listener) (earlier : List Listener)
    → is_supported l.protocol ≡ true
    → (find_conflict l earlier ≡ none) ↔ All (IsCompatible l) earlier
unfolding find_conflict
find_conflict_iff l [] h = (λ _. tt, λ _. refl)
find_conflict_iff l (o ∷ earlier) h =
    let step = find_conflict-cons l o earlier h in
    let ih = find_conflict_iff l earlier h in
    (λ e. ((step.0 e).0, ih.0 (step.0 e).1), λ a. step.1 (a.0, ih.1 a.1))

module _ (rules : HostnameRules) where
  -- A listener is accepted exactly if its host name, where it has one, is valid, its protocol is
  -- supported, and it is compatible with every listener before it.
  pub check_listener_iff :
      (earlier : List Listener) (l : Listener)
      → (check_listener rules earlier l ≡ none) ↔ (
          ((is_empty (hostname_of l) || is_valid_hostname rules (hostname_of l)) ≡ true)
          × (is_supported l.protocol ≡ true)
          × All (IsCompatible l) earlier)
  unfolding check_listener
  check_listener_iff earlier l = (
    λ e.
        (ground arith, ground arith, (find_conflict_iff l earlier (ground arith)).0 (ground arith)),
    λ c. ground (arith, c.0, c.1, (find_conflict_iff l earlier c.1).1 c.2),
  )
