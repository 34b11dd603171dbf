-- ===== src/Listeners/Ports.antt =====
-- The container port of a listener's port.
use contour.Prelude.{ℕ, ◌+◌, ◌≤◌, ◌≡◌, ◌⊎◌, inl, inr, ◌↔◌, arith}
use native.Mathlib.Decide.{ℕ_discrete}
use contour.Listeners.{to_container_port}

-- The container port of a valid port is a valid and unprivileged port.
pub to_container_port_bounds :
    (p : ℕ) → 1 ≤ p → p ≤ 65535 → (1024 ≤ to_container_port p) × (to_container_port p ≤ 65535)
unfolding to_container_port
to_container_port_bounds p low high = ground arith

-- Two valid ports share a container port exactly if they are equal, or are 1023 apart with the lower
-- one in the range from 57536 to 58558.
pub to_container_port-eq_iff :
    (p q : ℕ)
    → 1 ≤ p
    → p ≤ 65535
    → 1 ≤ q
    → q ≤ 65535
    → p ≤ q
    → (to_container_port p ≡ to_container_port q)
      ↔ ((p ≡ q) ⊎ ((57536 ≤ p) × (p ≤ 58558) × (q ≡ p + 1023)))
unfolding to_container_port
to_container_port-eq_iff p q p1 p2 q1 q2 le = (collide, λ c. ground arith)
  where
    collide :
        to_container_port p ≡ to_container_port q
        → (p ≡ q) ⊎ ((57536 ≤ p) × (p ≤ 58558) × (q ≡ p + 1023))
    collide e = elim (ℕ_discrete p q) [
      | yes same ↦ inl same
      | no other ↦ inr (ground arith, ground arith, ground arith)
    ]
