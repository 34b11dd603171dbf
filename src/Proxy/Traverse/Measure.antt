-- ===== src/Proxy/Traverse/Measure.antt =====
-- The proxies that a call of `computeRoutes` has still to visit.
use contour.Prelude.{
  ℕ, suc, ◌≤◌, ◌<◌, ◌≡◌, refl, inl, inr, Bool, true, false, ◌||◌, some, List, [], ◌∷◌, ◌++◌, arith,
  if◌then◌else◌, any, length, find, eq_right, Bool-cases,
}
use contour.Status.Updates.{NamespacedName, same_name}
use contour.Status.Updates.Laws.{same_name-IsEquality}

abbrev pub seen : List NamespacedName → NamespacedName → Bool
seen visited k = any (λ v. same_name v k) visited

seen-snoc :
    (visited : List NamespacedName) (n k : NamespacedName)
    → seen (visited ++ n ∷ []) k ≡ (seen visited k || same_name n k)
seen-snoc [] n k = ground arith
seen-snoc (v ∷ visited) n k = ground (arith, seen-snoc visited n k)

seen-same :
    (visited : List NamespacedName) (n k : NamespacedName)
    → same_name k n ≡ true
    → seen visited k ≡ seen visited n
seen-same [] n k same = refl
seen-same (v ∷ visited) n k same =
    ground (arith, seen-same visited n k same, eq_right same_name same_name-IsEquality v k n same)

same_name_comm : (k n : NamespacedName) → same_name k n ≡ true → same_name n k ≡ true
same_name_comm k n same =
    rw (same_name-IsEquality.sound k n same) (same_name-IsEquality.reflexive n)

module _ {ℓ} {V : Type ℓ} where
  abbrev pub remaining : List NamespacedName → List (NamespacedName × V) → ℕ
  remaining visited [] = 0
  remaining visited ((k, v) ∷ m) =
      let rest = remaining visited m in if seen visited k then rest else suc rest

  pub remaining-nil : (m : List (NamespacedName × V)) → remaining [] m ≡ length m
  remaining-nil [] = refl
  remaining-nil ((k, v) ∷ m) = omega (arith, remaining-nil m)

  remaining-snoc_bounds :
      (visited : List NamespacedName) (n : NamespacedName) (m : List (NamespacedName × V))
      → remaining (visited ++ n ∷ []) m ≤ remaining visited m
  remaining-snoc_bounds visited n [] = omega arith
  remaining-snoc_bounds visited n ((k, v) ∷ m) =
      ground (arith, remaining-snoc_bounds visited n m, seen-snoc visited n k)

  pub remaining-snoc_less :
      (visited : List NamespacedName) (n : NamespacedName) (v : V) (m : List (NamespacedName × V))
      → find same_name n m ≡ some v
      → seen visited n ≡ false
      → remaining (visited ++ n ∷ []) m < remaining visited m
  remaining-snoc_less visited n v [] e fresh = cc
  remaining-snoc_less visited n v ((k, w) ∷ m) e fresh = elim (Bool-cases (same_name k n)) [
    | inl same ↦ ground (
      arith,
      remaining-snoc_bounds visited n m,
      seen-snoc visited n k,
      same_name_comm k n same,
      seen-same visited n k same,
    )
    | inr other ↦
        ground
          (arith, remaining-snoc_less visited n v m (rw other at e) fresh, seen-snoc visited n k)
  ]
