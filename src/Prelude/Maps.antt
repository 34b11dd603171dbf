-- ===== src/Prelude/Maps.antt =====
-- Go maps as lists of entries, by a Boolean equality of keys.
use mathlib.Core.Path.{◌≡◌, refl, sym}
use mathlib.Core.Logic.{inl, inr}
use mathlib.Core.Bool.{Bool, true}
use mathlib.Core.Option.{Option, none, some}
use mathlib.Core.List.{List, [], ◌∷◌}
use native.Mathlib.Omega.{arith}
use contour.Prelude.Tests.{if◌then◌else◌, Bool-cases}
use contour.Prelude.Lists.{All}

-- A Boolean test that decides equality.
pub record IsEquality {ℓ} {K : Type ℓ} (eq : K → K → Bool) : Type ℓ where
  pub sound : (a b : K) → eq a b ≡ true → a ≡ b
  pub reflexive : (a : K) → eq a a ≡ true

module _ {ℓ} {K : Type ℓ} (eq : K → K → Bool) (lawful : IsEquality eq) where
  pub eq_left : (a b c : K) → eq a b ≡ true → eq a c ≡ eq b c
  eq_left a b c h = rw (lawful.sound a b h) refl

  pub eq_right : (a b c : K) → eq b c ≡ true → eq a b ≡ eq a c
  eq_right a b c h = rw (lawful.sound b c h) refl

module _ {ℓ κ} {K : Type ℓ} {V : Type κ} (eq : K → K → Bool) where
  abbrev pub find : K → List (K × V) → Option V
  find k [] = none
  find k ((j, v) ∷ m) = let rest = find k m in if eq j k then some v else rest

  -- `m[k] = v`.
  abbrev pub insert : K → V → List (K × V) → List (K × V)
  insert k v [] = (k, v) ∷ []
  insert k v ((j, w) ∷ m) = let rest = insert k v m in if eq j k then (k, v) ∷ m else (j, w) ∷ rest

  -- `delete(m, k)`.
  abbrev pub erase : K → List (K × V) → List (K × V)
  erase k [] = []
  erase k ((j, w) ∷ m) = let rest = erase k m in if eq j k then rest else (j, w) ∷ rest

  module _ (lawful : IsEquality eq) where
    pub find-insert :
        (j k : K) (v : V) (m : List (K × V))
        → find j (insert k v m) ≡ (if eq k j then some v else find j m)
    find-insert j k v [] = refl
    find-insert j k v ((i, w) ∷ m) =
        ground (arith, find-insert j k v m, eq_left eq lawful i k j, eq_right eq lawful i k j)

    pub find-erase :
        (j k : K) (m : List (K × V)) → find j (erase k m) ≡ (if eq k j then none else find j m)
    find-erase j k [] = ground arith
    find-erase j k ((i, w) ∷ m) =
        ground (arith, find-erase j k m, eq_left eq lawful i k j, eq_right eq lawful i k j)

  -- A property of the values.
  abbrev pub Values {μ} : (V → Type μ) → List (K × V) → Type μ
  Values P m = All (λ e. P e.1) m

  pub insert-Values {μ} :
      (P : V → Type μ) (k : K) (v : V) (m : List (K × V))
      → P v
      → Values P m
      → Values P (insert k v m)
  insert-Values P k v [] p h = (p, tt)
  insert-Values P k v ((j, w) ∷ m) p h = elim (Bool-cases (eq j k)) [
    | inl same ↦ rw same (p, h.1)
    | inr other ↦ rw other (h.0, insert-Values P k v m p h.1)
  ]

  pub find-Values {μ} :
      (P : V → Type μ) (k : K) (v : V) (m : List (K × V)) → Values P m → find k m ≡ some v → P v
  find-Values P k v [] h e = cc
  find-Values P k v ((j, w) ∷ m) h e = elim (Bool-cases (eq j k)) [
    | inl same ↦
        let same_value : some w ≡ some v = rw same at e in let e' : w ≡ v = cc in rw (sym e') h.0
    | inr other ↦ find-Values P k v m h.1 (rw other at e)
  ]
