-- ===== src/Proxy/Monad.antt =====
-- Checks that report on a condition and may end in a `return nil`.
pub mod Keeps
pub mod Ensures
use contour.Prelude.{
  ℕ, zero, suc, Bool, true, false, Option, none, some, ◌⊎◌, inl, inr, Text, codes, List, [], ◌∷◌,
}
use Prim.Native.String.{String}
use contour.Status.Detailed.{DetailedCondition, add_error, add_warning}

-- The condition `validCond` is threaded; `none` is the early return.
abbrev pub Run {ℓ} : Type ℓ → Type ℓ
Run A = DetailedCondition → DetailedCondition × Option A

abbrev pub done {ℓ} : {A : Type ℓ} → A → Run A
done a dc = (dc, some a)

infixl 5 ◌>>=◌ ◌>>◌
unfoldable pub ◌>>=◌ {ℓ κ} : {A : Type ℓ} {B : Type κ} → Run A → (A → Run B) → Run B
◌>>=◌ m f dc = let (dc', r) = m dc in elim r [ none ↦ (dc', none) | some a ↦ f a dc' ]

abbrev pub ◌>>◌ {ℓ} : {B : Type ℓ} → Run (Unit {0}) → Run B → Run B
m >> k = m >>= λ _. k

-- `validCond.AddError(kind, reason, ...); return nil`. Texts of messages are left out.
abbrev pub refuse {ℓ} : {A : Type ℓ} → String → String → Run A
refuse kind reason dc = (add_error (codes kind) (codes reason) [] dc, none)

-- `if err := ...; err != nil { ... return nil }`.
unfoldable pub no_error {ℓ} : {E : Type ℓ} → Option E → String → String → Run (Unit {0})
no_error none kind reason dc = (dc, some tt)
no_error (some err) kind reason dc = refuse kind reason dc

unfoldable pub value {ℓ κ} : {E : Type ℓ} {A : Type κ} → E ⊎ A → String → String → Run A
value (inl err) kind reason dc = refuse kind reason dc
value (inr a) kind reason dc = (dc, some a)

-- The same for a function whose only result beside the error is the value.
unfoldable pub required {ℓ} : {A : Type ℓ} → Option A → String → String → Run A
required none kind reason dc = refuse kind reason dc
required (some a) kind reason dc = (dc, some a)

-- `if bad { ... return nil }`.
unfoldable pub unless_bad : Bool → String → String → Run (Unit {0})
unless_bad false kind reason dc = (dc, some tt)
unless_bad true kind reason dc = refuse kind reason dc

-- `n` warnings.
unfoldable pub warn : ℕ → String → String → Run (Unit {0})
warn zero kind reason dc = (dc, some tt)
warn (suc n) kind reason dc = warn n kind reason (add_warning (codes kind) (codes reason) [] dc)
