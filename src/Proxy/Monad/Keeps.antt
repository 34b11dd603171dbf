-- ===== src/Proxy/Monad/Keeps.antt =====
-- What errors and warnings keep of a condition, every check keeps, and a check that stops has failed.
use contour.Prelude.{
  if◌then◌else◌, ℕ, zero, suc, ◌⊎◌, inl, inr, Bool, true, false, Option, none, some, [], Text,
  codes,
}
use Prim.Native.String.{String}
use contour.Status.Detailed.{DetailedCondition, add_error, add_warning}
use contour.Proxy.Monad.{Run, done, ◌>>=◌, refuse, no_error, value, unless_bad, warn, required}

-- `P` holds of the condition throughout, and `Q` once an error is reported.
pub record IsStable {ℓ} (P Q : DetailedCondition → Type ℓ) : Type ℓ where
  pub forget : (dc : DetailedCondition) → Q dc → P dc
  pub error :
      (kind reason message : Text) (dc : DetailedCondition)
      → P dc
      → Q (add_error kind reason message dc)
  pub warning :
      (kind reason message : Text) (dc : DetailedCondition)
      → P dc
      → P (add_warning kind reason message dc)

module _ {ℓ} (P Q : DetailedCondition → Type ℓ) where
  -- A check that stops leaves `Q`, one that goes on leaves `P`.
  abbrev pub After {κ} : {A : Type κ} → DetailedCondition → Option A → Type ℓ
  After dc none = Q dc
  After dc (some a) = P dc

  pub record Keeps {κ} {A : Type κ} (m : Run A) : Type ℓ where
    pub apply : (dc : DetailedCondition) → P dc → After (m dc).0 (m dc).1

  bind-After {κ μ} :
      {A : Type κ} {B : Type μ} (f : A → Run B)
      → ((a : A) → Keeps (f a))
      → (dc : DetailedCondition) (r : Option A) → After dc r
      → After (((λ _. (dc, r)) >>= f) dc).0 (((λ _. (dc, r)) >>= f) dc).1
  unfolding ◌>>=◌
  bind-After f rest dc none q = q
  bind-After f rest dc (some a) p = (rest a).apply dc p

  pub bind-Keeps {κ μ} :
      {A : Type κ} {B : Type μ} (m : Run A) (f : A → Run B)
      → Keeps m
      → ((a : A) → Keeps (f a))
      → Keeps (m >>= f)
  unfolding ◌>>=◌
  bind-Keeps m f keeps rest = record {
    apply = λ dc p. bind-After f rest (m dc).0 (m dc).1 (keeps.apply dc p);
  }

  pub done-Keeps {κ} : {A : Type κ} (a : A) → Keeps (done a)
  done-Keeps a = record { apply = λ dc p. p }

  -- A choice of checks.
  pub if-Keeps {κ} :
      {A : Type κ} (b : Bool) (m n : Run A) → Keeps m → Keeps n → Keeps (if b then m else n)
  if-Keeps true m n p q = p
  if-Keeps false m n p q = q

  pub option-Keeps {κ μ} :
      {B : Type κ} {A : Type μ} (o : Option B) (m : Run A) (f : B → Run A)
      → Keeps m
      → ((b : B) → Keeps (f b))
      → Keeps (elim o [ none ↦ m | some b ↦ f b ])
  option-Keeps none m f p q = p
  option-Keeps (some b) m f p q = q b

  -- An error that is set has been reported.
  abbrev pub Reported : Bool → DetailedCondition → Type ℓ
  Reported err dc = if err then Q dc else P dc

  module _ (stable : IsStable P Q) where
    pub error_on :
        (kind reason : String) (dc : DetailedCondition)
        → P dc
        → P (add_error (codes kind) (codes reason) [] dc)
    error_on kind reason dc p = stable.forget _ (stable.error (codes kind) (codes reason) [] dc p)

    pub refuse-Keeps {κ} : (A : Type κ) (kind reason : String) → Keeps {A = A} (refuse kind reason)
    refuse-Keeps A kind reason = record {
      apply = λ dc p. stable.error (codes kind) (codes reason) [] dc p;
    }

    pub no_error-Keeps {κ} :
        {E : Type κ} (e : Option E) (kind reason : String) → Keeps (no_error e kind reason)
    unfolding no_error
    no_error-Keeps none kind reason = record { apply = λ dc p. p }
    no_error-Keeps (some err) kind reason = record {
      apply = λ dc p. stable.error (codes kind) (codes reason) [] dc p;
    }

    pub value-Keeps {κ μ} :
        {E : Type κ} {A : Type μ} (v : E ⊎ A) (kind reason : String) → Keeps (value v kind reason)
    unfolding value
    value-Keeps (inl err) kind reason = record {
      apply = λ dc p. stable.error (codes kind) (codes reason) [] dc p;
    }
    value-Keeps (inr a) kind reason = record { apply = λ dc p. p }

    pub unless_bad-Keeps : (bad : Bool) (kind reason : String) → Keeps (unless_bad bad kind reason)
    unfolding unless_bad
    unless_bad-Keeps false kind reason = record { apply = λ dc p. p }
    unless_bad-Keeps true kind reason = record {
      apply = λ dc p. stable.error (codes kind) (codes reason) [] dc p;
    }

    pub warn-Keeps : (n : ℕ) (kind reason : String) → Keeps (warn n kind reason)
    unfolding warn
    warn-Keeps zero kind reason = record { apply = λ dc p. p }
    warn-Keeps (suc n) kind reason = record {
      apply = λ dc p.
          (warn-Keeps n kind reason).apply (add_warning (codes kind) (codes reason) [] dc)
            (stable.warning (codes kind) (codes reason) [] dc p);
    }

    pub required-Keeps {κ} :
        {A : Type κ} (o : Option A) (kind reason : String) → Keeps (required o kind reason)
    unfolding required
    required-Keeps none kind reason = record {
      apply = λ dc p. stable.error (codes kind) (codes reason) [] dc p;
    }
    required-Keeps (some a) kind reason = record { apply = λ dc p. p }
