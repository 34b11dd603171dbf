-- ===== src/Proxy/Monad/Ensures.antt =====
-- What is known of the result of checks that did not stop.
use contour.Prelude.{◌≡◌, refl, ap, ◌⊎◌, inl, inr, Bool, true, false, Option, none, some}
use Prim.Native.String.{String}
use contour.Status.Detailed.{DetailedCondition}
use contour.Proxy.Monad.{Run, done, ◌>>=◌, no_error, value, unless_bad}

module _ {ℓ} where
  abbrev pub Of {κ} : {A : Type κ} → (A → Type ℓ) → Option A → Type ℓ
  Of R none = Unit
  Of R (some a) = R a

  pub record Ensures {κ} {A : Type κ} (R : A → Type ℓ) (m : Run A) : Type ℓ where
    pub apply : (dc : DetailedCondition) → Of R (m dc).1

  pub Ensures-result {κ} :
      {A : Type κ} (R : A → Type ℓ) (m : Run A) (dc dc' : DetailedCondition) (a : A)
      → Ensures R m
      → m dc ≡ (dc', some a)
      → R a
  Ensures-result R m dc dc' a ensures e =
      let holds : Of R (m dc).1 = ensures.apply dc in rw (ap (λ r. r.1) e) at holds

  Of-anything {κ} : {A : Type κ} (o : Option A) (R : A → Type ℓ) → ((a : A) → R a) → Of R o
  Of-anything none R f = tt
  Of-anything (some a) R f = f a

  pub anything-Ensures {κ} : {A : Type κ} (m : Run A) → Ensures {A = A} (λ _. Unit {ℓ}) m
  anything-Ensures m = record { apply = λ dc. Of-anything (m dc).1 (λ _. Unit) (λ _. tt) }

  pub done-Ensures {κ} : {A : Type κ} (R : A → Type ℓ) (a : A) → R a → Ensures R (done a)
  done-Ensures R a r = record { apply = λ dc. r }

pub unless_bad-Ensures :
    (bad : Bool) (kind reason : String) → Ensures (λ _. bad ≡ false) (unless_bad bad kind reason)
unfolding unless_bad
unless_bad-Ensures false kind reason = record { apply = λ dc. refl }
unless_bad-Ensures true kind reason = record { apply = λ dc. tt }

pub no_error-Ensures {ℓ} :
    {E : Type ℓ} (e : Option E) (kind reason : String)
    → Ensures (λ _. e ≡ none) (no_error e kind reason)
unfolding no_error
no_error-Ensures none kind reason = record { apply = λ dc. refl }
no_error-Ensures (some err) kind reason = record { apply = λ dc. tt }

pub value-Ensures {ℓ κ} :
    {E : Type ℓ} {A : Type κ} (v : E ⊎ A) (kind reason : String)
    → Ensures (λ a. v ≡ inr a) (value v kind reason)
unfolding value
value-Ensures (inl err) kind reason = record { apply = λ dc. tt }
value-Ensures (inr a) kind reason = record { apply = λ dc. refl }

module _ {ℓ μ} where
  bind-Of {κ ν} :
      {A : Type κ} {B : Type ν} (R : A → Type ℓ) (S : B → Type μ) (f : A → Run B)
      → ((a : A) → R a → Ensures S (f a))
      → (dc : DetailedCondition) (o : Option A) → Of R o
      → Of S (((λ _. (dc, o)) >>= f) dc).1
  unfolding ◌>>=◌
  bind-Of R S f rest dc none h = tt
  bind-Of R S f rest dc (some a) h = (rest a h).apply dc

  pub bind-Ensures {κ ν} :
      {A : Type κ} {B : Type ν} (R : A → Type ℓ) (S : B → Type μ) (m : Run A) (f : A → Run B)
      → Ensures R m
      → ((a : A) → R a → Ensures S (f a))
      → Ensures S (m >>= f)
  unfolding ◌>>=◌
  bind-Ensures R S m f ensures rest = record {
    apply = λ dc. bind-Of R S f rest (m dc).0 (m dc).1 (ensures.apply dc);
  }

-- A step of which nothing has to be known.
pub then-Ensures {ℓ κ μ} :
    {A : Type κ} {B : Type μ} (S : B → Type ℓ) (m : Run A) (f : A → Run B)
    → ((a : A) → Ensures S (f a))
    → Ensures S (m >>= f)
then-Ensures S m f rest = bind-Ensures (λ _. Unit {0}) S m f (anything-Ensures m) (λ a _. rest a)
