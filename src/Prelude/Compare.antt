-- ===== src/Prelude/Compare.antt =====
-- Three-way comparisons: keys, lexicographic products and lists, and the strict orders they give.
use Prim.Native.Nat.{compare, Ordering}
use mathlib.Core.Path.{◌≡◌, refl}
use mathlib.Core.Logic.{◌⊎◌}
use mathlib.Core.Bool.{Bool, true, false}
use mathlib.Core.List.{List, [], ◌∷◌}
use native.Mathlib.Omega.{arith}

abbrev pub is_lt : Ordering → Bool
is_lt Ordering.lt = true
is_lt Ordering.eq = false
is_lt Ordering.gt = false

abbrev pub flip : Ordering → Ordering
flip Ordering.lt = Ordering.gt
flip Ordering.eq = Ordering.eq
flip Ordering.gt = Ordering.lt

-- The second result, where the first leaves the matter open.
abbrev pub or_else : Ordering → Ordering → Ordering
or_else Ordering.lt p = Ordering.lt
or_else Ordering.eq p = p
or_else Ordering.gt p = Ordering.gt

-- A comparison that sorts: a total preorder.
pub record IsComparison {ℓ} {A : Type ℓ} (cmp : A → A → Ordering) : Type ℓ where
  pub swap : (a b : A) → cmp b a ≡ flip (cmp a b)
  pub lt_trans : (a b c : A) → cmp a b ≡ Ordering.lt → cmp b c ≡ Ordering.lt → cmp a c ≡ Ordering.lt
  pub same : (a b c : A) → cmp a b ≡ Ordering.eq → cmp a c ≡ cmp b c

module _ {ℓ} {A : Type ℓ} where
  abbrev pub lex : (A → A → Ordering) → (A → A → Ordering) → A → A → Ordering
  lex f g a b = or_else (f a b) (g a b)

  -- The greater one first.
  abbrev pub reversed : (A → A → Ordering) → A → A → Ordering
  reversed f a b = f b a

  abbrev pub on {κ} : {K : Type κ} → (K → K → Ordering) → (A → K) → A → A → Ordering
  on f key a b = f (key a) (key b)

  unfoldable pub compare_list : (A → A → Ordering) → List A → List A → Ordering
  compare_list cmp [] [] = Ordering.eq
  compare_list cmp [] (y ∷ ys) = Ordering.lt
  compare_list cmp (x ∷ xs) [] = Ordering.gt
  compare_list cmp (x ∷ xs) (y ∷ ys) = or_else (cmp x y) (compare_list cmp xs ys)

pub compare-IsComparison : IsComparison compare
compare-IsComparison = record {
  swap = λ a b. ground arith;
  lt_trans = λ a b c p q. ground arith;
  same = λ a b c p. ground arith;
}

module _ {ℓ} {A : Type ℓ} {f g : A → A → Ordering} where
  pub lex-IsComparison : IsComparison f → IsComparison g → IsComparison (lex f g)
  lex-IsComparison F G = record {
    swap = λ a b. ground (arith, F.swap a b, G.swap a b);
    lt_trans = λ a b c p q. ground (
      arith,
      F.lt_trans a b c,
      F.same a b c,
      F.swap b c,
      F.swap a c,
      F.same c b a,
      F.swap a b,
      G.lt_trans a b c,
    );
    same = λ a b c p. ground (arith, F.same a b c, G.same a b c);
  }

module _ {ℓ} {A : Type ℓ} {f : A → A → Ordering} (F : IsComparison f) where
  pub reversed-IsComparison : IsComparison (reversed f)
  reversed-IsComparison = record {
    swap = λ a b. F.swap b a;
    lt_trans = λ a b c p q. F.lt_trans c b a q p;
    same = λ a b c p. ground (arith, F.swap a b, F.same a b c, F.swap a c, F.swap b c);
  }

  pub on-IsComparison {κ} : {B : Type κ} (key : B → A) → IsComparison (on f key)
  on-IsComparison key = record {
    swap = λ a b. F.swap (key a) (key b);
    lt_trans = λ a b c p q. F.lt_trans (key a) (key b) (key c) p q;
    same = λ a b c p. F.same (key a) (key b) (key c) p;
  }

  compare_list-swap : (xs ys : List A) → compare_list f ys xs ≡ flip (compare_list f xs ys)
  unfolding compare_list
  compare_list-swap [] [] = refl
  compare_list-swap [] (y ∷ ys) = refl
  compare_list-swap (x ∷ xs) [] = refl
  compare_list-swap (x ∷ xs) (y ∷ ys) = ground (arith, F.swap x y, compare_list-swap xs ys)

  compare_list-lt_trans :
      (xs ys zs : List A)
      → compare_list f xs ys ≡ Ordering.lt
      → compare_list f ys zs ≡ Ordering.lt
      → compare_list f xs zs ≡ Ordering.lt
  unfolding compare_list
  compare_list-lt_trans [] [] zs p q = cc
  compare_list-lt_trans [] (y ∷ ys) [] p q = cc
  compare_list-lt_trans [] (y ∷ ys) (z ∷ zs) p q = refl
  compare_list-lt_trans (x ∷ xs) [] zs p q = cc
  compare_list-lt_trans (x ∷ xs) (y ∷ ys) [] p q = cc
  compare_list-lt_trans (x ∷ xs) (y ∷ ys) (z ∷ zs) p q = ground (
    arith,
    F.lt_trans x y z,
    F.same x y z,
    F.swap y z,
    F.swap x z,
    F.same z y x,
    F.swap x y,
    compare_list-lt_trans xs ys zs,
  )

  compare_list-same :
      (xs ys zs : List A)
      → compare_list f xs ys ≡ Ordering.eq
      → compare_list f xs zs ≡ compare_list f ys zs
  unfolding compare_list
  compare_list-same [] [] zs p = refl
  compare_list-same [] (y ∷ ys) zs p = cc
  compare_list-same (x ∷ xs) [] zs p = cc
  compare_list-same (x ∷ xs) (y ∷ ys) [] p = refl
  compare_list-same (x ∷ xs) (y ∷ ys) (z ∷ zs) p =
      ground (arith, F.same x y z, compare_list-same xs ys zs)

  pub compare_list-IsComparison : IsComparison (compare_list f)
  compare_list-IsComparison = record {
    swap = compare_list-swap;
    lt_trans = compare_list-lt_trans;
    same = compare_list-same;
  }

-- What a `Less` method has to be for a sort to be well defined: a strict weak order.
pub record IsStrictWeak {ℓ κ} {A : Type ℓ} (P : A → Type κ) (less : A → A → Bool)
    : Type (ℓ ⊔ κ) where
  pub irrefl : (a : A) → P a → less a a ≡ false
  pub asymm : (a b : A) → P a → P b → less a b ≡ true → less b a ≡ false
  pub trans : (a b c : A) → P a → P b → P c → less a b ≡ true → less b c ≡ true → less a c ≡ true
  pub split :
      (a b c : A) → P a → P b → P c → less a c ≡ true → (less a b ≡ true) ⊎ (less b c ≡ true)

pub comparison_refl {ℓ} :
    {A : Type ℓ} {cmp : A → A → Ordering} (C : IsComparison cmp) (a : A) → cmp a a ≡ Ordering.eq
comparison_refl C a = ground (arith, C.swap a a)

module _ {ℓ κ} {A : Type ℓ} {cmp : A → A → Ordering} (C : IsComparison cmp) where
  -- A test that agrees with a comparison is a strict weak order.
  pub IsStrictWeak-of_comparison :
      (P : A → Type κ) (less : A → A → Bool)
      → ((a b : A) → P a → P b → less a b ≡ is_lt (cmp a b))
      → IsStrictWeak P less
  IsStrictWeak-of_comparison P less h = record {
    irrefl = λ a p. ground (arith, h a a p p, comparison_refl C a);
    asymm = λ a b p q l. ground (arith, h a b p q, h b a q p, C.swap a b);
    trans = λ a b c p q r l m. ground (arith, h a b p q, h b c q r, h a c p r, C.lt_trans a b c);
    split = λ a b c p q r l. ground (
      arith,
      h a b p q,
      h b c q r,
      h a c p r,
      C.lt_trans a b c,
      C.same a b c,
      C.same b c a,
      C.swap a b,
      C.swap b c,
      C.swap a c,
      C.lt_trans b a c,
    );
  }
