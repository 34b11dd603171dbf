-- ===== src/Sorter/Order.antt =====
-- What the route sorter gets right, and where its `Less` is no order.
use contour.Prelude.{
  ℕ, zero, compare-IsComparison, suc, ◌+◌, ◌≤◌, ◌≡◌, refl, ◌∙◌, Bool, true, false, ◌||◌, ◌⊎◌, inl,
  inr, Ordering, is_lt, or_else, IsStrictWeak, IsStrictWeak-of_comparison, arith, List, [], ◌∷◌,
  compare_list, length, All, comparison_refl,
}
use contour.Conditions.Types.{HeaderMatchCondition}
use contour.Sorter.{is_method, header_less, query_less, Route, other_headers, any_less, route_less}
use contour.Sorter.Keys.{compare_headers, header_less-eq, compare_query_params, query_less-eq}
use contour.Sorter.Routes.{
  compare_heads, compare_heads-IsComparison, compare_tails, compare_routes,
  compare_routes-IsComparison, compare_paths-IsComparison, lt_or, tails_less, route_less-eq,
  header_count, query_count,
}

-- The loop finds the pair that decides the lexicographic order of two lists of one length.
module _ {ℓ} {A : Type ℓ} (cmp : A → A → Ordering) (less : A → A → Bool)
    (agree : (a b : A) → less a b ≡ is_lt (cmp a b)) where
  any_less-of_lt :
      (xs ys : List A)
      → length xs ≡ length ys
      → compare_list cmp xs ys ≡ Ordering.lt
      → any_less less xs ys ≡ true
  unfolding any_less compare_list
  any_less-of_lt [] [] n h = cc
  any_less-of_lt [] (y ∷ ys) n h = absurd (omega arith)
  any_less-of_lt (x ∷ xs) [] n h = cc
  any_less-of_lt (x ∷ xs) (y ∷ ys) n h =
      ground (arith, agree x y, any_less-of_lt xs ys (omega arith))

  -- With at most one pair the loop is the order.
  any_less-short :
      (xs ys : List A)
      → length xs ≡ length ys
      → length xs ≤ 1
      → any_less less xs ys ≡ is_lt (compare_list cmp xs ys)
  unfolding any_less compare_list
  any_less-short [] [] n h = refl
  any_less-short [] (y ∷ ys) n h = absurd (omega arith)
  any_less-short (x ∷ xs) [] n h = absurd (omega arith)
  any_less-short (x ∷ []) (y ∷ []) n h = ground (arith, agree x y)
  any_less-short (x ∷ []) (y ∷ z ∷ ys) n h = absurd (omega arith)
  any_less-short (x ∷ w ∷ xs) (y ∷ ys) n h = absurd (omega arith)

heads-counts :
    (a b : Route)
    → compare_heads a b ≡ Ordering.eq
    → (header_count a ≡ header_count b) × (query_count a ≡ query_count b)
heads-counts a b h = ground arith

lt_or-true :
    (o t : Ordering) (rest : Bool)
    → or_else o t ≡ Ordering.lt
    → (o ≡ Ordering.eq → t ≡ Ordering.lt → rest ≡ true)
    → lt_or o rest ≡ true
lt_or-true Ordering.lt t rest h k = refl
lt_or-true Ordering.eq t rest h k = k refl h
lt_or-true Ordering.gt t rest h k = cc

lt_or-eq : (o : Ordering) (rest : Bool) → o ≡ Ordering.eq → rest ≡ true → lt_or o rest ≡ true
lt_or-eq o rest p q = ground arith

or_else-true :
    (f g : Ordering) (x y : Bool)
    → or_else f g ≡ Ordering.lt
    → (f ≡ Ordering.lt → x ≡ true)
    → (g ≡ Ordering.lt → y ≡ true)
    → (x || y) ≡ true
or_else-true f g x y h p q = ground arith

lt_or-is_lt :
    (o t : Ordering) (rest : Bool)
    → (o ≡ Ordering.eq → rest ≡ is_lt t)
    → lt_or o rest ≡ is_lt (or_else o t)
lt_or-is_lt Ordering.lt t rest k = refl
lt_or-is_lt Ordering.eq t rest k = k refl
lt_or-is_lt Ordering.gt t rest k = refl

-- The loops never miss the intended order: a route that the lexicographic order of conditions puts
-- first is put first.
pub route_less-of_lt : (a b : Route) → compare_routes a b ≡ Ordering.lt → route_less a b ≡ true
route_less-of_lt a b h =
    route_less-eq a b
    ∙ lt_or-true (compare_heads a b) (compare_tails a b) (tails_less a b) h (λ e t.
      let (hs, qs) = heads-counts a b e in
      or_else-true (compare_list compare_headers (other_headers a) (other_headers b))
        (compare_list compare_query_params a.query_params b.query_params) _ _ t
        (any_less-of_lt compare_headers header_less header_less-eq _ _ hs)
        (any_less-of_lt compare_query_params query_less query_less-eq _ _ qs))

-- Whatever the conditions are, the path, the presence of a method match, the numbers of header and
-- query parameter conditions and the priority decide first, in this order, and in one direction.
pub route_less-heads :
    (a b : Route)
    → compare_heads a b ≡ Ordering.lt
    → (route_less a b ≡ true) × (route_less b a ≡ false)
route_less-heads a b h =
    ground (arith, route_less-eq a b, route_less-eq b a, compare_heads-IsComparison.swap a b)

-- At most one condition beside the method match.
abbrev pub IsSimple : Route → Type 0
IsSimple r = header_count r + query_count r ≤ 1

one_zero : (n m : ℕ) → n + m ≤ 1 → (n ≡ 0) ⊎ (m ≡ 0)
one_zero zero m h = inl refl
one_zero (suc n) m h = inr (omega arith)

compare_list-nil {ℓ} :
    {A : Type ℓ} (cmp : A → A → Ordering) (xs ys : List A)
    → length xs ≡ 0
    → length xs ≡ length ys
    → compare_list cmp xs ys ≡ Ordering.eq
unfolding compare_list
compare_list-nil cmp [] [] e n = refl
compare_list-nil cmp [] (y ∷ ys) e n = absurd (omega arith)
compare_list-nil cmp (x ∷ xs) ys e n = absurd (omega arith)

or_else-one_eq :
    (f g : Ordering)
    → (f ≡ Ordering.eq) ⊎ (g ≡ Ordering.eq)
    → (is_lt f || is_lt g) ≡ is_lt (or_else f g)
or_else-one_eq f g h = ground arith

or_else-eq : (f g : Ordering) → f ≡ Ordering.eq → g ≡ Ordering.eq → or_else f g ≡ Ordering.eq
or_else-eq f g p q = ground arith

-- One of the two lists is empty.
tails_less-short :
    (a b : Route)
    → IsSimple a
    → (header_count a ≡ header_count b) × (query_count a ≡ query_count b)
    → tails_less a b ≡ is_lt (compare_tails a b)
tails_less-short a b p (hs, qs) =
    let headers =
      any_less-short compare_headers header_less header_less-eq (other_headers a) (other_headers b)
        hs (omega arith) in
    let queries =
      any_less-short compare_query_params query_less query_less-eq a.query_params b.query_params qs
        (omega arith) in
    rw (headers, queries)
      (or_else-one_eq _ _ (elim (one_zero (header_count a) (query_count a) p) [
        | inl none ↦ inl (compare_list-nil compare_headers _ _ none hs)
        | inr none ↦ inr (compare_list-nil compare_query_params _ _ none qs)
      ]))

route_less-simple :
    (a b : Route) → IsSimple a → IsSimple b → route_less a b ≡ is_lt (compare_routes a b)
route_less-simple a b p q =
    route_less-eq a b
    ∙ lt_or-is_lt (compare_heads a b) (compare_tails a b) (tails_less a b)
        (λ e. tails_less-short a b p (heads-counts a b e))

-- Among routes with at most one header or query parameter condition beside the method match the
-- route sorter's `Less` is a strict weak order.
pub route_less-IsStrictWeak : IsStrictWeak IsSimple route_less
route_less-IsStrictWeak =
    IsStrictWeak-of_comparison compare_routes-IsComparison IsSimple route_less route_less-simple

-- Two routes that differ in two plain header conditions have one head.
same_heads :
    (r : Route) (h h' k k' : HeaderMatchCondition)
    → All (λ c. is_method c ≡ false) (h ∷ h' ∷ k ∷ k' ∷ [])
    → compare_heads (record r { headers = h ∷ h' ∷ [] }) (record r { headers = k ∷ k' ∷ [] })
      ≡ Ordering.eq
same_heads r h h' k k' plain = or_else-eq _ _ (comparison_refl compare_paths-IsComparison r.path) (
    rw (plain.0, plain.1.0, plain.1.1.0, plain.1.1.1.0)
      (ground (arith, comparison_refl compare-IsComparison r.priority)))

crossed :
    (r : Route) (h h' k k' : HeaderMatchCondition)
    → All (λ c. is_method c ≡ false) (h ∷ h' ∷ k ∷ k' ∷ [])
    → (header_less h k || header_less h' k') ≡ true
    → tails_less (record r { headers = h ∷ h' ∷ [] }) (record r { headers = k ∷ k' ∷ [] }) ≡ true
unfolding any_less
crossed r h h' k k' plain p = rw (plain.0, plain.1.0, plain.1.1.0, plain.1.1.1.0) (ground arith)

-- The comparison of the route sorter is in general no order: two routes that agree up to their
-- header conditions, of which one has the lesser first condition and the other the lesser second
-- one, each sort before the other.
pub route_less_both_ways :
    (r : Route) (h h' k k' : HeaderMatchCondition)
    → All (λ c. is_method c ≡ false) (h ∷ h' ∷ k ∷ k' ∷ [])
    → header_less h k ≡ true
    → header_less k' h' ≡ true
    → let a = record r { headers = h ∷ h' ∷ [] } in
      let b = record r { headers = k ∷ k' ∷ [] } in
      (route_less a b ≡ true) × (route_less b a ≡ true)
route_less_both_ways r h h' k k' plain p q =
    let a = record r { headers = h ∷ h' ∷ [] } in
    let b = record r { headers = k ∷ k' ∷ [] } in
    let turned : All (λ c. is_method c ≡ false) (k ∷ k' ∷ h ∷ h' ∷ []) =
      (plain.1.1.0, (plain.1.1.1.0, (plain.0, (plain.1.0, tt)))) in
    (
      route_less-eq a b
          ∙ lt_or-eq _ _ (same_heads r h h' k k' plain) (crossed r h h' k k' plain (ground arith)),
      route_less-eq b a
          ∙ lt_or-eq _ _ (same_heads r k k' h h' turned)
              (crossed r k k' h h' turned (ground arith)),
    )
