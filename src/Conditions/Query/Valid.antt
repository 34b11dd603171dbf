-- ===== src/Conditions/Query/Valid.antt =====
-- What the validation of query parameter conditions accepts, and what is made of them.
use contour.Prelude.{
  ℕ, ◌≤◌, suc, length, Sum-cases, Option-cases, ◌≡◌, ◌≢◌, refl, sym, ap, fun_ext, ◌∙◌, ◌↔◌, ◌⊎◌,
  inl, inr, Bool, true, false, not, ◌&&◌, none, some, List, [], ◌∷◌, ◌++◌, arith, Text, to_lower,
  text_eq, if◌then◌else◌, All, flatten, is_empty,
}
use contour.Conditions.Types.{Condition, QueryParameterCondition}
use contour.Conditions.Path.{nonempty}
use contour.Conditions.Header.{has_name}
use contour.Conditions.Query.{
  QueryError, query_conditions, query_match, query_parameter_match_conditions,
  merge_query_param_match_conditions, matches, exclusive, check_query, check_queries,
  query_parameter_match_conditions_valid,
}

-- How many texts of a list are not empty.
abbrev pub count_nonempty : List Text → ℕ
count_nonempty [] = 0
count_nonempty (m ∷ ms) = let rest = count_nonempty ms in if nonempty m then suc rest else rest

is_empty-append : (s t : Text) → is_empty (s ++ t) ≡ (is_empty s && is_empty t)
is_empty-append [] t = refl
is_empty-append (c ∷ s) t = refl

flatten-append :
    (xs ys : List Text)
    → is_empty (flatten (xs ++ ys)) ≡ (is_empty (flatten xs) && is_empty (flatten ys))
flatten-append [] ys = refl
flatten-append (x ∷ xs) ys = ground (
  arith,
  is_empty-append x (flatten (xs ++ ys)),
  is_empty-append x (flatten xs),
  flatten-append xs ys,
)

flatten-is_empty : (ms : List Text) → (is_empty (flatten ms) ≡ true) ↔ (count_nonempty ms ≡ 0)
flatten-is_empty [] = ground arith
flatten-is_empty (m ∷ ms) =
    let ih = flatten-is_empty ms in
    (
      λ h. ground (arith, is_empty-append m (flatten ms), ih.0),
      λ h. ground (arith, is_empty-append m (flatten ms), ih.1),
    )

exclusive-none :
    (before after : List Text)
    → is_empty (flatten before) ≡ true
    → (exclusive before after ≡ none) ↔ (count_nonempty after ≤ 1)
unfolding exclusive
exclusive-none before [] h = ground arith
exclusive-none before ([] ∷ after) h =
    let cleared : is_empty (flatten (before ++ [] ∷ [])) ≡ true =
      ground (arith, flatten-append before ([] ∷ [])) in
    exclusive-none (before ++ [] ∷ []) after cleared
exclusive-none before ((c ∷ m) ∷ after) h =
    let cleared : is_empty (flatten (before ++ [] ∷ [])) ≡ true =
      ground (arith, flatten-append before ([] ∷ [])) in
    let ih = exclusive-none (before ++ [] ∷ []) after cleared in
    let rest = flatten-append before ([] ∷ after) in
    let none_left = flatten-is_empty after in
    (λ e. ground (arith, rest, none_left.0), λ few. ground (arith, rest, none_left.1, ih.1))

-- How many matchers a condition sets.
abbrev pub matchers_set : QueryParameterCondition → ℕ
matchers_set q = count_nonempty (matches q)

-- Two conditions that both match one parameter exactly.
pub same_exact : QueryParameterCondition → QueryParameterCondition → Bool
same_exact q later =
    nonempty q.exact && (nonempty later.exact && text_eq (to_lower later.name) (to_lower q.name))

-- One matcher is set, and a regular expression compiles.
pub record IsSingle (compiles : Text → Bool) (q : QueryParameterCondition) : Type 0 where
  pub single : matchers_set q ≡ 1
  pub regex_compiles : (nonempty q.regex && not (compiles q.regex)) ≡ false

abbrev pub Distinct : (Text → Bool) → List QueryParameterCondition → Type 0
Distinct compiles [] = Unit
Distinct compiles (q ∷ qs) =
    IsSingle compiles q × All (λ later. same_exact q later ≡ false) qs × Distinct compiles qs

fresh : List Text → QueryParameterCondition → Bool
fresh exacts q = not (nonempty q.exact && has_name (to_lower q.name) exacts)

next_exacts : List Text → QueryParameterCondition → List Text
next_exacts exacts q = if nonempty q.exact then to_lower q.name ∷ exacts else exacts

All-and :
    (p q : QueryParameterCondition → Bool) (qs : List QueryParameterCondition)
    → All (λ x. (not (p x) && q x) ≡ true) qs
      ↔ (All (λ x. p x ≡ false) qs × All (λ x. q x ≡ true) qs)
All-and p q [] = (λ _. (tt, tt), λ _. tt)
All-and p q (x ∷ qs) =
    let ih = All-and p q qs in
    (
      λ a. ((ground arith, (ih.0 a.1).0), (ground arith, (ih.0 a.1).1)),
      λ a. (ground arith, ih.1 (a.0.1, a.1.1)),
    )

fresh-next :
    (exacts : List Text) (q later : QueryParameterCondition)
    → fresh (next_exacts exacts q) later ≡ (not (same_exact q later) && fresh exacts later)
unfolding fresh next_exacts same_exact
fresh-next exacts q later = ground arith

module _ (compiles : Text → Bool) where
  check_query-inr :
      (exacts : List Text) (q : QueryParameterCondition)
      → IsSingle compiles q
      → fresh exacts q ≡ true
      → check_query compiles exacts q ≡ inr (next_exacts exacts q)
  unfolding check_query fresh next_exacts
  check_query-inr exacts q s f = ground (
    arith,
    s.single,
    s.regex_compiles,
    (flatten-is_empty (matches q)).0,
    (exclusive-none [] (matches q) refl).1,
  )

  check_query-IsSingle :
      (exacts exacts' : List Text) (q : QueryParameterCondition)
      → check_query compiles exacts q ≡ inr exacts'
      → IsSingle compiles q × (fresh exacts q ≡ true)
  unfolding check_query fresh
  check_query-IsSingle exacts exacts' q e =
      let some_set = flatten-is_empty (matches q) in
      let few = exclusive-none [] (matches q) refl in
      (
        record {
          single = ground (arith, some_set.1, few.0);
          regex_compiles = ground (arith, some_set.1, few.0);
        },
        ground arith,
      )

  check_query-next :
      (exacts exacts' : List Text) (q : QueryParameterCondition)
      → check_query compiles exacts q ≡ inr exacts'
      → exacts' ≡ next_exacts exacts q
  check_query-next exacts exacts' q e =
      let (s, f) = check_query-IsSingle exacts exacts' q e in
      cc (sym e ∙ check_query-inr exacts q s f)

  -- An accepted round, and what it hands to the next.
  check_queries-cons :
      (exacts : List Text) (q : QueryParameterCondition) (qs : List QueryParameterCondition)
      → (check_queries compiles exacts (q ∷ qs) ≡ none) ↔ (
          IsSingle compiles q
          × (fresh exacts q ≡ true)
          × (check_queries compiles (next_exacts exacts q) qs ≡ none))
  unfolding check_queries
  check_queries-cons exacts q qs = elim (Sum-cases (check_query compiles exacts q)) [
    | inl (err, refused) ↦ (
      λ e. absurd (let r : some err ≡ none = rw (refused, check_queries) at e in cc),
      λ a. absurd (
          let r : ◌≡◌ {A = QueryError ⊎ List Text} (inl err) (inr (next_exacts exacts q)) =
            sym refused ∙ check_query-inr exacts q a.0 a.1 in
          cc),
    )
    | inr (exacts', passed) ↦
        let (s, f) = check_query-IsSingle exacts exacts' q passed in
        let same = check_query-next exacts exacts' q passed in
        (
          λ e. (s, f, rw (passed, check_queries, same) at e),
          λ a. rw (passed, check_queries, same) a.2,
        )
  ]

  check_queries-none :
      (exacts : List Text) (qs : List QueryParameterCondition)
      → (check_queries compiles exacts qs ≡ none)
        ↔ (All (λ q. fresh exacts q ≡ true) qs × Distinct compiles qs)
  unfolding check_queries
  check_queries-none exacts [] = (λ _. (tt, tt), λ _. refl)
  check_queries-none exacts (q ∷ qs) =
      let step = check_queries-cons exacts q qs in
      let ih = check_queries-none (next_exacts exacts q) qs in
      let split = All-and (same_exact q) (fresh exacts) qs in
      (
        λ e.
            let (s, f, rest) = step.0 e in
            let (later, distinct) = ih.0 rest in
            let (apart, fit) = split.0 (rw (fun_ext (fresh-next exacts q)) at later) in
            ((f, fit), (s, apart, distinct)),
        λ a. step.1 (
          a.1.0,
          a.0.0,
          ih.1 (rw (fun_ext (fresh-next exacts q)) (split.1 (a.1.1, a.0.1)), a.1.2),
        ),
      )

  fresh-nil : (qs : List QueryParameterCondition) → All (λ q. fresh [] q ≡ true) qs
  unfolding fresh
  fresh-nil [] = tt
  fresh-nil (q ∷ qs) = (first q, fresh-nil qs)
    where
      first : (q : QueryParameterCondition) → fresh [] q ≡ true
      first q = ground arith

  -- The query parameter conditions of a route are accepted exactly when each of them sets one
  -- matcher, every regular expression compiles, and no two match one parameter exactly (names
  -- compared without case).
  pub query_parameter_match_conditions_valid_iff :
      (conds : List Condition)
      → (query_parameter_match_conditions_valid compiles conds ≡ none)
        ↔ Distinct compiles (query_conditions conds)
  unfolding query_parameter_match_conditions_valid
  query_parameter_match_conditions_valid_iff conds =
      let both = check_queries-none [] (query_conditions conds) in
      (λ e. (both.0 e).1, λ d. both.1 (fresh-nil (query_conditions conds), d))

  query_match-ne-none : (q : QueryParameterCondition) → IsSingle compiles q → query_match q ≢ none
  unfolding query_match
  query_match-ne-none q s e = ground (arith, s.single)

  query_parameter_match_conditions-length :
      (qs : List QueryParameterCondition)
      → Distinct compiles qs
      → length (query_parameter_match_conditions qs) ≡ length qs
  unfolding query_parameter_match_conditions
  query_parameter_match_conditions-length [] d = refl
  query_parameter_match_conditions-length (q ∷ qs) d =
      let ih = query_parameter_match_conditions-length qs d.2 in
      elim (Option-cases (query_match q)) [
        | inl dropped ↦ absurd (query_match-ne-none q d.0 dropped)
        | inr (m, e) ↦ rw (e, query_parameter_match_conditions, length) (ap suc ih)
      ]

  -- No condition of a validated route is lost: the DAG route gets one query parameter condition for
  -- each of them.
  pub merge_query_param_match_conditions_complete :
      (conds : List Condition)
      → query_parameter_match_conditions_valid compiles conds ≡ none
      → length (merge_query_param_match_conditions conds) ≡ length (query_conditions conds)
  unfolding merge_query_param_match_conditions
  merge_query_param_match_conditions_complete conds e =
      query_parameter_match_conditions-length (query_conditions conds)
        ((query_parameter_match_conditions_valid_iff conds).0 e)
