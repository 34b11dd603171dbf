-- ===== src/Conditions/Query.antt =====
-- Query parameter conditions: `mergeQueryParamMatchConditions`, `queryParameterMatchConditions` and
-- `queryParameterMatchConditionsValid` of internal/dag/conditions.go.
pub mod Valid
use contour.Prelude.{
  Bool, true, false, not, ◌&&◌, Option, none, some, List, [], ◌∷◌, ◌++◌, Text, to_lower, is_empty,
  if◌then◌else◌, flatten, ◌⊎◌, inl, inr,
}
use contour.Conditions.Types.{
  Condition, QueryParameterCondition, QueryParamMatchCondition, QueryParamMatchType,
}
use contour.Conditions.Path.{nonempty}
use contour.Conditions.Header.{has_name}

-- The loop that collects `*cond.QueryParameter`.
unfoldable pub query_conditions : List Condition → List QueryParameterCondition
query_conditions [] = []
query_conditions (c ∷ conds) = elim c.query_parameter [
  | none ↦ query_conditions conds
  | some q ↦ q ∷ query_conditions conds
]

-- The `switch` of `queryParameterMatchConditions`; `none` is a round that appends nothing.
unfoldable pub query_match : QueryParameterCondition → Option QueryParamMatchCondition
query_match c =
    if nonempty c.exact
    then some (made c.exact QueryParamMatchType.exact c.ignore_case)
    else if nonempty c.prefix
    then some (made c.prefix QueryParamMatchType.prefix c.ignore_case)
    else if nonempty c.suffix
    then some (made c.suffix QueryParamMatchType.suffix c.ignore_case)
    else if nonempty c.regex
    then some (made c.regex QueryParamMatchType.regex false)
    else if nonempty c.contains
    then some (made c.contains QueryParamMatchType.contains c.ignore_case)
    else if c.present
    then some (made [] QueryParamMatchType.present false)
    else none
  where
    made : Text → QueryParamMatchType → Bool → QueryParamMatchCondition
    made value kind ignore_case = record {
      name = c.name;
      value = value;
      match_type = kind;
      ignore_case = ignore_case;
    }

unfoldable pub query_parameter_match_conditions :
    List QueryParameterCondition → List QueryParamMatchCondition
query_parameter_match_conditions [] = []
query_parameter_match_conditions (c ∷ conds) = elim (query_match c) [
  | none ↦ query_parameter_match_conditions conds
  | some m ↦ m ∷ query_parameter_match_conditions conds
]

unfoldable pub merge_query_param_match_conditions : List Condition → List QueryParamMatchCondition
unfolding query_conditions query_parameter_match_conditions query_match
merge_query_param_match_conditions conds = query_parameter_match_conditions (query_conditions conds)

pub data QueryError : Type 0 where
  at_least_one more_than_one duplicate_exact invalid_regex : QueryError

-- The slice `matches`; the last entry, "true", is there only for a presence match.
abbrev pub matches : QueryParameterCondition → List Text
matches q =
    q.exact
    ∷ q.prefix
    ∷ q.suffix
    ∷ q.regex
    ∷ q.contains
    ∷ (if q.present then (b't' ∷ b'r' ∷ b'u' ∷ b'e' ∷ []) ∷ [] else [])

-- The loop `for i, match := range matches`. `excluding` is the same array as `matches`, so the entry
-- that it clears stays cleared: `before` holds the entries already visited as the loop left them.
unfoldable pub exclusive : List Text → List Text → Option QueryError
exclusive before [] = none
exclusive before (m ∷ after) =
    let skip = exclusive (before ++ m ∷ []) after in
    let clear = exclusive (before ++ [] ∷ []) after in
    if is_empty m
    then skip
    else if nonempty (flatten (before ++ [] ∷ after))
    then some more_than_one
    else clear

module _ (compiles : Text → Bool) where
  -- One round: an error, or the new `queryParametersWithExactMatch`.
  unfoldable pub check_query : List Text → QueryParameterCondition → QueryError ⊎ List Text
  check_query exacts q =
      let name = to_lower q.name in
      if is_empty (flatten (matches q))
      then inl at_least_one
      else (elim (exclusive [] (matches q)) [
        | some e ↦ inl e
        | none ↦
            if nonempty q.exact && has_name name exacts
            then inl duplicate_exact
            else if nonempty q.regex && not (compiles q.regex)
            then inl invalid_regex
            else inr (if nonempty q.exact then name ∷ exacts else exacts)
      ])

  unfoldable pub check_queries : List Text → List QueryParameterCondition → Option QueryError
  check_queries exacts [] = none
  check_queries exacts (q ∷ qs) = elim (check_query exacts q) [
    | inl e ↦ some e
    | inr exacts' ↦ check_queries exacts' qs
  ]

  unfoldable pub query_parameter_match_conditions_valid : List Condition → Option QueryError
  unfolding query_conditions check_queries check_query exclusive
  query_parameter_match_conditions_valid conds = check_queries [] (query_conditions conds)
