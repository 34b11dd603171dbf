-- ===== src/Proxy/Identical.antt =====
-- `includeMatchConditionsIdentical` of internal/dag/httpproxy_processor.go.
use contour.Prelude.{
  ℕ, Bool, true, false, not, ◌&&◌, ◌==◌, none, some, List, [], ◌∷◌, ◌++◌, Text, text_eq, compare,
  is_lt, compare_list, if◌then◌else◌, bool_eq, any, find, insert,
}
use contour.Conditions.Types.{
  Condition, prefix_match, exact_match, regex_match, HeaderMatchCondition, HeaderMatchType,
  QueryParamMatchCondition, QueryParamMatchType,
}
use contour.Conditions.Path.{merge_path_match_conditions}
use contour.Conditions.Header.{merge_header_match_conditions}
use contour.Conditions.Query.{merge_query_param_match_conditions}

-- `sort.SliceStable`, which a strict weak order determines: an insertion sort.
pub put_in_order {ℓ} : {A : Type ℓ} → (A → A → Bool) → A → List A → List A
put_in_order less x [] = x ∷ []
put_in_order less x (y ∷ ys) =
    let rest = put_in_order less x ys in if less y x then y ∷ rest else x ∷ y ∷ ys

pub sort_slice {ℓ} : {A : Type ℓ} → (A → A → Bool) → List A → List A
unfolding put_in_order
sort_slice less [] = []
sort_slice less (x ∷ xs) = put_in_order less x (sort_slice less xs)

-- The places of the texts "contains", "exact", "present" and "regex" in their order.
abbrev pub header_type_rank : HeaderMatchType → ℕ
header_type_rank HeaderMatchType.contains = 0
header_type_rank HeaderMatchType.exact = 1
header_type_rank HeaderMatchType.present = 2
header_type_rank HeaderMatchType.regex = 3

-- The same for "contains", "exact", "prefix", "present", "regex" and "suffix".
abbrev pub query_type_rank : QueryParamMatchType → ℕ
query_type_rank QueryParamMatchType.contains = 0
query_type_rank QueryParamMatchType.exact = 1
query_type_rank QueryParamMatchType.prefix = 2
query_type_rank QueryParamMatchType.present = 3
query_type_rank QueryParamMatchType.regex = 4
query_type_rank QueryParamMatchType.suffix = 5

abbrev text_less : Text → Text → Bool
text_less a b = is_lt (compare_list compare a b)

-- The function by which header conditions are sorted.
unfoldable pub header_condition_less : HeaderMatchCondition → HeaderMatchCondition → Bool
header_condition_less a b =
    if not (header_type_rank a.match_type == header_type_rank b.match_type)
    then is_lt (compare (header_type_rank a.match_type) (header_type_rank b.match_type))
    else if not (bool_eq a.ignore_case b.ignore_case)
    then a.ignore_case
    else if not (bool_eq a.invert b.invert)
    then a.invert
    else if not (bool_eq a.treat_missing_as_empty b.treat_missing_as_empty)
    then a.treat_missing_as_empty
    else if not (text_eq a.name b.name)
    then text_less a.name b.name
    else if not (text_eq a.value b.value)
    then text_less a.value b.value
    else false

unfoldable pub query_condition_less : QueryParamMatchCondition → QueryParamMatchCondition → Bool
query_condition_less a b =
    if not (query_type_rank a.match_type == query_type_rank b.match_type)
    then is_lt (compare (query_type_rank a.match_type) (query_type_rank b.match_type))
    else if not (bool_eq a.ignore_case b.ignore_case)
    then a.ignore_case
    else if not (text_eq a.name b.name)
    then text_less a.name b.name
    else if not (text_eq a.value b.value)
    then text_less a.value b.value
    else false

-- Go's `==` on the structs.
unfoldable pub same_header : HeaderMatchCondition → HeaderMatchCondition → Bool
same_header a b =
    text_eq a.name b.name
    && text_eq a.value b.value
    && header_type_rank a.match_type == header_type_rank b.match_type
    && bool_eq a.invert b.invert
    && bool_eq a.ignore_case b.ignore_case
    && bool_eq a.treat_missing_as_empty b.treat_missing_as_empty

unfoldable pub same_query : QueryParamMatchCondition → QueryParamMatchCondition → Bool
same_query a b =
    text_eq a.name b.name
    && text_eq a.value b.value
    && query_type_rank a.match_type == query_type_rank b.match_type
    && bool_eq a.ignore_case b.ignore_case

-- The loop that compares two slices of one length item by item.
pub items_identical {ℓ} : {A : Type ℓ} → (A → A → Bool) → List A → List A → Bool
items_identical same [] [] = true
items_identical same (x ∷ xs) (y ∷ ys) = same x y && items_identical same xs ys
items_identical same [] (y ∷ ys) = false
items_identical same (x ∷ xs) [] = false

-- `matchConditionAggregate`.
pub record Aggregate : Type 0 where
  pub header_conds : List HeaderMatchCondition
  pub query_param_conds : List QueryParamMatchCondition

abbrev pub Seen : Type 0
Seen = List (Text × List Aggregate)

-- Two aggregates of sorted conditions are the same.
unfoldable pub same_aggregate : Aggregate → Aggregate → Bool
unfolding same_header same_query items_identical
same_aggregate ag other =
    items_identical same_header ag.header_conds other.header_conds
    && items_identical same_query ag.query_param_conds other.query_param_conds

abbrev pub is_nil {ℓ} : {A : Type ℓ} → List A → Bool
is_nil [] = true
is_nil (x ∷ xs) = false

-- The sorted conditions of an include.
unfoldable pub aggregate_of : List Condition → Aggregate
unfolding sort_slice header_condition_less query_condition_less
aggregate_of conds = record {
  header_conds = sort_slice header_condition_less (merge_header_match_conditions conds);
  query_param_conds = sort_slice query_condition_less (merge_query_param_match_conditions conds);
}

-- The part behind the sorting: whether the path was seen with these conditions, and the new map.
unfoldable pub see : Text → Aggregate → Seen → Bool × Seen
unfolding same_aggregate
see prefix ag seen = elim (find text_eq prefix seen) [
  | none ↦ (false, insert text_eq prefix (ag ∷ []) seen)
  | some aggregates ↦
      if any (λ other. same_aggregate other ag) aggregates
      then (true, seen)
      else (false, insert text_eq prefix (aggregates ++ ag ∷ []) seen)
]

-- The result, and `seenConds` as it is left.
unfoldable pub include_match_conditions_identical : List Condition → Seen → Bool × Seen
unfolding aggregate_of see
include_match_conditions_identical conds seen = elim (merge_path_match_conditions conds) [
  | prefix_match prefix kind ↦
      if text_eq prefix (b'/' ∷ [])
        && is_nil (merge_header_match_conditions conds)
        && is_nil (merge_query_param_match_conditions conds)
      then (false, seen)
      else see prefix (aggregate_of conds) seen
  | exact_match s ↦ (true, seen)
  | regex_match s ↦ (true, seen)
]
