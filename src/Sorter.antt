-- ===== src/Sorter.antt =====
-- The `Less` methods of internal/sorter/sorter.go, over the condition types of internal/dag.
pub mod Keys
pub mod Routes
pub mod Order
pub mod Clusters
use contour.Prelude.{
  ℕ, Bool, true, false, not, ◌&&◌, ◌||◌, Option, some, none, List, [], ◌∷◌, Text, text_eq, compare,
  compare_list, Ordering, if◌then◌else◌, bool_eq, filter, any, length, ltb, ◌==◌, codes,
}
use contour.Conditions.Types.{
  PathMatchCondition, prefix_match, exact_match, regex_match, PrefixMatchType, string, segment,
  HeaderMatchCondition, HeaderMatchType, QueryParamMatchCondition, QueryParamMatchType,
}

-- `strings.Compare`, byte by byte.
abbrev pub compare_text : Text → Text → Ordering
compare_text = compare_list compare

-- The branches of `switch strings.Compare(...)`: -1, 1 and the default.
abbrev pub by_order : Ordering → Bool → Bool → Bool → Bool
by_order Ordering.lt less more same = less
by_order Ordering.gt less more same = more
by_order Ordering.eq less more same = same

-- `compareValue` of `headerMatchConditionSorter`: by value, then the match that is not inverted.
unfoldable pub header_value_less : HeaderMatchCondition → HeaderMatchCondition → Bool
header_value_less a b =
    by_order (compare_text a.value b.value) true false
      (if bool_eq a.invert b.invert then false else not a.invert)

-- The nested switches on the two match types.
unfoldable pub header_type_less :
    HeaderMatchType → HeaderMatchType → HeaderMatchCondition → HeaderMatchCondition → Bool
header_type_less HeaderMatchType.exact HeaderMatchType.exact a b = header_value_less a b
header_type_less HeaderMatchType.exact HeaderMatchType.regex a b = true
header_type_less HeaderMatchType.exact HeaderMatchType.contains a b = true
header_type_less HeaderMatchType.exact HeaderMatchType.present a b = true
header_type_less HeaderMatchType.regex HeaderMatchType.regex a b = header_value_less a b
header_type_less HeaderMatchType.regex HeaderMatchType.contains a b = true
header_type_less HeaderMatchType.regex HeaderMatchType.present a b = true
header_type_less HeaderMatchType.contains HeaderMatchType.contains a b = header_value_less a b
header_type_less HeaderMatchType.contains HeaderMatchType.present a b = true
header_type_less HeaderMatchType.present HeaderMatchType.present a b =
    if bool_eq a.invert b.invert then false else not a.invert
header_type_less _ _ a b = false

-- `headerMatchConditionSorter.Less`.
unfoldable pub header_less : HeaderMatchCondition → HeaderMatchCondition → Bool
unfolding header_type_less header_value_less
header_less a b =
    by_order (compare_text a.name b.name) true false
      (header_type_less a.match_type b.match_type a b)

-- `compareValue` of `queryParamMatchConditionSorter`: by value, then the case sensitive match.
unfoldable pub query_value_less : QueryParamMatchCondition → QueryParamMatchCondition → Bool
query_value_less a b =
    by_order (compare_text a.value b.value) true false
      (if bool_eq a.ignore_case b.ignore_case then false else not a.ignore_case)

unfoldable pub query_type_less :
    QueryParamMatchType
    → QueryParamMatchType
    → QueryParamMatchCondition
    → QueryParamMatchCondition
    → Bool
query_type_less QueryParamMatchType.exact QueryParamMatchType.exact a b = query_value_less a b
query_type_less QueryParamMatchType.exact _ a b = true
query_type_less QueryParamMatchType.regex QueryParamMatchType.regex a b = query_value_less a b
query_type_less QueryParamMatchType.regex QueryParamMatchType.prefix a b = true
query_type_less QueryParamMatchType.regex QueryParamMatchType.suffix a b = true
query_type_less QueryParamMatchType.regex QueryParamMatchType.contains a b = true
query_type_less QueryParamMatchType.regex QueryParamMatchType.present a b = true
query_type_less QueryParamMatchType.prefix QueryParamMatchType.prefix a b = query_value_less a b
query_type_less QueryParamMatchType.prefix QueryParamMatchType.suffix a b = true
query_type_less QueryParamMatchType.prefix QueryParamMatchType.contains a b = true
query_type_less QueryParamMatchType.prefix QueryParamMatchType.present a b = true
query_type_less QueryParamMatchType.suffix QueryParamMatchType.suffix a b = query_value_less a b
query_type_less QueryParamMatchType.suffix QueryParamMatchType.contains a b = true
query_type_less QueryParamMatchType.suffix QueryParamMatchType.present a b = true
query_type_less QueryParamMatchType.contains QueryParamMatchType.contains a b = query_value_less a b
query_type_less QueryParamMatchType.contains QueryParamMatchType.present a b = true
query_type_less _ _ a b = false

-- `queryParamMatchConditionSorter.Less`.
unfoldable pub query_less : QueryParamMatchCondition → QueryParamMatchCondition → Bool
unfolding query_type_less query_value_less
query_less a b =
    by_order (compare_text a.name b.name) true false (query_type_less a.match_type b.match_type a b)

-- What the sorter reads of a `dag.Route`.
pub record Route : Type 0 where
  pub path : PathMatchCondition
  pub headers : List HeaderMatchCondition
  pub query_params : List QueryParamMatchCondition
  pub priority : ℕ

abbrev pub method_name : Text
method_name = codes ":method"

abbrev pub is_method : HeaderMatchCondition → Bool
is_method h = text_eq h.name method_name

abbrev pub other_headers : Route → List HeaderMatchCondition
other_headers r = filter (λ h. not (is_method h)) r.headers

-- The item by item loop: `true` at the first pair that is in order.
unfoldable pub any_less {ℓ} : {A : Type ℓ} → (A → A → Bool) → List A → List A → Bool
any_less less [] ys = false
any_less less (x ∷ xs) [] = false
any_less less (x ∷ xs) (y ∷ ys) = less x y || any_less less xs ys

-- `compareRoutesByMethodHeaderQueryParams`.
unfoldable pub compare_routes_by_method_header_query_params : Route → Route → Bool
compare_routes_by_method_header_query_params lhs rhs =
    let lhs_method = any is_method lhs.headers in
    let rhs_method = any is_method rhs.headers in
    if not (bool_eq lhs_method rhs_method)
    then lhs_method
    else if not (length (other_headers lhs) == length (other_headers rhs))
    then ltb (length (other_headers rhs)) (length (other_headers lhs))
    else if not (length lhs.query_params == length rhs.query_params)
    then ltb (length rhs.query_params) (length lhs.query_params)
    else if not (lhs.priority == rhs.priority)
    then ltb lhs.priority rhs.priority
    else if any_less header_less (other_headers lhs) (other_headers rhs)
    then true
    else any_less query_less lhs.query_params rhs.query_params

abbrev pub same_prefix_type : PrefixMatchType → PrefixMatchType → Bool
same_prefix_type string string = true
same_prefix_type segment segment = true
same_prefix_type _ _ = false

abbrev pub is_segment : PrefixMatchType → Bool
is_segment segment = true
is_segment string = false

-- The type switches of `routeSorter.Less`; `rest` compares the other conditions.
unfoldable pub path_less : PathMatchCondition → PathMatchCondition → Bool → Bool
path_less (prefix_match a s) (prefix_match b t) rest =
    if ltb (length b) (length a)
    then true
    else if ltb (length a) (length b)
    then false
    else by_order (compare_text a b) false true
        (if same_prefix_type s t then rest else is_segment s)
path_less (prefix_match a s) _ rest = false
path_less (regex_match a) (regex_match b) rest =
    if ltb (length b) (length a)
    then true
    else if ltb (length a) (length b)
    then false
    else by_order (compare_text a b) false true rest
path_less (regex_match a) (prefix_match b t) rest = true
path_less (regex_match a) (exact_match b) rest = false
path_less (exact_match a) (exact_match b) rest = by_order (compare_text a b) false true rest
path_less (exact_match a) (prefix_match b t) rest = true
path_less (exact_match a) (regex_match b) rest = true

-- `routeSorter.Less`.
unfoldable pub route_less : Route → Route → Bool
unfolding path_less compare_routes_by_method_header_query_params any_less header_less query_less
route_less a b = path_less a.path b.path (compare_routes_by_method_header_query_params a b)
