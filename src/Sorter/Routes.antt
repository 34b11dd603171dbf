-- ===== src/Sorter/Routes.antt =====
-- The order of routes that the route sorter means: a product of keys.
use contour.Prelude.{
  ℕ, ◌≡◌, ap, ◌∙◌, Bool, true, false, ◌||◌, Text, compare, Ordering, or_else, lex, on, reversed,
  IsComparison, compare-IsComparison, lex-IsComparison, on-IsComparison, reversed-IsComparison,
  compare_list-IsComparison, arith, compare_list, length, any, if◌then◌else◌,
}
use contour.Conditions.Types.{
  PathMatchCondition, prefix_match, exact_match, regex_match, string, segment,
}
use contour.Sorter.{
  compare_text, header_less, query_less, Route, is_method, other_headers, any_less,
  compare_routes_by_method_header_query_params, path_less, route_less,
}
use contour.Sorter.Keys.{
  compare_text-IsComparison, compare_headers, compare_headers-IsComparison, compare_query_params,
  compare_query_params-IsComparison,
}

-- Exact before regex before prefix.
abbrev pub path_rank : PathMatchCondition → ℕ
path_rank (exact_match s) = 0
path_rank (regex_match s) = 1
path_rank (prefix_match s t) = 2

-- The length counts for regular expressions and prefixes.
abbrev pub path_length : PathMatchCondition → ℕ
path_length (exact_match s) = 0
path_length (regex_match s) = length s
path_length (prefix_match s t) = length s

abbrev pub path_text : PathMatchCondition → Text
path_text (exact_match s) = s
path_text (regex_match s) = s
path_text (prefix_match s t) = s

-- A segment prefix before a string prefix.
abbrev pub prefix_rank : PathMatchCondition → ℕ
prefix_rank (prefix_match s string) = 1
prefix_rank _ = 0

abbrev pub compare_paths : PathMatchCondition → PathMatchCondition → Ordering
compare_paths = lex (on compare path_rank) (
    lex (reversed (on compare path_length))
      (lex (reversed (on compare_text path_text)) (on compare prefix_rank)))

abbrev pub method_rank : Route → ℕ
method_rank r = if any is_method r.headers then 0 else 1

abbrev pub header_count : Route → ℕ
header_count r = length (other_headers r)

abbrev pub query_count : Route → ℕ
query_count r = length r.query_params

-- A method match first, then more header conditions, then more query parameter conditions, then a
-- lower priority value.
abbrev pub compare_counts : Route → Route → Ordering
compare_counts = lex (on compare method_rank) (
    lex (reversed (on compare header_count))
      (lex (reversed (on compare query_count)) (on compare (λ r. r.priority))))

-- What decides before the conditions are compared one by one.
abbrev pub compare_heads : Route → Route → Ordering
compare_heads = lex (on compare_paths (λ r. r.path)) compare_counts

-- The header conditions and then the query parameter conditions, in lexicographic order.
abbrev pub compare_tails : Route → Route → Ordering
compare_tails =
    lex (on (compare_list compare_headers) other_headers)
      (on (compare_list compare_query_params) (λ r. r.query_params))

-- The intended order.
abbrev pub compare_routes : Route → Route → Ordering
compare_routes = lex compare_heads compare_tails

pub compare_paths-IsComparison : IsComparison compare_paths
compare_paths-IsComparison = lex-IsComparison (on-IsComparison compare-IsComparison path_rank) (
    lex-IsComparison (reversed-IsComparison (on-IsComparison compare-IsComparison path_length)) (
      lex-IsComparison (reversed-IsComparison (on-IsComparison compare_text-IsComparison path_text))
        (on-IsComparison compare-IsComparison prefix_rank)))

pub compare_heads-IsComparison : IsComparison compare_heads
compare_heads-IsComparison =
    lex-IsComparison (on-IsComparison compare_paths-IsComparison (λ (r : Route). r.path)) (
      lex-IsComparison (on-IsComparison compare-IsComparison method_rank) (
        lex-IsComparison (reversed-IsComparison (on-IsComparison compare-IsComparison header_count))
          (lex-IsComparison
            (reversed-IsComparison (on-IsComparison compare-IsComparison query_count))
            (on-IsComparison compare-IsComparison (λ (r : Route). r.priority)))))

pub compare_routes-IsComparison : IsComparison compare_routes
compare_routes-IsComparison = lex-IsComparison compare_heads-IsComparison (
    lex-IsComparison
      (on-IsComparison (compare_list-IsComparison compare_headers-IsComparison) other_headers)
      (on-IsComparison (compare_list-IsComparison compare_query_params-IsComparison)
        (λ (r : Route). r.query_params)))

-- `true` before, `false` behind, and `rest` where the comparison leaves the matter open.
abbrev pub lt_or : Ordering → Bool → Bool
lt_or Ordering.lt rest = true
lt_or Ordering.eq rest = rest
lt_or Ordering.gt rest = false

-- The item by item loops as they are in the code.
abbrev pub tails_less : Route → Route → Bool
tails_less a b =
    any_less header_less (other_headers a) (other_headers b)
    || any_less query_less a.query_params b.query_params

path_less-eq :
    (a b : PathMatchCondition) (rest : Bool) → path_less a b rest ≡ lt_or (compare_paths a b) rest
unfolding path_less compare_list
path_less-eq (prefix_match s string) b rest =
    ground (arith, compare_text-IsComparison.swap s (path_text b))
path_less-eq (prefix_match s segment) b rest =
    ground (arith, compare_text-IsComparison.swap s (path_text b))
path_less-eq (regex_match s) b rest = ground (arith, compare_text-IsComparison.swap s (path_text b))
path_less-eq (exact_match s) b rest = ground (arith, compare_text-IsComparison.swap s (path_text b))

conditions_less-eq :
    (a b : Route)
    → compare_routes_by_method_header_query_params a b ≡ lt_or (compare_counts a b) (tails_less a b)
unfolding compare_routes_by_method_header_query_params
conditions_less-eq a b = ground arith

lt_or-or_else : (o p : Ordering) (rest : Bool) → lt_or o (lt_or p rest) ≡ lt_or (or_else o p) rest
lt_or-or_else o p rest = ground arith

-- The method in two parts: the head decides, and where it is open the loops do.
pub route_less-eq : (a b : Route) → route_less a b ≡ lt_or (compare_heads a b) (tails_less a b)
unfolding route_less
route_less-eq a b =
    path_less-eq a.path b.path (compare_routes_by_method_header_query_params a b)
    ∙ ap (lt_or (compare_paths a.path b.path)) (conditions_less-eq a b)
    ∙ lt_or-or_else (compare_paths a.path b.path) (compare_counts a b) (tails_less a b)
