-- ===== src/Sorter/Keys.antt =====
-- The orders that the header and query parameter sorters mean, as products of keys.
use contour.Prelude.{
  ℕ, ◌≡◌, Bool, true, false, Text, compare, Ordering, is_lt, or_else, lex, on, IsComparison,
  compare-IsComparison, lex-IsComparison, on-IsComparison, compare_list-IsComparison, IsStrictWeak,
  IsStrictWeak-of_comparison, arith, [], compare_list,
}
use contour.Conditions.Types.{
  HeaderMatchCondition, HeaderMatchType, QueryParamMatchCondition, QueryParamMatchType,
}
use contour.Sorter.{
  compare_text, header_value_less, header_type_less, header_less, query_value_less, query_type_less,
  query_less,
}

-- `false` before `true`.
abbrev pub flag : Bool → ℕ
flag false = 0
flag true = 1

pub compare_text-IsComparison : IsComparison compare_text
compare_text-IsComparison = compare_list-IsComparison compare-IsComparison

-- Exact before regex before contains before present.
abbrev header_rank : HeaderMatchType → ℕ
header_rank HeaderMatchType.exact = 0
header_rank HeaderMatchType.regex = 1
header_rank HeaderMatchType.contains = 2
header_rank HeaderMatchType.present = 3

-- A presence match has no value to compare.
abbrev header_value : HeaderMatchType → Text → Text
header_value HeaderMatchType.present value = []
header_value _ value = value

abbrev pub compare_headers : HeaderMatchCondition → HeaderMatchCondition → Ordering
compare_headers = lex (on compare_text (λ h. h.name)) (
    lex (on compare (λ h. header_rank h.match_type)) (
      lex (on compare_text (λ h. header_value h.match_type h.value))
        (on compare (λ h. flag h.invert))))

pub compare_headers-IsComparison : IsComparison compare_headers
compare_headers-IsComparison = lex-IsComparison (on-IsComparison compare_text-IsComparison _) (
    lex-IsComparison (on-IsComparison compare-IsComparison _) (
      lex-IsComparison (on-IsComparison compare_text-IsComparison _)
        (on-IsComparison compare-IsComparison _)))

header_value_less-eq :
    (a b : HeaderMatchCondition)
    → header_value_less a b
      ≡ is_lt (or_else (compare_text a.value b.value) (compare (flag a.invert) (flag b.invert)))
unfolding header_value_less
header_value_less-eq a b = ground arith

header_type_less-eq :
    (s t : HeaderMatchType) (a b : HeaderMatchCondition)
    → header_type_less s t a b
      ≡ is_lt (
          or_else (compare (header_rank s) (header_rank t)) (
            or_else
              (compare_text (header_value s a.value) (header_value t b.value))
              (compare (flag a.invert) (flag b.invert))))
unfolding header_type_less compare_list
header_type_less-eq HeaderMatchType.exact t a b = ground (arith, header_value_less-eq a b)
header_type_less-eq HeaderMatchType.regex t a b = ground (arith, header_value_less-eq a b)
header_type_less-eq HeaderMatchType.contains t a b = ground (arith, header_value_less-eq a b)
header_type_less-eq HeaderMatchType.present t a b = ground (arith, header_value_less-eq a b)

pub header_less-eq : (a b : HeaderMatchCondition) → header_less a b ≡ is_lt (compare_headers a b)
unfolding header_less
header_less-eq a b = ground (arith, header_type_less-eq a.match_type b.match_type a b)

-- Header conditions are sorted by name, then exact before regex before contains before present,
-- then by value (but for presence), then the condition that is not inverted first, and this is a
-- strict weak order.
pub header_less-IsStrictWeak :
    ((a b : HeaderMatchCondition) → header_less a b ≡ is_lt (compare_headers a b))
    × IsStrictWeak (λ (h : HeaderMatchCondition). Unit {0}) header_less
header_less-IsStrictWeak = (
  header_less-eq,
  IsStrictWeak-of_comparison compare_headers-IsComparison _ header_less
      (λ a b _ _. header_less-eq a b),
)

-- Exact before regex before prefix before suffix before contains before present.
abbrev query_rank : QueryParamMatchType → ℕ
query_rank QueryParamMatchType.exact = 0
query_rank QueryParamMatchType.regex = 1
query_rank QueryParamMatchType.prefix = 2
query_rank QueryParamMatchType.suffix = 3
query_rank QueryParamMatchType.contains = 4
query_rank QueryParamMatchType.present = 5

-- Two presence matches are never told apart.
abbrev query_value : QueryParamMatchType → Text → Text
query_value QueryParamMatchType.present value = []
query_value _ value = value

abbrev query_flag : QueryParamMatchType → Bool → ℕ
query_flag QueryParamMatchType.present b = 0
query_flag _ b = flag b

abbrev pub compare_query_params : QueryParamMatchCondition → QueryParamMatchCondition → Ordering
compare_query_params = lex (on compare_text (λ q. q.name)) (
    lex (on compare (λ q. query_rank q.match_type)) (
      lex (on compare_text (λ q. query_value q.match_type q.value))
        (on compare (λ q. query_flag q.match_type q.ignore_case))))

pub compare_query_params-IsComparison : IsComparison compare_query_params
compare_query_params-IsComparison = lex-IsComparison (on-IsComparison compare_text-IsComparison _) (
    lex-IsComparison (on-IsComparison compare-IsComparison _) (
      lex-IsComparison (on-IsComparison compare_text-IsComparison _)
        (on-IsComparison compare-IsComparison _)))

query_value_less-eq :
    (a b : QueryParamMatchCondition)
    → query_value_less a b
      ≡ is_lt (
          or_else
            (compare_text a.value b.value)
            (compare (flag a.ignore_case) (flag b.ignore_case)))
unfolding query_value_less
query_value_less-eq a b = ground arith

query_type_less-eq :
    (s t : QueryParamMatchType) (a b : QueryParamMatchCondition)
    → query_type_less s t a b
      ≡ is_lt (
          or_else (compare (query_rank s) (query_rank t)) (
            or_else
              (compare_text (query_value s a.value) (query_value t b.value))
              (compare (query_flag s a.ignore_case) (query_flag t b.ignore_case))))
unfolding query_type_less compare_list
query_type_less-eq QueryParamMatchType.exact t a b = ground (arith, query_value_less-eq a b)
query_type_less-eq QueryParamMatchType.regex t a b = ground (arith, query_value_less-eq a b)
query_type_less-eq QueryParamMatchType.prefix t a b = ground (arith, query_value_less-eq a b)
query_type_less-eq QueryParamMatchType.suffix t a b = ground (arith, query_value_less-eq a b)
query_type_less-eq QueryParamMatchType.contains t a b = ground (arith, query_value_less-eq a b)
query_type_less-eq QueryParamMatchType.present t a b = ground (arith, query_value_less-eq a b)

pub query_less-eq :
    (a b : QueryParamMatchCondition) → query_less a b ≡ is_lt (compare_query_params a b)
unfolding query_less
query_less-eq a b = ground (arith, query_type_less-eq a.match_type b.match_type a b)

-- Query parameter conditions are sorted by name, then exact before regex before prefix before suffix
-- before contains before present, then by value and the case sensitive one first (but for
-- presence), and this is a strict weak order.
pub query_less-IsStrictWeak :
    ((a b : QueryParamMatchCondition) → query_less a b ≡ is_lt (compare_query_params a b))
    × IsStrictWeak (λ (q : QueryParamMatchCondition). Unit {0}) query_less
query_less-IsStrictWeak = (
  query_less-eq,
  IsStrictWeak-of_comparison compare_query_params-IsComparison _ query_less
      (λ a b _ _. query_less-eq a b),
)
