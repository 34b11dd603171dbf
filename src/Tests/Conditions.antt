-- ===== src/Tests/Conditions.antt =====
-- Match conditions and timeouts.
use contour.Prelude.{
  ◌≡◌, refl, ◌↔◌, Bool, true, false, Option, none, some, List, [], ◌∷◌, ◌++◌, Text, codes, text_eq,
  to_lower, length, ◌≤◌, All, if◌then◌else◌,
}
use contour.Conditions.Types.{
  Condition, HeaderCondition, prefix_match, exact_match, string, header_eq,
}
use contour.Conditions.Path.{
  merge_path_match_conditions, path_match_conditions_valid, path_of, collapse_slashes,
  more_than_one, prefix_slash, starts_with_slash, sets_regex,
}
use contour.Conditions.Path.Merge.{NoDoubleSlash, concat_paths}
use contour.Conditions.Path.Valid.{path_match_conditions_valid_iff, IsRooted, total_paths}
use contour.Conditions.Path.Laws.{
  merge_path_match_conditions_rooted, merge_path_match_conditions_delegates, path_text,
}
use contour.Conditions.Path.Kind.{merge_path_match_conditions_last}
use contour.Conditions.Header.{
  header_conditions, header_match_conditions_valid, blank, key_of, exact_and_not_exact,
  merge_header_match_conditions,
}
use contour.Conditions.Header.Valid.{
  Compatible, header_match_conditions_valid_iff, header_match_conditions_valid_ignore_case,
}
use contour.Conditions.Query.{
  QueryError, query_conditions, query_parameter_match_conditions_valid,
  merge_query_param_match_conditions,
}
use contour.Conditions.Query.Valid.{
  Distinct, query_parameter_match_conditions_valid_iff, merge_query_param_match_conditions_complete,
}
use contour.Timeout.{
  Duration, pos, negsuc, parse, parse_max_age, duration_setting, disabled_setting,
}

abbrev no_condition : Condition
no_condition = record { prefix = []; exact = []; regex = []; header = none; query_parameter = none }

abbrev any_regex : Text → Bool
any_regex s = true

abbrev prefix_of : Text → Condition
prefix_of s = record no_condition { prefix = s }

abbrev exact_of : Text → Condition
exact_of s = record no_condition { exact = s }

abbrev header_of : HeaderCondition → Condition
header_of h = record no_condition { header = some h }

merge_tests :
    (merge_path_match_conditions (prefix_of (codes "/a/") ∷ exact_of (codes "//b") ∷ [])
      ≡ exact_match (codes "/a/b"))
    × (merge_path_match_conditions [] ≡ prefix_match (codes "/") string)
    × (path_match_conditions_valid any_regex (prefix_of (codes "a") ∷ []) ≡ some prefix_slash)
    × (path_match_conditions_valid any_regex (prefix_of (codes "/a") ∷ exact_of (codes "/b") ∷ [])
        ≡ some more_than_one)
unfolding merge_path_match_conditions collapse_slashes path_match_conditions_valid path_of
    sets_regex
merge_tests = (refl, refl, refl, refl)

abbrev outer_block : List Condition
outer_block = prefix_of (codes "/api") ∷ []

abbrev inner_block : List Condition
inner_block = exact_of (codes "/v1") ∷ header_of (blank (codes "x-id")) ∷ []

rooted_example :
    let path = path_text (merge_path_match_conditions (outer_block ++ (inner_block ++ []))) in
    (starts_with_slash path ≡ true) × NoDoubleSlash path
unfolding path_match_conditions_valid
rooted_example =
    merge_path_match_conditions_rooted any_regex (outer_block ∷ inner_block ∷ []) (refl, (refl, tt))

delegates_example :
    path_text (merge_path_match_conditions (outer_block ++ inner_block))
    ≡ collapse_slashes (
        path_text (merge_path_match_conditions outer_block)
        ++ path_text (merge_path_match_conditions inner_block))
unfolding path_of
delegates_example = merge_path_match_conditions_delegates outer_block inner_block refl

last_example :
    let exact = exact_of (codes "/v1") in
    let header = header_of (blank (codes "x-id")) in
    (merge_path_match_conditions (outer_block ++ (header ∷ exact ∷ []))
      ≡ exact_match (collapse_slashes (concat_paths outer_block ++ codes "/v1")))
    × (merge_path_match_conditions (outer_block ++ (exact ∷ header ∷ []))
        ≡ prefix_match (collapse_slashes (concat_paths outer_block ++ codes "/v1")) string)
unfolding path_of sets_regex
last_example =
    merge_path_match_conditions_last outer_block (exact_of (codes "/v1")) refl refl refl []
      (header_of (blank (codes "x-id"))) (refl, tt)

path_valid_example :
    (path_match_conditions_valid any_regex inner_block ≡ none)
    ↔ (All (IsRooted any_regex) inner_block × (total_paths inner_block ≤ 1))
path_valid_example = path_match_conditions_valid_iff any_regex inner_block

abbrev exact_header : Text → Text → Condition
exact_header name value = header_of (record (blank name) { exact = value })

abbrev not_exact_header : Text → Text → Condition
not_exact_header name value = header_of (record (blank name) { not_exact = value })

header_tests :
    (header_match_conditions_valid any_regex
        (exact_header (codes "X-Id") (codes "a") ∷ not_exact_header (codes "x-id") (codes "a") ∷ [])
      ≡ some exact_and_not_exact)
    × (header_match_conditions_valid any_regex (
          exact_header (codes "X-Id") (codes "a")
          ∷ not_exact_header (codes "x-id") (codes "b")
          ∷ [])
        ≡ none)
    × (length (merge_header_match_conditions (exact_header (codes "X-Id") (codes "a") ∷ [])) ≡ 1)
unfolding header_match_conditions_valid merge_header_match_conditions to_lower key_of header_eq
    text_eq
header_tests = (refl, refl, refl)

abbrev header_block : List Condition
header_block = exact_header (codes "x") (codes "a") ∷ not_exact_header (codes "y") (codes "a") ∷ []

header_valid_example :
    (header_match_conditions_valid any_regex header_block ≡ none)
    ↔ Compatible any_regex (header_conditions header_block)
header_valid_example = header_match_conditions_valid_iff any_regex header_block

ignore_case_example :
    header_match_conditions_valid any_regex (
      header_of (record (blank (codes "x")) { exact = codes "a"; ignore_case = true })
      ∷ header_of (record (blank (codes "x")) { not_exact = codes "a"; ignore_case = true })
      ∷ [])
    ≡ none
ignore_case_example =
    header_match_conditions_valid_ignore_case any_regex (codes "x") (codes "a")
      (header_of (record (blank (codes "x")) { exact = codes "a"; ignore_case = true }))
      (header_of (record (blank (codes "x")) { not_exact = codes "a"; ignore_case = true })) refl
      refl

abbrev query_of : Text → Text → Text → Condition
query_of name exact prefix = record no_condition {
  query_parameter = some (record {
    name = name;
    exact = exact;
    prefix = prefix;
    suffix = [];
    regex = [];
    contains = [];
    ignore_case = false;
    present = false;
  });
}

abbrev query_block : List Condition
query_block = query_of (codes "a") (codes "1") [] ∷ query_of (codes "b") [] (codes "2") ∷ []

query_tests :
    (query_parameter_match_conditions_valid any_regex query_block ≡ none)
    × (query_parameter_match_conditions_valid any_regex (query_of (codes "a") [] [] ∷ [])
        ≡ some QueryError.at_least_one)
    × (query_parameter_match_conditions_valid any_regex
          (query_of (codes "a") (codes "1") (codes "2") ∷ [])
        ≡ some QueryError.more_than_one)
    × (query_parameter_match_conditions_valid any_regex
          (query_of (codes "a") (codes "1") [] ∷ query_of (codes "A") (codes "2") [] ∷ [])
        ≡ some QueryError.duplicate_exact)
unfolding query_parameter_match_conditions_valid to_lower text_eq
query_tests = (refl, refl, refl, refl)

query_valid_example :
    (query_parameter_match_conditions_valid any_regex query_block ≡ none)
    ↔ Distinct any_regex (query_conditions query_block)
query_valid_example = query_parameter_match_conditions_valid_iff any_regex query_block

query_complete_example :
    length (merge_query_param_match_conditions query_block) ≡ length (query_conditions query_block)
query_complete_example =
    merge_query_param_match_conditions_complete any_regex query_block query_tests.0

-- A stand-in for `time.ParseDuration` that knows three texts.
abbrev durations : Text → Option Duration
durations t =
    if text_eq t (codes "0s")
    then some (pos 0)
    else if text_eq t (codes "5ns")
    then some (pos 5)
    else if text_eq t (codes "-5ns")
    then some (negsuc 4)
    else none

timeout_tests :
    (parse durations (codes "infinity") ≡ some disabled_setting)
    × (parse durations (codes "5ns") ≡ some (duration_setting (pos 5)))
    × (parse durations (codes "soon") ≡ none)
    × (parse_max_age durations (codes "0s") ≡ some disabled_setting)
unfolding parse parse_max_age text_eq
timeout_tests = (refl, refl, refl, refl)
