-- ===== src/Conditions/Path.antt =====
-- Path conditions: `mergePathMatchConditions`, `pathMatchConditionsValid` and
-- `includeMatchConditionsValid` of internal/dag/conditions.go.
pub mod Merge
pub mod Valid
pub mod Laws
pub mod Kind
use contour.Prelude.{
  ℕ, suc, ◌+◌, Bool, true, false, not, ◌&&◌, ◌||◌, Option, none, some, List, [], ◌∷◌, ◌++◌, Text,
  is_empty, if◌then◌else◌, ◌==◌, ltb, get_last?, length,
}
use contour.Conditions.Types.{
  Condition, PathMatchCondition, prefix_match, exact_match, regex_match, string,
}

abbrev pub nonempty : Text → Bool
nonempty s = not (is_empty s)

-- `cond.Prefix[0] == '/'`, for a text that is not empty.
abbrev pub starts_with_slash : Text → Bool
starts_with_slash [] = false
starts_with_slash (c ∷ s) = c == b'/'

-- `re.ReplaceAllString(mergedPath, "/")` with `//+`: each run of slashes becomes one.
unfoldable pub collapse_slashes : Text → Text
collapse_slashes [] = []
collapse_slashes (c ∷ []) = c ∷ []
collapse_slashes (c ∷ d ∷ s) =
    let rest = collapse_slashes (d ∷ s) in if (c == b'/') && (d == b'/') then rest else c ∷ rest

-- One round of the loop of `mergePathMatchConditions`: what is appended to `mergedPath`.
unfoldable pub path_of : Condition → Text
path_of c = if nonempty c.prefix then c.prefix else if nonempty c.exact then c.exact else c.regex

-- Whether the round sets `isRegex`.
unfoldable pub sets_regex : Condition → Bool
sets_regex c = is_empty c.prefix && is_empty c.exact && nonempty c.regex

-- The loop, with `mergedPath` and `isRegex` as its variables.
unfoldable pub merge_paths : Text → Bool → List Condition → Text × Bool
merge_paths merged is_regex [] = (merged, is_regex)
merge_paths merged is_regex (c ∷ conds) =
    merge_paths (merged ++ path_of c) (is_regex || sets_regex c) conds

-- The final `switch`, by the last rule of the delegation chain.
unfoldable pub choose_match : Text → Bool → Option Condition → PathMatchCondition
choose_match merged is_regex none = prefix_match (b'/' ∷ []) string
choose_match merged is_regex (some last) =
    if is_empty merged
    then prefix_match (b'/' ∷ []) string
    else if is_regex
    then regex_match merged
    else if nonempty last.prefix
    then prefix_match merged string
    else if nonempty last.exact
    then exact_match merged
    else prefix_match merged string

unfoldable pub merge_path_match_conditions : List Condition → PathMatchCondition
unfolding merge_paths choose_match
merge_path_match_conditions conds =
    let (merged, is_regex) = merge_paths [] false conds in
    choose_match (collapse_slashes merged) is_regex (get_last? conds)

pub data PathError : Type 0 where
  prefix_slash exact_slash regex_slash regex_invalid more_than_one : PathError

pub data IncludeError : Type 0 where
  exact_in_include regex_in_include : IncludeError

-- `regexp.Compile` of RE2 syntax is a parameter: `true` where it returns no error.
module _ (compiles : Text → Bool) where
  -- The three checks of one round; `none` is "go on".
  unfoldable pub check_path : Condition → Option PathError
  check_path c =
      if nonempty c.prefix && not (starts_with_slash c.prefix)
      then some prefix_slash
      else if nonempty c.exact && not (starts_with_slash c.exact)
      then some exact_slash
      else if nonempty c.regex && not (starts_with_slash c.regex)
      then some regex_slash
      else if nonempty c.regex && not (compiles c.regex)
      then some regex_invalid
      else none

  abbrev bump : Text → ℕ → ℕ
  bump s n = if nonempty s then suc n else n

  -- The loop, with the three counters, and the test behind it.
  unfoldable pub count_paths : ℕ → ℕ → ℕ → List Condition → Option PathError
  count_paths prefixes exacts regexes [] =
      if ltb 1 prefixes || ltb 1 exacts || ltb 1 regexes || ltb 1 (prefixes + exacts + regexes)
      then some more_than_one
      else none
  count_paths prefixes exacts regexes (c ∷ conds) =
      let rest =
        count_paths (bump c.prefix prefixes) (bump c.exact exacts) (bump c.regex regexes) conds in
      elim (check_path c) [ some e ↦ some e | none ↦ rest ]

  unfoldable pub path_match_conditions_valid : List Condition → Option PathError
  unfolding count_paths check_path
  path_match_conditions_valid conds = count_paths 0 0 0 conds

unfoldable pub include_match_conditions_valid : List Condition → Option IncludeError
include_match_conditions_valid [] = none
include_match_conditions_valid (c ∷ conds) =
    let rest = include_match_conditions_valid conds in
    if nonempty c.exact
    then some exact_in_include
    else if nonempty c.regex
    then some regex_in_include
    else rest
