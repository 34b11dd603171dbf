-- ===== src/Conditions/Header.antt =====
-- Header conditions: `mergeHeaderMatchConditions`, `headerMatchConditions` and
-- `headerMatchConditionsValid` of internal/dag/conditions.go.
pub mod Valid
use contour.Prelude.{
  Bool, true, false, not, ◌&&◌, Option, none, some, List, [], ◌∷◌, Text, to_lower, text_eq,
  if◌then◌else◌, any, ◌⊎◌, inl, inr,
}
use contour.Conditions.Types.{
  Condition, HeaderCondition, HeaderMatchCondition, HeaderMatchType, header_eq,
}
use contour.Conditions.Path.{nonempty}

-- The loop that collects `*cond.Header`.
unfoldable pub header_conditions : List Condition → List HeaderCondition
header_conditions [] = []
header_conditions (c ∷ conds) = elim c.header [
  | none ↦ header_conditions conds
  | some h ↦ h ∷ header_conditions conds
]

abbrev no_text : Text
no_text = []

-- The `switch` of `headerMatchConditions`; `none` is a round that appends nothing.
unfoldable pub header_match : HeaderCondition → Option HeaderMatchCondition
header_match c =
    if c.present
    then some (made no_text HeaderMatchType.present false false false)
    else if c.not_present
    then some (made no_text HeaderMatchType.present true false false)
    else if nonempty c.contains
    then some (made c.contains HeaderMatchType.contains false c.ignore_case false)
    else if nonempty c.not_contains
    then some
        (made c.not_contains HeaderMatchType.contains true c.ignore_case c.treat_missing_as_empty)
    else if nonempty c.exact
    then some (made c.exact HeaderMatchType.exact false c.ignore_case false)
    else if nonempty c.not_exact
    then some (made c.not_exact HeaderMatchType.exact true c.ignore_case c.treat_missing_as_empty)
    else if nonempty c.regex
    then some (made c.regex HeaderMatchType.regex false false false)
    else none
  where
    made : Text → HeaderMatchType → Bool → Bool → Bool → HeaderMatchCondition
    made value kind invert ignore_case missing = record {
      name = c.name;
      value = value;
      match_type = kind;
      invert = invert;
      ignore_case = ignore_case;
      treat_missing_as_empty = missing;
    }

unfoldable pub header_match_conditions : List HeaderCondition → List HeaderMatchCondition
header_match_conditions [] = []
header_match_conditions (c ∷ conds) = elim (header_match c) [
  | none ↦ header_match_conditions conds
  | some m ↦ m ∷ header_match_conditions conds
]

unfoldable pub merge_header_match_conditions : List Condition → List HeaderMatchCondition
unfolding header_conditions header_match_conditions header_match
merge_header_match_conditions conds = header_match_conditions (header_conditions conds)

pub data HeaderError : Type 0 where
  present_and_not_present duplicate_exact exact_and_not_exact : HeaderError
  contains_and_not_contains invalid_regex : HeaderError

-- A key of `seenMatchConditions` in which one field is set beside the name.
abbrev pub blank : Text → HeaderCondition
blank name = record {
  name = name;
  present = false;
  not_present = false;
  contains = [];
  not_contains = [];
  ignore_case = false;
  exact = [];
  not_exact = [];
  regex = [];
  treat_missing_as_empty = false;
}

-- The key under which a condition is remembered: its header's name is lower-cased.
unfoldable pub key_of : HeaderCondition → HeaderCondition
key_of h = record h { name = to_lower h.name }

-- A Go map from keys to `true`, as the list of its keys.
abbrev pub seen_key : HeaderCondition → List HeaderCondition → Bool
seen_key k seen = any (header_eq k) seen

abbrev pub has_name : Text → List Text → Bool
has_name n names = any (text_eq n) names

module _ (compiles : Text → Bool) where
  -- The `switch` of one round: an error, or the new `headersWithExactMatch`.
  unfoldable pub check_header :
      List HeaderCondition → List Text → HeaderCondition → HeaderError ⊎ List Text
  check_header seen exacts h =
      let name = to_lower h.name in
      if h.present
      then (if seen_key (record (blank name) { not_present = true }) seen
          then inl present_and_not_present
          else inr exacts)
      else if h.not_present
      then (if seen_key (record (blank name) { present = true }) seen
          then inl present_and_not_present
          else inr exacts)
      else if nonempty h.exact
      then (if has_name name exacts
          then inl duplicate_exact
          else if seen_key (record (blank name) { not_exact = h.exact }) seen
          then inl exact_and_not_exact
          else inr (name ∷ exacts))
      else if nonempty h.not_exact
      then (if seen_key (record (blank name) { exact = h.not_exact }) seen
          then inl exact_and_not_exact
          else inr exacts)
      else if nonempty h.contains
      then (if seen_key (record (blank name) { not_contains = h.contains }) seen
          then inl contains_and_not_contains
          else inr exacts)
      else if nonempty h.not_contains
      then (if seen_key (record (blank name) { contains = h.not_contains }) seen
          then inl contains_and_not_contains
          else inr exacts)
      else if nonempty h.regex
      then (if compiles h.regex then inr exacts else inl invalid_regex)
      else inr exacts

  -- The loop over the conditions that hold a header.
  unfoldable pub check_headers :
      List HeaderCondition → List Text → List HeaderCondition → Option HeaderError
  check_headers seen exacts [] = none
  check_headers seen exacts (h ∷ hs) = elim (check_header seen exacts h) [
    | inl e ↦ some e
    | inr exacts' ↦ check_headers (key_of h ∷ seen) exacts' hs
  ]

  unfoldable pub header_match_conditions_valid : List Condition → Option HeaderError
  unfolding header_conditions check_headers check_header
  header_match_conditions_valid conds = check_headers [] [] (header_conditions conds)
