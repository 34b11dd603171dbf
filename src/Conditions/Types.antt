-- ===== src/Conditions/Types.antt =====
-- The match conditions of an HTTPProxy (apis/projectcontour/v1/httpproxy.go) and the conditions of
-- a DAG route (internal/dag/dag.go).
use contour.Prelude.{Bool, Text, text_eq, bool_eq, ◌&&◌, Option}

-- `contour_v1.HeaderMatchCondition`.
pub record HeaderCondition : Type 0 where
  pub name : Text
  pub present : Bool
  pub not_present : Bool
  pub contains : Text
  pub not_contains : Text
  pub ignore_case : Bool
  pub exact : Text
  pub not_exact : Text
  pub regex : Text
  pub treat_missing_as_empty : Bool

-- `contour_v1.QueryParameterMatchCondition`.
pub record QueryParameterCondition : Type 0 where
  pub name : Text
  pub exact : Text
  pub prefix : Text
  pub suffix : Text
  pub regex : Text
  pub contains : Text
  pub ignore_case : Bool
  pub present : Bool

-- `contour_v1.MatchCondition`; a nil pointer is `none`.
pub record Condition : Type 0 where
  pub prefix : Text
  pub exact : Text
  pub regex : Text
  pub header : Option HeaderCondition
  pub query_parameter : Option QueryParameterCondition

-- The DAG side.
pub data PrefixMatchType : Type 0 where
  string segment : PrefixMatchType

pub data PathMatchCondition : Type 0 where
  prefix_match : Text → PrefixMatchType → PathMatchCondition
  exact_match : Text → PathMatchCondition
  regex_match : Text → PathMatchCondition

-- The constants `HeaderMatchType...`, the only values that the code stores in `MatchType`.
pub data HeaderMatchType : Type 0 where
  exact contains present regex : HeaderMatchType

pub record HeaderMatchCondition : Type 0 where
  pub name : Text
  pub value : Text
  pub match_type : HeaderMatchType
  pub invert : Bool
  pub ignore_case : Bool
  pub treat_missing_as_empty : Bool

-- The constants `QueryParamMatchType...`.
pub data QueryParamMatchType : Type 0 where
  exact prefix suffix regex contains present : QueryParamMatchType

pub record QueryParamMatchCondition : Type 0 where
  pub name : Text
  pub value : Text
  pub match_type : QueryParamMatchType
  pub ignore_case : Bool

-- Go's `==` on the struct, by which it is a map's key.
unfoldable pub header_eq : HeaderCondition → HeaderCondition → Bool
header_eq h k =
    text_eq h.name k.name
    && bool_eq h.present k.present
    && bool_eq h.not_present k.not_present
    && text_eq h.contains k.contains
    && text_eq h.not_contains k.not_contains
    && bool_eq h.ignore_case k.ignore_case
    && text_eq h.exact k.exact
    && text_eq h.not_exact k.not_exact
    && text_eq h.regex k.regex
    && bool_eq h.treat_missing_as_empty k.treat_missing_as_empty
