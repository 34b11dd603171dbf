-- ===== src/Gateway/Matches.antt =====
-- The match conditions of Gateway API routes: `gatewayPathMatchCondition`,
-- `gatewayHeaderMatchConditions` and `gatewayQueryParamMatchConditions` of
-- internal/dag/gatewayapi_processor.go.
pub mod Laws
use contour.Prelude.{
  ℕ, ◌⊎◌, inl, inr, Bool, true, false, not, ◌&&◌, ◌||◌, ◌==◌, ◌-◌, leb, Option, none, some, List,
  [], ◌∷◌, ◌++◌, Text, codes, text_eq, any, map, if◌then◌else◌,
}
use contour.Conditions.Types.{
  PathMatchCondition, prefix_match, exact_match, regex_match, PrefixMatchType, string, segment,
  HeaderMatchCondition, HeaderMatchType, QueryParamMatchCondition, QueryParamMatchType,
}
use contour.Conditions.Path.{starts_with_slash}

-- `strings.Contains(s, "//")`.
abbrev pub double_slash : Text → Bool
double_slash [] = false
double_slash (c ∷ []) = false
double_slash (c ∷ d ∷ s) = ((c == b'/') && (d == b'/')) || double_slash (d ∷ s)

-- `strings.ToUpper` on ASCII.
abbrev pub upper_byte : ℕ → ℕ
upper_byte c = if leb b'a' c && leb c b'z' then c - 32 else c

abbrev pub to_upper : Text → Text
to_upper s = map upper_byte s

-- `HTTPPathMatch`, whose fields are pointers.
pub record PathMatch : Type 0 where
  pub kind : Option Text
  pub value : Option Text

-- `reported` is nil with a condition on the route; a nil pointer that is read panics.
pub data PathResult : Type 0 where
  matched : PathMatchCondition → PathResult
  reported panics : PathResult

-- `HTTPHeaderMatch` and `HTTPQueryParamMatch`.
pub record NameMatch : Type 0 where
  pub kind : Option Text
  pub name : Text
  pub value : Text

pub data MatchError : Type 0 where
  invalid_expression unsupported_type : MatchError

abbrev pub deref : Option Text → Text → Text
deref none default = default
deref (some s) default = s

module _ (compiles : Text → Bool) where
  unfoldable pub gateway_path_match_condition : Option PathMatch → PathResult
  gateway_path_match_condition none = matched (prefix_match (codes "/") string)
  gateway_path_match_condition (some m) =
      let path = deref m.value (codes "/") in
      let kind = deref m.kind (codes "PathPrefix") in
      if text_eq kind (codes "PathPrefix")
      then (if not (starts_with_slash path)
          then reported
          else if double_slash path
          then reported
          else if text_eq path (codes "/")
          then matched (prefix_match path string)
          else matched (prefix_match path segment))
      else if text_eq kind (codes "Exact")
      then (if not (starts_with_slash path)
          then reported
          else if double_slash path
          then reported
          else matched (exact_match path))
      else if text_eq kind (codes "RegularExpression")
      then (elim m.value [
        | none ↦ panics
        | some value ↦ if compiles value then matched (regex_match path) else reported
      ])
      else reported

  -- The `switch` on the type: whether it is an expression.
  unfoldable pub is_expression : NameMatch → MatchError ⊎ Bool
  is_expression m =
      let kind = deref m.kind (codes "Exact") in
      if text_eq kind (codes "Exact")
      then inr false
      else if text_eq kind (codes "RegularExpression")
      then (if compiles m.value then inr true else inl invalid_expression)
      else inl unsupported_type

  -- The loop that both functions are, by the key under which a name is remembered and what is
  -- appended.
  unfoldable pub add_matches {ℓ} :
      {A : Type ℓ}
      → (Text → Text)
      → (NameMatch → Bool → A)
      → List NameMatch
      → List Text
      → List A
      → MatchError ⊎ List A
  unfolding is_expression
  add_matches key condition [] seen conditions = inr conditions
  add_matches key condition (m ∷ ms) seen conditions = elim (is_expression m) [
    | inl err ↦ inl err
    | inr expression ↦
        if any (λ s. text_eq s (key m.name)) seen
        then add_matches key condition ms seen conditions
        else add_matches key condition ms (seen ++ key m.name ∷ [])
            (conditions ++ condition m expression ∷ [])
  ]

  abbrev pub header_condition : NameMatch → Bool → HeaderMatchCondition
  header_condition m expression = record {
    name = m.name;
    value = m.value;
    match_type = if expression then HeaderMatchType.regex else HeaderMatchType.exact;
    invert = false;
    ignore_case = false;
    treat_missing_as_empty = false;
  }

  abbrev pub query_condition : NameMatch → Bool → QueryParamMatchCondition
  query_condition m expression = record {
    name = m.name;
    value = m.value;
    match_type = if expression then QueryParamMatchType.regex else QueryParamMatchType.exact;
    ignore_case = false;
  }

  unfoldable pub gateway_header_match_conditions :
      List NameMatch → MatchError ⊎ List HeaderMatchCondition
  unfolding add_matches
  gateway_header_match_conditions ms = add_matches to_upper header_condition ms [] []

  unfoldable pub gateway_query_param_match_conditions :
      List NameMatch → MatchError ⊎ List QueryParamMatchCondition
  unfolding add_matches
  gateway_query_param_match_conditions ms = add_matches (λ s. s) query_condition ms [] []
