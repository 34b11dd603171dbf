-- ===== src/Conditions/Path/Valid.antt =====
-- What the validation of path conditions accepts.
use contour.Prelude.{
  not, ◌&&◌, ℕ, ◌+◌, ◌≤◌, ◌≡◌, refl, sym, ◌∙◌, ◌↔◌, inl, inr, Bool, true, false, none, some, List,
  [], ◌∷◌, arith, Text, is_empty, All, Option-cases, any,
}
use contour.Conditions.Types.{Condition}
use contour.Conditions.Path.{
  nonempty, starts_with_slash, sets_regex, check_path, count_paths, bump,
  path_match_conditions_valid, include_match_conditions_valid,
}

-- How many path matchers one condition sets.
abbrev pub one_if : Bool → ℕ
one_if true = 1
one_if false = 0

abbrev pub paths_set : Condition → ℕ
paths_set c = one_if (nonempty c.prefix) + one_if (nonempty c.exact) + one_if (nonempty c.regex)

abbrev pub total_paths : List Condition → ℕ
total_paths [] = 0
total_paths (c ∷ conds) = paths_set c + total_paths conds

-- Every path that is set starts with a slash, and a regular expression compiles.
pub record IsRooted (compiles : Text → Bool) (c : Condition) : Type 0 where
  pub prefix_rooted : (nonempty c.prefix && not (starts_with_slash c.prefix)) ≡ false
  pub exact_rooted : (nonempty c.exact && not (starts_with_slash c.exact)) ≡ false
  pub regex_rooted : (nonempty c.regex && not (starts_with_slash c.regex)) ≡ false
  pub regex_compiles : (nonempty c.regex && not (compiles c.regex)) ≡ false

module _ (compiles : Text → Bool) where
  check_path-none : (c : Condition) → (check_path compiles c ≡ none) ↔ IsRooted compiles c
  unfolding check_path
  check_path-none c = (
    λ h. record {
      prefix_rooted = ground arith;
      exact_rooted = ground arith;
      regex_rooted = ground arith;
      regex_compiles = ground arith;
    },
    λ r. ground arith,
  )

  -- The counters after one round.
  bump_total :
      (p e r : ℕ) (c : Condition)
      → bump compiles c.prefix p + bump compiles c.exact e + bump compiles c.regex r
        ≡ p + e + r + paths_set c
  bump_total p e r c = ground arith

  count_paths-none :
      (p e r : ℕ) (conds : List Condition)
      → (count_paths compiles p e r conds ≡ none)
        ↔ (All (IsRooted compiles) conds × (p + e + r + total_paths conds ≤ 1))
  unfolding count_paths
  count_paths-none p e r [] = ground arith
  count_paths-none p e r (c ∷ conds) = elim (Option-cases (check_path compiles c)) [
    | inl passed ↦
        let ih =
          count_paths-none (bump compiles c.prefix p) (bump compiles c.exact e)
            (bump compiles c.regex r) conds in
        let total = bump_total p e r c in
        (
          λ h.
              let (rooted, few) = ih.0 (rw (passed, count_paths) at h) in
              (((check_path-none c).0 passed, rooted), omega arith),
          λ h. rw (passed, count_paths) (ih.1 (h.0.1, omega (arith, h.1))),
        )
    | inr (err, refused) ↦ (
      λ h. absurd (let q : some err ≡ none = rw (refused, count_paths) at h in cc),
      λ h. absurd (let q : some err ≡ none = sym refused ∙ (check_path-none c).1 h.0.0 in cc),
    )
  ]

  -- A block of conditions is accepted exactly when every path that it sets starts with a slash,
  -- every regular expression in it compiles, and it sets at most one path.
  pub path_match_conditions_valid_iff :
      (conds : List Condition)
      → (path_match_conditions_valid compiles conds ≡ none)
        ↔ (All (IsRooted compiles) conds × (total_paths conds ≤ 1))
  unfolding path_match_conditions_valid
  path_match_conditions_valid_iff conds =
      let both = count_paths-none 0 0 0 conds in
      (λ h. ((both.0 h).0, omega (arith, (both.0 h).1)), λ h. both.1 (h.0, omega (arith, h.1)))

-- The conditions of an include set neither an exact path nor a regular expression.
pub include_match_conditions_valid-none :
    (conds : List Condition)
    → include_match_conditions_valid conds ≡ none
    → All (λ c. (is_empty c.exact ≡ true) × (is_empty c.regex ≡ true)) conds
unfolding include_match_conditions_valid
include_match_conditions_valid-none [] h = tt
include_match_conditions_valid-none (c ∷ conds) h =
    let ih = include_match_conditions_valid-none conds in
    ((ground arith, ground arith), ih (ground arith))

pub any-sets_regex-include :
    (conds : List Condition)
    → include_match_conditions_valid conds ≡ none
    → any sets_regex conds ≡ false
unfolding sets_regex include_match_conditions_valid
any-sets_regex-include [] h = refl
any-sets_regex-include (c ∷ conds) h = ground (arith, any-sets_regex-include conds)
