-- ===== src/Conditions/Path/Kind.antt =====
-- The kind of the path condition that reaches the DAG: `mergePathMatchConditions` of
-- internal/dag/conditions.go.
use contour.Prelude.{
  ◌≡◌, refl, sym, ap, ◌∙◌, Bool, true, false, some, List, [], ◌∷◌, ◌++◌, arith, Text, is_empty, All,
  any, ◌||◌, get_last?, append_assoc, append-nil,
}
use contour.Conditions.Types.{
  Condition, PathMatchCondition, prefix_match, exact_match, regex_match, string,
}
use contour.Conditions.Path.{
  path_of, sets_regex, choose_match, collapse_slashes, merge_path_match_conditions,
}
use contour.Conditions.Path.Merge.{concat_paths}
use contour.Conditions.Path.Laws.{
  concat_paths-append, merge_lem, collapse_slashes-is_empty, is_empty-append,
}

abbrev pub is_regex_match : PathMatchCondition → Bool
is_regex_match (regex_match s) = true
is_regex_match _ = false

any-append {ℓ} :
    {A : Type ℓ} (p : A → Bool) (xs ys : List A) → any p (xs ++ ys) ≡ (any p xs || any p ys)
any-append p [] ys = refl
any-append p (x ∷ xs) ys = ground (arith, any-append p xs ys)

get_last?-append {ℓ} : {A : Type ℓ} (xs : List A) (y : A) → get_last? (xs ++ y ∷ []) ≡ some y
get_last?-append [] y = refl
get_last?-append (x ∷ []) y = refl
get_last?-append (x ∷ x' ∷ xs) y = get_last?-append (x' ∷ xs) y

-- A condition that sets no path: one on a header or a query parameter, say.
abbrev pub SetsNoPath : Condition → Type 0
SetsNoPath c = path_of c ≡ []

sets_regex-SetsNoPath : (c : Condition) → SetsNoPath c → sets_regex c ≡ false
unfolding sets_regex path_of
sets_regex-SetsNoPath c h = ground arith

concat_paths-SetsNoPath : (conds : List Condition) → All SetsNoPath conds → concat_paths conds ≡ []
concat_paths-SetsNoPath [] h = refl
concat_paths-SetsNoPath (c ∷ conds) (h, hs) = rw (h, concat_paths-SetsNoPath conds hs)

any-SetsNoPath : (conds : List Condition) → All SetsNoPath conds → any sets_regex conds ≡ false
any-SetsNoPath [] h = refl
any-SetsNoPath (c ∷ conds) (h, hs) = rw (sets_regex-SetsNoPath c h, any-SetsNoPath conds hs)

choose_match-exact :
    (merged : Text) (last : Condition)
    → is_empty merged ≡ false
    → is_empty last.prefix ≡ true
    → is_empty last.exact ≡ false
    → choose_match merged false (some last) ≡ exact_match merged
unfolding choose_match
choose_match-exact merged last m p e = ground arith

choose_match-SetsNoPath :
    (merged : Text) (last : Condition)
    → is_empty merged ≡ false
    → SetsNoPath last
    → choose_match merged false (some last) ≡ prefix_match merged string
unfolding choose_match path_of
choose_match-SetsNoPath merged last m silent = ground arith

get_last?-behind {ℓ} :
    {A : Type ℓ} (xs ys : List A) (y : A) → get_last? (xs ++ (ys ++ y ∷ [])) ≡ some y
get_last?-behind xs ys y =
    ap get_last? (sym (append_assoc xs ys (y ∷ []))) ∙ get_last?-append (xs ++ ys) y

All-last : {A : Type 0} (P : A → Type 0) (xs : List A) (y : A) → All P (xs ++ y ∷ []) → P y
All-last P [] y (h, e) = h
All-last P (x ∷ xs) y (h, hs) = All-last P xs y hs

module _ (includes : List Condition) (exact : Condition) (plain : any sets_regex includes ≡ false)
    (no_prefix : is_empty exact.prefix ≡ true) (is_exact : is_empty exact.exact ≡ false) where
  path_of-exact : path_of exact ≡ exact.exact
  unfolding path_of
  path_of-exact = ground arith

  -- The conditions that set no path change neither the text nor the kind of the match.
  merge_around :
      (before after : List Condition) (last : Condition)
      → All SetsNoPath before
      → All SetsNoPath after
      → get_last? (includes ++ (before ++ exact ∷ after)) ≡ some last
      → merge_path_match_conditions (includes ++ (before ++ exact ∷ after))
        ≡ choose_match (collapse_slashes (concat_paths includes ++ exact.exact)) false (some last)
  unfolding sets_regex
  merge_around before after last h k l =
      let same : concat_paths (includes ++ (before ++ exact ∷ after))
          ≡ concat_paths includes ++ exact.exact =
        rw (
          concat_paths-append includes (before ++ exact ∷ after),
          concat_paths-append before (exact ∷ after),
          concat_paths-SetsNoPath before h,
          concat_paths-SetsNoPath after k,
          path_of-exact,
          append-nil exact.exact,
        ) in
      let unset : any sets_regex (includes ++ (before ++ exact ∷ after)) ≡ false =
        rw
          (
            any-append sets_regex includes (before ++ exact ∷ after),
            any-append sets_regex before (exact ∷ after),
            plain,
            any-SetsNoPath before h,
            any-SetsNoPath after k,
            is_exact,
          )
          (ground arith) in
      rw (merge_lem (includes ++ (before ++ exact ∷ after)), same, unset, l)

  merged_nonempty : is_empty (collapse_slashes (concat_paths includes ++ exact.exact)) ≡ false
  merged_nonempty =
      rw
        (
          collapse_slashes-is_empty (concat_paths includes ++ exact.exact),
          is_empty-append (concat_paths includes) exact.exact,
          is_exact,
        )
        (ground arith)

  -- The kind of the match hangs on the order of the conditions of a route, of which one is an exact
  -- path condition, behind includes that set no regular expression, and the others, on headers and
  -- query parameters, set no path: with the exact one as the last, the result is an exact match of the
  -- collapsed path, and with one of the others as the last, it is a prefix match of the same path.
  pub merge_path_match_conditions_last :
      (others : List Condition) (other : Condition)
      → All SetsNoPath (others ++ other ∷ [])
      → (merge_path_match_conditions (includes ++ ((others ++ other ∷ []) ++ exact ∷ []))
          ≡ exact_match (collapse_slashes (concat_paths includes ++ exact.exact)))
        × (merge_path_match_conditions (includes ++ (exact ∷ (others ++ other ∷ [])))
            ≡ prefix_match (collapse_slashes (concat_paths includes ++ exact.exact)) string)
  merge_path_match_conditions_last others other silent = (
    merge_around (others ++ other ∷ []) [] exact silent tt
          (get_last?-behind includes (others ++ other ∷ []) exact)
        ∙ choose_match-exact _ exact merged_nonempty no_prefix is_exact,
    merge_around [] (others ++ other ∷ []) other tt silent
          (get_last?-behind includes (exact ∷ others) other)
        ∙ choose_match-SetsNoPath _ other merged_nonempty (All-last SetsNoPath others other silent),
  )
