-- ===== src/Conditions/Path/Laws.antt =====
-- The path condition that reaches the DAG, along a chain of includes.
use contour.Prelude.{
  ◌≡◌, refl, sym, ap, ◌∙◌, ◌⊎◌, inl, inr, Bool, true, false, none, some, List, [], ◌∷◌, ◌++◌, arith,
  Text, is_empty, if◌then◌else◌, All, All-append, any, ◌&&◌, flatten, get_last?, append_assoc,
}
use contour.Conditions.Types.{Condition, PathMatchCondition, prefix_match, exact_match, regex_match}
use contour.Conditions.Path.{
  starts_with_slash, path_of, sets_regex, choose_match, collapse_slashes,
  merge_path_match_conditions, path_match_conditions_valid,
}
use contour.Conditions.Path.Merge.{
  concat_paths, merge_paths-eq, NoDoubleSlash, collapse_slashes-NoDoubleSlash,
  collapse_slashes-append_parts,
}
use contour.Conditions.Path.Valid.{IsRooted, path_match_conditions_valid_iff}

-- The text that a path condition matches by.
abbrev pub path_text : PathMatchCondition → Text
path_text (prefix_match s t) = s
path_text (exact_match s) = s
path_text (regex_match s) = s

-- "Empty or rooted", which is kept by concatenation.
abbrev Rooted : Text → Type 0
Rooted s = (s ≡ []) ⊎ (starts_with_slash s ≡ true)

Rooted-append : (s t : Text) → Rooted s → Rooted t → Rooted (s ++ t)
Rooted-append [] t h k = k
Rooted-append (c ∷ s) t h k = ground arith

path_of-Rooted : (compiles : Text → Bool) (c : Condition) → IsRooted compiles c → Rooted (path_of c)
unfolding path_of
path_of-Rooted compiles c h = ground arith

concat_paths-Rooted :
    (compiles : Text → Bool) (conds : List Condition)
    → All (IsRooted compiles) conds
    → Rooted (concat_paths conds)
concat_paths-Rooted compiles [] h = inl refl
concat_paths-Rooted compiles (c ∷ conds) (h, hs) =
    Rooted-append _ _ (path_of-Rooted compiles c h) (concat_paths-Rooted compiles conds hs)

pub concat_paths-append :
    (xs ys : List Condition) → concat_paths (xs ++ ys) ≡ concat_paths xs ++ concat_paths ys
concat_paths-append [] ys = refl
concat_paths-append (x ∷ xs) ys = simp (concat_paths-append xs ys, append_assoc)

collapse_slashes-rooted :
    (s : Text) → starts_with_slash s ≡ true → starts_with_slash (collapse_slashes s) ≡ true
unfolding collapse_slashes
collapse_slashes-rooted [] h = h
collapse_slashes-rooted (c ∷ []) h = h
collapse_slashes-rooted (c ∷ d ∷ s) h = ground (arith, collapse_slashes-rooted (d ∷ s))

-- The merged condition in one equation.
pub merge_lem :
    (conds : List Condition)
    → merge_path_match_conditions conds
      ≡ choose_match
          (collapse_slashes (concat_paths conds))
          (any sets_regex conds)
          (get_last? conds)
unfolding merge_path_match_conditions
merge_lem conds =
    ap (λ (r : Text × Bool). choose_match (collapse_slashes r.0) r.1 (get_last? conds))
      (merge_paths-eq [] false conds)

abbrev slash : Text
slash = b'/' ∷ []

-- The text of the result: the collapsed paths, or a slash where there are none.
choose_match-path_text :
    (merged : Text) (is_regex : Bool) (last : Condition)
    → path_text (choose_match merged is_regex (some last))
      ≡ (if is_empty merged then slash else merged)
unfolding choose_match
choose_match-path_text merged is_regex last = ground arith

pub get_last?-cons {ℓ} :
    {A : Type ℓ} (x : A) (xs : List A) → (l : A) × (get_last? (x ∷ xs) ≡ some l)
get_last?-cons x [] = (x, refl)
get_last?-cons x (y ∷ xs) = get_last?-cons y xs

pub collapse_slashes-is_empty : (s : Text) → is_empty (collapse_slashes s) ≡ is_empty s
unfolding collapse_slashes
collapse_slashes-is_empty [] = refl
collapse_slashes-is_empty (c ∷ []) = refl
collapse_slashes-is_empty (c ∷ d ∷ s) = ground (arith, collapse_slashes-is_empty (d ∷ s))

merged_text :
    (conds : List Condition)
    → path_text (merge_path_match_conditions conds)
      ≡ (if is_empty (concat_paths conds) then slash else collapse_slashes (concat_paths conds))
unfolding choose_match
merged_text [] = rw (merge_lem [])
merged_text (c ∷ conds) =
    let (l, e) = get_last?-cons c conds in
    rw (
      merge_lem (c ∷ conds),
      e,
      choose_match-path_text (collapse_slashes (concat_paths (c ∷ conds)))
          (any sets_regex (c ∷ conds)) l,
      collapse_slashes-is_empty (concat_paths (c ∷ conds)),
    )

pub is_empty-append : (s t : Text) → is_empty (s ++ t) ≡ (is_empty s && is_empty t)
is_empty-append [] t = refl
is_empty-append (c ∷ s) t = refl

collapse_slashes-slash :
    (s : Text) → starts_with_slash s ≡ true → collapse_slashes (slash ++ s) ≡ collapse_slashes s
unfolding collapse_slashes
collapse_slashes-slash [] h = cc
collapse_slashes-slash (c ∷ s) h = rw h

rooted-is_empty : (s : Text) → starts_with_slash s ≡ true → is_empty s ≡ false
rooted-is_empty [] h = cc
rooted-is_empty (c ∷ s) h = refl

All-flatten :
    (compiles : Text → Bool) (blocks : List (List Condition))
    → All (λ b. path_match_conditions_valid compiles b ≡ none) blocks
    → All (IsRooted compiles) (flatten blocks)
All-flatten compiles [] h = tt
All-flatten compiles (b ∷ blocks) (h, hs) =
    All-append (IsRooted compiles) b (flatten blocks)
      ((path_match_conditions_valid_iff compiles b).0 h).0 (All-flatten compiles blocks hs)

Rooted-text :
    (s : Text)
    → Rooted s
    → let path = (if is_empty s then slash else collapse_slashes s) in
      (starts_with_slash path ≡ true) × NoDoubleSlash path
Rooted-text s (inl e) = rw e (refl, tt)
Rooted-text s (inr h) =
    rw (rooted-is_empty s h) (collapse_slashes-rooted s h, collapse_slashes-NoDoubleSlash s)

-- The path of a route whose blocks of conditions (those of the includes that lead to it, and its
-- own) were all validated starts with a slash and holds no two slashes side by side.
pub merge_path_match_conditions_rooted :
    (compiles : Text → Bool) (blocks : List (List Condition))
    → All (λ b. path_match_conditions_valid compiles b ≡ none) blocks
    → let path = path_text (merge_path_match_conditions (flatten blocks)) in
      (starts_with_slash path ≡ true) × NoDoubleSlash path
merge_path_match_conditions_rooted compiles blocks valid = rw (merged_text (flatten blocks)) (
    Rooted-text _
      (concat_paths-Rooted compiles (flatten blocks) (All-flatten compiles blocks valid)))

delegates_text :
    (s t : Text)
    → starts_with_slash t ≡ true
    → (if is_empty (s ++ t) then slash else collapse_slashes (s ++ t))
      ≡ collapse_slashes (
          (if is_empty s then slash else collapse_slashes s)
          ++ (if is_empty t then slash else collapse_slashes t))
unfolding collapse_slashes
delegates_text [] t h =
    rw (rooted-is_empty t h)
      (sym (collapse_slashes-append_parts slash t ∙ collapse_slashes-slash t h))
delegates_text (c ∷ s) t h =
    rw (rooted-is_empty t h) (sym (collapse_slashes-append_parts (c ∷ s) t))

-- Delegation: the path of a route behind an include is the include's path followed by the route's
-- own, with the slashes where they meet collapsed, wherever the route itself sets a path.
pub merge_path_match_conditions_delegates :
    (outer inner : List Condition)
    → starts_with_slash (concat_paths inner) ≡ true
    → path_text (merge_path_match_conditions (outer ++ inner))
      ≡ collapse_slashes (
          path_text (merge_path_match_conditions outer)
          ++ path_text (merge_path_match_conditions inner))
merge_path_match_conditions_delegates outer inner h =
    rw
      (
        merged_text (outer ++ inner),
        merged_text outer,
        merged_text inner,
        concat_paths-append outer inner,
      )
      (delegates_text (concat_paths outer) (concat_paths inner) h)
