-- ===== src/Conditions/Path/Merge.antt =====
-- What the merged path looks like.
use contour.Prelude.{
  ℕ, if◌then◌else◌, ◌≡◌, refl, sym, ap, inl, inr, Bool, false, ◌||◌, ◌&&◌, List, [], ◌∷◌, ◌++◌,
  append_assoc, append-nil, arith, Text, ◌==◌, any, Bool-cases,
}
use contour.Conditions.Types.{Condition}
use contour.Conditions.Path.{collapse_slashes, path_of, sets_regex, merge_paths}

-- The paths of the conditions, one after the other.
abbrev pub concat_paths : List Condition → Text
concat_paths [] = []
concat_paths (c ∷ conds) = path_of c ++ concat_paths conds

or_false : (b : Bool) → (b || false) ≡ b
or_false b = ground arith

or_assoc : (a b c : Bool) → ((a || b) || c) ≡ (a || (b || c))
or_assoc a b c = ground arith

-- The accumulator loop meets the plain recursion.
pub merge_paths-eq :
    (merged : Text) (is_regex : Bool) (conds : List Condition)
    → merge_paths merged is_regex conds
      ≡ (merged ++ concat_paths conds, is_regex || any sets_regex conds)
unfolding merge_paths
merge_paths-eq merged is_regex [] = cc (append-nil merged, or_false is_regex)
merge_paths-eq merged is_regex (c ∷ conds) = cc (
  merge_paths-eq (merged ++ path_of c) (is_regex || sets_regex c) conds,
  append_assoc merged (path_of c) (concat_paths conds),
  or_assoc is_regex (sets_regex c) (any sets_regex conds),
)

-- No two slashes stand side by side.
abbrev pub NoDoubleSlash : Text → Type 0
NoDoubleSlash [] = Unit
NoDoubleSlash (c ∷ []) = Unit
NoDoubleSlash (c ∷ d ∷ s) = (((c == b'/') && (d == b'/')) ≡ false) × NoDoubleSlash (d ∷ s)

abbrev SameHead : Text → Text → Type 0
SameHead [] t = t ≡ []
SameHead (c ∷ s) [] = ⊥
SameHead (c ∷ s) (d ∷ t) = c ≡ d

collapse_slashes-head : (s : Text) → SameHead s (collapse_slashes s)
unfolding collapse_slashes
collapse_slashes-head [] = refl
collapse_slashes-head (c ∷ []) = refl
collapse_slashes-head (c ∷ d ∷ s) = ground (arith, collapse_slashes-head (d ∷ s))

NoDoubleSlash-cons :
    (c d : ℕ) (s t : Text)
    → SameHead (d ∷ s) t
    → ((c == b'/') && (d == b'/')) ≡ false
    → NoDoubleSlash t
    → NoDoubleSlash (c ∷ t)
NoDoubleSlash-cons c d s [] h e n = tt
NoDoubleSlash-cons c d s (x ∷ t) h e n = (rw (← h) e, n)

pub collapse_slashes-NoDoubleSlash : (s : Text) → NoDoubleSlash (collapse_slashes s)
unfolding collapse_slashes
collapse_slashes-NoDoubleSlash [] = tt
collapse_slashes-NoDoubleSlash (c ∷ []) = tt
collapse_slashes-NoDoubleSlash (c ∷ d ∷ s) = elim (Bool-cases ((c == b'/') && (d == b'/'))) [
  | inl both ↦ rw both (collapse_slashes-NoDoubleSlash (d ∷ s))
  | inr other ↦ rw other (
      NoDoubleSlash-cons c d s (collapse_slashes (d ∷ s)) (collapse_slashes-head (d ∷ s)) other
        (collapse_slashes-NoDoubleSlash (d ∷ s)))
]

pub collapse_slashes_of_NoDoubleSlash : (s : Text) → NoDoubleSlash s → collapse_slashes s ≡ s
unfolding collapse_slashes
collapse_slashes_of_NoDoubleSlash [] n = refl
collapse_slashes_of_NoDoubleSlash (c ∷ []) n = refl
collapse_slashes_of_NoDoubleSlash (c ∷ d ∷ s) n =
    rw (n.0) (ap (λ t. c ∷ t) (collapse_slashes_of_NoDoubleSlash (d ∷ s) n.1))

-- `collapse_slashes` from the right: one byte put before a text that is collapsed.
put : ℕ → Text → Text
put c [] = c ∷ []
put c (d ∷ s) = if (c == b'/') && (d == b'/') then d ∷ s else c ∷ d ∷ s

put_lem :
    (c d : ℕ) (s t : Text)
    → SameHead (d ∷ s) t
    → put c t ≡ (if (c == b'/') && (d == b'/') then t else c ∷ t)
unfolding put
put_lem c d s [] h = absurd h
put_lem c d s (x ∷ t) h = rw h

collapse_slashes-cons : (c : ℕ) (s : Text) → collapse_slashes (c ∷ s) ≡ put c (collapse_slashes s)
unfolding collapse_slashes put
collapse_slashes-cons c [] = refl
collapse_slashes-cons c (d ∷ s) = sym (put_lem c d s _ (collapse_slashes-head (d ∷ s)))

put_all : Text → Text → Text
put_all [] u = u
put_all (c ∷ s) u = put c (put_all s u)

collapse_slashes-append : (s t : Text) → collapse_slashes (s ++ t) ≡ put_all s (collapse_slashes t)
unfolding put_all
collapse_slashes-append [] t = refl
collapse_slashes-append (c ∷ s) t =
    rw (collapse_slashes-cons c (s ++ t), collapse_slashes-append s t)

put-put : (s : Text) → put b'/' (put b'/' s) ≡ put b'/' s
unfolding put
put-put [] = refl
put-put (d ∷ s) = ground arith

put_all-put : (c : ℕ) (w u : Text) → put_all (put c w) u ≡ put c (put_all w u)
unfolding put put_all
put_all-put c [] u = refl
put_all-put c (d ∷ w) u = ground (arith, put-put (put_all w u))

put_all-collapse_slashes : (s u : Text) → put_all (collapse_slashes s) u ≡ put_all s u
unfolding put_all collapse_slashes
put_all-collapse_slashes [] u = refl
put_all-collapse_slashes (c ∷ s) u =
    rw (
      collapse_slashes-cons c s,
      put_all-put c (collapse_slashes s) u,
      put_all-collapse_slashes s u,
    )

pub collapse_slashes_idem : (s : Text) → collapse_slashes (collapse_slashes s) ≡ collapse_slashes s
collapse_slashes_idem s = collapse_slashes_of_NoDoubleSlash _ (collapse_slashes-NoDoubleSlash s)

-- Collapsing the parts first changes nothing.
pub collapse_slashes-append_parts :
    (s t : Text)
    → collapse_slashes (collapse_slashes s ++ collapse_slashes t) ≡ collapse_slashes (s ++ t)
collapse_slashes-append_parts s t = rw (
  collapse_slashes-append (collapse_slashes s) (collapse_slashes t),
  collapse_slashes_idem t,
  put_all-collapse_slashes s (collapse_slashes t),
  ← collapse_slashes-append s t,
)
