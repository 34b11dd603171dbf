-- ===== src/Conditions/Header/Valid.antt =====
-- What the validation of header conditions accepts: a description by pairs, with no state.
use contour.Prelude.{
  Sum-cases, ◌≡◌, refl, sym, fun_ext, ◌∙◌, ◌↔◌, ◌⊎◌, inl, inr, Bool, true, false, not, ◌&&◌, ◌||◌,
  Option, none, some, List, [], ◌∷◌, arith, Text, to_lower, text_eq, if◌then◌else◌, All,
}
use contour.Conditions.Types.{Condition, HeaderCondition, header_eq}
use contour.Conditions.Path.{nonempty}
use contour.Conditions.Header.{
  HeaderError, header_conditions, blank, key_of, seen_key, has_name, check_header, check_headers,
  header_match_conditions_valid,
}

-- Which matcher of a condition is in force: the first in this order.
pub data Matcher : Type 0 where
  present not_present absent : Matcher
  exact not_exact contains not_contains regex : Text → Matcher

pub matcher : HeaderCondition → Matcher
matcher h =
    if h.present
    then present
    else if h.not_present
    then not_present
    else if nonempty h.exact
    then exact h.exact
    else if nonempty h.not_exact
    then not_exact h.not_exact
    else if nonempty h.contains
    then contains h.contains
    else if nonempty h.not_contains
    then not_contains h.not_contains
    else if nonempty h.regex
    then regex h.regex
    else absent

-- The condition that says the opposite, for the header `name`.
abbrev opposite : Text → Matcher → Option HeaderCondition
opposite name present = some (record (blank name) { not_present = true })
opposite name not_present = some (record (blank name) { present = true })
opposite name (exact s) = some (record (blank name) { not_exact = s })
opposite name (not_exact s) = some (record (blank name) { exact = s })
opposite name (contains s) = some (record (blank name) { not_contains = s })
opposite name (not_contains s) = some (record (blank name) { contains = s })
opposite name (regex s) = none
opposite name absent = none

abbrev is_exact : Matcher → Bool
is_exact (exact s) = true
is_exact _ = false

abbrev matcher_compiles : (Text → Bool) → Matcher → Bool
matcher_compiles compiles (regex s) = compiles s
matcher_compiles compiles _ = true

-- The earlier condition `e` says the opposite of the later one, or both match the header exactly.
pub clash : HeaderCondition → HeaderCondition → Bool
unfolding matcher
clash e h =
    (elim (opposite (to_lower h.name) (matcher h)) [
      | none ↦ false
      | some r ↦ header_eq r (key_of e)
    ])
    || (is_exact (matcher e)
        && (is_exact (matcher h) && text_eq (to_lower h.name) (to_lower e.name)))

-- No condition clashes with an earlier one, and each regular expression compiles.
abbrev pub Compatible : (Text → Bool) → List HeaderCondition → Type 0
Compatible compiles [] = Unit
Compatible compiles (h ∷ hs) =
    (matcher_compiles compiles (matcher h) ≡ true)
    × All (λ later. clash h later ≡ false) hs
    × Compatible compiles hs

-- The same against the state of the loop.
fits : List HeaderCondition → List Text → HeaderCondition → Bool
unfolding matcher
fits seen exacts h =
    not (elim (opposite (to_lower h.name) (matcher h)) [ none ↦ false | some r ↦ seen_key r seen ])
    && not (is_exact (matcher h) && has_name (to_lower h.name) exacts)

next_exacts : List Text → HeaderCondition → List Text
unfolding matcher
next_exacts exacts h = if is_exact (matcher h) then to_lower h.name ∷ exacts else exacts

module _ (compiles : Text → Bool) where
  check_header-inr :
      (seen : List HeaderCondition) (exacts : List Text) (h : HeaderCondition)
      → fits seen exacts h ≡ true
      → matcher_compiles compiles (matcher h) ≡ true
      → check_header compiles seen exacts h ≡ inr (next_exacts exacts h)
  unfolding check_header fits next_exacts
  check_header-inr seen exacts h f c = ground arith

  check_header-fits :
      (seen : List HeaderCondition) (exacts exacts' : List Text) (h : HeaderCondition)
      → check_header compiles seen exacts h ≡ inr exacts'
      → (fits seen exacts h ≡ true) × (matcher_compiles compiles (matcher h) ≡ true)
  unfolding check_header fits
  check_header-fits seen exacts exacts' h e = ground arith

  -- One round adds exactly the clashes with the condition that it remembers.
  fits-next :
      (seen : List HeaderCondition) (exacts : List Text) (h later : HeaderCondition)
      → fits (key_of h ∷ seen) (next_exacts exacts h) later
        ≡ (not (clash h later) && fits seen exacts later)
  unfolding fits next_exacts clash
  fits-next seen exacts h later = ground arith

  All-and :
      (p q : HeaderCondition → Bool) (hs : List HeaderCondition)
      → All (λ h. (not (p h) && q h) ≡ true) hs
        ↔ (All (λ h. p h ≡ false) hs × All (λ h. q h ≡ true) hs)
  All-and p q [] = (λ _. (tt, tt), λ _. tt)
  All-and p q (h ∷ hs) =
      let ih = All-and p q hs in
      (
        λ a. ((ground arith, (ih.0 a.1).0), (ground arith, (ih.0 a.1).1)),
        λ a. (ground arith, ih.1 (a.0.1, a.1.1)),
      )

  -- An accepted round, and what it hands to the next.
  check_headers-cons :
      (seen : List HeaderCondition) (exacts : List Text) (h : HeaderCondition)
      (hs : List HeaderCondition)
      → (check_headers compiles seen exacts (h ∷ hs) ≡ none) ↔ (
          (fits seen exacts h ≡ true)
          × (matcher_compiles compiles (matcher h) ≡ true)
          × (check_headers compiles (key_of h ∷ seen) (next_exacts exacts h) hs ≡ none))
  unfolding check_headers
  check_headers-cons seen exacts h hs = elim (Sum-cases (check_header compiles seen exacts h)) [
    | inl (err, refused) ↦ (
      λ e. absurd (let q : some err ≡ none = rw (refused, check_headers) at e in cc),
      λ a. absurd (
          let q : ◌≡◌ {A = HeaderError ⊎ List Text} (inl err) (inr (next_exacts exacts h)) =
            sym refused ∙ check_header-inr seen exacts h a.0 a.1 in
          cc),
    )
    | inr (exacts', passed) ↦
        let (f, c) = check_header-fits seen exacts exacts' h passed in
        let same : exacts' ≡ next_exacts exacts h =
          cc (sym passed ∙ check_header-inr seen exacts h f c) in
        (
          λ e. (f, c, rw (passed, check_headers, same) at e),
          λ a. rw (passed, check_headers, same) a.2,
        )
  ]

  check_headers-none :
      (seen : List HeaderCondition) (exacts : List Text) (hs : List HeaderCondition)
      → (check_headers compiles seen exacts hs ≡ none)
        ↔ (All (λ h. fits seen exacts h ≡ true) hs × Compatible compiles hs)
  unfolding check_headers
  check_headers-none seen exacts [] = (λ _. (tt, tt), λ _. refl)
  check_headers-none seen exacts (h ∷ hs) =
      let step = check_headers-cons seen exacts h hs in
      let ih = check_headers-none (key_of h ∷ seen) (next_exacts exacts h) hs in
      let split = All-and (clash h) (fits seen exacts) hs in
      (
        λ e.
            let (f, c, rest) = step.0 e in
            let (later, compatible) = ih.0 rest in
            let (apart, fit) = split.0 (rw (fun_ext (fits-next seen exacts h)) at later) in
            ((f, fit), (c, apart, compatible)),
        λ a. step.1 (
          a.0.0,
          a.1.0,
          ih.1 (rw (fun_ext (fits-next seen exacts h)) (split.1 (a.1.1, a.0.1)), a.1.2),
        ),
      )

  fits-nil : (hs : List HeaderCondition) → All (λ h. fits [] [] h ≡ true) hs
  unfolding fits
  fits-nil [] = tt
  fits-nil (h ∷ hs) = (fits_first h, fits-nil hs)
    where
      fits_first : (h : HeaderCondition) → fits [] [] h ≡ true
      fits_first h = ground arith

  -- The header conditions of a route are accepted exactly when every regular expression among them
  -- compiles and no condition clashes with an earlier one: none says the opposite of an earlier one
  -- about the same header (names compared without case, all other fields of the earlier one unset),
  -- and no two match one header exactly.
  pub header_match_conditions_valid_iff :
      (conds : List Condition)
      → (header_match_conditions_valid compiles conds ≡ none)
        ↔ Compatible compiles (header_conditions conds)
  unfolding header_match_conditions_valid
  header_match_conditions_valid_iff conds =
      let both = check_headers-none [] [] (header_conditions conds) in
      (λ e. (both.0 e).1, λ c. both.1 (fits-nil (header_conditions conds), c))

abbrev exactly : Text → Text → HeaderCondition
exactly name value = record (blank name) { exact = value; ignore_case = true }

abbrev not_exactly : Text → Text → HeaderCondition
not_exactly name value = record (blank name) { not_exact = value; ignore_case = true }

clash-ignore_case :
    (name value : Text) → clash (exactly name value) (not_exactly name value) ≡ false
unfolding clash matcher header_eq key_of text_eq
clash-ignore_case name [] = refl
clash-ignore_case name (c ∷ value) = ground arith

matcher_compiles_exact :
    (compiles : Text → Bool) (name value : Text)
    → (matcher_compiles compiles (matcher (exactly name value)) ≡ true)
      × (matcher_compiles compiles (matcher (not_exactly name value)) ≡ true)
unfolding matcher
matcher_compiles_exact compiles name [] = (refl, refl)
matcher_compiles_exact compiles name (c ∷ value) = (refl, refl)

-- A contradiction that goes unnoticed: `exact` and `notexact` with one value for one header are
-- accepted together where both ignore case.
pub header_match_conditions_valid_ignore_case :
    (compiles : Text → Bool) (name value : Text) (c d : Condition)
    → c.header ≡ some (record (blank name) { exact = value; ignore_case = true })
    → d.header ≡ some (record (blank name) { not_exact = value; ignore_case = true })
    → header_match_conditions_valid compiles (c ∷ d ∷ []) ≡ none
unfolding header_conditions
header_match_conditions_valid_ignore_case compiles name value c d p q =
    let (first, second) = matcher_compiles_exact compiles name value in
    (header_match_conditions_valid_iff compiles (c ∷ d ∷ [])).1
      (rw (p, q) (first, (clash-ignore_case name value, tt), (second, tt, tt)))
