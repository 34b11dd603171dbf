-- ===== src/Status/Detailed/Laws.antt =====
-- Errors are kept in the order in which they were added, and messages are bounded.
use contour.Prelude.{
  ℕ, zero, suc, ◌≤◌, ◌≡◌, refl, sym, ap, ◌∙◌, Bool, true, false, ◌||◌, Option, none, some, List, [],
  ◌∷◌, ◌++◌, arith, Text, text_eq, length, if◌then◌else◌, All, All-snoc,
}
use contour.Status.Detailed.{
  SubCondition, DetailedCondition, is_true, is_false, long_message_length, take_bytes,
  truncate_long_message, is_positive_polarity, add_error, add_warning, get_index, get_error,
}

-- The first result, or else the second.
abbrev pub or_other : Option SubCondition → Option SubCondition → Option SubCondition
or_other none o = o
or_other (some c) o = some c

get_index-snoc :
    (kind : Text) (cs : List SubCondition) (c : SubCondition)
    → get_index kind (cs ++ c ∷ [])
      ≡ or_other (get_index kind cs) (if text_eq c.kind kind then some c else none)
unfolding get_index
get_index-snoc kind [] c = refl
get_index-snoc kind (d ∷ cs) c = ground (arith, get_index-snoc kind cs c)

-- What `AddError` appends.
abbrev pub error_of : Text → Text → Text → SubCondition
error_of kind reason message = record {
  kind = kind;
  status = is_true;
  reason = reason;
  message = truncate_long_message message;
}

-- After `AddError`, `GetError` of a type finds the error that was there before, and the new one only
-- where there was none of that type.
pub get_error-add_error :
    (kind error_type reason message : Text) (dc : DetailedCondition)
    → get_error kind (add_error error_type reason message dc)
      ≡ or_other
          (get_error kind dc)
          (if text_eq error_type kind then some (error_of error_type reason message) else none)
unfolding get_error add_error
get_error-add_error kind error_type reason message dc =
    get_index-snoc kind dc.errors (error_of error_type reason message)

length-take_bytes : (n : ℕ) (s : Text) → length (take_bytes n s) ≤ n
unfolding take_bytes
length-take_bytes zero s = omega arith
length-take_bytes (suc n) [] = omega arith
length-take_bytes (suc n) (c ∷ s) = omega (arith, length-take_bytes n s)

truncate_long_message_bounds :
    (message : Text) → length (truncate_long_message message) ≤ long_message_length
unfolding truncate_long_message
truncate_long_message_bounds message = ground (arith, length-take_bytes long_message_length message)

abbrev pub IsShort : SubCondition → Type 0
IsShort c = length c.message ≤ long_message_length

-- The calls that build a condition.
pub data Report : Type 0 where
  error warning : (kind reason message : Text) → Report

abbrev pub report : Report → DetailedCondition → DetailedCondition
report (error kind reason message) dc = add_error kind reason message dc
report (warning kind reason message) dc = add_warning kind reason message dc

abbrev pub reports : List Report → DetailedCondition → DetailedCondition
reports [] dc = dc
reports (r ∷ rs) dc = reports rs (report r dc)

abbrev pub is_error : Report → Bool
is_error (error kind reason message) = true
is_error (warning kind reason message) = false

abbrev pub any_error : List Report → Bool
any_error [] = false
any_error (r ∷ rs) = if is_error r then true else any_error rs

reports-kind : (rs : List Report) (dc : DetailedCondition) → (reports rs dc).kind ≡ dc.kind
unfolding add_error add_warning
reports-kind [] dc = refl
reports-kind (error kind reason message ∷ rs) dc =
    reports-kind rs (add_error kind reason message dc)
reports-kind (warning kind reason message ∷ rs) dc =
    reports-kind rs (add_warning kind reason message dc)

-- However errors and warnings are added to a condition of positive polarity, such as "Valid", its
-- status is false exactly where there was an error among them or it was false before.
pub reports-status :
    (rs : List Report) (dc : DetailedCondition)
    → is_positive_polarity dc ≡ true
    → (reports rs dc).status ≡ (if any_error rs then is_false else dc.status)
unfolding is_positive_polarity add_error add_warning
reports-status [] dc p = refl
reports-status (error kind reason message ∷ rs) dc p =
    ground (arith, reports-status rs (add_error kind reason message dc) p)
reports-status (warning kind reason message ∷ rs) dc p =
    reports-status rs (add_warning kind reason message dc) p

-- However errors and warnings are added, no message is longer than the API server admits.
pub reports-IsShort :
    (rs : List Report) (dc : DetailedCondition)
    → All IsShort dc.errors
    → All IsShort dc.warnings
    → All IsShort (reports rs dc).errors × All IsShort (reports rs dc).warnings
unfolding add_error add_warning
reports-IsShort [] dc es ws = (es, ws)
reports-IsShort (error kind reason message ∷ rs) dc es ws =
    reports-IsShort rs (add_error kind reason message dc)
      (All-snoc IsShort dc.errors (error_of kind reason message) es
        (truncate_long_message_bounds message))
      ws
reports-IsShort (warning kind reason message ∷ rs) dc es ws =
    reports-IsShort rs (add_warning kind reason message dc) es (
      All-snoc IsShort dc.warnings (error_of kind reason message) ws
        (truncate_long_message_bounds message))

-- What is reported on a condition afterwards is all that sets the one apart from the other.
abbrev pub Extends : DetailedCondition → DetailedCondition → Type 0
Extends before after = (rs : List Report) × (after ≡ reports rs before)

pub Extends-refl : (dc : DetailedCondition) → Extends dc dc
Extends-refl dc = ([], refl)

reports-append :
    (rs rs' : List Report) (dc : DetailedCondition)
    → reports (rs ++ rs') dc ≡ reports rs' (reports rs dc)
reports-append [] rs' dc = refl
reports-append (r ∷ rs) rs' dc = reports-append rs rs' (report r dc)

pub Extends-trans : (a b c : DetailedCondition) → Extends a b → Extends b c → Extends a c
Extends-trans a b c (rs, p) (rs', q) =
    (rs ++ rs', q ∙ (ap (reports rs') p ∙ sym (reports-append rs rs' a)))

-- The same with an error among what is reported.
abbrev pub Fails : DetailedCondition → DetailedCondition → Type 0
Fails before after = (rs : List Report) × (after ≡ reports rs before) × (any_error rs ≡ true)

any_error-append : (rs rs' : List Report) → any_error (rs ++ rs') ≡ (any_error rs || any_error rs')
any_error-append [] rs' = refl
any_error-append (r ∷ rs) rs' = ground (arith, any_error-append rs rs')

pub Extends-Fails :
    (before dc : DetailedCondition) (kind reason message : Text)
    → Extends before dc
    → Fails before (add_error kind reason message dc)
Extends-Fails before dc kind reason message (rs, e) = (
  rs ++ error kind reason message ∷ [],
  ap (add_error kind reason message) e
      ∙ sym (reports-append rs (error kind reason message ∷ []) before),
  ground (arith, any_error-append rs (error kind reason message ∷ [])),
)

pub Fails-status :
    (before after : DetailedCondition)
    → is_positive_polarity before ≡ true
    → Fails before after
    → after.status ≡ is_false
Fails-status before after p (rs, e, bad) = ground (arith, e, bad, reports-status rs before p)
