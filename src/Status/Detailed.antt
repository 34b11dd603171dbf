-- ===== src/Status/Detailed.antt =====
-- `DetailedCondition` and its methods, apis/projectcontour/v1/detailedconditions.go and helpers.go.
pub mod Laws
use contour.Prelude.{
  ℕ, zero, suc, Bool, true, false, Option, none, some, List, [], ◌∷◌, ◌++◌, Text, codes, text_eq,
  ltb, length, if◌then◌else◌,
}

pub data ConditionStatus : Type 0 where
  is_true is_false unknown unset : ConditionStatus

pub record SubCondition : Type 0 where
  pub kind : Text
  pub status : ConditionStatus
  pub reason : Text
  pub message : Text

-- The embedded `metav1.Condition` (its `Type` is `kind`), errors and warnings.
pub record DetailedCondition : Type 0 where
  pub kind : Text
  pub status : ConditionStatus
  pub observed_generation : ℕ
  pub last_transition_time : ℕ
  pub reason : Text
  pub message : Text
  pub errors : List SubCondition
  pub warnings : List SubCondition

abbrev pub valid_condition_type : Text
valid_condition_type = codes "Valid"

abbrev pub long_message_length : ℕ
long_message_length = 32760

-- `message[:n]`.
pub take_bytes : ℕ → Text → Text
take_bytes zero s = []
take_bytes (suc n) [] = []
take_bytes (suc n) (c ∷ s) = c ∷ take_bytes n s

unfoldable pub truncate_long_message : Text → Text
truncate_long_message message =
    if ltb long_message_length (length message)
    then take_bytes long_message_length message
    else message

unfoldable pub is_positive_polarity : DetailedCondition → Bool
is_positive_polarity dc = text_eq dc.kind valid_condition_type

unfoldable pub add_error : Text → Text → Text → DetailedCondition → DetailedCondition
unfolding is_positive_polarity
add_error error_type reason message dc = record dc {
  status = if is_positive_polarity dc then is_false else is_true;
  reason = codes "ErrorPresent";
  message = codes "At least one error present, see Errors for details";
  errors =
      dc.errors
      ++ record {
        kind = error_type;
        status = is_true;
        reason = reason;
        message = truncate_long_message message;
      }
        ∷ [];
}

unfoldable pub add_warning : Text → Text → Text → DetailedCondition → DetailedCondition
add_warning warn_type reason message dc = record dc {
  warnings =
      dc.warnings
      ++ record {
        kind = warn_type;
        status = is_true;
        reason = reason;
        message = truncate_long_message message;
      }
        ∷ [];
}

-- `getIndex`, and the item at the index; -1 is `none`.
unfoldable pub get_index : Text → List SubCondition → Option SubCondition
get_index kind [] = none
get_index kind (c ∷ subconds) =
    let rest = get_index kind subconds in if text_eq c.kind kind then some c else rest

unfoldable pub get_error : Text → DetailedCondition → Option SubCondition
unfolding get_index
get_error error_type dc = get_index error_type dc.errors

unfoldable pub get_warning : Text → DetailedCondition → Option SubCondition
unfolding get_index
get_warning warn_type dc = get_index warn_type dc.warnings
