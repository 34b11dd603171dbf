-- ===== src/Timeout.antt =====
-- Timeout settings (internal/timeout/timeout.go).
pub mod Laws
use contour.Prelude.{
  ℕ, zero, Bool, true, false, not, ◌&&◌, ◌||◌, Option, none, some, Text, codes, text_eq, is_empty,
  if◌then◌else◌,
}

-- `time.Duration`, an int64; `negsuc n` is -(n + 1).
pub data Duration : Type 0 where
  pos negsuc : ℕ → Duration

abbrev pub is_zero : Duration → Bool
is_zero (pos zero) = true
is_zero _ = false

pub record Setting : Type 0 where
  pub val : Duration
  pub valset : Bool
  pub disabled : Bool

unfoldable pub is_disabled : Setting → Bool
is_disabled s = s.disabled

unfoldable pub use_default : Setting → Bool
use_default s = not s.disabled && not s.valset

unfoldable pub duration : Setting → Duration
duration s = s.val

unfoldable pub default_setting : Setting
default_setting = record { val = pos 0; valset = false; disabled = false }

unfoldable pub disabled_setting : Setting
disabled_setting = record { val = pos 0; valset = false; disabled = true }

unfoldable pub duration_setting : Duration → Setting
unfolding default_setting
duration_setting d =
    if is_zero d then default_setting else record { val = d; valset = true; disabled = false }

abbrev pub is_infinite : Text → Bool
is_infinite t = text_eq t (codes "infinity") || text_eq t (codes "infinite")

-- `time.ParseDuration` is a parameter; `none` is its error, and so is the result's `none`.
module _ (parse_duration : Text → Option Duration) where
  unfoldable pub parse : Text → Option Setting
  unfolding default_setting disabled_setting duration_setting
  parse timeout =
      if is_empty timeout
      then some default_setting
      else if is_infinite timeout
      then some disabled_setting
      else (elim (parse_duration timeout) [
        | none ↦ none
        | some d ↦ if is_zero d then some default_setting else some (duration_setting d)
      ])

  unfoldable pub parse_max_age : Text → Option Setting
  unfolding default_setting disabled_setting duration_setting
  parse_max_age timeout =
      if is_empty timeout then some default_setting else (elim (parse_duration timeout) [
        | none ↦ none
        | some d ↦ if is_zero d then some disabled_setting else some (duration_setting d)
      ])
