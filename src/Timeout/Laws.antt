-- ===== src/Timeout/Laws.antt =====
-- What the two parsers of timeouts return.
use contour.Prelude.{
  ◌≡◌, ◌↔◌, ◌⊎◌, inl, inr, true, false, not, ◌&&◌, Option, none, some, Text, is_empty, arith,
  Option-cases, Bool-cases,
}
use contour.Timeout.{
  Duration, is_zero, Setting, is_disabled, use_default, duration, is_infinite, parse, parse_max_age,
}

-- A setting says one thing: disabled, "use the default", or a duration other than zero.
pub record IsSetting (s : Setting) : Type 0 where
  pub one_of : not (s.disabled && s.valset) ≡ true
  pub set_nonzero : (s.valset && is_zero s.val) ≡ false
  pub unset_zero : (not s.valset && not (is_zero s.val)) ≡ false

module _ (parse_duration : Text → Option Duration) where
  -- Every setting that is parsed from a text says one thing.
  pub parse-IsSetting :
      (timeout : Text) (s : Setting)
      → (parse parse_duration timeout ≡ some s) ⊎ (parse_max_age parse_duration timeout ≡ some s)
      → IsSetting s
  unfolding parse parse_max_age
  parse-IsSetting timeout s h = ground arith

  default_cases :
      (timeout : Text) (s : Setting)
      → parse parse_duration timeout ≡ some s
      → use_default s ≡ true
      → (is_empty timeout ≡ true)
        ⊎ ((d : Duration) × (parse_duration timeout ≡ some d) × (is_zero d ≡ true))
  unfolding parse use_default
  default_cases timeout s h u = elim (Option-cases (parse_duration timeout)) [
    | inl failed ↦ inl (ground arith)
    | inr (d, parsed) ↦ elim (Bool-cases (is_empty timeout)) [
      | inl empty ↦ inl empty
      | inr full ↦ inr (d, parsed, ground arith)
    ]
  ]

  -- How a timeout reads where it is accepted: it is disabled exactly for "infinity" and "infinite",
  -- the proxy's default is used only for an empty text or a zero duration, and a setting that is
  -- neither has the parsed duration.
  pub parse_lem :
      (timeout : Text) (s : Setting)
      → parse parse_duration timeout ≡ some s
      → ((is_disabled s ≡ true) ↔ ((is_empty timeout ≡ false) × (is_infinite timeout ≡ true)))
        × ((use_default s ≡ false)
            → (is_disabled s ≡ false)
            → parse_duration timeout ≡ some (duration s))
        × ((use_default s ≡ true)
            → (is_empty timeout ≡ true)
              ⊎ ((d : Duration) × (parse_duration timeout ≡ some d) × (is_zero d ≡ true)))
  unfolding parse is_disabled use_default duration
  parse_lem timeout s h = (
    (λ d. (ground arith, ground arith), λ d. ground arith),
    λ u d. ground arith,
    λ u. default_cases timeout s h u,
  )

  -- The two parsers agree but for an infinite timeout and for a zero duration, which `parse_max_age`
  -- reads as "disabled" where `parse` reads it as "use the default".
  pub parse_max_age-eq-parse :
      (timeout : Text)
      → is_infinite timeout ≡ false
      → (elim (parse_duration timeout) [ none ↦ false | some d ↦ is_zero d ]) ≡ false
      → parse_max_age parse_duration timeout ≡ parse parse_duration timeout
  unfolding parse parse_max_age
  parse_max_age-eq-parse timeout i z = ground arith
