-- ===== src/Gateway/Timeouts.antt =====
-- `parseHTTPRouteTimeouts` of internal/dag/gatewayapi_processor.go.
use contour.Prelude.{
  ◌≡◌, ◌∙◌, ap, ◌↔◌, ◌⊎◌, inl, inr, Bool, true, false, ◌&&◌, Option, none, some, arith, Text,
  Option-cases, Bool-cases, ltb, if◌then◌else◌,
}
use contour.Timeout.{
  Duration, pos, negsuc, is_zero, Setting, is_disabled, duration, default_setting, disabled_setting,
  parse,
}

-- `HTTPRouteTimeouts`.
pub record RouteTimeouts : Type 0 where
  pub request : Option Text
  pub backend_request : Option Text

pub data TimeoutsError : Type 0 where
  invalid_request invalid_backend_request backend_too_long : TimeoutsError

-- `a > b` on int64.
abbrev pub longer : Duration → Duration → Bool
longer (pos a) (pos b) = ltb b a
longer (pos a) (negsuc b) = true
longer (negsuc a) (pos b) = false
longer (negsuc a) (negsuc b) = ltb a b

-- A timeout of zero disables it.
abbrev pub disable_zero : Setting → Setting
disable_zero s = if is_zero (duration s) then disabled_setting else s

-- The timeouts of a backend that stand behind a timeout of the request.
abbrev pub IsAdmitted : Setting → Setting → Type 0
IsAdmitted request backend =
    (longer (duration request) (pos 0) ≡ false)
    ⊎ (is_disabled backend ≡ true)
    ⊎ ((is_disabled backend ≡ false) × (longer (duration backend) (duration request) ≡ false))

not_longer_zero : (d : Duration) → longer d (pos 0) ≡ true → longer (pos 0) d ≡ false
not_longer_zero d h = ground arith

IsAdmitted-iff :
    (request backend : Setting)
    → (is_disabled backend ≡ true → duration backend ≡ pos 0)
    → ((longer (duration request) (pos 0) && longer (duration backend) (duration request)) ≡ false)
      ↔ IsAdmitted request backend
IsAdmitted-iff request backend zero = (
  λ h. elim (Bool-cases (longer (duration request) (pos 0))) [
    | inl positive ↦ elim (Bool-cases (is_disabled backend)) [
      | inl off ↦ inr (inl off)
      | inr on ↦ inr (inr (on, ground (arith, positive, h)))
    ]
    | inr less ↦ inl less
  ],
  elim [
    | inl less ↦ rw less
    | inr (inl off) ↦ elim (Bool-cases (longer (duration request) (pos 0))) [
      | inl positive ↦ rw (zero off, positive) (not_longer_zero (duration request) positive)
      | inr less ↦ rw less
    ]
    | inr (inr (on, short)) ↦ ground (arith, short)
  ],
)

module _ (parse_duration : Text → Option Duration) where
  abbrev pub parse_timeout : Text → Option Setting
  parse_timeout t = elim (parse parse_duration t) [ none ↦ none | some s ↦ some (disable_zero s) ]

  -- The part on `BackendRequest`, by `responseTimeout`.
  unfoldable pub backend_timeout : Setting → Option Text → TimeoutsError ⊎ Setting
  unfolding duration
  backend_timeout response none = inr response
  backend_timeout response (some t) = elim (parse_timeout t) [
    | none ↦ inl invalid_backend_request
    | some backend ↦
        if longer (duration response) (pos 0) && longer (duration backend) (duration response)
        then inl backend_too_long
        else inr backend
  ]

  -- The response timeout of the policy; the inner `none` is a nil policy.
  unfoldable pub parse_http_route_timeouts : Option RouteTimeouts → TimeoutsError ⊎ Option Setting
  unfolding backend_timeout default_setting
  parse_http_route_timeouts none = inr none
  parse_http_route_timeouts (some timeouts) = elim timeouts.request [
    | none ↦ elim timeouts.backend_request [
      | none ↦ inr none
      | some t ↦ elim (backend_timeout default_setting (some t)) [
        | inl err ↦ inl err
        | inr s ↦ inr (some s)
      ]
    ]
    | some r ↦ elim (parse_timeout r) [
      | none ↦ inl invalid_request
      | some response ↦ elim (backend_timeout response timeouts.backend_request) [
        | inl err ↦ inl err
        | inr s ↦ inr (some s)
      ]
    ]
  ]

  -- The disabled timeout is held as zero.
  parse_timeout-duration :
      (t : Text) (s : Setting)
      → parse_timeout t ≡ some s
      → is_disabled s ≡ true
      → duration s ≡ pos 0
  unfolding parse disabled_setting default_setting duration is_disabled
  parse_timeout-duration t s e d = ground arith

  backend_timeout_iff :
      (b : Text) (request result : Setting)
      → (backend_timeout request (some b) ≡ inr result)
        ↔ ((parse_timeout b ≡ some result) × IsAdmitted request result)
  unfolding backend_timeout
  backend_timeout_iff b request result = elim (Option-cases (parse_timeout b)) [
    | inl failed ↦ (λ h. ground (arith, failed, h), λ h. ground (arith, failed, h))
    | inr (s, parsed) ↦
        let settled = IsAdmitted-iff request s (parse_timeout-duration b s parsed) in
        (
          λ h.
              let same : s ≡ result = ground (arith, parsed, h) in
              (parsed ∙ ap (λ x. some x) same, rw same at (settled.0 (ground (arith, parsed, h)))),
          λ (is_result, admitted).
              let same : s ≡ result = ground (arith, parsed, is_result) in
              let short = settled.1 (rw same admitted) in ground (arith, parsed, is_result, short),
        )
  ]

  -- Where both timeouts are given and that of the request is well formed, the timeout of the route is
  -- the backend's, and it is returned exactly when its text is well formed and one of three holds: the
  -- timeout of the request is not positive (it is disabled or negative), the backend's is disabled, so
  -- that the route waits without bound whatever the timeout of the request, or the backend's is not
  -- disabled and not longer than that of the request.
  pub parse_http_route_timeouts_iff :
      (r b : Text) (request result : Setting)
      → parse_timeout r ≡ some request
      → (parse_http_route_timeouts (some (record { request = some r; backend_request = some b }))
          ≡ inr (some result))
        ↔ ((parse_timeout b ≡ some result) × IsAdmitted request result)
  unfolding parse_http_route_timeouts backend_timeout
  parse_http_route_timeouts_iff r b request result parsed =
      let (to, back) = backend_timeout_iff b request result in
      (λ h. to (ground (arith, parsed, h)), λ h. rw (parsed, back h, parse_http_route_timeouts))
