-- ===== src/Session/ScheduleLaws.antt =====
-- When the schedule of include/llfix/electronic_trading/session/session_schedule_validator.h lets a
-- session be up.
use llfix.Common.{ℕ, Option, List, [], ◌-◌, ◌∷◌}
use llfix.Session.Schedule.{
  SessionScheduleValidator, set_start_and_end_times,
  add_allowed_weekdays_from_dash_separated_string, initial_schedule,
}

-- The days at the even places of the string.
abbrev pub named_days : List ℕ → List ℕ
named_days [] = []
named_days (c ∷ []) = (c - b'0') ∷ []
named_days (c ∷ dash ∷ cs) = (c - b'0') ∷ named_days cs

-- The schedule as it is configured at start-up: days from the dash-separated string, then the times.
unfoldable pub configured :
    List ℕ → Option ℕ → Option ℕ → Option ℕ → Option ℕ → SessionScheduleValidator
configured days sh sm eh em =
    set_start_and_end_times (add_allowed_weekdays_from_dash_separated_string initial_schedule days)
      sh sm eh em
