-- ===== src/Session/Schedule.antt =====
-- include/llfix/electronic_trading/session/session_schedule_validator.h: the days and the time of day
-- in which a session may be up. The current weekday and time are arguments.
use llfix.Common.{
  ℕ, Bool, true, false, not, Option, some, List, [], ltb, leb, if◌then◌else◌, ◌+◌, ◌-◌, ◌*◌, ◌∷◌,
  ◌==◌, ◌&&◌, ◌||◌,
}

-- `m_allowed_weekdays` maps a day to itself: the list of its keys.
pub record SessionScheduleValidator : Type 0 where
  pub start_time_in_minutes_utc : ℕ
  pub end_time_in_minutes_utc : ℕ
  pub session_start_end_times_specified : Bool
  pub allowed_weekdays : List ℕ

unfoldable pub initial_schedule : SessionScheduleValidator
initial_schedule = record {
  start_time_in_minutes_utc = 0;
  end_time_in_minutes_utc = 0;
  session_start_end_times_specified = false;
  allowed_weekdays = [];
}

unfoldable pub has_day : List ℕ → ℕ → Bool
has_day [] day = false
has_day (d ∷ ds) day = d == day || has_day ds day

-- A key that is there already is overwritten by itself.
unfoldable pub add_allowed_weekday : SessionScheduleValidator → ℕ → SessionScheduleValidator
add_allowed_weekday v day =
    if has_day v.allowed_weekdays day
    then v
    else record v { allowed_weekdays = day ∷ v.allowed_weekdays }

-- Every other character is a digit from 1 to 7, as the assertion of add_allowed_weekday asks.
unfoldable pub add_weekdays : SessionScheduleValidator → Bool → List ℕ → SessionScheduleValidator
add_weekdays v looking_for_delimiter [] = v
add_weekdays v looking_for_delimiter (ch ∷ chs) =
    add_weekdays (if looking_for_delimiter then v else add_allowed_weekday v (ch - b'0'))
      (not looking_for_delimiter) chs

unfoldable pub add_allowed_weekdays_from_dash_separated_string :
    SessionScheduleValidator → List ℕ → SessionScheduleValidator
add_allowed_weekdays_from_dash_separated_string v weekdays = add_weekdays v false weekdays

-- A setting that is not configured is -1 in the source, and none here.
unfoldable pub set_start_and_end_times :
    SessionScheduleValidator → Option ℕ → Option ℕ → Option ℕ → Option ℕ → SessionScheduleValidator
set_start_and_end_times v (some sh) (some sm) (some eh) (some em) = record v {
  session_start_end_times_specified = true;
  start_time_in_minutes_utc = sh * 60 + sm;
  end_time_in_minutes_utc = eh * 60 + em;
}
set_start_and_end_times v _ _ _ _ = record v { session_start_end_times_specified = false }

abbrev pub is_empty : List ℕ → Bool
is_empty [] = true
is_empty (d ∷ ds) = false

unfoldable pub is_now_valid_datetime : SessionScheduleValidator → ℕ → ℕ → ℕ → Bool
is_now_valid_datetime v weekday hour minute =
    let now_in_minutes_utc = hour * 60 + minute in
    if not (is_empty v.allowed_weekdays) && not (has_day v.allowed_weekdays weekday)
    then false
    else if not v.session_start_end_times_specified
    then true
    else if leb v.start_time_in_minutes_utc now_in_minutes_utc
        && ltb now_in_minutes_utc v.end_time_in_minutes_utc
    then true
    else false
