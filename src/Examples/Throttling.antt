-- ===== src/Examples/Throttling.antt =====
-- The throttler at concrete inputs.
use llfix.Throttler.{Throttler, update, push, get, first_message_index, calculate_index}
use llfix.Common.{[], refl, ◌∷◌, ◌≡◌}

-- At most two messages in a microsecond, after messages at 100 and 200.
abbrev two_messages : Throttler
two_messages = record {
  event_times = record { buffer = 100 ∷ 200 ∷ []; capacity = 2; index = 2 };
  limit = 2;
  window_in_nanoseconds = 1000;
  wait_time_nano_seconds = 0;
  latest_event_time_index = 1;
}

-- The third message in the microsecond has to wait until the second is one microsecond old.
third_message : (update two_messages 250).wait_time_nano_seconds ≡ 950
unfolding update push get first_message_index calculate_index
third_message = refl
