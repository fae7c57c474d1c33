-- ===== src/Session/Record.antt =====
-- The data members of include/llfix/fix_session.h. Times are `uint64_t` nanoseconds. The dictionary
-- validator, which is compiled in only on demand, is left out.
use llfix.Session.Settings.{FixSessionSettings}
use llfix.Outgoing.{OutgoingFixMessage}
use llfix.Common.{ℕ, Bool, true, false, List, ltb, ◌+◌, ◌-◌, ◌%◌, ◌^◌}
use llfix.Session.State.{SessionState}
use llfix.Session.SequenceStore.{SequenceStore, set_incoming_seq_no}
use llfix.Session.Schedule.{SessionScheduleValidator}

pub record FixSession : Type 0 where
  pub state : SessionState
  pub sequence_store : SequenceStore
  pub settings : FixSessionSettings
  pub schedule_validator : SessionScheduleValidator
  pub last_sent_message_timestamp_nanoseconds : ℕ
  pub last_received_message_timestamp_nanoseconds : ℕ
  pub incoming_throttler_exceed_count : ℕ
  pub incoming_test_request_id : List ℕ
  pub needs_responding_to_incoming_test_request : Bool
  pub outgoing_test_request_id : ℕ
  pub outgoing_test_request_timestamp_nanoseconds : ℕ
  pub expecting_response_for_outgoing_test_request : Bool
  pub needs_responding_to_incoming_resend_request : Bool
  pub incoming_resend_request_begin_no : ℕ
  pub incoming_resend_request_end_no : ℕ
  pub needs_to_send_resend_request : Bool
  pub outgoing_resend_request_begin_no : ℕ
  pub outgoing_resend_request_end_no : ℕ
  pub outgoing_resend_request_timestamp_nanoseconds : ℕ
  pub received_logout_response : Bool
  pub outgoing_fix_message : OutgoingFixMessage
  pub last_error_tag : ℕ

abbrev pub set_state : FixSession → SessionState → FixSession
set_state s state = record s { state = state }

abbrev pub outgoing_seq_no : FixSession → ℕ
outgoing_seq_no s = s.sequence_store.outgoing_seq_no

abbrev pub incoming_seq_no : FixSession → ℕ
incoming_seq_no s = s.sequence_store.incoming_seq_no

abbrev pub serialisation_enabled : FixSession → Bool
serialisation_enabled s = ltb 0 s.settings.max_serialised_file_size

unfoldable pub queue_outgoing_resend_request : FixSession → ℕ → ℕ → FixSession
queue_outgoing_resend_request s sequence_store_incoming_seq_no live_incoming_seq_no = record s {
  needs_to_send_resend_request = true;
  sequence_store =
      set_incoming_seq_no s.sequence_store ((sequence_store_incoming_seq_no + 2 ^ 32 - 1) % 2 ^ 32);
  outgoing_resend_request_begin_no = sequence_store_incoming_seq_no;
  outgoing_resend_request_end_no = live_incoming_seq_no;
}

unfoldable pub reset_flags : FixSession → FixSession
reset_flags s = record s {
  needs_responding_to_incoming_test_request = false;
  expecting_response_for_outgoing_test_request = false;
  needs_responding_to_incoming_resend_request = false;
  needs_to_send_resend_request = false;
  received_logout_response = false;
  incoming_throttler_exceed_count = 0;
}
