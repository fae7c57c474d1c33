-- ===== src/Examples/Sessions.antt =====
-- Schedules, sequence resets and acceptance at concrete inputs.
use llfix.Session.ThrottlerAction.{wait_action}
use llfix.Utilities.Checksum.{sum_bytes, simd_loop, add_epi16, validate_checksum_simd_avx2}
use llfix.StringView.{all_digits, is_numeric, all_digits, equals}
use llfix.Converters.{chars_to_unsigned_int, skip_plus, parse_digits, of_char, digit_of_char}
use llfix.Session.ReceiveLaws.{sequence_reset_forward}
use llfix.Session.Schedule.{initial_schedule}
use llfix.Constants.{
  no_code, tag_new_seq_no, tag_begin_string, tag_msg_seq_num, tag_sender_comp_id,
  tag_target_comp_id, tag_sending_time, tag_checksum,
}
use llfix.Session.State.{logged_on}
use llfix.Session.ValidateLaws.{IsAcceptable, validate_fix_message-accepts}
use llfix.Session.Validate.{Timegm, validate_fix_message, validate_fields, checksum_ok, accepted}
use llfix.Session.Receive.{process_incoming_sequence_reset_message}
use llfix.Message.{
  IncomingFixMessage, set_tag, get_tag_value_as_uint32, has_tag, is_tag_value_numeric,
  get_tag_value, tag_value, current, find, set_existing_item,
}
use llfix.Session.Settings.{FixSessionSettings}
use llfix.Session.Record.{FixSession, incoming_seq_no}
use llfix.Common.{ℕ, true, false, refl, some, List, [], ltb, ◌+◌, ◌*◌, ◌<◌, ◌≡◌, ◌⊎◌, ◌∷◌, none}

abbrev settings : FixSessionSettings
settings = record {
  heartbeat_interval_in_nanoseconds = 10000000000;
  outgoing_test_request_interval_in_nanoseconds = 12000000000;
  enable_simd_avx2 = true;
  begin_string = b'F' ∷ [];
  sender_comp_id = b'C' ∷ [];
  target_comp_id = b'S' ∷ [];
  include_last_processed_seqnum_in_header = false;
  default_app_ver_id = [];
  logon_username = [];
  logon_password = [];
  logon_message_new_password = [];
  logon_reset_sequence_numbers = false;
  logon_include_next_expected_seq_no = false;
  logon_timeout_seconds = 5;
  validations_enabled = true;
  max_allowed_message_age_seconds = 0;
  replay_messages_on_incoming_resend_request = true;
  max_resend_range = 100;
  include_t97_during_resends = false;
  outgoing_resend_request_expire_in_secs = 30;
  throttle_limit = 0;
  throttle_action = wait_action;
  throttler_reject_message = b'L' ∷ [];
  outgoing_test_request_interval_multiplier = 2;
  max_serialised_file_size = 4096;
}

abbrev pub session : FixSession
session = record {
  state = logged_on;
  sequence_store = record { outgoing_seq_no = 4; incoming_seq_no = 6 };
  settings = settings;
  schedule_validator = initial_schedule;
  last_sent_message_timestamp_nanoseconds = 0;
  last_received_message_timestamp_nanoseconds = 0;
  incoming_throttler_exceed_count = 0;
  incoming_test_request_id = [];
  needs_responding_to_incoming_test_request = false;
  outgoing_test_request_id = 0;
  outgoing_test_request_timestamp_nanoseconds = 0;
  expecting_response_for_outgoing_test_request = false;
  needs_responding_to_incoming_resend_request = false;
  incoming_resend_request_begin_no = 0;
  incoming_resend_request_end_no = 0;
  needs_to_send_resend_request = false;
  outgoing_resend_request_begin_no = 0;
  outgoing_resend_request_end_no = 0;
  outgoing_resend_request_timestamp_nanoseconds = 0;
  received_logout_response = false;
  outgoing_fix_message = record {
    msg_type = [];
    send_time = none;
    static_header_tags = [];
    header = [];
    body = [];
    trailer = [];
  };
  last_error_tag = 0;
}

abbrev pub empty_message : IncomingFixMessage
empty_message = record {
  generation_id = 1;
  dict = [];
  repeating_groups = record { tag_value_pairs = []; pointer = 0 };
}

abbrev reset_to_nine : IncomingFixMessage
reset_to_nine = set_tag empty_message tag_new_seq_no (b'9' ∷ [])

sequence_reset_forward_example :
    let (t, acceptable) = process_incoming_sequence_reset_message session reset_to_nine in
    ((t ≡ session)
      ⊎ ((acceptable ≡ true)
          × (incoming_seq_no t + 1 ≡ get_tag_value_as_uint32 reset_to_nine tag_new_seq_no)
          × (incoming_seq_no session < incoming_seq_no t + 1)
          × (t.state ≡ logged_on)))
    × (has_tag reset_to_nine tag_new_seq_no ≡ true
        → is_tag_value_numeric reset_to_nine tag_new_seq_no ≡ true
        → acceptable
          ≡ ltb (incoming_seq_no session) (get_tag_value_as_uint32 reset_to_nine tag_new_seq_no))
sequence_reset_forward_example = sequence_reset_forward session reset_to_nine

-- The fields that the checks read; eight bytes, of which the first is summed.
abbrev order_fields : IncomingFixMessage
order_fields =
    set_tag
      (set_tag
        (set_tag
          (set_tag
            (set_tag (set_tag empty_message tag_begin_string (b'F' ∷ [])) tag_msg_seq_num
              (b'7' ∷ []))
            tag_sender_comp_id (b'S' ∷ []))
          tag_target_comp_id (b'C' ∷ []))
        tag_sending_time (b'?' ∷ []))
      tag_checksum (b'0' ∷ b'0' ∷ b'5' ∷ [])

abbrev order_bytes : List ℕ
order_bytes = 5 ∷ b'1' ∷ b'0' ∷ b'=' ∷ b'0' ∷ b'0' ∷ b'5' ∷ 1 ∷ []

-- The C library's conversion is not reached, since no maximum age is set.
abbrev pub timegm : Timegm
timegm y mo d h mi s = some (s + 60 * (mi + 60 * (h + 24 * d)))

order_accepted : validate_fix_message timegm 0 session order_fields order_bytes no_code ≡ accepted
unfolding validate_fix_message validate_fields checksum_ok has_tag get_tag_value tag_value current
    find set_tag set_existing_item get_tag_value_as_uint32 chars_to_unsigned_int
    is_tag_value_numeric is_numeric all_digits equals validate_checksum_simd_avx2 skip_plus
    parse_digits of_char digit_of_char sum_bytes simd_loop add_epi16
order_accepted = refl

validate_fix_message-accepts_example :
    IsAcceptable timegm 0 session order_fields order_bytes no_code
validate_fix_message-accepts_example =
    (validate_fix_message-accepts timegm 0 session order_fields order_bytes no_code).0
      order_accepted
