-- ===== src/Session/Receive.antt =====
-- What include/llfix/fix_session.h does with session-level messages that arrive.
use llfix.Common.{Bool, true, false, not, leb, if◌then◌else◌, ◌+◌, ◌-◌, ◌%◌, ◌^◌, ◌==◌, ◌&&◌}
use llfix.Message.{
  IncomingFixMessage, has_tag, get_tag_value, get_tag_value_as_uint32, get_tag_value_as_char,
  is_tag_value_numeric,
}
use llfix.Session.Record.{FixSession, incoming_seq_no}
use llfix.Session.State.{logged_on, in_retransmission_initiated_by_peer}
use llfix.Session.SequenceStore.{set_incoming_seq_no}
use llfix.Utilities.MessageType.{msg_type_sequence_reset}
use llfix.StringView.{fix_boolean_true}
use llfix.Constants.{
  tag_new_seq_no, tag_begin_seq_no, tag_test_req_id, tag_msg_type, tag_end_seq_no,
  tag_gap_fill_flag,
}

-- `process_incoming_sequence_reset_message`: the session, and whether the message was acceptable.
unfoldable pub process_incoming_sequence_reset_message :
    FixSession → IncomingFixMessage → FixSession × Bool
process_incoming_sequence_reset_message s m =
    if has_tag m tag_new_seq_no
    then (if is_tag_value_numeric m tag_new_seq_no
        then (let new_incoming_seq_no = get_tag_value_as_uint32 m tag_new_seq_no in
            if new_incoming_seq_no == 0
            then (s, false)
            else if leb new_incoming_seq_no (incoming_seq_no s)
            then (s, false)
            else (
              record s {
                sequence_store =
                    set_incoming_seq_no s.sequence_store
                      ((new_incoming_seq_no + 2 ^ 32 - 1) % 2 ^ 32);
                state = logged_on;
              },
              true,
            ))
        else (s, true))
    else (s, true)

unfoldable pub process_resend_request : FixSession → IncomingFixMessage → FixSession
process_resend_request s m =
    if has_tag m tag_begin_seq_no && has_tag m tag_end_seq_no
    then (if is_tag_value_numeric m tag_begin_seq_no && is_tag_value_numeric m tag_end_seq_no
        then record s {
          state = in_retransmission_initiated_by_peer;
          incoming_resend_request_begin_no = get_tag_value_as_uint32 m tag_begin_seq_no;
          incoming_resend_request_end_no = get_tag_value_as_uint32 m tag_end_seq_no;
          needs_responding_to_incoming_resend_request = true;
        }
        else s)
    else s

unfoldable pub process_test_request_message : FixSession → IncomingFixMessage → FixSession
process_test_request_message s m =
    if not s.expecting_response_for_outgoing_test_request
    then record s {
      needs_responding_to_incoming_test_request = true;
      incoming_test_request_id =
          if has_tag m tag_test_req_id
          then get_tag_value m tag_test_req_id
          else s.incoming_test_request_id;
    }
    else s

unfoldable pub is_a_hard_sequence_reset_message : IncomingFixMessage → Bool
is_a_hard_sequence_reset_message m =
    if not (has_tag m tag_msg_type)
    then false
    else if not (get_tag_value_as_char m tag_msg_type == msg_type_sequence_reset)
    then false
    else if has_tag m tag_gap_fill_flag
    then (if get_tag_value_as_char m tag_gap_fill_flag == fix_boolean_true then false else true)
    else true
