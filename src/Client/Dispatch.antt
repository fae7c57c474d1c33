-- ===== src/Client/Dispatch.antt =====
-- What include/llfix/fix_client.h does with a parsed message.
use llfix.Utilities.MessageType.{
  msg_type_execution_report, msg_type_heartbeat, msg_type_test_request, msg_type_resend_request,
  msg_type_order_cancel_reject, msg_type_reject, msg_type_business_reject, msg_type_logon,
  msg_type_logout, msg_type_sequence_reset,
}
use llfix.Constants.{
  fix_error_code_value_incorrect_for_tag, tag_msg_type, tag_msg_seq_num, tag_new_seq_no,
}
use llfix.Common.{
  ℕ, true, false, not, none, some, List, [], ltb, if◌then◌else◌, ◌+◌, ◌-◌, ◌%◌, ◌^◌, ◌∷◌, ◌==◌,
  ◌&&◌,
}
use llfix.Client.{
  FixClient, Environment, notify, set_client_state, do_shutdown_abruptly, now, on_logon_reject,
  on_session_level_reject, on_application_level_reject, on_logon_response, on_execution_report,
  on_logout_response, on_server_heartbeat, on_server_test_request, on_server_resend_request,
  on_order_cancel_replace_reject, on_custom_message_type,
}
use llfix.Client.Send.{send_reject_message}
use llfix.Message.{IncomingFixMessage, get_tag_value, get_tag_value_as_uint32}
use llfix.Session.Record.{queue_outgoing_resend_request}
use llfix.Session.SequenceStore.{increment_incoming_seq_no, set_incoming_seq_no}
use llfix.Session.Validate.{Verdict, accepted, refused, validate_fix_message}
use llfix.Session.Receive.{
  is_a_hard_sequence_reset_message, process_incoming_sequence_reset_message, process_resend_request,
  process_test_request_message,
}
use llfix.Session.State.{
  ◌=state◌, logon_rejected, pending_logon, logged_on, in_retransmission_initiated_by_self,
  logged_out,
}

unfoldable pub process_logon_reject : FixClient → FixClient
process_logon_reject c = notify (set_client_state c logon_rejected) on_logon_reject

unfoldable pub process_session_level_reject : FixClient → FixClient
process_session_level_reject c =
    if c.session.state =state pending_logon
    then process_logon_reject c
    else notify c on_session_level_reject

unfoldable pub process_application_level_reject : FixClient → FixClient
process_application_level_reject c =
    if c.session.state =state pending_logon
    then process_logon_reject c
    else notify c on_application_level_reject

unfoldable pub process_logon_response : FixClient → FixClient
process_logon_response c = notify (set_client_state c logged_on) on_logon_response

unfoldable pub process_logout_response : FixClient → FixClient
process_logout_response c =
    if c.session.state =state pending_logon
    then process_logon_reject c
    else notify
        (record c {
          session = record c.session { received_logout_response = true; state = logged_out };
        })
        on_logout_response

-- The branch of the switch for sequence resets.
unfoldable pub process_sequence_reset : Environment → FixClient → IncomingFixMessage → FixClient
process_sequence_reset env c m =
    let (s, acceptable) = process_incoming_sequence_reset_message c.session m in
    if acceptable
    then record c { session = s }
    else (send_reject_message env (record c { session = s }) m
        fix_error_code_value_incorrect_for_tag tag_new_seq_no).0

-- The switch on a type of one character; any other type is the user's.
unfoldable pub dispatch : Environment → FixClient → IncomingFixMessage → List ℕ → FixClient
dispatch env c m (t ∷ []) =
    if t == msg_type_execution_report
    then notify c on_execution_report
    else if t == msg_type_heartbeat
    then notify c on_server_heartbeat
    else if t == msg_type_test_request
    then notify (record c { session = process_test_request_message c.session m })
        on_server_test_request
    else if t == msg_type_resend_request
    then notify (record c { session = process_resend_request c.session m }) on_server_resend_request
    else if t == msg_type_order_cancel_reject
    then notify c on_order_cancel_replace_reject
    else if t == msg_type_reject
    then process_session_level_reject c
    else if t == msg_type_business_reject
    then process_application_level_reject c
    else if t == msg_type_logon
    then process_logon_response c
    else if t == msg_type_logout
    then process_logout_response c
    else if t == msg_type_sequence_reset
    then process_sequence_reset env c m
    else notify c on_custom_message_type
dispatch env c m _ = notify c on_custom_message_type

-- A resend request of the client is satisfied by the message that has its end number.
unfoldable pub finish_resend : FixClient → ℕ → FixClient
finish_resend c seq_no =
    if c.session.state =state in_retransmission_initiated_by_self
      && seq_no == c.session.outgoing_resend_request_end_no
    then set_client_state c logged_on
    else c

-- From the sequence number checks on; `expected` is the number that was just counted.
unfoldable pub process_numbered : Environment → FixClient → IncomingFixMessage → ℕ → ℕ → FixClient
process_numbered env c m expected seq_no =
    if ltb expected seq_no && not (is_a_hard_sequence_reset_message m)
    then record c { session = queue_outgoing_resend_request c.session expected seq_no }
    else if ltb seq_no expected && not (is_a_hard_sequence_reset_message m)
    then do_shutdown_abruptly (record c {
      session = record c.session {
        sequence_store =
            set_incoming_seq_no c.session.sequence_store ((expected + 2 ^ 32 - 1) % 2 ^ 32);
      };
    })
    else dispatch env (finish_resend c seq_no) m (get_tag_value m tag_msg_type)

unfoldable pub process_accepted : Environment → FixClient → IncomingFixMessage → FixClient
process_accepted env c m =
    let store = increment_incoming_seq_no c.session.sequence_store in
    process_numbered env (record c { session = record c.session { sequence_store = store } }) m
      store.incoming_seq_no (get_tag_value_as_uint32 m tag_msg_seq_num)

-- The member that remembers the tag of the last error keeps it until the next refusal.
unfoldable pub process_verdict : Environment → FixClient → IncomingFixMessage → Verdict → FixClient
process_verdict env c m accepted = process_accepted env c m
process_verdict env c m (refused error_tag none) = record c {
  session = record c.session { last_error_tag = error_tag };
}
process_verdict env c m (refused error_tag (some code)) =
    (send_reject_message env
      (record c { session = record c.session { last_error_tag = error_tag } }) m code error_tag).0

-- Any message satisfies a test request that is outstanding.
unfoldable pub note_received : Environment → FixClient → FixClient
note_received env c = record c {
  session = record c.session {
    last_received_message_timestamp_nanoseconds = now env c;
    expecting_response_for_outgoing_test_request = false;
  };
  tick = c.tick + 1;
}

unfoldable pub process_incoming_fix_message :
    Environment → FixClient → IncomingFixMessage → List ℕ → ℕ → FixClient
process_incoming_fix_message env c m buffer_message parser_reject_code =
    let t = note_received env c in
    process_verdict env t m (
      if c.session.settings.validations_enabled
      then validate_fix_message env.timegm (env.seconds c.tick) t.session m buffer_message
          parser_reject_code
      else accepted)
