-- ===== src/Server/Dispatch.antt =====
-- What include/llfix/fix_server.h does with a parsed message of a session.
use llfix.Server.Logon.{process_logon_request, process_logout_request}
use llfix.Utilities.MessageType.{
  msg_type_heartbeat, msg_type_test_request, msg_type_resend_request, msg_type_reject,
  msg_type_business_reject, msg_type_logon, msg_type_logout, msg_type_sequence_reset,
}
use llfix.Session.Record.{queue_outgoing_resend_request}
use llfix.Server.Send.{
  process_connection_closure, send_reject_message, send_throttle_reject_message,
}
use llfix.Constants.{
  tag_msg_type, fix_error_code_value_incorrect_for_tag, tag_msg_seq_num, tag_new_seq_no,
}
use llfix.Session.Validate.{Verdict, validate_fix_message, refused, accepted}
use llfix.Session.SequenceStore.{increment_incoming_seq_no, set_incoming_seq_no}
use llfix.Outgoing.{unsigned_text}
use llfix.Message.{get_tag_value, get_tag_value_as_uint32}
use llfix.Session.State.{◌=state◌, in_retransmission_initiated_by_self, pending_logon, logged_on}
use llfix.Session.Receive.{
  process_incoming_sequence_reset_message, is_a_hard_sequence_reset_message,
  process_test_request_message, process_resend_request,
}
use llfix.Throttler.{update, wait, reached_limit}
use llfix.Session.ThrottlerAction.{
  IncomingThrottlerAction, no_action, wait_action, disconnect_action, reject_action,
}
use llfix.Utilities.RejectText.{codes}
use llfix.Server.{
  ServerEnvironment, FixServer, raise, with_session, on_new_order, on_cancel_order,
  set_server_state, peer_of, on_replace_order, on_client_heartbeat, on_client_test_request,
  on_client_resend_request, on_session_level_reject, on_application_level_reject, on_custom_message,
}
use llfix.Common.{
  ℕ, Bool, true, false, not, none, some, List, [], ltb, if◌then◌else◌, ◌+◌, ◌-◌, ◌%◌, ◌^◌, ◌++◌,
  ◌∷◌, ◌==◌, ◌&&◌,
}

abbrev pub msg_type_new_order : ℕ
msg_type_new_order = b'D'

abbrev pub msg_type_order_cancel : ℕ
msg_type_order_cancel = b'F'

abbrev pub msg_type_order_cancel_replace : ℕ
msg_type_order_cancel_replace = b'G'

unfoldable pub throttle_action :
    ServerEnvironment → FixServer → IncomingThrottlerAction → FixServer × Bool
throttle_action env sv no_action = (sv, true)
throttle_action env sv wait_action = (
  record sv {
    throttler = wait sv.throttler (env.nanoseconds_monotonic sv.tick);
    tick = sv.tick + 1;
  },
  true,
)
throttle_action env sv disconnect_action =
    (process_connection_closure env sv (peer_of sv) false [], false)
throttle_action env sv reject_action = ((send_throttle_reject_message env sv).0, false)

-- The flag says whether the message is processed on.
unfoldable pub process_incoming_throttling : ServerEnvironment → FixServer → FixServer × Bool
process_incoming_throttling env sv =
    if sv.session.settings.throttle_limit == 0
    then (sv, true)
    else (let t = record sv {
      throttler = update sv.throttler (env.nanoseconds_monotonic sv.tick);
      tick = sv.tick + 1;
    } in
        if reached_limit t.throttler
        then throttle_action env
            (with_session t (record t.session {
              incoming_throttler_exceed_count =
                  (t.session.incoming_throttler_exceed_count + 1) % 2 ^ 32;
            }))
            t.session.settings.throttle_action
        else (t, true))

unfoldable pub process_sequence_reset : ServerEnvironment → FixServer → FixServer
process_sequence_reset env sv =
    let (s, acceptable) =
      process_incoming_sequence_reset_message sv.session sv.incoming_fix_message in
    if acceptable
    then with_session sv s
    else (send_reject_message env (with_session sv s) fix_error_code_value_incorrect_for_tag
        tag_new_seq_no).0

-- The switch on a type of one character; any other type is the user's.
unfoldable pub dispatch : ServerEnvironment → FixServer → ℕ → List ℕ → FixServer
dispatch env sv peer_index (t ∷ []) =
    if t == msg_type_new_order
    then raise sv on_new_order
    else if t == msg_type_order_cancel
    then raise sv on_cancel_order
    else if t == msg_type_order_cancel_replace
    then raise sv on_replace_order
    else if t == msg_type_heartbeat
    then raise sv on_client_heartbeat
    else if t == msg_type_test_request
    then raise (with_session sv (process_test_request_message sv.session sv.incoming_fix_message))
        on_client_test_request
    else if t == msg_type_resend_request
    then raise (with_session sv (process_resend_request sv.session sv.incoming_fix_message))
        on_client_resend_request
    else if t == msg_type_reject
    then raise sv on_session_level_reject
    else if t == msg_type_business_reject
    then raise sv on_application_level_reject
    else if t == msg_type_logon
    then process_logon_request env sv peer_index
    else if t == msg_type_logout
    then process_logout_request env sv
    else if t == msg_type_sequence_reset
    then process_sequence_reset env sv
    else raise sv on_custom_message
dispatch env sv peer_index _ = raise sv on_custom_message

-- A resend request of the server is satisfied by the message that has its end number.
unfoldable pub finish_resend : FixServer → ℕ → FixServer
finish_resend sv seq_no =
    if sv.session.state =state in_retransmission_initiated_by_self
      && seq_no == sv.session.outgoing_resend_request_end_no
    then set_server_state sv logged_on
    else sv

unfoldable pub process_in_sequence : ServerEnvironment → FixServer → ℕ → ℕ → FixServer
process_in_sequence env sv peer_index seq_no =
    let (t, go_on) = process_incoming_throttling env (finish_resend sv seq_no) in
    if go_on
    then dispatch env t peer_index (get_tag_value t.incoming_fix_message tag_msg_type)
    else t

abbrev pub too_low_text : ℕ → ℕ → List ℕ
too_low_text expected seq_no =
    codes "MsgSeqNum too low, expecting "
    ++ (unsigned_text expected ++ (codes " but received " ++ unsigned_text seq_no))

-- From the sequence number checks on; `expected` is the number that was just counted. A logon with a
-- number that is too high goes on, and one with a number that is too low is answered with a logout.
unfoldable pub process_numbered : ServerEnvironment → FixServer → ℕ → ℕ → ℕ → FixServer
process_numbered env sv peer_index expected seq_no =
    let hard = is_a_hard_sequence_reset_message sv.incoming_fix_message in
    let logging_on = sv.session.state =state pending_logon in
    if ltb expected seq_no && (not hard && not logging_on)
    then with_session sv (queue_outgoing_resend_request sv.session expected seq_no)
    else if ltb seq_no expected && not hard
    then process_connection_closure env
        (with_session sv (record sv.session {
          sequence_store =
              set_incoming_seq_no sv.session.sequence_store ((expected + 2 ^ 32 - 1) % 2 ^ 32);
        }))
        (some peer_index) logging_on (if logging_on then too_low_text expected seq_no else [])
    else process_in_sequence env sv peer_index seq_no

unfoldable pub process_accepted : ServerEnvironment → FixServer → ℕ → FixServer
process_accepted env sv peer_index =
    let store = increment_incoming_seq_no sv.session.sequence_store in
    process_numbered env (with_session sv (record sv.session { sequence_store = store })) peer_index
      store.incoming_seq_no (get_tag_value_as_uint32 sv.incoming_fix_message tag_msg_seq_num)

unfoldable pub process_verdict : ServerEnvironment → FixServer → ℕ → Verdict → FixServer
process_verdict env sv peer_index accepted = process_accepted env sv peer_index
process_verdict env sv peer_index (refused error_tag none) =
    with_session sv (record sv.session { last_error_tag = error_tag })
process_verdict env sv peer_index (refused error_tag (some code)) =
    (send_reject_message env (with_session sv (record sv.session { last_error_tag = error_tag }))
      code error_tag).0

-- Any message satisfies a test request that is outstanding.
unfoldable pub note_received : ServerEnvironment → FixServer → FixServer
note_received env sv = record sv {
  session = record sv.session {
    last_received_message_timestamp_nanoseconds = env.nanoseconds_monotonic sv.tick;
    expecting_response_for_outgoing_test_request = false;
  };
  tick = sv.tick + 1;
}

unfoldable pub process_incoming_fix_message :
    ServerEnvironment → FixServer → ℕ → List ℕ → ℕ → FixServer
process_incoming_fix_message env sv peer_index buffer_message parser_reject_code =
    let t = note_received env sv in
    process_verdict env t peer_index (
      if sv.session.settings.validations_enabled
      then validate_fix_message env.timegm (env.seconds sv.tick) t.session sv.incoming_fix_message
          buffer_message parser_reject_code
      else accepted)
