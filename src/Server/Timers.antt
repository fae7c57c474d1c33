-- ===== src/Server/Timers.antt =====
-- The timers and the responses that are due, of include/llfix/fix_server.h. The difference of two
-- `uint64_t` times wraps around.
use llfix.Session.Record.{outgoing_seq_no}
use llfix.Server.Send.{
  send_heartbeat, send_test_request, resend_messages_to_client, process_connection_closure,
  send_gap_fill_message, send_resend_request,
}
use llfix.Client.Timers.{delta, will_replay, second}
use llfix.Session.State.{◌=state◌, in_retransmission_initiated_by_self, logged_on}
use llfix.Server.{FixServer, ServerEnvironment, with_session, peer_of}
use llfix.Common.{
  ℕ, true, false, not, none, some, [], ltb, leb, if◌then◌else◌, length, ◌*◌, ◌/◌, ◌%◌, ◌^◌,
}

unfoldable pub start_retransmission : FixServer → ℕ → FixServer
start_retransmission sv now = with_session sv (record sv.session {
  outgoing_resend_request_timestamp_nanoseconds = now;
  state = in_retransmission_initiated_by_self;
  needs_to_send_resend_request = false;
})

unfoldable pub process_outgoing_resend_request_if_necessary :
    ServerEnvironment → FixServer → ℕ → FixServer
process_outgoing_resend_request_if_necessary env sv now =
    if sv.session.state =state in_retransmission_initiated_by_self
    then (if leb (sv.session.settings.outgoing_resend_request_expire_in_secs * second % 2 ^ 64)
          (delta now sv.session.outgoing_resend_request_timestamp_nanoseconds)
        then process_connection_closure env sv (peer_of sv) false []
        else sv)
    else if sv.session.needs_to_send_resend_request
    then start_retransmission ((send_resend_request env sv).0) now
    else sv

unfoldable pub expect_response : FixServer → ℕ → FixServer
expect_response sv now = with_session sv (record sv.session {
  outgoing_test_request_timestamp_nanoseconds = now;
  expecting_response_for_outgoing_test_request = true;
})

unfoldable pub process_outgoing_test_request_if_necessary :
    ServerEnvironment → FixServer → ℕ → FixServer
process_outgoing_test_request_if_necessary env sv now =
    if not sv.session.expecting_response_for_outgoing_test_request
    then (if leb sv.session.settings.outgoing_test_request_interval_in_nanoseconds
          (delta now sv.session.last_received_message_timestamp_nanoseconds)
        then expect_response ((send_test_request env sv).0) now
        else sv)
    else if leb (sv.session.settings.heartbeat_interval_in_nanoseconds * 2 % 2 ^ 64)
        (delta now sv.session.outgoing_test_request_timestamp_nanoseconds)
    then (let t =
          with_session sv
            (record sv.session { expecting_response_for_outgoing_test_request = false }) in
        process_connection_closure env t (peer_of t) false [])
    else sv

-- Sending leaves the identifier alone, which is emptied afterwards.
unfoldable pub respond_to_test_request_if_necessary : ServerEnvironment → FixServer → FixServer
respond_to_test_request_if_necessary env sv =
    if sv.session.needs_responding_to_incoming_test_request
    then (let id = sv.session.incoming_test_request_id in
        let t = (send_heartbeat env sv (if ltb 0 (length id) then some id else none)).0 in
        with_session t (record t.session {
          incoming_test_request_id = [];
          needs_responding_to_incoming_test_request = false;
        }))
    else sv

-- The decision whether to replay is the client's, word for word.
unfoldable pub respond_to_resend_request_if_necessary : ServerEnvironment → FixServer → FixServer
respond_to_resend_request_if_necessary env sv =
    if sv.session.needs_responding_to_incoming_resend_request
    then (let t =
          if will_replay sv.session sv.outgoing_messages_serialiser
          then resend_messages_to_client env sv sv.session.incoming_resend_request_begin_no
              (outgoing_seq_no sv.session)
          else (send_gap_fill_message env sv).0 in
        with_session t (record t.session {
          needs_responding_to_incoming_resend_request = false;
          state = logged_on;
        }))
    else sv

unfoldable pub send_heartbeat_if_necessary : ServerEnvironment → FixServer → ℕ → FixServer
send_heartbeat_if_necessary env sv now =
    if leb (sv.session.settings.heartbeat_interval_in_nanoseconds * 9 % 2 ^ 64 / 10)
      (delta now sv.session.last_sent_message_timestamp_nanoseconds)
    then (send_heartbeat env sv none).0
    else sv
