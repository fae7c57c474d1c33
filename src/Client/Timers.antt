-- ===== src/Client/Timers.antt =====
-- The timers and the responses that are due, of include/llfix/fix_client.h. The difference of two
-- `uint64_t` times wraps around.
use llfix.Common.{
  ℕ, zero, suc, Bool, true, false, not, none, some, [], ltb, leb, if◌then◌else◌, length, ◌+◌, ◌-◌,
  ◌*◌, ◌/◌, ◌%◌, ◌^◌, ◌==◌, ◌&&◌, ◌||◌,
}
use llfix.Client.{FixClient, Environment, set_client_state, do_shutdown_abruptly, disconnected}
use llfix.Client.Send.{
  send_client_heartbeat, send_test_request, send_resend_request, send_gap_fill_message,
  resend_messages_to_server,
}
use llfix.Session.Record.{FixSession, outgoing_seq_no, serialisation_enabled}
use llfix.Session.State.{◌=state◌, in_retransmission_initiated_by_self, logged_on}
use llfix.Serialiser.{MessageSerialiser, has_message_in_memory}

abbrev pub delta : ℕ → ℕ → ℕ
delta later earlier = (later + 2 ^ 64 - earlier) % 2 ^ 64

abbrev pub second : ℕ
second = 1000000000

unfoldable pub process_outgoing_logon_request : FixClient → ℕ → FixClient
process_outgoing_logon_request c current =
    if leb (c.session.settings.logon_timeout_seconds * second % 2 ^ 64)
      (delta current c.last_logon_attempt_timestamp)
    then set_client_state c disconnected
    else c

unfoldable pub send_client_heartbeat_if_necessary : Environment → FixClient → ℕ → FixClient
send_client_heartbeat_if_necessary env c current =
    if leb (c.session.settings.heartbeat_interval_in_nanoseconds * 9 % 2 ^ 64 / 10)
      (delta current c.session.last_sent_message_timestamp_nanoseconds)
    then (send_client_heartbeat env c none).0
    else c

unfoldable pub expect_response : FixClient → ℕ → FixClient
expect_response c current = record c {
  session = record c.session {
    outgoing_test_request_timestamp_nanoseconds = current;
    expecting_response_for_outgoing_test_request = true;
  };
}

unfoldable pub process_outgoing_test_request_if_necessary : Environment → FixClient → ℕ → FixClient
process_outgoing_test_request_if_necessary env c current =
    if not c.session.expecting_response_for_outgoing_test_request
    then (if leb c.session.settings.outgoing_test_request_interval_in_nanoseconds
          (delta current c.session.last_received_message_timestamp_nanoseconds)
        then expect_response ((send_test_request env c).0) current
        else c)
    else if leb (c.session.settings.heartbeat_interval_in_nanoseconds * 2 % 2 ^ 64)
        (delta current c.session.outgoing_test_request_timestamp_nanoseconds)
    then do_shutdown_abruptly (record c {
      session = record c.session { expecting_response_for_outgoing_test_request = false };
    })
    else c

unfoldable pub start_retransmission : FixClient → ℕ → FixClient
start_retransmission c current = record c {
  session = record c.session {
    outgoing_resend_request_timestamp_nanoseconds = current;
    state = in_retransmission_initiated_by_self;
    needs_to_send_resend_request = false;
  };
}

unfoldable pub process_outgoing_resend_request_if_necessary :
    Environment → FixClient → ℕ → FixClient
process_outgoing_resend_request_if_necessary env c current =
    if c.session.state =state in_retransmission_initiated_by_self
    then (if leb (c.session.settings.outgoing_resend_request_expire_in_secs * second % 2 ^ 64)
          (delta current c.session.outgoing_resend_request_timestamp_nanoseconds)
        then do_shutdown_abruptly c
        else c)
    else if c.session.needs_to_send_resend_request
    then start_retransmission ((send_resend_request env c).0) current
    else c

-- Sending leaves the identifier alone, which is emptied afterwards.
unfoldable pub respond_to_test_request_if_necessary : Environment → FixClient → FixClient
respond_to_test_request_if_necessary env c =
    if c.session.needs_responding_to_incoming_test_request
    then (let id = c.session.incoming_test_request_id in
        let t = (send_client_heartbeat env c (if ltb 0 (length id) then some id else none)).0 in
        record t {
          session = record t.session {
            incoming_test_request_id = [];
            needs_responding_to_incoming_test_request = false;
          };
        })
    else c

-- Whether each of the numbers from `i` on has a record.
unfoldable pub has_messages : MessageSerialiser → ℕ → ℕ → Bool
has_messages s zero i = true
has_messages s (suc rounds) i = has_message_in_memory s i && has_messages s rounds (i + 1)

-- The range test is the source's 32-bit sum; both ends are 32-bit numbers.
unfoldable pub will_replay : FixSession → MessageSerialiser → Bool
unfolding has_messages
will_replay s serialiser =
    let last = outgoing_seq_no s in
    let begin_no = s.incoming_resend_request_begin_no in
    let end_no = s.incoming_resend_request_end_no in
    serialisation_enabled s
    && (s.settings.replay_messages_on_incoming_resend_request
        && ((end_no == 0 || end_no == last)
            && (leb begin_no last
                && (not (
                      ltb begin_no last
                      && ltb s.settings.max_resend_range ((last - begin_no + 1) % 2 ^ 32))
                    && has_messages serialiser (last + 1 - begin_no) begin_no))))

unfoldable pub respond_to_resend_request_if_necessary : Environment → FixClient → FixClient
respond_to_resend_request_if_necessary env c =
    if c.session.needs_responding_to_incoming_resend_request
    then (let t =
          if will_replay c.session c.outgoing_messages_serialiser
          then resend_messages_to_server env c c.session.incoming_resend_request_begin_no
              (outgoing_seq_no c.session)
          else (send_gap_fill_message env c).0 in
        record t {
          session = record t.session {
            needs_responding_to_incoming_resend_request = false;
            state = logged_on;
          };
        })
    else c
