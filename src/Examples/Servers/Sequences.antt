-- ===== src/Examples/Servers/Sequences.antt =====
-- Sequence numbers, lapses and rounds of the example server.
use llfix.Examples.Servers.{server, server_env, served, served_session, server-IsInverse}
use llfix.Server.Lapses.{order-any_state, overdue-live}
use llfix.Converters.{chars_to_unsigned_int, skip_plus, parse_digits, of_char, digit_of_char}
use llfix.Constants.{tag_msg_seq_num, tag_msg_type}
use llfix.Examples.Parsers.{specs}
use llfix.Examples.Sessions.{empty_message}
use llfix.Server.Timers.{process_outgoing_test_request_if_necessary}
use llfix.Client.Timers.{delta}
use llfix.Server.Dispatch.{process_incoming_fix_message, msg_type_new_order}
use llfix.Server.SequenceLaws.{IsGap, out_of_sequence_message}
use llfix.Session.State.{◌=state◌, disconnected, logged_on, pending_logon}
use llfix.Session.Receive.{is_a_hard_sequence_reset_message}
use llfix.Message.{
  find, get_tag_value_as_uint32, get_tag_value, set_tag, tag_value, has_tag, current,
  set_existing_item, get_tag_value_as_char,
}
use llfix.Session.Record.{incoming_seq_no}
use llfix.Server.{FixServer, set_server_state, on_new_order, with_session, peer_of}
use llfix.Server.Timers.{respond_to_resend_request_if_necessary}
use llfix.Server.Timers.{process_outgoing_test_request_if_necessary}
use llfix.Server.Receive.{process_messages}
use llfix.Server.Runs.{Run, server_messages-Run}
use llfix.Common.{ℕ, true, false, refl, none, [], arith, leb, ◌*◌, ◌%◌, ◌^◌, ◌≡◌, ◌∷◌}

abbrev receiving : ℕ → ℕ → FixServer
receiving digit ty = record server {
  incoming_fix_message =
      set_tag (set_tag empty_message tag_msg_seq_num (digit ∷ [])) tag_msg_type (ty ∷ []);
}

receiving_value :
    (get_tag_value_as_uint32 (receiving b'9' b'0').incoming_fix_message tag_msg_seq_num ≡ 9)
    × (get_tag_value_as_uint32 (receiving b'7' b'D').incoming_fix_message tag_msg_seq_num ≡ 7)
unfolding get_tag_value_as_uint32 chars_to_unsigned_int get_tag_value tag_value current find set_tag
    set_existing_item skip_plus parse_digits of_char digit_of_char
receiving_value = (refl, refl)

receiving_type :
    get_tag_value (receiving b'7' b'D').incoming_fix_message tag_msg_type ≡ msg_type_new_order ∷ []
unfolding get_tag_value tag_value current find set_tag set_existing_item
receiving_type = refl

receiving_soft : is_a_hard_sequence_reset_message (receiving b'9' b'0').incoming_fix_message ≡ false
unfolding is_a_hard_sequence_reset_message has_tag get_tag_value tag_value current find set_tag
    get_tag_value_as_char set_existing_item
receiving_soft = refl

past_logon : (logged_on =state pending_logon) ≡ false
past_logon = refl

-- Number nine arrives where seven is expected.
out_of_sequence_message_example :
    IsGap
      (receiving b'9' b'0')
      (process_incoming_fix_message server_env (receiving b'9' b'0') 7 [] 0)
      7
      (get_tag_value_as_uint32 (receiving b'9' b'0').incoming_fix_message tag_msg_seq_num)
out_of_sequence_message_example =
    (out_of_sequence_message server_env (receiving b'9' b'0') 7 [] 0 refl receiving_soft past_logon
        served (omega arith)).0
      (omega (arith, receiving_value.0))

-- An order of a session that is pending its logon.
abbrev not_logged_on : FixServer
not_logged_on = set_server_state (receiving b'7' b'D') pending_logon

order-any_state_example :
    let t = process_incoming_fix_message server_env not_logged_on 7 [] 0 in
    (t.events ≡ (on_new_order, 1) ∷ []) × (incoming_seq_no t.session ≡ 7)
order-any_state_example =
    order-any_state server_env not_logged_on 7 [] 0 refl (omega arith) receiving_value.1
      receiving_type refl

abbrev overdue : FixServer
overdue = with_session server (record served_session {
  expecting_response_for_outgoing_test_request = true;
  needs_responding_to_incoming_resend_request = true;
  incoming_resend_request_begin_no = 2;
})

is_overdue : leb (10000000000 * 2 % 2 ^ 64) (delta 30000000000 0) ≡ true
is_overdue = refl

overdue-live_example :
    let closed = process_outgoing_test_request_if_necessary server_env overdue 30000000000 in
    let t = respond_to_resend_request_if_necessary server_env closed in
    (closed.session.state ≡ disconnected) × (t.session.state ≡ logged_on) × (peer_of t ≡ none)
overdue-live_example =
    overdue-live server_env overdue 7 30000000000 served server-IsInverse refl is_overdue refl

server_messages-Run_example :
    Run server_env specs 7
      (b'8' ∷ b'=' ∷ b'F' ∷ 1 ∷ [])
      3
      server
      true
      0
      (process_messages server_env specs 4 server 7 true (b'8' ∷ b'=' ∷ b'F' ∷ 1 ∷ []) 0 3)
server_messages-Run_example =
    server_messages-Run server_env specs 4 server 7 true (b'8' ∷ b'=' ∷ b'F' ∷ 1 ∷ []) 0 3
      (omega arith)
