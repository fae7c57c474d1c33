-- ===== src/Server/Send.antt =====
-- The messages that include/llfix/fix_server.h sends to the client of a session.
use llfix.Message.{has_tag, get_tag_value_as_uint32, get_tag_value}
use llfix.Constants.{
  tag_encrypt_method, tag_text, tag_heart_bt_int, tag_default_appl_ver_id, tag_msg_seq_num,
  tag_ref_seq_num, tag_msg_type, tag_ref_msg_type,
}
use llfix.Client.Send.{flagged}
use llfix.Utilities.RejectText.{get_reject_reason_text}
use llfix.Utilities.MessageType.{msg_type_logon, msg_type_business_reject}
use llfix.Session.Record.{outgoing_seq_no, incoming_seq_no}
use llfix.Serialiser.{read_message}
use llfix.Outgoing.Load.{load_from_buffer}
use llfix.Session.Builders.{
  build_heartbeat_message, build_logout_message, build_test_request_message,
  build_resend_request_message, build_sequence_reset_message, build_gap_fill_message,
  build_session_level_reject_message, set_if,
}
use llfix.Outgoing.{OutgoingFixMessage, set_msg_type, encode, set_body_tag, unsigned_text}
use llfix.Server.{
  ServerEnvironment, FixServer, close_connection, with_session, send_bytes, focus, get_session,
}
use llfix.Common.{
  ℕ, zero, suc, Bool, true, false, Option, none, some, List, [], ltb, if◌then◌else◌, length, ◌+◌,
  ◌-◌, ◌/◌, ◌%◌, ◌^◌, ◌∷◌, ◌==◌,
}

unfoldable pub encode_and_send :
    ServerEnvironment → Bool → FixServer → OutgoingFixMessage → ℕ → FixServer × Bool
encode_and_send env increment sv m sequence_no =
    let s = sv.session in
    let (cleared, bytes) =
      encode s.settings (incoming_seq_no s) m (env.current_time sv.tick) sequence_no in
    send_bytes env increment (with_session sv (record s { outgoing_fix_message = cleared })) bytes

unfoldable pub send_outgoing_message :
    ServerEnvironment → FixServer → OutgoingFixMessage → FixServer × Bool
send_outgoing_message env sv m =
    encode_and_send env true sv m ((outgoing_seq_no sv.session + 1) % 2 ^ 32)

unfoldable pub send_heartbeat : ServerEnvironment → FixServer → Option (List ℕ) → FixServer × Bool
send_heartbeat env sv test_request_id =
    send_outgoing_message env sv
      (build_heartbeat_message sv.session.outgoing_fix_message test_request_id)

unfoldable pub send_logon_response : ServerEnvironment → FixServer → FixServer × Bool
send_logon_response env sv =
    let settings = sv.session.settings in
    let m = set_msg_type sv.session.outgoing_fix_message (msg_type_logon ∷ []) in
    let m₁ = set_body_tag m tag_encrypt_method (b'0' ∷ []) in
    let m₂ =
      set_body_tag m₁ tag_heart_bt_int
        (unsigned_text (settings.heartbeat_interval_in_nanoseconds / 1000000000 % 2 ^ 32)) in
    send_outgoing_message env sv (
      set_if (ltb 0 (length settings.default_app_ver_id)) m₂ tag_default_appl_ver_id
        settings.default_app_ver_id)

unfoldable pub send_logout_message : ServerEnvironment → FixServer → List ℕ → FixServer × Bool
send_logout_message env sv reason_text =
    send_outgoing_message env sv (build_logout_message sv.session.outgoing_fix_message reason_text)

unfoldable pub send_test_request : ServerEnvironment → FixServer → FixServer × Bool
send_test_request env sv =
    let (s, m) = build_test_request_message sv.session sv.session.outgoing_fix_message in
    send_outgoing_message env (with_session sv s) m

unfoldable pub send_resend_request : ServerEnvironment → FixServer → FixServer × Bool
send_resend_request env sv =
    send_outgoing_message env sv
      (build_resend_request_message sv.session sv.session.outgoing_fix_message (b'0' ∷ []))

unfoldable pub send_sequence_reset_message : ServerEnvironment → FixServer → ℕ → FixServer × Bool
send_sequence_reset_message env sv desired_sequence_no =
    let (s, m) =
      build_sequence_reset_message sv.session sv.session.outgoing_fix_message desired_sequence_no in
    encode_and_send env false (with_session sv s) m desired_sequence_no

unfoldable pub send_gap_fill_message : ServerEnvironment → FixServer → FixServer × Bool
send_gap_fill_message env sv =
    encode_and_send env false sv (build_gap_fill_message sv.session sv.session.outgoing_fix_message)
      sv.session.incoming_resend_request_begin_no

unfoldable pub send_reject_message : ServerEnvironment → FixServer → ℕ → ℕ → FixServer × Bool
send_reject_message env sv reject_reason_code error_tag = send_outgoing_message env sv (
    build_session_level_reject_message sv.incoming_fix_message sv.session.outgoing_fix_message
      reject_reason_code (get_reject_reason_text reject_reason_code) error_tag)

unfoldable pub send_throttle_reject_message : ServerEnvironment → FixServer → FixServer × Bool
send_throttle_reject_message env sv =
    let incoming = sv.incoming_fix_message in
    let m = set_msg_type sv.session.outgoing_fix_message (msg_type_business_reject ∷ []) in
    let m₁ = set_body_tag m tag_text sv.session.settings.throttler_reject_message in
    let m₂ =
      set_if (has_tag incoming tag_msg_seq_num) m₁ tag_ref_seq_num
        (unsigned_text (get_tag_value_as_uint32 incoming tag_msg_seq_num)) in
    send_outgoing_message env sv (
      set_if (has_tag incoming tag_msg_type) m₂ tag_ref_msg_type
        (get_tag_value incoming tag_msg_type))

-- The message of one round of the resend loop, with its flags, as the client flags it.
unfoldable pub resend_message : ServerEnvironment → FixServer → ℕ → Option (List ℕ) → FixServer
resend_message env sv i none = sv
resend_message env sv i (some bytes) =
    let m = load_from_buffer sv.session.outgoing_fix_message bytes in
    (encode_and_send env false sv (flagged sv.session.settings.include_t97_during_resends m) i).0

-- The loop from `i` on, for as many rounds as there are numbers up to the end. Every number has a
-- record, as the caller has checked.
unfoldable pub resend_messages : ServerEnvironment → ℕ → FixServer → ℕ → FixServer
resend_messages env zero sv i = sv
resend_messages env (suc rounds) sv i =
    resend_messages env rounds
      (resend_message env sv i (read_message sv.outgoing_messages_serialiser i)) (i + 1)

unfoldable pub resend_messages_to_client : ServerEnvironment → FixServer → ℕ → ℕ → FixServer
unfolding resend_messages
resend_messages_to_client env sv begin_seq_no end_seq_no =
    resend_messages env (end_seq_no + 1 - begin_seq_no) sv begin_seq_no

-- The logout goes to the session that the peer serves, if there is one.
unfoldable pub send_logout_to : ServerEnvironment → FixServer → Option ℕ → List ℕ → FixServer
send_logout_to env sv none reason_text = sv
send_logout_to env sv (some k) reason_text =
    if k == sv.session_id
    then (send_logout_message env sv reason_text).0
    else focus ((send_logout_message env (focus sv k) reason_text).0) sv.session_id

abbrev pub served_by : FixServer → Option ℕ → Option ℕ
served_by sv none = none
served_by sv (some peer_index) = get_session sv.connectors peer_index

unfoldable pub process_connection_closure :
    ServerEnvironment → FixServer → Option ℕ → Bool → List ℕ → FixServer
process_connection_closure env sv peer_index send_logout logout_reason_text =
    close_connection
      (if send_logout
        then send_logout_to env sv (served_by sv peer_index) logout_reason_text
        else sv)
      peer_index
