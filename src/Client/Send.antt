-- ===== src/Client/Send.antt =====
-- The messages that include/llfix/fix_client.h sends to the server.
use llfix.Constants.{
  tag_encrypt_method, tag_poss_dup_flag, tag_heart_bt_int, tag_poss_resend, tag_default_appl_ver_id,
  tag_reset_seq_num_flag, tag_next_expected_seq_num, tag_username, tag_password, tag_new_password,
}
use llfix.Common.{
  ℕ, zero, suc, Bool, true, false, Option, none, some, List, [], ltb, if◌then◌else◌, length, ◌+◌,
  ◌-◌, ◌/◌, ◌%◌, ◌^◌, ◌∷◌,
}
use llfix.Client.{FixClient, Environment, send_bytes, IncomingFixMessage}
use llfix.Outgoing.{
  OutgoingFixMessage, encode, set_msg_type, set_body_tag, set_header_tag, unsigned_text,
}
use llfix.Outgoing.Load.{load_from_buffer}
use llfix.Session.Builders.{
  set_if, build_heartbeat_message, build_test_request_message, build_resend_request_message,
  build_logout_message, build_session_level_reject_message, build_gap_fill_message,
  build_sequence_reset_message,
}
use llfix.Session.Record.{FixSession, outgoing_seq_no, incoming_seq_no}
use llfix.Session.SequenceStore.{reset_numbers}
use llfix.Serialiser.{read_message}
use llfix.Utilities.RejectText.{get_reject_reason_text}
use llfix.Utilities.MessageType.{msg_type_logon}
use llfix.StringView.{fix_boolean_true}

-- Encoding with a sequence number, then sending.
unfoldable pub encode_and_send :
    Environment → Bool → FixClient → OutgoingFixMessage → ℕ → FixClient × Bool
encode_and_send env increment c m sequence_no =
    let s = c.session in
    let (cleared, bytes) =
      encode s.settings (incoming_seq_no s) m (env.current_time c.tick) sequence_no in
    send_bytes env increment (record c { session = record s { outgoing_fix_message = cleared } })
      bytes

unfoldable pub send_outgoing_message :
    Environment → FixClient → OutgoingFixMessage → FixClient × Bool
send_outgoing_message env c m =
    encode_and_send env true c m ((outgoing_seq_no c.session + 1) % 2 ^ 32)

abbrev pub is_text : List ℕ → Bool
is_text v = ltb 0 (length v)

abbrev pub logon_tags : FixSession → OutgoingFixMessage → OutgoingFixMessage
logon_tags s m =
    let settings = s.settings in
    let m₁ = set_body_tag (set_msg_type m (msg_type_logon ∷ [])) tag_encrypt_method (b'0' ∷ []) in
    let m₂ =
      set_body_tag m₁ tag_heart_bt_int
        (unsigned_text (settings.heartbeat_interval_in_nanoseconds / 1000000000 % 2 ^ 32)) in
    let m₃ =
      set_if (is_text settings.default_app_ver_id) m₂ tag_default_appl_ver_id
        settings.default_app_ver_id in
    let m₄ =
      set_if settings.logon_reset_sequence_numbers m₃ tag_reset_seq_num_flag
        (fix_boolean_true ∷ []) in
    let m₅ =
      set_if settings.logon_include_next_expected_seq_no m₄ tag_next_expected_seq_num
        (unsigned_text ((incoming_seq_no s + 1) % 2 ^ 32)) in
    let m₆ = set_if (is_text settings.logon_username) m₅ tag_username settings.logon_username in
    let m₇ = set_if (is_text settings.logon_password) m₆ tag_password settings.logon_password in
    set_if (is_text settings.logon_message_new_password) m₇ tag_new_password
      settings.logon_message_new_password

-- The numbers are reset in front of the tags that read them.
unfoldable pub send_logon_request : Environment → FixClient → FixClient × Bool
send_logon_request env c =
    let s =
      if c.session.settings.logon_reset_sequence_numbers
      then record c.session { sequence_store = reset_numbers c.session.sequence_store }
      else c.session in
    send_outgoing_message env (record c { session = s }) (logon_tags s s.outgoing_fix_message)

unfoldable pub send_logout_request : Environment → FixClient → FixClient × Bool
send_logout_request env c =
    send_outgoing_message env c (build_logout_message c.session.outgoing_fix_message [])

unfoldable pub send_client_heartbeat : Environment → FixClient → Option (List ℕ) → FixClient × Bool
send_client_heartbeat env c test_request_id =
    send_outgoing_message env c
      (build_heartbeat_message c.session.outgoing_fix_message test_request_id)

unfoldable pub send_test_request : Environment → FixClient → FixClient × Bool
send_test_request env c =
    let (s, m) = build_test_request_message c.session c.session.outgoing_fix_message in
    send_outgoing_message env (record c { session = s }) m

unfoldable pub send_resend_request : Environment → FixClient → FixClient × Bool
send_resend_request env c =
    send_outgoing_message env c
      (build_resend_request_message c.session c.session.outgoing_fix_message (b'0' ∷ []))

unfoldable pub send_sequence_reset_message : Environment → FixClient → ℕ → FixClient × Bool
send_sequence_reset_message env c desired_sequence_no =
    let (s, m) =
      build_sequence_reset_message c.session c.session.outgoing_fix_message desired_sequence_no in
    encode_and_send env false (record c { session = s }) m desired_sequence_no

unfoldable pub send_gap_fill_message : Environment → FixClient → FixClient × Bool
send_gap_fill_message env c =
    encode_and_send env false c (build_gap_fill_message c.session c.session.outgoing_fix_message)
      c.session.incoming_resend_request_begin_no

unfoldable pub send_reject_message :
    Environment → FixClient → IncomingFixMessage → ℕ → ℕ → FixClient × Bool
send_reject_message env c incoming reject_reason_code error_tag = send_outgoing_message env c (
    build_session_level_reject_message incoming c.session.outgoing_fix_message reject_reason_code
      (get_reject_reason_text reject_reason_code) error_tag)

-- The message of one round of the resend loop, with its flags.
unfoldable pub flagged : Bool → OutgoingFixMessage → OutgoingFixMessage
flagged include_t97 m =
    let m₁ = set_header_tag m tag_poss_dup_flag (fix_boolean_true ∷ []) in
    if include_t97 then set_header_tag m₁ tag_poss_resend (fix_boolean_true ∷ []) else m₁

unfoldable pub resend_message : Environment → FixClient → ℕ → Option (List ℕ) → FixClient
resend_message env c i none = c
resend_message env c i (some bytes) =
    let m = load_from_buffer c.session.outgoing_fix_message bytes in
    let (t, ret) =
      encode_and_send env false c (flagged c.session.settings.include_t97_during_resends m) i in
    t

-- The loop from `i` on, for as many rounds as there are numbers up to the end. Every number has a
-- record, as the caller has checked.
unfoldable pub resend_messages : Environment → ℕ → FixClient → ℕ → FixClient
resend_messages env zero c i = c
resend_messages env (suc rounds) c i =
    resend_messages env rounds
      (resend_message env c i (read_message c.outgoing_messages_serialiser i)) (i + 1)

unfoldable pub resend_messages_to_server : Environment → FixClient → ℕ → ℕ → FixClient
unfolding resend_messages
resend_messages_to_server env c begin_seq_no end_seq_no =
    resend_messages env (end_seq_no + 1 - begin_seq_no) c begin_seq_no
