-- ===== src/Examples/Clients.antt =====
-- Encoding, sending, receiving and the timers of a client at concrete inputs.
mod Silence
use llfix.Outgoing.Texts.{IsTagByte}
use llfix.Utilities.Framing.{fix_delimiter}
use llfix.Transport.{delivered}
use llfix.Utilities.Checksum.{validate_checksum_no_simd, validate_checksum_simd_avx2}
use llfix.Session.Schedule.{is_now_valid_datetime, initial_schedule}
use llfix.Session.State.{logged_on, in_retransmission_initiated_by_self, pending_logon}
use llfix.Utilities.MessageType.{msg_type_sequence_reset}
use llfix.Converters.{
  chars_to_unsigned_int, skip_plus, parse_digits, of_char, digit_of_char, w32,
  unsigned_int_to_chars, write_digits, get_chars_length,
}
use llfix.Session.Receive.{is_a_hard_sequence_reset_message}
use llfix.Constants.{tag_msg_seq_num, tag_msg_type}
use llfix.Common.{
  ℕ, true, false, refl, none, some, [], arith, if◌then◌else◌, length, take, drop, ◌+◌, ◌-◌, ◌^◌,
  ◌≤◌, ◌<◌, ◌≡◌, ◌≢◌, ◌⊎◌, ◌++◌, ◌∷◌, ◌==◌, List, All, ◌%◌,
}
use llfix.Examples.Sessions.{session, empty_message, timegm}
use llfix.Client.{FixClient, Environment, on_connection}
use llfix.Client.SendLaws.{sent_bytes, IsSent, send_outgoing_message-numbers}
use llfix.Client.Send.{send_outgoing_message}
use llfix.Client.SequenceLaws.{out_of_sequence, IsGap}
use llfix.Client.AdvanceLaws.{incoming_advance}
use llfix.Client.ResendLaws.{resend_response, Replays, gap_fill}
use llfix.Client.TimerLaws.{
  test_request_phases, resend_request_phases, Sends, test_request, resend_request,
}
use llfix.Client.AdminLaws.{connect_outcome, SendsLogon}
use llfix.Client.Dispatch.{process_incoming_fix_message}
use llfix.Client.Admin.{connect, is_now_valid}
use llfix.Client.Timers.{
  respond_to_resend_request_if_necessary, will_replay, process_outgoing_test_request_if_necessary,
  process_outgoing_resend_request_if_necessary,
}
use llfix.Message.{
  IncomingFixMessage, set_tag, get_tag_value_as_uint32, has_tag, get_tag_value_as_char,
  get_tag_value, tag_value, current, find, set_existing_item,
}
use llfix.Outgoing.{OutgoingFixMessage, encode, unsigned_text, write_tags, encode_bytes}
use llfix.Outgoing.EncodeChecks.{encode-checks}
use llfix.Outgoing.EncodeLaws.{encode-frame, content, frame}
use llfix.Serialiser.{
  MessageSerialiser, read_message-write, has_message_in_memory, write, read_message,
}
use llfix.Session.Record.{outgoing_seq_no, incoming_seq_no}

abbrev pub env : Environment
env = record {
  nanoseconds_monotonic = λ n. 100000000000 + n;
  current_time = λ n. b'T' ∷ [];
  seconds = λ n. n;
  timegm = timegm;
  send = λ n. delivered;
  connect = λ n. n == 1;
  weekday = λ n. 1;
  hour = λ n. 12;
  minute = λ n. 0;
  stored_records = λ n. [];
}

-- The session has sent four messages and processed six; the records of two to four are in memory.
abbrev serialiser : MessageSerialiser
serialiser = record {
  keep_message_records_in_memory = true;
  message_memory_records =
      (4, b'3' ∷ b'5' ∷ b'=' ∷ b'D' ∷ 1 ∷ [])
      ∷ (3, b'3' ∷ b'5' ∷ b'=' ∷ b'D' ∷ 1 ∷ [])
      ∷ (2, b'3' ∷ b'5' ∷ b'=' ∷ b'0' ∷ 1 ∷ [])
      ∷ [];
}

abbrev pub client : FixClient
client = record {
  session = record session {
    needs_responding_to_incoming_resend_request = true;
    incoming_resend_request_begin_no = 2;
    incoming_resend_request_end_no = 0;
    needs_to_send_resend_request = true;
  };
  incoming_fix_message = empty_message;
  outgoing_messages_serialiser = serialiser;
  is_ha_primary = false;
  last_logon_attempt_timestamp = 0;
  connected_to_primary = true;
  connected_to_secondary = false;
  has_secondary_address = true;
  refresh_resend_cache_during_promotion = true;
  tick = 0;
  sent = [];
  events = [];
}

abbrev pub order : OutgoingFixMessage
order = record {
  msg_type = b'D' ∷ [];
  send_time = none;
  static_header_tags = [];
  header = [];
  body = (55, b'X' ∷ []) ∷ [];
  trailer = [];
}

send_outgoing_message-numbers_example :
    let (t, ok) = send_outgoing_message env client order in
    IsSent client t (sent_bytes env client order 5) delivered
    × (ok ≡ true)
    × (outgoing_seq_no t.session ≡ (if ok then 5 else 4))
send_outgoing_message-numbers_example = send_outgoing_message-numbers env client order

encode-frame_example :
    let (after, bytes) = encode session.settings 6 order (b'T' ∷ []) 5 in
    (bytes ≡ frame (b'F' ∷ []) (content session.settings 6 order (b'T' ∷ []) 5))
    × (after ≡ record {
      msg_type = b'D' ∷ [];
      send_time = none;
      static_header_tags = [];
      header = [];
      body = [];
      trailer = [];
    })
encode-frame_example = encode-frame session.settings 6 order (b'T' ∷ []) 5

read_message-write_example :
    (has_message_in_memory serialiser 3 ≡ true
      → (has_message_in_memory (write serialiser (b'9' ∷ []) 3) 3 ≡ true)
        × (read_message (write serialiser (b'9' ∷ []) 3) 3 ≡ read_message serialiser 3))
    × (true ≡ true
        → has_message_in_memory serialiser 3 ≡ false
        → read_message (write serialiser (b'9' ∷ []) 3) 3 ≡ some (b'9' ∷ []))
read_message-write_example = read_message-write serialiser (b'9' ∷ []) 3 3

-- Without validations every message is accepted.
abbrev trusting : FixClient
trusting = record client {
  session = record client.session {
    settings = record client.session.settings { validations_enabled = false };
  };
}

abbrev numbered : ℕ → IncomingFixMessage
numbered digit =
    set_tag (set_tag empty_message tag_msg_seq_num (digit ∷ [])) tag_msg_type (b'0' ∷ [])

numbered_value : get_tag_value_as_uint32 (numbered b'9') tag_msg_seq_num ≡ 9
unfolding get_tag_value_as_uint32 chars_to_unsigned_int get_tag_value tag_value current find set_tag
    set_existing_item skip_plus parse_digits of_char digit_of_char
numbered_value = refl

numbered_soft : is_a_hard_sequence_reset_message (numbered b'9') ≡ false
unfolding is_a_hard_sequence_reset_message has_tag get_tag_value tag_value current find set_tag
    get_tag_value_as_char set_existing_item
numbered_soft = refl

-- Number nine arrives where seven is expected.
out_of_sequence_example :
    IsGap trusting
      (process_incoming_fix_message env trusting (numbered b'9') [] 0)
      7
      (get_tag_value_as_uint32 (numbered b'9') tag_msg_seq_num)
out_of_sequence_example =
    (out_of_sequence env trusting (numbered b'9') [] 0 refl numbered_soft (omega arith)).0
      (omega (arith, numbered_value))

incoming_advance_example :
    let t = process_incoming_fix_message env trusting (numbered b'7') [] 0 in
    (incoming_seq_no t.session ≡ 6)
    ⊎ ((get_tag_value_as_uint32 (numbered b'7') tag_msg_seq_num ≡ 7)
        × (incoming_seq_no t.session ≡ 7))
    ⊎ ((get_tag_value_as_char (numbered b'7') tag_msg_type ≡ msg_type_sequence_reset)
        × (7 ≤ incoming_seq_no t.session))
incoming_advance_example = incoming_advance env trusting (numbered b'7') [] 0 (omega arith)

-- The three records are replayed.
resend_response_example :
    let t = respond_to_resend_request_if_necessary env client in
    (if will_replay client.session serialiser
      then Replays env client.session.settings 6 serialiser 3 2 0
          client.session.outgoing_fix_message [] t.sent
      else t.sent
        ≡ (
          encode_bytes client.session.settings 6
              (gap_fill 5 client.session.outgoing_fix_message)
              (b'T' ∷ [])
              2,
          true,
        )
          ∷ [])
    × (outgoing_seq_no t.session ≡ 4)
    × (incoming_seq_no t.session ≡ 6)
    × (t.session.needs_responding_to_incoming_resend_request ≡ false)
    × (t.session.state ≡ logged_on)
resend_response_example = resend_response env client refl

content_short : length (content session.settings 6 order (b'T' ∷ []) 5) < 2 ^ 32
unfolding content write_tags unsigned_text unsigned_int_to_chars write_digits get_chars_length
content_short = omega arith

encode-checks_example :
    let (after, bytes) = encode session.settings 6 order (b'T' ∷ []) 5 in
    let covered = take (length bytes - 7) bytes in
    let actual = chars_to_unsigned_int w32 (take 3 (drop (length bytes - 4) bytes)) in
    ((digits : List ℕ) × (counted : List ℕ) × (sum : List ℕ) × (bytes
        ≡ b'8' ∷ b'=' ∷ b'F' ∷ fix_delimiter ∷ b'9' ∷ b'=' ∷ digits
          ++ fix_delimiter ∷ counted
          ++ b'1' ∷ b'0' ∷ b'=' ∷ sum
          ++ fix_delimiter ∷ [])
      × (length sum ≡ 3)
      × (All IsTagByte digits)
      × (chars_to_unsigned_int w32 digits ≡ length counted))
    × (validate_checksum_no_simd covered actual ≡ true)
    × (validate_checksum_simd_avx2 covered actual ≡ true)
encode-checks_example = encode-checks session.settings 6 order (b'T' ∷ []) 5 content_short

-- Nothing was received for a hundred seconds.
test_request_phases_example :
    let s = client.session in
    let t = process_outgoing_test_request_if_necessary env client 100000000000 in
    Sends env client
      (test_request ((s.outgoing_test_request_id + 1) % 2 ^ 32) s.outgoing_fix_message)
      t
    × (t.session.expecting_response_for_outgoing_test_request ≡ true)
    × (t.session.outgoing_test_request_timestamp_nanoseconds ≡ 100000000000)
    × (t.session.state ≡ logged_on)
test_request_phases_example = ((test_request_phases env client 100000000000).0 refl).1 (omega arith)

resend_request_phases_example :
    let s = client.session in
    let t = process_outgoing_resend_request_if_necessary env client 5 in
    Sends env client (resend_request s.outgoing_resend_request_begin_no s.outgoing_fix_message) t
    × (t.session.state ≡ in_retransmission_initiated_by_self)
    × (t.session.needs_to_send_resend_request ≡ false)
    × (t.session.outgoing_resend_request_timestamp_nanoseconds ≡ 5)
resend_request_phases_example = ((resend_request_phases env client 5).0 refl).1 refl

client_in_schedule : is_now_valid env client ≡ true
unfolding is_now_valid_datetime initial_schedule
client_in_schedule = refl

-- The primary address does not answer, the secondary one does.
connect_outcome_example :
    let (t, ok) = connect env client in
    (t.session.state ≡ pending_logon)
    × (t.events ≡ on_connection ∷ [])
    × SendsLogon env client.session.settings 6 4 4 client t
    × (ok ≡ true)
connect_outcome_example = (connect_outcome env client refl client_in_schedule).0 refl
