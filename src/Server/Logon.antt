-- ===== src/Server/Logon.antt =====
-- How include/llfix/fix_server.h accepts a session and processes its logon.
use llfix.Server.Connectors.{update}
use llfix.Session.Receive.{is_a_hard_sequence_reset_message}
use llfix.Utilities.MessageType.{msg_type_logon}
use llfix.Session.SequenceStore.{reset_numbers}
use llfix.StringView.{equals, fix_boolean_true}
use llfix.Constants.{
  no_code, tag_begin_string, tag_reset_seq_num_flag, tag_heart_bt_int, tag_msg_seq_num,
  tag_sender_comp_id, tag_msg_type, tag_encrypt_method, tag_target_comp_id,
}
use llfix.Session.State.{is_state_live, ◌=state◌, disabled, logged_on, pending_logon, logged_out}
use llfix.Session.Schedule.{is_now_valid_datetime}
use llfix.Server.Send.{process_connection_closure, send_logon_response, send_logout_message}
use llfix.Session.Record.{FixSession, reset_flags, incoming_seq_no, queue_outgoing_resend_request}
use llfix.Message.{
  IncomingFixMessage, has_tag, get_tag_value, get_tag_value_as_uint32, get_tag_value_as_char,
  copy_non_dirty_tag_values_from, reset,
}
use llfix.Server.{
  FixServer, ServerEnvironment, session_at, raise, focus, with_session, set_server_state,
  on_logon_request, on_logout_request,
}
use llfix.Common.{
  ℕ, Bool, true, false, not, Option, none, some, List, [], ltb, if◌then◌else◌, ◌*◌, ◌%◌, ◌^◌, ◌∷◌,
  ◌==◌, ◌&&◌, ◌||◌,
}

-- A session of the list with these identifiers, the first one.
unfoldable pub find_session : FixServer → List ℕ → List ℕ → List ℕ → List ℕ → Option ℕ
find_session sv [] begin_string sender_comp_id target_comp_id = none
find_session sv (k ∷ ks) begin_string sender_comp_id target_comp_id =
    let settings = (session_at sv k).session.settings in
    if equals settings.sender_comp_id sender_comp_id
      && (equals settings.target_comp_id target_comp_id
          && equals settings.begin_string begin_string)
    then some k
    else find_session sv ks begin_string sender_comp_id target_comp_id

unfoldable pub has_required_tags : IncomingFixMessage → Bool
has_required_tags m =
    has_tag m tag_begin_string
    && (has_tag m tag_msg_seq_num
        && (has_tag m tag_sender_comp_id
            && (has_tag m tag_target_comp_id && has_tag m tag_msg_type)))

abbrev pub process_invalid_logon : ServerEnvironment → FixServer → ℕ → FixServer
process_invalid_logon env sv peer_index =
    process_connection_closure env sv (some peer_index) false []

abbrev pub is_now_valid : ServerEnvironment → FixServer → FixSession → Bool
is_now_valid env sv s =
    is_now_valid_datetime s.schedule_validator (env.weekday sv.tick) (env.hour sv.tick)
      (env.minute sv.tick)

-- The reasons against a session that was found.
unfoldable pub is_acceptable : ServerEnvironment → FixServer → FixSession → Bool
is_acceptable env sv s =
    not (is_state_live s.state) && (not (s.state =state disabled) && is_now_valid env sv s)

abbrev pub reset_requested : IncomingFixMessage → Bool
reset_requested m =
    has_tag m tag_reset_seq_num_flag
    && get_tag_value_as_char m tag_reset_seq_num_flag == fix_boolean_true

-- A session that is accepted takes over the message of the unknown peer.
unfoldable pub start_session : FixServer → ℕ → IncomingFixMessage → FixServer
start_session sv peer_index m =
    let s = reset_flags sv.session in
    record sv {
      connectors = update sv.connectors peer_index sv.session_id;
      session = record s {
        sequence_store =
            if reset_requested m then reset_numbers s.sequence_store else s.sequence_store;
        state = pending_logon;
      };
      incoming_fix_message = copy_non_dirty_tag_values_from (reset sv.incoming_fix_message) m;
    }

unfoldable pub accept_found :
    ServerEnvironment → FixServer → ℕ → IncomingFixMessage → Option ℕ → FixServer × Bool
accept_found env sv peer_index m none = (process_invalid_logon env sv peer_index, false)
accept_found env sv peer_index m (some k) =
    if is_acceptable env sv (session_at sv k).session
    then (start_session (focus sv k) peer_index m, true)
    else (process_invalid_logon env sv peer_index, false)

-- The flag says whether a session was accepted, which is then the one that is worked on.
unfoldable pub accept_session :
    ServerEnvironment → FixServer → ℕ → IncomingFixMessage → ℕ → FixServer × Bool
accept_session env sv peer_index m parser_reject_code =
    if not (parser_reject_code == no_code)
    then (process_invalid_logon env sv peer_index, false)
    else if not (has_required_tags m)
    then (process_invalid_logon env sv peer_index, false)
    else if get_tag_value_as_char m tag_msg_type == msg_type_logon
    then accept_found env sv peer_index m (
        find_session sv sv.sessions (get_tag_value m tag_begin_string)
          (get_tag_value m tag_target_comp_id) (get_tag_value m tag_sender_comp_id))
    else (process_invalid_logon env sv peer_index, false)

unfoldable pub contains : List ℕ → ℕ → Bool
contains [] c = false
contains (x ∷ xs) c = x == c || contains xs c

unfoldable pub validate_logon_request : IncomingFixMessage → Bool
unfolding contains
validate_logon_request m =
    let t108 = get_tag_value m tag_heart_bt_int in
    has_tag m tag_encrypt_method
    && (has_tag m tag_heart_bt_int
        && (not (contains t108 b'-')
            && (not (contains t108 b'.') && not (get_tag_value_as_uint32 m tag_heart_bt_int == 0))))

-- A gap that the logon showed is asked for after the logon.
unfoldable pub do_post_logon_sequence_number_check : FixServer → FixServer
do_post_logon_sequence_number_check sv =
    let expected = incoming_seq_no sv.session in
    let m = sv.incoming_fix_message in
    let seq_no = get_tag_value_as_uint32 m tag_msg_seq_num in
    if sv.session.state =state logged_on
      && (ltb expected seq_no && not (is_a_hard_sequence_reset_message m))
    then with_session sv (queue_outgoing_resend_request sv.session expected seq_no)
    else sv

-- The intervals that the client asked for; the multiplier is a positive `int`.
unfoldable pub take_intervals : FixSession → IncomingFixMessage → FixSession
take_intervals s m =
    let requested = get_tag_value_as_uint32 m tag_heart_bt_int * 1000000000 in
    record s {
      settings = record s.settings {
        heartbeat_interval_in_nanoseconds = requested;
        outgoing_test_request_interval_in_nanoseconds =
            requested * s.settings.outgoing_test_request_interval_multiplier % 2 ^ 64;
      };
    }

unfoldable pub process_logon_request : ServerEnvironment → FixServer → ℕ → FixServer
process_logon_request env sv peer_index =
    let m = sv.incoming_fix_message in
    if not (validate_logon_request m)
    then process_invalid_logon env sv peer_index
    else if not (env.authenticate_logon_request sv.session m)
    then process_invalid_logon env sv peer_index
    else (let t = (send_logon_response env (with_session sv (take_intervals sv.session m))).0 in
        raise (do_post_logon_sequence_number_check (set_server_state t logged_on)) on_logon_request)

unfoldable pub process_logout_request : ServerEnvironment → FixServer → FixServer
process_logout_request env sv =
    raise (set_server_state ((send_logout_message env sv []).0) logged_out) on_logout_request
