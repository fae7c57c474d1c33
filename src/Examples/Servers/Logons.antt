-- ===== src/Examples/Servers/Logons.antt =====
-- Logons and sends of the example server.
use llfix.Examples.Servers.{server_env, server, unserved, server-IsInverse, served}
use llfix.Session.Schedule.{is_now_valid_datetime}
use llfix.StringView.{equals}
use llfix.Server.SendLaws.{sent_bytes, IsUnsent, IsSent, send_outgoing_message-IsSent}
use llfix.Server.LogonLaws.{IsLoggedOn, process_logon_request_lem}
use llfix.Examples.Clients.{order}
use llfix.Constants.{
  no_code, tag_msg_seq_num, tag_begin_string, tag_encrypt_method, tag_msg_type, tag_sender_comp_id,
  tag_heart_bt_int, tag_target_comp_id,
}
use llfix.Examples.Sessions.{empty_message}
use llfix.Server.SequenceLaws.{IsClosed}
use llfix.Server.Send.{send_outgoing_message}
use llfix.Server.Logon.{
  accept_session, process_logon_request, accept_found, validate_logon_request, is_acceptable,
  find_session, has_required_tags,
}
use llfix.Server.Acceptance.{IsAddressed, identifiers_of}
use llfix.Server.Accepted.{IsLogonFor, IsStarted, accept_session_lem}
use llfix.Message.{
  IncomingFixMessage, find, get_tag_value, set_tag, tag_value, has_tag, current, set_existing_item,
  get_tag_value_as_char,
}
use llfix.Server.{FixServer, session_at, delivered, peer_of}
use llfix.Session.Schedule.{initial_schedule}
use llfix.Common.{ℕ, true, false, refl, none, some, [], if◌then◌else◌, ◌≡◌, ◌⊎◌, ◌∷◌, ◌&&◌}

-- A logon for the second session.
abbrev second_logon : IncomingFixMessage
second_logon =
    set_tag
      (set_tag
        (set_tag
          (set_tag (set_tag empty_message tag_begin_string (b'F' ∷ [])) tag_msg_seq_num (b'7' ∷ []))
          tag_sender_comp_id (b'S' ∷ []))
        tag_target_comp_id (b'B' ∷ []))
      tag_msg_type (b'A' ∷ [])

accept_session_lem_example :
    let (t, ok) = accept_session server_env server 8 second_logon no_code in
    ((k : ℕ) × IsLogonFor server_env server second_logon no_code k
      × IsAddressed server (identifiers_of second_logon) k
      × (ok ≡ true)
      × IsStarted server t 8 second_logon k)
    ⊎ (((k : ℕ) → ¬ IsLogonFor server_env server second_logon no_code k)
        × (ok ≡ false)
        × (t ≡ record server { closed = some 8 ∷ [] }))
accept_session_lem_example = accept_session_lem server_env server 8 second_logon no_code unserved

accepts_second : (accept_session server_env server 8 second_logon no_code).1 ≡ true
unfolding accept_session accept_found is_acceptable find_session has_required_tags session_at
    get_tag_value_as_char has_tag get_tag_value tag_value current find set_tag set_existing_item
    equals is_now_valid_datetime initial_schedule
accepts_second = refl

-- A logon with a heartbeat interval of 30 seconds.
abbrev logging_on : FixServer
logging_on = record server {
  incoming_fix_message =
      set_tag (set_tag second_logon tag_encrypt_method (b'0' ∷ [])) tag_heart_bt_int
        (b'3' ∷ b'0' ∷ []);
}

process_logon_request_lem_example :
    let t = process_logon_request server_env logging_on 7 in
    if validate_logon_request logging_on.incoming_fix_message && true
    then IsLoggedOn server_env logging_on t 7
    else IsClosed logging_on t 7
process_logon_request_lem_example =
    process_logon_request_lem server_env logging_on 7 server-IsInverse served

send_outgoing_message-IsSent_example :
    let (t, ok) = send_outgoing_message server_env server order in
    let bytes = sent_bytes server_env server order 5 in
    ((peer_of server ≡ none) × (ok ≡ false) × IsUnsent server t)
    ⊎ ((p : ℕ) × (peer_of server ≡ some p) × (ok ≡ true) × IsSent server t p bytes delivered)
send_outgoing_message-IsSent_example =
    send_outgoing_message-IsSent server_env server order server-IsInverse
