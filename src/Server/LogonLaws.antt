-- ===== src/Server/LogonLaws.antt =====
-- The outcome of a logon in include/llfix/fix_server.h.
use llfix.Session.Settings.{FixSessionSettings}
use llfix.Server.SequenceLaws.{IsClosed, closure-lost, lost_own-IsClosed}
use llfix.Server.SendLaws.{IsSent, served-IsSent}
use llfix.Server.Connectors.{get_session}
use llfix.Server.Tables.{IsInverse}
use llfix.Server.Send.{send_logon_response}
use llfix.Session.Receive.{is_a_hard_sequence_reset_message}
use llfix.Constants.{tag_msg_seq_num, tag_heart_bt_int}
use llfix.Session.State.{logged_on}
use llfix.Session.Record.{incoming_seq_no, queue_outgoing_resend_request}
use llfix.Message.{get_tag_value_as_uint32, IncomingFixMessage}
use llfix.Server.Logon.{
  do_post_logon_sequence_number_check, take_intervals, process_logon_request,
  validate_logon_request,
}
use llfix.Server.{
  FixServer, ServerEnvironment, FixSession, on_logon_request, with_session, is_delivered, raise,
  set_server_state,
}
use llfix.Common.{
  ℕ, Bool, true, false, not, refl, inl, inr, List, ltb, Bool-cases, ◌*◌, ◌≡◌, ◌⊎◌, ◌∷◌, ◌&&◌, some,
  if◌then◌else◌, sym, ap,
}

abbrev pub shows_gap : FixServer → FixSession → Bool
shows_gap sv s =
    let m = sv.incoming_fix_message in
    ltb (incoming_seq_no s) (get_tag_value_as_uint32 m tag_msg_seq_num)
    && not (is_a_hard_sequence_reset_message m)

abbrev pub requested_interval : FixServer → ℕ
requested_interval sv =
    get_tag_value_as_uint32 sv.incoming_fix_message tag_heart_bt_int * 1000000000

-- A resend of what the logon skipped is asked for later.
pub record IsQueued (sv t : FixServer) : Type 0 where
  pub queued : t.session.needs_to_send_resend_request ≡ true
  pub from : t.session.outgoing_resend_request_begin_no ≡ incoming_seq_no sv.session
  pub to :
      t.session.outgoing_resend_request_end_no
      ≡ get_tag_value_as_uint32 sv.incoming_fix_message tag_msg_seq_num

-- The answer of the server was handed to the transport for the peer.
pub record IsLoggedOn (env : ServerEnvironment) (sv t : FixServer) (peer : ℕ) : Type 0 where
  pub state : t.session.state ≡ logged_on
  pub events : t.events ≡ (on_logon_request, sv.session_id) ∷ sv.events
  pub sent : (bytes : List ℕ) × (t.sent ≡ (peer, bytes, is_delivered (env.send sv.tick)) ∷ sv.sent)
  pub heartbeats : t.session.settings.heartbeat_interval_in_nanoseconds ≡ requested_interval sv
  pub resend : (shows_gap sv sv.session ≡ false) ⊎ IsQueued sv t

-- The check after the logon, of a session that is logged on.
checked :
    (sv : FixServer)
    → sv.session.state ≡ logged_on
    → let t = do_post_logon_sequence_number_check sv in
      ((shows_gap sv sv.session ≡ false) × (t ≡ sv))
      ⊎ (t
          ≡ with_session sv (
              queue_outgoing_resend_request sv.session
                (incoming_seq_no sv.session)
                (get_tag_value_as_uint32 sv.incoming_fix_message tag_msg_seq_num)))
unfolding do_post_logon_sequence_number_check
checked sv on = elim (Bool-cases (shows_gap sv sv.session)) [
  | inl g ↦ inr (rw (on, g) refl)
  | inr g ↦ inl (g, rw (on, g) refl)
]

response-IsSent :
    (env : ServerEnvironment) (sv : FixServer) (peer : ℕ)
    → IsInverse sv.connectors
    → get_session sv.connectors peer ≡ some sv.session_id
    → (bytes : List ℕ) × IsSent sv ((send_logon_response env sv).0) peer bytes (env.send sv.tick)
unfolding send_logon_response
response-IsSent env sv peer inv own = served-IsSent env sv _ peer inv own

after_response :
    (env : ServerEnvironment) (sv t : FixServer) (peer : ℕ) (bytes : List ℕ)
    → let u = with_session sv (take_intervals sv.session sv.incoming_fix_message) in
      IsSent u t peer bytes (env.send sv.tick)
      → let v = set_server_state t logged_on in
        IsLoggedOn env sv (raise (do_post_logon_sequence_number_check v) on_logon_request) peer
unfolding take_intervals queue_outgoing_resend_request
after_response env sv t peer bytes i =
    let v = set_server_state t logged_on in
    let heartbeats =
      ap (λ (s : FixSessionSettings). s.heartbeat_interval_in_nanoseconds) i.settings in
    let told : (on_logon_request, t.session_id) ∷ t.events
        ≡ (on_logon_request, sv.session_id) ∷ sv.events =
      rw (i.id, i.events) refl in
    elim (checked v refl) [
      | inl (g, h) ↦ rw h (record {
        state = refl;
        events = told;
        sent = (bytes, i.sent);
        heartbeats = heartbeats;
        resend = inl (rw (sym i.incoming, sym i.message) g);
      })
      | inr h ↦ rw h (record {
        state = refl;
        events = told;
        sent = (bytes, i.sent);
        heartbeats = heartbeats;
        resend = inr (record {
          queued = refl;
          from = i.incoming;
          to = ap (λ (m : IncomingFixMessage). get_tag_value_as_uint32 m tag_msg_seq_num) i.message;
        });
      })
    ]

-- A logon of a peer that serves the session is refused exactly if the request is not valid or the user
-- does not authenticate it: the peer and the session then lose each other, and nothing is sent or
-- reported. Otherwise one answer goes to the peer, the session is logged on, the
-- user is told, the heartbeat interval is the one that was asked for, and a resend is queued unless the number shows no gap.
pub process_logon_request_lem :
    (env : ServerEnvironment) (sv : FixServer) (peer : ℕ)
    → IsInverse sv.connectors
    → get_session sv.connectors peer ≡ some sv.session_id
    → let m = sv.incoming_fix_message in
      let t = process_logon_request env sv peer in
      if validate_logon_request m && env.authenticate_logon_request sv.session m
      then IsLoggedOn env sv t peer
      else IsClosed sv t peer
unfolding process_logon_request
process_logon_request_lem env sv peer inv own =
    let m = sv.incoming_fix_message in
    let closed = closure-lost env sv peer own in
    elim (Bool-cases (validate_logon_request m)) [
      | inr a ↦ rw (a, closed) (lost_own-IsClosed sv peer)
      | inl a ↦ elim (Bool-cases (env.authenticate_logon_request sv.session m)) [
        | inr b ↦ rw (a, b, closed) (lost_own-IsClosed sv peer)
        | inl b ↦
            (let u = with_session sv (take_intervals sv.session m) in
              let (bytes, i) = response-IsSent env u peer inv own in
              rw (a, b) (after_response env sv _ peer bytes i))
      ]
    ]
