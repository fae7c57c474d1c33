-- ===== src/Server/SequenceLaws.antt =====
-- What a message that a session receives does to its sequence number in include/llfix/fix_server.h.
use llfix.Constants.{tag_msg_seq_num}
use llfix.Message.{get_tag_value_as_uint32}
use llfix.Server.Tables.{lookup-erase}
use llfix.Session.State.{◌=state◌, pending_logon}
use llfix.Server.Isolation.{lost_own, on_client_disconnected-own}
use llfix.Session.SequenceStore.{set_incoming_seq_no, increment_incoming_seq_no}
use llfix.Session.Receive.{is_a_hard_sequence_reset_message}
use llfix.Session.Validate.{Verdict, validate_fix_message, accepted}
use llfix.Session.Record.{queue_outgoing_resend_request, incoming_seq_no, outgoing_seq_no}
use llfix.Server.Dispatch.{
  process_incoming_fix_message, process_numbered, note_received, process_verdict, process_accepted,
}
use llfix.Server.Send.{process_connection_closure}
use llfix.Server.Connectors.{remove, get_session, get_peer_index}
use llfix.Server.{
  ServerEnvironment, FixServer, disconnected, close_connection, peer_of, with_session,
}
use llfix.Common.{
  eq_self, ℕ, true, false, refl, none, some, List, [], arith, ltb, if◌then◌else◌, ◌+◌, ◌-◌, ◌%◌,
  ◌^◌, ◌<◌, ◌≡◌, ◌∷◌,
}

-- The outcome of the checks that processing goes by.
abbrev pub verdict : ServerEnvironment → FixServer → List ℕ → ℕ → Verdict
verdict env sv buffer code =
    if sv.session.settings.validations_enabled
    then validate_fix_message env.timegm (env.seconds sv.tick) (note_received env sv).session
        sv.incoming_fix_message buffer code
    else accepted

-- The session lost its peer, and nothing but its number can have changed the server otherwise.
pub record IsClosed (sv t : FixServer) (peer : ℕ) : Type 0 where
  pub state : t.session.state ≡ disconnected
  pub closed : t.closed ≡ some peer ∷ sv.closed
  pub sent : t.sent ≡ sv.sent
  pub events : t.events ≡ sv.events
  pub peer_gone : get_session t.connectors peer ≡ none
  pub session_gone : peer_of t ≡ none
  pub incoming : incoming_seq_no t.session ≡ incoming_seq_no sv.session
  pub outgoing : outgoing_seq_no t.session ≡ outgoing_seq_no sv.session

pub lost_own-IsClosed : (sv : FixServer) (peer : ℕ) → IsClosed sv (lost_own sv peer) peer
unfolding remove get_session get_peer_index
lost_own-IsClosed sv peer =
    let p = lookup-erase sv.connectors.peer_index_session_table peer peer in
    let s = lookup-erase sv.connectors.session_peer_index_table sv.session_id sv.session_id in
    let pp = eq_self peer in
    let ss = eq_self sv.session_id in
    record {
      state = refl;
      closed = refl;
      sent = refl;
      events = refl;
      peer_gone = ground (arith, p, pp);
      session_gone = ground (arith, s, ss);
      incoming = refl;
      outgoing = refl;
    }

pub closure-lost :
    (env : ServerEnvironment) (sv : FixServer) (peer : ℕ)
    → get_session sv.connectors peer ≡ some sv.session_id
    → process_connection_closure env sv (some peer) false [] ≡ lost_own sv peer
unfolding process_connection_closure close_connection
closure-lost env sv peer own = on_client_disconnected-own sv peer own

pub record IsGap (sv t : FixServer) (expected seq_no : ℕ) : Type 0 where
  pub incoming : incoming_seq_no t.session ≡ incoming_seq_no sv.session
  pub queued : t.session.needs_to_send_resend_request ≡ true
  pub from : t.session.outgoing_resend_request_begin_no ≡ expected
  pub to : t.session.outgoing_resend_request_end_no ≡ seq_no
  pub state : t.session.state ≡ sv.session.state
  pub sent : t.sent ≡ sv.sent
  pub events : t.events ≡ sv.events
  pub connectors : t.connectors ≡ sv.connectors

-- The server when a message's number is looked at.
abbrev pub counted : ServerEnvironment → FixServer → FixServer
counted env sv =
    let t = note_received env sv in
    with_session t
      (record t.session { sequence_store = increment_incoming_seq_no t.session.sequence_store })

pub process_accepted_lem :
    (env : ServerEnvironment) (sv : FixServer) (peer : ℕ) (buffer : List ℕ) (code : ℕ)
    → verdict env sv buffer code ≡ accepted
    → incoming_seq_no sv.session + 1 < 2 ^ 32
    → process_incoming_fix_message env sv peer buffer code
      ≡ process_numbered env
          (counted env sv)
          peer
          (incoming_seq_no sv.session + 1)
          (get_tag_value_as_uint32 sv.incoming_fix_message tag_msg_seq_num)
unfolding process_incoming_fix_message process_verdict process_accepted note_received
    increment_incoming_seq_no
process_accepted_lem env sv peer buffer code v small =
    let w : (incoming_seq_no sv.session + 1) % 2 ^ 32 ≡ incoming_seq_no sv.session + 1 =
      omega arith in
    rw (v, w) refl

numbered-gap :
    (env : ServerEnvironment) (sv : FixServer) (peer expected seq_no : ℕ)
    → is_a_hard_sequence_reset_message sv.incoming_fix_message ≡ false
    → (sv.session.state =state pending_logon) ≡ false
    → expected < seq_no
    → process_numbered env sv peer expected seq_no
      ≡ with_session sv (queue_outgoing_resend_request sv.session expected seq_no)
unfolding process_numbered
numbered-gap env sv peer expected seq_no hard on gap =
    let g : ltb expected seq_no ≡ true = ground arith in rw (hard, on, g) refl

numbered-low :
    (env : ServerEnvironment) (sv : FixServer) (peer expected seq_no : ℕ)
    → is_a_hard_sequence_reset_message sv.incoming_fix_message ≡ false
    → (sv.session.state =state pending_logon) ≡ false
    → seq_no < expected
    → get_session sv.connectors peer ≡ some sv.session_id
    → process_numbered env sv peer expected seq_no
      ≡ lost_own
          (with_session sv (record sv.session {
            sequence_store =
                set_incoming_seq_no sv.session.sequence_store ((expected + 2 ^ 32 - 1) % 2 ^ 32);
          }))
          peer
unfolding process_numbered
numbered-low env sv peer expected seq_no hard on low own =
    let g : ltb expected seq_no ≡ false = ground arith in
    let l : ltb seq_no expected ≡ true = ground arith in
    rw (hard, on, g, l) (closure-lost env _ peer own)

-- A message that passed the checks and is no hard sequence reset is not handed on, once its session is
-- past the logon, unless it has the expected number. With a higher number nothing is sent or reported,
-- the incoming number stays, and a resend of all from the expected number to that one is asked for
-- later. With a lower number the incoming number stays as well, nothing is sent or reported, and the
-- peer and the session lose each other.
pub out_of_sequence_message :
    (env : ServerEnvironment) (sv : FixServer) (peer : ℕ) (buffer : List ℕ) (code : ℕ)
    → verdict env sv buffer code ≡ accepted
    → is_a_hard_sequence_reset_message sv.incoming_fix_message ≡ false
    → (sv.session.state =state pending_logon) ≡ false
    → get_session sv.connectors peer ≡ some sv.session_id
    → incoming_seq_no sv.session + 1 < 2 ^ 32
    → let expected = incoming_seq_no sv.session + 1 in
      let seq_no = get_tag_value_as_uint32 sv.incoming_fix_message tag_msg_seq_num in
      let t = process_incoming_fix_message env sv peer buffer code in
      (expected < seq_no → IsGap sv t expected seq_no) × (seq_no < expected → IsClosed sv t peer)
unfolding queue_outgoing_resend_request set_incoming_seq_no note_received increment_incoming_seq_no
out_of_sequence_message env sv peer buffer code v hard on own small =
    let e = process_accepted_lem env sv peer buffer code v small in
    let back : (incoming_seq_no sv.session + 1 + 2 ^ 32 - 1) % 2 ^ 32 ≡ incoming_seq_no sv.session =
      omega arith in
    let u = counted env sv in
    (
      λ gap.
          rw (e, numbered-gap env u peer _ _ hard on gap)
            (record {
              incoming = back;
              queued = refl;
              from = refl;
              to = refl;
              state = refl;
              sent = refl;
              events = refl;
              connectors = refl;
            }),
      λ low.
          (let c = lost_own-IsClosed u peer in
            rw (e, numbered-low env u peer _ _ hard on low own)
              (record {
                state = refl;
                closed = refl;
                sent = refl;
                events = refl;
                peer_gone = c.peer_gone;
                session_gone = c.session_gone;
                incoming = back;
                outgoing = refl;
              })),
    )
