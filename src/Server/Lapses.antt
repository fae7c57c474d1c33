-- ===== src/Server/Lapses.antt =====
-- What include/llfix/fix_server.h does not ask before it acts: whether a session is logged on, and
-- whether it still has a peer.
use llfix.Server.Isolation.{lost_own}
use llfix.Session.Builders.{build_gap_fill_message}
use llfix.Client.Timers.{will_replay, delta}
use llfix.Server.Tables.{IsInverse}
use llfix.Serialiser.{read_message}
use llfix.Server.Connectors.{get_session}
use llfix.Server.Timers.{
  respond_to_resend_request_if_necessary, process_outgoing_test_request_if_necessary,
}
use llfix.Session.State.{◌=state◌, in_retransmission_initiated_by_self, logged_on}
use llfix.Session.SequenceStore.{increment_incoming_seq_no}
use llfix.Constants.{tag_msg_seq_num, tag_msg_type}
use llfix.Message.{get_tag_value_as_uint32, get_tag_value}
use llfix.Session.Record.{incoming_seq_no, outgoing_seq_no}
use llfix.Session.Validate.{accepted}
use llfix.Outgoing.{encode, OutgoingFixMessage}
use llfix.Server.SequenceLaws.{
  verdict, counted, process_accepted_lem, closure-lost, lost_own-IsClosed,
}
use llfix.Server.Send.{
  encode_and_send, resend_message, resend_messages, resend_messages_to_client,
  send_gap_fill_message,
}
use llfix.Server.{
  ServerEnvironment, FixServer, peer_of, send_bytes, on_new_order, disconnected, with_session,
}
use llfix.Server.Dispatch.{
  note_received, msg_type_new_order, process_incoming_fix_message, process_in_sequence,
  process_numbered, finish_resend, process_incoming_throttling, dispatch,
}
use llfix.Common.{
  if-case, zero, suc, ℕ, Bool, false, refl, inl, inr, none, List, [], arith, ltb, Bool-cases, ◌+◌,
  ◌%◌, ◌^◌, ◌<◌, ◌≡◌, ◌∙◌, ◌∷◌, ◌==◌, ◌&&◌, Option, some, true, leb, ◌*◌, ◌-◌, if◌then◌else◌, subst,
  sym,
}

in_sequence-order :
    (env : ServerEnvironment) (sv : FixServer) (peer n : ℕ)
    → get_tag_value sv.incoming_fix_message tag_msg_type ≡ msg_type_new_order ∷ []
    → sv.session.settings.throttle_limit ≡ 0
    → let t = process_in_sequence env sv peer n in
      (t.events ≡ (on_new_order, sv.session_id) ∷ sv.events)
      × (incoming_seq_no t.session ≡ incoming_seq_no sv.session)
unfolding process_in_sequence finish_resend process_incoming_throttling dispatch
in_sequence-order env sv peer n ty free =
    elim (Bool-cases (
      sv.session.state =state in_retransmission_initiated_by_self
      && n == sv.session.outgoing_resend_request_end_no)) [
        | inl h ↦ (rw (h, free, ty) refl, rw (h, free, ty) refl)
        | inr h ↦ (rw (h, free, ty) refl, rw (h, free, ty) refl)
      ]

numbered-expected :
    (env : ServerEnvironment) (sv : FixServer) (peer n : ℕ)
    → process_numbered env sv peer n n ≡ process_in_sequence env sv peer n
unfolding process_numbered
numbered-expected env sv peer n = let g : ltb n n ≡ false = ground arith in rw g refl

-- In every state of its session, pending logon and logged out included, a message that passed the checks, has the expected
-- number and the type of a new order is handed to the user as an order, unless messages are throttled.
pub order-any_state :
    (env : ServerEnvironment) (sv : FixServer) (peer : ℕ) (buffer : List ℕ) (code : ℕ)
    → verdict env sv buffer code ≡ accepted
    → incoming_seq_no sv.session + 1 < 2 ^ 32
    → get_tag_value_as_uint32 sv.incoming_fix_message tag_msg_seq_num
      ≡ incoming_seq_no sv.session + 1
    → get_tag_value sv.incoming_fix_message tag_msg_type ≡ msg_type_new_order ∷ []
    → sv.session.settings.throttle_limit ≡ 0
    → let t = process_incoming_fix_message env sv peer buffer code in
      (t.events ≡ (on_new_order, sv.session_id) ∷ sv.events)
      × (incoming_seq_no t.session ≡ incoming_seq_no sv.session + 1)
unfolding note_received increment_incoming_seq_no
order-any_state env sv peer buffer code v small seq ty free =
    let u = counted env sv in
    let n = incoming_seq_no sv.session + 1 in
    let (told, number) = in_sequence-order env u peer n ty free in
    let w : (incoming_seq_no sv.session + 1) % 2 ^ 32 ≡ n = omega arith in
    let e = process_accepted_lem env sv peer buffer code v small in
    (
      rw (e, seq, numbered-expected env u peer n) told,
      rw (e, seq, numbered-expected env u peer n) (number ∙ w),
    )

-- The connectors of a server that works on a session without a peer.
module _ (env : ServerEnvironment) where
  encode_and_send-connectors :
      (increment : Bool) (sv : FixServer) (m : OutgoingFixMessage) (n : ℕ)
      → peer_of sv ≡ none
      → let t = (encode_and_send env increment sv m n).0 in
        (t.connectors ≡ sv.connectors) × (t.session_id ≡ sv.session_id)
  unfolding encode_and_send encode send_bytes
  encode_and_send-connectors increment sv m n h = (rw (h, send_bytes) refl, rw (h, send_bytes) refl)

  -- Neither the connectors nor the session that is worked on are others.
  abbrev pub IsAlone : FixServer → FixServer → Type 0
  IsAlone sv t = (t.connectors ≡ sv.connectors) × (t.session_id ≡ sv.session_id)

  alone-peer : (sv t : FixServer) → IsAlone sv t → peer_of sv ≡ none → peer_of t ≡ none
  alone-peer sv t (c, i) h = rw (c, i) h

  resend_message-IsAlone :
      (sv : FixServer) (i : ℕ) (o : Option (List ℕ))
      → peer_of sv ≡ none
      → IsAlone sv (resend_message env sv i o)
  unfolding resend_message
  resend_message-IsAlone sv i none h = (refl, refl)
  resend_message-IsAlone sv i (some bytes) h = encode_and_send-connectors false sv _ i h

  resend_messages-IsAlone :
      (rounds : ℕ) (sv : FixServer) (i : ℕ)
      → peer_of sv ≡ none
      → IsAlone sv (resend_messages env rounds sv i)
  unfolding resend_messages
  resend_messages-IsAlone zero sv i h = (refl, refl)
  resend_messages-IsAlone (suc rounds) sv i h =
      let u = resend_message env sv i (read_message sv.outgoing_messages_serialiser i) in
      let (c, d) = resend_message-IsAlone sv i (read_message sv.outgoing_messages_serialiser i) h in
      let (c', d') = resend_messages-IsAlone rounds u (i + 1) (alone-peer sv u (c, d) h) in
      (c' ∙ c, d' ∙ d)

  answer-IsAlone :
      (sv : FixServer)
      → peer_of sv ≡ none
      → sv.session.needs_responding_to_incoming_resend_request ≡ true
      → let t = respond_to_resend_request_if_necessary env sv in
        IsAlone sv t × (t.session.state ≡ logged_on)
  unfolding respond_to_resend_request_if_necessary resend_messages_to_client send_gap_fill_message
  answer-IsAlone sv h due =
      let begin_no = sv.session.incoming_resend_request_begin_no in
      let replayed = resend_messages_to_client env sv begin_no (outgoing_seq_no sv.session) in
      let filled = (send_gap_fill_message env sv).0 in
      let x = if will_replay sv.session sv.outgoing_messages_serialiser then replayed else filled in
      let t = with_session x (record x.session {
        needs_responding_to_incoming_resend_request = false;
        state = logged_on;
      }) in
      let (c, d) =
        if-case (IsAlone sv) (will_replay sv.session sv.outgoing_messages_serialiser) replayed
          filled (resend_messages-IsAlone (outgoing_seq_no sv.session + 1 - begin_no) sv begin_no h)
          (encode_and_send-connectors false sv
            (build_gap_fill_message sv.session sv.session.outgoing_fix_message) begin_no h) in
      subst
        (λ b. IsAlone sv (if b then t else sv) × ((if b then t else sv).session.state ≡ logged_on))
        (sym due) ((c, d), refl)

  -- When the answer to a test request is overdue while a resend request still waits for its answer, the
  -- two timers run one after the other close the connection and then set the session to logged on: it is
  -- live without a peer.
  pub overdue-live :
      (sv : FixServer) (peer now : ℕ)
      → get_session sv.connectors peer ≡ some sv.session_id
      → IsInverse sv.connectors
      → sv.session.expecting_response_for_outgoing_test_request ≡ true
      → leb
          (sv.session.settings.heartbeat_interval_in_nanoseconds * 2 % 2 ^ 64)
          (delta now sv.session.outgoing_test_request_timestamp_nanoseconds)
        ≡ true
      → sv.session.needs_responding_to_incoming_resend_request ≡ true
      → let closed = process_outgoing_test_request_if_necessary env sv now in
        let t = respond_to_resend_request_if_necessary env closed in
        (closed.session.state ≡ disconnected) × (t.session.state ≡ logged_on) × (peer_of t ≡ none)
  unfolding process_outgoing_test_request_if_necessary
  overdue-live sv peer now own inv expecting overdue due =
      let sv' =
        with_session sv
          (record sv.session { expecting_response_for_outgoing_test_request = false }) in
      let u = lost_own sv' peer in
      let there = inv.there peer sv.session_id own in
      let e : process_outgoing_test_request_if_necessary env sv now ≡ u =
        rw (expecting, overdue, there) (closure-lost env sv' peer own) in
      let gone = (lost_own-IsClosed sv' peer).session_gone in
      let (alone, on) = answer-IsAlone u gone due in
      rw e (refl, on, alone-peer u (respond_to_resend_request_if_necessary env u) alone gone)
