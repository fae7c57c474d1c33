-- ===== src/Server/SendLaws.antt =====
-- What a send of include/llfix/fix_server.h changes in the session.
use llfix.Server.Isolation.{on_client_disconnected-own}
use llfix.Server.Connectors.{get_session}
use llfix.Server.Tables.{IsInverse}
use llfix.Session.Record.{outgoing_seq_no, incoming_seq_no}
use llfix.Outgoing.{OutgoingFixMessage, encode_bytes, encode}
use llfix.Server.Send.{send_outgoing_message, encode_and_send}
use llfix.Server.{
  SendOutcome, ServerEnvironment, FixServer, send_to_peer, SessionState, is_delivered,
  increment_outgoing_seq_no, disconnected, send_bytes, delivered, undelivered, peer_of,
  connection_lost, with_session,
}
use llfix.Session.SequenceStore.{increment_outgoing_seq_no}
use mathlib.Core.Option
use llfix.Common.{
  ℕ, true, false, refl, inl, inr, none, some, List, if◌then◌else◌, Option-cases, ◌+◌, ◌%◌, ◌^◌, ◌≡◌,
  ◌⊎◌, ◌∷◌, sym, ◌∙◌, subst,
}

abbrev pub state_after : SendOutcome → SessionState → SessionState
state_after delivered state = state
state_after undelivered state = state
state_after connection_lost state = disconnected

unfoldable pub sent_bytes : ServerEnvironment → FixServer → OutgoingFixMessage → ℕ → List ℕ
sent_bytes env sv m sequence_no =
    encode_bytes sv.session.settings (incoming_seq_no sv.session) m (env.current_time sv.tick)
      sequence_no

-- One buffer went to the peer, with this outcome.
pub record IsSent (sv t : FixServer) (peer : ℕ) (bytes : List ℕ) (o : SendOutcome) : Type 0 where
  pub sent : t.sent ≡ (peer, bytes, is_delivered o) ∷ sv.sent
  pub outgoing : outgoing_seq_no t.session ≡ (
      if is_delivered o
      then (outgoing_seq_no sv.session + 1) % 2 ^ 32
      else outgoing_seq_no sv.session)
  pub incoming : incoming_seq_no t.session ≡ incoming_seq_no sv.session
  pub state : t.session.state ≡ state_after o sv.session.state
  pub settings : t.session.settings ≡ sv.session.settings
  pub events : t.events ≡ sv.events
  pub message : t.incoming_fix_message ≡ sv.incoming_fix_message
  pub id : t.session_id ≡ sv.session_id

-- Nothing was sent.
pub record IsUnsent (sv t : FixServer) : Type 0 where
  pub sent : t.sent ≡ sv.sent
  pub outgoing : outgoing_seq_no t.session ≡ outgoing_seq_no sv.session
  pub incoming : incoming_seq_no t.session ≡ incoming_seq_no sv.session
  pub state : t.session.state ≡ sv.session.state
  pub settings : t.session.settings ≡ sv.session.settings
  pub events : t.events ≡ sv.events
  pub message : t.incoming_fix_message ≡ sv.incoming_fix_message
  pub id : t.session_id ≡ sv.session_id

send_to_peer-IsSent :
    (env : ServerEnvironment) (sv : FixServer) (bytes : List ℕ) (peer : ℕ) (o : SendOutcome)
    → get_session sv.connectors peer ≡ some sv.session_id
    → env.send sv.tick ≡ o
    → let r = send_to_peer env true sv bytes peer in
      IsSent sv r.0 peer bytes o × (r.1 ≡ is_delivered o)
unfolding send_to_peer increment_outgoing_seq_no
send_to_peer-IsSent env sv bytes peer delivered own e = (
  rw e (record {
    sent = refl;
    outgoing = refl;
    incoming = refl;
    state = refl;
    settings = refl;
    events = refl;
    message = refl;
    id = refl;
  }),
  rw e refl,
)
send_to_peer-IsSent env sv bytes peer undelivered own e = (
  rw e (record {
    sent = refl;
    outgoing = refl;
    incoming = refl;
    state = refl;
    settings = refl;
    events = refl;
    message = refl;
    id = refl;
  }),
  rw e refl,
)
send_to_peer-IsSent env sv bytes peer connection_lost own e =
    let lost = on_client_disconnected-own sv peer own in
    (
      rw (e, lost)
          (record {
            sent = refl;
            outgoing = refl;
            incoming = refl;
            state = refl;
            settings = refl;
            events = refl;
            message = refl;
            id = refl;
          }),
      rw e refl,
    )

-- A message of a session without a peer is not sent: the sequence numbers, the state and the record of
-- what was sent stay. Where a peer serves the session, one encoding of the message, with the next
-- outgoing number, goes to that peer alone; the outgoing number is counted exactly if it was delivered,
-- and where the connection was lost the session is disconnected.
pub send_outgoing_message-IsSent :
    (env : ServerEnvironment) (sv : FixServer) (m : OutgoingFixMessage)
    → IsInverse sv.connectors
    → let (t, ok) = send_outgoing_message env sv m in
      let bytes = sent_bytes env sv m ((outgoing_seq_no sv.session + 1) % 2 ^ 32) in
      ((peer_of sv ≡ none) × (ok ≡ false) × IsUnsent sv t)
      ⊎ ((p : ℕ) × (peer_of sv ≡ some p)
          × (ok ≡ is_delivered (env.send sv.tick))
          × IsSent sv t p bytes (env.send sv.tick))
unfolding send_outgoing_message encode_and_send encode send_bytes sent_bytes
send_outgoing_message-IsSent env sv m inv = elim (Option-cases (peer_of sv)) [
  | inl h ↦ inl (
    h,
    rw (h, send_bytes) refl,
    rw (h, send_bytes)
        (record {
          sent = refl;
          outgoing = refl;
          incoming = refl;
          state = refl;
          settings = refl;
          events = refl;
          message = refl;
          id = refl;
        }),
  )
  | inr (p, h) ↦
      (let bytes = sent_bytes env sv m ((outgoing_seq_no sv.session + 1) % 2 ^ 32) in
        let e =
          encode sv.session.settings (incoming_seq_no sv.session) m (env.current_time sv.tick)
            ((outgoing_seq_no sv.session + 1) % 2 ^ 32) in
        let u = with_session sv (record sv.session { outgoing_fix_message = e.0 }) in
        let (i, ok) = send_to_peer-IsSent env u bytes p _ (inv.back p sv.session_id h) refl in
        inr (
          p,
          h,
          rw (h, send_bytes) ok,
          rw (h, send_bytes)
              (record {
                sent = i.sent;
                outgoing = i.outgoing;
                incoming = i.incoming;
                state = i.state;
                settings = i.settings;
                events = i.events;
                message = i.message;
                id = i.id;
              }),
        ))
]

-- A session that a peer serves sends to that peer.
pub served-IsSent :
    (env : ServerEnvironment) (sv : FixServer) (m : OutgoingFixMessage) (peer : ℕ)
    → IsInverse sv.connectors
    → get_session sv.connectors peer ≡ some sv.session_id
    → (bytes : List ℕ) × IsSent sv
        ((send_outgoing_message env sv m).0)
        peer
        bytes
        (env.send sv.tick)
served-IsSent env sv m peer inv own =
    let bytes = sent_bytes env sv m ((outgoing_seq_no sv.session + 1) % 2 ^ 32) in
    let there = inv.there peer sv.session_id own in
    elim (send_outgoing_message-IsSent env sv m inv) [
      | inl (h, ok, unsent) ↦ elim (Option.none-ne-some peer (sym h ∙ there)) [ ]
      | inr (p, h, ok, i) ↦
          (let same : p ≡ peer = Option.some-injective p peer (sym h ∙ there) in
            (
              bytes,
              subst (λ q. IsSent sv ((send_outgoing_message env sv m).0) q bytes (env.send sv.tick))
                  same i,
            ))
    ]
