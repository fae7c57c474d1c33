-- ===== src/Server.antt =====
-- include/llfix/fix_server.h: the server's data, its sessions, `send_bytes` and the closing of
-- connections. A session's address is a number. The session that is worked on stands in fields of its
-- own, and `stored` has the others. What the server reads from outside comes from an environment, one
-- reading for each tick. The log, the persist plugin, the record of incoming messages and the locks,
-- which the server only writes or takes, are left out, and so is the dispatch to worker threads.
pub mod Connectors
pub mod Tables
pub mod Send
pub mod Logon
pub mod Dispatch
pub mod Timers
pub mod Admin
pub mod Receive
pub mod Isolation
pub mod SendIsolation
pub mod WorkIsolation
pub mod OneSession
pub mod Acceptance
pub mod Accepted
pub mod MessageIsolation
pub mod Only
pub mod ReceiveIsolation
pub mod Runs
pub mod Steps
pub mod SendLaws
pub mod LogonLaws
pub mod SequenceLaws
pub mod Lapses
pub use llfix.Transport.{SendOutcome, delivered, undelivered, connection_lost, is_delivered}
use llfix.Throttler.{Throttler}
use llfix.Serialiser.{MessageSerialiser, write}
use llfix.Message.{IncomingFixMessage}
use llfix.Session.SequenceStore.{increment_outgoing_seq_no}
use llfix.Server.Connectors.{get_peer_index, get_session, remove, FixServerConnectors}
use llfix.Session.State.{SessionState, disconnected}
use llfix.Session.Record.{FixSession, serialisation_enabled}
use llfix.Session.Validate.{Timegm}
use llfix.Common.{
  ℕ, Bool, true, false, Option, none, some, List, if◌then◌else◌, ◌+◌, ◌∷◌, ◌==◌, ◌&&◌,
}

pub record ServerEnvironment : Type 0 where
  pub nanoseconds_monotonic : ℕ → ℕ
  pub current_time : ℕ → List ℕ
  pub seconds : ℕ → ℕ
  pub timegm : Timegm
  pub send : ℕ → SendOutcome
  pub weekday : ℕ → ℕ
  pub hour : ℕ → ℕ
  pub minute : ℕ → ℕ
  pub stored_records : ℕ → List (ℕ × List ℕ)
  pub authenticate_logon_request : FixSession → IncomingFixMessage → Bool

-- The calls of the user's functions.
pub data ServerEvent : Type 0 where
  on_new_order : ServerEvent
  on_cancel_order : ServerEvent
  on_replace_order : ServerEvent
  on_application_level_reject : ServerEvent
  on_session_level_reject : ServerEvent
  on_custom_message : ServerEvent
  on_logon_request : ServerEvent
  on_logout_request : ServerEvent
  on_client_resend_request : ServerEvent
  on_client_test_request : ServerEvent
  on_client_heartbeat : ServerEvent

-- What is kept for each session.
pub record Served : Type 0 where
  pub session : FixSession
  pub incoming_fix_message : IncomingFixMessage
  pub outgoing_messages_serialiser : MessageSerialiser
  pub throttler : Throttler

-- `unknown_fix_message` is the message of the context for peers without a session. `sent` has every buffer that was given to the transport, with the peer and whether it went out,
-- `closed` every connector that was closed, where none is the index -1, which lies outside of the
-- connectors; the newest of these and of the events, each with its session, stand first.
pub record FixServer : Type 0 where
  pub session_id : ℕ
  pub session : FixSession
  pub incoming_fix_message : IncomingFixMessage
  pub outgoing_messages_serialiser : MessageSerialiser
  pub throttler : Throttler
  pub stored : ℕ → Served
  pub sessions : List ℕ
  pub unknown_fix_message : IncomingFixMessage
  pub connectors : FixServerConnectors
  pub is_ha_primary : Bool
  pub refresh_resend_cache_during_promotion : Bool
  pub tick : ℕ
  pub sent : List (ℕ × List ℕ × Bool)
  pub closed : List (Option ℕ)
  pub events : List (ServerEvent × ℕ)

abbrev pub current : FixServer → Served
current sv = record {
  session = sv.session;
  incoming_fix_message = sv.incoming_fix_message;
  outgoing_messages_serialiser = sv.outgoing_messages_serialiser;
  throttler = sv.throttler;
}

-- The session of an address.
unfoldable pub session_at : FixServer → ℕ → Served
session_at sv k = if k == sv.session_id then current sv else sv.stored k

-- To work on the session of an address.
unfoldable pub focus : FixServer → ℕ → FixServer
unfolding session_at
focus sv k =
    let next = session_at sv k in
    record sv {
      session_id = k;
      session = next.session;
      incoming_fix_message = next.incoming_fix_message;
      outgoing_messages_serialiser = next.outgoing_messages_serialiser;
      throttler = next.throttler;
      stored = λ j. session_at sv j;
    }

abbrev pub with_session : FixServer → FixSession → FixServer
with_session sv s = record sv { session = s }

abbrev pub set_server_state : FixServer → SessionState → FixServer
set_server_state sv state = record sv { session = record sv.session { state = state } }

abbrev pub raise : FixServer → ServerEvent → FixServer
raise sv e = record sv { events = (e, sv.session_id) ∷ sv.events }

abbrev pub peer_of : FixServer → Option ℕ
peer_of sv = get_peer_index sv.connectors sv.session_id

abbrev pub disconnected_session : Served → Served
disconnected_session s = record s { session = record s.session { state = disconnected } }

-- on_client_disconnected of a session.
unfoldable pub disconnect_session : FixServer → ℕ → FixServer
disconnect_session sv k =
    if k == sv.session_id then set_server_state sv disconnected else record sv {
      stored = λ j. if j == k then disconnected_session (sv.stored j) else sv.stored j;
    }

-- on_client_disconnected of a peer; closing the socket is left to the transport.
unfoldable pub on_client_disconnected : FixServer → ℕ → FixServer
on_client_disconnected sv peer_index =
    let t = record sv { closed = some peer_index ∷ sv.closed } in
    elim (get_session sv.connectors peer_index) [
      | none ↦ t
      | some k ↦
          (let u = disconnect_session t k in
            record u { connectors = remove u.connectors peer_index k })
    ]

-- close_connection of the transport. The index -1 reads outside of the connectors, which the source does
-- not define.
unfoldable pub close_connection : FixServer → Option ℕ → FixServer
close_connection sv none = record sv { closed = none ∷ sv.closed }
close_connection sv (some peer_index) = on_client_disconnected sv peer_index

abbrev pub after_send : FixServer → ℕ → SendOutcome → FixServer
after_send sv peer_index delivered = sv
after_send sv peer_index undelivered = sv
after_send sv peer_index connection_lost = on_client_disconnected sv peer_index

-- send_bytes with the peer that it found.
unfoldable pub send_to_peer : ServerEnvironment → Bool → FixServer → List ℕ → ℕ → FixServer × Bool
send_to_peer env increment sv buffer peer_index =
    let ret = is_delivered (env.send sv.tick) in
    let t = after_send sv peer_index (env.send sv.tick) in
    let store =
      if increment && ret
      then increment_outgoing_seq_no t.session.sequence_store
      else t.session.sequence_store in
    (
      record t {
        session = record t.session {
          sequence_store = store;
          last_sent_message_timestamp_nanoseconds = env.nanoseconds_monotonic sv.tick;
        };
        outgoing_messages_serialiser =
            if serialisation_enabled t.session
            then write t.outgoing_messages_serialiser buffer store.outgoing_seq_no
            else t.outgoing_messages_serialiser;
        tick = sv.tick + 1;
        sent = (peer_index, buffer, ret) ∷ sv.sent;
      },
      ret,
    )

unfoldable pub send_bytes : ServerEnvironment → Bool → FixServer → List ℕ → FixServer × Bool
unfolding send_to_peer
send_bytes env increment sv buffer = elim (peer_of sv) [
  | none ↦ (sv, false)
  | some peer_index ↦ send_to_peer env increment sv buffer peer_index
]
