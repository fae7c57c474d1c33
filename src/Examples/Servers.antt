-- ===== src/Examples/Servers.antt =====
-- A server with two sessions at concrete inputs: a peer serves the first, the second has none.
mod Logons
mod Sequences
use llfix.Server.OneSession.{process_one-Isolated}
use llfix.Server.Steps.{Reachable-IsInverse, next, here, lost, processed}
use llfix.Client.Admin.{disable_session_command}
use llfix.Server.ReceiveIsolation.{AllBut, process_rx_buffer-Only, IsGuarded}
use llfix.Server.Admin.{process, process_one}
use llfix.Examples.Parsers.{specs}
use llfix.Examples.Sessions.{timegm, session, empty_message}
use llfix.Session.State.{◌=state◌, disconnected}
use llfix.Server.Isolation.{Isolated}
use llfix.Server.Tables.{IsInverse}
use llfix.Server.Connectors.{get_session, lookup, get_peer_index}
use llfix.Throttler.{Throttler}
use llfix.Serialiser.{MessageSerialiser}
use llfix.Session.Record.{FixSession}
use llfix.Server.{
  ServerEnvironment, Served, FixServer, delivered, on_client_disconnected, connection_lost,
}
use llfix.Server.Receive.{process_rx_buffer}
use llfix.Common.{
  ℕ, true, false, refl, none, some, [], arith, if◌then◌else◌, ◌+◌, ◌*◌, ◌%◌, ◌^◌, ◌≡◌, ◌⊎◌, ◌∷◌,
  ◌==◌, ◌&&◌,
}

abbrev pub server_env : ServerEnvironment
server_env = record {
  nanoseconds_monotonic = λ n. 100000000000 + n;
  current_time = λ n. b'T' ∷ [];
  seconds = λ n. n;
  timegm = timegm;
  send = λ n. if n == 0 then delivered else connection_lost;
  weekday = λ n. 1;
  hour = λ n. 12;
  minute = λ n. 0;
  stored_records = λ n. [];
  authenticate_logon_request = λ s m. true;
}

-- Without validations every message is accepted.
abbrev pub served_session : FixSession
served_session = record session {
  settings = record session.settings { validations_enabled = false };
}

abbrev served_serialiser : MessageSerialiser
served_serialiser = record { keep_message_records_in_memory = true; message_memory_records = [] }

abbrev free_throttler : Throttler
free_throttler = record {
  event_times = record { buffer = []; capacity = 0; index = 0 };
  limit = 0;
  window_in_nanoseconds = 1000;
  wait_time_nano_seconds = 0;
  latest_event_time_index = 0;
}

abbrev pub second : Served
second = record {
  session = record served_session {
    state = disconnected;
    settings = record served_session.settings { sender_comp_id = b'B' ∷ [] };
  };
  incoming_fix_message = empty_message;
  outgoing_messages_serialiser = served_serialiser;
  throttler = free_throttler;
}

-- Peer 7 serves the session 1.
abbrev pub server : FixServer
server = record {
  session_id = 1;
  session = served_session;
  incoming_fix_message = empty_message;
  outgoing_messages_serialiser = served_serialiser;
  throttler = free_throttler;
  stored = λ k. second;
  sessions = 1 ∷ 2 ∷ [];
  unknown_fix_message = empty_message;
  connectors = record {
    peer_index_session_table = (7, 1) ∷ [];
    session_peer_index_table = (1, 7) ∷ [];
  };
  is_ha_primary = true;
  refresh_resend_cache_during_promotion = false;
  tick = 0;
  sent = [];
  closed = [];
  events = [];
}

pub served : get_session server.connectors 7 ≡ some 1
unfolding get_session lookup
served = refl

pub unserved : get_session server.connectors 8 ≡ none
unfolding get_session lookup
unserved = refl

pub server-IsInverse : IsInverse server.connectors
unfolding get_session get_peer_index lookup
server-IsInverse = record { there = λ p s h. ground (arith, h); back = λ p s h. ground (arith, h) }

process_rx_buffer-Only_example :
    let t = (process_rx_buffer server_env specs server 7 (b'8' ∷ b'=' ∷ b'F' ∷ 1 ∷ [])).0 in
    IsInverse t.connectors
    × AllBut server t t.session_id
    × (get_session server.connectors 7 ≡ none → IsGuarded server_env server t)
    × ((k : ℕ) → get_session server.connectors 7 ≡ some k → AllBut server t k)
process_rx_buffer-Only_example =
    process_rx_buffer-Only server_env specs server 7 (b'8' ∷ b'=' ∷ b'F' ∷ 1 ∷ []) server-IsInverse

-- The peer is lost, and the server stops.
Reachable-IsInverse_example :
    IsInverse (process server_env true (on_client_disconnected server 7) (λ k. none)).connectors
Reachable-IsInverse_example =
    Reachable-IsInverse server_env specs server
      (process server_env true (on_client_disconnected server 7) (λ k. none)) server-IsInverse
      (next (next here (lost 7)) (processed true (λ k. none)))

process_one-Isolated_example :
    Isolated server (process_one server_env server (some disable_session_command))
process_one-Isolated_example =
    process_one-Isolated server_env server (some disable_session_command) server-IsInverse
