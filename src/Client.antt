-- ===== src/Client.antt =====
-- include/llfix/fix_client.h: the client's data, `send_bytes` and the abrupt shutdown. What the client
-- reads from outside comes from an environment, one reading for each tick; the throttler's waits, the
-- message persist plugin, the log and the record of incoming messages, which the client only writes,
-- are left out.
pub mod Send
pub mod Dispatch
pub mod Timers
pub mod Shutdown
pub mod Admin
pub mod SendLaws
pub mod SequenceLaws
pub mod AdvanceLaws
pub mod ResendLaws
pub mod TimerLaws
pub mod Silence
pub mod SilentRuns
pub mod AdminLaws
use llfix.Transport.{SendOutcome, is_delivered, is_lost}
use llfix.Common.{ℕ, Bool, true, false, refl, List, ◌≡◌, if◌then◌else◌, ◌+◌, ◌∷◌, ◌&&◌}
use llfix.Message.{IncomingFixMessage}
use llfix.Serialiser.{MessageSerialiser, write}
use llfix.Session.Validate.{Timegm}
use llfix.Session.Record.{FixSession, serialisation_enabled}
use llfix.Session.SequenceStore.{increment_outgoing_seq_no}
use llfix.Session.State.{disconnected, SessionState}

-- The monotonic clock in nanoseconds, the time as text and in seconds, what a send comes to, whether a connection
-- attempt succeeds, the weekday, hour and minute, and the records that the stored files have.
pub record Environment : Type 0 where
  pub nanoseconds_monotonic : ℕ → ℕ
  pub current_time : ℕ → List ℕ
  pub seconds : ℕ → ℕ
  pub timegm : Timegm
  pub send : ℕ → SendOutcome
  pub connect : ℕ → Bool
  pub weekday : ℕ → ℕ
  pub hour : ℕ → ℕ
  pub minute : ℕ → ℕ
  pub stored_records : ℕ → List (ℕ × List ℕ)

-- The calls of the user's functions.
pub data Event : Type 0 where
  on_connection : Event
  on_disconnection : Event
  on_logon_response : Event
  on_logout_response : Event
  on_logon_reject : Event
  on_server_heartbeat : Event
  on_server_test_request : Event
  on_server_resend_request : Event
  on_execution_report : Event
  on_order_cancel_replace_reject : Event
  on_session_level_reject : Event
  on_application_level_reject : Event
  on_custom_message_type : Event

-- `sent` has every buffer that was given to the transport, and whether it went out; the newest of these
-- and of the events stand first.
pub record FixClient : Type 0 where
  pub session : FixSession
  pub incoming_fix_message : IncomingFixMessage
  pub outgoing_messages_serialiser : MessageSerialiser
  pub is_ha_primary : Bool
  pub last_logon_attempt_timestamp : ℕ
  pub connected_to_primary : Bool
  pub connected_to_secondary : Bool
  pub has_secondary_address : Bool
  pub refresh_resend_cache_during_promotion : Bool
  pub tick : ℕ
  pub sent : List (List ℕ × Bool)
  pub events : List Event

abbrev pub notify : FixClient → Event → FixClient
notify c e = record c { events = e ∷ c.events }

abbrev pub on_session : FixClient → (FixSession → FixSession) → FixClient
on_session c f = record c { session = f c.session }

abbrev pub set_client_state : FixClient → SessionState → FixClient
set_client_state c state = record c { session = record c.session { state = state } }

-- One reading of the clock.
abbrev pub now : Environment → FixClient → ℕ
now env c = env.nanoseconds_monotonic c.tick

unfoldable pub on_connection_lost : FixClient → FixClient
on_connection_lost c = record c {
  session = record c.session { state = disconnected };
  connected_to_primary = false;
  connected_to_secondary = false;
  events = on_disconnection ∷ c.events;
}

-- on_connection_lost, where the transport calls it during the send; each field is tested on its own.
abbrev pub after_send : FixClient → Bool → FixClient
after_send c lost = record c {
  session = record c.session { state = if lost then disconnected else c.session.state };
  connected_to_primary = if lost then false else c.connected_to_primary;
  connected_to_secondary = if lost then false else c.connected_to_secondary;
  events = if lost then on_disconnection ∷ c.events else c.events;
}

after_send-lost : (c : FixClient) → after_send c true ≡ on_connection_lost c
unfolding on_connection_lost
after_send-lost c = refl

after_send-kept : (c : FixClient) → after_send c false ≡ c
after_send-kept c = refl

unfoldable pub send_bytes : Environment → Bool → FixClient → List ℕ → FixClient × Bool
send_bytes env increment c buffer =
    let ret = is_delivered (env.send c.tick) in
    let t = after_send c (is_lost (env.send c.tick)) in
    let store =
      if increment && ret
      then increment_outgoing_seq_no t.session.sequence_store
      else t.session.sequence_store in
    (
      record t {
        session = record t.session {
          sequence_store = store;
          last_sent_message_timestamp_nanoseconds = env.nanoseconds_monotonic c.tick;
        };
        outgoing_messages_serialiser =
            if serialisation_enabled t.session
            then write t.outgoing_messages_serialiser buffer store.outgoing_seq_no
            else t.outgoing_messages_serialiser;
        tick = c.tick + 1;
        sent = (buffer, ret) ∷ c.sent;
      },
      ret,
    )

-- do_shutdown(false); closing the socket is left to the transport.
unfoldable pub do_shutdown_abruptly : FixClient → FixClient
unfolding on_connection_lost
do_shutdown_abruptly c = set_client_state (on_connection_lost c) disconnected
