-- ===== src/Client/Shutdown.antt =====
-- What arrives at include/llfix/fix_client.h, and do_shutdown(true), which waits for a logout.
use llfix.Common.{ℕ, Bool, true, false, List, [], if◌then◌else◌, ◌∷◌, ◌&&◌, ◌||◌}
use llfix.Client.{FixClient, Environment, on_connection_lost, set_client_state, disconnected}
use llfix.Client.Send.{send_logout_request}
use llfix.Client.Dispatch.{process_incoming_fix_message}
use llfix.Message.{IncomingFixMessage}
use llfix.Session.State.{◌=state◌, pending_logout, logged_on}

-- A message of the parser with its bytes and its code, or the loss of the connection.
pub data Arrival : Type 0 where
  message : IncomingFixMessage → List ℕ → ℕ → Arrival
  lost : Arrival

unfoldable pub arrive : Environment → FixClient → Arrival → FixClient
arrive env c (message m bytes code) = process_incoming_fix_message env c m bytes code
arrive env c lost = on_connection_lost c

-- process_incoming_messages: the rest of a buffer is dropped once the client is disconnected.
unfoldable pub process_incoming_messages : Environment → FixClient → List Arrival → FixClient
process_incoming_messages env c [] = c
process_incoming_messages env c (a ∷ arrivals) =
    let t = arrive env c a in
    elim (t.session.state =state disconnected) [
      | true ↦ t
      | false ↦ process_incoming_messages env t arrivals
    ]

-- The loop that waits, on what each call of process_incoming_messages finds until the timeout.
unfoldable pub await_logout_response : Environment → FixClient → List (List Arrival) → FixClient
await_logout_response env c [] = c
await_logout_response env c (arrivals ∷ later) =
    let t = process_incoming_messages env c arrivals in
    elim (t.session.received_logout_response || t.session.state =state disconnected) [
      | true ↦ t
      | false ↦ await_logout_response env t later
    ]

unfoldable pub log_out : Environment → FixClient → List (List Arrival) → FixClient
log_out env c arrivals =
    let t =
      (send_logout_request env
        (record c { session = record c.session { received_logout_response = false } })).0 in
    await_logout_response env (set_client_state t pending_logout) arrivals

unfoldable pub do_shutdown : Environment → FixClient → Bool → List (List Arrival) → FixClient
do_shutdown env c graceful_shutdown arrivals =
    let t = on_connection_lost c in
    set_client_state
      (if graceful_shutdown && c.session.state =state logged_on then log_out env t arrivals else t)
      disconnected
