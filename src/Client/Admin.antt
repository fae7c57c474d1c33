-- ===== src/Client/Admin.antt =====
-- Connecting, admin commands, the schedule and `process` of include/llfix/fix_client.h, with
-- include/llfix/electronic_trading/managed_instance/modifying_admin_command.h.
use llfix.Common.{
  ℕ, Bool, true, false, not, Option, none, some, List, ltb, if◌then◌else◌, ◌+◌, ◌==◌, ◌&&◌, ◌||◌,
}
use llfix.Client.{FixClient, Environment, notify, set_client_state, disconnected, on_connection}
use llfix.Client.Send.{send_logon_request, send_sequence_reset_message}
use llfix.Client.Shutdown.{Arrival, process_incoming_messages, do_shutdown}
use llfix.Client.Timers.{
  process_outgoing_logon_request, send_client_heartbeat_if_necessary,
  process_outgoing_test_request_if_necessary, process_outgoing_resend_request_if_necessary,
  respond_to_test_request_if_necessary, respond_to_resend_request_if_necessary,
}
use llfix.Session.State.{
  ◌=state◌, rank, is_state_live, disabled, logged_on, pending_logon, pending_connection,
}
use llfix.Session.Schedule.{is_now_valid_datetime}
use llfix.Session.Record.{reset_flags}
use llfix.Session.SequenceStore.{set_incoming_seq_no, set_outgoing_seq_no}

pub data ModifyingAdminCommand : Type 0 where
  set_incoming_sequence_number : ℕ → ModifyingAdminCommand
  set_outgoing_sequence_number : ℕ → ModifyingAdminCommand
  send_sequence_reset : ℕ → ModifyingAdminCommand
  enable_session_command : ModifyingAdminCommand
  disable_session_command : ModifyingAdminCommand
  set_is_ha_primary_instance : ℕ → ModifyingAdminCommand

abbrev pub is_now_valid : Environment → FixClient → Bool
is_now_valid env c =
    is_now_valid_datetime c.session.schedule_validator (env.weekday c.tick) (env.hour c.tick)
      (env.minute c.tick)

unfoldable pub disable_session : Environment → FixClient → List (List Arrival) → FixClient
disable_session env c arrivals =
    set_client_state (if is_state_live c.session.state then do_shutdown env c true arrivals else c)
      disabled

unfoldable pub enable_session : Environment → FixClient → FixClient
enable_session env c =
    if c.session.state =state disabled
    then record c {
      session = record c.session { state = disconnected };
      outgoing_messages_serialiser =
          if c.refresh_resend_cache_during_promotion
          then record c.outgoing_messages_serialiser {
            message_memory_records = env.stored_records c.tick;
          }
          else c.outgoing_messages_serialiser;
    }
    else c

-- The command that was taken from the queue, if there was one.
unfoldable pub process_admin_command :
    Environment → FixClient → List (List Arrival) → Option ModifyingAdminCommand → FixClient
process_admin_command env c arrivals none = c
process_admin_command env c arrivals (some (set_incoming_sequence_number arg)) = record c {
  session = record c.session { sequence_store = set_incoming_seq_no c.session.sequence_store arg };
}
process_admin_command env c arrivals (some (set_outgoing_sequence_number arg)) = record c {
  session = record c.session { sequence_store = set_outgoing_seq_no c.session.sequence_store arg };
}
process_admin_command env c arrivals (some (send_sequence_reset arg)) =
    if c.session.state =state logged_on then (send_sequence_reset_message env c arg).0 else c
process_admin_command env c arrivals (some disable_session_command) = disable_session env c arrivals
process_admin_command env c arrivals (some enable_session_command) =
    if c.is_ha_primary then enable_session env c else c
process_admin_command env c arrivals (some (set_is_ha_primary_instance arg)) =
    if arg == 1
    then enable_session env (record c { is_ha_primary = true })
    else disable_session env (record c { is_ha_primary = false }) arrivals

unfoldable pub process_schedule_validator :
    Environment → FixClient → List (List Arrival) → FixClient
process_schedule_validator env c arrivals =
    if not (is_now_valid env c) then do_shutdown env c true arrivals else c

-- A step that reads the clock.
abbrev pub timed : Environment → (FixClient → ℕ → FixClient) → FixClient → FixClient
timed env f c = f (record c { tick = c.tick + 1 }) (env.nanoseconds_monotonic c.tick)

unfoldable pub process_live : Environment → FixClient → List (List Arrival) → FixClient
process_live env c arrivals =
    let t₁ = timed env (process_outgoing_resend_request_if_necessary env) c in
    let t₂ = timed env (process_outgoing_test_request_if_necessary env) t₁ in
    let t₃ = respond_to_resend_request_if_necessary env t₂ in
    let t₄ = respond_to_test_request_if_necessary env t₃ in
    let t₅ = timed env (send_client_heartbeat_if_necessary env) t₄ in
    process_schedule_validator env t₅ arrivals

-- The state that decides is read before the messages and the command are processed.
unfoldable pub process :
    Environment
    → FixClient
    → List Arrival
    → Option ModifyingAdminCommand
    → List (List Arrival)
    → List (List Arrival)
    → FixClient
process env c arrivals command command_arrivals schedule_arrivals =
    let session_state = c.session.state in
    let t =
      if ltb (rank disconnected) (rank session_state)
      then process_incoming_messages env c arrivals
      else c in
    let t₁ = process_admin_command env t command_arrivals command in
    if is_state_live session_state
    then process_live env t₁ schedule_arrivals
    else if session_state =state pending_logon
    then timed env process_outgoing_logon_request t₁
    else t₁

unfoldable pub connected : Environment → FixClient → FixClient × Bool
connected env c =
    let t = record c {
      session = record c.session {
        last_received_message_timestamp_nanoseconds = env.nanoseconds_monotonic c.tick;
        state = pending_logon;
      };
      last_logon_attempt_timestamp = env.nanoseconds_monotonic (c.tick + 1);
      tick = c.tick + 2;
    } in
    send_logon_request env (notify t on_connection)

-- The first attempt goes to the primary address, the second one to the secondary if it is set.
unfoldable pub connect : Environment → FixClient → FixClient × Bool
connect env c =
    if c.session.state =state disabled
    then (c, false)
    else if not (is_now_valid env c)
    then (c, false)
    else (let primary = env.connect c.tick in
        let secondary = not primary && (c.has_secondary_address && env.connect (c.tick + 1)) in
        let t = record c {
          session = reset_flags (record c.session { state = pending_connection });
          connected_to_primary = primary;
          connected_to_secondary =
              if not primary && c.has_secondary_address
              then secondary
              else c.connected_to_secondary;
          tick = c.tick + 2;
        } in
        if primary || secondary then connected env t else (set_client_state t disconnected, false))
