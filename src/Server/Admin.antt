-- ===== src/Server/Admin.antt =====
-- Admin commands, the schedule and `process` of include/llfix/fix_server.h.
use llfix.Session.SequenceStore.{set_incoming_seq_no, set_outgoing_seq_no}
use llfix.Server.Send.{process_connection_closure, send_logout_message, send_sequence_reset_message}
use llfix.Server.Timers.{
  process_outgoing_resend_request_if_necessary, process_outgoing_test_request_if_necessary,
  respond_to_resend_request_if_necessary, respond_to_test_request_if_necessary,
  send_heartbeat_if_necessary,
}
use llfix.Server.Logon.{is_now_valid}
use llfix.Client.Admin.{
  ModifyingAdminCommand, set_incoming_sequence_number, set_outgoing_sequence_number,
  send_sequence_reset, set_is_ha_primary_instance, disable_session_command, enable_session_command,
}
use llfix.Session.State.{◌=state◌, is_state_live, disabled, logged_on}
use llfix.Server.{
  ServerEnvironment, FixServer, set_server_state, focus, disconnected, peer_of, with_session,
}
use llfix.Common.{
  ℕ, Bool, true, false, not, Option, none, some, List, [], if◌then◌else◌, ◌+◌, ◌∷◌, ◌==◌,
}

unfoldable pub disable_session : ServerEnvironment → FixServer → FixServer
disable_session env sv =
    set_server_state
      (if is_state_live sv.session.state
        then process_connection_closure env sv (peer_of sv) true []
        else sv)
      disabled

unfoldable pub enable_session : ServerEnvironment → FixServer → FixServer
enable_session env sv =
    if sv.session.state =state disabled
    then record sv {
      session = record sv.session { state = disconnected };
      outgoing_messages_serialiser =
          if sv.refresh_resend_cache_during_promotion
          then record sv.outgoing_messages_serialiser {
            message_memory_records = env.stored_records sv.tick;
          }
          else sv.outgoing_messages_serialiser;
    }
    else sv

-- The command that was taken from the session's queue, if there was one.
unfoldable pub process_admin_command :
    ServerEnvironment → FixServer → Option ModifyingAdminCommand → FixServer
process_admin_command env sv none = sv
process_admin_command env sv (some (set_incoming_sequence_number arg)) =
    with_session sv
      (record sv.session { sequence_store = set_incoming_seq_no sv.session.sequence_store arg })
process_admin_command env sv (some (set_outgoing_sequence_number arg)) =
    with_session sv
      (record sv.session { sequence_store = set_outgoing_seq_no sv.session.sequence_store arg })
process_admin_command env sv (some (send_sequence_reset arg)) =
    if sv.session.state =state logged_on then (send_sequence_reset_message env sv arg).0 else sv
process_admin_command env sv (some disable_session_command) = disable_session env sv
process_admin_command env sv (some enable_session_command) =
    if sv.is_ha_primary then enable_session env sv else sv
process_admin_command env sv (some (set_is_ha_primary_instance arg)) =
    if arg == 1
    then enable_session env (record sv { is_ha_primary = true })
    else disable_session env (record sv { is_ha_primary = false })

unfoldable pub process_schedule_validator : ServerEnvironment → FixServer → FixServer
process_schedule_validator env sv =
    if not (is_now_valid env sv sv.session)
    then process_connection_closure env sv (peer_of sv) true []
    else sv

-- A step that reads the clock.
abbrev pub timed : ServerEnvironment → (FixServer → ℕ → FixServer) → FixServer → FixServer
timed env f sv = f (record sv { tick = sv.tick + 1 }) (env.nanoseconds_monotonic sv.tick)

unfoldable pub process_live : ServerEnvironment → FixServer → FixServer
process_live env sv =
    let t₁ = timed env (process_outgoing_resend_request_if_necessary env) sv in
    let t₂ = timed env (process_outgoing_test_request_if_necessary env) t₁ in
    let t₃ = respond_to_resend_request_if_necessary env t₂ in
    let t₄ = respond_to_test_request_if_necessary env t₃ in
    let t₅ = timed env (send_heartbeat_if_necessary env) t₄ in process_schedule_validator env t₅

-- The work on one session; the state is read after the command.
unfoldable pub process_one :
    ServerEnvironment → FixServer → Option ModifyingAdminCommand → FixServer
process_one env sv command =
    let t = process_admin_command env sv command in
    if is_state_live t.session.state then process_live env t else t

-- process_session, of a server with worker threads.
unfoldable pub process_session :
    ServerEnvironment → Bool → FixServer → Option ModifyingAdminCommand → FixServer
process_session env is_stopping sv command =
    if not is_stopping
    then process_one env sv command
    else set_server_state ((send_logout_message env sv []).0) disconnected

-- send_logout_messages_to_all_sessions.
unfoldable pub send_logout_messages : ServerEnvironment → FixServer → List ℕ → FixServer
send_logout_messages env sv [] = sv
send_logout_messages env sv (k ∷ ks) =
    let t = focus sv k in
    send_logout_messages env
      (if not (t.session.state =state disconnected)
        then set_server_state ((send_logout_message env t []).0) disconnected
        else t)
      ks

-- The loop of `process` over the sessions, each with the command at the head of its queue.
unfoldable pub process_sessions :
    ServerEnvironment → FixServer → (ℕ → Option ModifyingAdminCommand) → List ℕ → FixServer
process_sessions env sv commands [] = sv
process_sessions env sv commands (k ∷ ks) =
    process_sessions env (process_one env (focus sv k) (commands k)) commands ks

unfoldable pub process :
    ServerEnvironment → Bool → FixServer → (ℕ → Option ModifyingAdminCommand) → FixServer
process env is_stopping sv commands =
    if not is_stopping
    then process_sessions env sv commands sv.sessions
    else send_logout_messages env sv sv.sessions

-- process_admin_commands_of_all_non_live_sessions, of a server with worker threads.
unfoldable pub process_non_live :
    ServerEnvironment → FixServer → (ℕ → Option ModifyingAdminCommand) → List ℕ → FixServer
process_non_live env sv commands [] = sv
process_non_live env sv commands (k ∷ ks) =
    let t = focus sv k in
    process_non_live env
      (if not (is_state_live t.session.state) then process_admin_command env t (commands k) else t)
      commands ks
