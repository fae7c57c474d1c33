-- ===== src/Server/OneSession.antt =====
-- The work of include/llfix/fix_server.h on one session, and its loop over all of them.
use llfix.Server.SendIsolation.{send_sequence_reset_message-IsLocal}
use llfix.Server.WorkIsolation.{
  same-Isolated, resend_request-Isolated, if-Isolated, after-kept, test_request-Isolated,
  respond_resend-Isolated, respond_test-Isolated, heartbeat-Isolated, schedule-Isolated,
  disable-Isolated, enable-Isolated,
}
use llfix.Server.Isolation.{Isolated, then-Isolated, kept-Isolated}
use llfix.Server.Tables.{IsInverse}
use llfix.Client.Admin.{
  ModifyingAdminCommand, set_incoming_sequence_number, set_outgoing_sequence_number,
  send_sequence_reset, set_is_ha_primary_instance, disable_session_command, enable_session_command,
}
use llfix.Server.{ServerEnvironment, FixServer}
use llfix.Server.Admin.{process_admin_command, process_live, process_one, timed}
use llfix.Common.{ℕ, refl, Option, none, some, ◌+◌}

pub command-Isolated :
    (env : ServerEnvironment) (sv : FixServer) (command : Option ModifyingAdminCommand)
    → IsInverse sv.connectors
    → Isolated sv (process_admin_command env sv command)
unfolding process_admin_command
command-Isolated env sv none inv = same-Isolated sv inv
command-Isolated env sv (some (set_incoming_sequence_number arg)) inv =
    kept-Isolated sv _ inv refl refl refl
command-Isolated env sv (some (set_outgoing_sequence_number arg)) inv =
    kept-Isolated sv _ inv refl refl refl
command-Isolated env sv (some (send_sequence_reset arg)) inv =
    if-Isolated sv _ _ _ (send_sequence_reset_message-IsLocal env sv inv arg) (same-Isolated sv inv)
command-Isolated env sv (some disable_session_command) inv = disable-Isolated env sv inv
command-Isolated env sv (some enable_session_command) inv =
    if-Isolated sv _ _ _ (enable-Isolated env sv inv) (same-Isolated sv inv)
command-Isolated env sv (some (set_is_ha_primary_instance arg)) inv =
    if-Isolated sv _ _ _ (after-kept sv _ _ inv refl refl refl (enable-Isolated env _))
      (after-kept sv _ _ inv refl refl refl (disable-Isolated env _))

timed-Isolated :
    (env : ServerEnvironment) (f : FixServer → ℕ → FixServer) (sv : FixServer)
    → ((t : FixServer) → IsInverse t.connectors → (now : ℕ) → Isolated t (f t now))
    → IsInverse sv.connectors
    → Isolated sv (timed env f sv)
timed-Isolated env f sv h inv =
    after-kept sv (record sv { tick = sv.tick + 1 }) _ inv refl refl refl (λ i. h _ i _)

live-Isolated :
    (env : ServerEnvironment) (sv : FixServer)
    → IsInverse sv.connectors
    → Isolated sv (process_live env sv)
unfolding process_live
live-Isolated env sv inv =
    let h₁ = timed-Isolated env _ sv (resend_request-Isolated env) inv in
    let h₂ = timed-Isolated env _ _ (test_request-Isolated env) h₁.inverse in
    let h₃ = respond_resend-Isolated env _ h₂.inverse in
    let h₄ = respond_test-Isolated env _ h₃.inverse in
    let h₅ = timed-Isolated env _ _ (heartbeat-Isolated env) h₄.inverse in
    let h₆ = schedule-Isolated env _ h₅.inverse in
    then-Isolated sv _ _ h₁ (
      then-Isolated _ _ _ h₂
        (then-Isolated _ _ _ h₃ (then-Isolated _ _ _ h₄ (then-Isolated _ _ _ h₅ h₆))))

-- The periodic work on one session, an admin command, the timers, the responses that are due and the
-- schedule, leaves every other session with the peer that serves it as they were, whatever the
-- transport does, and the tables of peers and sessions stay inverse to each other.
pub process_one-Isolated :
    (env : ServerEnvironment) (sv : FixServer) (command : Option ModifyingAdminCommand)
    → IsInverse sv.connectors
    → Isolated sv (process_one env sv command)
unfolding process_one
process_one-Isolated env sv command inv =
    let first = command-Isolated env sv command inv in
    if-Isolated sv _ _ _ (then-Isolated sv _ _ first (live-Isolated env _ first.inverse)) first
