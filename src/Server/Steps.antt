-- ===== src/Server/Steps.antt =====
-- The steps of a server of include/llfix/fix_server.h, and the states that they reach.
use llfix.Session.State.{is_state_live, ◌=state◌}
use llfix.Server.SendIsolation.{send_logout_message-IsLocal, send_outgoing_message-IsLocal}
use llfix.Server.Send.{send_outgoing_message, send_logout_message}
use llfix.Server.ReceiveIsolation.{process_rx_buffer-Only}
use llfix.Server.WorkIsolation.{if-Isolated, then-kept, same-Isolated}
use llfix.Server.OneSession.{process_one-Isolated, command-Isolated}
use llfix.Outgoing.{OutgoingFixMessage}
use llfix.Server.Connectors.{get_session}
use llfix.Client.Admin.{ModifyingAdminCommand}
use llfix.Server.Tables.{IsInverse, remove-IsInverse}
use llfix.Server.Receive.{process_rx_buffer}
use llfix.Server.Admin.{
  process_session, process_sessions, process_non_live, send_logout_messages, process,
  process_admin_command,
}
use llfix.GroupSpecs.{IncomingFixRepeatingGroupSpecs}
use llfix.Server.{
  ServerEnvironment, on_client_disconnected, disconnect_session, focus, FixServer, set_server_state,
  disconnected,
}
use llfix.Common.{
  ℕ, Bool, true, false, refl, inl, inr, Option, List, [], Bool-cases, Option-cases, ◌∷◌, ◌==◌, not,
  if◌then◌else◌,
}

-- The transport delivers bytes or loses a peer, the periodic work runs, for all sessions, for one or for
-- those that are not live, and the user sends a message of a session.
pub data Step (env : ServerEnvironment) (specs : IncomingFixRepeatingGroupSpecs)
    : FixServer → FixServer → Type 0 where
  received :
      {sv : FixServer} (peer : ℕ) (buffer : List ℕ)
      → Step env specs sv ((process_rx_buffer env specs sv peer buffer).0)
  lost : {sv : FixServer} (peer : ℕ) → Step env specs sv (on_client_disconnected sv peer)
  processed :
      {sv : FixServer} (is_stopping : Bool) (commands : ℕ → Option ModifyingAdminCommand)
      → Step env specs sv (process env is_stopping sv commands)
  processed_one :
      {sv : FixServer} (is_stopping : Bool) (k : ℕ) (command : Option ModifyingAdminCommand)
      → Step env specs sv (process_session env is_stopping (focus sv k) command)
  processed_non_live :
      {sv : FixServer} (commands : ℕ → Option ModifyingAdminCommand)
      → Step env specs sv (process_non_live env sv commands sv.sessions)
  sent :
      {sv : FixServer} (k : ℕ) (m : OutgoingFixMessage)
      → Step env specs sv ((send_outgoing_message env (focus sv k) m).0)

pub data Reachable (env : ServerEnvironment) (specs : IncomingFixRepeatingGroupSpecs)
    (start : FixServer) : FixServer → Type 0 where
  here : Reachable env specs start start
  next :
      {t u : FixServer}
      → Reachable env specs start t
      → Step env specs t u
      → Reachable env specs start u

lost-IsInverse :
    (sv : FixServer) (peer : ℕ)
    → IsInverse sv.connectors
    → IsInverse (on_client_disconnected sv peer).connectors
unfolding on_client_disconnected disconnect_session
lost-IsInverse sv peer inv = elim (Option-cases (get_session sv.connectors peer)) [
  | inl h ↦ rw (h, on_client_disconnected) inv
  | inr (k, h) ↦
      (let removed = (remove-IsInverse sv.connectors peer k inv h).0 in
        elim (Bool-cases (k == sv.session_id)) [
          | inl e ↦ rw (h, on_client_disconnected, e) removed
          | inr e ↦ rw (h, on_client_disconnected, e) removed
        ])
]

module _ (env : ServerEnvironment) where
  session-IsInverse :
      (is_stopping : Bool) (sv : FixServer) (command : Option ModifyingAdminCommand)
      → IsInverse sv.connectors
      → IsInverse (process_session env is_stopping sv command).connectors
  unfolding process_session
  session-IsInverse false sv command inv = (process_one-Isolated env sv command inv).inverse
  session-IsInverse true sv command inv = (send_logout_message-IsLocal env sv inv []).inverse

  sessions-IsInverse :
      (ks : List ℕ) (commands : ℕ → Option ModifyingAdminCommand) (sv : FixServer)
      → IsInverse sv.connectors
      → IsInverse (process_sessions env sv commands ks).connectors
  unfolding process_sessions focus
  sessions-IsInverse [] commands sv inv = inv
  sessions-IsInverse (k ∷ ks) commands sv inv =
      sessions-IsInverse ks commands _
        (process_one-Isolated env (focus sv k) (commands k) inv).inverse

  non_live-IsInverse :
      (ks : List ℕ) (commands : ℕ → Option ModifyingAdminCommand) (sv : FixServer)
      → IsInverse sv.connectors
      → IsInverse (process_non_live env sv commands ks).connectors
  unfolding process_non_live focus
  non_live-IsInverse [] commands sv inv = inv
  non_live-IsInverse (k ∷ ks) commands sv inv =
      let t = focus sv k in
      let u = process_admin_command env t (commands k) in
      let live = not (is_state_live t.session.state) in
      non_live-IsInverse ks commands (if live then u else t)
        (if-Isolated t live u t (command-Isolated env t (commands k) inv)
          (same-Isolated t inv)).inverse

  logouts-IsInverse :
      (ks : List ℕ) (sv : FixServer)
      → IsInverse sv.connectors
      → IsInverse (send_logout_messages env sv ks).connectors
  unfolding send_logout_messages focus
  logouts-IsInverse [] sv inv = inv
  logouts-IsInverse (k ∷ ks) sv inv =
      let t = focus sv k in
      let u = set_server_state ((send_logout_message env t []).0) disconnected in
      let connected = not (t.session.state =state disconnected) in
      logouts-IsInverse ks (if connected then u else t)
        (if-Isolated t connected u t
          (then-kept t _ _ (send_logout_message-IsLocal env t inv []) refl refl refl)
          (same-Isolated t inv)).inverse

  process-IsInverse :
      (is_stopping : Bool) (sv : FixServer) (commands : ℕ → Option ModifyingAdminCommand)
      → IsInverse sv.connectors
      → IsInverse (process env is_stopping sv commands).connectors
  unfolding process
  process-IsInverse false sv commands inv = sessions-IsInverse sv.sessions commands sv inv
  process-IsInverse true sv commands inv = logouts-IsInverse sv.sessions sv inv

  Step-IsInverse :
      (specs : IncomingFixRepeatingGroupSpecs) (t u : FixServer)
      → Step env specs t u
      → IsInverse t.connectors
      → IsInverse u.connectors
  unfolding focus
  Step-IsInverse specs t u (received peer buffer) inv =
      (process_rx_buffer-Only env specs t peer buffer inv).0
  Step-IsInverse specs t u (lost peer) inv = lost-IsInverse t peer inv
  Step-IsInverse specs t u (processed is_stopping commands) inv =
      process-IsInverse is_stopping t commands inv
  Step-IsInverse specs t u (processed_one is_stopping k command) inv =
      session-IsInverse is_stopping (focus t k) command inv
  Step-IsInverse specs t u (processed_non_live commands) inv =
      non_live-IsInverse t.sessions commands t inv
  Step-IsInverse specs t u (sent k m) inv =
      (send_outgoing_message-IsLocal env (focus t k) m inv).inverse

  -- From a server whose tables of peers and sessions are inverse to each other, such as one without
  -- peers, the receipt of bytes, the loss of peers, the periodic work, the stop and the user's sends
  -- reach, in any order, only servers whose tables are: no two peers ever serve one session, and no peer
  -- two sessions.
  pub Reachable-IsInverse :
      (specs : IncomingFixRepeatingGroupSpecs) (start t : FixServer)
      → IsInverse start.connectors
      → Reachable env specs start t
      → IsInverse t.connectors
  Reachable-IsInverse specs start t inv here = inv
  Reachable-IsInverse specs start t inv (next r s) =
      Step-IsInverse specs _ t s (Reachable-IsInverse specs start _ inv r)
