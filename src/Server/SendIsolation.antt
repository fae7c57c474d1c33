-- ===== src/Server/SendIsolation.antt =====
-- Sending to the client of one session of include/llfix/fix_server.h leaves the others alone.
use llfix.Serialiser.{read_message}
use llfix.Server.Isolation.{
  IsOwn, Isolated, then-Isolated, kept-Isolated, on_client_disconnected-Isolated, peer_of-IsOwn,
}
use llfix.Outgoing.{OutgoingFixMessage}
use llfix.Server.Tables.{IsInverse}
use llfix.Server.Send.{
  encode_and_send, send_outgoing_message, resend_messages, resend_messages_to_client,
  send_heartbeat, send_logon_response, send_logout_message, send_test_request, send_resend_request,
  send_sequence_reset_message, send_gap_fill_message, send_reject_message,
  send_throttle_reject_message, resend_message, send_logout_to, process_connection_closure,
  served_by,
}
use llfix.Server.{
  FixServer, ServerEnvironment, SendOutcome, send_to_peer, after_send, peer_of, delivered,
  undelivered, connection_lost, send_bytes, close_connection,
}
use llfix.Common.{
  eq_self, ℕ, zero, suc, Bool, true, false, refl, inl, inr, Option, none, some, List, Option-cases,
  ◌+◌, ◌-◌,
}

after_send-Isolated :
    (sv : FixServer) (p : ℕ) (o : SendOutcome)
    → IsInverse sv.connectors
    → IsOwn sv.connectors sv.session_id p
    → Isolated sv (after_send sv p o)
after_send-Isolated sv p delivered inv own = kept-Isolated sv sv inv refl refl refl
after_send-Isolated sv p undelivered inv own = kept-Isolated sv sv inv refl refl refl
after_send-Isolated sv p connection_lost inv own = on_client_disconnected-Isolated sv p inv own

send_bytes-Isolated :
    (env : ServerEnvironment) (increment : Bool) (sv : FixServer) (buffer : List ℕ)
    → IsInverse sv.connectors
    → Isolated sv ((send_bytes env increment sv buffer).0)
unfolding send_bytes send_to_peer
send_bytes-Isolated env increment sv buffer inv = elim (Option-cases (peer_of sv)) [
  | inl h ↦ rw (h, send_bytes) (kept-Isolated sv sv inv refl refl refl)
  | inr (p, h) ↦
      (let own = peer_of-IsOwn sv p inv h in
        let first = after_send-Isolated sv p (env.send sv.tick) inv own in
        rw (h, send_bytes)
          (then-Isolated sv (after_send sv p (env.send sv.tick)) _ first
            (kept-Isolated _ _ first.inverse refl refl refl)))
]

-- An operation that sends works on its session alone.
abbrev pub IsLocal : (FixServer → FixServer) → Type 0
IsLocal f = (sv : FixServer) → IsInverse sv.connectors → Isolated sv (f sv)

pub encode_and_send-IsLocal :
    (env : ServerEnvironment) (increment : Bool) (sv : FixServer) (m : OutgoingFixMessage) (n : ℕ)
    → IsInverse sv.connectors
    → Isolated sv ((encode_and_send env increment sv m n).0)
unfolding encode_and_send
encode_and_send-IsLocal env increment sv m n inv =
    let sent = send_bytes-Isolated env increment _ _ inv in
    then-Isolated sv _ _ (kept-Isolated sv _ inv refl refl refl) sent

pub send_outgoing_message-IsLocal :
    (env : ServerEnvironment) (sv : FixServer) (m : OutgoingFixMessage)
    → IsInverse sv.connectors
    → Isolated sv ((send_outgoing_message env sv m).0)
unfolding send_outgoing_message
send_outgoing_message-IsLocal env sv m inv = encode_and_send-IsLocal env true sv m _ inv

module _ (env : ServerEnvironment) (sv : FixServer) (inv : IsInverse sv.connectors) where
  pub send_heartbeat-IsLocal : (id : Option (List ℕ)) → Isolated sv ((send_heartbeat env sv id).0)
  unfolding send_heartbeat
  send_heartbeat-IsLocal id = send_outgoing_message-IsLocal env sv _ inv

  pub send_logon_response-IsLocal : Isolated sv ((send_logon_response env sv).0)
  unfolding send_logon_response
  send_logon_response-IsLocal = send_outgoing_message-IsLocal env sv _ inv

  pub send_logout_message-IsLocal :
      (reason : List ℕ) → Isolated sv ((send_logout_message env sv reason).0)
  unfolding send_logout_message
  send_logout_message-IsLocal reason = send_outgoing_message-IsLocal env sv _ inv

  pub send_test_request-IsLocal : Isolated sv ((send_test_request env sv).0)
  unfolding send_test_request
  send_test_request-IsLocal =
      then-Isolated sv _ _ (kept-Isolated sv _ inv refl refl refl)
        (send_outgoing_message-IsLocal env _ _ inv)

  pub send_resend_request-IsLocal : Isolated sv ((send_resend_request env sv).0)
  unfolding send_resend_request
  send_resend_request-IsLocal = send_outgoing_message-IsLocal env sv _ inv

  pub send_sequence_reset_message-IsLocal :
      (n : ℕ) → Isolated sv ((send_sequence_reset_message env sv n).0)
  unfolding send_sequence_reset_message
  send_sequence_reset_message-IsLocal n =
      then-Isolated sv _ _ (kept-Isolated sv _ inv refl refl refl)
        (encode_and_send-IsLocal env false _ _ n inv)

  pub send_gap_fill_message-IsLocal : Isolated sv ((send_gap_fill_message env sv).0)
  unfolding send_gap_fill_message
  send_gap_fill_message-IsLocal = encode_and_send-IsLocal env false sv _ _ inv

  pub send_reject_message-IsLocal :
      (code tag : ℕ) → Isolated sv ((send_reject_message env sv code tag).0)
  unfolding send_reject_message
  send_reject_message-IsLocal code tag = send_outgoing_message-IsLocal env sv _ inv

  pub send_throttle_reject_message-IsLocal : Isolated sv ((send_throttle_reject_message env sv).0)
  unfolding send_throttle_reject_message
  send_throttle_reject_message-IsLocal = send_outgoing_message-IsLocal env sv _ inv

  resend_message-IsLocal :
      (i : ℕ) (bytes : Option (List ℕ)) → Isolated sv (resend_message env sv i bytes)
  unfolding resend_message
  resend_message-IsLocal i none = kept-Isolated sv sv inv refl refl refl
  resend_message-IsLocal i (some bytes) = encode_and_send-IsLocal env false sv _ i inv

resend_messages-IsLocal :
    (env : ServerEnvironment) (rounds : ℕ) (sv : FixServer) (i : ℕ)
    → IsInverse sv.connectors
    → Isolated sv (resend_messages env rounds sv i)
unfolding resend_messages
resend_messages-IsLocal env zero sv i inv = kept-Isolated sv sv inv refl refl refl
resend_messages-IsLocal env (suc rounds) sv i inv =
    let one =
      resend_message-IsLocal env sv inv i (read_message sv.outgoing_messages_serialiser i) in
    then-Isolated sv _ _ one (resend_messages-IsLocal env rounds _ (i + 1) one.inverse)

pub resend_messages_to_client-IsLocal :
    (env : ServerEnvironment) (sv : FixServer) (a b : ℕ)
    → IsInverse sv.connectors
    → Isolated sv (resend_messages_to_client env sv a b)
unfolding resend_messages_to_client
resend_messages_to_client-IsLocal env sv a b inv = resend_messages-IsLocal env (b + 1 - a) sv a inv

send_logout_to-own :
    (env : ServerEnvironment) (sv : FixServer) (p : ℕ) (reason : List ℕ)
    → IsInverse sv.connectors
    → IsOwn sv.connectors sv.session_id p
    → Isolated sv (send_logout_to env sv (served_by sv (some p)) reason)
unfolding send_logout_to
send_logout_to-own env sv p reason inv (inl free) = rw free (kept-Isolated sv sv inv refl refl refl)
send_logout_to-own env sv p reason inv (inr own) =
    rw (own, eq_self sv.session_id) (send_logout_message-IsLocal env sv inv reason)

close-own :
    (sv : FixServer) (p : ℕ)
    → IsInverse sv.connectors
    → IsOwn sv.connectors sv.session_id p
    → Isolated sv (close_connection sv (some p))
unfolding close_connection
close-own sv p inv own = on_client_disconnected-Isolated sv p inv own

pub closure-own :
    (env : ServerEnvironment) (sv : FixServer) (p : ℕ) (send_logout : Bool) (reason : List ℕ)
    → IsInverse sv.connectors
    → IsOwn sv.connectors sv.session_id p
    → Isolated sv (process_connection_closure env sv (some p) send_logout reason)
unfolding process_connection_closure
closure-own env sv p false reason inv own = close-own sv p inv own
closure-own env sv p true reason inv own =
    let first = send_logout_to-own env sv p reason inv own in
    then-Isolated sv _ _ first (close-own _ p first.inverse (first.own p own))

closure-none :
    (env : ServerEnvironment) (sv : FixServer) (send_logout : Bool) (reason : List ℕ)
    → IsInverse sv.connectors
    → Isolated sv (process_connection_closure env sv none send_logout reason)
unfolding process_connection_closure close_connection send_logout_to
closure-none env sv true reason inv = kept-Isolated sv _ inv refl refl refl
closure-none env sv false reason inv = kept-Isolated sv _ inv refl refl refl

-- The connection of the session itself, which may have none.
pub closure-IsLocal :
    (env : ServerEnvironment) (sv : FixServer) (send_logout : Bool) (reason : List ℕ)
    → IsInverse sv.connectors
    → Isolated sv (process_connection_closure env sv (peer_of sv) send_logout reason)
closure-IsLocal env sv send_logout reason inv = elim (Option-cases (peer_of sv)) [
  | inl h ↦ rw h (closure-none env sv send_logout reason inv)
  | inr (p, h) ↦ rw h (closure-own env sv p send_logout reason inv (peer_of-IsOwn sv p inv h))
]
