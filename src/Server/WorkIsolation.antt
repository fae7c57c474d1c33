-- ===== src/Server/WorkIsolation.antt =====
-- The timers, the responses and the admin commands of include/llfix/fix_server.h work on one session
-- alone.
use llfix.Server.SendIsolation.{
  send_heartbeat-IsLocal, resend_messages_to_client-IsLocal, closure-IsLocal,
  send_resend_request-IsLocal, send_test_request-IsLocal, send_gap_fill_message-IsLocal,
}
use llfix.Server.Admin.{process_schedule_validator, disable_session, enable_session}
use llfix.Server.Timers.{
  process_outgoing_resend_request_if_necessary, process_outgoing_test_request_if_necessary,
  respond_to_test_request_if_necessary, respond_to_resend_request_if_necessary,
  send_heartbeat_if_necessary, start_retransmission, expect_response,
}
use llfix.Server.Isolation.{Isolated, kept-Isolated, then-Isolated}
use llfix.Server.Tables.{IsInverse}
use llfix.Server.{FixServer, ServerEnvironment}
use llfix.Common.{if-case, ℕ, Bool, true, false, refl, none, [], if◌then◌else◌, ◌≡◌}

pub same-Isolated : (sv : FixServer) → IsInverse sv.connectors → Isolated sv sv
same-Isolated sv inv = kept-Isolated sv sv inv refl refl refl

pub if-Isolated :
    (sv : FixServer) (b : Bool) (x y : FixServer)
    → Isolated sv x
    → Isolated sv y
    → Isolated sv (if b then x else y)
if-Isolated sv b x y hx hy = if-case (Isolated sv) b x y hx hy

-- A step that follows one that changed fields of the server alone.
pub after-kept :
    (sv t u : FixServer)
    → IsInverse sv.connectors
    → t.session_id ≡ sv.session_id
    → t.stored ≡ sv.stored
    → t.connectors ≡ sv.connectors
    → (IsInverse t.connectors → Isolated t u)
    → Isolated sv u
after-kept sv t u inv i s c h =
    let first = kept-Isolated sv t inv i s c in then-Isolated sv t u first (h first.inverse)

-- One that changes fields of the server alone behind another.
pub then-kept :
    (sv t u : FixServer)
    → Isolated sv t
    → u.session_id ≡ t.session_id
    → u.stored ≡ t.stored
    → u.connectors ≡ t.connectors
    → Isolated sv u
then-kept sv t u h i s c = then-Isolated sv t u h (kept-Isolated t u h.inverse i s c)

module _ (env : ServerEnvironment) (sv : FixServer) (inv : IsInverse sv.connectors) where
  same : Isolated sv sv
  same = same-Isolated sv inv

  pub resend_request-Isolated :
      (now : ℕ) → Isolated sv (process_outgoing_resend_request_if_necessary env sv now)
  unfolding process_outgoing_resend_request_if_necessary start_retransmission
  resend_request-Isolated now =
      if-Isolated sv _ _ _ (if-Isolated sv _ _ _ (closure-IsLocal env sv false [] inv) same) (
        if-Isolated sv _ _ _
          (then-kept sv _ _ (send_resend_request-IsLocal env sv inv) refl refl refl) same)

  pub test_request-Isolated :
      (now : ℕ) → Isolated sv (process_outgoing_test_request_if_necessary env sv now)
  unfolding process_outgoing_test_request_if_necessary expect_response
  test_request-Isolated now =
      if-Isolated sv _ _ _
        (if-Isolated sv _ _ _
          (then-kept sv _ _ (send_test_request-IsLocal env sv inv) refl refl refl) same)
        (if-Isolated sv _ _ _
          (after-kept sv _ _ inv refl refl refl (λ i. closure-IsLocal env _ false [] i)) same)

  pub respond_test-Isolated : Isolated sv (respond_to_test_request_if_necessary env sv)
  unfolding respond_to_test_request_if_necessary
  respond_test-Isolated =
      if-Isolated sv _ _ _ (then-kept sv _ _ (send_heartbeat-IsLocal env sv inv _) refl refl refl)
        same

  pub respond_resend-Isolated : Isolated sv (respond_to_resend_request_if_necessary env sv)
  unfolding respond_to_resend_request_if_necessary
  respond_resend-Isolated =
      if-Isolated sv _ _ _
        (then-kept sv _ _
          (if-Isolated sv _ _ _ (resend_messages_to_client-IsLocal env sv _ _ inv)
            (send_gap_fill_message-IsLocal env sv inv))
          refl refl refl)
        same

  pub heartbeat-Isolated : (now : ℕ) → Isolated sv (send_heartbeat_if_necessary env sv now)
  unfolding send_heartbeat_if_necessary
  heartbeat-Isolated now = if-Isolated sv _ _ _ (send_heartbeat-IsLocal env sv inv none) same

  pub schedule-Isolated : Isolated sv (process_schedule_validator env sv)
  unfolding process_schedule_validator
  schedule-Isolated = if-Isolated sv _ _ _ (closure-IsLocal env sv true [] inv) same

  pub disable-Isolated : Isolated sv (disable_session env sv)
  unfolding disable_session
  disable-Isolated =
      then-kept sv _ _ (if-Isolated sv _ _ _ (closure-IsLocal env sv true [] inv) same) refl refl
        refl

  pub enable-Isolated : Isolated sv (enable_session env sv)
  unfolding enable_session
  enable-Isolated = if-Isolated sv _ _ _ (kept-Isolated sv _ inv refl refl refl) same
