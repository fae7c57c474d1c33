-- ===== src/Server/MessageIsolation.antt =====
-- A message of a session of include/llfix/fix_server.h is processed on that session alone.
use llfix.Session.SequenceStore.{set_incoming_seq_no}
use llfix.Utilities.MessageType.{
  msg_type_heartbeat, msg_type_test_request, msg_type_resend_request, msg_type_reject,
  msg_type_business_reject, msg_type_logon, msg_type_logout, msg_type_sequence_reset,
}
use llfix.Session.State.{◌=state◌, pending_logon}
use llfix.Session.Validate.{Verdict, refused, accepted}
use llfix.Message.{get_tag_value}
use llfix.Constants.{fix_error_code_value_incorrect_for_tag, tag_new_seq_no, tag_msg_type}
use llfix.Server.Send.{send_reject_message}
use llfix.Server.SendIsolation.{
  closure-IsLocal, send_logout_message-IsLocal, closure-own, send_throttle_reject_message-IsLocal,
  send_reject_message-IsLocal, send_logon_response-IsLocal,
}
use llfix.Session.ThrottlerAction.{
  IncomingThrottlerAction, no_action, wait_action, disconnect_action, reject_action,
}
use llfix.Server.WorkIsolation.{same-Isolated, then-kept, if-Isolated, after-kept}
use llfix.Server.Isolation.{Isolated, IsOwn, kept-Isolated, then-Isolated}
use llfix.Server.Tables.{IsInverse}
use llfix.Server.Logon.{
  process_logon_request, process_logout_request, do_post_logon_sequence_number_check,
  process_invalid_logon,
}
use llfix.Server.Dispatch.{
  process_incoming_throttling, dispatch, throttle_action, process_sequence_reset, finish_resend,
  process_in_sequence, process_numbered, process_verdict, process_incoming_fix_message,
  process_accepted, note_received, msg_type_new_order, msg_type_order_cancel,
  msg_type_order_cancel_replace,
}
use llfix.Server.{
  ServerEnvironment, FixServer, ServerEvent, raise, FixSession, with_session, on_new_order,
  on_cancel_order, on_replace_order, on_client_heartbeat, on_client_test_request,
  on_client_resend_request, on_session_level_reject, on_application_level_reject, on_custom_message,
}
use llfix.Session.Receive.{
  process_incoming_sequence_reset_message, is_a_hard_sequence_reset_message,
  process_test_request_message, process_resend_request,
}
use llfix.Throttler.{update, reached_limit}
use llfix.Common.{
  if-case, none, some, ℕ, Bool, true, false, refl, List, [], if◌then◌else◌, ◌∷◌, ◌+◌, ◌%◌, ◌^◌,
  ◌==◌, ltb, ◌&&◌, not, ◌-◌,
}

module _ (env : ServerEnvironment) (sv : FixServer) (inv : IsInverse sv.connectors) where
  same : Isolated sv sv
  same = same-Isolated sv inv

  throttle_action-Isolated :
      (action : IncomingThrottlerAction) → Isolated sv ((throttle_action env sv action).0)
  unfolding throttle_action
  throttle_action-Isolated no_action = same
  throttle_action-Isolated wait_action = kept-Isolated sv _ inv refl refl refl
  throttle_action-Isolated disconnect_action = closure-IsLocal env sv false [] inv
  throttle_action-Isolated reject_action = send_throttle_reject_message-IsLocal env sv inv

  logout-Isolated : Isolated sv (process_logout_request env sv)
  unfolding process_logout_request
  logout-Isolated = then-kept sv _ _ (send_logout_message-IsLocal env sv inv []) refl refl refl

  sequence_reset-Isolated : Isolated sv (process_sequence_reset env sv)
  unfolding process_sequence_reset
  sequence_reset-Isolated =
      let r = process_incoming_sequence_reset_message sv.session sv.incoming_fix_message in
      let t = with_session sv r.0 in
      let u = (send_reject_message env t fix_error_code_value_incorrect_for_tag tag_new_seq_no).0 in
      if-Isolated sv r.1 t u (kept-Isolated sv t inv refl refl refl)
        (after-kept sv t u inv refl refl refl (λ i. send_reject_message-IsLocal env t i _ _))

  post_logon-Isolated : Isolated sv (do_post_logon_sequence_number_check sv)
  unfolding do_post_logon_sequence_number_check
  post_logon-Isolated = if-Isolated sv _ _ _ (kept-Isolated sv _ inv refl refl refl) same

  finish_resend-Isolated : (n : ℕ) → Isolated sv (finish_resend sv n)
  unfolding finish_resend
  finish_resend-Isolated n = if-Isolated sv _ _ _ (kept-Isolated sv _ inv refl refl refl) same

throttling-Isolated :
    (env : ServerEnvironment) (sv : FixServer)
    → IsInverse sv.connectors
    → Isolated sv ((process_incoming_throttling env sv).0)
unfolding process_incoming_throttling
throttling-Isolated env sv inv =
    let t = record sv {
      throttler = update sv.throttler (env.nanoseconds_monotonic sv.tick);
      tick = sv.tick + 1;
    } in
    let u = with_session t (record t.session {
      incoming_throttler_exceed_count = (t.session.incoming_throttler_exceed_count + 1) % 2 ^ 32;
    }) in
    let x = throttle_action env u t.session.settings.throttle_action in
    let over = reached_limit t.throttler in
    if-case (λ (r : FixServer × Bool). Isolated sv r.0) (sv.session.settings.throttle_limit == 0)
      (sv, true) (if over then x else (t, true)) (same-Isolated sv inv)
      (if-case (λ (r : FixServer × Bool). Isolated sv r.0) over x (t, true)
        (after-kept sv u x.0 inv refl refl refl (λ i. throttle_action-Isolated env u i _))
        (kept-Isolated sv t inv refl refl refl))

module _ (env : ServerEnvironment) (peer : ℕ) where
  invalid-Isolated :
      (sv : FixServer)
      → IsInverse sv.connectors
      → IsOwn sv.connectors sv.session_id peer
      → Isolated sv (process_invalid_logon env sv peer)
  invalid-Isolated sv inv own = closure-own env sv peer false [] inv own

  logon-Isolated :
      (sv : FixServer)
      → IsInverse sv.connectors
      → IsOwn sv.connectors sv.session_id peer
      → Isolated sv (process_logon_request env sv peer)
  unfolding process_logon_request
  logon-Isolated sv inv own = if-Isolated sv _ _ _ (invalid-Isolated sv inv own) (
      if-Isolated sv _ _ _ (invalid-Isolated sv inv own) (
        let sent = after-kept sv _ _ inv refl refl refl (send_logon_response-IsLocal env _) in
        let on = then-kept sv _ _ sent refl refl refl in
        then-kept sv _ _ (then-Isolated sv _ _ on (post_logon-Isolated env _ on.inverse)) refl refl
          refl))

  dispatch-Isolated :
      (sv : FixServer) (ty : List ℕ)
      → IsInverse sv.connectors
      → IsOwn sv.connectors sv.session_id peer
      → Isolated sv (dispatch env sv peer ty)
  unfolding dispatch
  dispatch-Isolated sv [] inv own = kept-Isolated sv _ inv refl refl refl
  dispatch-Isolated sv (t ∷ u ∷ ty) inv own = kept-Isolated sv _ inv refl refl refl
  dispatch-Isolated sv (t ∷ []) inv own =
      let user = λ (e : ServerEvent). kept-Isolated sv (raise sv e) inv refl refl refl in
      let fields = λ (s : FixSession) (e : ServerEvent).
        kept-Isolated sv (raise (with_session sv s) e) inv refl refl refl in
      if-Isolated sv (t == msg_type_new_order) _ _ (user on_new_order) (
        if-Isolated sv (t == msg_type_order_cancel) _ _ (user on_cancel_order) (
          if-Isolated sv (t == msg_type_order_cancel_replace) _ _ (user on_replace_order) (
            if-Isolated sv (t == msg_type_heartbeat) _ _ (user on_client_heartbeat) (
              if-Isolated sv (t == msg_type_test_request) _ _
                (fields (process_test_request_message sv.session sv.incoming_fix_message)
                  on_client_test_request)
                (if-Isolated sv (t == msg_type_resend_request) _ _
                  (fields (process_resend_request sv.session sv.incoming_fix_message)
                    on_client_resend_request)
                  (if-Isolated sv (t == msg_type_reject) _ _ (user on_session_level_reject) (
                    if-Isolated sv (t == msg_type_business_reject) _ _
                      (user on_application_level_reject)
                      (if-Isolated sv (t == msg_type_logon) _ _ (logon-Isolated sv inv own) (
                        if-Isolated sv (t == msg_type_logout) _ _ (logout-Isolated env sv inv) (
                          if-Isolated sv (t == msg_type_sequence_reset) _ _
                            (sequence_reset-Isolated env sv inv) (user on_custom_message)))))))))))

  in_sequence-Isolated :
      (sv : FixServer) (n : ℕ)
      → IsInverse sv.connectors
      → IsOwn sv.connectors sv.session_id peer
      → Isolated sv (process_in_sequence env sv peer n)
  unfolding process_in_sequence
  in_sequence-Isolated sv n inv own =
      let r = process_incoming_throttling env (finish_resend sv n) in
      let a = finish_resend-Isolated env sv inv n in
      let b = then-Isolated sv _ r.0 a (throttling-Isolated env _ a.inverse) in
      let d = dispatch env r.0 peer (get_tag_value r.0.incoming_fix_message tag_msg_type) in
      if-Isolated sv r.1 d r.0
        (then-Isolated sv r.0 d b (dispatch-Isolated r.0 _ b.inverse (b.own peer own))) b

  numbered-Isolated :
      (sv : FixServer) (expected n : ℕ)
      → IsInverse sv.connectors
      → IsOwn sv.connectors sv.session_id peer
      → Isolated sv (process_numbered env sv peer expected n)
  unfolding process_numbered
  numbered-Isolated sv expected n inv own =
      let hard = is_a_hard_sequence_reset_message sv.incoming_fix_message in
      let logging_on = sv.session.state =state pending_logon in
      if-Isolated sv (ltb expected n && (not hard && not logging_on)) _ _
        (kept-Isolated sv _ inv refl refl refl)
        (if-Isolated sv (ltb n expected && not hard) _ _
          (after-kept sv
            (with_session sv (record sv.session {
              sequence_store =
                  set_incoming_seq_no sv.session.sequence_store ((expected + 2 ^ 32 - 1) % 2 ^ 32);
            }))
            _ inv refl refl refl (λ i. closure-own env _ peer logging_on _ i own))
          (in_sequence-Isolated sv n inv own))

  verdict-Isolated :
      (sv : FixServer) (v : Verdict)
      → IsInverse sv.connectors
      → IsOwn sv.connectors sv.session_id peer
      → Isolated sv (process_verdict env sv peer v)
  unfolding process_verdict process_accepted
  verdict-Isolated sv accepted inv own =
      after-kept sv _ _ inv refl refl refl (λ i. numbered-Isolated _ _ _ i own)
  verdict-Isolated sv (refused tag none) inv own = kept-Isolated sv _ inv refl refl refl
  verdict-Isolated sv (refused tag (some code)) inv own =
      after-kept sv _ _ inv refl refl refl (λ i. send_reject_message-IsLocal env _ i _ _)

  pub process_incoming_fix_message-Isolated :
      (sv : FixServer) (buffer : List ℕ) (code : ℕ)
      → IsInverse sv.connectors
      → IsOwn sv.connectors sv.session_id peer
      → Isolated sv (process_incoming_fix_message env sv peer buffer code)
  unfolding process_incoming_fix_message note_received
  process_incoming_fix_message-Isolated sv buffer code inv own =
      after-kept sv _ _ inv refl refl refl (λ i. verdict-Isolated _ _ i own)
