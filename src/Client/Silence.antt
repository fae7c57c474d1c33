-- ===== src/Client/Silence.antt =====
-- What a run of the periodic work of include/llfix/fix_client.h does about a silent server.
use llfix.Client.AdminLaws.{do_shutdown-disconnected}
use llfix.Session.State.{◌=state◌, in_retransmission_initiated_by_self}
use llfix.Session.Builders.{build_resend_request_message}
use llfix.Outgoing.{encode, OutgoingFixMessage}
use llfix.Client.Shutdown.{Arrival, do_shutdown}
use llfix.Client.TimerLaws.{leb-true}
use llfix.Client.Admin.{process_live, process_schedule_validator, timed, is_now_valid}
use llfix.Client.Timers.{
  process_outgoing_resend_request_if_necessary, process_outgoing_test_request_if_necessary,
  respond_to_resend_request_if_necessary, send_client_heartbeat_if_necessary, start_retransmission,
  delta, respond_to_test_request_if_necessary, second,
}
use llfix.Client.Send.{
  send_outgoing_message, encode_and_send, send_client_heartbeat, send_resend_request,
}
use llfix.Common.{
  ℕ, true, false, not, refl, none, List, [], leb, if◌then◌else◌, ℕ, ◌+◌, ◌*◌, ◌%◌, ◌^◌, ◌≤◌, ◌≡◌,
  ◌∙◌, ◌∷◌, if-case, Bool-cases, inl, inr, ap, ◌⊎◌,
}
use llfix.Client.{
  FixClient, Environment, do_shutdown_abruptly, on_connection_lost, disconnected, send_bytes,
  is_lost,
}

-- The answer to a test request is due, and no resend request waits for its answer.
abbrev pub IsAwaiting : FixClient → FixClient → Type 0
IsAwaiting c t =
    (t.session.expecting_response_for_outgoing_test_request ≡ true)
    × (t.session.needs_responding_to_incoming_resend_request ≡ false)
    × (t.session.outgoing_test_request_timestamp_nanoseconds
        ≡ c.session.outgoing_test_request_timestamp_nanoseconds)
    × (t.session.settings ≡ c.session.settings)

-- Neither of the two marks, nor the time of the test request is changed by a send, and the state only
-- where the connection is lost.
pub record IsKept (c t : FixClient) : Type 0 where
  pub expecting :
      t.session.expecting_response_for_outgoing_test_request
      ≡ c.session.expecting_response_for_outgoing_test_request
  pub responding :
      t.session.needs_responding_to_incoming_resend_request
      ≡ c.session.needs_responding_to_incoming_resend_request
  pub requested :
      t.session.outgoing_test_request_timestamp_nanoseconds
      ≡ c.session.outgoing_test_request_timestamp_nanoseconds
  pub settings : t.session.settings ≡ c.session.settings
  pub state : (t.session.state ≡ c.session.state) ⊎ (t.session.state ≡ disconnected)

pub send-IsKept :
    (env : Environment) (c : FixClient) (m : OutgoingFixMessage)
    → IsKept c (send_outgoing_message env c m).0
unfolding send_outgoing_message encode_and_send send_bytes encode
send-IsKept env c m = record {
  expecting = refl;
  responding = refl;
  requested = refl;
  settings = refl;
  state =
      if-case (λ x. (x ≡ c.session.state) ⊎ (x ≡ disconnected)) (is_lost (env.send c.tick))
        disconnected c.session.state (inr refl) (inl refl);
}

-- A session that is over stays so.
pub kept-over :
    (c t : FixClient) → IsKept c t → c.session.state ≡ disconnected → t.session.state ≡ disconnected
kept-over c t k over = elim k.state [ inl same ↦ same ∙ over | inr lost ↦ lost ]

resend_timer-IsAwaiting :
    (env : Environment) (c : FixClient) (current : ℕ)
    → IsAwaiting c c
    → IsAwaiting c (process_outgoing_resend_request_if_necessary env c current)
unfolding process_outgoing_resend_request_if_necessary start_retransmission do_shutdown_abruptly
    on_connection_lost send_resend_request
resend_timer-IsAwaiting env c current (due, none_due, same, settings) =
    let m = build_resend_request_message c.session c.session.outgoing_fix_message (b'0' ∷ []) in
    let k = send-IsKept env c m in
    let sent = start_retransmission ((send_resend_request env c).0) current in
    let limit = c.session.settings.outgoing_resend_request_expire_in_secs * second % 2 ^ 64 in
    let waited = delta current c.session.outgoing_resend_request_timestamp_nanoseconds in
    if-case (IsAwaiting c) (c.session.state =state in_retransmission_initiated_by_self)
      (if leb limit waited then do_shutdown_abruptly c else c)
      (if c.session.needs_to_send_resend_request then sent else c)
      (if-case (IsAwaiting c) (leb limit waited) (do_shutdown_abruptly c) c
        (due, none_due, same, settings) (due, none_due, same, settings))
      (if-case (IsAwaiting c) c.session.needs_to_send_resend_request sent c
        (k.expecting ∙ due, k.responding ∙ none_due, k.requested, k.settings)
        (due, none_due, same, settings))

test_timer-disconnected :
    (env : Environment) (c t : FixClient) (current : ℕ)
    → IsAwaiting c t
    → c.session.settings.heartbeat_interval_in_nanoseconds * 2 % 2 ^ 64
      ≤ delta current c.session.outgoing_test_request_timestamp_nanoseconds
    → let u = process_outgoing_test_request_if_necessary env t current in
      (u.session.state ≡ disconnected)
      × (u.session.needs_responding_to_incoming_resend_request ≡ false)
unfolding process_outgoing_test_request_if_necessary do_shutdown_abruptly on_connection_lost
test_timer-disconnected env c t current (due, none_due, same, settings) late =
    let b : leb (t.session.settings.heartbeat_interval_in_nanoseconds * 2 % 2 ^ 64)
          (delta current t.session.outgoing_test_request_timestamp_nanoseconds)
        ≡ true =
      rw (settings, same) (leb-true _ _ late) in
    (simp (due, b) refl, simp (due, b) none_due)

pub no_resend :
    (env : Environment) (t : FixClient)
    → t.session.needs_responding_to_incoming_resend_request ≡ false
    → respond_to_resend_request_if_necessary env t ≡ t
unfolding respond_to_resend_request_if_necessary
no_resend env t none_due = simp none_due refl

test_response-state :
    (env : Environment) (t : FixClient)
    → t.session.state ≡ disconnected
    → (respond_to_test_request_if_necessary env t).session.state ≡ disconnected
unfolding respond_to_test_request_if_necessary send_client_heartbeat
test_response-state env t over =
    elim (Bool-cases t.session.needs_responding_to_incoming_test_request) [
      | inl h ↦ simp h (kept-over t _ (send-IsKept env t _) over)
      | inr h ↦ simp h over
    ]

heartbeat-state :
    (env : Environment) (t : FixClient) (current : ℕ)
    → t.session.state ≡ disconnected
    → (send_client_heartbeat_if_necessary env t current).session.state ≡ disconnected
unfolding send_client_heartbeat_if_necessary send_client_heartbeat
heartbeat-state env t current over =
    if-case (λ u. u.session.state ≡ disconnected) _ (send_client_heartbeat env t none).0 t
      (kept-over t _ (send-IsKept env t _) over) over

-- The time that the test request timer reads in a run that starts with this client.
abbrev pub time_read : Environment → FixClient → ℕ
time_read env c =
    env.nanoseconds_monotonic (timed env (process_outgoing_resend_request_if_necessary env) c).tick

-- When the answer to a test request is overdue, at the time that
-- the run of the periodic work reads for this timer, and no resend request waits for its answer, the
-- session is disconnected after the run, whatever the other timers and the schedule do in it.
pub overdue_run :
    (env : Environment) (c : FixClient) (arrivals : List (List Arrival))
    → c.session.expecting_response_for_outgoing_test_request ≡ true
    → c.session.needs_responding_to_incoming_resend_request ≡ false
    → c.session.settings.heartbeat_interval_in_nanoseconds * 2 % 2 ^ 64
      ≤ delta (time_read env c) c.session.outgoing_test_request_timestamp_nanoseconds
    → (process_live env c arrivals).session.state ≡ disconnected
unfolding process_live process_schedule_validator
overdue_run env c arrivals due none_due late =
    let clock = λ (t : FixClient). env.nanoseconds_monotonic t.tick in
    let t₁ = timed env (process_outgoing_resend_request_if_necessary env) c in
    let awaiting =
      resend_timer-IsAwaiting env (record c { tick = c.tick + 1 }) (clock c)
        (due, none_due, refl, refl) in
    let t₂ = timed env (process_outgoing_test_request_if_necessary env) t₁ in
    let (gone, free) =
      test_timer-disconnected env c (record t₁ { tick = t₁.tick + 1 }) (clock t₁) awaiting late in
    let t₃ = respond_to_resend_request_if_necessary env t₂ in
    let t₄ = respond_to_test_request_if_necessary env t₃ in
    let t₅ = timed env (send_client_heartbeat_if_necessary env) t₄ in
    let left : t₅.session.state ≡ disconnected =
      heartbeat-state env (record t₄ { tick = t₄.tick + 1 }) (clock t₄)
        (test_response-state env t₃ (ap (λ t. t.session.state) (no_resend env t₂ free) ∙ gone)) in
    if-case (λ u. u.session.state ≡ disconnected) (not (is_now_valid env t₅))
      (do_shutdown env t₅ true arrivals) t₅ (do_shutdown-disconnected env t₅ true arrivals) left
