-- ===== src/Client/SilentRuns.antt =====
-- Any number of runs of `process` of include/llfix/fix_client.h while the server keeps silent.
use llfix.Client.AdminLaws.{do_shutdown-disconnected}
use llfix.Client.Shutdown.{Arrival, process_incoming_messages, do_shutdown}
use llfix.Client.Admin.{
  process_live, process, process_schedule_validator, process_admin_command, timed, is_now_valid,
}
use llfix.Session.Builders.{build_resend_request_message, build_test_request_message}
use llfix.Client.Send.{send_client_heartbeat, send_resend_request, send_test_request}
use llfix.Session.State.{is_state_live, ◌=state◌, in_retransmission_initiated_by_self}
use llfix.Client.Timers.{
  process_outgoing_resend_request_if_necessary, process_outgoing_test_request_if_necessary,
  respond_to_test_request_if_necessary, send_client_heartbeat_if_necessary, start_retransmission,
  expect_response, second, delta, respond_to_resend_request_if_necessary,
}
use llfix.Client.{FixClient, disconnected, do_shutdown_abruptly, on_connection_lost, Environment}
use llfix.Common.{
  ℕ, zero, suc, true, false, not, refl, sym, ap, subst, inl, inr, none, List, [], leb,
  if◌then◌else◌, Bool-cases, ℕ, zero, suc, ◌+◌, ◌*◌, ◌%◌, ◌^◌, ◌≤◌, ◌≡◌, ◌⊎◌, ◌∙◌, ◌∷◌, if-case,
}
use llfix.Client.Silence.{
  IsAwaiting, IsKept, send-IsKept, no_resend, overdue_run, time_read, kept-over,
}

-- A client whose session stays on, with the answer to the test request of `c` due.
abbrev pub IsWaiting : FixClient → FixClient → Type 0
IsWaiting c t = IsAwaiting c t × (is_state_live t.session.state ≡ true)

-- Between the steps of a run: no resend request is to be answered, and the session is over or waits.
abbrev Standing : FixClient → FixClient → Type 0
Standing c t =
    (t.session.needs_responding_to_incoming_resend_request ≡ false)
    × ((t.session.state ≡ disconnected) ⊎ IsWaiting c t)

kept-Standing : (c t u : FixClient) → IsKept t u → Standing c t → Standing c u
kept-Standing c t u k (free, inl over) = (k.responding ∙ free, inl (kept-over t u k over))
kept-Standing c t u k (free, inr ((due, none_due, same, settings), live)) = (
  k.responding ∙ free,
  elim k.state [
    | inl state ↦ inr (
      (k.expecting ∙ due, k.responding ∙ none_due, k.requested ∙ same, k.settings ∙ settings),
      ap is_state_live state ∙ live,
    )
    | inr lost ↦ inl lost
  ],
)

resend_timer-Standing :
    (env : Environment) (c t : FixClient) (current : ℕ)
    → IsWaiting c t
    → Standing c (process_outgoing_resend_request_if_necessary env t current)
unfolding process_outgoing_resend_request_if_necessary start_retransmission do_shutdown_abruptly
    on_connection_lost send_resend_request
resend_timer-Standing env c t current ((due, none_due, same, settings), live) =
    let m = build_resend_request_message t.session t.session.outgoing_fix_message (b'0' ∷ []) in
    let k = send-IsKept env t m in
    let sent = start_retransmission ((send_resend_request env t).0) current in
    let limit = t.session.settings.outgoing_resend_request_expire_in_secs * second % 2 ^ 64 in
    let waited = delta current t.session.outgoing_resend_request_timestamp_nanoseconds in
    let stay : Standing c t = (none_due, inr ((due, none_due, same, settings), live)) in
    if-case (Standing c) (t.session.state =state in_retransmission_initiated_by_self)
      (if leb limit waited then do_shutdown_abruptly t else t)
      (if t.session.needs_to_send_resend_request then sent else t)
      (if-case (Standing c) (leb limit waited) (do_shutdown_abruptly t) t (none_due, inl refl) stay)
      (if-case (Standing c) t.session.needs_to_send_resend_request sent t
        (
          k.responding ∙ none_due,
          inr (
            (k.expecting ∙ due, k.responding ∙ none_due, k.requested ∙ same, k.settings ∙ settings),
            refl,
          ),
        )
        stay)

-- Once the session is over the timer may send a test request again, but leaves the state alone.
test_timer-Standing :
    (env : Environment) (c t : FixClient) (current : ℕ)
    → Standing c t
    → Standing c (process_outgoing_test_request_if_necessary env t current)
unfolding process_outgoing_test_request_if_necessary do_shutdown_abruptly on_connection_lost
    expect_response send_test_request build_test_request_message
test_timer-Standing env c t current (free, inr waits) =
    let due = waits.0.0 in simp due (if-case (Standing c) _ _ t (free, inl refl) (free, inr waits))
test_timer-Standing env c t current (free, inl over) =
    let (s, m) = build_test_request_message t.session t.session.outgoing_fix_message in
    let k = send-IsKept env (record t { session = s }) m in
    let sent = expect_response ((send_test_request env t).0) current in
    let stay : Standing c t = (free, inl over) in
    if-case (Standing c) (not t.session.expecting_response_for_outgoing_test_request) _ _
      (if-case (Standing c) _ sent t (k.responding ∙ free, inl (kept-over _ _ k over)) stay)
      (if-case (Standing c) _
        (do_shutdown_abruptly (record t {
          session = record t.session { expecting_response_for_outgoing_test_request = false };
        }))
        t (free, inl refl) stay)

test_response-Standing :
    (env : Environment) (c t : FixClient)
    → Standing c t
    → Standing c (respond_to_test_request_if_necessary env t)
unfolding respond_to_test_request_if_necessary send_client_heartbeat
test_response-Standing env c t stand =
    elim (Bool-cases t.session.needs_responding_to_incoming_test_request) [
      | inl h ↦ simp h (kept-Standing c t _ (send-IsKept env t _) stand)
      | inr h ↦ simp h stand
    ]

heartbeat-Standing :
    (env : Environment) (c t : FixClient) (current : ℕ)
    → Standing c t
    → Standing c (send_client_heartbeat_if_necessary env t current)
unfolding send_client_heartbeat_if_necessary send_client_heartbeat
heartbeat-Standing env c t current stand =
    if-case (Standing c) _ (send_client_heartbeat env t none).0 t
      (kept-Standing c t _ (send-IsKept env t _) stand) stand

-- A run of the work leaves a session that waits over or waiting.
live-Standing :
    (env : Environment) (c t : FixClient) (arrivals : List (List Arrival))
    → IsWaiting c t
    → let u = process_live env t arrivals in (u.session.state ≡ disconnected) ⊎ IsWaiting c u
unfolding process_live process_schedule_validator
live-Standing env c t arrivals waits =
    let clock = λ (u : FixClient). env.nanoseconds_monotonic u.tick in
    let next = λ (u : FixClient). record u { tick = u.tick + 1 } in
    let t₁ = timed env (process_outgoing_resend_request_if_necessary env) t in
    let h₁ = resend_timer-Standing env c (next t) (clock t) waits in
    let t₂ = timed env (process_outgoing_test_request_if_necessary env) t₁ in
    let h₂ = test_timer-Standing env c (next t₁) (clock t₁) h₁ in
    let t₃ = respond_to_resend_request_if_necessary env t₂ in
    let h₃ = subst (Standing c) (sym (no_resend env t₂ h₂.0)) h₂ in
    let t₄ = respond_to_test_request_if_necessary env t₃ in
    let h₄ = test_response-Standing env c t₃ h₃ in
    let t₅ = timed env (send_client_heartbeat_if_necessary env) t₄ in
    let h₅ = heartbeat-Standing env c (next t₄) (clock t₄) h₄ in
    if-case (λ u. (u.session.state ≡ disconnected) ⊎ IsWaiting c u) (not (is_now_valid env t₅))
      (do_shutdown env t₅ true arrivals) t₅ (inl (do_shutdown-disconnected env t₅ true arrivals))
      h₅.1

-- Runs of `process` in which no bytes and no command arrive.
abbrev pub silent_runs : Environment → ℕ → FixClient → FixClient
silent_runs env zero c = c
silent_runs env (suc n) c = process env (silent_runs env n c) [] none [] []

run_over :
    (env : Environment) (t : FixClient)
    → t.session.state ≡ disconnected
    → process env t [] none [] [] ≡ t
unfolding process process_admin_command
run_over env t over = simp over refl

run_live :
    (env : Environment) (t : FixClient)
    → is_state_live t.session.state ≡ true
    → process env t [] none [] [] ≡ process_live env t []
unfolding process process_admin_command process_incoming_messages
run_live env t live =
    simp live (if-case (λ u. process_live env u [] ≡ process_live env t []) _ t t refl refl)

runs-Standing :
    (env : Environment) (n : ℕ) (c : FixClient)
    → IsWaiting c c
    → let t = silent_runs env n c in (t.session.state ≡ disconnected) ⊎ IsWaiting c t
runs-Standing env zero c waits = inr waits
runs-Standing env (suc n) c waits =
    let t = silent_runs env n c in
    elim (runs-Standing env n c waits) [
      | inl over ↦ inl (ap (λ u. u.session.state) (run_over env t over) ∙ over)
      | inr still ↦
          subst (λ u. (u.session.state ≡ disconnected) ⊎ IsWaiting c u)
            (sym (run_live env t still.1)) (live-Standing env c t [] still)
    ]

-- A server that keeps silent is dropped. When a live session waits for the answer to a test request and has
-- no resend request to answer, then whatever number of runs has gone by without bytes or a command,
-- the session is disconnected after a run in which twice the heartbeat interval has passed since the
-- test request, at the time that the run reads for this timer.
pub silent_server :
    (env : Environment) (c : FixClient) (n : ℕ)
    → is_state_live c.session.state ≡ true
    → c.session.expecting_response_for_outgoing_test_request ≡ true
    → c.session.needs_responding_to_incoming_resend_request ≡ false
    → c.session.settings.heartbeat_interval_in_nanoseconds * 2 % 2 ^ 64
      ≤ delta
          (time_read env (silent_runs env n c))
          c.session.outgoing_test_request_timestamp_nanoseconds
    → (silent_runs env (suc n) c).session.state ≡ disconnected
silent_server env c n live due none_due late =
    let t = silent_runs env n c in
    elim (runs-Standing env n c ((due, none_due, refl, refl), live)) [
      | inl over ↦ ap (λ u. u.session.state) (run_over env t over) ∙ over
      | inr ((due', free, same, settings), on) ↦
          (ap (λ u. u.session.state) (run_live env t on)
            ∙ overdue_run env t [] due' free (rw (same, settings) late))
    ]
