-- ===== src/Client/TimerLaws.antt =====
-- The timers of include/llfix/fix_client.h.
use llfix.Session.Record.{outgoing_seq_no}
use llfix.Outgoing.{OutgoingFixMessage, set_body_tag, set_msg_type, unsigned_text}
use llfix.Session.State.{◌=state◌, in_retransmission_initiated_by_self}
use llfix.Session.Builders.{build_test_request_message, build_resend_request_message}
use llfix.Common.{
  ℕ, true, false, refl, arith, leb, ◌+◌, ◌*◌, ◌%◌, ◌^◌, ◌≤◌, ◌<◌, ◌≡◌, ◌∷◌, [], if◌then◌else◌,
  if◌then◌else◌, ◌∷◌, [],
}
use llfix.Client.{
  FixClient, Environment, do_shutdown_abruptly, on_connection_lost, disconnected, SessionState,
  is_delivered, is_lost,
}
use llfix.Client.Send.{send_test_request, send_resend_request}
use llfix.Client.SendLaws.{send_outgoing_message-numbers, sent_bytes}
use llfix.Client.Timers.{
  delta, expect_response, process_outgoing_test_request_if_necessary,
  process_outgoing_resend_request_if_necessary, start_retransmission, second,
}

-- The message of type 1 that asks for an answer with the identifier.
abbrev pub test_request : ℕ → OutgoingFixMessage → OutgoingFixMessage
test_request id m = set_body_tag (set_msg_type m (b'1' ∷ [])) 112 (unsigned_text id)

-- The message of type 2 that asks for all messages from a number on.
abbrev pub resend_request : ℕ → OutgoingFixMessage → OutgoingFixMessage
resend_request begin_no m =
    set_body_tag (set_body_tag (set_msg_type m (b'2' ∷ [])) 7 (unsigned_text begin_no)) 16
      (b'0' ∷ [])

-- The message was given to the transport, with the number behind the last one, which is used up
-- exactly if the message was delivered.
abbrev pub Sends : Environment → FixClient → OutgoingFixMessage → FixClient → Type 0
Sends env c m t =
    let next = (outgoing_seq_no c.session + 1) % 2 ^ 32 in
    let ok = is_delivered (env.send c.tick) in
    (t.sent ≡ (sent_bytes env c m next, ok) ∷ c.sent)
    × (outgoing_seq_no t.session ≡ (if ok then next else outgoing_seq_no c.session))

-- The state after a send.
abbrev pub state_after : Environment → FixClient → SessionState
state_after env c = if is_lost (env.send c.tick) then disconnected else c.session.state

test_request_sent :
    (env : Environment) (c : FixClient)
    → let s = c.session in
      let t = (send_test_request env c).0 in
      Sends env c
        (test_request ((s.outgoing_test_request_id + 1) % 2 ^ 32) s.outgoing_fix_message)
        t
      × (t.session.state ≡ state_after env c)
unfolding send_test_request build_test_request_message sent_bytes
test_request_sent env c =
    let (sent, ok, numbers) = send_outgoing_message-numbers env _ _ in
    ((sent.sent, rw⁻¹ ok numbers), sent.state)

resend_request_sent :
    (env : Environment) (c : FixClient)
    → let s = c.session in
      Sends env c
        (resend_request s.outgoing_resend_request_begin_no s.outgoing_fix_message)
        (send_resend_request env c).0
unfolding send_resend_request build_resend_request_message
resend_request_sent env c =
    let (sent, ok, numbers) = send_outgoing_message-numbers env _ _ in (sent.sent, rw⁻¹ ok numbers)

leb-false : (a b : ℕ) → b < a → leb a b ≡ false
leb-false a b lt = ground arith

pub leb-true : (a b : ℕ) → a ≤ b → leb a b ≡ true
leb-true a b le = ground arith

-- The test request timer has two phases. While no response is due, silence for the test request interval
-- makes the client send a test request with the next identifier and the next number, and expect a
-- response from now on, in the state that it was in unless the send finds the connection lost; shorter
-- silence changes nothing.
-- While a response is due, the session goes on unchanged until twice the heartbeat interval has
-- passed since the request, and is then ended without sending anything.
pub test_request_phases :
    (env : Environment) (c : FixClient) (current : ℕ)
    → let s = c.session in
      let t = process_outgoing_test_request_if_necessary env c current in
      let silence = delta current s.last_received_message_timestamp_nanoseconds in
      let waited = delta current s.outgoing_test_request_timestamp_nanoseconds in
      (s.expecting_response_for_outgoing_test_request ≡ false
        → (silence < s.settings.outgoing_test_request_interval_in_nanoseconds → t ≡ c)
          × (s.settings.outgoing_test_request_interval_in_nanoseconds ≤ silence
              → Sends env c
                  (test_request ((s.outgoing_test_request_id + 1) % 2 ^ 32) s.outgoing_fix_message)
                  t
                × (t.session.expecting_response_for_outgoing_test_request ≡ true)
                × (t.session.outgoing_test_request_timestamp_nanoseconds ≡ current)
                × (t.session.state ≡ state_after env c)))
      × (s.expecting_response_for_outgoing_test_request ≡ true
          → (waited < s.settings.heartbeat_interval_in_nanoseconds * 2 % 2 ^ 64 → t ≡ c)
            × (s.settings.heartbeat_interval_in_nanoseconds * 2 % 2 ^ 64 ≤ waited
                → (t.session.state ≡ disconnected)
                  × (t.session.expecting_response_for_outgoing_test_request ≡ false)
                  × (t.sent ≡ c.sent)))
unfolding process_outgoing_test_request_if_necessary expect_response do_shutdown_abruptly
    on_connection_lost
test_request_phases env c current =
    let (one, state) = test_request_sent env c in
    (
      λ idle. (
        λ short. (let b = leb-false _ _ short in simp (idle, b) refl),
        λ long. (let b = leb-true _ _ long in simp (idle, b) (one, refl, refl, state)),
      ),
      λ due. (
        λ short. (let b = leb-false _ _ short in simp (due, b) refl),
        λ long. (let b = leb-true _ _ long in simp (due, b) (refl, refl, refl)),
      ),
    )

-- The resend request timer. A queued request is sent with the next number, for all messages from the
-- first one that is missing, and the session counts as in
-- retransmission from then on, whatever its state was, that of a lost connection included; without a
-- queued request nothing changes. A retransmission that is under way goes on unchanged until the
-- configured seconds have passed since the request, and the session is then ended.
pub resend_request_phases :
    (env : Environment) (c : FixClient) (current : ℕ)
    → let s = c.session in
      let t = process_outgoing_resend_request_if_necessary env c current in
      let waited = delta current s.outgoing_resend_request_timestamp_nanoseconds in
      let limit = s.settings.outgoing_resend_request_expire_in_secs * second % 2 ^ 64 in
      ((s.state =state in_retransmission_initiated_by_self) ≡ false
        → (s.needs_to_send_resend_request ≡ false → t ≡ c)
          × (s.needs_to_send_resend_request ≡ true
              → Sends env c
                  (resend_request s.outgoing_resend_request_begin_no s.outgoing_fix_message)
                  t
                × (t.session.state ≡ in_retransmission_initiated_by_self)
                × (t.session.needs_to_send_resend_request ≡ false)
                × (t.session.outgoing_resend_request_timestamp_nanoseconds ≡ current)))
      × ((s.state =state in_retransmission_initiated_by_self) ≡ true
          → (waited < limit → t ≡ c)
            × (limit ≤ waited → (t.session.state ≡ disconnected) × (t.sent ≡ c.sent)))
unfolding process_outgoing_resend_request_if_necessary start_retransmission do_shutdown_abruptly
    on_connection_lost
resend_request_phases env c current =
    let one = resend_request_sent env c in
    (
      λ other. (
        λ none_due. simp (other, none_due) refl,
        λ due. simp (other, due) (one, refl, refl, refl),
      ),
      λ self. (
        λ short. (let b = leb-false _ _ short in simp (self, b) refl),
        λ long. (let b = leb-true _ _ long in simp (self, b) (refl, refl)),
      ),
    )
