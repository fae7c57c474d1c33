-- ===== src/Client/AdminLaws.antt =====
-- Connecting, disabling and shutting down in include/llfix/fix_client.h.
use llfix.Session.Settings.{FixSessionSettings}
use llfix.StringView.{fix_boolean_true}
use llfix.Constants.{
  tag_new_password, tag_password, tag_username, tag_next_expected_seq_num, tag_reset_seq_num_flag,
  tag_default_appl_ver_id,
}
use llfix.Session.Builders.{set_if}
use llfix.Outgoing.{OutgoingFixMessage, encode_bytes, set_body_tag, unsigned_text}
use llfix.Session.SequenceStore.{reset_numbers}
use llfix.Session.Record.{outgoing_seq_no, incoming_seq_no, reset_flags}
use llfix.Client.{disconnected, on_connection, on_disconnection, is_lost, is_delivered, FixSession}
use llfix.Common.{
  ℕ, Bool, true, false, not, refl, List, ◌+◌, ◌≡◌, ◌∷◌, ◌&&◌, ◌||◌, if◌then◌else◌, ◌%◌, ◌^◌, [],
  if-case, ◌∙◌, ap,
}
use llfix.Client.{FixClient, Environment}
use llfix.Client.Send.{send_logon_request, send_outgoing_message, logon_tags, is_text}
use llfix.Client.SendLaws.{send_outgoing_message-numbers, sent_bytes}
use llfix.Client.Shutdown.{Arrival, do_shutdown}
use llfix.Client.Admin.{connect, connected, is_now_valid}
use llfix.Session.State.{◌=state◌, disabled, pending_logon}

-- A message of type A was given to the transport, with the numbers `incoming` and `outgoing` as the last
-- ones. Its own number is used up exactly if it was delivered.
abbrev pub SendsLogon :
    Environment → FixSessionSettings → ℕ → ℕ → ℕ → FixClient → FixClient → Type 0
SendsLogon env st incoming outgoing tick c t =
    let number = (outgoing + 1) % 2 ^ 32 in
    let ok = is_delivered (env.send tick) in
    (m : OutgoingFixMessage) × (m.msg_type ≡ b'A' ∷ [])
    × (t.sent ≡ (encode_bytes st incoming m (env.current_time tick) number, ok) ∷ c.sent)
    × (outgoing_seq_no t.session ≡ (if ok then number else outgoing))

-- Where the setting asks for it both numbers are zero.
renumbered : FixSession → FixSession
renumbered s =
    if s.settings.logon_reset_sequence_numbers
    then record s { sequence_store = record { outgoing_seq_no = 0; incoming_seq_no = 0 } }
    else s

chosen :
    {A : Type 0}
    → (f : FixSession → A) (b : Bool) (s t : FixSession)
    → f (if b then s else t) ≡ (if b then f s else f t)
chosen f true s t = refl
chosen f false s t = refl

-- The three values that the logon takes from the session.
renumbered_lem :
    (s : FixSession)
    → let b = s.settings.logon_reset_sequence_numbers in
      ((renumbered s).state ≡ s.state)
      × ((renumbered s).settings ≡ s.settings)
      × (incoming_seq_no (renumbered s) ≡ (if b then 0 else incoming_seq_no s))
      × (outgoing_seq_no (renumbered s) ≡ (if b then 0 else outgoing_seq_no s))
unfolding renumbered
renumbered_lem s =
    let b = s.settings.logon_reset_sequence_numbers in
    (
      if-case (λ x. x.state ≡ s.state) b _ s refl refl,
      if-case (λ x. x.settings ≡ s.settings) b _ s refl refl,
      chosen incoming_seq_no b _ s,
      chosen outgoing_seq_no b _ s,
    )

-- A logon stays one whatever else is set.
set_if-type :
    (b : Bool) (m : OutgoingFixMessage) (tag : ℕ) (v : List ℕ)
    → m.msg_type ≡ b'A' ∷ []
    → (set_if b m tag v).msg_type ≡ b'A' ∷ []
set_if-type b m tag v h = if-case (λ x. x.msg_type ≡ b'A' ∷ []) b (set_body_tag m tag v) m h h

logon_tags-type : (s : FixSession) (m : OutgoingFixMessage) → (logon_tags s m).msg_type ≡ b'A' ∷ []
logon_tags-type s m =
    let st = s.settings in
    set_if-type (is_text st.logon_message_new_password) _ tag_new_password
      st.logon_message_new_password
      (set_if-type (is_text st.logon_password) _ tag_password st.logon_password (
        set_if-type (is_text st.logon_username) _ tag_username st.logon_username (
          set_if-type st.logon_include_next_expected_seq_no _ tag_next_expected_seq_num
            (unsigned_text ((incoming_seq_no s + 1) % 2 ^ 32))
            (set_if-type st.logon_reset_sequence_numbers _ tag_reset_seq_num_flag
              (fix_boolean_true ∷ [])
              (set_if-type (is_text st.default_app_ver_id) _ tag_default_appl_ver_id
                st.default_app_ver_id refl)))))

-- A send, with the number that it has.
sent_with :
    (env : Environment) (c : FixClient) (m : OutgoingFixMessage)
    → let (t, ok) = send_outgoing_message env c m in
      let next = (outgoing_seq_no c.session + 1) % 2 ^ 32 in
      let outcome = env.send c.tick in
      (t.session.state ≡ (if is_lost outcome then disconnected else c.session.state))
      × (t.events ≡ (if is_lost outcome then on_disconnection ∷ c.events else c.events))
      × (t.sent
          ≡ (
            encode_bytes c.session.settings
                (incoming_seq_no c.session)
                m
                (env.current_time c.tick)
                next,
            is_delivered outcome,
          )
            ∷ c.sent)
      × (outgoing_seq_no t.session
          ≡ (if is_delivered outcome then next else outgoing_seq_no c.session))
      × (ok ≡ is_delivered outcome)
unfolding sent_bytes
sent_with env c m =
    let (sent, ok, numbers) = send_outgoing_message-numbers env c m in
    let next = (outgoing_seq_no c.session + 1) % 2 ^ 32 in
    (
      sent.state,
      sent.events,
      sent.sent,
      numbers ∙ ap (λ (b : Bool). if b then next else outgoing_seq_no c.session) ok,
      ok,
    )

logon_with :
    (env : Environment) (tick : ℕ) (c t : FixClient) {st st' : FixSessionSettings} {i i' o o' : ℕ}
    → st ≡ st'
    → i ≡ i'
    → o ≡ o'
    → SendsLogon env st i o tick c t
    → SendsLogon env st' i' o' tick c t
logon_with env tick c t a b d h = rw⁻¹ (a, b, d) h

logon_sent :
    (env : Environment) (c : FixClient)
    → let (t, ok) = send_logon_request env c in
      let lost = is_lost (env.send c.tick) in
      (t.session.state ≡ (if lost then disconnected else c.session.state))
      × (t.events ≡ (if lost then on_disconnection ∷ c.events else c.events))
      × (let b = c.session.settings.logon_reset_sequence_numbers in
          SendsLogon env c.session.settings
            (if b then 0 else incoming_seq_no c.session)
            (if b then 0 else outgoing_seq_no c.session)
            c.tick
            c
            t)
      × (ok ≡ is_delivered (env.send c.tick))
unfolding send_logon_request reset_numbers renumbered
logon_sent env c =
    let s = renumbered c.session in
    let m = logon_tags s s.outgoing_fix_message in
    let lost = is_lost (env.send c.tick) in
    let (same, settings, incoming, outgoing) = renumbered_lem c.session in
    let (state, events, sent, numbers, ok) = sent_with env (record c { session = s }) m in
    (
      state ∙ ap (λ x. if lost then disconnected else x) same,
      events,
      logon_with env c.tick c ((send_logon_request env c).0) settings incoming outgoing
          (m, logon_tags-type s s.outgoing_fix_message, sent, numbers),
      ok,
    )

abbrev reached : Environment → FixClient → Bool
reached env c =
    env.connect c.tick
    || not (env.connect c.tick) && (c.has_secondary_address && env.connect (c.tick + 1))

-- Connecting, when the session is not disabled and its schedule allows it. If the primary address or, after
-- it failed, a secondary one answers, the user is told so, a logon is given to the transport, and the
-- result is whether it was delivered. The session then waits for the answer, unless the send finds the
-- connection lost, which disconnects it and is reported. If none answers, nothing is sent or reported, the session is
-- disconnected and the result is false.
pub connect_outcome :
    (env : Environment) (c : FixClient)
    → (c.session.state =state disabled) ≡ false
    → is_now_valid env c ≡ true
    → let (t, ok) = connect env c in
      (reached env c ≡ true
        → (t.session.state
            ≡ (if is_lost (env.send (c.tick + 2 + 2)) then disconnected else pending_logon))
          × (t.events ≡ (
              if is_lost (env.send (c.tick + 2 + 2))
              then on_disconnection ∷ on_connection ∷ c.events
              else on_connection ∷ c.events))
          × (let b = c.session.settings.logon_reset_sequence_numbers in
              SendsLogon env c.session.settings
                (if b then 0 else incoming_seq_no c.session)
                (if b then 0 else outgoing_seq_no c.session)
                (c.tick + 2 + 2)
                c
                t)
          × (ok ≡ is_delivered (env.send (c.tick + 2 + 2))))
      × (reached env c ≡ false
          → (t.session.state ≡ disconnected)
            × (t.events ≡ c.events)
            × (t.sent ≡ c.sent)
            × (ok ≡ false))
unfolding connect connected reset_flags
connect_outcome env c enabled valid = (
  λ up.
      (let (state, events, sent, ok) = logon_sent env _ in
        simp (enabled, valid, up) (state, events, sent, ok)),
  λ down. simp (enabled, valid, down) (refl, refl, refl, refl),
)

-- What ends a shutdown.
pub do_shutdown-disconnected :
    (env : Environment) (c : FixClient) (graceful : Bool) (arrivals : List (List Arrival))
    → (do_shutdown env c graceful arrivals).session.state ≡ disconnected
unfolding do_shutdown
do_shutdown-disconnected env c graceful arrivals = refl
