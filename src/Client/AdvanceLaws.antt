-- ===== src/Client/AdvanceLaws.antt =====
-- When the incoming number of include/llfix/fix_client.h moves.
use llfix.Client.SequenceLaws.{verdict, counted, process_accepted_lem, numbered-gap, numbered-low}
use llfix.Session.SequenceStore.{increment_incoming_seq_no, set_incoming_seq_no}
use llfix.Constants.{tag_msg_type, tag_msg_seq_num}
use llfix.Utilities.MessageType.{msg_type_sequence_reset}
use llfix.Common.{
  ℕ, true, false, refl, ap, inl, inr, Option, none, some, List, [], arith, get_or, Bool-cases, ◌≤◌,
  ◌≡◌, ◌⊎◌, ◌∷◌, ◌==◌, ◌∙◌, ◌<◌, ◌+◌, ◌^◌, ltb, ◌&&◌, not, ◌-◌, ◌%◌, sym,
}
use llfix.Client.{FixClient, Environment, do_shutdown_abruptly, on_connection_lost}
use llfix.Client.Send.{send_reject_message}
use llfix.Client.SendLaws.{send_outgoing_message-numbers}
use llfix.Client.Dispatch.{
  process_verdict, dispatch, finish_resend, process_sequence_reset, process_logon_reject,
  process_session_level_reject, process_application_level_reject, process_logon_response,
  process_logout_response, process_numbered, process_incoming_fix_message, note_received,
}
use llfix.Message.{
  IncomingFixMessage, get_tag_value_as_char, get_tag_value, get_tag_value_as_uint32,
}
use llfix.Session.Record.{FixSession, incoming_seq_no, queue_outgoing_resend_request}
use llfix.Session.Validate.{refused, Verdict, accepted}
use llfix.Session.Receive.{
  is_a_hard_sequence_reset_message, process_incoming_sequence_reset_message,
  process_test_request_message, process_resend_request,
}
use llfix.Session.ReceiveLaws.{sequence_reset_forward}

abbrev incoming : FixClient → ℕ
incoming c = incoming_seq_no c.session

test_request-incoming :
    (s : FixSession) (m : IncomingFixMessage)
    → incoming_seq_no (process_test_request_message s m) ≡ incoming_seq_no s
unfolding process_test_request_message
test_request-incoming s m = ground arith

resend_request-incoming :
    (s : FixSession) (m : IncomingFixMessage)
    → incoming_seq_no (process_resend_request s m) ≡ incoming_seq_no s
unfolding process_resend_request
resend_request-incoming s m = ground arith

rejects-incoming :
    (c : FixClient)
    → (incoming (process_session_level_reject c) ≡ incoming c)
      × (incoming (process_application_level_reject c) ≡ incoming c)
      × (incoming (process_logout_response c) ≡ incoming c)
unfolding process_session_level_reject process_application_level_reject process_logout_response
    process_logon_reject
rejects-incoming c = (ground arith, ground arith, ground arith)

reject-incoming :
    (env : Environment) (c : FixClient) (m : IncomingFixMessage) (code tag : ℕ)
    → incoming ((send_reject_message env c m code tag).0) ≡ incoming c
unfolding send_reject_message
reject-incoming env c m code tag =
    let (sent, ok, numbers) = send_outgoing_message-numbers env c _ in sent.incoming

sequence_reset-incoming :
    (env : Environment) (c : FixClient) (m : IncomingFixMessage)
    → incoming c ≤ incoming (process_sequence_reset env c m)
unfolding process_sequence_reset
sequence_reset-incoming env c m =
    let (s, acceptable) = process_incoming_sequence_reset_message c.session m in
    let (moved, refusal) = sequence_reset_forward c.session m in
    let le : incoming_seq_no c.session ≤ incoming_seq_no s = elim moved [
      | inl e ↦ (let q : incoming_seq_no s ≡ incoming c = ap incoming_seq_no e in omega arith)
      | inr (a, b, d, f) ↦ omega arith
    ] in
    elim (Bool-cases acceptable) [
      | inl h ↦ rw h le
      | inr h ↦ rw (h, reject-incoming env (record c { session = s }) m _ _) le
    ]

other-incoming :
    (env : Environment) (c : FixClient) (m : IncomingFixMessage) (t : ℕ)
    → (t == msg_type_sequence_reset) ≡ false
    → incoming (dispatch env c m (t ∷ [])) ≡ incoming c
unfolding dispatch process_logon_response
other-incoming env c m t h =
    let (r₁, r₂, r₃) = rejects-incoming c in
    let tr = test_request-incoming c.session m in
    let rr = resend_request-incoming c.session m in ground arith

-- Only a sequence reset moves the number when a message is handed on, and then not back.
dispatch-incoming :
    (env : Environment) (c : FixClient) (m : IncomingFixMessage) (ty : List ℕ)
    → (incoming (dispatch env c m ty) ≡ incoming c)
      ⊎ ((get_or ty 0 0 ≡ msg_type_sequence_reset) × (incoming c ≤ incoming (dispatch env c m ty)))
unfolding dispatch
dispatch-incoming env c m [] = inl refl
dispatch-incoming env c m (t ∷ u ∷ ty) = inl refl
dispatch-incoming env c m (t ∷ []) = elim (Bool-cases (t == msg_type_sequence_reset)) [
  | inl h ↦
      (let e : t ≡ msg_type_sequence_reset = ground arith in
        inr (e, rw e (sequence_reset-incoming env c m)))
  | inr h ↦ inl (other-incoming env c m t h)
]

finish_resend-incoming : (c : FixClient) (n : ℕ) → incoming (finish_resend c n) ≡ incoming c
unfolding finish_resend
finish_resend-incoming c n = ground arith

hard-head :
    (m : IncomingFixMessage)
    → is_a_hard_sequence_reset_message m ≡ true
    → get_tag_value_as_char m tag_msg_type ≡ msg_type_sequence_reset
unfolding is_a_hard_sequence_reset_message
hard-head m h = ground arith

-- What a message that is handed on does, from the number that was counted.
handed_on :
    (env : Environment) (c : FixClient) (m : IncomingFixMessage) (n : ℕ)
    → let t = dispatch env (finish_resend c n) m (get_tag_value m tag_msg_type) in
      (incoming t ≡ incoming c)
      ⊎ ((get_tag_value_as_char m tag_msg_type ≡ msg_type_sequence_reset)
          × (incoming c ≤ incoming t))
unfolding get_tag_value_as_char
handed_on env c m n =
    let keep = finish_resend-incoming c n in
    let d = dispatch-incoming env (finish_resend c n) m (get_tag_value m tag_msg_type) in
    elim d [ inl e ↦ inl (e ∙ keep) | inr (a, b) ↦ inr (a, omega (arith, keep)) ]

refused-incoming :
    (env : Environment) (c : FixClient) (m : IncomingFixMessage) (tag : ℕ) (code : Option ℕ)
    → incoming (process_verdict env c m (refused tag code)) ≡ incoming c
unfolding process_verdict
refused-incoming env c m tag none = refl
refused-incoming env c m tag (some code) = reject-incoming env _ m code tag

numbered-handed :
    (env : Environment) (c : FixClient) (m : IncomingFixMessage) (expected seq_no : ℕ)
    → (is_a_hard_sequence_reset_message m ≡ true) ⊎ (seq_no ≡ expected)
    → process_numbered env c m expected seq_no
      ≡ dispatch env (finish_resend c seq_no) m (get_tag_value m tag_msg_type)
unfolding process_numbered
numbered-handed env c m expected seq_no h =
    let g : (ltb expected seq_no && not (is_a_hard_sequence_reset_message m)) ≡ false =
      ground arith in
    let l : (ltb seq_no expected && not (is_a_hard_sequence_reset_message m)) ≡ false =
      ground arith in
    rw (g, l) refl

compare_cases : (a b : ℕ) → (a < b) ⊎ (a ≡ b) ⊎ (b < a)
compare_cases a b = ground arith

-- The branches of the number checks.
numbered-cases :
    (env : Environment) (c : FixClient) (m : IncomingFixMessage) (expected seq_no : ℕ)
    → incoming c ≡ expected
    → 0 < expected
    → expected < 2 ^ 32
    → let t = process_numbered env c m expected seq_no in
      (incoming t + 1 ≡ expected)
      ⊎ ((seq_no ≡ expected) × (incoming t ≡ expected))
      ⊎ ((get_tag_value_as_char m tag_msg_type ≡ msg_type_sequence_reset) × (expected ≤ incoming t))
unfolding queue_outgoing_resend_request set_incoming_seq_no do_shutdown_abruptly on_connection_lost
numbered-cases env c m expected seq_no at pos small =
    let back : (expected + 2 ^ 32 - 1) % 2 ^ 32 + 1 ≡ expected = omega arith in
    let on = handed_on env c m seq_no in
    elim (Bool-cases (is_a_hard_sequence_reset_message m)) [
      | inl h ↦
          (let head = hard-head m h in
            rw (numbered-handed env c m expected seq_no (inl h)) (elim on [
              | inl e ↦ inr (inr (head, omega (arith, e)))
              | inr (a, b) ↦ inr (inr (a, omega (arith, b)))
            ]))
      | inr h ↦ elim (compare_cases expected seq_no) [
        | inl lt ↦ inl (rw (numbered-gap env c m expected seq_no h lt) back)
        | inr (inl e) ↦ rw (numbered-handed env c m expected seq_no (inr (sym e))) (elim on [
          | inl q ↦ inr (inl (sym e, q ∙ at))
          | inr (a, b) ↦ inr (inr (a, omega (arith, b)))
        ])
        | inr (inr gt) ↦ inl (rw (numbered-low env c m expected seq_no h gt) back)
      ]
    ]

verdict-cases :
    (v : Verdict) → (v ≡ accepted) ⊎ ((tag : ℕ) × (code : Option ℕ) × (v ≡ refused tag code))
verdict-cases accepted = inl refl
verdict-cases (refused tag code) = inr (tag, code, refl)

counted-incoming :
    (env : Environment) (c : FixClient)
    → incoming c + 1 < 2 ^ 32
    → incoming (counted env c) ≡ incoming c + 1
unfolding increment_incoming_seq_no note_received
counted-incoming env c small = omega arith

note_received-incoming :
    (env : Environment) (c : FixClient) → incoming (note_received env c) ≡ incoming c
unfolding note_received
note_received-incoming env c = refl

refused_lem :
    (env : Environment) (c : FixClient) (m : IncomingFixMessage) (buffer : List ℕ) (code tag : ℕ)
    (reply : Option ℕ)
    → verdict env c m buffer code ≡ refused tag reply
    → incoming (process_incoming_fix_message env c m buffer code) ≡ incoming c
unfolding process_incoming_fix_message
refused_lem env c m buffer code tag reply v =
    rw v (refused-incoming env (note_received env c) m tag reply ∙ (note_received-incoming env c))

-- The incoming number moves in two ways only: by one, when the message that was processed has exactly
-- the expected number, and forward when the message's type is that of a sequence reset. So no
-- number is skipped or counted twice by a refused message, by a gap or by a repeated message.
pub incoming_advance :
    (env : Environment) (c : FixClient) (m : IncomingFixMessage) (buffer : List ℕ) (code : ℕ)
    → incoming_seq_no c.session + 1 < 2 ^ 32
    → let expected = incoming_seq_no c.session + 1 in
      let t = process_incoming_fix_message env c m buffer code in
      (incoming_seq_no t.session ≡ incoming_seq_no c.session)
      ⊎ ((get_tag_value_as_uint32 m tag_msg_seq_num ≡ expected)
          × (incoming_seq_no t.session ≡ expected))
      ⊎ ((get_tag_value_as_char m tag_msg_type ≡ msg_type_sequence_reset)
          × (expected ≤ incoming_seq_no t.session))
incoming_advance env c m buffer code small = elim (verdict-cases (verdict env c m buffer code)) [
  | inl v ↦
      (let e = process_accepted_lem env c m buffer code v small in
        let q = counted-incoming env c small in
        let cases =
          numbered-cases env (counted env c) m (incoming_seq_no c.session + 1)
            (get_tag_value_as_uint32 m tag_msg_seq_num) q (omega arith) small in
        rw e (elim cases [
          | inl a ↦ inl (omega (arith, a))
          | inr (inl b) ↦ inr (inl b)
          | inr (inr d) ↦ inr (inr d)
        ]))
  | inr (tag, reply, v) ↦ inl (refused_lem env c m buffer code tag reply v)
]
