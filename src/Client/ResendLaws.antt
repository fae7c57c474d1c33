-- ===== src/Client/ResendLaws.antt =====
-- The answer to a resend request in include/llfix/fix_client.h.
use llfix.Session.Builders.{build_gap_fill_message}
use llfix.Outgoing.Load.{load_from_buffer}
use llfix.Session.Settings.{FixSessionSettings}
use llfix.Session.State.{logged_on}
use llfix.Outgoing.{
  OutgoingFixMessage, set_header_tag, set_body_tag, set_msg_type, encode, encode_bytes,
  unsigned_text, clear,
}
use llfix.Common.{
  ℕ, zero, suc, true, false, refl, inl, inr, some, List, arith, if◌then◌else◌, Bool-cases,
  Option-cases, ◌+◌, ◌-◌, ◌≡◌, ◌∙◌, ◌∷◌, [], Bool, none, ◌%◌, ◌^◌, ap, sym, subst,
}
use llfix.Client.{FixClient, Environment, FixSession, send_bytes, is_delivered}
use llfix.Client.Send.{
  resend_message, resend_messages, resend_messages_to_server, send_gap_fill_message,
  encode_and_send, flagged,
}
use llfix.Client.SendLaws.{encode_and_send-IsSent, sent_bytes}
use llfix.Client.Timers.{has_messages, will_replay, respond_to_resend_request_if_necessary}
use llfix.Serialiser.{MessageSerialiser, has_message_in_memory, read_message}
use llfix.Session.Record.{incoming_seq_no, outgoing_seq_no}

-- What a number of sends outside the sequence leaves.
record IsResent (c t : FixClient) (n : ℕ) : Type 0 where
  pub outgoing : outgoing_seq_no t.session ≡ outgoing_seq_no c.session
  pub incoming : incoming_seq_no t.session ≡ incoming_seq_no c.session
  pub records :
      (k : ℕ)
      → has_message_in_memory c.outgoing_messages_serialiser k ≡ true
      → has_message_in_memory t.outgoing_messages_serialiser k ≡ true

-- The flags of a message that may have been sent before, tags 43 and 97, as the setting asks for.
abbrev pub marked : Bool → OutgoingFixMessage → OutgoingFixMessage
marked include_t97 m =
    let m₁ = set_header_tag m 43 (b'Y' ∷ []) in
    if include_t97 then set_header_tag m₁ 97 (b'Y' ∷ []) else m₁

-- The stored messages with the numbers from `i` on are given to the transport one after the other, each
-- with its number and the flags, the next one built on what the last one leaves.
abbrev pub Replays :
    Environment
    → FixSessionSettings
    → ℕ
    → MessageSerialiser
    → ℕ
    → ℕ
    → ℕ
    → OutgoingFixMessage
    → List (List ℕ × Bool)
    → List (List ℕ × Bool)
    → Type 0
Replays env st incoming ser zero i tick m old new = new ≡ old
Replays env st incoming ser (suc n) i tick m old new =
    (stored : List ℕ) × (read_message ser i ≡ some stored)
    × (let m₁ = marked st.include_t97_during_resends (load_from_buffer m stored) in
        let bytes = encode_bytes st incoming m₁ (env.current_time tick) i in
        Replays env st incoming ser n (i + 1) (tick + 1)
          (record m₁ { send_time = none; header = []; body = []; trailer = [] })
          ((bytes, is_delivered (env.send tick)) ∷ old) new)

-- The message of type 4 that stands for all numbers in front of the next one.
abbrev pub gap_fill : ℕ → OutgoingFixMessage → OutgoingFixMessage
gap_fill next m =
    set_body_tag (set_body_tag (set_msg_type m (b'4' ∷ [])) 36 (unsigned_text next)) 123 (b'Y' ∷ [])

-- The records of a serialiser are still there, and say the same.
abbrev IsGrown : MessageSerialiser → MessageSerialiser → Type 0
IsGrown s t =
    (k : ℕ)
    → has_message_in_memory s k ≡ true
    → (has_message_in_memory t k ≡ true) × (read_message t k ≡ read_message s k)

read_some :
    (s : MessageSerialiser) (n : ℕ)
    → has_message_in_memory s n ≡ true
    → (message : List ℕ) × (read_message s n ≡ some message)
unfolding read_message has_message_in_memory
read_some s n h = elim (Option-cases (read_message s n)) [
  | inl e ↦ absurd (ground arith)
  | inr p ↦ p
]

has_messages_mono :
    (s t : MessageSerialiser)
    → ((k : ℕ) → has_message_in_memory s k ≡ true → has_message_in_memory t k ≡ true)
    → (rounds i : ℕ) → has_messages s rounds i ≡ true
    → has_messages t rounds i ≡ true
unfolding has_messages
has_messages_mono s t grow zero i h = refl
has_messages_mono s t grow (suc rounds) i h =
    let ih = has_messages_mono s t grow rounds (i + 1) in let g = grow i in ground arith

-- Sends outside the sequence leave this.
IsResent-single :
    (env : Environment) (c : FixClient) (m : OutgoingFixMessage) (i : ℕ)
    → IsResent c ((encode_and_send env false c m i).0) 1
IsResent-single env c m i =
    let (sent, ok, numbers) = encode_and_send-IsSent env false c m i in
    record { outgoing = numbers; incoming = sent.incoming; records = sent.records }

IsResent-once :
    (env : Environment) (c : FixClient) (i : ℕ) (bytes : List ℕ)
    → IsResent c (resend_message env c i (some bytes)) 1
unfolding resend_message
IsResent-once env c i bytes = IsResent-single env c _ i

IsResent-trans :
    (a b c : FixClient) (m n : ℕ) → IsResent a b m → IsResent b c n → IsResent a c (m + n)
IsResent-trans a b c m n p q = record {
  outgoing = q.outgoing ∙ p.outgoing;
  incoming = q.incoming ∙ p.incoming;
  records = λ k h. q.records k (p.records k h);
}

resend_messages-IsResent :
    (env : Environment) (rounds : ℕ) (c : FixClient) (i : ℕ)
    → has_messages c.outgoing_messages_serialiser rounds i ≡ true
    → IsResent c (resend_messages env rounds c i) rounds
unfolding resend_messages has_messages
resend_messages-IsResent env zero c i h = record {
  outgoing = refl;
  incoming = refl;
  records = λ k p. p;
}
resend_messages-IsResent env (suc rounds) c i h =
    let first : has_message_in_memory c.outgoing_messages_serialiser i ≡ true = ground arith in
    let later : has_messages c.outgoing_messages_serialiser rounds (i + 1) ≡ true = ground arith in
    let (bytes, e) = read_some c.outgoing_messages_serialiser i first in
    let once = IsResent-once env c i bytes in
    let d = resend_message env c i (some bytes) in
    let grown =
      has_messages_mono c.outgoing_messages_serialiser d.outgoing_messages_serialiser once.records
        rounds (i + 1) later in
    let all =
      IsResent-trans c d _ 1 rounds once (resend_messages-IsResent env rounds d (i + 1) grown) in
    let n : suc rounds ≡ 1 + rounds = omega arith in rw (e, n) all

replay-has_messages :
    (s : FixSession) (serialiser : MessageSerialiser)
    → will_replay s serialiser ≡ true
    → has_messages serialiser
        (outgoing_seq_no s + 1 - s.incoming_resend_request_begin_no)
        s.incoming_resend_request_begin_no
      ≡ true
unfolding will_replay
replay-has_messages s serialiser h = ground arith

-- What one round leaves for the next.
resend_message-next :
    (env : Environment) (c : FixClient) (i : ℕ) (bytes : List ℕ)
    → let t = resend_message env c i (some bytes) in
      let m =
        marked c.session.settings.include_t97_during_resends
          (load_from_buffer c.session.outgoing_fix_message bytes) in
      (t.tick ≡ c.tick + 1)
      × (t.session.outgoing_fix_message
          ≡ record m { send_time = none; header = []; body = []; trailer = [] })
      × (t.session.settings ≡ c.session.settings)
      × (incoming_seq_no t.session ≡ incoming_seq_no c.session)
      × (t.sent
          ≡ (
            encode_bytes c.session.settings
                (incoming_seq_no c.session)
                m
                (env.current_time c.tick)
                i,
            is_delivered (env.send c.tick),
          )
            ∷ c.sent)
unfolding resend_message encode_and_send send_bytes encode clear flagged
resend_message-next env c i bytes = (refl, refl, refl, refl, refl)

resend_message-IsGrown :
    (env : Environment) (c : FixClient) (i : ℕ) (bytes : List ℕ)
    → IsGrown c.outgoing_messages_serialiser
        (resend_message env c i (some bytes)).outgoing_messages_serialiser
unfolding resend_message
resend_message-IsGrown env c i bytes k h =
    let (sent, ok, numbers) = encode_and_send-IsSent env false c _ i in
    (sent.records k h, sent.reads k h)

resend_messages-Replays :
    (env : Environment) (ser : MessageSerialiser) (rounds : ℕ) (c : FixClient) (i : ℕ)
    → IsGrown ser c.outgoing_messages_serialiser
    → has_messages ser rounds i ≡ true
    → Replays env c.session.settings
        (incoming_seq_no c.session)
        ser
        rounds
        i
        c.tick
        c.session.outgoing_fix_message
        c.sent
        (resend_messages env rounds c i).sent
unfolding resend_messages has_messages resend_message encode_and_send send_bytes encode clear
    flagged
resend_messages-Replays env ser zero c i grown h = refl
resend_messages-Replays env ser (suc rounds) c i grown h =
    let first : has_message_in_memory ser i ≡ true = ground arith in
    let later : has_messages ser rounds (i + 1) ≡ true = ground arith in
    let (bytes, e) = read_some ser i first in
    let same : read_message c.outgoing_messages_serialiser i ≡ some bytes = (grown i first).1 ∙ e in
    let d = resend_message env c i (some bytes) in
    let (tick, left, settings, incoming, sent) = resend_message-next env c i bytes in
    let wider : IsGrown ser d.outgoing_messages_serialiser = λ k p.
      (let (there, reads) = grown k p in
        let (there', reads') = resend_message-IsGrown env c i bytes k there in
        (there', reads' ∙ reads)) in
    let ih = resend_messages-Replays env ser rounds d (i + 1) wider later in
    let step : resend_messages env rounds d (i + 1) ≡ resend_messages env (suc rounds) c i =
      ap (λ o. resend_messages env rounds (resend_message env c i o) (i + 1)) (sym same) in
    subst
      (λ t.
        Replays env c.session.settings (incoming_seq_no c.session) ser (suc rounds) i c.tick
          c.session.outgoing_fix_message c.sent t.sent)
      step (bytes, e, ih)

-- A resend request is answered at once and completely. If the messages may be replayed, each stored
-- message from the one that was asked for to the last one is given to the transport in order, with its
-- own number and the flags of a repeated message. Otherwise that is one gap fill, a message of type 4
-- with the number that was asked for, whose tag 36 is the number behind the last one. Either way both
-- sequence numbers stay, the request is done with, and the session counts as logged on, also where a
-- send has found the connection lost.
pub resend_response :
    (env : Environment) (c : FixClient)
    → c.session.needs_responding_to_incoming_resend_request ≡ true
    → let begin_no = c.session.incoming_resend_request_begin_no in
      let t = respond_to_resend_request_if_necessary env c in
      (if will_replay c.session c.outgoing_messages_serialiser
        then Replays env c.session.settings
            (incoming_seq_no c.session)
            c.outgoing_messages_serialiser
            (outgoing_seq_no c.session + 1 - begin_no)
            begin_no
            c.tick
            c.session.outgoing_fix_message
            c.sent
            t.sent
        else t.sent
          ≡ (
            encode_bytes c.session.settings
                (incoming_seq_no c.session)
                (gap_fill ((outgoing_seq_no c.session + 1) % 2 ^ 32) c.session.outgoing_fix_message)
                (env.current_time c.tick)
                begin_no,
            is_delivered (env.send c.tick),
          )
            ∷ c.sent)
      × (outgoing_seq_no t.session ≡ outgoing_seq_no c.session)
      × (incoming_seq_no t.session ≡ incoming_seq_no c.session)
      × (t.session.needs_responding_to_incoming_resend_request ≡ false)
      × (t.session.state ≡ logged_on)
unfolding respond_to_resend_request_if_necessary resend_messages_to_server send_gap_fill_message
    sent_bytes build_gap_fill_message
resend_response env c needs =
    elim (Bool-cases (will_replay c.session c.outgoing_messages_serialiser)) [
      | inl h ↦
          (let r =
              resend_messages-IsResent env _ c _
                (replay-has_messages c.session c.outgoing_messages_serialiser h) in
            let replays =
              resend_messages-Replays env c.outgoing_messages_serialiser _ c _ (λ k p. (p, refl))
                (replay-has_messages c.session c.outgoing_messages_serialiser h) in
            simp (needs, h) (replays, r.outgoing, r.incoming, refl, refl))
      | inr h ↦
          (let r = IsResent-single env c _ _ in
            let (s, ok, numbers) =
              encode_and_send-IsSent env false c
                (build_gap_fill_message c.session c.session.outgoing_fix_message)
                c.session.incoming_resend_request_begin_no in
            simp (needs, h) (s.sent, r.outgoing, r.incoming, refl, refl))
    ]
