-- ===== src/Client/SendLaws.antt =====
-- What sending changes in the client of include/llfix/fix_client.h.
use llfix.Serialiser.{
  MessageSerialiser, has_message_in_memory, write, read_message-write, read_message,
}
use llfix.Session.Record.{serialisation_enabled}
use llfix.Common.{
  true, false, ℕ, Bool, refl, inl, inr, List, if◌then◌else◌, Bool-cases, ◌+◌, ◌%◌, ◌^◌, ◌≡◌, ◌∷◌,
  ◌&&◌,
}
use llfix.Transport.{SendOutcome, is_delivered, is_lost}
use llfix.Client.{on_disconnection, disconnected, FixClient, Environment, send_bytes}
use llfix.Client.Send.{encode_and_send, send_outgoing_message}
use llfix.Outgoing.{OutgoingFixMessage, encode, encode_bytes}
use llfix.Session.Record.{outgoing_seq_no, incoming_seq_no}
use llfix.Session.SequenceStore.{increment_outgoing_seq_no}

unfoldable pub sent_bytes : Environment → FixClient → OutgoingFixMessage → ℕ → List ℕ
sent_bytes env c m sequence_no =
    encode_bytes c.session.settings (incoming_seq_no c.session) m (env.current_time c.tick)
      sequence_no

-- What every send leaves alone, and what it appends.
pub record IsSent (c t : FixClient) (bytes : List ℕ) (outcome : SendOutcome) : Type 0 where
  pub sent : t.sent ≡ (bytes, is_delivered outcome) ∷ c.sent
  pub incoming : incoming_seq_no t.session ≡ incoming_seq_no c.session
  pub state : t.session.state ≡ (if is_lost outcome then disconnected else c.session.state)
  pub events : t.events ≡ (if is_lost outcome then on_disconnection ∷ c.events else c.events)
  pub records :
      (n : ℕ)
      → has_message_in_memory c.outgoing_messages_serialiser n ≡ true
      → has_message_in_memory t.outgoing_messages_serialiser n ≡ true
  pub reads :
      (n : ℕ)
      → has_message_in_memory c.outgoing_messages_serialiser n ≡ true
      → read_message t.outgoing_messages_serialiser n
        ≡ read_message c.outgoing_messages_serialiser n
  pub settings : t.session.settings ≡ c.session.settings

written-records :
    (b : Bool) (s : MessageSerialiser) (message : List ℕ) (k n : ℕ)
    → has_message_in_memory s n ≡ true
    → let t = if b then write s message k else s in
      (has_message_in_memory t n ≡ true) × (read_message t n ≡ read_message s n)
written-records true s message k n h = (read_message-write s message k n).0 h
written-records false s message k n h = (h, refl)

pub encode_and_send-IsSent :
    (env : Environment) (increment : Bool) (c : FixClient) (m : OutgoingFixMessage)
    (sequence_no : ℕ)
    → let (t, ok) = encode_and_send env increment c m sequence_no in
      IsSent c t (sent_bytes env c m sequence_no) (env.send c.tick)
      × (ok ≡ is_delivered (env.send c.tick))
      × (outgoing_seq_no t.session ≡ (
          if increment && is_delivered (env.send c.tick)
          then (outgoing_seq_no c.session + 1) % 2 ^ 32
          else outgoing_seq_no c.session))
unfolding encode_and_send send_bytes encode sent_bytes increment_outgoing_seq_no
encode_and_send-IsSent env increment c m sequence_no =
    elim (Bool-cases (increment && is_delivered (env.send c.tick))) [
      | inl h ↦ (
        rw h (record {
          sent = refl;
          incoming = refl;
          state = refl;
          events = refl;
          settings = refl;
          records = λ n p. (written-records (serialisation_enabled c.session) _ _ _ n p).0;
          reads = λ n p. (written-records (serialisation_enabled c.session) _ _ _ n p).1;
        }),
        refl,
        rw h refl,
      )
      | inr h ↦ (
        rw h (record {
          sent = refl;
          incoming = refl;
          state = refl;
          events = refl;
          settings = refl;
          records = λ n p. (written-records (serialisation_enabled c.session) _ _ _ n p).0;
          reads = λ n p. (written-records (serialisation_enabled c.session) _ _ _ n p).1;
        }),
        refl,
        rw h refl,
      )
    ]

-- A message of the client gets the number behind the last one, which is used up only if the transport
-- took the message: the outgoing number grows by one, within 32 bits, exactly then, and the incoming
-- number and the records of earlier messages stay. The state and the calls of the user stay too,
-- unless the send finds the connection lost, which disconnects the session and is reported.
pub send_outgoing_message-numbers :
    (env : Environment) (c : FixClient) (m : OutgoingFixMessage)
    → let next = (outgoing_seq_no c.session + 1) % 2 ^ 32 in
      let (t, ok) = send_outgoing_message env c m in
      IsSent c t (sent_bytes env c m next) (env.send c.tick)
      × (ok ≡ is_delivered (env.send c.tick))
      × (outgoing_seq_no t.session ≡ (if ok then next else outgoing_seq_no c.session))
unfolding send_outgoing_message
send_outgoing_message-numbers env c m =
    let (sent, ok, numbers) =
      encode_and_send-IsSent env true c m ((outgoing_seq_no c.session + 1) % 2 ^ 32) in
    (sent, ok, rw ok numbers)
