-- ===== src/Client/SequenceLaws.antt =====
-- What an incoming message does to the sequence numbers in include/llfix/fix_client.h.
use llfix.Constants.{tag_msg_seq_num}
use llfix.Common.{
  ℕ, true, false, refl, List, arith, ltb, if◌then◌else◌, ◌+◌, ◌-◌, ◌%◌, ◌^◌, ◌<◌, ◌≡◌, ◌∷◌,
}
use llfix.Client.{
  FixClient, Environment, do_shutdown_abruptly, on_connection_lost, disconnected, on_disconnection,
}
use llfix.Client.Dispatch.{
  note_received, process_numbered, process_accepted, process_verdict, process_incoming_fix_message,
}
use llfix.Message.{IncomingFixMessage, get_tag_value_as_uint32}
use llfix.Session.Record.{incoming_seq_no, queue_outgoing_resend_request}
use llfix.Session.SequenceStore.{increment_incoming_seq_no, set_incoming_seq_no}
use llfix.Session.Validate.{Verdict, accepted, validate_fix_message}
use llfix.Session.Receive.{is_a_hard_sequence_reset_message}

-- The outcome of the checks that processing goes by.
abbrev pub verdict : Environment → FixClient → IncomingFixMessage → List ℕ → ℕ → Verdict
verdict env c m buffer code =
    if c.session.settings.validations_enabled
    then validate_fix_message env.timegm (env.seconds c.tick) (note_received env c).session m buffer
        code
    else accepted

-- What a gap and a low number leave.
pub record IsGap (c t : FixClient) (expected seq_no : ℕ) : Type 0 where
  pub incoming : incoming_seq_no t.session ≡ incoming_seq_no c.session
  pub queued : t.session.needs_to_send_resend_request ≡ true
  pub from : t.session.outgoing_resend_request_begin_no ≡ expected
  pub to : t.session.outgoing_resend_request_end_no ≡ seq_no
  pub state : t.session.state ≡ c.session.state
  pub sent : t.sent ≡ c.sent
  pub events : t.events ≡ c.events

pub record IsTooLow (c t : FixClient) : Type 0 where
  pub incoming : incoming_seq_no t.session ≡ incoming_seq_no c.session
  pub state : t.session.state ≡ disconnected
  pub sent : t.sent ≡ c.sent
  pub events : t.events ≡ on_disconnection ∷ c.events

pub numbered-gap :
    (env : Environment) (c : FixClient) (m : IncomingFixMessage) (expected seq_no : ℕ)
    → is_a_hard_sequence_reset_message m ≡ false
    → expected < seq_no
    → process_numbered env c m expected seq_no
      ≡ record c { session = queue_outgoing_resend_request c.session expected seq_no }
unfolding process_numbered
numbered-gap env c m expected seq_no hard gap =
    let g : ltb expected seq_no ≡ true = ground arith in rw (hard, g) refl

pub numbered-low :
    (env : Environment) (c : FixClient) (m : IncomingFixMessage) (expected seq_no : ℕ)
    → is_a_hard_sequence_reset_message m ≡ false
    → seq_no < expected
    → process_numbered env c m expected seq_no
      ≡ do_shutdown_abruptly (record c {
        session = record c.session {
          sequence_store =
              set_incoming_seq_no c.session.sequence_store ((expected + 2 ^ 32 - 1) % 2 ^ 32);
        };
      })
unfolding process_numbered
numbered-low env c m expected seq_no hard low =
    let g : ltb expected seq_no ≡ false = ground arith in
    let l : ltb seq_no expected ≡ true = ground arith in rw (hard, g, l) refl

-- The client when a message's number is looked at.
abbrev pub counted : Environment → FixClient → FixClient
counted env c =
    let t = note_received env c in
    record t {
      session = record t.session {
        sequence_store = increment_incoming_seq_no t.session.sequence_store;
      };
    }

pub process_accepted_lem :
    (env : Environment) (c : FixClient) (m : IncomingFixMessage) (buffer : List ℕ) (code : ℕ)
    → verdict env c m buffer code ≡ accepted
    → incoming_seq_no c.session + 1 < 2 ^ 32
    → process_incoming_fix_message env c m buffer code
      ≡ process_numbered env
          (counted env c)
          m
          (incoming_seq_no c.session + 1)
          (get_tag_value_as_uint32 m tag_msg_seq_num)
unfolding process_incoming_fix_message process_verdict process_accepted note_received
    increment_incoming_seq_no
process_accepted_lem env c m buffer code v small =
    let w : (incoming_seq_no c.session + 1) % 2 ^ 32 ≡ incoming_seq_no c.session + 1 =
      omega arith in
    rw (v, w) refl

-- An accepted message that is no hard sequence reset is not handed on unless it has the expected number.
-- With a higher number nothing is sent or reported, the incoming number stays, and a resend of all
-- from the expected number to that one is asked for later. With a lower number the incoming number
-- stays as well, nothing is sent, and the client is disconnected.
pub out_of_sequence :
    (env : Environment) (c : FixClient) (m : IncomingFixMessage) (buffer : List ℕ) (code : ℕ)
    → verdict env c m buffer code ≡ accepted
    → is_a_hard_sequence_reset_message m ≡ false
    → incoming_seq_no c.session + 1 < 2 ^ 32
    → let expected = incoming_seq_no c.session + 1 in
      let seq_no = get_tag_value_as_uint32 m tag_msg_seq_num in
      let t = process_incoming_fix_message env c m buffer code in
      (expected < seq_no → IsGap c t expected seq_no) × (seq_no < expected → IsTooLow c t)
unfolding queue_outgoing_resend_request set_incoming_seq_no do_shutdown_abruptly note_received
    on_connection_lost
out_of_sequence env c m buffer code v hard small =
    let e = process_accepted_lem env c m buffer code v small in
    let back : (incoming_seq_no c.session + 1 + 2 ^ 32 - 1) % 2 ^ 32 ≡ incoming_seq_no c.session =
      omega arith in
    (
      λ gap.
          rw (e, numbered-gap env (counted env c) m _ _ hard gap)
            (record {
              incoming = back;
              queued = refl;
              from = refl;
              to = refl;
              state = refl;
              sent = refl;
              events = refl;
            }),
      λ low.
          rw (e, numbered-low env (counted env c) m _ _ hard low)
            (record { incoming = back; state = refl; sent = refl; events = refl }),
    )
