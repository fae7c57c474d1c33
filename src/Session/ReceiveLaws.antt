-- ===== src/Session/ReceiveLaws.antt =====
-- What sequence resets, resend requests and test requests change in a session of
-- include/llfix/fix_session.h.
use llfix.Converters.Unsigned.{chars_to_unsigned_int-lt}
use llfix.Common.{ℕ, true, arith, ltb, ◌+◌, ◌^◌, ◌<◌, ◌≡◌, ◌⊎◌}
use llfix.Message.{
  IncomingFixMessage, get_tag_value_as_uint32, has_tag, get_tag_value, is_tag_value_numeric,
}
use llfix.Session.Record.{FixSession, incoming_seq_no}
use llfix.Session.Receive.{process_incoming_sequence_reset_message}
use llfix.Session.State.{logged_on}
use llfix.Session.SequenceStore.{set_incoming_seq_no}
use llfix.Converters.{w32}
use llfix.Constants.{tag_new_seq_no}

uint32_lt : (m : IncomingFixMessage) (tag : ℕ) → get_tag_value_as_uint32 m tag < 2 ^ 32
unfolding get_tag_value_as_uint32
uint32_lt m tag = chars_to_unsigned_int-lt w32 (get_tag_value m tag)

-- A sequence reset never moves the expected number back: the session is left as it was, or it is logged on
-- and the next number that is expected is the one that tag 36 names, which is above every number that was
-- processed so far. A message with a numeric tag 36 is refused exactly when the number is zero or not above.
pub sequence_reset_forward :
    (s : FixSession) (m : IncomingFixMessage)
    → let (t, acceptable) = process_incoming_sequence_reset_message s m in
      ((t ≡ s)
        ⊎ ((acceptable ≡ true)
            × (incoming_seq_no t + 1 ≡ get_tag_value_as_uint32 m tag_new_seq_no)
            × (incoming_seq_no s < incoming_seq_no t + 1)
            × (t.state ≡ logged_on)))
      × (has_tag m tag_new_seq_no ≡ true
          → is_tag_value_numeric m tag_new_seq_no ≡ true
          → acceptable ≡ ltb (incoming_seq_no s) (get_tag_value_as_uint32 m tag_new_seq_no))
unfolding process_incoming_sequence_reset_message set_incoming_seq_no
sequence_reset_forward s m =
    let h = uint32_lt m tag_new_seq_no in (ground arith, λ p q. ground arith)
