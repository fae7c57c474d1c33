-- ===== src/Session/SequenceStore.antt =====
-- include/llfix/electronic_trading/session/sequence_store.h: the two sequence numbers, each a
-- `uint32_t` of the mapped file. The mapping, the flush to disc and the path are left out.
use llfix.Common.{ℕ, ◌+◌, ◌-◌, ◌%◌, ◌^◌}

pub record SequenceStore : Type 0 where
  pub outgoing_seq_no : ℕ
  pub incoming_seq_no : ℕ

unfoldable pub reset_numbers : SequenceStore → SequenceStore
reset_numbers s = record { outgoing_seq_no = 0; incoming_seq_no = 0 }

unfoldable pub increment_outgoing_seq_no : SequenceStore → SequenceStore
increment_outgoing_seq_no s = record s { outgoing_seq_no = (s.outgoing_seq_no + 1) % 2 ^ 32 }

unfoldable pub decrement_outgoing_seq_no : SequenceStore → SequenceStore
decrement_outgoing_seq_no s = record s {
  outgoing_seq_no = (s.outgoing_seq_no + 2 ^ 32 - 1) % 2 ^ 32;
}

unfoldable pub set_outgoing_seq_no : SequenceStore → ℕ → SequenceStore
set_outgoing_seq_no s n = record s { outgoing_seq_no = n }

unfoldable pub increment_incoming_seq_no : SequenceStore → SequenceStore
increment_incoming_seq_no s = record s { incoming_seq_no = (s.incoming_seq_no + 1) % 2 ^ 32 }

unfoldable pub set_incoming_seq_no : SequenceStore → ℕ → SequenceStore
set_incoming_seq_no s n = record s { incoming_seq_no = n }
