-- ===== src/Serialiser.antt =====
-- include/llfix/electronic_trading/common/message_serialiser.h: the records of outgoing messages that
-- are kept in memory for resends. A record's place in a file is the text that stands there; the mapped
-- files are taken to be open and to have room.
use llfix.Common.{
  ℕ, Bool, false, Option, none, some, List, [], if◌then◌else◌, ◌∷◌, ◌==◌, ◌≡◌, true, ap, ==_iff,
  arith,
}
use llfix.Message.{is_some}

pub record MessageSerialiser : Type 0 where
  pub keep_message_records_in_memory : Bool
  pub message_memory_records : List (ℕ × List ℕ)

unfoldable pub find_record : List (ℕ × List ℕ) → ℕ → Option (List ℕ)
find_record [] sequence_no = none
find_record ((n, message) ∷ records) sequence_no =
    if n == sequence_no then some message else find_record records sequence_no

unfoldable pub has_message_in_memory : MessageSerialiser → ℕ → Bool
has_message_in_memory s sequence_no =
    if s.keep_message_records_in_memory
    then is_some (find_record s.message_memory_records sequence_no)
    else false

-- `insert` of the map leaves a record that is there as it is.
unfoldable pub write : MessageSerialiser → List ℕ → ℕ → MessageSerialiser
write s message sequence_no =
    if s.keep_message_records_in_memory
    then (if is_some (find_record s.message_memory_records sequence_no) then s else record s {
      message_memory_records = (sequence_no, message) ∷ s.message_memory_records;
    })
    else s

unfoldable pub read_message : MessageSerialiser → ℕ → Option (List ℕ)
read_message s sequence_no =
    if has_message_in_memory s sequence_no
    then find_record s.message_memory_records sequence_no
    else none

-- Writing keeps every record that is there and, if records are kept, leaves one for its own number; so
-- a number that is used a second time, as after a reset of the numbers, still has its first message.
pub read_message-write :
    (s : MessageSerialiser) (message : List ℕ) (k n : ℕ)
    → (has_message_in_memory s n ≡ true
        → (has_message_in_memory (write s message k) n ≡ true)
          × (read_message (write s message k) n ≡ read_message s n))
      × (s.keep_message_records_in_memory ≡ true
          → has_message_in_memory s k ≡ false
          → read_message (write s message k) k ≡ some message)
unfolding read_message write has_message_in_memory find_record
read_message-write s message k n =
    let records = s.message_memory_records in
    let same : (k == n) ≡ true → find_record records k ≡ find_record records n =
      λ h. ap (find_record records) ((==_iff k n).0 h) in
    (λ p. (ground (arith, same), ground (arith, same)), λ p q. ground arith)
