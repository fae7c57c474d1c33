-- ===== src/Outgoing.antt =====
-- include/llfix/outgoing_fix_message.h: the tags of a message that is being built, and `encode`. The
-- vectors and their pointers are lists, and the pooled fix strings are the texts that they hold.
pub mod Load
pub mod Texts
pub mod EncodeLaws
pub mod EncodeChecks
pub mod LoadLaws
use llfix.Common.{
  ℕ, Bool, true, false, Option, none, some, List, [], if◌then◌else◌, length, take, replicate, ◌+◌,
  ◌%◌, ◌^◌, ◌++◌, ◌∷◌, ◌==◌, ◌||◌,
}
use llfix.Constants.{tag_begin_string}
use llfix.Utilities.Framing.{fix_delimiter, fix_equals}
use llfix.Utilities.Checksum.{encode_checksum_no_simd, encode_checksum_simd_avx2}
use llfix.Converters.{unsigned_int_to_chars}
use llfix.Session.Settings.{FixSessionSettings}

-- The send time is there once it was asked for before encoding.
pub record OutgoingFixMessage : Type 0 where
  pub msg_type : List ℕ
  pub send_time : Option (List ℕ)
  pub static_header_tags : List (ℕ × List ℕ)
  pub header : List (ℕ × List ℕ)
  pub body : List (ℕ × List ℕ)
  pub trailer : List (ℕ × List ℕ)

abbrev pub initial_capacity : ℕ
initial_capacity = 64

-- The text that set_tag leaves in a fix string of initial capacity for an unsigned value.
unfoldable pub unsigned_text : ℕ → List ℕ
unsigned_text n =
    let (len, chars) = unsigned_int_to_chars n (replicate initial_capacity 0) in take len chars

abbrev pub set_msg_type : OutgoingFixMessage → List ℕ → OutgoingFixMessage
set_msg_type m msg_type = record m { msg_type = msg_type }

abbrev pub set_body_tag : OutgoingFixMessage → ℕ → List ℕ → OutgoingFixMessage
set_body_tag m tag value = record m { body = m.body ++ (tag, value) ∷ [] }

abbrev pub set_header_tag : OutgoingFixMessage → ℕ → List ℕ → OutgoingFixMessage
set_header_tag m tag value = record m { header = m.header ++ (tag, value) ∷ [] }

unfoldable pub is_static_header_tag : List (ℕ × List ℕ) → ℕ → Bool
is_static_header_tag [] tag = false
is_static_header_tag ((t, v) ∷ items) tag = t == tag || is_static_header_tag items tag

-- A delimiter and an equals sign for each tag.
unfoldable pub lengths : List (ℕ × List ℕ) → ℕ
lengths [] = 0
lengths ((t, v) ∷ fields) = 2 + length (unsigned_text t) + length v + lengths fields

unfoldable pub write_tags : List (ℕ × List ℕ) → List ℕ
write_tags [] = []
write_tags ((t, v) ∷ fields) =
    unsigned_text t ++ fix_equals ∷ v ++ fix_delimiter ∷ write_tags fields

abbrev pub or_now : Option (List ℕ) → List ℕ → List ℕ
or_now none now = now
or_now (some t) now = t

-- Tag 369, which a setting asks for: its length in the body, and its bytes.
abbrev pub last_processed_length : Bool → List ℕ → ℕ
last_processed_length true n = 5 + length n
last_processed_length false n = 0

abbrev pub last_processed : Bool → List ℕ → List ℕ
last_processed true n = b'3' ∷ b'6' ∷ b'9' ∷ fix_equals ∷ n ++ fix_delimiter ∷ []
last_processed false n = []

-- The sum is an `int`, which is converted to a `uint32_t` when it is printed.
unfoldable pub body_length : FixSessionSettings → ℕ → OutgoingFixMessage → List ℕ → List ℕ → ℕ
body_length s incoming_seq_no m send_time seq_no =
    (20
      + length send_time
      + length m.msg_type
      + length seq_no
      + length s.sender_comp_id
      + length s.target_comp_id
      + last_processed_length s.include_last_processed_seqnum_in_header
          (unsigned_text incoming_seq_no)
      + lengths m.header
      + lengths m.body
      + lengths m.trailer
      + lengths m.static_header_tags)
    % 2 ^ 32

abbrev pub checksum : FixSessionSettings → List ℕ → List ℕ
checksum s bytes =
    if s.enable_simd_avx2 then encode_checksum_simd_avx2 bytes else encode_checksum_no_simd bytes

-- Tags 8 and 9, then from tag 35 to the trailer.
unfoldable pub written_bytes :
    FixSessionSettings → ℕ → OutgoingFixMessage → List ℕ → List ℕ → List ℕ
written_bytes s incoming_seq_no m send_time seq_no =
    b'8' ∷ b'=' ∷ s.begin_string
    ++ fix_delimiter
      ∷ b'9'
      ∷ b'='
      ∷ unsigned_text (body_length s incoming_seq_no m send_time seq_no)
    ++ fix_delimiter ∷ b'3' ∷ b'5' ∷ b'=' ∷ m.msg_type
    ++ fix_delimiter ∷ b'3' ∷ b'4' ∷ b'=' ∷ seq_no
    ++ fix_delimiter ∷ b'4' ∷ b'9' ∷ b'=' ∷ s.sender_comp_id
    ++ fix_delimiter ∷ b'5' ∷ b'2' ∷ b'=' ∷ send_time
    ++ fix_delimiter ∷ b'5' ∷ b'6' ∷ b'=' ∷ s.target_comp_id
    ++ fix_delimiter
      ∷ last_processed s.include_last_processed_seqnum_in_header (unsigned_text incoming_seq_no)
    ++ write_tags m.static_header_tags
    ++ write_tags m.header
    ++ write_tags m.body
    ++ write_tags m.trailer

-- Tag 10 behind them.
unfoldable pub encode_bytes : FixSessionSettings → ℕ → OutgoingFixMessage → List ℕ → ℕ → List ℕ
encode_bytes s incoming_seq_no m now sequence_no =
    let written =
      written_bytes s incoming_seq_no m (or_now m.send_time now) (unsigned_text sequence_no) in
    written ++ b'1' ∷ b'0' ∷ b'=' ∷ checksum s written ++ fix_delimiter ∷ []

-- What is prepared for the next call: the message type and the static tags stay.
unfoldable pub clear : OutgoingFixMessage → OutgoingFixMessage
clear m = record m { send_time = none; header = []; body = []; trailer = [] }

unfoldable pub encode :
    FixSessionSettings → ℕ → OutgoingFixMessage → List ℕ → ℕ → OutgoingFixMessage × List ℕ
unfolding clear encode_bytes
encode s incoming_seq_no m now sequence_no =
    (clear m, encode_bytes s incoming_seq_no m now sequence_no)
