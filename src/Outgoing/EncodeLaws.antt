-- ===== src/Outgoing/EncodeLaws.antt =====
-- The bytes that `encode` of include/llfix/outgoing_fix_message.h leaves, as a frame around fields.
use llfix.Utilities.ChecksumSimd.{simd-no_simd}
use llfix.Common.{
  ℕ, Bool, true, false, refl, List, [], append_assoc, arith, length, length-append, ◌%◌, ◌^◌, ◌≡◌,
  ◌++◌, ◌∷◌, ◌∙◌, Bool-cases, inl, inr, none,
}
use llfix.Converters.{unsigned_int_to_chars, get_chars_length, write_digits}
use llfix.Utilities.Checksum.{encode_checksum_no_simd}
use llfix.Outgoing.{
  written_bytes, OutgoingFixMessage, write_tags, lengths, unsigned_text, or_now, last_processed,
  last_processed_length, body_length, checksum, encode, encode_bytes, clear,
}
use llfix.Utilities.Framing.{fix_delimiter}
use llfix.Session.Settings.{FixSessionSettings}
use llfix.Constants.{
  tag_msg_type, tag_msg_seq_num, tag_sender_comp_id, tag_target_comp_id, tag_sending_time,
}

-- The fields between tag 9 and tag 10, in their order.
abbrev pub last_processed_field : Bool → List ℕ → List (ℕ × List ℕ)
last_processed_field true n = (369, n) ∷ []
last_processed_field false n = []

abbrev pub fields : FixSessionSettings → ℕ → OutgoingFixMessage → List ℕ → ℕ → List (ℕ × List ℕ)
fields s incoming_seq_no m now sequence_no =
    (tag_msg_type, m.msg_type)
      ∷ (tag_msg_seq_num, unsigned_text sequence_no)
      ∷ (tag_sender_comp_id, s.sender_comp_id)
      ∷ (tag_sending_time, or_now m.send_time now)
      ∷ (tag_target_comp_id, s.target_comp_id)
      ∷ last_processed_field s.include_last_processed_seqnum_in_header
          (unsigned_text incoming_seq_no)
    ++ m.static_header_tags
    ++ m.header
    ++ m.body
    ++ m.trailer

-- Tags 8 and 9 in front of the content, whose length tag 9 gives.
abbrev pub front : List ℕ → List ℕ → List ℕ
front begin_string content =
    b'8' ∷ b'=' ∷ begin_string
    ++ fix_delimiter ∷ b'9' ∷ b'=' ∷ unsigned_text (length content % 2 ^ 32)
    ++ fix_delimiter ∷ content

abbrev pub frame : List ℕ → List ℕ → List ℕ
frame begin_string content =
    let written = front begin_string content in
    written ++ b'1' ∷ b'0' ∷ b'=' ∷ encode_checksum_no_simd written ++ fix_delimiter ∷ []

length-write_tags : (fs : List (ℕ × List ℕ)) → length (write_tags fs) ≡ lengths fs
unfolding write_tags lengths
length-write_tags [] = refl
length-write_tags ((t, v) ∷ fs) = grind (arith, length-append, length-write_tags fs)

pub write_tags-append :
    (fs gs : List (ℕ × List ℕ)) → write_tags (fs ++ gs) ≡ write_tags fs ++ write_tags gs
unfolding write_tags
write_tags-append [] gs = refl
write_tags-append ((t, v) ∷ fs) gs = simp (append_assoc, write_tags-append fs gs)

pub tag_texts :
    (unsigned_text tag_msg_type ≡ b'3' ∷ b'5' ∷ [])
    × (unsigned_text tag_msg_seq_num ≡ b'3' ∷ b'4' ∷ [])
    × (unsigned_text tag_sender_comp_id ≡ b'4' ∷ b'9' ∷ [])
    × (unsigned_text tag_sending_time ≡ b'5' ∷ b'2' ∷ [])
    × (unsigned_text tag_target_comp_id ≡ b'5' ∷ b'6' ∷ [])
    × (unsigned_text 369 ≡ b'3' ∷ b'6' ∷ b'9' ∷ [])
unfolding unsigned_text unsigned_int_to_chars get_chars_length write_digits
tag_texts = (refl, refl, refl, refl, refl, refl)

last_processed_lem :
    (b : Bool) (n : List ℕ)
    → (write_tags (last_processed_field b n) ≡ last_processed b n)
      × (length (last_processed b n) ≡ last_processed_length b n)
unfolding write_tags
last_processed_lem true n =
    let (t₁, t₂, t₃, t₄, t₅, t₆) = tag_texts in
    rw t₆ (refl, omega (arith, length-append n (fix_delimiter ∷ [])))
last_processed_lem false n = (refl, refl)

-- What stands between tag 9 and tag 10.
unfoldable pub content : FixSessionSettings → ℕ → OutgoingFixMessage → List ℕ → ℕ → List ℕ
content s incoming_seq_no m now sequence_no =
    write_tags (fields s incoming_seq_no m now sequence_no)

head_tags :
    (a b c d e : List ℕ) (rest : List (ℕ × List ℕ))
    → write_tags (
        (tag_msg_type, a)
        ∷ (tag_msg_seq_num, b)
        ∷ (tag_sender_comp_id, c)
        ∷ (tag_sending_time, d)
        ∷ (tag_target_comp_id, e)
        ∷ rest)
      ≡ b'3' ∷ b'5' ∷ b'=' ∷ a
        ++ fix_delimiter ∷ b'3' ∷ b'4' ∷ b'=' ∷ b
        ++ fix_delimiter ∷ b'4' ∷ b'9' ∷ b'=' ∷ c
        ++ fix_delimiter ∷ b'5' ∷ b'2' ∷ b'=' ∷ d
        ++ fix_delimiter ∷ b'5' ∷ b'6' ∷ b'=' ∷ e
        ++ fix_delimiter ∷ write_tags rest
unfolding write_tags
head_tags a b c d e rest =
    let (t₁, t₂, t₃, t₄, t₅, t₆) = tag_texts in rw (t₁, t₂, t₃, t₄, t₅) (simp append_assoc)

content_lem :
    (s : FixSessionSettings) (incoming_seq_no : ℕ) (m : OutgoingFixMessage) (now : List ℕ)
    (sequence_no : ℕ)
    → content s incoming_seq_no m now sequence_no
      ≡ b'3' ∷ b'5' ∷ b'=' ∷ m.msg_type
        ++ fix_delimiter ∷ b'3' ∷ b'4' ∷ b'=' ∷ unsigned_text sequence_no
        ++ fix_delimiter ∷ b'4' ∷ b'9' ∷ b'=' ∷ s.sender_comp_id
        ++ fix_delimiter ∷ b'5' ∷ b'2' ∷ b'=' ∷ or_now m.send_time now
        ++ fix_delimiter ∷ b'5' ∷ b'6' ∷ b'=' ∷ s.target_comp_id
        ++ fix_delimiter
          ∷ last_processed s.include_last_processed_seqnum_in_header (unsigned_text incoming_seq_no)
        ++ write_tags m.static_header_tags
        ++ write_tags m.header
        ++ write_tags m.body
        ++ write_tags m.trailer
unfolding content
content_lem s incoming_seq_no m now sequence_no =
    let b = s.include_last_processed_seqnum_in_header in
    let n = unsigned_text incoming_seq_no in
    let (lp, len) = last_processed_lem b n in
    let h =
      head_tags m.msg_type (unsigned_text sequence_no) s.sender_comp_id (or_now m.send_time now)
        s.target_comp_id
        (last_processed_field b n ++ m.static_header_tags ++ m.header ++ m.body ++ m.trailer) in
    h ∙ (simp (append_assoc, write_tags-append, lp))

pub body_length-content :
    (s : FixSessionSettings) (incoming_seq_no : ℕ) (m : OutgoingFixMessage) (now : List ℕ)
    (sequence_no : ℕ)
    → body_length s incoming_seq_no m (or_now m.send_time now) (unsigned_text sequence_no)
      ≡ length (content s incoming_seq_no m now sequence_no) % 2 ^ 32
unfolding body_length
body_length-content s incoming_seq_no m now sequence_no =
    let b = s.include_last_processed_seqnum_in_header in
    let n = unsigned_text incoming_seq_no in
    let (lp, len) = last_processed_lem b n in
    let c = content_lem s incoming_seq_no m now sequence_no in
    simp (c, length-append, length-write_tags, len) (omega arith)

checksum_lem :
    (s : FixSessionSettings) (bytes : List ℕ) → checksum s bytes ≡ encode_checksum_no_simd bytes
checksum_lem s bytes = elim (Bool-cases s.enable_simd_avx2) [
  | inl h ↦ rw h ((simd-no_simd bytes).0)
  | inr h ↦ rw h refl
]

written_lem :
    (s : FixSessionSettings) (incoming_seq_no : ℕ) (m : OutgoingFixMessage) (now : List ℕ)
    (sequence_no : ℕ)
    → written_bytes s incoming_seq_no m (or_now m.send_time now) (unsigned_text sequence_no)
      ≡ front s.begin_string (content s incoming_seq_no m now sequence_no)
unfolding written_bytes
written_lem s incoming_seq_no m now sequence_no =
    let bl = body_length-content s incoming_seq_no m now sequence_no in
    let c = content_lem s incoming_seq_no m now sequence_no in rw (bl, c) (simp append_assoc)

-- Encoding writes one frame: tags 8 and 9, the content and tag 10. The content is the seven header
-- fields, tag 369 when the setting asks for it, the static header tags and the tags that were set, in
-- their order; tag 9 is the number of bytes of the content, reduced to 32 bits, and tag 10 the
-- checksum of everything in front of it. Afterwards the message has its type and its static header tags
-- alone: no sending time and no other tag.
pub encode-frame :
    (s : FixSessionSettings) (incoming_seq_no : ℕ) (m : OutgoingFixMessage) (now : List ℕ)
    (sequence_no : ℕ)
    → let (after, bytes) = encode s incoming_seq_no m now sequence_no in
      (bytes ≡ frame s.begin_string (content s incoming_seq_no m now sequence_no))
      × (after ≡ record {
        msg_type = m.msg_type;
        send_time = none;
        static_header_tags = m.static_header_tags;
        header = [];
        body = [];
        trailer = [];
      })
unfolding encode encode_bytes clear
encode-frame s incoming_seq_no m now sequence_no =
    let w = written_lem s incoming_seq_no m now sequence_no in (rw (w, checksum_lem s) refl, refl)
