-- ===== src/Parser/EncodeParse.antt =====
-- What the parser of include/llfix/fix_client.h makes of a message that was encoded by
-- include/llfix/outgoing_fix_message.h.
use llfix.Parser.Tags.{first_value}
use llfix.Parser.{parse_message, start_parsing}
use llfix.Parser.RoundTrip.{IsReadable, IsInner, parse_message-write_tags}
use llfix.Message.Tags.{IsFresh}
use llfix.Outgoing.Texts.{IsValueByte}
use llfix.Message.{IncomingFixMessage, tag_value}
use llfix.GroupSpecs.{IncomingFixRepeatingGroupSpecs, is_a_repeating_group_count_tag}
use llfix.Session.Settings.{FixSessionSettings}
use llfix.Converters.{unsigned_int_to_chars, get_chars_length, write_digits}
use llfix.Utilities.Framing.{fix_delimiter, fix_equals}
use llfix.Constants.{tag_begin_string, tag_checksum, tag_body_length}
use llfix.Outgoing.{unsigned_text, write_tags, OutgoingFixMessage, encode}
use llfix.Common.{
  ◌-◌, append_assoc, sym, refl, List, ℕ, ◌∷◌, ◌≡◌, [], length, ◌++◌, ◌%◌, ◌^◌, ap, ◌∙◌, All, arith,
  false, some, ◌+◌,
}
use llfix.Outgoing.EncodeLaws.{frame, front, content, fields, encode-frame, write_tags-append}
use llfix.Utilities.Checksum.{encode_checksum_no_simd, checksum_chars}

-- The fields of a frame around fields: tags 8 and 9 in front of them, and tag 10 behind.
abbrev pub framing : List ℕ → List (ℕ × List ℕ) → List (ℕ × List ℕ)
framing begin_string fs =
    (tag_begin_string, begin_string)
    ∷ (tag_body_length, unsigned_text (length (write_tags fs) % 2 ^ 32))
    ∷ fs

frame_texts :
    (unsigned_text tag_begin_string ≡ b'8' ∷ [])
    × (unsigned_text tag_body_length ≡ b'9' ∷ [])
    × (unsigned_text tag_checksum ≡ b'1' ∷ b'0' ∷ [])
unfolding unsigned_text unsigned_int_to_chars get_chars_length write_digits
frame_texts = (refl, refl, refl)

framing-front :
    (begin_string : List ℕ) (fs : List (ℕ × List ℕ))
    → write_tags (framing begin_string fs) ≡ front begin_string (write_tags fs)
unfolding write_tags
framing-front begin_string fs =
    let (t8, t9, _) = frame_texts in
    rw (t8, t9)
      (ap (λ l. b'8' ∷ fix_equals ∷ l)
        (sym (
          append_assoc begin_string
            (fix_delimiter ∷ b'9' ∷ fix_equals ∷ unsigned_text (length (write_tags fs) % 2 ^ 32))
            (fix_delimiter ∷ write_tags fs))))

last_field :
    (sum : List ℕ)
    → write_tags ((tag_checksum, sum) ∷ []) ≡ b'1' ∷ b'0' ∷ b'=' ∷ sum ++ fix_delimiter ∷ []
unfolding write_tags
last_field sum = let (_, _, t10) = frame_texts in rw t10 refl

abbrev pub framed : List ℕ → List (ℕ × List ℕ) → List (ℕ × List ℕ)
framed begin_string fs =
    framing begin_string fs
    ++ (tag_checksum, encode_checksum_no_simd (front begin_string (write_tags fs))) ∷ []

frame-write_tags :
    (begin_string : List ℕ) (fs : List (ℕ × List ℕ))
    → frame begin_string (write_tags fs) ≡ write_tags (framed begin_string fs)
frame-write_tags begin_string fs =
    let written = front begin_string (write_tags fs) in
    let sum = encode_checksum_no_simd written in
    append_assoc written (b'1' ∷ b'0' ∷ b'=' ∷ sum) (fix_delimiter ∷ [])
    ∙ ap (λ l. written ++ l) (sym (last_field sum))
    ∙ ap (λ l. l ++ write_tags ((tag_checksum, sum) ∷ [])) (sym (framing-front begin_string fs))
    ∙ sym (write_tags-append (framing begin_string fs) ((tag_checksum, sum) ∷ []))

checksum-IsValueByte : (xs : List ℕ) → All IsValueByte (encode_checksum_no_simd xs)
unfolding encode_checksum_no_simd checksum_chars
checksum-IsValueByte xs = ground arith

encode-write_tags :
    (s : FixSessionSettings) (incoming_seq_no : ℕ) (m : OutgoingFixMessage) (now : List ℕ)
    (sequence_no : ℕ)
    → (encode s incoming_seq_no m now sequence_no).1
      ≡ write_tags (framed s.begin_string (fields s incoming_seq_no m now sequence_no))
unfolding content
encode-write_tags s incoming_seq_no m now sequence_no =
    (encode-frame s incoming_seq_no m now sequence_no).0
    ∙ frame-write_tags s.begin_string (fields s incoming_seq_no m now sequence_no)

-- A round trip: the parser reads an encoded message, whatever bytes follow it, up to its last byte, and
-- the message then has the value of every tag that was encoded, from tag 8 to tag 10, and no other tag.
-- It is filled anew in a message whose entries carry no generation number that is still to come. The tags
-- have 32 bits, the values have no delimiter, no tag begins a repeating group or is tag 10, and of a tag
-- that was set more than once the first value counts.
pub encode-parse :
    (specs : IncomingFixRepeatingGroupSpecs) (received : IncomingFixMessage) (start : ℕ)
    (s : FixSessionSettings) (incoming_seq_no : ℕ) (m : OutgoingFixMessage) (now : List ℕ)
    (sequence_no : ℕ) (rest : List ℕ)
    → IsFresh received
    → All (IsReadable specs) (framing s.begin_string (fields s incoming_seq_no m now sequence_no))
    → All IsInner (framing s.begin_string (fields s incoming_seq_no m now sequence_no))
    → ((e : ℕ) → is_a_repeating_group_count_tag specs e tag_checksum ≡ false)
    → let bytes = (encode s incoming_seq_no m now sequence_no).1 in
      let (q, stop) = parse_message specs (start_parsing received start) start (bytes ++ rest) in
      (stop ≡ some (start + length bytes - 1))
      × ((u : ℕ)
          → tag_value q.message u
            ≡ first_value (framed s.begin_string (fields s incoming_seq_no m now sequence_no)) u)
encode-parse specs received start s incoming_seq_no m now sequence_no rest fresh ok inner plain =
    let fs = fields s incoming_seq_no m now sequence_no in
    let sum = encode_checksum_no_simd (front s.begin_string (write_tags fs)) in
    rw (encode-write_tags s incoming_seq_no m now sequence_no) (
      parse_message-write_tags specs received start (framing s.begin_string fs) sum rest fresh ok
        inner (omega arith, checksum-IsValueByte _, plain))
