-- ===== src/Outgoing/EncodeChecks.antt =====
-- What a receiver checks on the bytes that `encode` of include/llfix/outgoing_fix_message.h leaves.
use llfix.Outgoing.Texts.{unsigned_text_lem, IsTagByte, unsigned_text-tag_bytes}
use llfix.Outgoing.EncodeLaws.{encode-frame, content, front}
use llfix.Common.{take-length_append, drop-length_append, All}
use llfix.Utilities.ChecksumSimd.{simd-no_simd, validate-encode}
use llfix.Common.{
  ℕ, true, refl, List, [], append_assoc, arith, length, length-append, ℕ, ◌%◌, ◌^◌, ◌≡◌, ◌++◌, ◌∷◌,
  ◌∙◌, ap, ◌<◌, take, ◌-◌, drop, sym, take-length_append, drop-length_append, ◌+◌, ◌/◌,
}
use llfix.Converters.{chars_to_unsigned_int, w32}
use llfix.Utilities.Checksum.{
  encode_checksum_no_simd, checksum_chars, validate_checksum_no_simd, validate_checksum_simd_avx2,
  sum_bytes,
}
use llfix.Outgoing.{OutgoingFixMessage, unsigned_text, encode}
use llfix.Utilities.Framing.{fix_delimiter}
use llfix.Session.Settings.{FixSessionSettings}

-- Where the covered bytes and the three characters of tag 10 stand.
tail_parts :
    (w : List ℕ) (a b c : ℕ)
    → let bytes = w ++ b'1' ∷ b'0' ∷ b'=' ∷ a ∷ b ∷ c ∷ [] ++ fix_delimiter ∷ [] in
      (take (length bytes - 7) bytes ≡ w)
      × (take 3 (drop (length bytes - 4) bytes) ≡ a ∷ b ∷ c ∷ [])
tail_parts w a b c =
    let check = a ∷ b ∷ c ∷ fix_delimiter ∷ [] in
    let tag = b'1' ∷ b'0' ∷ b'=' ∷ [] in
    let bytes = w ++ b'1' ∷ b'0' ∷ b'=' ∷ a ∷ b ∷ c ∷ [] ++ fix_delimiter ∷ [] in
    let e : bytes ≡ w ++ (tag ++ check) = append_assoc w _ _ in
    let e₂ : bytes ≡ (w ++ tag) ++ check = e ∙ (sym (append_assoc w tag check)) in
    let n : length bytes - 7 ≡ length w =
      ap (λ xs. length xs - 7) e ∙ (omega (arith, length-append w (tag ++ check))) in
    let k : length bytes - 4 ≡ length (w ++ tag) =
      ap (λ xs. length xs - 4) e₂ ∙ (omega (arith, length-append (w ++ tag) check)) in
    (
      ap (λ i. take i bytes) n ∙ (ap (take (length w)) e) ∙ (take-length_append w (tag ++ check)),
      ap (λ i. take 3 (drop i bytes)) k
          ∙ (ap (λ xs. take 3 (drop (length (w ++ tag)) xs)) e₂)
          ∙ (ap (take 3) (drop-length_append (w ++ tag) check)),
    )

covered-checks :
    (w : List ℕ)
    → let bytes = w ++ b'1' ∷ b'0' ∷ b'=' ∷ encode_checksum_no_simd w ++ fix_delimiter ∷ [] in
      let covered = take (length bytes - 7) bytes in
      let actual = chars_to_unsigned_int w32 (take 3 (drop (length bytes - 4) bytes)) in
      (validate_checksum_no_simd covered actual ≡ true)
      × (validate_checksum_simd_avx2 covered actual ≡ true)
unfolding encode_checksum_no_simd checksum_chars
covered-checks w =
    let k = sum_bytes 0 w % 256 in
    let (c, d) = tail_parts w (b'0' + k / 100) (b'0' + k / 10 % 10) (b'0' + k % 10) in
    let (enc, val) = simd-no_simd w in
    let (p, q) = validate-encode w (chars_to_unsigned_int w32 (encode_checksum_no_simd w)) in
    rw (c, d) (p.1 (ap (chars_to_unsigned_int w32) (sym enc)), q.1 refl)

-- The parts of a frame in a row.
frame_parts :
    (begin_string digits counted sum : List ℕ)
    → (b'8' ∷ b'=' ∷ begin_string
          ++ fix_delimiter ∷ b'9' ∷ b'=' ∷ digits
          ++ fix_delimiter ∷ counted)
        ++ b'1' ∷ b'0' ∷ b'=' ∷ sum
        ++ fix_delimiter ∷ []
      ≡ b'8' ∷ b'=' ∷ begin_string
        ++ fix_delimiter ∷ b'9' ∷ b'=' ∷ digits
        ++ fix_delimiter ∷ counted
        ++ b'1' ∷ b'0' ∷ b'=' ∷ sum
        ++ fix_delimiter ∷ []
frame_parts begin_string digits counted sum = simp append_assoc

digits_length : (bytes : List ℕ) → length (encode_checksum_no_simd bytes) ≡ 3
unfolding encode_checksum_no_simd checksum_chars
digits_length bytes = refl

-- A receiver that has the bytes of an encoded message finds its checks satisfied. The value of tag 9 in
-- the bytes, as it reads it, counts the bytes behind the delimiter of tag 9 and in front of tag 10, if
-- they are fewer than 2 ^ 32. The three characters in front of the last delimiter are a checksum of all
-- but the last seven bytes that the vector code and the plain loop accept.
pub encode-checks :
    (s : FixSessionSettings) (incoming_seq_no : ℕ) (m : OutgoingFixMessage) (now : List ℕ)
    (sequence_no : ℕ)
    → length (content s incoming_seq_no m now sequence_no) < 2 ^ 32
    → let (after, bytes) = encode s incoming_seq_no m now sequence_no in
      let covered = take (length bytes - 7) bytes in
      let actual = chars_to_unsigned_int w32 (take 3 (drop (length bytes - 4) bytes)) in
      ((digits : List ℕ) × (counted : List ℕ) × (sum : List ℕ) × (bytes
          ≡ b'8' ∷ b'=' ∷ s.begin_string
            ++ fix_delimiter ∷ b'9' ∷ b'=' ∷ digits
            ++ fix_delimiter ∷ counted
            ++ b'1' ∷ b'0' ∷ b'=' ∷ sum
            ++ fix_delimiter ∷ [])
        × (length sum ≡ 3)
        × (All IsTagByte digits)
        × (chars_to_unsigned_int w32 digits ≡ length counted))
      × (validate_checksum_no_simd covered actual ≡ true)
      × (validate_checksum_simd_avx2 covered actual ≡ true)
encode-checks s incoming_seq_no m now sequence_no fits =
    let (frames, left) = encode-frame s incoming_seq_no m now sequence_no in
    let checks =
      covered-checks (front s.begin_string (content s incoming_seq_no m now sequence_no)) in
    let counted = content s incoming_seq_no m now sequence_no in
    let digits = unsigned_text (length counted % 2 ^ 32) in
    let small : length counted % 2 ^ 32 ≡ length counted = omega arith in
    let sum = encode_checksum_no_simd (front s.begin_string counted) in
    (
      (
        digits,
        counted,
        sum,
        frames ∙ frame_parts s.begin_string digits counted sum,
        digits_length _,
        unsigned_text-tag_bytes _ (omega arith),
        rw small (unsigned_text_lem _ fits),
      ),
      rw frames (checks.0),
      rw frames (checks.1),
    )
