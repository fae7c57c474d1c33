-- ===== src/Examples/Texts.antt =====
-- Numbers, checksums, message types and frames at concrete inputs.
use llfix.Utilities.ChecksumSimd.{simd-no_simd}
use llfix.StringView.Numbers.{numeric-unsigned}
use llfix.StringView.{is_numeric}
use llfix.Utilities.Framing.{
  find_tag10_start_from_end, Tag10Ends, tag10_loop, find_tag10_sound, next_delimiter,
}
use llfix.Utilities.Checksum.{
  encode_checksum_simd_avx2, validate_checksum_no_simd, encode_checksum_no_simd,
  validate_checksum_simd_avx2,
}
use llfix.Converters.{
  chars_to_unsigned_int, get_chars_length, unsigned_int_to_chars, w32, bit_length,
}
use llfix.Converters.Unsigned.{IsDigit, unsigned_round_trip}
use llfix.Common.{
  ℕ, true, refl, some, List, [], arith, length, take, drop, replicate, All, ◌≤◌, ◌≡◌, ◌∷◌,
}

abbrev digits : List ℕ
digits = b'4' ∷ b'0' ∷ b'7' ∷ []

digits-IsDigit : All IsDigit digits
digits-IsDigit = ground arith

chars_length_407 : get_chars_length 407 ≤ 5
unfolding get_chars_length bit_length
chars_length_407 = omega arith

unsigned_round_trip_example :
    let (len, out) = unsigned_int_to_chars 407 (replicate 5 0) in
    (len ≡ get_chars_length 407)
    × (drop len out ≡ drop len (replicate 5 0))
    × (chars_to_unsigned_int w32 (take len out) ≡ 407)
unsigned_round_trip_example =
    unsigned_round_trip w32 407 (replicate 5 0) (omega arith) chars_length_407

-- Forty bytes: one whole block and a rest.
abbrev forty : List ℕ
forty = replicate 40 200

simd-no_simd_example :
    (encode_checksum_simd_avx2 forty ≡ encode_checksum_no_simd forty)
    × ((actual : ℕ)
        → validate_checksum_simd_avx2 forty actual ≡ validate_checksum_no_simd forty actual)
simd-no_simd_example = simd-no_simd forty

-- "8=F", "10=123" and the start of the next message.
abbrev stream : List ℕ
stream =
    b'8' ∷ b'=' ∷ b'F' ∷ 1 ∷ b'1' ∷ b'0' ∷ b'=' ∷ b'1' ∷ b'2' ∷ b'3' ∷ 1 ∷ b'8' ∷ b'=' ∷ b'F' ∷ 1
    ∷ []

stream_ends : find_tag10_start_from_end stream 14 ≡ some 10
unfolding find_tag10_start_from_end tag10_loop next_delimiter
stream_ends = refl

find_tag10_sound_example : Tag10Ends stream 14 10 × (3 ≤ length stream)
find_tag10_sound_example = find_tag10_sound stream 14 10 stream_ends

-- A minus sign in front of 5 is read as 4294967271.
numeric-unsigned_example :
    (is_numeric (b'5' ∷ []) ≡ true)
    × (is_numeric (b'+' ∷ b'5' ∷ []) ≡ true)
    × (is_numeric (b'-' ∷ b'5' ∷ []) ≡ true)
    × (chars_to_unsigned_int w32 (b'5' ∷ []) ≡ 5)
    × (chars_to_unsigned_int w32 (b'+' ∷ b'5' ∷ []) ≡ 5)
    × (chars_to_unsigned_int w32 (b'-' ∷ b'5' ∷ []) ≡ 4294967271)
numeric-unsigned_example = numeric-unsigned (b'5' ∷ []) (λ e. cc) (ground arith)
