-- ===== src/Converters.antt =====
-- Conversions between unsigned and signed integers and their decimal characters
-- (include/llfix/core/utilities/converters.h).
pub mod Decimal
pub mod CharsLength
pub mod Unsigned
use llfix.Common.{
  ℕ, zero, suc, ◌+◌, ◌-◌, ◌*◌, ◌/◌, ◌%◌, ◌^◌, true, false, List, [], ◌∷◌, ltb, ◌==◌, if◌then◌else◌,
  set,
}

-- The integer types of the templates: `uint32_t` and `uint64_t`, and their signed versions.
pub data Width : Type 0 where
  w32 w64 : Width

abbrev pub bits : Width → ℕ
bits w32 = 32
bits w64 = 64

abbrev pub modulus : Width → ℕ
modulus w32 = 2 ^ 32
modulus w64 = 2 ^ 64

-- A `char` is a signed byte: the bytes from 128 on stand for negative values, and conversion to an
-- unsigned type wraps them around.
unfoldable pub of_char : Width → ℕ → ℕ
of_char w c = if ltb c 128 then c else modulus w - (256 - c)

-- `buffer[i] - '0'` as a value of the unsigned type.
unfoldable pub digit_of_char : Width → ℕ → ℕ
unfolding of_char
digit_of_char w c = (of_char w c + modulus w - b'0') % modulus w

unfoldable pub parse_digits : Width → List ℕ → ℕ → ℕ
parse_digits w [] result = result
parse_digits w (c ∷ cs) result = parse_digits w cs ((result * 10 + digit_of_char w c) % modulus w)

unfoldable pub skip_plus : List ℕ → List ℕ
skip_plus [] = []
skip_plus (c ∷ cs) = if c == b'+' then cs else c ∷ cs

-- `chars_to_unsigned_int<T>` over the characters of the buffer.
unfoldable pub chars_to_unsigned_int : Width → List ℕ → ℕ
unfolding parse_digits skip_plus digit_of_char
chars_to_unsigned_int w buffer = parse_digits w (skip_plus buffer) 0

-- The position of the highest bit that is set, plus one: 32 - clz(v) for a 32-bit v > 0.
bit_length_go : ℕ → ℕ → ℕ
bit_length_go zero v = 0
bit_length_go (suc fuel) v = elim (v == 0) [ true ↦ 0 | false ↦ suc (bit_length_go fuel (v / 2)) ]

unfoldable pub bit_length : ℕ → ℕ
unfolding bit_length_go
bit_length v = bit_length_go v v

-- `value | 1`.
abbrev pub or_one : ℕ → ℕ
or_one v = v - v % 2 + 1

-- POWERS_OF_TEN and POWERS_OF_TEN_64: the entry 0 is 0.
unfoldable pub powers_of_ten : ℕ → ℕ
powers_of_ten zero = 0
powers_of_ten (suc n) = 10 ^ suc n

-- `get_chars_length_of_uint32_t` and `get_chars_length_of_uint64_t`, which differ in the width of the
-- count of leading zeros and in the table's length.
unfoldable pub get_chars_length : ℕ → ℕ
unfolding bit_length powers_of_ten
get_chars_length value =
    let t = bit_length (or_one value) * 1233 / 4096 in
    t - (if ltb value (powers_of_ten t) then 1 else 0) + 1

-- The loop that writes the digits from the last one, `*target-- = …`, to the first.
unfoldable pub write_digits : ℕ → ℕ → ℕ → List ℕ → List ℕ
write_digits zero number target buffer = set buffer target (b'0' + (number - number / 10 * 10))
write_digits (suc fuel) number target buffer =
    let buffer' = set buffer target (b'0' + (number - number / 10 * 10)) in
    elim (number / 10 == 0) [
      | true ↦ buffer'
      | false ↦ write_digits fuel (number / 10) (target - 1) buffer'
    ]

-- `unsigned_int_to_chars`: the length written, and the buffer.
unfoldable pub unsigned_int_to_chars : ℕ → List ℕ → ℕ × List ℕ
unsigned_int_to_chars number buffer =
    let len = get_chars_length number in (len, write_digits number number (len - 1) buffer)
