-- ===== src/Outgoing/Texts.antt =====
-- The texts of tag numbers and values that include/llfix/outgoing_fix_message.h writes.
use native.Mathlib.Decide.{dec_lt}
use native.Mathlib.Nat.{pow-le-pow_right}
use llfix.Converters.Decimal.{HasDigits}
use llfix.Common.{
  ℕ, sym, List, [], arith, replicate, All, ◌^◌, ◌≤◌, ◌<◌, ◌≡◌, ◌≢◌, ◌∷◌, take-length_append, inl,
  length, inr, ◌-◌,
}
use llfix.Outgoing.{unsigned_text}
use llfix.Converters.Decimal.{decimal}
use llfix.Converters.CharsLength.{chars_length-HasDigits, chars_length_le, chars_length_pos}
use llfix.Converters.Unsigned.{
  unsigned_int_to_chars-decimal, decimal-digits, IsDigit, unsigned_round_trip,
}
use llfix.Converters.{chars_to_unsigned_int, w32, get_chars_length}
use llfix.Utilities.Framing.{fix_delimiter, fix_equals}

text_room : (n : ℕ) → n < 2 ^ 32 → get_chars_length n ≤ 64
text_room n h = let r = chars_length_le n (omega arith) in omega arith

pub unsigned_text_lem : (n : ℕ) → n < 2 ^ 32 → chars_to_unsigned_int w32 (unsigned_text n) ≡ n
unfolding unsigned_text
unsigned_text_lem n h =
    let (len, rest, value) = unsigned_round_trip w32 n (replicate 64 0) h (text_room n h) in value

unsigned_text-decimal : (n : ℕ) → n < 2 ^ 32 → unsigned_text n ≡ decimal n
unfolding unsigned_text
unsigned_text-decimal n h =
    let (len, e) = unsigned_int_to_chars-decimal n (replicate 64 0) (omega arith) (text_room n h) in
    rw (e, sym len) (take-length_append (decimal n) _)

pub unsigned_text-digits : (n : ℕ) → n < 2 ^ 32 → All IsDigit (unsigned_text n)
unsigned_text-digits n h =
    rw (unsigned_text-decimal n h) (decimal-digits _ n (chars_length-HasDigits n (omega arith)))

ten_digits : (n k : ℕ) → n < 2 ^ 32 → HasDigits n k → k ≤ 9
ten_digits n k small h = elim h.above [
  | inl e ↦ omega arith
  | inr low ↦ elim (dec_lt 9 k) [
    | yes more ↦
        let pow : 10 ^ 10 ≤ 10 ^ k = pow-le-pow_right (omega arith) more in absurd (omega arith)
    | no few ↦ omega arith
  ]
]

pub length-unsigned_text :
    (n : ℕ) → n < 2 ^ 32 → (0 < length (unsigned_text n)) × (length (unsigned_text n) ≤ 10)
length-unsigned_text n h =
    let (len, e) = unsigned_int_to_chars-decimal n (replicate 64 0) (omega arith) (text_room n h) in
    let pos = chars_length_pos n in
    let few = ten_digits n (get_chars_length n - 1) h (chars_length-HasDigits n (omega arith)) in
    rw (unsigned_text-decimal n h) (omega (arith, len), omega (arith, len))

-- Bytes of a tag, and bytes of a value.
abbrev pub IsTagByte : ℕ → Type 0
IsTagByte c = (c ≢ fix_equals) × (c ≢ fix_delimiter)

abbrev pub IsValueByte : ℕ → Type 0
IsValueByte c = c ≢ fix_delimiter

-- A tag number of 32 bits with a value that has no delimiter.
abbrev pub IsField : ℕ × List ℕ → Type 0
IsField (t, v) = (t < 2 ^ 32) × All IsValueByte v

digits-tag_bytes : (s : List ℕ) → All IsDigit s → All IsTagByte s
digits-tag_bytes [] h = tt
digits-tag_bytes (c ∷ s) ((a, b), h) =
    ((λ e. absurd (omega (arith, e)), λ e. absurd (omega (arith, e))), digits-tag_bytes s h)

pub unsigned_text-tag_bytes : (n : ℕ) → n < 2 ^ 32 → All IsTagByte (unsigned_text n)
unsigned_text-tag_bytes n h = digits-tag_bytes (unsigned_text n) (unsigned_text-digits n h)

tag_bytes-value_bytes : (s : List ℕ) → All IsTagByte s → All IsValueByte s
tag_bytes-value_bytes [] h = tt
tag_bytes-value_bytes (c ∷ s) ((e, d), h) = (d, tag_bytes-value_bytes s h)

pub unsigned_text-value_bytes : (n : ℕ) → n < 2 ^ 32 → All IsValueByte (unsigned_text n)
unsigned_text-value_bytes n h =
    tag_bytes-value_bytes (unsigned_text n) (unsigned_text-tag_bytes n h)
