-- ===== src/Converters/Unsigned.antt =====
-- Printing and reading unsigned integers: unsigned_int_to_chars and chars_to_unsigned_int of
-- include/llfix/core/utilities/converters.h.
use llfix.Converters.CharsLength.{chars_length-HasDigits, chars_length_pos}
use llfix.Common.{
  ℕ, zero, suc, ◌+◌, ◌-◌, ◌*◌, ◌/◌, ◌%◌, ◌≤◌, ◌<◌, ◌≡◌, refl, List, [], ◌∷◌, ◌++◌, append_assoc,
  arith, length, set, drop, length-set, All, All-append, subst, ◌^◌, take, drop-length_append,
  take-length_append, ◌∙◌, ap,
}
use llfix.Converters.Decimal.{
  HasDigits, HasDigits-zero, HasDigits-tenth, decimal, decimal_one, decimal_step, length-decimal,
}
use llfix.Converters.{
  write_digits, digit_of_char, Width, parse_digits, skip_plus, chars_to_unsigned_int,
  unsigned_int_to_chars, modulus, get_chars_length, w32, w64,
}

drop-set :
    (k : ℕ) (buffer : List ℕ) (c : ℕ)
    → k < length buffer
    → drop k (set buffer k c) ≡ c ∷ drop (suc k) buffer
drop-set k [] c h = absurd (omega arith)
drop-set zero (x ∷ xs) c h = refl
drop-set (suc k) (x ∷ xs) c h = drop-set k xs c (omega arith)

pub last_digit : (n : ℕ) → n - n / 10 * 10 ≡ n % 10
last_digit n = omega arith

-- The loop fills the places up to `k` with the digits and leaves what stands behind them.
pub write_digits-decimal :
    (k fuel n : ℕ) (buffer : List ℕ)
    → HasDigits n k
    → n ≤ fuel
    → k < length buffer
    → write_digits fuel n k buffer ≡ decimal n ++ drop (suc k) buffer
unfolding write_digits
write_digits-decimal zero zero n [] h f l = absurd (omega arith)
write_digits-decimal zero zero n (x ∷ xs) h f l =
    rw (decimal_one n (HasDigits-zero n h), last_digit n) refl
write_digits-decimal zero (suc fuel) n [] h f l = absurd (omega arith)
write_digits-decimal zero (suc fuel) n (x ∷ xs) h f l =
    rw (decimal_one n (HasDigits-zero n h))
      (let z = HasDigits-zero n h in ground (arith, last_digit n))
write_digits-decimal (suc k) zero n buffer h f l =
    absurd (let (t, pos) = HasDigits-tenth n k h in omega arith)
write_digits-decimal (suc k) (suc fuel) n buffer h f l =
    let (t, pos) = HasDigits-tenth n k h in
    let c = b'0' + (n - n / 10 * 10) in
    let ih =
      write_digits-decimal k fuel (n / 10) (set buffer (suc k) c) t (omega arith)
        (omega (arith, length-set buffer (suc k) c)) in
    ground (
      arith,
      ih,
      decimal_step n pos,
      drop-set (suc k) buffer c l,
      last_digit n,
      append_assoc (decimal (n / 10)) (c ∷ []) (drop (suc (suc k)) buffer),
    )

abbrev pub IsDigit : ℕ → Type 0
IsDigit c = (b'0' ≤ c) × (c ≤ b'9')

-- The number that digits spell behind `r`, with no bound.
abbrev pub value : ℕ → List ℕ → ℕ
value r [] = r
value r (c ∷ cs) = value (r * 10 + (c - b'0')) cs

pub digit_of_char_lem : (w : Width) (c : ℕ) → IsDigit c → digit_of_char w c ≡ c - b'0'
unfolding digit_of_char
digit_of_char_lem w32 c h = ground arith
digit_of_char_lem w64 c h = ground arith

pub decimal-digits : (k n : ℕ) → HasDigits n k → All IsDigit (decimal n)
decimal-digits zero n h = rw (decimal_one n (HasDigits-zero n h)) (omega arith)
decimal-digits (suc k) n h =
    let (t, pos) = HasDigits-tenth n k h in
    rw (decimal_step n pos)
      (All-append IsDigit (decimal (n / 10)) _ (decimal-digits k (n / 10) t) (omega arith))

pub value-append : (xs ys : List ℕ) (r : ℕ) → value r (xs ++ ys) ≡ value (value r xs) ys
value-append [] ys r = refl
value-append (x ∷ xs) ys r = value-append xs ys (r * 10 + (x - b'0'))

pub value-decimal : (k n : ℕ) → HasDigits n k → value 0 (decimal n) ≡ n
value-decimal zero n h =
    rw (decimal_one n (HasDigits-zero n h)) (let z = HasDigits-zero n h in omega arith)
value-decimal (suc k) n h =
    let (t, pos) = HasDigits-tenth n k h in
    rw
      (
        decimal_step n pos,
        value-append (decimal (n / 10)) ((b'0' + n % 10) ∷ []) 0,
        value-decimal k (n / 10) t,
      )
      (omega arith)

modulus_step :
    (w : Width) (r d : ℕ) → (r % modulus w * 10 + d) % modulus w ≡ (r * 10 + d) % modulus w
modulus_step w32 r d = omega arith
modulus_step w64 r d = omega arith

pub parse_digits-value :
    (w : Width) (s : List ℕ) (r : ℕ)
    → All IsDigit s
    → parse_digits w s (r % modulus w) ≡ value r s % modulus w
unfolding parse_digits
parse_digits-value w [] r h = refl
parse_digits-value w (c ∷ s) r h =
    rw (digit_of_char_lem w c h.0, modulus_step w r (c - b'0'))
      (parse_digits-value w s (r * 10 + (c - b'0')) h.1)

skip_plus-digits : (s : List ℕ) → All IsDigit s → skip_plus s ≡ s
unfolding skip_plus
skip_plus-digits [] h = refl
skip_plus-digits (c ∷ s) h = ground arith

skip_plus_plus : (s : List ℕ) → skip_plus (b'+' ∷ s) ≡ s
unfolding skip_plus
skip_plus_plus s = refl

zero-mod : (w : Width) → 0 % modulus w ≡ 0
zero-mod w32 = refl
zero-mod w64 = refl

-- A digit string, with or without a plus sign in front, is read as the number it spells, reduced to
-- the width of the type: the result is exact when the number fits and silently wraps when it does not.
pub chars_to_unsigned_int-value :
    (w : Width) (s : List ℕ)
    → All IsDigit s
    → (chars_to_unsigned_int w s ≡ value 0 s % modulus w)
      × (chars_to_unsigned_int w (b'+' ∷ s) ≡ value 0 s % modulus w)
unfolding chars_to_unsigned_int
chars_to_unsigned_int-value w s h =
    let e =
      subst (λ z. parse_digits w s z ≡ value 0 s % modulus w) (zero-mod w)
        (parse_digits-value w s 0 h) in
    (rw (skip_plus-digits s h) e, rw (skip_plus_plus s) e)

small-mod : (w : Width) (n : ℕ) → n < modulus w → (n % modulus w ≡ n) × (n < 2 ^ 64)
small-mod w32 n h = (omega arith, omega arith)
small-mod w64 n h = (omega arith, omega arith)

pub unsigned_int_to_chars-decimal :
    (n : ℕ) (buffer : List ℕ)
    → n < 2 ^ 64
    → get_chars_length n ≤ length buffer
    → (length (decimal n) ≡ get_chars_length n)
      × (unsigned_int_to_chars n buffer
          ≡ (get_chars_length n, decimal n ++ drop (get_chars_length n) buffer))
unfolding unsigned_int_to_chars
unsigned_int_to_chars-decimal n buffer h l =
    let d = chars_length-HasDigits n h in
    let pos : suc (get_chars_length n - 1) ≡ get_chars_length n =
      omega (arith, chars_length_pos n) in
    (
      length-decimal (get_chars_length n - 1) n d ∙ pos,
      ap (λ out. (get_chars_length n, out))
          (write_digits-decimal (get_chars_length n - 1) n n buffer d (omega arith) (omega arith)
            ∙ ap (λ k. decimal n ++ drop k buffer) pos),
    )

-- An unsigned number of either width, printed into a buffer with room for its digits, fills exactly
-- the places that the length function promises, leaves the buffer behind them as it was, and is read
-- back as the same number.
pub unsigned_round_trip :
    (w : Width) (n : ℕ) (buffer : List ℕ)
    → n < modulus w
    → get_chars_length n ≤ length buffer
    → let (len, out) = unsigned_int_to_chars n buffer in
      (len ≡ get_chars_length n)
      × (drop len out ≡ drop len buffer)
      × (chars_to_unsigned_int w (take len out) ≡ n)
unsigned_round_trip w n buffer h l =
    let (exact, small) = small-mod w n h in
    let d = chars_length-HasDigits n small in
    let (len, e) = unsigned_int_to_chars-decimal n buffer small l in
    rw e (
      refl,
      rw (← len) (drop-length_append (decimal n) _),
      rw (← len) (
          rw (take-length_append (decimal n) (drop (length (decimal n)) buffer)) (
            (chars_to_unsigned_int-value w (decimal n) (decimal-digits _ n d)).0
            ∙ ap (λ v. v % modulus w) (value-decimal _ n d)
            ∙ exact)),
    )

parse_digits-lt : (w : Width) (s : List ℕ) (r : ℕ) → r < modulus w → parse_digits w s r < modulus w
unfolding parse_digits
parse_digits-lt w [] r h = h
parse_digits-lt w32 (c ∷ s) r h = parse_digits-lt w32 s _ (omega arith)
parse_digits-lt w64 (c ∷ s) r h = parse_digits-lt w64 s _ (omega arith)

pub chars_to_unsigned_int-lt : (w : Width) (s : List ℕ) → chars_to_unsigned_int w s < modulus w
unfolding chars_to_unsigned_int
chars_to_unsigned_int-lt w32 s = parse_digits-lt w32 (skip_plus s) 0 (omega arith)
chars_to_unsigned_int-lt w64 s = parse_digits-lt w64 (skip_plus s) 0 (omega arith)
