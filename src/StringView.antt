-- ===== src/StringView.antt =====
-- include/llfix/fix_string_view.h: the view of a tag's value in the receive buffer, as the list of its
-- bytes, and the tests on it.
pub mod Numbers
pub mod Timestamps
use llfix.Common.{
  ℕ, ◌+◌, ◌-◌, ◌*◌, Bool, true, false, not, ◌&&◌, ◌||◌, List, [], ◌∷◌, ltb, leb, ◌==◌,
  if◌then◌else◌, length, get_or, drop,
}

abbrev pub fix_boolean_true : ℕ
fix_boolean_true = b'Y'

abbrev pub fix_boolean_false : ℕ
fix_boolean_false = b'N'

-- `c >= '0' && c <= '9'`; a byte from 128 on, a negative `char`, fails either way.
abbrev pub is_digit : ℕ → Bool
is_digit c = leb b'0' c && leb c b'9'

-- The loops that return false at the first character that is no digit.
unfoldable pub all_digits : List ℕ → Bool
all_digits [] = true
all_digits (c ∷ cs) = is_digit c && all_digits cs

-- `m_buffer[i]`; every use below stands behind a test of the length.
abbrev pub at : List ℕ → ℕ → ℕ
at buffer i = get_or buffer i 0

unfoldable pub digits_at : List ℕ → List ℕ → Bool
digits_at buffer [] = true
digits_at buffer (i ∷ is) = is_digit (at buffer i) && digits_at buffer is

-- `equals`: the same length and the same characters.
unfoldable pub equals : List ℕ → List ℕ → Bool
equals [] [] = true
equals [] (y ∷ ys) = false
equals (x ∷ xs) [] = false
equals (x ∷ xs) (y ∷ ys) = x == y && equals xs ys

abbrev pub is_sign : ℕ → Bool
is_sign c = c == b'+' || c == b'-'

unfoldable pub is_numeric : List ℕ → Bool
unfolding all_digits
is_numeric [] = false
is_numeric (first ∷ rest) =
    if is_sign first
    then if length (first ∷ rest) == 1 then false else all_digits rest
    else all_digits (first ∷ rest)

unfoldable pub all_digits_or_dots : List ℕ → Bool
all_digits_or_dots [] = true
all_digits_or_dots (c ∷ cs) = (is_digit c || c == b'.') && all_digits_or_dots cs

unfoldable pub is_double : List ℕ → Bool
unfolding all_digits_or_dots
is_double [] = false
is_double (first ∷ rest) =
    if is_sign first
    then if length (first ∷ rest) == 1 then false else all_digits_or_dots rest
    else all_digits_or_dots (first ∷ rest)

unfoldable pub is_boolean : List ℕ → Bool
is_boolean buffer =
    if not (length buffer == 1)
    then false
    else at buffer 0 == fix_boolean_true || at buffer 0 == fix_boolean_false

-- The lambda `to_int`: two characters, which the code has found to be digits, as a number.
abbrev pub to_int : List ℕ → ℕ → ℕ
to_int buffer pos = (at buffer pos - b'0') * 10 + (at buffer (pos + 1) - b'0')

-- The optional fraction of a second: a point at `pos` and digits behind it.
unfoldable pub subseconds_ok : List ℕ → ℕ → Bool
unfolding all_digits
subseconds_ok buffer pos =
    if ltb pos (length buffer)
    then if not (at buffer pos == b'.') then false else all_digits (drop (pos + 1) buffer)
    else true

-- The ranges of the time of day whose parts stand at three positions.
abbrev pub time_in_range : ℕ → ℕ → ℕ → Bool
time_in_range hour minutes seconds =
    if ltb 23 hour
    then false
    else if ltb 59 minutes
    then false
    else if ltb 59 seconds
    then false
    else true

abbrev pub date_in_range : ℕ → ℕ → Bool
date_in_range month day =
    if ltb month 1 || ltb 12 month then false else if ltb day 1 || ltb 31 day then false else true

unfoldable pub is_timestamp : List ℕ → Bool
is_timestamp buffer =
    if ltb (length buffer) 17
    then false
    else if not (at buffer 8 == b'-') || not (at buffer 11 == b':') || not (at buffer 14 == b':')
    then false
    else if not (digits_at buffer (0 ∷ 1 ∷ 2 ∷ 3 ∷ 4 ∷ 5 ∷ 6 ∷ 7 ∷ []))
    then false
    else if not (digits_at buffer (9 ∷ 10 ∷ 12 ∷ 13 ∷ 15 ∷ 16 ∷ []))
    then false
    else if not (subseconds_ok buffer 17)
    then false
    else if not (time_in_range (to_int buffer 9) (to_int buffer 12) (to_int buffer 15))
    then false
    else date_in_range (to_int buffer 4) (to_int buffer 6)

unfoldable pub is_time_only : List ℕ → Bool
is_time_only buffer =
    if ltb (length buffer) 8
    then false
    else if not (at buffer 2 == b':') || not (at buffer 5 == b':')
    then false
    else if not (digits_at buffer (0 ∷ 1 ∷ 3 ∷ 4 ∷ 6 ∷ 7 ∷ []))
    then false
    else if not (subseconds_ok buffer 8)
    then false
    else time_in_range (to_int buffer 0) (to_int buffer 3) (to_int buffer 6)

unfoldable pub is_date_only : List ℕ → Bool
is_date_only buffer =
    if not (length buffer == 8)
    then false
    else if not (digits_at buffer (0 ∷ 1 ∷ 2 ∷ 3 ∷ 4 ∷ 5 ∷ 6 ∷ 7 ∷ []))
    then false
    else date_in_range (to_int buffer 4) (to_int buffer 6)
