-- ===== src/Utilities/Framing.antt =====
-- Where messages begin and end in the receive buffer: find_delimiter_from_end,
-- find_tag10_start_from_end and find_begin_string_position of include/llfix/fix_utilities.h.
use mathlib.Core.Option
use llfix.Common.{
  ℕ, zero, suc, Bool, true, false, sym, inl, inr, Option, none, some, List, [], arith, ltb,
  if◌then◌else◌, length, get_or, drop, Bool-cases, ◌+◌, ◌-◌, ◌≤◌, ◌<◌, ◌≡◌, ◌∙◌, ◌∷◌, ◌==◌, ◌&&◌,
  get_or-drop, length-drop,
}

abbrev pub fix_delimiter : ℕ
fix_delimiter = 1

abbrev pub fix_equals : ℕ
fix_equals = b'='

-- `memrchr`: the index of the last delimiter.
unfoldable pub find_delimiter_from_end : List ℕ → Option ℕ
find_delimiter_from_end [] = none
find_delimiter_from_end (c ∷ cs) = elim (find_delimiter_from_end cs) [
  | some i ↦ some (suc i)
  | none ↦ if c == fix_delimiter then some 0 else none
]

-- The inner loop: the first delimiter at or after `temp_index`.
unfoldable pub next_delimiter : List ℕ → ℕ → Option ℕ
next_delimiter [] i = none
next_delimiter (c ∷ cs) i =
    let rest = next_delimiter cs (i + 1) in if c == fix_delimiter then some i else rest

-- `buffer[index]`; the loops below stay within the buffer.
abbrev pub byte_at : List ℕ → ℕ → ℕ
byte_at buffer i = get_or buffer i 0

abbrev pub is_tag10 : List ℕ → ℕ → Bool
is_tag10 buffer index =
    byte_at buffer index == b'1'
    && (byte_at buffer (index + 1) == b'0' && byte_at buffer (index + 2) == fix_equals)

-- The outer loop, from `index` down to 0; `none` stands for the -1 that the caller passes in.
unfoldable pub tag10_loop : List ℕ → ℕ → Option ℕ
tag10_loop buffer zero = if is_tag10 buffer 0 then next_delimiter (drop 2 buffer) 2 else none
tag10_loop buffer (suc index) = elim (is_tag10 buffer (suc index)) [
  | true ↦ next_delimiter (drop (suc index + 2) buffer) (suc index + 2)
  | false ↦ tag10_loop buffer index
]

unfoldable pub find_tag10_start_from_end : List ℕ → ℕ → Option ℕ
find_tag10_start_from_end buffer index =
    if ltb (length buffer) 3
    then none
    else let max_index = length buffer - 3 in
      tag10_loop buffer (if ltb max_index index then max_index else index)

-- `while (current_index < buffer_size - 1)`; with an empty buffer `buffer_size - 1` wraps around, so the
-- callers pass at least one byte.
unfoldable pub find_begin_string_position : List ℕ → Option ℕ
find_begin_string_position [] = none
find_begin_string_position (a ∷ []) = none
find_begin_string_position (a ∷ b ∷ cs) = elim (a == b'8' && b == fix_equals) [
  | true ↦ some 0
  | false ↦ Option.map suc (find_begin_string_position (b ∷ cs))
]

next_delimiter_sound :
    (cs : List ℕ) (i e : ℕ)
    → next_delimiter cs i ≡ some e
    → (k : ℕ) × (e ≡ i + k) × (byte_at cs k ≡ fix_delimiter) × (k < length cs)
unfolding next_delimiter
next_delimiter_sound [] i e h = absurd (ground arith)
next_delimiter_sound (c ∷ cs) i e h = elim (Bool-cases (c == fix_delimiter)) [
  | inl d ↦ (0, ground arith, ground arith, omega arith)
  | inr d ↦
      let (k, p, q, r) = next_delimiter_sound cs (i + 1) e (ground arith) in
      (suc k, omega arith, q, omega arith)
]

-- The delimiter that ends the field found, and where that field starts.
pub record Tag10Ends (buffer : List ℕ) (index e : ℕ) : Type 0 where
  pub start : ℕ
  pub before : start ≤ index
  pub tag10 : is_tag10 buffer start ≡ true
  pub behind : start + 2 ≤ e
  pub delimiter : byte_at buffer e ≡ fix_delimiter
  pub inside : e < length buffer

from_start :
    (buffer : List ℕ) (start index e : ℕ)
    → start ≤ index
    → is_tag10 buffer start ≡ true
    → next_delimiter (drop (start + 2) buffer) (start + 2) ≡ some e
    → Tag10Ends buffer index e
from_start buffer start index e b t h =
    let (k, p, q, r) = next_delimiter_sound (drop (start + 2) buffer) (start + 2) e h in
    record {
      start = start;
      before = b;
      tag10 = t;
      behind = omega arith;
      delimiter = rw p (sym (get_or-drop (start + 2) k buffer 0) ∙ q);
      inside = omega (arith, length-drop (start + 2) buffer);
    }

tag10_loop_sound :
    (buffer : List ℕ) (bound index e : ℕ)
    → index ≤ bound
    → tag10_loop buffer index ≡ some e
    → Tag10Ends buffer bound e
unfolding tag10_loop
tag10_loop_sound buffer bound zero e b h = elim (Bool-cases (is_tag10 buffer 0)) [
  | inl t ↦ from_start buffer 0 bound e b t (ground arith)
  | inr t ↦ absurd (ground arith)
]
tag10_loop_sound buffer bound (suc index) e b h = elim (Bool-cases (is_tag10 buffer (suc index))) [
  | inl t ↦ from_start buffer (suc index) bound e b t (ground arith)
  | inr t ↦ tag10_loop_sound buffer bound index e (omega arith) (ground arith)
]

-- The index that the search from the end reports is a delimiter inside the buffer, behind a "10=" that
-- starts at or before the place where the search began, and with room for its three characters.
pub find_tag10_sound :
    (buffer : List ℕ) (index e : ℕ)
    → find_tag10_start_from_end buffer index ≡ some e
    → Tag10Ends buffer index e × (3 ≤ length buffer)
unfolding find_tag10_start_from_end
find_tag10_sound buffer index e h = (
  tag10_loop_sound buffer index (clamped buffer index) e (ground arith) (ground arith),
  ground arith,
)
  where
    clamped : List ℕ → ℕ → ℕ
    clamped buffer index = if ltb (length buffer - 3) index then length buffer - 3 else index
