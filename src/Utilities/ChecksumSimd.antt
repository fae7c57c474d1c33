-- ===== src/Utilities/ChecksumSimd.antt =====
-- The vector version of the checksum agrees with the plain one, and a message that carries its own
-- checksum is accepted (include/llfix/fix_utilities.h).
use llfix.Converters.Unsigned.{chars_to_unsigned_int-value}
use llfix.Converters.{chars_to_unsigned_int, w32}
use llfix.Common.{
  ℕ, zero, suc, ◌+◌, ◌%◌, ◌≡◌, refl, List, [], ◌∷◌, ◌++◌, arith, length, take, drop, ◌^◌, ap,
  Bool-cases, replicate, length-drop, leb, length-take, ◌<◌, length-append, inl, inr, ◌==◌, true,
  ◌∙◌, false, leb→le, ◌≤◌, ◌↔◌, sym, ==_iff, drop-drop,
}
use llfix.Utilities.Checksum.{
  sum_bytes, add_epi16, unpacklo, unpackhi, simd_loop, simd_sum, encode_checksum_simd_avx2,
  checksum_chars, validate_checksum_no_simd, encode_checksum_no_simd, validate_checksum_simd_avx2,
  simd_block,
}

abbrev pub total : List ℕ → ℕ
total [] = 0
total (x ∷ xs) = x + total xs

total-append : (xs ys : List ℕ) → total (xs ++ ys) ≡ total xs + total ys
total-append [] ys = omega arith
total-append (x ∷ xs) ys = omega (arith, total-append xs ys)

total_split : (n : ℕ) (xs : List ℕ) → total (take n xs) + total (drop n xs) ≡ total xs
total_split zero xs = omega arith
total_split (suc n) [] = omega arith
total_split (suc n) (x ∷ xs) = omega (arith, total_split n xs)

-- The two halves that are widened hold the bytes of a block, each once.
total-unpack :
    (b : List ℕ)
    → length b ≡ 32
    → (total (unpacklo b) + total (unpackhi b) ≡ total b)
      × (length (unpacklo b) ≡ 16)
      × (length (unpackhi b) ≡ 16)
unfolding unpacklo unpackhi
total-unpack b h = (
  omega (
    arith,
    total-append (take 8 b) (take 8 (drop 16 b)),
    total-append (take 8 (drop 8 b)) (take 8 (drop 24 b)),
    total_split 8 b,
    total_split 8 (drop 8 b),
    total_split 8 (drop 16 b),
    total_split 8 (drop 24 b),
    ap total (drop-drop 8 8 b),
    ap total (drop-drop 8 16 b),
    ap total (drop-drop 8 24 b),
    total_nil (drop 32 b) (omega (arith, length-drop 32 b)),
  ),
  omega (
    arith,
    length-append (take 8 b) (take 8 (drop 16 b)),
    length-take 8 b,
    length-take 8 (drop 16 b),
    length-drop 16 b,
  ),
  omega (
    arith,
    length-append (take 8 (drop 8 b)) (take 8 (drop 24 b)),
    length-take 8 (drop 8 b),
    length-take 8 (drop 24 b),
    length-drop 8 b,
    length-drop 24 b,
  ),
)
  where
    total_nil : (xs : List ℕ) → length xs ≡ 0 → total xs ≡ 0
    total_nil [] e = refl
    total_nil (x ∷ xs) e = absurd (omega arith)

pub sum_bytes-total : (xs : List ℕ) (r : ℕ) → sum_bytes r xs % 256 ≡ (r + total xs) % 256
unfolding sum_bytes
sum_bytes-total [] r = omega arith
sum_bytes-total (x ∷ xs) r = omega (arith, sum_bytes-total xs ((r + x) % 2 ^ 32))

total-add_epi16 :
    (xs ys : List ℕ)
    → length xs ≡ length ys
    → (total (add_epi16 xs ys) % 256 ≡ (total xs + total ys) % 256)
      × (length (add_epi16 xs ys) ≡ length xs)
unfolding add_epi16
total-add_epi16 [] [] h = (refl, refl)
total-add_epi16 [] (y ∷ ys) h = absurd (omega arith)
total-add_epi16 (x ∷ xs) [] h = absurd (omega arith)
total-add_epi16 (x ∷ xs) (y ∷ ys) h =
    let (s, l) = total-add_epi16 xs ys (omega arith) in (omega (arith, s), omega (arith, l))

simd_loop_more :
    (fuel : ℕ) (acc rest : List ℕ)
    → leb 32 (length rest) ≡ true
    → simd_loop (suc fuel) acc rest ≡ simd_loop fuel (simd_block acc (take 32 rest)) (drop 32 rest)
unfolding simd_loop
simd_loop_more fuel acc rest e = rw (e, simd_loop) refl

simd_loop_done :
    (fuel : ℕ) (acc rest : List ℕ)
    → leb 32 (length rest) ≡ false
    → simd_loop (suc fuel) acc rest ≡ (acc, rest)
unfolding simd_loop
simd_loop_done fuel acc rest e = rw (e, simd_loop) refl

total-simd_block :
    (acc rest : List ℕ)
    → length acc ≡ 16
    → 32 ≤ length rest
    → ((total (simd_block acc (take 32 rest)) + total (drop 32 rest)) % 256
        ≡ (total acc + total rest) % 256)
      × (length (simd_block acc (take 32 rest)) ≡ 16)
unfolding simd_block
total-simd_block acc rest h r =
    let b = take 32 rest in
    let (same, lo, hi) = total-unpack b (omega (arith, length-take 32 rest)) in
    let (s, l) = total-add_epi16 acc (unpacklo b) (omega arith) in
    let (s', l') = total-add_epi16 (add_epi16 acc (unpacklo b)) (unpackhi b) (omega arith) in
    (omega (arith, total_split 32 rest), omega arith)

-- Modulo 256 the lanes of the accumulator and the bytes that are left keep their sum.
simd_loop-total :
    (fuel : ℕ) (acc rest : List ℕ)
    → length acc ≡ 16
    → ((total (simd_loop fuel acc rest).0 + total (simd_loop fuel acc rest).1) % 256
        ≡ (total acc + total rest) % 256)
      × (length (simd_loop fuel acc rest).0 ≡ 16)
simd_loop-total zero acc rest h = unfold simd_loop in (refl, h)
simd_loop-total (suc fuel) acc rest h = elim (Bool-cases (leb 32 (length rest))) [
  | inl e ↦
      let (s, l) = total-simd_block acc rest h (leb→le 32 (length rest) e) in
      let (t, k) = simd_loop-total fuel (simd_block acc (take 32 rest)) (drop 32 rest) l in
      rw (simd_loop_more fuel acc rest e) (t ∙ s, k)
  | inr e ↦ rw (simd_loop_done fuel acc rest e) (refl, h)
]

simd_sum-total : (buffer : List ℕ) → simd_sum buffer % 256 ≡ total buffer % 256
unfolding simd_sum
simd_sum-total buffer =
    let (acc, rest) = simd_loop (length buffer) (replicate 16 0) buffer in
    let (s, l) = simd_loop-total (length buffer) (replicate 16 0) buffer refl in
    let (t, k) =
      total-add_epi16 (take 8 acc) (drop 8 acc)
        (omega (arith, length-take 8 acc, length-drop 8 acc)) in
    omega (
      arith,
      sum_bytes-total rest (sum_bytes 0 (add_epi16 (take 8 acc) (drop 8 acc))),
      sum_bytes-total (add_epi16 (take 8 acc) (drop 8 acc)) 0,
      total_split 8 acc,
    )

-- On every buffer the vector code and the plain loop write the same three characters and accept the
-- same checksums, although the vector code adds in lanes of sixteen bits that wrap around.
pub simd-no_simd :
    (buffer : List ℕ)
    → (encode_checksum_simd_avx2 buffer ≡ encode_checksum_no_simd buffer)
      × ((actual : ℕ)
          → validate_checksum_simd_avx2 buffer actual ≡ validate_checksum_no_simd buffer actual)
unfolding encode_checksum_simd_avx2 encode_checksum_no_simd validate_checksum_simd_avx2
    validate_checksum_no_simd
simd-no_simd buffer =
    let e : simd_sum buffer % 256 ≡ sum_bytes 0 buffer % 256 =
      omega (arith, simd_sum-total buffer, sum_bytes-total buffer 0) in
    (ap checksum_chars e, λ actual. ap (λ c. c == actual) e)

checksum_value : (c : ℕ) → c < 256 → chars_to_unsigned_int w32 (checksum_chars c) ≡ c
unfolding checksum_chars
checksum_value c h =
    (chars_to_unsigned_int-value w32 (checksum_chars c) (omega arith)).0 ∙ (omega arith)

read-encode :
    (buffer : List ℕ)
    → chars_to_unsigned_int w32 (encode_checksum_no_simd buffer) ≡ sum_bytes 0 buffer % 256
unfolding encode_checksum_no_simd
read-encode buffer = checksum_value (sum_bytes 0 buffer % 256) (omega arith)

validate_iff :
    (buffer : List ℕ) (actual : ℕ)
    → (validate_checksum_no_simd buffer actual ≡ true) ↔ (actual ≡ sum_bytes 0 buffer % 256)
unfolding validate_checksum_no_simd
validate_iff buffer actual = (
  λ h. sym ((==_iff (sum_bytes 0 buffer % 256) actual).0 h),
  λ h. (==_iff (sum_bytes 0 buffer % 256) actual).1 (sym h),
)

-- A receiver accepts a checksum exactly when it is the number that the sender writes as tag 10 over the
-- same bytes, whichever of the two uses the vector code.
pub validate-encode :
    (buffer : List ℕ) (actual : ℕ)
    → ((validate_checksum_no_simd buffer actual ≡ true)
        ↔ (actual ≡ chars_to_unsigned_int w32 (encode_checksum_simd_avx2 buffer)))
      × ((validate_checksum_simd_avx2 buffer actual ≡ true)
          ↔ (actual ≡ chars_to_unsigned_int w32 (encode_checksum_no_simd buffer)))
validate-encode buffer actual =
    let (enc, val) = simd-no_simd buffer in
    let v = validate_iff buffer actual in
    (rw (enc, read-encode buffer) v, rw (val actual, read-encode buffer) v)
