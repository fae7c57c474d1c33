-- ===== src/Utilities/Checksum.antt =====
-- The message checksum: encode_checksum_no_simd, encode_checksum_simd_avx2,
-- validate_checksum_no_simd and validate_checksum_simd_avx2 of include/llfix/fix_utilities.h.
-- A buffer is the list of its bytes; a vector register is the list of its lanes.
use llfix.Common.{
  ℕ, zero, suc, ◌+◌, ◌/◌, ◌%◌, ◌^◌, Bool, true, false, List, [], ◌∷◌, ◌++◌, leb, ◌==◌, length, take,
  drop, replicate,
}

abbrev pub fix_checksum_modulo : ℕ
fix_checksum_modulo = 256

-- `sum += static_cast<unsigned char>(buffer[i])` in a `uint32_t`.
unfoldable pub sum_bytes : ℕ → List ℕ → ℕ
sum_bytes sum [] = sum
sum_bytes sum (c ∷ cs) = sum_bytes ((sum + c) % 2 ^ 32) cs

-- The three characters of tag 10.
unfoldable pub checksum_chars : ℕ → List ℕ
checksum_chars checksum =
    (b'0' + checksum / 100) ∷ (b'0' + checksum / 10 % 10) ∷ (b'0' + checksum % 10) ∷ []

unfoldable pub encode_checksum_no_simd : List ℕ → List ℕ
unfolding sum_bytes checksum_chars
encode_checksum_no_simd buffer = checksum_chars (sum_bytes 0 buffer % fix_checksum_modulo)

unfoldable pub validate_checksum_no_simd : List ℕ → ℕ → Bool
unfolding sum_bytes
validate_checksum_no_simd buffer actual = sum_bytes 0 buffer % fix_checksum_modulo == actual

-- _mm256_unpacklo_epi8 and _mm256_unpackhi_epi8 against zero: bytes 0-7 and 16-23, or bytes 8-15 and
-- 24-31, widened to sixteen bits.
unfoldable pub unpacklo : List ℕ → List ℕ
unpacklo bytes = take 8 bytes ++ take 8 (drop 16 bytes)

unfoldable pub unpackhi : List ℕ → List ℕ
unpackhi bytes = take 8 (drop 8 bytes) ++ take 8 (drop 24 bytes)

-- _mm256_add_epi16 and _mm_add_epi16: lane by lane, with wrap-around.
unfoldable pub add_epi16 : List ℕ → List ℕ → List ℕ
add_epi16 [] ys = []
add_epi16 (x ∷ xs) [] = []
add_epi16 (x ∷ xs) (y ∷ ys) = (x + y) % 2 ^ 16 ∷ add_epi16 xs ys

-- One round of the vector loop, on a block of 32 bytes.
unfoldable pub simd_block : List ℕ → List ℕ → List ℕ
simd_block acc bytes = add_epi16 (add_epi16 acc (unpacklo bytes)) (unpackhi bytes)

-- The loop over whole blocks of 32 bytes: the accumulator and the bytes that are left.
unfoldable pub simd_loop : ℕ → List ℕ → List ℕ → List ℕ × List ℕ
simd_loop zero acc rest = (acc, rest)
simd_loop (suc fuel) acc rest = elim (leb 32 (length rest)) [
  | true ↦ simd_loop fuel (simd_block acc (take 32 rest)) (drop 32 rest)
  | false ↦ (acc, rest)
]

-- The sum of the whole buffer as the vector code computes it; one round for each byte is more than
-- enough fuel.
unfoldable pub simd_sum : List ℕ → ℕ
simd_sum buffer =
    let (acc, rest) = simd_loop (length buffer) (replicate 16 0) buffer in
    let temp = add_epi16 (take 8 acc) (drop 8 acc) in sum_bytes (sum_bytes 0 temp) rest

unfoldable pub encode_checksum_simd_avx2 : List ℕ → List ℕ
unfolding simd_sum checksum_chars
encode_checksum_simd_avx2 buffer = checksum_chars (simd_sum buffer % fix_checksum_modulo)

unfoldable pub validate_checksum_simd_avx2 : List ℕ → ℕ → Bool
unfolding simd_sum
validate_checksum_simd_avx2 buffer actual = simd_sum buffer % fix_checksum_modulo == actual
