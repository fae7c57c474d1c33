-- ===== src/Converters/CharsLength.antt =====
-- The closed formula for the number of decimal digits, get_chars_length_of_uint32_t and
-- get_chars_length_of_uint64_t of include/llfix/core/utilities/converters.h.
use native.Mathlib.Nat.{pow-suc}
use native.Mathlib.Decide.{dec_lt}
use llfix.Common.{
  ℕ, zero, suc, ◌+◌, ◌-◌, ◌*◌, ◌/◌, ◌^◌, ◌≤◌, ◌<◌, ◌≡◌, refl, ◌⊎◌, inl, inr, Bool, true, ◌&&◌, ◌||◌,
  arith, ◌==◌, ltb, leb, if◌then◌else◌, Bool-cases, false,
}
use llfix.Converters.Decimal.{HasDigits}
use llfix.Converters.{bit_length_go, bit_length, or_one, powers_of_ten, get_chars_length}

double :
    (v r : ℕ) → 0 < v → (v / 2 ≡ 0 → r ≡ 0) → (0 < v / 2 → 2 ^ r ≤ 2 * (v / 2)) → 2 ^ suc r ≤ 2 * v
double v zero p z low = let q : 2 ≤ 2 * v = omega arith in q
double v (suc r) p z low = elim (dec_lt 0 (v / 2)) [
  | yes q ↦ let s = pow-suc 2 (suc r) in omega (arith, s, low q)
  | no q ↦ absurd (omega (arith, z (omega arith)))
]

one_bit : (f v : ℕ) → v / 2 ≡ 0 → bit_length_go f (v / 2) ≡ 0
unfolding bit_length_go
one_bit zero v h = refl
one_bit (suc f) v h = rw h refl

bit_length_go-bounds :
    (f v : ℕ) → v ≤ f → (v < 2 ^ bit_length_go f v) × (0 < v → 2 ^ bit_length_go f v ≤ 2 * v)
unfolding bit_length_go
bit_length_go-bounds zero v h = (omega arith, λ p. omega arith)
bit_length_go-bounds (suc f) v h = elim (Bool-cases (v == 0)) [
  | inl e ↦ rw (e, bit_length_go) (ground arith, λ p. ground arith)
  | inr e ↦
      let (up, low) = bit_length_go-bounds f (v / 2) (ground arith) in
      let s = pow-suc 2 (bit_length_go f (v / 2)) in
      rw (e, bit_length_go)
        (omega (arith, s), λ p. double v (bit_length_go f (v / 2)) p (one_bit f v) low)
]

bit_length_go-le : (f v k : ℕ) → v < 2 ^ k → bit_length_go f v ≤ k
unfolding bit_length_go
bit_length_go-le zero v k h = omega arith
bit_length_go-le (suc f) v zero h = let p : v < 1 = h in ground arith
bit_length_go-le (suc f) v (suc k) h =
    ground
      (arith, pow-suc 2 k, bit_length_go-le f (v / 2) k (let e = pow-suc 2 k in omega (arith, e)))

-- What a bit length `b` says of the estimate `t` by 1233 / 4096.
estimate_fits : ℕ → Bool
estimate_fits b =
    let t = b * 1233 / 4096 in
    leb (2 ^ b) (10 ^ (t + 1))
    && (t == 0 || (leb 2 b && (t == 1 || leb (10 ^ (t - 1) * 2) (2 ^ b))))

-- The estimate fits for each of the `rounds` bit lengths from `b` on.
fits_from : ℕ → ℕ → Bool
fits_from b zero = true
fits_from b (suc rounds) = if estimate_fits b then fits_from (b + 1) rounds else false

fits_from-at :
    (b rounds i : ℕ) → i < rounds → fits_from b rounds ≡ true → estimate_fits (b + i) ≡ true
unfolding fits_from
fits_from-at b zero i lt h = absurd (omega arith)
fits_from-at b (suc rounds) zero lt h = ground arith
fits_from-at b (suc rounds) (suc i) lt h =
    let e : b + suc i ≡ b + 1 + i = omega arith in
    rw e (fits_from-at (b + 1) rounds i (omega arith) (ground arith))

fits_table : fits_from 0 65 ≡ true
unfolding fits_from estimate_fits
fits_table = refl

estimate_lem :
    (b : ℕ)
    → b < 65
    → let t = b * 1233 / 4096 in
      (2 ^ b ≤ 10 ^ suc t) × ((t ≡ 0) ⊎ ((2 ≤ b) × ((t ≡ 1) ⊎ (10 ^ (t - 1) * 2 ≤ 2 ^ b))))
unfolding estimate_fits
estimate_lem b h = let fits = fits_from-at 0 65 b h fits_table in (ground arith, ground arith)

or_one-bit_length :
    (v : ℕ)
    → v < 2 ^ 64
    → let b = bit_length (or_one v) in (b < 65) × (v < 2 ^ b) × (2 ≤ b → 2 ^ b ≤ 2 * v)
unfolding bit_length
or_one-bit_length v h =
    let w = or_one v in
    let (up, low) = bit_length_go-bounds w w (omega arith) in
    let p : w < 2 ^ 64 = omega arith in
    let q = bit_length_go-le w w 64 p in
    (omega arith, omega arith, λ two. even_bound v (bit_length_go w w) two (low (omega arith)))
  where
    even_bound : (v b : ℕ) → 2 ≤ b → 2 ^ b ≤ 2 * or_one v → 2 ^ b ≤ 2 * v
    even_bound v zero two l = absurd (omega arith)
    even_bound v (suc zero) two l = absurd (omega arith)
    even_bound v (suc (suc b)) two l =
        let s = pow-suc 2 (suc b) in let s' = pow-suc 2 b in omega (arith, s, s')

-- The estimate is at most one too small.
below_power : (v t : ℕ) → v < powers_of_ten t → (0 < t) × (v < 10 ^ t)
unfolding powers_of_ten
below_power v zero h = absurd (omega arith)
below_power v (suc t) h = (omega arith, h)

above_power : (v t : ℕ) → ¬ (v < powers_of_ten t) → (t ≡ 0) ⊎ (10 ^ t ≤ v)
unfolding powers_of_ten
above_power v zero h = inl refl
above_power v (suc t) h = inr (omega arith)

correction :
    (v b t : ℕ)
    → (v < 2 ^ b) × (2 ≤ b → 2 ^ b ≤ 2 * v)
    → (2 ^ b ≤ 10 ^ suc t) × ((t ≡ 0) ⊎ ((2 ≤ b) × ((t ≡ 1) ⊎ (10 ^ (t - 1) * 2 ≤ 2 ^ b))))
    → HasDigits v (t - (if ltb v (powers_of_ten t) then 1 else 0) + 1 - 1)
correction v b t (up, low) (fits, small) = elim (Bool-cases (ltb v (powers_of_ten t))) [
  | inl e ↦ rw e (fewer t fits small (below_power v t (ground arith)))
  | inr e ↦
      rw (e, (let q : t - 0 + 1 - 1 ≡ t = omega arith in q))
        (record { below = omega arith; above = above_power v t (λ q. ground arith) })
]
  where
    fewer :
        (t : ℕ)
        → 2 ^ b ≤ 10 ^ suc t
        → (t ≡ 0) ⊎ ((2 ≤ b) × ((t ≡ 1) ⊎ (10 ^ (t - 1) * 2 ≤ 2 ^ b)))
        → (0 < t) × (v < 10 ^ t)
        → HasDigits v (t - 1 + 1 - 1)
    fewer zero fits small (pos, lt) = absurd (omega arith)
    fewer (suc zero) fits small (pos, lt) = record { below = lt; above = inl refl }
    fewer (suc (suc t)) fits small (pos, lt) =
        rw (let q : suc (suc t) - 1 + 1 - 1 ≡ suc t = omega arith in q)
          (record { below = lt; above = ground (arith, low) })

-- Below 2 ^ 64 the formula counts the decimal digits exactly.
pub chars_length-HasDigits : (v : ℕ) → v < 2 ^ 64 → HasDigits v (get_chars_length v - 1)
unfolding get_chars_length
chars_length-HasDigits v h =
    let b = bit_length (or_one v) in
    let (small, up, low) = or_one-bit_length v h in
    correction v b (b * 1233 / 4096) (up, low) (estimate_lem b small)

pub chars_length_pos : (v : ℕ) → 0 < get_chars_length v
unfolding get_chars_length
chars_length_pos v = omega arith

pub chars_length_le : (v : ℕ) → v < 2 ^ 64 → get_chars_length v ≤ 20
unfolding get_chars_length
chars_length_le v h = let (small, up, low) = or_one-bit_length v h in omega arith
