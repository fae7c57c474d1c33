-- ===== src/Converters/Decimal.antt =====
-- The decimal digits of a number, as a plain recursion: what the conversions are compared with.
use native.Mathlib.Nat.{pow-suc, one-le-pow}
use llfix.Common.{
  ℕ, zero, suc, ◌+◌, ◌/◌, ◌%◌, ◌^◌, ◌≤◌, ◌<◌, ◌≡◌, refl, ◌⊎◌, inl, inr, true, false, List, [], ◌∷◌,
  ◌++◌, arith, ◌==◌, length, length-append,
}

-- `n` has `k + 1` decimal digits.
pub record HasDigits (n k : ℕ) : Type 0 where
  pub below : n < 10 ^ suc k
  pub above : (k ≡ 0) ⊎ (10 ^ k ≤ n)

decimal_go : ℕ → ℕ → List ℕ
decimal_go zero n = (b'0' + n % 10) ∷ []
decimal_go (suc fuel) n = elim (n / 10 == 0) [
  | true ↦ (b'0' + n % 10) ∷ []
  | false ↦ decimal_go fuel (n / 10) ++ (b'0' + n % 10) ∷ []
]

pub decimal : ℕ → List ℕ
unfolding decimal_go
decimal n = decimal_go n n

pub HasDigits-zero : (n : ℕ) → HasDigits n 0 → n / 10 ≡ 0
HasDigits-zero n h = let p : n < 10 = h.below in omega arith

pow_bounds :
    (n k : ℕ) → HasDigits n (suc k) → (10 ^ k ≤ n / 10) × (n / 10 < 10 ^ suc k) × (0 < n / 10)
pow_bounds n k h =
    let two = pow-suc 10 (suc k) in
    let one = pow-suc 10 k in
    let b : n < 10 ^ suc (suc k) = h.below in
    let a : 10 ^ suc k ≤ n = reach k n h.above in
    let p : 0 < 10 ^ k = one-le-pow k 10 (omega arith) in omega (arith, two, one)
  where
    reach : (k n : ℕ) → (suc k ≡ 0) ⊎ (10 ^ suc k ≤ n) → 10 ^ suc k ≤ n
    reach k n (inl e) = absurd (omega arith)
    reach k n (inr a) = a

pub HasDigits-tenth : (n k : ℕ) → HasDigits n (suc k) → HasDigits (n / 10) k × (0 < n / 10)
HasDigits-tenth n k h = let (a, b, c) = pow_bounds n k h in (record { below = b; above = inr a }, c)

decimal_go-fuel : (f g n : ℕ) → n ≤ f → n ≤ g → decimal_go f n ≡ decimal_go g n
unfolding decimal_go
decimal_go-fuel zero zero n p q = refl
decimal_go-fuel zero (suc g) n p q = ground arith
decimal_go-fuel (suc f) zero n p q = ground arith
decimal_go-fuel (suc f) (suc g) n p q =
    ground (arith, decimal_go-fuel f g (n / 10) (omega arith) (omega arith))

-- The last digit comes behind the digits of a tenth.
pub decimal_step : (n : ℕ) → 0 < n / 10 → decimal n ≡ decimal (n / 10) ++ (b'0' + n % 10) ∷ []
unfolding decimal decimal_go
decimal_step zero h = absurd (omega arith)
decimal_step (suc m) h =
    ground (arith, decimal_go-fuel m (suc m / 10) (suc m / 10) (omega arith) (omega arith))

pub decimal_one : (n : ℕ) → n / 10 ≡ 0 → decimal n ≡ (b'0' + n % 10) ∷ []
unfolding decimal decimal_go
decimal_one zero h = refl
decimal_one (suc m) h = ground arith

pub length-decimal : (k n : ℕ) → HasDigits n k → length (decimal n) ≡ suc k
length-decimal zero n h = rw (decimal_one n (HasDigits-zero n h)) refl
length-decimal (suc k) n h =
    let (t, pos) = HasDigits-tenth n k h in
    rw (decimal_step n pos) (
      omega (
        arith,
        length-append (decimal (n / 10)) ((b'0' + n % 10) ∷ []),
        length-decimal k (n / 10) t,
      ))
