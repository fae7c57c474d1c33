-- ===== src/StringView/Numbers.antt =====
-- What the tests of include/llfix/fix_string_view.h on numbers accept, and how
-- chars_to_unsigned_int of include/llfix/core/utilities/converters.h reads it.
use llfix.Converters.Unsigned.{IsDigit, value, parse_digits-value, chars_to_unsigned_int-value}
use llfix.Common.{
  ℕ, List, ◌≡◌, true, ◌⊎◌, All, ◌≢◌, ◌↔◌, [], ◌∷◌, arith, ◌^◌, ◌%◌, ◌-◌, inl, refl, false, inr, ◌∙◌,
  ap, Bool-cases,
}
use llfix.StringView.{is_numeric, all_digits, is_sign}
use llfix.Converters.{parse_digits, chars_to_unsigned_int, w32}

all_digits_iff : (s : List ℕ) → (all_digits s ≡ true) ↔ All IsDigit s
unfolding all_digits
all_digits_iff [] = (λ h. tt, λ h. refl)
all_digits_iff (c ∷ s) = (
  λ h. (ground arith, (all_digits_iff s).0 (ground arith)),
  λ h. ground (arith, (all_digits_iff s).1 h.1),
)

numeric_forms :
    (ds : List ℕ)
    → ds ≢ []
    → All IsDigit ds
    → (is_numeric ds ≡ true) × (is_numeric (b'+' ∷ ds) ≡ true) × (is_numeric (b'-' ∷ ds) ≡ true)
unfolding is_numeric
numeric_forms [] n h = absurd (n refl)
numeric_forms (d ∷ ds) n h =
    ground (arith, (all_digits_iff ds).1 h.1, (all_digits_iff (d ∷ ds)).1 h)

cons_ne_nil : (c : ℕ) (cs : List ℕ) → c ∷ cs ≢ []
cons_ne_nil c cs e = cc

signed_tail :
    (c : ℕ) (cs : List ℕ)
    → is_numeric (c ∷ cs) ≡ true
    → is_sign c ≡ true
    → (cs ≢ []) × All IsDigit cs × ((c ≡ b'+') ⊎ (c ≡ b'-'))
unfolding is_numeric
signed_tail c [] h s = absurd (ground arith)
signed_tail c (d ∷ ds) h s =
    (cons_ne_nil d ds, (all_digits_iff (d ∷ ds)).0 (ground arith), ground arith)

unsigned-All :
    (c : ℕ) (cs : List ℕ) → is_numeric (c ∷ cs) ≡ true → is_sign c ≡ false → All IsDigit (c ∷ cs)
unfolding is_numeric
unsigned-All c cs h s = (all_digits_iff (c ∷ cs)).0 (ground arith)

empty_not_numeric : is_numeric [] ≡ true → ⊥
unfolding is_numeric
empty_not_numeric h = cc

-- A value is numeric exactly when it is a non-empty run of digits, behind one sign or none.
pub is_numeric_iff :
    (s : List ℕ)
    → (is_numeric s ≡ true) ↔ (
        (ds : List ℕ) × (ds ≢ []) × All IsDigit ds × ((s ≡ ds) ⊎ (s ≡ b'+' ∷ ds) ⊎ (s ≡ b'-' ∷ ds)))
is_numeric_iff s = (forth s, back s)
  where
    signed :
        (c : ℕ) (cs : List ℕ)
        → (c ≡ b'+') ⊎ (c ≡ b'-')
        → (c ∷ cs ≡ cs) ⊎ (c ∷ cs ≡ b'+' ∷ cs) ⊎ (c ∷ cs ≡ b'-' ∷ cs)
    signed c cs (inl e) = inr (inl (ap (λ z. z ∷ cs) e))
    signed c cs (inr e) = inr (inr (ap (λ z. z ∷ cs) e))

    forth :
        (s : List ℕ)
        → is_numeric s ≡ true
        → (ds : List ℕ) × (ds ≢ [])
          × All IsDigit ds
          × ((s ≡ ds) ⊎ (s ≡ b'+' ∷ ds) ⊎ (s ≡ b'-' ∷ ds))
    forth [] h = absurd (empty_not_numeric h)
    forth (c ∷ cs) h = elim (Bool-cases (is_sign c)) [
      | inl e ↦ let (n, a, sg) = signed_tail c cs h e in (cs, n, a, signed c cs sg)
      | inr e ↦ (c ∷ cs, cons_ne_nil c cs, unsigned-All c cs h e, inl refl)
    ]

    back :
        (s : List ℕ)
        → ((ds : List ℕ) × (ds ≢ [])
            × All IsDigit ds
            × ((s ≡ ds) ⊎ (s ≡ b'+' ∷ ds) ⊎ (s ≡ b'-' ∷ ds)))
        → is_numeric s ≡ true
    back s (ds, n, a, inl e) = rw e (numeric_forms ds n a).0
    back s (ds, n, a, inr (inl e)) = rw e (numeric_forms ds n a).1
    back s (ds, n, a, inr (inr e)) = rw e (numeric_forms ds n a).2

parse_minus :
    (ds : List ℕ) → chars_to_unsigned_int w32 (b'-' ∷ ds) ≡ parse_digits w32 ds (2 ^ 32 - 3)
unfolding chars_to_unsigned_int
parse_minus ds = refl

-- A run of digits passes the numeric test bare and behind either sign. Bare or behind a plus sign it is
-- read as an unsigned number of 32 bits with its own value; behind a minus sign the sign itself is read
-- as a leading digit of value 2 ^ 32 - 3.
pub numeric-unsigned :
    (ds : List ℕ)
    → ds ≢ []
    → All IsDigit ds
    → (is_numeric ds ≡ true)
      × (is_numeric (b'+' ∷ ds) ≡ true)
      × (is_numeric (b'-' ∷ ds) ≡ true)
      × (chars_to_unsigned_int w32 ds ≡ value 0 ds % 2 ^ 32)
      × (chars_to_unsigned_int w32 (b'+' ∷ ds) ≡ value 0 ds % 2 ^ 32)
      × (chars_to_unsigned_int w32 (b'-' ∷ ds) ≡ value (2 ^ 32 - 3) ds % 2 ^ 32)
numeric-unsigned ds n h =
    let (bare, plus, minus) = numeric_forms ds n h in
    let (v, v') = chars_to_unsigned_int-value w32 ds h in
    (bare, plus, minus, v, v', parse_minus ds ∙ parse_digits-value w32 ds (2 ^ 32 - 3) h)
