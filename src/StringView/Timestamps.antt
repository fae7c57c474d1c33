-- ===== src/StringView/Timestamps.antt =====
-- How the tests of include/llfix/fix_string_view.h on dates, times and timestamps fit together.
use native.Mathlib.Decide.{dec_lt}
use llfix.Common.{
  ℕ, List, Bool, All, drop, ◌≡◌, ◌<◌, take, map, arith, ◌∷◌, length-drop, ◌+◌, get_or-take,
  get_or-drop, ap, drop-drop, [], if◌then◌else◌, not, refl, ◌&&◌, ◌≤◌, length, ◌||◌, ◌==◌, false,
  ltb, ◌∙◌, true, length-take,
}
use llfix.StringView.{
  at, digits_at, subseconds_ok, all_digits, is_timestamp, is_date_only, is_time_only, date_in_range,
  time_in_range, to_int,
}

digits_at-take :
    (n : ℕ) (b is : List ℕ) → All (λ i. i < n) is → digits_at (take n b) is ≡ digits_at b is
unfolding digits_at
digits_at-take n b [] h = refl
digits_at-take n b (i ∷ is) h = rw (get_or-take n i b 0 h.0, digits_at-take n b is h.1) refl

digits_at-drop :
    (n : ℕ) (b is : List ℕ) → digits_at (drop n b) is ≡ digits_at b (map (λ i. n + i) is)
unfolding digits_at
digits_at-drop n b [] = refl
digits_at-drop n b (i ∷ is) = rw (get_or-drop n i b 0, digits_at-drop n b is) refl

subseconds-drop : (b : List ℕ) → subseconds_ok (drop 9 b) 8 ≡ subseconds_ok b 17
unfolding subseconds_ok
subseconds-drop b =
    ground (arith, length-drop 9 b, get_or-drop 9 8 b 0, ap all_digits (drop-drop 9 9 b))

-- The same tests in two orders.
reorder :
    (dash colon colon' date time frac in_time in_date : Bool)
    → (if not dash || not colon || not colon'
        then false
        else if not date
        then false
        else if not time
        then false
        else if not frac
        then false
        else if not in_time
        then false
        else in_date)
      ≡ (if not date then false else in_date)
        && (dash
            && (if not colon || not colon'
                then false
                else if not time
                then false
                else if not frac
                then false
                else in_time))
reorder dash colon colon' date time frac in_time in_date = ground arith

abbrev date_places : List ℕ
date_places = 0 ∷ 1 ∷ 2 ∷ 3 ∷ 4 ∷ 5 ∷ 6 ∷ 7 ∷ []

date_part :
    (b : List ℕ)
    → 17 ≤ length b
    → is_date_only (take 8 b)
      ≡ (if not (digits_at b date_places) then false else date_in_range (to_int b 4) (to_int b 6))
unfolding is_date_only
date_part b h =
    rw
      (
        (let e : length (take 8 b) ≡ 8 = omega (arith, length-take 8 b) in e),
        digits_at-take 8 b date_places (omega arith),
        get_or-take 8 4 b 0 (omega arith),
        get_or-take 8 5 b 0 (omega arith),
        get_or-take 8 6 b 0 (omega arith),
        get_or-take 8 7 b 0 (omega arith),
      )
      refl

time_part :
    (b : List ℕ)
    → 17 ≤ length b
    → is_time_only (drop 9 b) ≡ (
        if not (at b 11 == b':') || not (at b 14 == b':')
        then false
        else if not (digits_at b (9 ∷ 10 ∷ 12 ∷ 13 ∷ 15 ∷ 16 ∷ []))
        then false
        else if not (subseconds_ok b 17)
        then false
        else time_in_range (to_int b 9) (to_int b 12) (to_int b 15))
unfolding is_time_only
time_part b h =
    rw
      (
        (let e : ltb (length (drop 9 b)) 8 ≡ false = ground (arith, length-drop 9 b) in e),
        digits_at-drop 9 b (0 ∷ 1 ∷ 3 ∷ 4 ∷ 6 ∷ 7 ∷ []),
        subseconds-drop b,
        get_or-drop 9 0 b 0,
        get_or-drop 9 1 b 0,
        get_or-drop 9 2 b 0,
        get_or-drop 9 3 b 0,
        get_or-drop 9 4 b 0,
        get_or-drop 9 5 b 0,
        get_or-drop 9 6 b 0,
        get_or-drop 9 7 b 0,
      )
      refl

long_enough :
    (b : List ℕ)
    → 17 ≤ length b
    → is_timestamp b ≡ is_date_only (take 8 b) && (at b 8 == b'-' && is_time_only (drop 9 b))
unfolding is_timestamp
long_enough b h =
    rw (date_part b h, time_part b h, (let e : ltb (length b) 17 ≡ false = ground arith in e))
      (reorder (at b 8 == b'-') (at b 11 == b':') (at b 14 == b':') (digits_at b date_places)
        (digits_at b (9 ∷ 10 ∷ 12 ∷ 13 ∷ 15 ∷ 16 ∷ [])) (subseconds_ok b 17)
        (time_in_range (to_int b 9) (to_int b 12) (to_int b 15))
        (date_in_range (to_int b 4) (to_int b 6)))

too_short :
    (b : List ℕ) → length b < 17 → (is_timestamp b ≡ false) × (is_time_only (drop 9 b) ≡ false)
unfolding is_timestamp is_time_only
too_short b h = (
  rw (let e : ltb (length b) 17 ≡ true = ground arith in e) refl,
  rw (let e : ltb (length (drop 9 b)) 8 ≡ true = ground (arith, length-drop 9 b) in e) refl,
)

-- A timestamp is a date, a dash and a time of day: the three tests accept the same values, so the same
-- ranges of month, day, hour, minute and second hold wherever they occur.
pub is_timestamp_split :
    (b : List ℕ)
    → is_timestamp b ≡ is_date_only (take 8 b) && (at b 8 == b'-' && is_time_only (drop 9 b))
is_timestamp_split b = elim (dec_lt (length b) 17) [
  | yes h ↦
      let (ts, time) = too_short b h in
      ts ∙ (rw time (absorb (is_date_only (take 8 b)) (at b 8 == b'-')))
  | no h ↦ long_enough b (omega arith)
]
  where
    absorb : (x y : Bool) → false ≡ x && (y && false)
    absorb x y = ground arith
