-- ===== src/Message/GroupLaws.antt =====
-- The repeating groups of include/llfix/incoming_fix_repeating_groups.h as a sequence of pairs.
use llfix.Constants.{
  fix_error_code_format_incorrect_for_tag, fix_error_code_tag_appears_more_than_once,
  fix_error_code_required_tag_missing,
}
use llfix.StringView.{is_numeric}
use native.Mathlib.Numerals.{add-one}
use llfix.Common.{
  ℕ, zero, suc, Bool, true, not, refl, sym, ap, inl, inr, none, some, List, [], append-nil,
  append_assoc, arith, ltb, if◌then◌else◌, length, get_elem?, set, take, length-append, Bool-cases,
  length-set, ◌+◌, ◌≤◌, ◌<◌, ◌≡◌, ◌∙◌, ◌++◌, ◌∷◌, ◌==◌, ◌&&◌, length-replicate,
}
use llfix.Message.Groups.{
  Groups, initial, TagValue, in_use, set_pair, add_placeholder, set_all, copy_non_dirty_values_from,
  find_value, any_tag, initial_tag_value_pair_capacity, placeholder, get_value, count_loop,
  validate_count_tag, has_tag,
}

-- There is always a placeholder left.
abbrev pub IsRoomy : Groups → Type 0
IsRoomy g = g.pointer < length g.tag_value_pairs

initial-IsRoomy : IsRoomy initial
unfolding initial
initial-IsRoomy = omega (arith, length-replicate initial_tag_value_pair_capacity placeholder)

take-set :
    (n : ℕ) (xs : List TagValue) (v : TagValue)
    → n < length xs
    → take (suc n) (set xs n v) ≡ take n xs ++ v ∷ []
take-set n [] v h = absurd (omega arith)
take-set zero (x ∷ xs) v h = refl
take-set (suc n) (x ∷ xs) v h = rw (take-set n xs v (omega arith)) refl

take-append : (n : ℕ) (xs ys : List TagValue) → n ≤ length xs → take n (xs ++ ys) ≡ take n xs
take-append zero xs ys h = refl
take-append (suc n) [] ys h = absurd (omega arith)
take-append (suc n) (x ∷ xs) ys h = rw (take-append n xs ys (omega arith)) refl

-- Setting a group tag appends it to the sequence, also when the vector has to grow, and leaves room for
-- the next one.
pub in_use-set_pair :
    (g : Groups) (tag : ℕ) (value : List ℕ)
    → IsRoomy g
    → (in_use (set_pair g tag value) ≡ in_use g ++ record { tag = tag; value = value } ∷ [])
      × IsRoomy (set_pair g tag value)
unfolding in_use set_pair add_placeholder
in_use-set_pair g tag value h =
    let v : TagValue = record { tag = tag; value = value } in
    let pairs = g.tag_value_pairs in
    elim (Bool-cases (g.pointer + 1 == length pairs)) [
      | inl full ↦
          rw (full, add-one)
            (
              take-set g.pointer (pairs ++ placeholder ∷ []) v
                    (omega (arith, length-append pairs (placeholder ∷ [])))
                  ∙ ap (λ xs. xs ++ v ∷ [])
                      (take-append g.pointer pairs (placeholder ∷ []) (omega arith)),
              ground (
                arith,
                length-set (pairs ++ placeholder ∷ []) g.pointer v,
                length-append pairs (placeholder ∷ []),
              ),
            )
      | inr room ↦
          rw (room, add-one)
            (take-set g.pointer pairs v h, ground (arith, length-set pairs g.pointer v))
    ]

in_use-set_all :
    (ps : List TagValue) (g : Groups)
    → IsRoomy g
    → (in_use (set_all g ps) ≡ in_use g ++ ps) × IsRoomy (set_all g ps)
unfolding set_all
in_use-set_all [] g h = (sym (append-nil (in_use g)), h)
in_use-set_all (p ∷ ps) g h =
    let (e, r) = in_use-set_pair g p.tag p.value h in
    let (e', r') = in_use-set_all ps (set_pair g p.tag p.value) r in
    (e' ∙ ap (λ xs. xs ++ ps) e ∙ append_assoc (in_use g) (p ∷ []) ps, r')

-- Copying from another message appends that message's pairs in their order.
pub in_use-copy :
    (g other : Groups)
    → IsRoomy g
    → (in_use (copy_non_dirty_values_from g other) ≡ in_use g ++ in_use other)
      × IsRoomy (copy_non_dirty_values_from g other)
unfolding copy_non_dirty_values_from
in_use-copy g other h = in_use-set_all (in_use other) g h

-- The values of the pairs that carry a tag, in order.
abbrev pub values_of : ℕ → List TagValue → List (List ℕ)
values_of tag [] = []
values_of tag (p ∷ ps) = if p.tag == tag then p.value ∷ values_of tag ps else values_of tag ps

find_value-values_of :
    (ps : List TagValue) (tag k current : ℕ)
    → find_value ps tag (current + k) current ≡ get_elem? (values_of tag ps) k
unfolding find_value
find_value-values_of [] tag k current = refl
find_value-values_of (p ∷ ps) tag zero current =
    ground (arith, find_value-values_of ps tag zero current)
find_value-values_of (p ∷ ps) tag (suc k) current =
    let e : current + suc k ≡ current + 1 + k = omega arith in
    ground (
      arith,
      find_value-values_of ps tag (suc k) current,
      ap (λ i. find_value ps tag i (current + 1)) e ∙ find_value-values_of ps tag k (current + 1),
    )

any_tag-values_of :
    (ps : List TagValue) (tag : ℕ) → any_tag ps tag ≡ not (length (values_of tag ps) == 0)
unfolding any_tag
any_tag-values_of [] tag = refl
any_tag-values_of (p ∷ ps) tag = ground (arith, any_tag-values_of ps tag)

-- The two look-ups agree with the list of the values that the tag has in the sequence: it has a value at
-- `index` exactly where that list has one, and the tag is there exactly when the list is not empty.
pub get_value-values_of :
    (g : Groups) (tag index : ℕ)
    → (get_value g tag index ≡ get_elem? (values_of tag (in_use g)) index)
      × (has_tag g tag ≡ not (length (values_of tag (in_use g)) == 0))
unfolding get_value has_tag
get_value-values_of g tag index = (
  ap (λ i. find_value (in_use g) tag i 0) (let e : index ≡ 0 + index = omega arith in e)
      ∙ find_value-values_of (in_use g) tag index 0,
  any_tag-values_of (in_use g) tag,
)

abbrev pub all_numeric : List (List ℕ) → Bool
all_numeric [] = true
all_numeric (v ∷ vs) = is_numeric v && all_numeric vs

count_loop-values_of :
    (ps : List TagValue) (tag n : ℕ)
    → count_loop ps tag n ≡ (
        if not (all_numeric (values_of tag ps))
        then some fix_error_code_format_incorrect_for_tag
        else if n + length (values_of tag ps) == 1
        then none
        else if ltb 1 (n + length (values_of tag ps))
        then some fix_error_code_tag_appears_more_than_once
        else some fix_error_code_required_tag_missing)
unfolding count_loop
count_loop-values_of [] tag n = ground arith
count_loop-values_of (p ∷ ps) tag n =
    let e : n + 1 + length (values_of tag ps) ≡ n + suc (length (values_of tag ps)) = omega arith in
    ground (arith, count_loop-values_of ps tag n, count_loop-values_of ps tag (n + 1), e)

-- The check of a required count tag: wrong format if any of its values is not numeric, otherwise accepted
-- exactly when the tag occurs once, too often when it occurs more than once, and missing when it does not.
pub validate_count_tag_lem :
    (g : Groups) (tag : ℕ)
    → let values = values_of tag (in_use g) in
      validate_count_tag g tag ≡ (
        if not (all_numeric values)
        then some fix_error_code_format_incorrect_for_tag
        else if length values == 1
        then none
        else if ltb 1 (length values)
        then some fix_error_code_tag_appears_more_than_once
        else some fix_error_code_required_tag_missing)
unfolding validate_count_tag
validate_count_tag_lem g tag =
    count_loop-values_of (in_use g) tag 0
    ∙ ap
        (λ n.
          if not (all_numeric (values_of tag (in_use g)))
          then some fix_error_code_format_incorrect_for_tag
          else if n == 1
          then none
          else if ltb 1 n
          then some fix_error_code_tag_appears_more_than_once
          else some fix_error_code_required_tag_missing)
        (let e : 0 + length (values_of tag (in_use g)) ≡ length (values_of tag (in_use g)) =
            omega arith in
          e)
