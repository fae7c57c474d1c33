-- ===== src/Message/Groups.antt =====
-- include/llfix/incoming_fix_repeating_groups.h: the tags that occur in repeating groups, in their
-- order, in a vector of placeholders with the number of those in use.
use llfix.Common.{
  ℕ, Bool, true, false, not, Option, none, some, List, [], ltb, if◌then◌else◌, length, set, take,
  replicate, ◌+◌, ◌++◌, ◌∷◌, ◌==◌,
}
use llfix.StringView.{is_numeric}
use llfix.Constants.{
  fix_error_code_format_incorrect_for_tag, fix_error_code_tag_appears_more_than_once,
  fix_error_code_required_tag_missing,
}

abbrev pub initial_tag_value_pair_capacity : ℕ
initial_tag_value_pair_capacity = 1024

pub record TagValue : Type 0 where
  pub tag : ℕ
  pub value : List ℕ

pub record Groups : Type 0 where
  pub tag_value_pairs : List TagValue
  pub pointer : ℕ

abbrev pub placeholder : TagValue
placeholder = record { tag = 0; value = [] }

unfoldable pub initial : Groups
initial = record {
  tag_value_pairs = replicate initial_tag_value_pair_capacity placeholder;
  pointer = 0;
}

unfoldable pub add_placeholder : List TagValue → List TagValue
add_placeholder pairs = pairs ++ placeholder ∷ []

unfoldable pub set_pair : Groups → ℕ → List ℕ → Groups
set_pair g tag value =
    let pairs =
      if g.pointer + 1 == length g.tag_value_pairs
      then add_placeholder g.tag_value_pairs
      else g.tag_value_pairs in
    record {
      tag_value_pairs = set pairs g.pointer (record { tag = tag; value = value });
      pointer = g.pointer + 1;
    }

unfoldable pub reset : Groups → Groups
reset g = record g { pointer = 0 }

-- A loop `for (i = 0; i < m_pointer; i++)` over the pairs is a recursion on the pairs in use.
unfoldable pub in_use : Groups → List TagValue
in_use g = take g.pointer g.tag_value_pairs

unfoldable pub find_value : List TagValue → ℕ → ℕ → ℕ → Option (List ℕ)
find_value [] tag index current = none
find_value (p ∷ ps) tag index current =
    let found = find_value ps tag index (current + 1) in
    let passed = find_value ps tag index current in
    if p.tag == tag then (if current == index then some p.value else found) else passed

unfoldable pub get_value : Groups → ℕ → ℕ → Option (List ℕ)
get_value g tag index = find_value (in_use g) tag index 0

unfoldable pub any_tag : List TagValue → ℕ → Bool
any_tag [] tag = false
any_tag (p ∷ ps) tag = if p.tag == tag then true else any_tag ps tag

unfoldable pub has_tag : Groups → ℕ → Bool
has_tag g tag = any_tag (in_use g) tag

-- The code that validate_count_tag reports, or none if it returns true.
unfoldable pub count_loop : List TagValue → ℕ → ℕ → Option ℕ
count_loop [] tag appearance =
    if appearance == 1
    then none
    else if ltb 1 appearance
    then some fix_error_code_tag_appears_more_than_once
    else some fix_error_code_required_tag_missing
count_loop (p ∷ ps) tag appearance =
    let counted = count_loop ps tag (appearance + 1) in
    let passed = count_loop ps tag appearance in
    if p.tag == tag
    then (if not (is_numeric p.value)
        then some fix_error_code_format_incorrect_for_tag
        else counted)
    else passed

unfoldable pub validate_count_tag : Groups → ℕ → Option ℕ
validate_count_tag g tag = count_loop (in_use g) tag 0

-- `copy_non_dirty_values_from`.
unfoldable pub set_all : Groups → List TagValue → Groups
set_all g [] = g
set_all g (p ∷ ps) = set_all (set_pair g p.tag p.value) ps

unfoldable pub copy_non_dirty_values_from : Groups → Groups → Groups
copy_non_dirty_values_from g other = set_all g (in_use other)
