-- ===== src/GroupSpecs.antt =====
-- include/llfix/incoming_fix_repeating_group_specs.h: which tags begin a repeating group of a message
-- type, and which belong to it. The nested tables are lists of their entries under packed types.
use llfix.Common.{
  ℕ, Bool, true, false, refl, ap, inl, inr, List, [], arith, if◌then◌else◌, Bool-cases, ◌≡◌, ◌∙◌,
  ◌∷◌, ◌==◌, ◌&&◌, ◌||◌,
}
use llfix.Utilities.MessageType.{pack_message_type}

pub record IncomingFixRepeatingGroupSpecs : Type 0 where
  pub count_tags : List (ℕ × ℕ)
  pub repeating_group_tags : List (ℕ × ℕ × ℕ)

unfoldable pub has_count_tag : List (ℕ × ℕ) → ℕ → ℕ → Bool
has_count_tag [] encoded tag = false
has_count_tag ((e, t) ∷ rest) encoded tag =
    (e == encoded && t == tag) || has_count_tag rest encoded tag

unfoldable pub has_group_tag : List (ℕ × ℕ × ℕ) → ℕ → ℕ → ℕ → Bool
has_group_tag [] encoded count_tag tag = false
has_group_tag ((e, c, t) ∷ rest) encoded count_tag tag =
    (e == encoded && (c == count_tag && t == tag)) || has_group_tag rest encoded count_tag tag

unfoldable pub is_a_repeating_group_count_tag : IncomingFixRepeatingGroupSpecs → ℕ → ℕ → Bool
is_a_repeating_group_count_tag s encoded tag = has_count_tag s.count_tags encoded tag

unfoldable pub is_a_repeating_group_tag : IncomingFixRepeatingGroupSpecs → ℕ → ℕ → ℕ → Bool
is_a_repeating_group_tag s encoded count_tag tag =
    has_group_tag s.repeating_group_tags encoded count_tag tag

unfoldable pub add_count_tag :
    IncomingFixRepeatingGroupSpecs → List ℕ → ℕ → IncomingFixRepeatingGroupSpecs
add_count_tag s message_type tag =
    let encoded = pack_message_type message_type in
    if has_count_tag s.count_tags encoded tag
    then s
    else record s { count_tags = (encoded, tag) ∷ s.count_tags }

unfoldable pub add_repeating_group_tag :
    IncomingFixRepeatingGroupSpecs → List ℕ → ℕ → ℕ → IncomingFixRepeatingGroupSpecs
add_repeating_group_tag s message_type count_tag tag =
    let encoded = pack_message_type message_type in
    if has_group_tag s.repeating_group_tags encoded count_tag tag
    then s
    else record s { repeating_group_tags = (encoded, count_tag, tag) ∷ s.repeating_group_tags }

-- The tags behind the count tag are added in their order.
unfoldable pub add_repeating_group_tags :
    IncomingFixRepeatingGroupSpecs → List ℕ → ℕ → List ℕ → IncomingFixRepeatingGroupSpecs
add_repeating_group_tags s message_type count_tag [] = s
add_repeating_group_tags s message_type count_tag (tag ∷ tags) =
    add_repeating_group_tags (add_repeating_group_tag s message_type count_tag tag) message_type
      count_tag tags

unfoldable pub specify_repeating_group :
    IncomingFixRepeatingGroupSpecs → List ℕ → ℕ → List ℕ → IncomingFixRepeatingGroupSpecs
specify_repeating_group s message_type count_tag rest =
    add_repeating_group_tags (add_count_tag s message_type count_tag) message_type count_tag rest

abbrev pub mem : List ℕ → ℕ → Bool
mem [] tag = false
mem (t ∷ tags) tag = t == tag || mem tags tag

has_group_tag_same :
    (tags : List (ℕ × ℕ × ℕ)) (e c t encoded count_tag tag : ℕ)
    → has_group_tag tags e c t ≡ true
    → (e == encoded && (c == count_tag && t == tag)) ≡ true
    → has_group_tag tags encoded count_tag tag ≡ true
unfolding has_group_tag
has_group_tag_same [] e c t encoded count_tag tag h q = cc
has_group_tag_same ((e', c', t') ∷ tags) e c t encoded count_tag tag h q =
    ground (arith, has_group_tag_same tags e c t encoded count_tag tag)

add_repeating_group_tag_lem :
    (s : IncomingFixRepeatingGroupSpecs) (mt : List ℕ) (c t encoded count_tag tag : ℕ)
    → let u = add_repeating_group_tag s mt c t in
      (is_a_repeating_group_tag u encoded count_tag tag ≡ (
        (pack_message_type mt == encoded && (c == count_tag && t == tag))
        || is_a_repeating_group_tag s encoded count_tag tag))
      × (u.count_tags ≡ s.count_tags)
unfolding is_a_repeating_group_tag add_repeating_group_tag has_group_tag
add_repeating_group_tag_lem s mt c t encoded count_tag tag =
    let e = pack_message_type mt in
    let same = has_group_tag_same s.repeating_group_tags e c t encoded count_tag tag in
    elim (Bool-cases (has_group_tag s.repeating_group_tags e c t)) [
      | inl h ↦ rw h (
        elim (Bool-cases (e == encoded && (c == count_tag && t == tag))) [
          | inl q ↦ rw (q, same h q) refl
          | inr q ↦ rw q refl
        ],
        refl,
      )
      | inr h ↦ rw h (refl, refl)
    ]

has_count_tag_same :
    (tags : List (ℕ × ℕ)) (e t encoded tag : ℕ)
    → has_count_tag tags e t ≡ true
    → (e == encoded && t == tag) ≡ true
    → has_count_tag tags encoded tag ≡ true
unfolding has_count_tag
has_count_tag_same [] e t encoded tag h q = cc
has_count_tag_same ((e', t') ∷ tags) e t encoded tag h q =
    ground (arith, has_count_tag_same tags e t encoded tag)

add_count_tag_lem :
    (s : IncomingFixRepeatingGroupSpecs) (mt : List ℕ) (t encoded tag : ℕ)
    → let u = add_count_tag s mt t in
      (is_a_repeating_group_count_tag u encoded tag ≡ (
        (pack_message_type mt == encoded && t == tag)
        || is_a_repeating_group_count_tag s encoded tag))
      × (u.repeating_group_tags ≡ s.repeating_group_tags)
unfolding is_a_repeating_group_count_tag add_count_tag has_count_tag
add_count_tag_lem s mt t encoded tag =
    let e = pack_message_type mt in
    let same = has_count_tag_same s.count_tags e t encoded tag in
    elim (Bool-cases (has_count_tag s.count_tags e t)) [
      | inl h ↦ rw h (
        elim (Bool-cases (e == encoded && t == tag)) [
          | inl q ↦ rw (q, same h q) refl
          | inr q ↦ rw q refl
        ],
        refl,
      )
      | inr h ↦ rw h (refl, refl)
    ]

rest_lem :
    (rest : List ℕ) (s : IncomingFixRepeatingGroupSpecs) (mt : List ℕ) (c encoded count_tag tag : ℕ)
    → let u = add_repeating_group_tags s mt c rest in
      (is_a_repeating_group_tag u encoded count_tag tag ≡ (
        (pack_message_type mt == encoded && (c == count_tag && mem rest tag))
        || is_a_repeating_group_tag s encoded count_tag tag))
      × (u.count_tags ≡ s.count_tags)
unfolding add_repeating_group_tags
rest_lem [] s mt c encoded count_tag tag = (ground arith, refl)
rest_lem (t ∷ rest) s mt c encoded count_tag tag =
    let (a, b) = add_repeating_group_tag_lem s mt c t encoded count_tag tag in
    let (ih, k) = rest_lem rest (add_repeating_group_tag s mt c t) mt c encoded count_tag tag in
    (ground arith, k ∙ b)

-- After a group was specified, the tests hold for what they held for before and, with the type's packed
-- form, for the group: its count tag begins it, and exactly the tags that were listed belong to it.
pub specify_repeating_group_lem :
    (s : IncomingFixRepeatingGroupSpecs) (mt : List ℕ) (c : ℕ) (rest : List ℕ)
    (encoded count_tag tag : ℕ)
    → let u = specify_repeating_group s mt c rest in
      (is_a_repeating_group_tag u encoded count_tag tag ≡ (
        (pack_message_type mt == encoded && (c == count_tag && mem rest tag))
        || is_a_repeating_group_tag s encoded count_tag tag))
      × (is_a_repeating_group_count_tag u encoded tag ≡ (
          (pack_message_type mt == encoded && c == tag)
          || is_a_repeating_group_count_tag s encoded tag))
unfolding specify_repeating_group is_a_repeating_group_tag is_a_repeating_group_count_tag
specify_repeating_group_lem s mt c rest encoded count_tag tag =
    let (a, b) = add_count_tag_lem s mt c encoded tag in
    let (r, k) = rest_lem rest (add_count_tag s mt c) mt c encoded count_tag tag in
    (
      r
          ∙ (ap
              (λ tags.
                (pack_message_type mt == encoded && (c == count_tag && mem rest tag))
                || has_group_tag tags encoded count_tag tag)
              b),
      ap (λ tags. has_count_tag tags encoded tag) k ∙ a,
    )
