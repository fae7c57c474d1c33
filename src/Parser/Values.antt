-- ===== src/Parser/Values.antt =====
-- What one field outside of a group does, as the parser of include/llfix/fix_client.h reads it.
use llfix.Message.{IncomingFixMessage, has_tag, set_tag, IncomingFixMessage, has_tag, set_tag}
use llfix.Parser.Fields.{reading_value, reading_tag}
use llfix.Outgoing.Texts.{length-unsigned_text, unsigned_text-digits, unsigned_text_lem}
use llfix.StringView.{is_digit}
use llfix.Outgoing.{unsigned_text}
use llfix.Converters.Unsigned.{IsDigit}
use llfix.Constants.{
  tag_checksum, fix_error_code_tag_without_value, fix_error_code_invalid_tag_number,
}
use llfix.Converters.{chars_to_unsigned_int, w32}
use llfix.Parser.{
  track_group, Parsing, store_tag, note_tag, record_tag, end_value, next_tag, is_empty_value,
  with_code,
}
use llfix.GroupSpecs.{IncomingFixRepeatingGroupSpecs, is_a_repeating_group_count_tag}
use llfix.Session.Validate.{
  digits_only, validate_tag_format, is_tag_format_ok, validate_header_tags_order,
}
use llfix.Common.{
  List, [], All, arith, refl, ℕ, ◌<◌, ◌≡◌, true, false, ◌^◌, ◌==◌, if◌then◌else◌, ◌∷◌, length, ltb,
  ◌∙◌, Bool, ap, ◌+◌, ◌%◌,
}

digits_only-digits : (s : List ℕ) → All IsDigit s → digits_only s ≡ true
unfolding digits_only
digits_only-digits [] h = refl
digits_only-digits (c ∷ s) ((a, b), h) =
    let d : is_digit c ≡ true = ground (arith, a, b) in rw d (digits_only-digits s h)

validate_tag_format-text :
    (t code : ℕ) → t < 2 ^ 32 → validate_tag_format (unsigned_text t) code ≡ (true, code)
unfolding validate_tag_format is_tag_format_ok
validate_tag_format-text t code small =
    let (pos, few) = length-unsigned_text t small in
    let e : (length (unsigned_text t) == 0) ≡ false = ground (arith, pos) in
    let l : ltb 10 (length (unsigned_text t)) ≡ false = ground (arith, few) in
    rw (e, l, digits_only-digits (unsigned_text t) (unsigned_text-digits t small)) refl

track_group-plain :
    (specs : IncomingFixRepeatingGroupSpecs) (p : Parsing) (t : ℕ)
    → p.in_a_repeating_group ≡ false
    → ((e : ℕ) → is_a_repeating_group_count_tag specs e t ≡ false)
    → ((track_group specs p t).message ≡ p.message)
      × ((track_group specs p t).in_a_repeating_group ≡ false)
unfolding track_group
track_group-plain specs p t r plain =
    let q = plain p.encoded_message_type in (ground arith, ground arith)

-- What a tag outside of a group leaves.
abbrev pub stored : Parsing → ℕ → List ℕ → IncomingFixMessage
stored p t v = if has_tag p.message t then p.message else set_tag p.message t v

store_tag-plain :
    (p : Parsing) (t : ℕ) (v : List ℕ)
    → p.in_a_repeating_group ≡ false
    → ((store_tag p t v).message ≡ stored p t v) × ((store_tag p t v).in_a_repeating_group ≡ false)
unfolding store_tag
store_tag-plain p t v r = (ground arith, ground arith)

note_tag-plain :
    (p : Parsing) (t : ℕ) (v : List ℕ)
    → ((note_tag p t v).0.message ≡ p.message)
      × ((note_tag p t v).0.in_a_repeating_group ≡ p.in_a_repeating_group)
      × ((note_tag p t v).1 ≡ (t == tag_checksum))
unfolding note_tag
note_tag-plain p t v = (ground arith, ground arith, ground arith)

noted-plain :
    (specs : IncomingFixRepeatingGroupSpecs) (p : Parsing) (t : ℕ) (v : List ℕ)
    → p.in_a_repeating_group ≡ false
    → ((e : ℕ) → is_a_repeating_group_count_tag specs e t ≡ false)
    → let x = note_tag (store_tag (track_group specs p t) t v) t v in
      (x.0.message ≡ stored p t v)
      × (x.0.in_a_repeating_group ≡ false)
      × (x.1 ≡ (t == tag_checksum))
noted-plain specs p t v r plain =
    let g = track_group specs p t in
    let (gm, gr) = track_group-plain specs p t r plain in
    let (sm, sr) = store_tag-plain g t v gr in
    let (nm, nr, ended) = note_tag-plain (store_tag g t v) t v in
    (nm ∙ sm ∙ ap (λ m. if has_tag m t then m else set_tag m t v) gm, nr ∙ sr, ended)

record_tag-plain :
    (specs : IncomingFixRepeatingGroupSpecs) (p : Parsing) (t : ℕ)
    → t < 2 ^ 32
    → p.tag ≡ unsigned_text t
    → p.in_a_repeating_group ≡ false
    → ((e : ℕ) → is_a_repeating_group_count_tag specs e t ≡ false)
    → let x = record_tag specs p in
      (x.0.message ≡ stored p t p.value)
      × (x.0.in_a_repeating_group ≡ false)
      × (x.1 ≡ (t == tag_checksum))
unfolding record_tag
record_tag-plain specs p t small text r plain =
    let e = ap (chars_to_unsigned_int w32) text ∙ unsigned_text_lem t small in
    let index = (p.current_tag_index + 1) % 2 ^ 32 in
    let code = if t == 0 then fix_error_code_invalid_tag_number else p.parser_reject_code in
    let p₁ = record p {
      parser_reject_code = validate_header_tags_order t index code;
      current_tag_index = index;
    } in
    rw e (noted-plain specs p₁ t p.value r plain)

next_tag-plain :
    (x : Parsing × Bool) (index : ℕ)
    → ((next_tag x index).0.message ≡ x.0.message)
      × ((next_tag x index).0.in_a_repeating_group ≡ x.0.in_a_repeating_group)
      × ((next_tag x index).1 ≡ x.1)
      × (x.1 ≡ false → next_tag x index ≡ (reading_tag (next_tag x index).0 [], false))
next_tag-plain (p, true) index = (refl, refl, refl, λ e. cc)
next_tag-plain (p, false) index = (refl, refl, refl, λ e. refl)

pub end_value-plain :
    (specs : IncomingFixRepeatingGroupSpecs) (p : Parsing) (t index : ℕ) (v : List ℕ)
    → t < 2 ^ 32
    → p.in_a_repeating_group ≡ false
    → ((e : ℕ) → is_a_repeating_group_count_tag specs e t ≡ false)
    → let x = end_value specs (reading_value p (unsigned_text t) v) index in
      (x.0.message ≡ stored p t v)
      × (x.0.in_a_repeating_group ≡ false)
      × (x.1 ≡ (t == tag_checksum))
      × ((t == tag_checksum) ≡ false → x ≡ (reading_tag x.0 [], false))
unfolding end_value
end_value-plain specs p t index v small r plain =
    let code₁ =
      if is_empty_value v then fix_error_code_tag_without_value else p.parser_reject_code in
    let p₁ = with_code (reading_value p (unsigned_text t) v) code₁ in
    let (m, g, ended) = record_tag-plain specs p₁ t small refl r plain in
    let (nm, ng, ne, next) = next_tag-plain (record_tag specs p₁) index in
    rw (validate_tag_format-text t code₁ small) (nm ∙ m, ng ∙ g, ne ∙ ended, λ e. next (ended ∙ e))
