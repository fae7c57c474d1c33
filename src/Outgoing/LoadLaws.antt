-- ===== src/Outgoing/LoadLaws.antt =====
-- What load_from_buffer of include/llfix/outgoing_fix_message.h takes up from encoded fields.
use llfix.Constants.{tag_msg_type, tag_msg_seq_num, tag_new_seq_no}
use llfix.Utilities.MessageType.{is_a_non_retransmittable_admin_message_type}
use llfix.Constants.{tag_msg_type, tag_msg_seq_num, tag_new_seq_no}
use llfix.Utilities.MessageType.{is_a_non_retransmittable_admin_message_type}
use llfix.Common.{
  ℕ, true, false, refl, ap, List, [], append-nil, append_assoc, arith, All, ◌≡◌, ◌≢◌, ◌∙◌, ◌++◌,
  ◌∷◌, ◌==◌,
}
use llfix.Outgoing.{OutgoingFixMessage, write_tags, unsigned_text}
use llfix.Outgoing.Load.{Loading, load_tag, load_loop, load_from_buffer}
use llfix.Outgoing.Texts.{
  IsTagByte, IsValueByte, IsField, unsigned_text-tag_bytes, unsigned_text_lem,
}
use llfix.Converters.{chars_to_unsigned_int, w32}
use llfix.Utilities.Framing.{fix_delimiter, fix_equals}

load_tag_text :
    (l : Loading) (tag seen value rest : List ℕ)
    → All IsTagByte tag
    → load_loop l true seen value (tag ++ fix_equals ∷ rest)
      ≡ load_loop l false (seen ++ tag) [] rest
unfolding load_loop
load_tag_text l [] seen value rest h = rw (append-nil seen) refl
load_tag_text l (c ∷ tag) seen value rest ((e, d), h) =
    let ne : (c == fix_equals) ≡ false = ground (arith, e) in
    let ih = load_tag_text l tag (seen ++ c ∷ []) value rest h in
    rw (load_loop, ne)
      (ih ∙ (ap (λ s. load_loop l false s [] rest) (append_assoc seen (c ∷ []) tag)))

load_value_text :
    (l : Loading) (tag value seen rest : List ℕ)
    → All IsValueByte value
    → load_loop l false tag seen (value ++ fix_delimiter ∷ rest)
      ≡ load_loop
          (load_tag l (chars_to_unsigned_int w32 tag) (seen ++ value))
          true
          []
          (seen ++ value)
          rest
unfolding load_loop
load_value_text l tag [] seen rest h = rw (append-nil seen) refl
load_value_text l tag (c ∷ value) seen rest (d, h) =
    let nd : (c == fix_delimiter) ≡ false = ground (arith, d) in
    let ih = load_value_text l tag value (seen ++ c ∷ []) rest h in
    rw (load_loop, nd)
      (ih
        ∙ (ap (λ s. load_loop (load_tag l (chars_to_unsigned_int w32 tag) s) true [] s rest)
            (append_assoc seen (c ∷ []) value)))

-- The fields one by one.
abbrev pub load_fields : Loading → List (ℕ × List ℕ) → Loading
load_fields l [] = l
load_fields l ((t, v) ∷ fields) = load_fields (load_tag l t v) fields

load_nil : (l : Loading) (value : List ℕ) → load_loop l true [] value [] ≡ l
unfolding load_loop
load_nil l value = refl

load_loop-write_tags :
    (fields : List (ℕ × List ℕ)) (l : Loading) (value : List ℕ)
    → All IsField fields
    → load_loop l true [] value (write_tags fields) ≡ load_fields l fields
unfolding write_tags
load_loop-write_tags [] l value h = load_nil l value
load_loop-write_tags ((t, v) ∷ fields) l value ((small, bytes), h) =
    let text = unsigned_text t in
    let more = v ++ fix_delimiter ∷ write_tags fields in
    let read = load_tag_text l text [] value more (unsigned_text-tag_bytes t small) in
    let val = load_value_text l text v [] (write_tags fields) bytes in
    let n = unsigned_text_lem t small in
    let ih = load_loop-write_tags fields (load_tag l t v) v h in
    ap (load_loop l true [] value) (append_assoc text (fix_equals ∷ v) _)
    ∙ read
    ∙ val
    ∙ (ap (λ k. load_loop (load_tag l k v) true [] v (write_tags fields)) n)
    ∙ ih

-- Loading a buffer of encoded fields treats them one by one and in their order, each with its own tag and
-- its own value, whatever bytes but the delimiter the values have.
pub load_from_buffer-fields :
    (m : OutgoingFixMessage) (fields : List (ℕ × List ℕ))
    → All IsField fields
    → load_from_buffer m (write_tags fields)
      ≡ (load_fields (record { message = m; replacing = false }) fields).message
unfolding load_from_buffer
load_from_buffer-fields m fields h =
    ap (λ l. l.message)
      (load_loop-write_tags fields (record { message = m; replacing = false }) [] h)

-- Fields that an encoded message has behind its type and its number.
abbrev pub IsOther : ℕ × List ℕ → Type 0
IsOther (t, v) = (t ≢ tag_msg_type) × (t ≢ tag_msg_seq_num)
