-- ===== src/Parser/RoundTrip.antt =====
-- The parser of include/llfix/fix_client.h on what include/llfix/outgoing_fix_message.h writes.
use llfix.Parser.Values.{end_value-plain}
use llfix.Parser.Tags.{
  first_value, or_else, or_else-none, or_else_assoc, stored-tag_value, first_value-append,
}
use llfix.Message.Tags.{IsFresh}
use llfix.Message.{tag_value, IncomingFixMessage, IncomingFixMessage}
use llfix.Parser.Fields.{reading_value, reading_tag, go_on, parse_message-field}
use llfix.Outgoing.Texts.{IsValueByte, unsigned_text-tag_bytes}
use llfix.Outgoing.{unsigned_text, write_tags}
use llfix.Constants.{tag_checksum}
use llfix.Outgoing.EncodeLaws.{write_tags-append}
use llfix.Message.Tags.{tag_value-reset}
use llfix.Message.{reset}
use llfix.Utilities.Framing.{fix_delimiter, fix_equals}
use llfix.Parser.{Parsing, end_value, parse_message, start_parsing}
use llfix.GroupSpecs.{IncomingFixRepeatingGroupSpecs, is_a_repeating_group_count_tag}
use llfix.Common.{
  List, [], All, arith, refl, ℕ, ◌<◌, ◌≡◌, true, false, ◌^◌, ◌==◌, if◌then◌else◌, ◌∷◌, length, ◌∙◌,
  Bool, ap, ◌+◌, ◌≢◌, none, some, ◌++◌, length-append, append_assoc, sym, ◌-◌,
}

write_field :
    (t : ℕ) (v : List ℕ) (fields : List (ℕ × List ℕ)) (rest : List ℕ)
    → write_tags ((t, v) ∷ fields) ++ rest
      ≡ unsigned_text t ++ fix_equals ∷ (v ++ fix_delimiter ∷ (write_tags fields ++ rest))
unfolding write_tags
write_field t v fields rest =
    let text = unsigned_text t in
    let tail = fix_delimiter ∷ write_tags fields in
    ap (λ l. l ++ rest) (append_assoc text (fix_equals ∷ v) tail)
    ∙ append_assoc text (fix_equals ∷ (v ++ tail)) rest
    ∙ ap (λ l. text ++ fix_equals ∷ l) (append_assoc v tail rest)

length-write_field :
    (t : ℕ) (v : List ℕ) (fields : List (ℕ × List ℕ))
    → length (write_tags ((t, v) ∷ fields))
      ≡ length (unsigned_text t) + 1 + length v + 1 + length (write_tags fields)
unfolding write_tags
length-write_field t v fields =
    let text = unsigned_text t in
    let tail = fix_delimiter ∷ write_tags fields in
    omega (arith, length-append (text ++ fix_equals ∷ v) tail, length-append text (fix_equals ∷ v))

go_on-ended :
    (specs : IncomingFixRepeatingGroupSpecs) (x : Parsing × Bool) (index : ℕ) (rest : List ℕ)
    → x.1 ≡ true
    → go_on specs x index rest ≡ (x.0, some index)
go_on-ended specs (q, true) index rest e = refl
go_on-ended specs (q, false) index rest e = cc

-- A tag of 32 bits that begins no group of any message type, with a value without delimiter.
abbrev pub IsReadable : IncomingFixRepeatingGroupSpecs → ℕ × List ℕ → Type 0
IsReadable specs (t, v) =
    (t < 2 ^ 32) × All IsValueByte v × ((e : ℕ) → is_a_repeating_group_count_tag specs e t ≡ false)

abbrev pub IsInner : ℕ × List ℕ → Type 0
IsInner (t, v) = t ≢ tag_checksum

nothing_written :
    (specs : IncomingFixRepeatingGroupSpecs) (p : Parsing) (index : ℕ) (rest : List ℕ)
    → parse_message specs (reading_tag p []) index (write_tags [] ++ rest)
      ≡ parse_message specs (reading_tag p []) (index + length (write_tags [])) rest
unfolding write_tags
nothing_written specs p index rest =
    ap (λ k. parse_message specs (reading_tag p []) k rest)
      (let e : index ≡ index + 0 = omega arith in e)

parse_fields :
    (specs : IncomingFixRepeatingGroupSpecs) (fields : List (ℕ × List ℕ)) (p : Parsing) (index : ℕ)
    (rest : List ℕ)
    → All (IsReadable specs) fields
    → All IsInner fields
    → p.in_a_repeating_group ≡ false
    → (q : Parsing) × (parse_message specs (reading_tag p []) index (write_tags fields ++ rest)
        ≡ parse_message specs (reading_tag q []) (index + length (write_tags fields)) rest)
      × (q.in_a_repeating_group ≡ false)
      × ((u : ℕ) → tag_value q.message u ≡ or_else (tag_value p.message u) (first_value fields u))
parse_fields specs [] p index rest ok inner r =
    (p, nothing_written specs p index rest, r, λ u. sym (or_else-none (tag_value p.message u)))
parse_fields specs ((t, v) ∷ fields) p index rest ((small, bytes, plain), ok) (ne, inner) r =
    let text = unsigned_text t in
    let stop = index + length text + 1 + length v in
    let more = write_tags fields ++ rest in
    let x = end_value specs (reading_value p text v) stop in
    let read =
      parse_message-field specs p text v more index (unsigned_text-tag_bytes t small) bytes in
    let (message, group, _, next) = end_value-plain specs p t stop v small r plain in
    let on : (t == tag_checksum) ≡ false = ground (arith, ne) in
    let (q, ih, qr, values) = parse_fields specs fields x.0 (stop + 1) rest ok inner group in
    let n : stop + 1 + length (write_tags fields) ≡ index + length (write_tags ((t, v) ∷ fields)) =
      omega (arith, length-write_field t v fields) in
    (
      q,
      ap (parse_message specs (reading_tag p []) index) (write_field t v fields rest)
          ∙ read
          ∙ ap (λ y. go_on specs y stop more) (next on)
          ∙ ih
          ∙ ap (λ k. parse_message specs (reading_tag q []) k rest) n,
      qr,
      λ u.
          values u
          ∙ ap (λ m. or_else (tag_value m u) (first_value fields u)) message
          ∙ ap (λ o. or_else o (first_value fields u)) (stored-tag_value p t u v)
          ∙ or_else_assoc (tag_value p.message u) (t == u) v (first_value fields u),
    )

start_parsing_lem :
    (m : IncomingFixMessage) (start : ℕ)
    → let p = start_parsing m start in
      (p.message ≡ reset m) × (p.in_a_repeating_group ≡ false) × (p ≡ reading_tag p [])
unfolding start_parsing
start_parsing_lem m start = (refl, refl, refl)

nothing_length : length (write_tags []) ≡ 0
unfolding write_tags
nothing_length = refl

-- The parser reads back what is written as fields, tag 10 last: it ends at the last delimiter of the
-- fields, whatever follows them, and the message then has exactly the tags of the fields, each with its
-- value, the first one of a tag that occurs more than once. No tag may begin a repeating group and no
-- value may have a delimiter.
pub parse_message-write_tags :
    (specs : IncomingFixRepeatingGroupSpecs) (m : IncomingFixMessage) (start : ℕ)
    (fields : List (ℕ × List ℕ)) (sum rest : List ℕ)
    → IsFresh m
    → All (IsReadable specs) fields
    → All IsInner fields
    → IsReadable specs (tag_checksum, sum)
    → let all = fields ++ (tag_checksum, sum) ∷ [] in
      let (q, stop) = parse_message specs (start_parsing m start) start (write_tags all ++ rest) in
      (stop ≡ some (start + length (write_tags all) - 1))
      × ((u : ℕ) → tag_value q.message u ≡ first_value all u)
parse_message-write_tags specs m start fields sum rest fresh ok inner (small, bytes, plain) =
    let p = start_parsing m start in
    let (fresh_message, no_group, reading) = start_parsing_lem m start in
    let all = fields ++ (tag_checksum, sum) ∷ [] in
    let last = (tag_checksum, sum) ∷ [] in
    let written = write_tags-append fields last in
    let split =
      ap (λ l. l ++ rest) written ∙ append_assoc (write_tags fields) (write_tags last) rest in
    let (q, first, group, values) =
      parse_fields specs fields p start (write_tags last ++ rest) ok inner no_group in
    let text = unsigned_text tag_checksum in
    let at = start + length (write_tags fields) in
    let stop = at + length text + 1 + length sum in
    let x = end_value specs (reading_value q text sum) stop in
    let (message, _, ended, _) = end_value-plain specs q tag_checksum stop sum small group plain in
    let read =
      parse_message-field specs q text sum (write_tags [] ++ rest) at
        (unsigned_text-tag_bytes tag_checksum small) bytes in
    let outcome : parse_message specs p start (write_tags all ++ rest) ≡ (x.0, some stop) =
      ap (parse_message specs p start) split
      ∙ ap (λ r. parse_message specs r start (write_tags fields ++ (write_tags last ++ rest)))
          reading
      ∙ first
      ∙ ap (parse_message specs (reading_tag q []) at) (write_field tag_checksum sum [] rest)
      ∙ read
      ∙ go_on-ended specs x stop (write_tags [] ++ rest) ended in
    let empty : (u : ℕ) → tag_value p.message u ≡ none =
      λ u. ap (λ n. tag_value n u) fresh_message ∙ (tag_value-reset m u fresh).0 in
    let n = length-append (write_tags fields) (write_tags last) in
    let k = length-write_field tag_checksum sum [] in
    let total = ap length written in
    let none_left = nothing_length in
    rw outcome (
      ap some (omega (arith, n, k, total, none_left)),
      λ u.
          ap (λ n. tag_value n u) message
          ∙ stored-tag_value q tag_checksum u sum
          ∙ ap (λ o. or_else o (if tag_checksum == u then some sum else none))
              (values u ∙ ap (λ o. or_else o (first_value fields u)) (empty u))
          ∙ sym (first_value-append fields tag_checksum u sum),
    )
