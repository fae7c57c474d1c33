-- ===== src/Parser/Fields.antt =====
-- How the parser of include/llfix/fix_client.h reads one field.
use llfix.Outgoing.Texts.{IsTagByte, IsValueByte}
use llfix.Common.{
  ℕ, suc, Bool, true, false, refl, ap, Option, some, List, [], append-nil, append_assoc, arith,
  length, All, ◌+◌, ◌≡◌, ◌∙◌, ◌++◌, ◌∷◌, ◌==◌,
}
use llfix.GroupSpecs.{IncomingFixRepeatingGroupSpecs}
use llfix.Parser.{Parsing, parse_char, parse_message, end_value}
use llfix.Utilities.Framing.{fix_delimiter, fix_equals}

abbrev pub reading_tag : Parsing → List ℕ → Parsing
reading_tag p tag = record p { looking_for_equals = true; tag = tag }

abbrev pub reading_value : Parsing → List ℕ → List ℕ → Parsing
reading_value p tag value = record p { looking_for_equals = false; tag = tag; value = value }

-- What follows the outcome of one character.
abbrev pub go_on : IncomingFixRepeatingGroupSpecs → Parsing × Bool → ℕ → List ℕ → Parsing × Option ℕ
go_on specs (q, true) index rest = (q, some index)
go_on specs (q, false) index rest = parse_message specs q (index + 1) rest

go_on_lem :
    (specs : IncomingFixRepeatingGroupSpecs) (x : Parsing × Bool) (index : ℕ) (cs : List ℕ)
    → (let (q, ended) = x in
        elim ended as (λ b. Parsing × Option ℕ) [
          | true ↦ (q, some index)
          | false ↦ parse_message specs q (index + 1) cs
        ])
      ≡ go_on specs x index cs
go_on_lem specs (q, true) index cs = refl
go_on_lem specs (q, false) index cs = refl

pub parse_step :
    (specs : IncomingFixRepeatingGroupSpecs) (p : Parsing) (index c : ℕ) (cs : List ℕ)
    → parse_message specs p index (c ∷ cs) ≡ go_on specs (parse_char specs p index c) index cs
unfolding parse_message
parse_step specs p index c cs = go_on_lem specs (parse_char specs p index c) index cs

tag_char :
    (specs : IncomingFixRepeatingGroupSpecs) (p : Parsing) (seen : List ℕ) (index c : ℕ)
    → IsTagByte c
    → parse_char specs (reading_tag p seen) index c ≡ (reading_tag p (seen ++ c ∷ []), false)
unfolding parse_char
tag_char specs p seen index c (e, d) =
    let ne : (c == fix_equals) ≡ false = ground (arith, e) in
    let nd : (c == fix_delimiter) ≡ false = ground (arith, d) in rw (ne, nd) refl

value_char :
    (specs : IncomingFixRepeatingGroupSpecs) (p : Parsing) (tag seen : List ℕ) (index c : ℕ)
    → IsValueByte c
    → parse_char specs (reading_value p tag seen) index c
      ≡ (reading_value p tag (seen ++ c ∷ []), false)
unfolding parse_char
value_char specs p tag seen index c d =
    let nd : (c == fix_delimiter) ≡ false = ground (arith, d) in rw nd refl

equals_char :
    (specs : IncomingFixRepeatingGroupSpecs) (p : Parsing) (tag : List ℕ) (index : ℕ)
    → parse_char specs (reading_tag p tag) index fix_equals ≡ (reading_value p tag [], false)
unfolding parse_char
equals_char specs p tag index = refl

delimiter_char :
    (specs : IncomingFixRepeatingGroupSpecs) (p : Parsing) (tag value : List ℕ) (index : ℕ)
    → parse_char specs (reading_value p tag value) index fix_delimiter
      ≡ end_value specs (reading_value p tag value) index
unfolding parse_char
delimiter_char specs p tag value index = refl

read_tag :
    (specs : IncomingFixRepeatingGroupSpecs) (p : Parsing) (tag seen rest : List ℕ) (index : ℕ)
    → All IsTagByte tag
    → parse_message specs (reading_tag p seen) index (tag ++ rest)
      ≡ parse_message specs (reading_tag p (seen ++ tag)) (index + length tag) rest
read_tag specs p [] seen rest index ok =
    let n : index + 0 ≡ index = omega arith in rw (append-nil seen, n) refl
read_tag specs p (c ∷ tag) seen rest index (ok, oks) =
    let step = parse_step specs (reading_tag p seen) index c (tag ++ rest) in
    let ih = read_tag specs p tag (seen ++ c ∷ []) rest (index + 1) oks in
    let n : index + 1 + length tag ≡ index + suc (length tag) = omega arith in
    step
    ∙ (ap (λ x. go_on specs x index (tag ++ rest)) (tag_char specs p seen index c ok))
    ∙ ih
    ∙ (ap (λ s. parse_message specs (reading_tag p s) (index + 1 + length tag) rest)
        (append_assoc seen (c ∷ []) tag))
    ∙ (ap (λ k. parse_message specs (reading_tag p (seen ++ c ∷ tag)) k rest) n)

read_value :
    (specs : IncomingFixRepeatingGroupSpecs) (p : Parsing) (tag value seen rest : List ℕ)
    (index : ℕ)
    → All IsValueByte value
    → parse_message specs (reading_value p tag seen) index (value ++ fix_delimiter ∷ rest)
      ≡ go_on specs
          (end_value specs (reading_value p tag (seen ++ value)) (index + length value))
          (index + length value)
          rest
read_value specs p tag [] seen rest index ok =
    let n : index + 0 ≡ index = omega arith in
    let step = parse_step specs (reading_value p tag seen) index fix_delimiter rest in
    rw (append-nil seen, n)
      (step ∙ (ap (λ x. go_on specs x index rest) (delimiter_char specs p tag seen index)))
read_value specs p tag (c ∷ value) seen rest index (ok, oks) =
    let more = value ++ fix_delimiter ∷ rest in
    let step = parse_step specs (reading_value p tag seen) index c more in
    let ih = read_value specs p tag value (seen ++ c ∷ []) rest (index + 1) oks in
    let n : index + 1 + length value ≡ index + suc (length value) = omega arith in
    step
    ∙ (ap (λ x. go_on specs x index more) (value_char specs p tag seen index c ok))
    ∙ ih
    ∙ (ap
        (λ s.
          go_on specs (end_value specs (reading_value p tag s) (index + 1 + length value))
            (index + 1 + length value) rest)
        (append_assoc seen (c ∷ []) value))
    ∙ (ap (λ k. go_on specs (end_value specs (reading_value p tag (seen ++ c ∷ value)) k) k rest) n)

-- A field, a tag without equals sign or delimiter and a value without delimiter, is read as a whole: from
-- where a tag begins, the parser comes to the end of this very value with this very tag, and goes on
-- behind the delimiter unless the message has ended there.
pub parse_message-field :
    (specs : IncomingFixRepeatingGroupSpecs) (p : Parsing) (tag value rest : List ℕ) (index : ℕ)
    → All IsTagByte tag
    → All IsValueByte value
    → let stop = index + length tag + 1 + length value in
      parse_message specs
        (reading_tag p [])
        index
        (tag ++ fix_equals ∷ (value ++ fix_delimiter ∷ rest))
      ≡ go_on specs (end_value specs (reading_value p tag value) stop) stop rest
parse_message-field specs p tag value rest index t v =
    let more = value ++ fix_delimiter ∷ rest in
    let at = index + length tag in
    read_tag specs p tag [] (fix_equals ∷ more) index t
    ∙ (parse_step specs (reading_tag p tag) at fix_equals more)
    ∙ (ap (λ x. go_on specs x at more) (equals_char specs p tag at))
    ∙ (read_value specs p tag value [] rest (at + 1) v)
