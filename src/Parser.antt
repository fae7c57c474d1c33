-- ===== src/Parser.antt =====
-- process_rx_buffer of include/llfix/fix_client.h: the received bytes are cut into messages, which are
-- parsed tag by tag. The bytes of the tag and the value that are being read are collected, where the
-- source keeps where they start and how long they are. Fields with binary data, which are compiled in
-- only on demand, are left out.
pub mod Fields
pub mod Rounds
pub mod Runs
pub mod Values
pub mod Tags
pub mod RoundTrip
pub mod EncodeParse
use llfix.Common.{
  ℕ, zero, suc, Bool, true, false, not, Option, none, some, List, [], ltb, if◌then◌else◌, length,
  take, drop, ◌+◌, ◌-◌, ◌%◌, ◌^◌, ◌++◌, ◌∷◌, ◌==◌,
}
use llfix.Client.{FixClient, Environment}
use llfix.Client.Dispatch.{process_incoming_fix_message}
use llfix.Converters.{chars_to_unsigned_int, w32}
use llfix.GroupSpecs.{
  IncomingFixRepeatingGroupSpecs, is_a_repeating_group_count_tag, is_a_repeating_group_tag,
}
use llfix.Message.{IncomingFixMessage, has_tag, set_tag, set_repeating_group_tag, reset}
use llfix.Session.Validate.{
  validate_tag_format, validate_header_tags_order, validate_tag9_and_tag35,
}
use llfix.Utilities.Framing.{
  fix_delimiter, fix_equals, find_begin_string_position, find_delimiter_from_end,
  find_tag10_start_from_end,
}
use llfix.Utilities.MessageType.{pack_message_type}
use llfix.Session.State.{◌=state◌, disconnected}
use llfix.Constants.{
  no_code, no_equals_sign, fix_error_code_tag_appears_more_than_once, tag_checksum,
  fix_error_code_invalid_tag_number, fix_error_code_tag_without_value, tag_msg_type,
}

-- The local variables of one round of the outer loop. A type that is not known yet is `no_code`.
pub record Parsing : Type 0 where
  pub message : IncomingFixMessage
  pub looking_for_equals : Bool
  pub current_tag_start : ℕ
  pub tag : List ℕ
  pub value : List ℕ
  pub tag_35_tag_start_index : Option ℕ
  pub parser_reject_code : ℕ
  pub current_tag_index : ℕ
  pub encoded_message_type : ℕ
  pub in_a_repeating_group : Bool
  pub rg_count_tag : ℕ

unfoldable pub start_parsing : IncomingFixMessage → ℕ → Parsing
start_parsing m read_index = record {
  message = reset m;
  looking_for_equals = true;
  current_tag_start = read_index;
  tag = [];
  value = [];
  tag_35_tag_start_index = none;
  parser_reject_code = no_code;
  current_tag_index = 0;
  encoded_message_type = no_code;
  in_a_repeating_group = false;
  rg_count_tag = 0;
}

-- Whether a group begins or ends with this tag; the type has to be known.
unfoldable pub track_group : IncomingFixRepeatingGroupSpecs → Parsing → ℕ → Parsing
track_group specs p tag =
    if p.encoded_message_type == no_code
    then p
    else if not p.in_a_repeating_group
    then (if is_a_repeating_group_count_tag specs p.encoded_message_type tag
        then record p { rg_count_tag = tag; in_a_repeating_group = true }
        else p)
    else if is_a_repeating_group_tag specs p.encoded_message_type p.rg_count_tag tag
    then p
    else record p { in_a_repeating_group = false }

unfoldable pub store_tag : Parsing → ℕ → List ℕ → Parsing
store_tag p tag value =
    if p.in_a_repeating_group
    then record p { message = set_repeating_group_tag p.message tag value }
    else if has_tag p.message tag
    then record p { parser_reject_code = fix_error_code_tag_appears_more_than_once }
    else record p { message = set_tag p.message tag value }

-- Tag 10 ends the message, and tag 35 gives its type. The flag says whether the message has ended.
unfoldable pub note_tag : Parsing → ℕ → List ℕ → Parsing × Bool
note_tag p tag value =
    if tag == tag_checksum
    then (
      record p {
        parser_reject_code =
            validate_tag9_and_tag35 p.message p.current_tag_start p.tag_35_tag_start_index
              p.parser_reject_code;
      },
      true,
    )
    else if tag == tag_msg_type
    then (
      record p {
        tag_35_tag_start_index = some p.current_tag_start;
        encoded_message_type = pack_message_type value;
      },
      false,
    )
    else (p, false)

abbrev pub with_code : Parsing → ℕ → Parsing
with_code p code = record p { parser_reject_code = code }

-- One tag and its value, with the tag in the right format.
unfoldable pub record_tag : IncomingFixRepeatingGroupSpecs → Parsing → Parsing × Bool
record_tag specs p =
    let tag = chars_to_unsigned_int w32 p.tag in
    let value = p.value in
    let index = (p.current_tag_index + 1) % 2 ^ 32 in
    let code = if tag == 0 then fix_error_code_invalid_tag_number else p.parser_reject_code in
    let p₁ = record p {
      parser_reject_code = validate_header_tags_order tag index code;
      current_tag_index = index;
    } in
    note_tag (store_tag (track_group specs p₁ tag) tag value) tag value

abbrev pub next_tag : Parsing × Bool → ℕ → Parsing × Bool
next_tag (p, true) index = (p, true)
next_tag (p, false) index = (
  record p { current_tag_start = index + 1; looking_for_equals = true; tag = []; value = [] },
  false,
)

abbrev pub is_empty_value : List ℕ → Bool
is_empty_value v = length v == 0

-- What the delimiter at `index` behind a value does.
unfoldable pub end_value : IncomingFixRepeatingGroupSpecs → Parsing → ℕ → Parsing × Bool
end_value specs p index =
    let code₁ =
      if is_empty_value p.value then fix_error_code_tag_without_value else p.parser_reject_code in
    let (is_numeric, code) = validate_tag_format p.tag code₁ in
    next_tag (if is_numeric then record_tag specs (with_code p code) else (with_code p code, false))
      index

-- One character; the flag says whether the message has ended.
unfoldable pub parse_char : IncomingFixRepeatingGroupSpecs → Parsing → ℕ → ℕ → Parsing × Bool
parse_char specs p index c =
    if p.looking_for_equals
    then (if c == fix_equals
        then (record p { looking_for_equals = false; value = [] }, false)
        else if c == fix_delimiter
        then (
          record p { current_tag_start = index + 1; tag = []; parser_reject_code = no_equals_sign },
          false,
        )
        else (record p { tag = p.tag ++ c ∷ [] }, false))
    else if c == fix_delimiter
    then end_value specs p index
    else (record p { value = p.value ++ c ∷ [] }, false)

-- The inner loop, on the bytes from `index` on: where the message ends, or none if the bytes end first.
unfoldable pub parse_message :
    IncomingFixRepeatingGroupSpecs → Parsing → ℕ → List ℕ → Parsing × Option ℕ
parse_message specs p index [] = (p, none)
parse_message specs p index (c ∷ cs) =
    let (q, ended) = parse_char specs p index c in
    elim ended [ true ↦ (q, some index) | false ↦ parse_message specs q (index + 1) cs ]

-- What is done with the buffer of incomplete bytes.
pub data Rest : Type 0 where
  kept : List ℕ → Rest
  emptied : Rest
  untouched : Rest

abbrev pub minimum_required_initial_buffer_for_parsing : ℕ
minimum_required_initial_buffer_for_parsing = 4

module _ (env : Environment) (specs : IncomingFixRepeatingGroupSpecs) where
  -- The outer loop, one round for each message; as many rounds as there are bytes are enough.
  unfoldable pub process_messages : ℕ → FixClient → List ℕ → ℕ → ℕ → FixClient × Rest
  process_messages zero c buffer read_index final = (c, untouched)
  process_messages (suc fuel) c buffer read_index final =
      elim (find_begin_string_position (drop read_index buffer)) [
        | none ↦ (c, untouched)
        | some offset ↦
            (let start = read_index + offset in
              let (p, ended) =
                parse_message specs (start_parsing c.incoming_fix_message start) start
                  (drop start buffer) in
              let t = record c { incoming_fix_message = p.message } in
              elim ended [
                | none ↦ (t, kept (drop start buffer))
                | some e ↦
                    (let u =
                        process_incoming_fix_message env t p.message
                          (take (e + 1 - start) (drop start buffer)) p.parser_reject_code in
                      if u.session.state =state disconnected
                      then (u, untouched)
                      else if e + 1 == length buffer
                      then (u, emptied)
                      else if ltb final (e + 1)
                      then (u, kept (drop (e + 1) buffer))
                      else process_messages fuel u buffer (e + 1) final)
              ])
      ]

  unfoldable pub process_rx_buffer : FixClient → List ℕ → FixClient × Rest
  unfolding process_messages
  process_rx_buffer c buffer =
      if ltb (length buffer) minimum_required_initial_buffer_for_parsing
      then (c, kept buffer)
      else elim (find_delimiter_from_end buffer) [
        | none ↦ (c, kept buffer)
        | some index ↦ elim (find_tag10_start_from_end buffer index) [
          | none ↦ (c, kept buffer)
          | some final ↦ process_messages (length buffer) c buffer 0 final
        ]
      ]
