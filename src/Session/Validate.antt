-- ===== src/Session/Validate.antt =====
-- The checks that include/llfix/fix_session.h makes on a message, those of the parser included, and
-- is_utc_timestamp_stale of include/llfix/fix_utilities.h.
use llfix.Common.{
  ℕ, Bool, true, false, not, Option, none, some, List, [], ltb, if◌then◌else◌, length, take, ◌+◌,
  ◌-◌, ◌*◌, ◌∷◌, ◌==◌, ◌&&◌, ◌||◌,
}
use llfix.Message.{
  IncomingFixMessage, has_tag, get_tag_value, get_tag_value_as_uint32, is_tag_value_numeric,
}
use llfix.Session.Record.{FixSession}
use llfix.StringView.{equals, is_timestamp, is_digit, at, to_int}
use llfix.Utilities.Checksum.{validate_checksum_no_simd, validate_checksum_simd_avx2}
use llfix.Constants.{
  no_code, tag_begin_string, fix_error_code_invalid_tag_number, no_tag_35, tag_checksum,
  tag_sending_time, tag_msg_seq_num, out_of_order_header_fields, tag_body_length,
  fix_error_code_format_incorrect_for_tag, tag_sender_comp_id, fix_error_code_other, tag_msg_type,
  wrong_body_length, fix_error_code_sending_time_accuracy_problem, fix_error_code_compid_problem,
  invalid_tag_9, tag_target_comp_id, no_tag_9,
}

-- `timegm`, a function of the C library: the time that year, month, day, hour, minute and second name,
-- or none where it returns -1. Times are counted in seconds from one fixed point that is early enough
-- for every date of the form.
abbrev pub Timegm : Type 0
Timegm = ℕ → ℕ → ℕ → ℕ → ℕ → ℕ → Option ℕ

abbrev pub to_int_4 : List ℕ → ℕ
to_int_4 s = (at s 0 - b'0') * 1000 + (at s 1 - b'0') * 100 + (at s 2 - b'0') * 10 + (at s 3 - b'0')

abbrev pub older_than : Option ℕ → ℕ → ℕ → Bool
older_than none now max_age = true
older_than (some msg_time) now max_age = ltb (msg_time + max_age) now

-- The caller has checked that the value is a timestamp.
unfoldable pub is_utc_timestamp_stale : Timegm → ℕ → List ℕ → ℕ → Bool
is_utc_timestamp_stale timegm now value max_allowed_age_seconds =
    older_than
      (timegm (to_int_4 value) (to_int value 4) (to_int value 6) (to_int value 9) (to_int value 12)
        (to_int value 15))
      now max_allowed_age_seconds

unfoldable pub validate_header_tags_order : ℕ → ℕ → ℕ → ℕ
validate_header_tags_order tag tag_index parser_reject_code =
    if tag_index == 1 && not (tag == tag_begin_string)
    then out_of_order_header_fields
    else if tag_index == 2 && not (tag == tag_body_length)
    then out_of_order_header_fields
    else if tag_index == 3 && not (tag == tag_msg_type)
    then out_of_order_header_fields
    else parser_reject_code

-- `is_numeric` of the source: at most ten digits, and at least one.
unfoldable pub digits_only : List ℕ → Bool
digits_only [] = true
digits_only (c ∷ cs) = is_digit c && digits_only cs

unfoldable pub is_tag_format_ok : List ℕ → Bool
is_tag_format_ok buffer =
    if length buffer == 0 || ltb 10 (length buffer) then false else digits_only buffer

unfoldable pub validate_tag_format : List ℕ → ℕ → Bool × ℕ
validate_tag_format buffer parser_reject_code =
    if is_tag_format_ok buffer
    then (true, parser_reject_code)
    else (false, fix_error_code_invalid_tag_number)

-- A position that was not found, -1 in the source, is none. A value from 2 ^ 31 on is a negative `int`
-- and so differs from every distance, which lies below 2 ^ 31.
unfoldable pub validate_tag9_and_tag35 : IncomingFixMessage → ℕ → Option ℕ → ℕ → ℕ
validate_tag9_and_tag35 m tag_10_start_index none parser_reject_code = no_tag_35
validate_tag9_and_tag35 m tag_10_start_index (some tag_35_tag_start_index) parser_reject_code =
    if has_tag m tag_body_length
    then (if is_tag_value_numeric m tag_body_length
        then (if get_tag_value_as_uint32 m tag_body_length
              == tag_10_start_index - tag_35_tag_start_index
            then parser_reject_code
            else wrong_body_length)
        else invalid_tag_9)
    else no_tag_9

-- The outcome of `validate_fix_message`: true, or false with the tag that goes into `m_last_error_tag`
-- and the code that is to be sent in a reject message, if any.
pub data Verdict : Type 0 where
  accepted : Verdict
  refused : ℕ → Option ℕ → Verdict

abbrev pub require : Bool → ℕ → Option ℕ → Verdict → Verdict
require true error_tag code rest = rest
require false error_tag code rest = refused error_tag code

-- The checksum covers all but the last seven bytes, "10=", three digits and the delimiter.
unfoldable pub checksum_ok : FixSession → IncomingFixMessage → List ℕ → Bool
checksum_ok s m buffer_message =
    let bytes = take (length buffer_message - 7) buffer_message in
    let actual_checksum = get_tag_value_as_uint32 m tag_checksum in
    if s.settings.enable_simd_avx2
    then validate_checksum_simd_avx2 bytes actual_checksum
    else validate_checksum_no_simd bytes actual_checksum

module _ (timegm : Timegm) (now : ℕ) where
  abbrev pub staleness : FixSession → IncomingFixMessage → Verdict
  staleness s m =
      let sending_time = get_tag_value m tag_sending_time in
      if ltb 0 s.settings.max_allowed_message_age_seconds
      then require (is_timestamp sending_time) tag_sending_time
          (some fix_error_code_format_incorrect_for_tag)
          (require
            (not (
              is_utc_timestamp_stale timegm now sending_time
                s.settings.max_allowed_message_age_seconds))
            0 (some fix_error_code_sending_time_accuracy_problem) accepted)
      else accepted

  -- The checks behind those of the parser, in their order.
  unfoldable pub validate_fields : FixSession → IncomingFixMessage → List ℕ → Verdict
  validate_fields s m buffer_message = require (has_tag m tag_begin_string) 0 none (
      require (equals (get_tag_value m tag_begin_string) s.settings.begin_string) 0 none (
        require (has_tag m tag_sender_comp_id) 0 none (
          require (equals (get_tag_value m tag_sender_comp_id) s.settings.target_comp_id) 0
            (some fix_error_code_compid_problem)
            (require (has_tag m tag_target_comp_id) 0 none (
              require (equals (get_tag_value m tag_target_comp_id) s.settings.sender_comp_id) 0
                (some fix_error_code_compid_problem)
                (require (is_tag_value_numeric m tag_checksum) 0 none (
                  require (checksum_ok s m buffer_message) 0 none
                    (require (has_tag m tag_sending_time) 0 none (staleness s m)))))))))

  unfoldable pub validate_fix_message : FixSession → IncomingFixMessage → List ℕ → ℕ → Verdict
  validate_fix_message s m buffer_message reject_reason_code =
      require (has_tag m tag_msg_seq_num) 0 none (
        require (is_tag_value_numeric m tag_msg_seq_num) 0 none (
          if not (reject_reason_code == no_code)
          then (if ltb fix_error_code_other reject_reason_code
              then refused 0 none
              else refused 0 (some reject_reason_code))
          else validate_fields s m buffer_message))
