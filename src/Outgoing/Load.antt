-- ===== src/Outgoing/Load.antt =====
-- load_from_buffer of include/llfix/outgoing_fix_message.h: a message that was sent before, taken up
-- again for a resend.
use llfix.Common.{
  ℕ, Bool, true, false, List, [], if◌then◌else◌, ◌+◌, ◌%◌, ◌^◌, ◌++◌, ◌∷◌, ◌==◌, ◌||◌,
}
use llfix.Converters.{chars_to_unsigned_int, w32}
use llfix.Outgoing.{
  OutgoingFixMessage, set_msg_type, set_body_tag, set_header_tag, is_static_header_tag,
  unsigned_text,
}
use llfix.Utilities.Framing.{fix_delimiter, fix_equals}
use llfix.Utilities.MessageType.{
  is_a_non_retransmittable_admin_message_type, msg_type_sequence_reset,
}
use llfix.Constants.{
  tag_begin_string, tag_body_length, tag_msg_type, tag_sender_comp_id, tag_sending_time,
  tag_target_comp_id, tag_orig_sending_time, tag_checksum, tag_msg_seq_num, tag_new_seq_no,
}

-- The message and `is_replacing_a_non_retransmittable_admin_message`.
pub record Loading : Type 0 where
  pub message : OutgoingFixMessage
  pub replacing : Bool

abbrev pub is_skipped : ℕ → Bool
is_skipped tag =
    tag == tag_begin_string
    || (tag == tag_body_length
        || (tag == tag_sender_comp_id || (tag == tag_target_comp_id || tag == tag_checksum)))

-- What is done with one tag. The type of more than one character is taken to end where the text ends.
unfoldable pub load_tag : Loading → ℕ → List ℕ → Loading
load_tag l tag value =
    if is_skipped tag || is_static_header_tag l.message.static_header_tags tag
    then l
    else if tag == tag_msg_type
    then (if is_a_non_retransmittable_admin_message_type value
        then record {
          message = set_msg_type l.message (msg_type_sequence_reset ∷ []);
          replacing = true;
        }
        else record { message = set_msg_type l.message value; replacing = false })
    else if tag == tag_sending_time
    then record l { message = set_header_tag l.message tag_orig_sending_time value }
    else if tag == tag_msg_seq_num
    then (if l.replacing
        then record l {
          message =
              set_body_tag l.message tag_new_seq_no
                (unsigned_text ((chars_to_unsigned_int w32 value + 1) % 2 ^ 32));
        }
        else l)
    else if l.replacing
    then l
    else record l { message = set_body_tag l.message tag value }

-- The loop over the bytes: the tag so far while an equals sign is looked for, then the value so far.
unfoldable pub load_loop : Loading → Bool → List ℕ → List ℕ → List ℕ → Loading
load_loop l looking_for_equals tag value [] = l
load_loop l true tag value (c ∷ cs) =
    if c == fix_equals
    then load_loop l false tag [] cs
    else load_loop l true (tag ++ c ∷ []) value cs
load_loop l false tag value (c ∷ cs) =
    if c == fix_delimiter
    then load_loop (load_tag l (chars_to_unsigned_int w32 tag) value) true [] value cs
    else load_loop l false tag (value ++ c ∷ []) cs

unfoldable pub load_from_buffer : OutgoingFixMessage → List ℕ → OutgoingFixMessage
unfolding load_loop
load_from_buffer m buffer =
    let start : Loading = record { message = m; replacing = false } in
    let l = load_loop start true [] [] buffer in l.message
