-- ===== src/Session/Builders.antt =====
-- The admin message builders of include/llfix/fix_session.h.
use llfix.Outgoing.{OutgoingFixMessage, set_msg_type, set_body_tag, unsigned_text}
use llfix.Common.{
  ℕ, Bool, not, Option, none, some, List, [], if◌then◌else◌, ◌+◌, ◌%◌, ◌^◌, ◌∷◌, ◌==◌,
}
use llfix.Message.{IncomingFixMessage, has_tag, get_tag_value, get_tag_value_as_uint32}
use llfix.Session.Record.{FixSession, outgoing_seq_no}
use llfix.Session.SequenceStore.{set_outgoing_seq_no}
use llfix.Utilities.MessageType.{
  msg_type_heartbeat, msg_type_test_request, msg_type_resend_request, msg_type_logout,
  msg_type_reject, msg_type_sequence_reset,
}
use llfix.StringView.{fix_boolean_true}
use llfix.Constants.{
  tag_test_req_id, tag_begin_seq_no, tag_text, tag_msg_seq_num, tag_new_seq_no, tag_end_seq_no,
  tag_ref_seq_num, tag_gap_fill_flag, tag_ref_tag, tag_msg_type, tag_ref_msg_type,
  tag_session_reject_reason,
}

abbrev typed : OutgoingFixMessage → ℕ → OutgoingFixMessage
typed m c = set_msg_type m (c ∷ [])

unfoldable pub build_heartbeat_message : OutgoingFixMessage → Option (List ℕ) → OutgoingFixMessage
build_heartbeat_message m none = typed m msg_type_heartbeat
build_heartbeat_message m (some test_request_id) =
    set_body_tag (typed m msg_type_heartbeat) tag_test_req_id test_request_id

unfoldable pub build_test_request_message :
    FixSession → OutgoingFixMessage → FixSession × OutgoingFixMessage
build_test_request_message s m =
    let id = (s.outgoing_test_request_id + 1) % 2 ^ 32 in
    (
      record s { outgoing_test_request_id = id },
      set_body_tag (typed m msg_type_test_request) tag_test_req_id (unsigned_text id),
    )

unfoldable pub build_resend_request_message :
    FixSession → OutgoingFixMessage → List ℕ → OutgoingFixMessage
build_resend_request_message s m end_no =
    set_body_tag
      (set_body_tag (typed m msg_type_resend_request) tag_begin_seq_no
        (unsigned_text s.outgoing_resend_request_begin_no))
      tag_end_seq_no end_no

unfoldable pub build_logout_message : OutgoingFixMessage → List ℕ → OutgoingFixMessage
build_logout_message m [] = typed m msg_type_logout
build_logout_message m (c ∷ cs) = set_body_tag (typed m msg_type_logout) tag_text (c ∷ cs)

abbrev pub set_if : Bool → OutgoingFixMessage → ℕ → List ℕ → OutgoingFixMessage
set_if b m tag value = if b then set_body_tag m tag value else m

unfoldable pub build_session_level_reject_message :
    IncomingFixMessage → OutgoingFixMessage → ℕ → List ℕ → ℕ → OutgoingFixMessage
build_session_level_reject_message incoming m reject_reason_code reject_reason_text error_tag =
    let m₁ =
      set_if (has_tag incoming tag_msg_seq_num) (typed m msg_type_reject) tag_ref_seq_num
        (unsigned_text (get_tag_value_as_uint32 incoming tag_msg_seq_num)) in
    let m₂ = set_if (not (error_tag == 0)) m₁ tag_ref_tag (unsigned_text error_tag) in
    let m₃ =
      set_if (has_tag incoming tag_msg_type) m₂ tag_ref_msg_type
        (get_tag_value incoming tag_msg_type) in
    set_body_tag (set_body_tag m₃ tag_session_reject_reason (unsigned_text reject_reason_code))
      tag_text reject_reason_text

unfoldable pub build_gap_fill_message : FixSession → OutgoingFixMessage → OutgoingFixMessage
build_gap_fill_message s m =
    set_body_tag
      (set_body_tag (typed m msg_type_sequence_reset) tag_new_seq_no
        (unsigned_text ((outgoing_seq_no s + 1) % 2 ^ 32)))
      tag_gap_fill_flag (fix_boolean_true ∷ [])

unfoldable pub build_sequence_reset_message :
    FixSession → OutgoingFixMessage → ℕ → FixSession × OutgoingFixMessage
build_sequence_reset_message s m desired_sequence_no = (
  record s { sequence_store = set_outgoing_seq_no s.sequence_store desired_sequence_no },
  set_body_tag (typed m msg_type_sequence_reset) tag_new_seq_no
      (unsigned_text ((desired_sequence_no + 1) % 2 ^ 32)),
)
