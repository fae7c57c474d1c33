-- ===== src/Session/Settings.antt =====
-- The settings that the session logic reads, of include/llfix/fix_session_settings.h. Texts are lists of
-- characters.
use llfix.Common.{ℕ, Bool, List}
use llfix.Session.ThrottlerAction.{IncomingThrottlerAction}

pub record FixSessionSettings : Type 0 where
  pub heartbeat_interval_in_nanoseconds : ℕ
  pub outgoing_test_request_interval_in_nanoseconds : ℕ
  pub enable_simd_avx2 : Bool
  pub begin_string : List ℕ
  pub sender_comp_id : List ℕ
  pub target_comp_id : List ℕ
  pub include_last_processed_seqnum_in_header : Bool
  pub default_app_ver_id : List ℕ
  pub logon_username : List ℕ
  pub logon_password : List ℕ
  pub logon_message_new_password : List ℕ
  pub logon_reset_sequence_numbers : Bool
  pub logon_include_next_expected_seq_no : Bool
  pub logon_timeout_seconds : ℕ
  pub validations_enabled : Bool
  pub max_allowed_message_age_seconds : ℕ
  pub replay_messages_on_incoming_resend_request : Bool
  pub max_resend_range : ℕ
  pub include_t97_during_resends : Bool
  pub outgoing_resend_request_expire_in_secs : ℕ
  pub throttle_limit : ℕ
  pub throttle_action : IncomingThrottlerAction
  pub throttler_reject_message : List ℕ
  pub outgoing_test_request_interval_multiplier : ℕ
  pub max_serialised_file_size : ℕ
