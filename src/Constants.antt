-- ===== src/Constants.antt =====
-- The tag numbers and reject codes of include/llfix/fix_constants.h, and the internal codes of
-- include/llfix/fix_parser_error_codes.h.
use llfix.Common.{ℕ, ◌-◌, ◌^◌}

abbrev pub fix_error_code_invalid_tag_number : ℕ
fix_error_code_invalid_tag_number = 0

abbrev pub fix_error_code_required_tag_missing : ℕ
fix_error_code_required_tag_missing = 1

abbrev pub fix_error_code_tag_undefined_for_msg_type : ℕ
fix_error_code_tag_undefined_for_msg_type = 2

abbrev pub fix_error_code_undefined_tag : ℕ
fix_error_code_undefined_tag = 3

abbrev pub fix_error_code_tag_without_value : ℕ
fix_error_code_tag_without_value = 4

abbrev pub fix_error_code_value_incorrect_for_tag : ℕ
fix_error_code_value_incorrect_for_tag = 5

abbrev pub fix_error_code_format_incorrect_for_tag : ℕ
fix_error_code_format_incorrect_for_tag = 6

abbrev pub fix_error_code_format_decryption_problem : ℕ
fix_error_code_format_decryption_problem = 7

abbrev pub fix_error_code_format_signature_problem : ℕ
fix_error_code_format_signature_problem = 8

abbrev pub fix_error_code_compid_problem : ℕ
fix_error_code_compid_problem = 9

abbrev pub fix_error_code_sending_time_accuracy_problem : ℕ
fix_error_code_sending_time_accuracy_problem = 10

abbrev pub fix_error_code_invalid_msg_type : ℕ
fix_error_code_invalid_msg_type = 11

abbrev pub fix_error_code_xml_validation_error : ℕ
fix_error_code_xml_validation_error = 12

abbrev pub fix_error_code_tag_appears_more_than_once : ℕ
fix_error_code_tag_appears_more_than_once = 13

abbrev pub fix_error_code_tag_out_of_order : ℕ
fix_error_code_tag_out_of_order = 14

abbrev pub fix_error_code_rg_out_of_order : ℕ
fix_error_code_rg_out_of_order = 15

abbrev pub fix_error_code_incorrect_numingroup : ℕ
fix_error_code_incorrect_numingroup = 16

abbrev pub fix_error_code_non_binary_value_with_soh : ℕ
fix_error_code_non_binary_value_with_soh = 17

abbrev pub fix_error_code_other : ℕ
fix_error_code_other = 99

abbrev pub fix_max_error_code : ℕ
fix_max_error_code = 99

abbrev pub tag_begin_string : ℕ
tag_begin_string = 8

abbrev pub tag_body_length : ℕ
tag_body_length = 9

abbrev pub tag_msg_seq_num : ℕ
tag_msg_seq_num = 34

abbrev pub tag_msg_type : ℕ
tag_msg_type = 35

abbrev pub tag_sender_comp_id : ℕ
tag_sender_comp_id = 49

abbrev pub tag_target_comp_id : ℕ
tag_target_comp_id = 56

abbrev pub tag_sending_time : ℕ
tag_sending_time = 52

abbrev pub tag_checksum : ℕ
tag_checksum = 10

abbrev pub tag_encrypt_method : ℕ
tag_encrypt_method = 98

abbrev pub tag_heart_bt_int : ℕ
tag_heart_bt_int = 108

abbrev pub tag_default_appl_ver_id : ℕ
tag_default_appl_ver_id = 1137

abbrev pub tag_username : ℕ
tag_username = 553

abbrev pub tag_password : ℕ
tag_password = 554

abbrev pub tag_new_password : ℕ
tag_new_password = 925

abbrev pub tag_reset_seq_num_flag : ℕ
tag_reset_seq_num_flag = 141

abbrev pub tag_next_expected_seq_num : ℕ
tag_next_expected_seq_num = 789

abbrev pub tag_test_req_id : ℕ
tag_test_req_id = 112

abbrev pub tag_begin_seq_no : ℕ
tag_begin_seq_no = 7

abbrev pub tag_end_seq_no : ℕ
tag_end_seq_no = 16

abbrev pub tag_new_seq_no : ℕ
tag_new_seq_no = 36

abbrev pub tag_orig_sending_time : ℕ
tag_orig_sending_time = 122

abbrev pub tag_gap_fill_flag : ℕ
tag_gap_fill_flag = 123

abbrev pub tag_poss_dup_flag : ℕ
tag_poss_dup_flag = 43

abbrev pub tag_poss_resend : ℕ
tag_poss_resend = 97

abbrev pub tag_text : ℕ
tag_text = 58

abbrev pub tag_ref_seq_num : ℕ
tag_ref_seq_num = 45

abbrev pub tag_ref_tag : ℕ
tag_ref_tag = 371

abbrev pub tag_ref_msg_type : ℕ
tag_ref_msg_type = 372

abbrev pub tag_session_reject_reason : ℕ
tag_session_reject_reason = 373

abbrev pub wrong_body_length : ℕ
wrong_body_length = 100

abbrev pub no_tag_35 : ℕ
no_tag_35 = 101

abbrev pub no_tag_9 : ℕ
no_tag_9 = 102

abbrev pub invalid_tag_9 : ℕ
invalid_tag_9 = 103

abbrev pub no_equals_sign : ℕ
no_equals_sign = 104

abbrev pub out_of_order_header_fields : ℕ
out_of_order_header_fields = 105

-- `static_cast<uint32_t>(-1)`: no reject code so far.
abbrev pub no_code : ℕ
no_code = 2 ^ 32 - 1
