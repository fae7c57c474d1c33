-- ===== src/Utilities/MessageType.antt =====
-- Message types packed into 32 bits: pack_message_type and unpack_message_type of
-- include/llfix/fix_utilities.h, and is_a_non_retransmittable_admin_message_type.
use llfix.Common.{
  ℕ, zero, suc, Bool, true, false, refl, List, [], arith, length, All, ◌+◌, ◌*◌, ◌/◌, ◌%◌, ◌^◌, ◌≤◌,
  ◌<◌, ◌≡◌, ◌∷◌, ◌==◌, ◌||◌,
}

abbrev pub max_supported_message_type_length : ℕ
max_supported_message_type_length = 4

-- `ret |= uint32_t(uint8_t(mt[i])) << (i * 8)`: `ret` has no bit at or above i * 8, so the disjunction
-- is the sum. From the fifth character on C++ leaves the shift by 32 and more undefined; here such a
-- character adds nothing.
unfoldable pub pack_from : ℕ → ℕ → List ℕ → ℕ
pack_from i ret [] = ret
pack_from i ret (c ∷ cs) = pack_from (i + 1) (ret + c * 2 ^ (i * 8) % 2 ^ 32) cs

unfoldable pub pack_message_type : List ℕ → ℕ
unfolding pack_from
pack_message_type mt = pack_from 0 0 mt

-- The loop over the four characters, which stops at a zero character.
unfoldable pub unpack_from : ℕ → ℕ → ℕ → List ℕ
unpack_from zero i encoded = []
unpack_from (suc rounds) i encoded =
    let c = encoded / 2 ^ (i * 8) % 256 in
    elim (c == 0) [ true ↦ [] | false ↦ c ∷ unpack_from rounds (i + 1) encoded ]

unfoldable pub unpack_message_type : ℕ → List ℕ
unfolding unpack_from
unpack_message_type encoded = unpack_from max_supported_message_type_length 0 encoded

abbrev pub IsTypeChar : ℕ → Type 0
IsTypeChar c = (0 < c) × (c < 256)

-- A message type of at most four non-zero characters is unpacked to itself, so two different types
-- never share a key in the tables that are indexed by packed types.
pub unpack-pack :
    (mt : List ℕ)
    → length mt ≤ max_supported_message_type_length
    → All IsTypeChar mt
    → unpack_message_type (pack_message_type mt) ≡ mt
unfolding unpack_message_type pack_message_type
unpack-pack [] l h = refl
unpack-pack (a ∷ []) l h = ground arith
unpack-pack (a ∷ b ∷ []) l h = ground arith
unpack-pack (a ∷ b ∷ c ∷ []) l h = ground arith
unpack-pack (a ∷ b ∷ c ∷ d ∷ []) l h = ground arith
unpack-pack (a ∷ b ∷ c ∷ d ∷ e ∷ mt) l h = absurd (omega arith)

abbrev pub msg_type_heartbeat : ℕ
msg_type_heartbeat = b'0'

abbrev pub msg_type_test_request : ℕ
msg_type_test_request = b'1'

abbrev pub msg_type_resend_request : ℕ
msg_type_resend_request = b'2'

abbrev pub msg_type_reject : ℕ
msg_type_reject = b'3'

abbrev pub msg_type_sequence_reset : ℕ
msg_type_sequence_reset = b'4'

abbrev pub msg_type_logout : ℕ
msg_type_logout = b'5'

abbrev pub msg_type_logon : ℕ
msg_type_logon = b'A'

abbrev pub msg_type_execution_report : ℕ
msg_type_execution_report = b'8'

abbrev pub msg_type_order_cancel_reject : ℕ
msg_type_order_cancel_reject = b'9'

abbrev pub msg_type_business_reject : ℕ
msg_type_business_reject = b'j'

-- The switch of is_a_non_retransmittable_admin_message_type, on the value of tag 35.
unfoldable pub is_a_non_retransmittable_admin_message_type : List ℕ → Bool
is_a_non_retransmittable_admin_message_type [] = false
is_a_non_retransmittable_admin_message_type (c ∷ []) =
    c == msg_type_heartbeat
    || (c == msg_type_test_request
        || (c == msg_type_resend_request
            || (c == msg_type_sequence_reset || (c == msg_type_logon || c == msg_type_logout))))
is_a_non_retransmittable_admin_message_type (c ∷ d ∷ cs) = false
