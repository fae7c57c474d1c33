-- ===== src/Examples/Messages.antt =====
-- Messages and groups at concrete inputs.
use llfix.Message.GroupLaws.{values_of, get_value-values_of}
use llfix.Message.Tags.{IsFresh, tag_value-reset}
use llfix.Message.{IncomingFixMessage, tag_value, reset}
use llfix.Message.Groups.{has_tag, TagValue, Groups, in_use, get_value, placeholder}
use llfix.Common.{not, none, [], arith, length, get_elem?, ◌-◌, ◌^◌, ◌≡◌, ◌∷◌, ◌==◌}

abbrev pair : TagValue
pair = record { tag = 269; value = b'0' ∷ [] }

-- Two places, one of them in use.
abbrev groups : Groups
groups = record { tag_value_pairs = pair ∷ placeholder ∷ []; pointer = 1 }

get_value-values_of_example :
    (get_value groups 269 0 ≡ get_elem? (values_of 269 (in_use groups)) 0)
    × (has_tag groups 269 ≡ not (length (values_of 269 (in_use groups)) == 0))
get_value-values_of_example = get_value-values_of groups 269 0

-- A message with an entry that an earlier message left behind.
abbrev message : IncomingFixMessage
message = record {
  generation_id = 2 ^ 64 - 1;
  dict = (34, record { value = b'7' ∷ []; generation_id = 1 }) ∷ [];
  repeating_groups = groups;
}

message-IsFresh : IsFresh message
message-IsFresh = record { positive = omega arith; fits = omega arith; up_to = ground arith }

tag_value-reset_example : (tag_value (reset message) 34 ≡ none) × IsFresh (reset message)
tag_value-reset_example = tag_value-reset message 34 message-IsFresh
