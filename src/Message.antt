-- ===== src/Message.antt =====
-- include/llfix/incoming_fix_message.h: a parsed message. The dictionary from tags to values is an
-- association list with the newest entry first; an entry's generation number says which message it
-- belongs to, so that a reset touches no entry until the number wraps around.
pub mod Groups
pub mod GroupLaws
pub mod Tags
use llfix.Common.{
  ℕ, Bool, true, false, Option, none, some, List, [], if◌then◌else◌, get_or, ◌+◌, ◌%◌, ◌^◌, ◌∷◌,
  ◌==◌,
}
use llfix.StringView.{is_numeric}
use llfix.Converters.{w32, chars_to_unsigned_int}

pub record IncomingValue : Type 0 where
  pub value : List ℕ
  pub generation_id : ℕ

abbrev pub Dictionary : Type 0
Dictionary = List (ℕ × IncomingValue)

unfoldable pub find : Dictionary → ℕ → Option IncomingValue
find [] tag = none
find ((t, v) ∷ d) tag = if t == tag then some v else find d tag

unfoldable pub set_existing_item : Dictionary → ℕ → IncomingValue → Dictionary
set_existing_item [] tag v = []
set_existing_item ((t, w) ∷ d) tag v =
    if t == tag then (t, v) ∷ d else (t, w) ∷ set_existing_item d tag v

pub record IncomingFixMessage : Type 0 where
  pub generation_id : ℕ
  pub dict : Dictionary
  pub repeating_groups : Groups.Groups

unfoldable pub initial_message : IncomingFixMessage
initial_message = record { generation_id = 1; dict = []; repeating_groups = Groups.initial }

-- The entry of the tag if it belongs to the current message.
unfoldable pub current : ℕ → Option IncomingValue → Option (List ℕ)
current generation none = none
current generation (some v) = if v.generation_id == generation then some v.value else none

unfoldable pub tag_value : IncomingFixMessage → ℕ → Option (List ℕ)
tag_value m tag = current m.generation_id (find m.dict tag)

abbrev pub is_some {ℓ} : {A : Type ℓ} → Option A → Bool
is_some none = false
is_some (some a) = true

unfoldable pub has_tag : IncomingFixMessage → ℕ → Bool
has_tag m tag = is_some (tag_value m tag)

-- `get_tag_value`; callers test `has_tag` first, as the source asks.
abbrev pub or_empty : Option (List ℕ) → List ℕ
or_empty none = []
or_empty (some v) = v

unfoldable pub get_tag_value : IncomingFixMessage → ℕ → List ℕ
get_tag_value m tag = or_empty (tag_value m tag)

-- `get_tag_value_as<uint32_t>` and `get_tag_value_as<char>`.
unfoldable pub get_tag_value_as_uint32 : IncomingFixMessage → ℕ → ℕ
get_tag_value_as_uint32 m tag = chars_to_unsigned_int w32 (get_tag_value m tag)

unfoldable pub get_tag_value_as_char : IncomingFixMessage → ℕ → ℕ
get_tag_value_as_char m tag = get_or (get_tag_value m tag) 0 0

unfoldable pub is_tag_value_numeric : IncomingFixMessage → ℕ → Bool
is_tag_value_numeric m tag = is_numeric (get_tag_value m tag)

unfoldable pub set_tag : IncomingFixMessage → ℕ → List ℕ → IncomingFixMessage
set_tag m tag value =
    let node : IncomingValue = record { value = value; generation_id = m.generation_id } in
    record m {
      dict =
          if is_some (find m.dict tag)
          then set_existing_item m.dict tag node
          else (tag, node) ∷ m.dict;
    }

unfoldable pub set_repeating_group_tag : IncomingFixMessage → ℕ → List ℕ → IncomingFixMessage
set_repeating_group_tag m tag value = record m {
  repeating_groups = Groups.set_pair m.repeating_groups tag value;
}

-- The wrap-around protection: every entry is marked stale.
unfoldable pub mark_stale : Dictionary → Dictionary
mark_stale [] = []
mark_stale ((t, v) ∷ d) = (t, record v { generation_id = 0 }) ∷ mark_stale d

unfoldable pub reset : IncomingFixMessage → IncomingFixMessage
reset m =
    let next = (m.generation_id + 1) % 2 ^ 64 in
    let groups = Groups.reset m.repeating_groups in
    if next == 0
    then record { generation_id = 1; dict = mark_stale m.dict; repeating_groups = groups }
    else record { generation_id = next; dict = m.dict; repeating_groups = groups }

-- The loop of copy_non_dirty_tag_values_from over the entries of the other message.
unfoldable pub copy_tags : IncomingFixMessage → IncomingFixMessage → Dictionary → IncomingFixMessage
copy_tags m other [] = m
copy_tags m other ((tag, v) ∷ items) =
    copy_tags (if has_tag other tag then set_tag m tag v.value else m) other items

unfoldable pub copy_non_dirty_tag_values_from :
    IncomingFixMessage → IncomingFixMessage → IncomingFixMessage
unfolding copy_tags
copy_non_dirty_tag_values_from m other =
    let t = copy_tags m other other.dict in
    record t {
      repeating_groups =
          Groups.copy_non_dirty_values_from t.repeating_groups other.repeating_groups;
    }
