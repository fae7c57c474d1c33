-- ===== src/Utilities/RejectText.antt =====
-- get_reject_reason_text of include/llfix/fix_utilities.h.
use Prim.Native.Char.{code}
use Prim.Native.String.{String}
use llfix.Common.{ℕ, List, [], get_or, ◌∷◌}

-- The characters of a literal.
abbrev pub codes : String → List ℕ
codes String.[] = []
codes (String.◌∷◌ c s) = code c ∷ codes s

-- The texts of the codes 0 to 17, in order.
abbrev texts : List String
texts =
    "Invalid tag number" ∷ "Required tag missing" ∷ "Tag not defined for this message type"
    ∷ "Undefined Tag" ∷ "Tag specified without a value"
    ∷ "Value is incorrect (out of range) for this tag" ∷ "Incorrect data format for value"
    ∷ "Decryption problem" ∷ "Signature <89> problem" ∷ "CompID problem"
    ∷ "SendingTime <52> accuracy problem" ∷ "Invalid MsgType <35>" ∷ "XML Validation error"
    ∷ "Tag appears more than once" ∷ "Tag specified out of required order"
    ∷ "Repeating group fields out of order" ∷ "Incorrect NumInGroup count for repeating group"
    ∷ "Non \"Data\" value includes field delimiter (<SOH> character)" ∷ []

unfoldable pub get_reject_reason_text : ℕ → List ℕ
get_reject_reason_text reject_reason_code = codes (get_or texts reject_reason_code "Other")
