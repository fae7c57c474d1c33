-- ===== src/Examples/RoundTrips.antt =====
-- Encoding and parsing at concrete inputs.
use llfix.Parser.Tags.{first_value}
use llfix.Message.{tag_value}
use llfix.Parser.{parse_message, start_parsing}
use llfix.Outgoing.EncodeLaws.{fields}
use llfix.Parser.RoundTrip.{IsReadable, IsInner}
use llfix.Outgoing.{write_tags, encode}
use llfix.Parser.EncodeParse.{framing, framed, encode-parse}
use llfix.Message.Tags.{IsFresh}
use llfix.GroupSpecs.{is_a_repeating_group_count_tag, has_count_tag}
use llfix.Common.{
  ℕ, false, refl, arith, List, [], some, All, ◌∷◌, ◌%◌, ◌^◌, ◌<◌, ◌≡◌, ◌++◌, ◌+◌, ◌-◌, length,
}
use llfix.Examples.Clients.{order}
use llfix.Examples.Sessions.{session, empty_message}
use llfix.Examples.Parsers.{specs}
use llfix.Outgoing.Texts.{unsigned_text-value_bytes}

no_groups : (e t : ℕ) → is_a_repeating_group_count_tag specs e t ≡ false
unfolding is_a_repeating_group_count_tag has_count_tag
no_groups e t = refl

empty_message-IsFresh : IsFresh empty_message
empty_message-IsFresh = record { positive = omega arith; fits = omega arith; up_to = ground arith }

abbrev order_fields : List (ℕ × List ℕ)
order_fields = framing (b'F' ∷ []) (fields session.settings 6 order (b'T' ∷ []) 5)

small_length : length (write_tags (fields session.settings 6 order (b'T' ∷ []) 5)) % 2 ^ 32 < 2 ^ 32
small_length = omega arith

one_byte : (t c : ℕ) → t < 2 ^ 32 → 1 < c → IsReadable specs (t, c ∷ [])
one_byte t c h v = (h, ground (arith, v), λ e. no_groups e t)

order_fields-IsReadable : All (IsReadable specs) order_fields
order_fields-IsReadable =
    let n5 = unsigned_text-value_bytes 5 (omega arith) in
    let n9 = unsigned_text-value_bytes _ small_length in
    (
      one_byte 8 _ (omega arith) (omega arith),
      (
        (omega arith, n9, λ e. no_groups e 9),
        (
          one_byte 35 _ (omega arith) (omega arith),
          (
            (omega arith, n5, λ e. no_groups e 34),
            (
              one_byte 49 _ (omega arith) (omega arith),
              (
                one_byte 52 _ (omega arith) (omega arith),
                (
                  one_byte 56 _ (omega arith) (omega arith),
                  (one_byte 55 _ (omega arith) (omega arith), tt),
                ),
              ),
            ),
          ),
        ),
      ),
    )

order_fields-IsInner : All IsInner order_fields
order_fields-IsInner = ground arith

-- An order, followed by the beginning of another message.
encode-parse_example :
    let bytes = (encode session.settings 6 order (b'T' ∷ []) 5).1 in
    let (q, stop) = parse_message specs (start_parsing empty_message 0) 0 (bytes ++ b'8' ∷ []) in
    (stop ≡ some (0 + length bytes - 1))
    × ((u : ℕ)
        → tag_value q.message u
          ≡ first_value (framed (b'F' ∷ []) (fields session.settings 6 order (b'T' ∷ []) 5)) u)
encode-parse_example =
    encode-parse specs empty_message 0 session.settings 6 order (b'T' ∷ []) 5 (b'8' ∷ [])
      empty_message-IsFresh order_fields-IsReadable order_fields-IsInner (λ e. no_groups e 10)
