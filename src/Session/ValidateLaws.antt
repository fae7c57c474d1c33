-- ===== src/Session/ValidateLaws.antt =====
-- What a message that passes the checks of include/llfix/fix_session.h has, and what a refusal reports.
use llfix.Utilities.ChecksumSimd.{validate-encode, simd-no_simd}
use llfix.Converters.{chars_to_unsigned_int, w32}
use llfix.StringView.{equals, is_timestamp}
use llfix.Common.{
  ℕ, Bool, true, false, refl, sym, ap, inl, inr, Option, none, some, List, [], arith, length, take,
  Bool-cases, ◌-◌, ◌≡◌, ◌↔◌, ◌∷◌, ◌<◌, ◌∙◌, if◌then◌else◌, not, ◌==◌, ltb,
}
use llfix.Message.{
  IncomingFixMessage, has_tag, get_tag_value, is_tag_value_numeric, get_tag_value_as_uint32,
  is_some, or_empty, tag_value,
}
use llfix.Session.Record.{FixSession}
use llfix.Session.Validate.{
  Timegm, Verdict, require, accepted, validate_fields, checksum_ok, staleness, validate_fix_message,
  is_utc_timestamp_stale, refused,
}
use llfix.Constants.{
  tag_begin_string, tag_sender_comp_id, tag_target_comp_id, tag_checksum, tag_sending_time, no_code,
  tag_msg_seq_num, fix_error_code_other,
}
use llfix.Utilities.Checksum.{encode_checksum_no_simd}

equals_eq : (xs ys : List ℕ) → equals xs ys ≡ true → xs ≡ ys
unfolding equals
equals_eq [] [] h = refl
equals_eq [] (y ∷ ys) h = cc
equals_eq (x ∷ xs) [] h = cc
equals_eq (x ∷ xs) (y ∷ ys) h = ground (arith, equals_eq xs ys)

require_accepted :
    (b : Bool) (tag : ℕ) (code : Option ℕ) (rest : Verdict)
    → require b tag code rest ≡ accepted
    → (b ≡ true) × (rest ≡ accepted)
require_accepted true tag code rest h = (refl, h)
require_accepted false tag code rest h = cc

present : (o : Option (List ℕ)) (v : List ℕ) → is_some o ≡ true → or_empty o ≡ v → o ≡ some v
present none v h e = cc
present (some w) v h e = ap some e

abbrev Checks : Timegm → ℕ → FixSession → IncomingFixMessage → List ℕ → Type 0
Checks timegm now s m buffer =
    (has_tag m tag_begin_string ≡ true)
    × (equals (get_tag_value m tag_begin_string) s.settings.begin_string ≡ true)
    × (has_tag m tag_sender_comp_id ≡ true)
    × (equals (get_tag_value m tag_sender_comp_id) s.settings.target_comp_id ≡ true)
    × (has_tag m tag_target_comp_id ≡ true)
    × (equals (get_tag_value m tag_target_comp_id) s.settings.sender_comp_id ≡ true)
    × (is_tag_value_numeric m tag_checksum ≡ true)
    × (checksum_ok s m buffer ≡ true)
    × (has_tag m tag_sending_time ≡ true)
    × (staleness timegm now s m ≡ accepted)

accepted-fields :
    (timegm : Timegm) (now : ℕ) (s : FixSession) (m : IncomingFixMessage) (buffer : List ℕ)
    → validate_fields timegm now s m buffer ≡ accepted
    → Checks timegm now s m buffer
unfolding validate_fields
accepted-fields timegm now s m buffer h =
    let (a, h₁) = require_accepted _ _ _ _ h in
    let (b, h₂) = require_accepted _ _ _ _ h₁ in
    let (c, h₃) = require_accepted _ _ _ _ h₂ in
    let (d, h₄) = require_accepted _ _ _ _ h₃ in
    let (e, h₅) = require_accepted _ _ _ _ h₄ in
    let (f, h₆) = require_accepted _ _ _ _ h₅ in
    let (g, h₇) = require_accepted _ _ _ _ h₆ in
    let (i, h₈) = require_accepted _ _ _ _ h₇ in
    let (j, h₉) = require_accepted _ _ _ _ h₈ in (a, b, c, d, e, f, g, i, j, h₉)

fields-accepted :
    (timegm : Timegm) (now : ℕ) (s : FixSession) (m : IncomingFixMessage) (buffer : List ℕ)
    → Checks timegm now s m buffer
    → validate_fields timegm now s m buffer ≡ accepted
unfolding validate_fields
fields-accepted timegm now s m buffer (a, b, c, d, e, f, g, i, j, k) =
    rw (a, b, c, d, e, f, g, i, j) k

checksum_ok_iff :
    (s : FixSession) (m : IncomingFixMessage) (buffer : List ℕ)
    → (checksum_ok s m buffer ≡ true) ↔ (
        get_tag_value_as_uint32 m tag_checksum
        ≡ chars_to_unsigned_int w32 (encode_checksum_no_simd (take (length buffer - 7) buffer)))
unfolding checksum_ok
checksum_ok_iff s m buffer =
    let bytes = take (length buffer - 7) buffer in
    let actual = get_tag_value_as_uint32 m tag_checksum in
    let (v₁, v₂) = validate-encode bytes actual in
    elim (Bool-cases s.settings.enable_simd_avx2) [
      | inl h ↦ rw h v₂
      | inr h ↦ rw (h, sym ((simd-no_simd bytes).0)) v₁
    ]

equals_refl : (xs : List ℕ) → equals xs xs ≡ true
unfolding equals
equals_refl [] = refl
equals_refl (x ∷ xs) = ground (arith, equals_refl xs)

-- That a tag has the expected text, as the code tests it and as an equation.
tag_equals_iff :
    (m : IncomingFixMessage) (tag : ℕ) (v : List ℕ)
    → ((has_tag m tag ≡ true) × (equals (get_tag_value m tag) v ≡ true))
      ↔ (tag_value m tag ≡ some v)
unfolding has_tag get_tag_value
tag_equals_iff m tag v = (
  λ (a, b). present (tag_value m tag) v a (equals_eq _ _ b),
  λ h. (ap is_some h, ap (λ o. equals (or_empty o) v) h ∙ equals_refl v),
)

-- The age test, which is made only when a maximum is set.
pub IsFreshEnough : Timegm → ℕ → FixSession → IncomingFixMessage → Type 0
IsFreshEnough timegm now s m =
    0 < s.settings.max_allowed_message_age_seconds
    → (is_timestamp (get_tag_value m tag_sending_time) ≡ true)
      × (is_utc_timestamp_stale timegm now (get_tag_value m tag_sending_time)
            s.settings.max_allowed_message_age_seconds
          ≡ false)

staleness_iff :
    (timegm : Timegm) (now : ℕ) (s : FixSession) (m : IncomingFixMessage)
    → (staleness timegm now s m ≡ accepted) ↔ IsFreshEnough timegm now s m
unfolding IsFreshEnough
staleness_iff timegm now s m = (ground arith, ground arith)

code_accepted :
    (code : ℕ) (v : Verdict)
    → (if not (code == no_code)
        then (if ltb fix_error_code_other code then refused 0 none else refused 0 (some code))
        else v)
      ≡ accepted
    → (code ≡ no_code) × (v ≡ accepted)
code_accepted code v h = (ground arith, ground arith)

-- What a message has to have, independently of the order of the tests.
pub record IsAcceptable (timegm : Timegm) (now : ℕ) (s : FixSession) (m : IncomingFixMessage)
    (buffer : List ℕ) (code : ℕ) : Type 0 where
  pub parsed : code ≡ no_code
  pub numbered : has_tag m tag_msg_seq_num ≡ true
  pub numeric : is_tag_value_numeric m tag_msg_seq_num ≡ true
  pub version : tag_value m tag_begin_string ≡ some s.settings.begin_string
  pub sender : tag_value m tag_sender_comp_id ≡ some s.settings.target_comp_id
  pub target : tag_value m tag_target_comp_id ≡ some s.settings.sender_comp_id
  pub checksum_numeric : is_tag_value_numeric m tag_checksum ≡ true
  pub checksum :
      get_tag_value_as_uint32 m tag_checksum
      ≡ chars_to_unsigned_int w32 (encode_checksum_no_simd (take (length buffer - 7) buffer))
  pub timed : has_tag m tag_sending_time ≡ true
  pub fresh : IsFreshEnough timegm now s m

-- The session accepts a message exactly when the parser found nothing wrong, the sequence number is there
-- and numeric, version, sender and target are the configured ones, the checksum is the number that a sender
-- writes over all bytes but the last seven, and the sending time is there and, when a maximum age is set,
-- a timestamp that is not too old.
pub validate_fix_message-accepts :
    (timegm : Timegm) (now : ℕ) (s : FixSession) (m : IncomingFixMessage) (buffer : List ℕ)
    (code : ℕ)
    → (validate_fix_message timegm now s m buffer code ≡ accepted)
      ↔ IsAcceptable timegm now s m buffer code
unfolding validate_fix_message
validate_fix_message-accepts timegm now s m buffer code = (
  λ h.
      let (a, h₁) = require_accepted _ _ _ _ h in
      let (b, h₂) = require_accepted _ _ _ _ h₁ in
      let (c, h₃) = code_accepted code _ h₂ in
      let (v, v', s, s', t, t', n, k, d, f) = accepted-fields timegm now _ m buffer h₃ in
      record {
        parsed = c;
        numbered = a;
        numeric = b;
        version = (tag_equals_iff m tag_begin_string _).0 (v, v');
        sender = (tag_equals_iff m tag_sender_comp_id _).0 (s, s');
        target = (tag_equals_iff m tag_target_comp_id _).0 (t, t');
        checksum_numeric = n;
        checksum = (checksum_ok_iff _ m buffer).0 k;
        timed = d;
        fresh = (staleness_iff timegm now _ m).0 f;
      },
  λ h.
      let (v, v') = (tag_equals_iff m tag_begin_string s.settings.begin_string).1 h.version in
      let (c, c') = (tag_equals_iff m tag_sender_comp_id s.settings.target_comp_id).1 h.sender in
      let (t, t') = (tag_equals_iff m tag_target_comp_id s.settings.sender_comp_id).1 h.target in
      let e = fields-accepted timegm now s m buffer (
        v,
        v',
        c,
        c',
        t,
        t',
        h.checksum_numeric,
        (checksum_ok_iff s m buffer).1 h.checksum,
        h.timed,
        (staleness_iff timegm now s m).1 h.fresh,
      ) in
      rw (h.numbered, h.numeric, h.parsed) e,
)
