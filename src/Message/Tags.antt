-- ===== src/Message/Tags.antt =====
-- The tags of include/llfix/incoming_fix_message.h as a map that a reset empties.
use llfix.Common.{
  ℕ, true, refl, inl, inr, none, some, List, [], arith, if◌then◌else◌, Bool-cases, ◌+◌, ◌%◌, ◌^◌,
  ◌≤◌, ◌<◌, ◌≡◌, ◌∷◌, ◌==◌,
}
use llfix.Message.{
  IncomingFixMessage, find, tag_value, Dictionary, mark_stale, set_existing_item, set_tag,
  IncomingValue, current, reset, is_some,
}

find-set_existing_item :
    (d : Dictionary) (tag t : ℕ) (v : IncomingValue)
    → is_some (find d tag) ≡ true
    → find (set_existing_item d tag v) t ≡ (if tag == t then some v else find d t)
unfolding find set_existing_item
find-set_existing_item [] tag t v h = cc
find-set_existing_item ((s, w) ∷ d) tag t v h = ground (arith, find-set_existing_item d tag t v)

-- After setting a tag its value is the new one and every other tag is as it was, whether or not an entry,
-- possibly of an earlier message, was there.
pub tag_value-set_tag :
    (m : IncomingFixMessage) (tag t : ℕ) (value : List ℕ)
    → tag_value (set_tag m tag value) t ≡ (if tag == t then some value else tag_value m t)
unfolding set_tag tag_value find current
tag_value-set_tag m tag t value =
    let node : IncomingValue = record { value = value; generation_id = m.generation_id } in
    ground (arith, find-set_existing_item m.dict tag t node)

-- No entry carries a generation number that is still to come.
abbrev pub UpTo : ℕ → Dictionary → Type 0
UpTo g [] = Unit {0}
UpTo g ((t, v) ∷ d) = (v.generation_id ≤ g) × UpTo g d

pub record IsFresh (m : IncomingFixMessage) : Type 0 where
  pub positive : 0 < m.generation_id
  pub fits : m.generation_id < 2 ^ 64
  pub up_to : UpTo m.generation_id m.dict

UpTo-older : (d : Dictionary) (t g h : ℕ) → UpTo g d → g < h → current h (find d t) ≡ none
unfolding find current
UpTo-older [] t g h u lt = refl
UpTo-older ((s, v) ∷ d) t g h u lt = ground (arith, UpTo-older d t g h u.1 lt)

UpTo-mono : (d : Dictionary) (g h : ℕ) → g ≤ h → UpTo g d → UpTo h d
UpTo-mono [] g h le u = tt
UpTo-mono ((s, v) ∷ d) g h le u = (omega arith, UpTo-mono d g h le u.1)

mark_stale-UpTo : (d : Dictionary) → UpTo 0 (mark_stale d)
unfolding mark_stale
mark_stale-UpTo [] = tt
mark_stale-UpTo ((s, v) ∷ d) = (omega arith, mark_stale-UpTo d)

set_existing_item-UpTo :
    (d : Dictionary) (tag g : ℕ) (v : IncomingValue)
    → v.generation_id ≤ g
    → UpTo g d
    → UpTo g (set_existing_item d tag v)
unfolding set_existing_item
set_existing_item-UpTo [] tag g v le u = tt
set_existing_item-UpTo ((s, w) ∷ d) tag g v le u =
    ground (arith, set_existing_item-UpTo d tag g v le u.1)

-- A reset leaves no tag, also when the generation number wraps around to zero, where entries of a very old
-- message would otherwise come back to life.
pub tag_value-reset :
    (m : IncomingFixMessage) (t : ℕ)
    → IsFresh m
    → (tag_value (reset m) t ≡ none) × IsFresh (reset m)
unfolding tag_value reset
tag_value-reset m t f = elim (Bool-cases ((m.generation_id + 1) % 2 ^ 64 == 0)) [
  | inl wrap ↦
      let u = mark_stale-UpTo m.dict in
      rw wrap (
        UpTo-older (mark_stale m.dict) t 0 1 u (omega arith),
        record {
          positive = omega arith;
          fits = omega arith;
          up_to = UpTo-mono (mark_stale m.dict) 0 1 (omega arith) u;
        },
      )
  | inr next ↦
      let e : (m.generation_id + 1) % 2 ^ 64 ≡ m.generation_id + 1 =
        let nz : 0 < (m.generation_id + 1) % 2 ^ 64 = ground arith in omega (arith, nz, f.fits) in
      let small : m.generation_id + 1 < 2 ^ 64 = omega (arith, e) in
      rw (next, e)
        (
          UpTo-older m.dict t m.generation_id (m.generation_id + 1) f.up_to (omega arith),
          record {
            positive = omega arith;
            fits = small;
            up_to = UpTo-mono m.dict m.generation_id (m.generation_id + 1) (omega arith) f.up_to;
          },
        )
]

pub set_tag-IsFresh :
    (m : IncomingFixMessage) (tag : ℕ) (value : List ℕ) → IsFresh m → IsFresh (set_tag m tag value)
unfolding set_tag
set_tag-IsFresh m tag value f = record {
  positive = f.positive;
  fits = f.fits;
  up_to = ground (
    arith,
    set_existing_item-UpTo m.dict tag m.generation_id
        (record { value = value; generation_id = m.generation_id }),
  );
}
