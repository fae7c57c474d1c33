-- ===== src/Dictionary/Bounds.antt =====
-- The node cache of include/llfix/core/utilities/dictionary.h, which has as many places as the table has
-- slots, never overflows.
use llfix.Dictionary.{
  relink, Dictionary, link, copy_chain, copy_existing, DictionaryNode, grow, insert, empty_table,
}
use llfix.Dictionary.Growth.{linked, slot, slot-lt, Unique, Valid}
use llfix.Common.{
  ℕ, zero, suc, refl, sym, ap, subst, inl, inr, List, [], arith, length, get_or, set, replicate,
  length-append, Bool-cases, length-set, ◌+◌, ◌≤◌, ◌<◌, ◌≡◌, ◌∷◌, ◌==◌, Bool, true, ◌*◌, ◌⊎◌,
  length-replicate, false,
}

abbrev pub total : List (List ℕ) → ℕ
total [] = 0
total (chain ∷ table) = length chain + total table

pub total-set :
    (table : List (List ℕ)) (i : ℕ) (chain : List ℕ)
    → i < length table
    → total (set table i chain) + length (get_or table i []) ≡ total table + length chain
total-set [] i chain h = elim h [ ]
total-set (c ∷ table) zero chain h = omega arith
total-set (c ∷ table) (suc i) chain h =
    let e = total-set table i chain (omega arith) in omega (arith, e)

total-empty : (size : ℕ) → total (replicate size []) ≡ 0
total-empty zero = refl
total-empty (suc size) = let e = total-empty size in omega (arith, e)

pub length-relink :
    (chain : List ℕ) (last current : ℕ) → length (relink chain last current) ≡ length chain
unfolding relink
length-relink [] last current = refl
length-relink (q ∷ chain) last current = elim (Bool-cases (q == last)) [
  | inl e ↦ rw (e, relink) refl
  | inr e ↦ rw (e, relink) (ap suc (length-relink chain last current))
]

module _ {V : Type 0} (hash : ℕ → ℕ) where
  -- The chains have the nodes of the cache, each once, and the nodes are no more than the slots.
  pub record Packed (d : Dictionary V) : Type 0 where
    pub linked_once : total d.table ≡ length d.node_cache
    pub fits : length d.node_cache ≤ length d.table

  link-sizes :
      (d : Dictionary V) (key : ℕ) (v : V)
      → 0 < length d.table
      → let t = link hash d key v in
        (total t.table ≡ total d.table + 1)
        × (length t.node_cache ≡ length d.node_cache + 1)
        × (length t.table ≡ length d.table)
  unfolding link
  link-sizes d key v pos =
      let index = slot hash d key in
      let e =
        total-set d.table index (length d.node_cache ∷ get_or d.table index [])
          (slot-lt hash d key pos) in
      (
        omega (arith, e),
        length-append d.node_cache _,
        length-set d.table index (length d.node_cache ∷ get_or d.table index []),
      )

  -- Copying nodes adds as many as there are.
  Grew : Dictionary V → Dictionary V → ℕ → Type 0
  Grew d t n =
      (total t.table ≡ total d.table + n)
      × (length t.node_cache ≡ length d.node_cache + n)
      × (length t.table ≡ length d.table)

  copy_chain-Grew :
      (cache : List (DictionaryNode V)) (chain : List ℕ) (new : Dictionary V)
      → Unique cache chain
      → 0 < length new.table
      → Grew new (copy_chain hash cache chain new) (length chain)
  unfolding copy_chain Grew
  copy_chain-Grew cache [] new u pos = (omega arith, omega arith, refl)
  copy_chain-Grew cache (p ∷ chain) new (linked {node = node} e f u) pos =
      let next = link hash new node.key node.value in
      let (a, b, c) = link-sizes new node.key node.value pos in
      let (a', b', c') = copy_chain-Grew cache chain next u (omega (arith, c, pos)) in
      let step : copy_chain hash cache (p ∷ chain) new ≡ copy_chain hash cache chain next =
        rw (e, copy_chain) refl in
      subst (λ t. Grew new t (suc (length chain))) (sym step)
        (omega (arith, a, a'), omega (arith, b, b'), omega (arith, c, c'))

  copy_existing-Grew :
      (cache : List (DictionaryNode V)) (table : List (List ℕ)) (new : Dictionary V)
      → ((i : ℕ) → Unique cache (get_or table i []))
      → 0 < length new.table
      → Grew new (copy_existing hash cache table new) (total table)
  unfolding copy_existing Grew
  copy_existing-Grew cache [] new u pos = (omega arith, omega arith, refl)
  copy_existing-Grew cache (chain ∷ table) new u pos =
      let next = copy_chain hash cache chain new in
      let (a, b, c) = copy_chain-Grew cache chain new (u 0) pos in
      let (a', b', c') =
        copy_existing-Grew cache table next (λ i. u (suc i)) (omega (arith, c, pos)) in
      (omega (arith, a, a'), omega (arith, b, b'), omega (arith, c, c'))

  -- A new node is written at the item count; it has a place, since the table has more slots.
  abbrev pub HasRoom : Dictionary V → Dictionary V → Type 0
  HasRoom d t = Packed t × (length t.node_cache ≡ length d.node_cache + 1)

  link-Packed :
      (d : Dictionary V) (key : ℕ) (v : V)
      → Packed d
      → length d.node_cache < length d.table
      → HasRoom d (link hash d key v)
  link-Packed d key v packed room =
      let (a, b, c) = link-sizes d key v (omega (arith, room)) in
      let once = packed.linked_once in
      (record { linked_once = omega (arith, a, b, once); fits = omega (arith, b, c, room) }, b)

  grow-Packed :
      (allocated : ℕ → Bool) (d : Dictionary V)
      → Valid hash d
      → Packed d
      → allocated (length d.table * 2) ≡ true
      → let t = (grow hash allocated d (length d.table * 2)).0 in
        Packed t
        × (length t.node_cache ≡ length d.node_cache)
        × (length t.table ≡ length d.table * 2)
  unfolding grow Grew
  grow-Packed allocated d valid packed room =
      let size = length d.table * 2 in
      let new : Dictionary V = empty_table size in
      let pos = valid.pos in
      let n = length-replicate {A = List ℕ} size [] in
      let z = total-empty size in
      let once = packed.linked_once in
      let fits = packed.fits in
      let (a, b, c) =
        copy_existing-Grew d.node_cache d.table new valid.unique (omega (arith, n, pos)) in
      rw room (
        record { linked_once = omega (arith, a, b, z); fits = omega (arith, b, c, n, once, fits) },
        omega (arith, b, once),
        omega (arith, c, n),
      )

  grow-flag :
      (allocated : ℕ → Bool) (d : Dictionary V) (size : ℕ)
      → ((allocated size ≡ true) × ((grow hash allocated d size).1 ≡ true))
        ⊎ (grow hash allocated d size ≡ (d, false))
  unfolding grow
  grow-flag allocated d size = elim (Bool-cases (allocated size)) [
    | inl b ↦ inl (b, rw b refl)
    | inr b ↦ inr (rw b refl)
  ]

  -- The nodes of a well-formed table are as many as its chains link, and no more than its slots, for each
  -- of which the node cache has a place. Inserting keeps this: a new node gets the first free place, also
  -- behind the nodes that were copied while the table grew, and where there is no room nothing changes.
  pub insert-Packed :
      (allocated : ℕ → Bool) (d : Dictionary V) (key : ℕ) (v : V)
      → Valid hash d
      → Packed d
      → let r = insert hash allocated d key v in ((r.1 ≡ true) × HasRoom d r.0) ⊎ (r ≡ (d, false))
  unfolding insert
  insert-Packed allocated d key v valid packed =
      let pos = valid.pos in
      let fits = packed.fits in
      let r = grow hash allocated d (length d.table * 2) in
      elim (Bool-cases (length d.node_cache == length d.table)) [
        | inr a ↦
            (let (next, count) = link-Packed d key v packed (ground (arith, a, fits)) in
              inl (rw a refl, rw a (next, count)))
        | inl a ↦ elim (grow-flag allocated d (length d.table * 2)) [
          | inr no_room ↦ inr (rw (a, no_room) refl)
          | inl (b, room) ↦
              (let (packed', count, size) = grow-Packed allocated d valid packed b in
                let (next, more) =
                  link-Packed r.0 key v packed' (ground (arith, a, count, size, pos)) in
                let plus : length (link hash r.0 key v).node_cache ≡ length d.node_cache + 1 =
                  omega (arith, more, count) in
                inl (rw (a, room) refl, rw (a, room) (next, plus)))
        ]
      ]
