-- ===== src/Dictionary/Laws.antt =====
-- The operations of include/llfix/core/utilities/dictionary.h as a map.
use llfix.Dictionary.Copies.{copy_existing_lem}
use llfix.Dictionary.{
  grow, get, Dictionary, initialise, insert, empty_table, find_place, link, copy_existing,
}
use llfix.Dictionary.Growth.{
  Valid, value_in, slot, link-Valid, chain_at, link-value_in, Unique, ended,
}
use llfix.Dictionary.Chains.{chain_value, value_at-find_node, Bounded}
use llfix.Common.{
  ℕ, zero, suc, Bool, true, false, refl, sym, ap, subst, inl, inr, none, some, List, [], arith,
  if◌then◌else◌, length, get_or, replicate, Bool-cases, Option-cases, ◌*◌, ◌<◌, ◌≡◌, ◌⊎◌, ◌∙◌, ◌==◌,
  length-replicate,
}
use llfix.Common.{zero, suc}

empty-chain : (size i : ℕ) → get_or {A = List ℕ} (replicate size []) i [] ≡ []
empty-chain zero i = refl
empty-chain (suc size) zero = refl
empty-chain (suc size) (suc i) = empty-chain size i

module _ {V : Type 0} (hash : ℕ → ℕ) where
  empty-value :
      (size k : ℕ) (i : ℕ) → chain_value {V = V} [] (get_or (replicate size []) i []) k ≡ none
  unfolding chain_value
  empty-value size k i = rw (empty-chain size i) refl

  pub empty-Valid : (size : ℕ) → 0 < size → Valid {V = V} hash (empty_table size)
  empty-Valid size pos =
      let e = empty-chain size in
      let n = length-replicate {A = List ℕ} size [] in
      record {
        pos = omega (arith, n);
        bounded = λ i. subst (Bounded {V = V} []) (sym (e i)) tt;
        hashed = λ i k v h. (let m = empty-value size k i in ground (arith, m, h));
        unique = λ i. subst (Unique {V = V} []) (sym (e i)) ended;
      }

  -- A table that grows keeps what it holds.
  grow_lem :
      (allocated : ℕ → Bool) (d : Dictionary V) (size : ℕ)
      → Valid hash d
      → 0 < size
      → let r = grow hash allocated d size in
        ((r.1 ≡ true) × Valid hash r.0 × ((k : ℕ) → value_in hash r.0 k ≡ value_in hash d k))
        ⊎ ((allocated size ≡ false) × (r ≡ (d, false)))
  unfolding grow
  grow_lem allocated d size valid pos = elim (Bool-cases (allocated size)) [
    | inr a ↦ inr (a, rw a refl)
    | inl a ↦
        (let new : Dictionary V = empty_table size in
          let t = copy_existing hash d.node_cache d.table new in
          let none_new = λ (k : ℕ). empty-value size k (slot hash new k) in
          let (valid', found, kept) =
            copy_existing_lem hash d.node_cache d.table (slot hash d) 0 new valid.unique
              (λ j k v h. (let own = valid.hashed j k v h in omega (arith, own)))
              (empty-Valid size pos) (λ j k v h. none_new k) in
          let same : (k : ℕ) → value_in hash t k ≡ value_in hash d k = λ k.
            elim (Option-cases (value_in hash d k)) [
              | inr (v, h) ↦ found (slot hash d k) k v h ∙ sym h
              | inl h ↦
                  kept k (λ j.
                    elim (Option-cases (chain_value d.node_cache (get_or d.table j []) k)) [
                      | inl e ↦ e
                      | inr (w, e) ↦
                          (let here = valid.hashed j k w e in
                            let gone =
                              subst (λ i. chain_value d.node_cache (chain_at hash d i) k ≡ none)
                                here h in
                            ground (arith, gone, e))
                    ])
                  ∙ none_new k
                  ∙ sym h
            ] in
          inl (rw a refl, rw a valid', rw a same))
  ]

  pub get_lem : (d : Dictionary V) (key : ℕ) → get hash d key ≡ value_in hash d key
  unfolding get find_place
  get_lem d key = value_at-find_node d.node_cache (chain_at hash d (slot hash d key)) key

  pub link_lem :
      (d : Dictionary V) (key : ℕ) (v : V)
      → Valid hash d
      → get hash d key ≡ none
      → Valid hash (link hash d key v)
        × ((k : ℕ) → get hash (link hash d key v) k ≡ (if key == k then some v else get hash d k))
  link_lem d key v valid fresh = (
    link-Valid hash d key v valid (sym (get_lem d key) ∙ fresh),
    λ k.
        get_lem (link hash d key v) k
        ∙ link-value_in hash d key v k valid
        ∙ ap (λ x. if key == k then some v else x) (sym (get_lem d k)),
  )

  pub initialise_lem :
      (allocated : ℕ → Bool) (size : ℕ)
      → 0 < size
      → allocated size ≡ true
      → let d = (initialise {V = V} hash allocated size).0 in
        Valid hash d × ((k : ℕ) → get hash d k ≡ none)
  unfolding initialise grow copy_existing
  initialise_lem allocated size pos room =
      let e = empty-Valid size pos in
      rw room (
        e,
        λ k.
            get_lem (empty_table size) k
            ∙ empty-value size k (slot hash (empty_table {V = V} size) k),
      )

  -- Inserting a key that is not in a well-formed table fails only where the table is full and there is no
  -- room for one of twice the size, and then changes nothing. Otherwise the table stays well-formed, the
  -- key has the new value, and every other key has the value that it had, also where the table grew and
  -- all chains were built anew.
  pub insert_lem :
      (allocated : ℕ → Bool) (d : Dictionary V) (key : ℕ) (v : V)
      → Valid hash d
      → get hash d key ≡ none
      → let r = insert hash allocated d key v in
        ((r.1 ≡ true)
          × Valid hash r.0
          × ((k : ℕ) → get hash r.0 k ≡ (if key == k then some v else get hash d k)))
        ⊎ ((length d.node_cache ≡ length d.table)
            × (allocated (length d.table * 2) ≡ false)
            × (r ≡ (d, false)))
  unfolding insert
  insert_lem allocated d key v valid fresh =
      elim (Bool-cases (length d.node_cache == length d.table)) [
        | inr a ↦
            (let (valid', values) = link_lem d key v valid fresh in
              inl (rw a refl, rw a valid', rw a values))
        | inl a ↦
            (let r = grow hash allocated d (length d.table * 2) in
              elim (grow_lem allocated d (length d.table * 2) valid (omega (arith, valid.pos))) [
                | inr (no_room, same) ↦ inr (ground (arith, a), no_room, rw (a, same) refl)
                | inl (room, valid', values) ↦
                    (let kept = λ (k : ℕ). get_lem r.0 k ∙ values k ∙ sym (get_lem d k) in
                      let (valid'', values') = link_lem r.0 key v valid' (kept key ∙ fresh) in
                      inl (
                        rw (a, room) refl,
                        rw (a, room) valid'',
                        rw (a, room)
                            (λ k. values' k ∙ ap (λ x. if key == k then some v else x) (kept k)),
                      ))
              ])
      ]
