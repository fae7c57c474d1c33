-- ===== src/Examples/Dictionaries.antt =====
-- A hash table with two slots at concrete inputs.
use llfix.Dictionary.{
  remove, move_last, unlink, relink, Dictionary, link, get, insert, grow, find_place, find_node,
  modulo_table_size, copy_existing, copy_chain, set_existing_item, empty_table,
}
use llfix.Dictionary.Growth.{Valid}
use llfix.Dictionary.Laws.{insert_lem, link_lem, empty-Valid}
use llfix.Dictionary.Updates.{set_existing_item_lem, IsUpdated}
use llfix.Dictionary.Removes.{remove_lem, IsRemoved}
use llfix.Dictionary.Bounds.{Packed, HasRoom, insert-Packed}
use llfix.Common.{
  [], ◌∷◌, ◌*◌, ℕ, Bool, refl, some, none, ltb, length, if◌then◌else◌, ◌≡◌, ◌⊎◌, ◌==◌, true, false,
  arith,
}

abbrev same_hash : ℕ → ℕ
same_hash key = key

abbrev room_to_eight : ℕ → Bool
room_to_eight size = ltb size 9

-- The keys 4 and 6 share a chain, and the table is full.
abbrev one_key : Dictionary ℕ
one_key = link same_hash (empty_table 2) 4 40

abbrev two_keys : Dictionary ℕ
two_keys = link same_hash one_key 6 60

two_keys-Valid : Valid same_hash two_keys
unfolding get find_place find_node modulo_table_size link
two_keys-Valid =
    (link_lem same_hash one_key 6 60
      (link_lem same_hash (empty_table 2) 4 40 (empty-Valid same_hash 2 (omega arith)) refl).0
      refl).0

free_key : get same_hash two_keys 5 ≡ none
unfolding get find_place find_node modulo_table_size link
free_key = refl

-- The third key makes the table grow.
insert_lem_example :
    let r = insert same_hash room_to_eight two_keys 5 50 in
    ((r.1 ≡ true)
      × Valid same_hash r.0
      × ((k : ℕ) → get same_hash r.0 k ≡ (if 5 == k then some 50 else get same_hash two_keys k)))
    ⊎ ((length two_keys.node_cache ≡ length two_keys.table)
        × (room_to_eight (length two_keys.table * 2) ≡ false)
        × (r ≡ (two_keys, false)))
insert_lem_example = insert_lem same_hash room_to_eight two_keys 5 50 two_keys-Valid free_key

set_existing_item_lem_example :
    IsUpdated same_hash two_keys 4 44 (set_existing_item same_hash two_keys 4 44)
set_existing_item_lem_example = set_existing_item_lem same_hash two_keys 4 44 two_keys-Valid

grown :
    let r = insert same_hash room_to_eight two_keys 5 50 in
    (length r.0.table ≡ 4) × (get same_hash r.0 4 ≡ some 40) × (get same_hash r.0 5 ≡ some 50)
unfolding insert grow link copy_existing copy_chain get find_place find_node modulo_table_size
grown = (refl, refl, refl)

-- The first node goes, and the second moves to its place.
remove_lem_example : IsRemoved same_hash two_keys 4 (remove same_hash two_keys 4)
remove_lem_example = remove_lem same_hash two_keys 4 two_keys-Valid

removed :
    let t = remove same_hash two_keys 4 in
    (t.table ≡ (0 ∷ []) ∷ [] ∷ []) × (length t.node_cache ≡ 1) × (get same_hash t 6 ≡ some 60)
unfolding remove move_last unlink relink link get find_place find_node modulo_table_size
removed = (refl, refl, refl)

two_keys-Packed : Packed same_hash two_keys
unfolding link modulo_table_size
two_keys-Packed = record { linked_once = refl; fits = omega arith }

insert-Packed_example :
    let r = insert same_hash room_to_eight two_keys 5 50 in
    ((r.1 ≡ true) × HasRoom same_hash two_keys r.0) ⊎ (r ≡ (two_keys, false))
insert-Packed_example =
    insert-Packed same_hash room_to_eight two_keys 5 50 two_keys-Valid two_keys-Packed
