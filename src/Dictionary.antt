-- ===== src/Dictionary.antt =====
-- include/llfix/core/utilities/dictionary.h: the hash table. The chain that starts in a slot of the table
-- is the list of the places of its nodes in the node cache, in the order of their links. The cache has
-- the nodes that are in use, so its length is the item count. Keys are numbers; the hash function and
-- whether the allocator has room for a size are arguments.
pub mod Chains
pub mod Growth
pub mod Copies
pub mod Laws
pub mod Changes
pub mod Updates
pub mod Removal
pub mod Compaction
pub mod Unlinking
pub mod Removes
pub mod Bounds
pub mod Shrinks
use llfix.Message.{is_some}
use llfix.Common.{
  ℕ, Bool, true, false, Option, none, some, List, [], if◌then◌else◌, length, get_elem?, get_or, set,
  take, replicate, ◌+◌, ◌-◌, ◌*◌, ◌/◌, ◌++◌, ◌∷◌, ◌==◌,
}

pub record DictionaryNode (V : Type 0) : Type 0 where
  pub key : ℕ
  pub value : V

pub record Dictionary (V : Type 0) : Type 0 where
  pub table : List (List ℕ)
  pub node_cache : List (DictionaryNode V)

-- The slot of a hash value.
unfoldable pub modulo_table_size : ℕ → ℕ → ℕ
modulo_table_size table_size input = input - input / table_size * table_size

-- A chain without a place, and one in which a place stands for another; both change the first
-- occurrence, as the walks stop there.
unfoldable pub unlink : List ℕ → ℕ → List ℕ
unlink [] place = []
unlink (p ∷ chain) place = if p == place then chain else p ∷ unlink chain place

unfoldable pub relink : List ℕ → ℕ → ℕ → List ℕ
relink [] last current = []
relink (p ∷ chain) last current =
    if p == last then current ∷ chain else p ∷ relink chain last current

module _ {V : Type 0} where
  -- The walk along a chain to the first node with the key: its place.
  unfoldable pub find_node : List (DictionaryNode V) → List ℕ → ℕ → Option ℕ
  find_node cache [] key = none
  find_node cache (p ∷ chain) key = elim (get_elem? cache p) [
    | none ↦ none
    | some node ↦ if node.key == key then some p else find_node cache chain key
  ]

  abbrev pub value_at : List (DictionaryNode V) → Option ℕ → Option V
  value_at cache none = none
  value_at cache (some p) = elim (get_elem? cache p) [ none ↦ none | some node ↦ some node.value ]

  -- A new node at the end of the cache, at the head of its chain.
  unfoldable pub link : (ℕ → ℕ) → Dictionary V → ℕ → V → Dictionary V
  link hash d key value =
      let index = modulo_table_size (length d.table) (hash key) in
      record {
        table = set d.table index (length d.node_cache ∷ get_or d.table index []);
        node_cache = d.node_cache ++ record { key = key; value = value } ∷ [];
      }

  -- The two loops that copy the existing nodes into a new table.
  unfoldable pub copy_chain :
      (ℕ → ℕ) → List (DictionaryNode V) → List ℕ → Dictionary V → Dictionary V
  copy_chain hash cache [] new = new
  copy_chain hash cache (p ∷ chain) new = elim (get_elem? cache p) [
    | none ↦ new
    | some node ↦ copy_chain hash cache chain (link hash new node.key node.value)
  ]

  unfoldable pub copy_existing :
      (ℕ → ℕ) → List (DictionaryNode V) → List (List ℕ) → Dictionary V → Dictionary V
  copy_existing hash cache [] new = new
  copy_existing hash cache (chain ∷ table) new =
      copy_existing hash cache table (copy_chain hash cache chain new)

  abbrev pub empty_table : ℕ → Dictionary V
  empty_table size = record { table = replicate size []; node_cache = [] }

  -- The flag says whether there was room.
  unfoldable pub grow : (ℕ → ℕ) → (ℕ → Bool) → Dictionary V → ℕ → Dictionary V × Bool
  grow hash allocated d size =
      if allocated size
      then (copy_existing hash d.node_cache d.table (empty_table size), true)
      else (d, false)

  unfoldable pub initialise : (ℕ → ℕ) → (ℕ → Bool) → ℕ → Dictionary V × Bool
  initialise hash allocated size = grow hash allocated (record { table = []; node_cache = [] }) size

  -- The table grows at a load factor of one.
  unfoldable pub insert : (ℕ → ℕ) → (ℕ → Bool) → Dictionary V → ℕ → V → Dictionary V × Bool
  insert hash allocated d key value =
      if length d.node_cache == length d.table
      then (let (grown, room) = grow hash allocated d (length d.table * 2) in
          if room then (link hash grown key value, true) else (d, false))
      else (link hash d key value, true)

  unfoldable pub find_place : (ℕ → ℕ) → Dictionary V → ℕ → Option ℕ
  unfolding find_node
  find_place hash d key =
      find_node d.node_cache (get_or d.table (modulo_table_size (length d.table) (hash key)) []) key

  unfoldable pub get : (ℕ → ℕ) → Dictionary V → ℕ → Option V
  unfolding find_place
  get hash d key = value_at d.node_cache (find_place hash d key)

  unfoldable pub has_key : (ℕ → ℕ) → Dictionary V → ℕ → Bool
  unfolding find_place
  has_key hash d key = is_some (find_place hash d key)

  abbrev pub set_value : List (DictionaryNode V) → ℕ → V → List (DictionaryNode V)
  set_value cache p value = elim (get_elem? cache p) [
    | none ↦ cache
    | some node ↦ set cache p (record node { value = value })
  ]

  unfoldable pub set_existing_item : (ℕ → ℕ) → Dictionary V → ℕ → V → Dictionary V × Bool
  unfolding find_place
  set_existing_item hash d key value = elim (find_place hash d key) [
    | none ↦ (d, false)
    | some p ↦ (record d { node_cache = set_value d.node_cache p value }, true)
  ]

  -- The last node moves to the place that became free, so that the cache stays compact.
  unfoldable pub move_last : (ℕ → ℕ) → Dictionary V → ℕ → DictionaryNode V → Dictionary V
  move_last hash d current node =
      let last = length d.node_cache - 1 in
      let index = modulo_table_size (length d.table) (hash node.key) in
      record {
        table = set d.table index (relink (get_or d.table index []) last current);
        node_cache = take last (set d.node_cache current node);
      }

  abbrev pub compact : (ℕ → ℕ) → Dictionary V → ℕ → Dictionary V
  compact hash d current =
      let last = length d.node_cache - 1 in
      if current == last
      then record d { node_cache = take last d.node_cache }
      else elim (get_elem? d.node_cache last) [
        | none ↦ d
        | some node ↦ move_last hash d current node
      ]

  unfoldable pub remove : (ℕ → ℕ) → Dictionary V → ℕ → Dictionary V
  unfolding find_place unlink move_last
  remove hash d key = elim (find_place hash d key) [
    | none ↦ d
    | some current ↦
        (let index = modulo_table_size (length d.table) (hash key) in
          compact hash
            (record d { table = set d.table index (unlink (get_or d.table index []) current) })
            current)
  ]
