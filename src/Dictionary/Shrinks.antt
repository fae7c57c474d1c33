-- ===== src/Dictionary/Shrinks.antt =====
-- The node cache of include/llfix/core/utilities/dictionary.h when a node is removed.
use llfix.Dictionary.Updates.{found_node}
use llfix.Dictionary.Chains.{get_elem?-some, get_elem?-bound, find_node-stop, find_node-cons}
use llfix.Dictionary.Bounds.{total, Packed, total-set, length-relink}
use llfix.Dictionary.Growth.{Valid, slot, chain_at, slot-lt}
use llfix.Dictionary.{
  unlink, move_last, remove, find_node, Dictionary, find_place, compact, relink, DictionaryNode,
}
use llfix.Common.{
  ℕ, refl, inl, inr, some, List, [], arith, length, get_elem?, set, Bool-cases, Option-cases,
  length-set, ◌+◌, ◌-◌, ◌<◌, ◌≡◌, ◌⊎◌, ◌∷◌, ◌==◌, length-take,
}

length-unlink :
    {V : Type 0} (cache : List (DictionaryNode V)) (chain : List ℕ) (key p : ℕ)
    → find_node cache chain key ≡ some p
    → length chain ≡ length (unlink chain p) + 1
unfolding unlink find_node
length-unlink cache [] key p h = absurd (ground (arith, h))
length-unlink cache (q ∷ chain) key p h = elim (Bool-cases (q == p)) [
  | inl b ↦ rw (b, unlink) (omega arith)
  | inr b ↦
      (let rest : find_node cache chain key ≡ some p = elim (Option-cases (get_elem? cache q)) [
        | inl e ↦ (let c = find_node-stop cache q chain key e in absurd (ground (arith, c, h)))
        | inr (node, e) ↦
            (let c = find_node-cons cache q chain key node e in
              elim (Bool-cases (node.key == key)) [
                | inl k ↦ absurd (ground (arith, k, c, h, b))
                | inr k ↦ ground (arith, k, c, h)
              ])
      ] in
        let ih = length-unlink cache chain key p rest in rw (b, unlink) (omega (arith, ih)))
]

module _ {V : Type 0} (hash : ℕ → ℕ) where
  compact-sizes :
      (d : Dictionary V) (p : ℕ)
      → 0 < length d.table
      → p < length d.node_cache
      → let t = compact hash d p in
        (total t.table ≡ total d.table)
        × (length t.node_cache + 1 ≡ length d.node_cache)
        × (length t.table ≡ length d.table)
  unfolding move_last
  compact-sizes d p pos low =
      let cache = d.node_cache in
      let last = length cache - 1 in
      elim (Bool-cases (p == last)) [
        | inl e ↦ (let n = length-take last cache in rw e (refl, omega (arith, n, low), refl))
        | inr e ↦
            (let (node, at) = get_elem?-some cache last (omega (arith, low)) in
              let index = slot hash d node.key in
              let chain = relink (chain_at hash d index) last p in
              let a = total-set d.table index chain (slot-lt hash d node.key pos) in
              let b = length-relink (chain_at hash d index) last p in
              let n = length-take last (set cache p node) in
              let m = length-set cache p node in
              rw (e, at)
                (omega (arith, a, b), omega (arith, n, m, low), length-set d.table index chain))
      ]

  -- Removing keeps the cache of a well-formed table within its places, and a key that was there frees one.
  pub remove-Packed :
      (d : Dictionary V) (key : ℕ)
      → Valid hash d
      → Packed hash d
      → let t = remove hash d key in
        Packed hash t × ((t ≡ d) ⊎ (length t.node_cache + 1 ≡ length d.node_cache))
  unfolding remove find_place
  remove-Packed d key valid packed =
      let index = slot hash d key in
      let chain = chain_at hash d index in
      elim (Option-cases (find_node d.node_cache chain key)) [
        | inl h ↦ rw (h, remove, find_place) (packed, inl refl)
        | inr (p, h) ↦
            (let (n, at, same) = found_node hash d.node_cache chain key p h in
              let u : Dictionary V = record d { table = set d.table index (unlink chain p) } in
              let size = length-set d.table index (unlink chain p) in
              let shorter = length-unlink d.node_cache chain key p h in
              let sum = total-set d.table index (unlink chain p) (slot-lt hash d key valid.pos) in
              let pos = valid.pos in
              let (a, b, c) =
                compact-sizes u p (omega (arith, size, pos))
                  (get_elem?-bound d.node_cache p n at) in
              let once = packed.linked_once in
              let fits = packed.fits in
              let packed' : Packed hash (compact hash u p) = record {
                linked_once = omega (arith, a, b, once, sum, shorter);
                fits = omega (arith, b, c, size, fits);
              } in
              rw (h, remove, find_place) (packed', inr b))
      ]
