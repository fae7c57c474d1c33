-- ===== src/Dictionary/Unlinking.antt =====
-- The table of include/llfix/core/utilities/dictionary.h after a node was unlinked.
use llfix.Dictionary.Removal.{unlink-gone, unlink-Bounded, unlink-Unique, unlink-other, absent}
use llfix.Dictionary.Chains.{Bounded, get_or-set, chain_value}
use llfix.Dictionary.Growth.{Valid, slot, chain_at, Unique, slot-lt, value_in}
use llfix.Dictionary.{Dictionary, find_place, unlink, DictionaryNode, modulo_table_size}
use llfix.Common.{
  ℕ, false, refl, sym, ap, subst, inl, inr, none, some, List, [], arith, if◌then◌else◌, get_elem?,
  get_or, set, All, Bool-cases, Option-cases, ◌≡◌, ◌∙◌, ◌==◌, length-set, true,
}

module _ {V : Type 0} (hash : ℕ → ℕ) (d : Dictionary V) (valid : Valid hash d) where
  -- The table with another chain in a slot.
  abbrev pub with_chain : ℕ → List ℕ → Dictionary V
  with_chain i chain = record d { table = set d.table i chain }

  pub with_chain-at :
      (key i : ℕ) (chain : List ℕ)
      → get_or (set d.table (slot hash d key) chain) i []
        ≡ (if slot hash d key == i then chain else chain_at hash d i)
  with_chain-at key i chain =
      get_or-set d.table (slot hash d key) i chain [] (slot-lt hash d key valid.pos)

  abbrev pub unlinked : ℕ → ℕ → Dictionary V
  unlinked key p = with_chain (slot hash d key) (unlink (chain_at hash d (slot hash d key)) p)

  -- A chain of the table after the node at a place was unlinked.
  abbrev IsUnlinked : ℕ → ℕ → ℕ → List ℕ → Type 0
  IsUnlinked key p i chain =
      Bounded d.node_cache chain
      × Unique d.node_cache chain
      × All (λ q. (q == p) ≡ false) chain
      × (chain_value d.node_cache chain key ≡ none)
      × ((k : ℕ)
          → (key == k) ≡ false
          → chain_value d.node_cache chain k ≡ chain_value d.node_cache (chain_at hash d i) k)

  chain-IsUnlinked :
      (p i : ℕ) (n : DictionaryNode V)
      → get_elem? d.node_cache p ≡ some n
      → find_place hash d n.key ≡ some p
      → IsUnlinked n.key p i (chain_at hash (unlinked n.key p) i)
  unfolding find_place
  chain-IsUnlinked p i n at found =
      let cache = d.node_cache in
      let index = slot hash d n.key in
      let chain = chain_at hash d index in
      subst (IsUnlinked n.key p i) (sym (with_chain-at n.key i (unlink chain p)))
        (elim (Bool-cases (index == i)) [
          | inl e ↦
              (let same : index ≡ i = ground (arith, e) in
                let (gone, places) = unlink-gone cache p n at chain (valid.unique index) found in
                rw e (
                  unlink-Bounded cache p n at chain (valid.bounded index),
                  unlink-Unique cache p n at chain (valid.unique index),
                  places,
                  gone,
                  λ k ne.
                      unlink-other cache p n at chain k ne (valid.unique index)
                      ∙ ap (λ j. chain_value cache (chain_at hash d j) k) same,
                ))
          | inr e ↦
              (let gone : chain_value cache (chain_at hash d i) n.key ≡ none =
                  elim (Option-cases (chain_value cache (chain_at hash d i) n.key)) [
                    | inl h ↦ h
                    | inr (w, h) ↦
                        (let own = valid.hashed i n.key w h in absurd (ground (arith, own, e)))
                  ] in
                rw e (
                  valid.bounded i,
                  valid.unique i,
                  absent cache p n at (chain_at hash d i) (valid.unique i) gone,
                  gone,
                  λ k ne. refl,
                ))
        ])

  pub unlinked-Valid :
      (p : ℕ) (n : DictionaryNode V)
      → get_elem? d.node_cache p ≡ some n
      → find_place hash d n.key ≡ some p
      → let t = unlinked n.key p in
        Valid hash t
        × ((k : ℕ) → value_in hash t k ≡ (if n.key == k then none else value_in hash d k))
        × ((i : ℕ) → All (λ q. (q == p) ≡ false) (chain_at hash t i))
  unlinked-Valid p n at found =
      let cache = d.node_cache in
      let t = unlinked n.key p in
      let size =
        length-set d.table (slot hash d n.key) (unlink (chain_at hash d (slot hash d n.key)) p) in
      let slots = λ (k : ℕ). ap (λ s. modulo_table_size s (hash k)) size in
      let all = λ (i : ℕ). chain-IsUnlinked p i n at found in
      let value = λ (i k : ℕ) (ne : (n.key == k) ≡ false).
        (let (a, b, c, gone, other) = all i in other k ne) in
      let no_key = λ (i k : ℕ) (e : (n.key == k) ≡ true).
        (let (a, b, c, gone, other) = all i in
          let same : n.key ≡ k = ground (arith, e) in
          subst (λ x. chain_value cache (chain_at hash t i) x ≡ none) same gone) in
      (
        record {
          pos = (let pos = valid.pos in omega (arith, size, pos));
          bounded = λ i. (let (a, b, c, gone, other) = all i in a);
          unique = λ i. (let (a, b, c, gone, other) = all i in b);
          hashed = λ i k v h. slots k ∙ (elim (Bool-cases (n.key == k)) [
            | inl e ↦ (let gone = no_key i k e in absurd (ground (arith, gone, h)))
            | inr e ↦ valid.hashed i k v (sym (value i k e) ∙ h)
          ]);
        },
        λ k.
            ap (λ i. chain_value cache (chain_at hash t i) k) (slots k)
            ∙ elim (Bool-cases (n.key == k)) [
              | inl e ↦ (let gone = no_key (slot hash d k) k e in ground (arith, e, gone))
              | inr e ↦ (let v = value (slot hash d k) k e in ground (arith, e, v))
            ],
        λ i. (let (a, b, c, gone, other) = all i in c),
      )
