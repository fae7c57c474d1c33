-- ===== src/Dictionary/Growth.antt =====
-- Linking a node and growing in include/llfix/core/utilities/dictionary.h keep every value.
use llfix.Dictionary.Chains.{
  chain_value, Bounded, get_or-set, get_elem?-append, chain_value-append, chain_value-cons,
  get_elem?-last, Bounded-append,
}
use llfix.Dictionary.{DictionaryNode, Dictionary, modulo_table_size, link}
use native.Mathlib.Nat.{mod-eq-sub-div-mul, mod-lt}
use llfix.Common.{
  ℕ, true, sym, ap, subst, inl, inr, Option, none, some, List, [], arith, if◌then◌else◌, length,
  get_elem?, get_or, length-append, Bool-cases, length-set, ◌<◌, ◌≡◌, ◌∙◌, ◌++◌, ◌∷◌, ◌==◌, ◌&&◌,
  if-case,
}

-- The keys of a chain differ, and its places are in use.
pub data Unique {V : Type 0} (cache : List (DictionaryNode V)) : List ℕ → Type 0 where
  ended : Unique cache []
  linked :
      {p : ℕ} {chain : List ℕ} {node : DictionaryNode V}
      → get_elem? cache p ≡ some node
      → chain_value cache chain node.key ≡ none
      → Unique cache chain
      → Unique cache (p ∷ chain)

module _ {V : Type 0} (hash : ℕ → ℕ) where
  abbrev pub slot : Dictionary V → ℕ → ℕ
  slot d key = modulo_table_size (length d.table) (hash key)

  abbrev pub chain_at : Dictionary V → ℕ → List ℕ
  chain_at d i = get_or d.table i []

  abbrev pub value_in : Dictionary V → ℕ → Option V
  value_in d key = chain_value d.node_cache (chain_at d (slot d key)) key

  -- Every place of a chain is in use, its key belongs into the chain, and no chain has a key twice.
  pub record Valid (d : Dictionary V) : Type 0 where
    pub pos : 0 < length d.table
    pub bounded : (i : ℕ) → Bounded d.node_cache (chain_at d i)
    pub hashed :
        (i key : ℕ) (v : V) → chain_value d.node_cache (chain_at d i) key ≡ some v → slot d key ≡ i
    pub unique : (i : ℕ) → Unique d.node_cache (chain_at d i)

  pub slot-lt : (d : Dictionary V) (key : ℕ) → 0 < length d.table → slot d key < length d.table
  unfolding modulo_table_size
  slot-lt d key pos =
      subst (λ n. n < length d.table) (mod-eq-sub-div-mul (hash key) (length d.table))
        (mod-lt (hash key) pos)

  Unique-append :
      (cache new : List (DictionaryNode V)) (chain : List ℕ)
      → Bounded cache chain
      → Unique cache chain
      → Unique (cache ++ new) chain
  Unique-append cache new [] b ended = ended
  Unique-append cache new (p ∷ chain) (h, hs) (linked e f u) =
      linked (get_elem?-append cache new p h ∙ e) (chain_value-append cache new chain _ hs ∙ f)
        (Unique-append cache new chain hs u)

  link-chain :
      (d : Dictionary V) (key : ℕ) (v : V) (i : ℕ)
      → 0 < length d.table
      → chain_at (link hash d key v) i
        ≡ (if slot d key == i then length d.node_cache ∷ chain_at d (slot d key) else chain_at d i)
  unfolding link
  link-chain d key v i pos = get_or-set d.table (slot d key) i _ [] (slot-lt d key pos)

  link-slot : (d : Dictionary V) (key : ℕ) (v : V) (k : ℕ) → slot (link hash d key v) k ≡ slot d k
  unfolding link
  link-slot d key v k = ap (λ n. modulo_table_size n (hash k)) (length-set d.table _ _)

  -- What the chains of the table hold after a node was linked.
  link-value :
      (d : Dictionary V) (key : ℕ) (v : V) (i k : ℕ)
      → Valid d
      → chain_value (link hash d key v).node_cache (chain_at (link hash d key v) i) k ≡ (
          if slot d key == i && key == k then some v else chain_value d.node_cache (chain_at d i) k)
  unfolding link
  link-value d key v i k valid =
      let node : DictionaryNode V = record { key = key; value = v } in
      let cache = d.node_cache in
      let new = cache ++ node ∷ [] in
      let e = link-chain d key v i valid.pos in
      let old =
        λ (j : ℕ). chain_value-append cache (node ∷ []) (chain_at d j) k (valid.bounded j) in
      let cons =
        chain_value-cons new (length cache) (chain_at d (slot d key)) k node
          (get_elem?-last cache node) in
      elim (Bool-cases (slot d key == i)) [
        | inr a ↦ rw (e, a) (old i)
        | inl a ↦
            (let same : slot d key ≡ i = ground (arith, a) in
              rw (e, a)
                (cons
                  ∙ ap (λ x. if key == k then some v else x)
                      (old (slot d key) ∙ ap (λ j. chain_value cache (chain_at d j) k) same)))
      ]

  pub link-value_in :
      (d : Dictionary V) (key : ℕ) (v : V) (k : ℕ)
      → Valid d
      → value_in (link hash d key v) k ≡ (if key == k then some v else value_in d k)
  link-value_in d key v k valid =
      let e = link-value d key v (slot d k) k valid in
      let s = link-slot d key v k in
      let to_old =
        ap (λ j. chain_value (link hash d key v).node_cache (chain_at (link hash d key v) j) k) s
        ∙ e in
      elim (Bool-cases (key == k)) [
        | inr b ↦ ground (arith, b, to_old)
        | inl b ↦
            (let same : key ≡ k = ground (arith, b) in
              let at : slot d key ≡ slot d k = ap (slot d) same in
              let hit : (slot d key == slot d k) ≡ true = ground (arith, at) in
              ground (arith, b, hit, to_old))
      ]

  hashed_at :
      (d : Dictionary V) (key : ℕ) (v : V) (i k : ℕ) (w : V)
      → Valid d
      → (if slot d key == i && key == k then some v else chain_value d.node_cache (chain_at d i) k)
        ≡ some w
      → slot d k ≡ i
  hashed_at d key v i k w valid h = elim (Bool-cases (slot d key == i && key == k)) [
    | inl a ↦
        (let same : key ≡ k = ground (arith, a) in
          let at : slot d key ≡ i = ground (arith, a) in subst (λ x. slot d x ≡ i) same at)
    | inr a ↦ valid.hashed i k w (
        subst (λ b. (if b then some v else chain_value d.node_cache (chain_at d i) k) ≡ some w) a h)
  ]

  pub link-Valid :
      (d : Dictionary V) (key : ℕ) (v : V)
      → Valid d
      → value_in d key ≡ none
      → Valid (link hash d key v)
  unfolding link
  link-Valid d key v valid fresh =
      let node : DictionaryNode V = record { key = key; value = v } in
      let cache = d.node_cache in
      let chain = λ (i : ℕ). link-chain d key v i valid.pos in
      record {
        pos =
            (let e = length-set d.table (slot d key) (length cache ∷ chain_at d (slot d key)) in
              omega (arith, e, valid.pos));
        bounded = λ i.
            (let old =
                λ (j : ℕ). Bounded-append cache (node ∷ []) (chain_at d j) (valid.bounded j) in
              let size = length-append cache (node ∷ []) in
              subst (Bounded (cache ++ node ∷ [])) (sym (chain i)) (
                if-case (Bounded (cache ++ node ∷ [])) (slot d key == i)
                  (length cache ∷ chain_at d (slot d key)) (chain_at d i)
                  (omega (arith, size), old (slot d key)) (old i)));
        hashed = λ i k w h.
            (let e = sym (link-value d key v i k valid) ∙ h in
              link-slot d key v k ∙ hashed_at d key v i k w valid e);
        unique = λ i.
            (let old = λ (j : ℕ).
                Unique-append cache (node ∷ []) (chain_at d j) (valid.bounded j) (valid.unique j) in
              subst (Unique (cache ++ node ∷ [])) (sym (chain i)) (
                if-case (Unique (cache ++ node ∷ [])) (slot d key == i)
                  (length cache ∷ chain_at d (slot d key)) (chain_at d i)
                  (linked (get_elem?-last cache node)
                    (chain_value-append cache (node ∷ []) (chain_at d (slot d key)) key
                        (valid.bounded (slot d key))
                      ∙ fresh)
                    (old (slot d key)))
                  (old i)));
      }
