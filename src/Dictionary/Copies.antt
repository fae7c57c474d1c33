-- ===== src/Dictionary/Copies.antt =====
-- Copying the nodes in include/llfix/core/utilities/dictionary.h keeps their values.
use llfix.Dictionary.Growth.{Unique, Valid, value_in, linked, link-value_in, link-Valid}
use llfix.Dictionary.Chains.{chain_value, chain_value-cons}
use llfix.Dictionary.{DictionaryNode, copy_chain, Dictionary, link, copy_existing}
use llfix.Common.{
  eq_self, zero, suc, ℕ, true, refl, subst, inl, inr, none, some, List, [], arith, Bool-cases, ◌≡◌,
  ◌∷◌, ◌==◌, sym, get_or, ◌+◌, Option-cases, ◌∙◌,
}

module _ {V : Type 0} (hash : ℕ → ℕ) (cache : List (DictionaryNode V)) where
  -- What copying nodes adds: their values, and nothing else.
  abbrev Copied : List ℕ → Dictionary V → Dictionary V → Type 0
  Copied chain new t =
      Valid hash t
      × ((k : ℕ) (v : V) → chain_value cache chain k ≡ some v → value_in hash t k ≡ some v)
      × ((k : ℕ) → chain_value cache chain k ≡ none → value_in hash t k ≡ value_in hash new k)

  copy_chain_lem :
      (chain : List ℕ) (new : Dictionary V)
      → Unique cache chain
      → Valid hash new
      → ((k : ℕ) (v : V) → chain_value cache chain k ≡ some v → value_in hash new k ≡ none)
      → Copied chain new (copy_chain hash cache chain new)
  unfolding copy_chain chain_value
  copy_chain_lem [] new u valid fresh = (valid, (λ k v h. ground (arith, h)), λ k h. refl)
  copy_chain_lem (p ∷ chain) new (linked {node = node} at no_more u) valid fresh =
      let cons = λ (k : ℕ). chain_value-cons cache p chain k node at in
      let self : chain_value cache (p ∷ chain) node.key ≡ some node.value =
        (let c = cons node.key in let s = eq_self node.key in ground (arith, c, s)) in
      let next = link hash new node.key node.value in
      let value = λ (k : ℕ). link-value_in hash new node.key node.value k valid in
      let miss : (k : ℕ) → (node.key == k) ≡ true → chain_value cache chain k ≡ none = λ k b.
        (let same : node.key ≡ k = ground (arith, b) in
          subst (λ j. chain_value cache chain j ≡ none) same no_more) in
      let free : (k : ℕ) (v : V)
          → chain_value cache chain k ≡ some v
          → value_in hash next k ≡ none =
        λ k v h.
          (let c = cons k in
            let w = value k in
            let f = fresh k v in
            elim (Bool-cases (node.key == k)) [
              | inl b ↦ (let m = miss k b in ground (arith, m, h))
              | inr b ↦ ground (arith, b, c, w, f, h)
            ]) in
      let (valid', found, kept) =
        copy_chain_lem chain next u
          (link-Valid hash new node.key node.value valid (fresh node.key node.value self)) free in
      let step : copy_chain hash cache (p ∷ chain) new ≡ copy_chain hash cache chain next =
        rw (at, copy_chain) refl in
      subst (Copied (p ∷ chain) new) (sym step) (
        valid',
        λ k v h.
            (let c = cons k in
              let w = value k in
              elim (Bool-cases (node.key == k)) [
                | inl b ↦ (let e = kept k (miss k b) in ground (arith, b, c, w, h, e))
                | inr b ↦ found k v (ground (arith, b, c, h))
              ]),
        λ k h.
            (let c = cons k in
              let w = value k in
              elim (Bool-cases (node.key == k)) [
                | inl b ↦ ground (arith, b, c, h)
                | inr b ↦
                    (let none_here : chain_value cache chain k ≡ none = ground (arith, b, c, h) in
                      let e = kept k none_here in ground (arith, b, w, e))
              ]),
      )

  abbrev pub CopiedAll : List (List ℕ) → Dictionary V → Dictionary V → Type 0
  CopiedAll table new t =
      Valid hash t
      × ((j k : ℕ) (v : V)
          → chain_value cache (get_or table j []) k ≡ some v
          → value_in hash t k ≡ some v)
      × ((k : ℕ)
          → ((j : ℕ) → chain_value cache (get_or table j []) k ≡ none)
          → value_in hash t k ≡ value_in hash new k)

  -- Of a table whose chains have different keys; `at` says into which chain a key belongs.
  pub copy_existing_lem :
      (table : List (List ℕ)) (at : ℕ → ℕ) (i : ℕ) (new : Dictionary V)
      → ((j : ℕ) → Unique cache (get_or table j []))
      → ((j k : ℕ) (v : V) → chain_value cache (get_or table j []) k ≡ some v → at k ≡ i + j)
      → Valid hash new
      → ((j k : ℕ) (v : V)
          → chain_value cache (get_or table j []) k ≡ some v
          → value_in hash new k ≡ none)
      → CopiedAll table new (copy_existing hash cache table new)
  unfolding copy_existing chain_value
  copy_existing_lem [] at i new u own valid fresh =
      (valid, (λ j k v h. ground (arith, h)), λ k h. refl)
  copy_existing_lem (chain ∷ table) at i new u own valid fresh =
      let next = copy_chain hash cache chain new in
      let (valid', found, kept) = copy_chain_lem chain new (u 0) valid (fresh 0) in
      let other : (j k : ℕ) (v : V)
          → chain_value cache (get_or table j []) k ≡ some v
          → chain_value cache chain k ≡ none =
        λ j k v h. elim (Option-cases (chain_value cache chain k)) [
          | inl e ↦ e
          | inr (w, e) ↦
              (let a = own (suc j) k v h in let b = own 0 k w e in absurd (omega (arith, a, b)))
        ] in
      let (valid'', found', kept') =
        copy_existing_lem table at (suc i) next (λ j. u (suc j))
          (λ j k v h. (let a = own (suc j) k v h in omega (arith, a))) valid'
          (λ j k v h. kept k (other j k v h) ∙ fresh (suc j) k v h) in
      (
        valid'',
        λ j k v.
            elim j
              as (λ n.
                chain_value cache (get_or (chain ∷ table) n []) k ≡ some v
                → value_in hash (copy_existing hash cache table next) k ≡ some v) [
                  | zero ↦ (λ h.
                      kept' k (λ n. elim (Option-cases (chain_value cache (get_or table n []) k)) [
                        | inl e ↦ e
                        | inr (w, e) ↦ (let m = other n k w e in ground (arith, m, h))
                      ])
                      ∙ found k v h)
                  | suc n ↦ λ h. found' n k v h
                ],
        λ k h. kept' k (λ j. h (suc j)) ∙ kept k (h 0),
      )
