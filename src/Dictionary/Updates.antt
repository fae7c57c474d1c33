-- ===== src/Dictionary/Updates.antt =====
-- set_existing_item and has_key of include/llfix/core/utilities/dictionary.h.
use llfix.Dictionary.Changes.{value-other, changed-Bounded, value-none, changed-Unique, value-found}
use llfix.Dictionary.Growth.{Valid, value_in, chain_at, slot}
use llfix.Dictionary.Chains.{chain_value, find_node-stop, find_node-cons}
use llfix.Dictionary.{
  DictionaryNode, find_node, find_place, Dictionary, set_existing_item, has_key, get, set_value,
}
use llfix.Dictionary.Laws.{get_lem}
use llfix.Common.{
  ℕ, false, refl, subst, inl, inr, none, some, List, arith, get_elem?, set, Bool-cases,
  Option-cases, ◌≡◌, ◌⊎◌, ◌∙◌, ◌==◌, ◌∷◌, sym, ap, [], if◌then◌else◌, true, Bool,
}

module _ {V : Type 0} (hash : ℕ → ℕ) where
  -- The place that is found holds the key.
  pub found_node :
      (cache : List (DictionaryNode V)) (chain : List ℕ) (key p : ℕ)
      → find_node cache chain key ≡ some p
      → (n : DictionaryNode V) × (get_elem? cache p ≡ some n) × (n.key ≡ key)
  unfolding find_node
  found_node cache [] key p h = absurd (ground (arith, h))
  found_node cache (q ∷ chain) key p h = elim (Option-cases (get_elem? cache q)) [
    | inl e ↦ (let d = find_node-stop cache q chain key e in absurd (ground (arith, d, h)))
    | inr (node, e) ↦
        (let d = find_node-cons cache q chain key node e in
          elim (Bool-cases (node.key == key)) [
            | inl k ↦
                (let same : q ≡ p = ground (arith, k, d, h) in
                  (node, subst (λ x. get_elem? cache x ≡ some node) same e, ground (arith, k)))
            | inr k ↦ found_node cache chain key p (ground (arith, k, d, h))
          ])
  ]

  change_lem :
      (d : Dictionary V) (p : ℕ) (n : DictionaryNode V) (v : V)
      → Valid hash d
      → get_elem? d.node_cache p ≡ some n
      → find_place hash d n.key ≡ some p
      → let t : Dictionary V = record d {
        node_cache = set d.node_cache p (record n { value = v });
      } in
        Valid hash t
        × ((k : ℕ) → value_in hash t k ≡ (if n.key == k then some v else value_in hash d k))
  unfolding find_place
  change_lem d p n v valid at found =
      let cache = d.node_cache in
      let new = set cache p (record n { value = v }) in
      let other = λ (i k : ℕ). value-other cache p n v at (chain_at hash d i) k in
      (
        record {
          pos = valid.pos;
          bounded = λ i. changed-Bounded cache p n v at (chain_at hash d i) (valid.bounded i);
          hashed = λ i k w h. elim (Bool-cases (n.key == k)) [
            | inr ne ↦ valid.hashed i k w (sym (other i k ne) ∙ h)
            | inl e ↦ elim (Option-cases (chain_value cache (chain_at hash d i) k)) [
              | inr (old, f) ↦ valid.hashed i k old f
              | inl f ↦
                  (let same : n.key ≡ k = ground (arith, e) in
                    let gone =
                      value-none cache p n v at (chain_at hash d i) (
                        subst (λ x. chain_value cache (chain_at hash d i) x ≡ none) (sym same) f) in
                    let here =
                      subst (λ x. chain_value new (chain_at hash d i) x ≡ none) same gone in
                    absurd (ground (arith, here, h)))
            ]
          ];
          unique = λ i. changed-Unique cache p n v at (chain_at hash d i) (valid.unique i);
        },
        λ k. elim (Bool-cases (n.key == k)) [
          | inr ne ↦ (let o = other (slot hash d k) k ne in ground (arith, ne, o))
          | inl e ↦
              (let f = value-found cache p n v at (chain_at hash d (slot hash d n.key)) found in
                let same : n.key ≡ k = ground (arith, e) in
                (let here =
                    subst (λ x. chain_value new (chain_at hash d (slot hash d x)) x ≡ some v) same
                      f in
                  ground (arith, e, here)))
        ],
      )

  abbrev pub IsUpdated : Dictionary V → ℕ → V → Dictionary V × Bool → Type 0
  IsUpdated d key v r =
      ((has_key hash d key ≡ false) × (r ≡ (d, false)))
      ⊎ ((has_key hash d key ≡ true)
          × (r.1 ≡ true)
          × Valid hash r.0
          × ((k : ℕ) → get hash r.0 k ≡ (if key == k then some v else get hash d k)))

  -- Setting an item that is not there fails and changes nothing. An item that is there, in a well-formed
  -- table, gets the new value; all other values and the well-formedness stay.
  pub set_existing_item_lem :
      (d : Dictionary V) (key : ℕ) (v : V)
      → Valid hash d
      → IsUpdated d key v (set_existing_item hash d key v)
  unfolding set_existing_item has_key find_place
  set_existing_item_lem d key v valid =
      elim (Option-cases (find_node d.node_cache (chain_at hash d (slot hash d key)) key)) [
        | inl h ↦ inl (rw (h, has_key, find_place) refl, rw (h, set_existing_item, find_place) refl)
        | inr (p, h) ↦
            (let (n, at, same) =
                found_node d.node_cache (chain_at hash d (slot hash d key)) key p h in
              let t : Dictionary V = record d {
                node_cache = set d.node_cache p (record n { value = v });
              } in
              let (valid', values) =
                change_lem d p n v valid at
                  (subst (λ x. find_place hash d x ≡ some p) (sym same) h) in
              let step : set_existing_item hash d key v ≡ (t, true) =
                rw (h, set_existing_item, find_place, set_value, at) refl in
              subst (IsUpdated d key v) (sym step) (
                inr (
                  rw (h, has_key, find_place) refl,
                  refl,
                  valid',
                  λ k.
                      get_lem hash t k
                      ∙ values k
                      ∙ ap (λ x. if x == k then some v else value_in hash d k) same
                      ∙ ap (λ x. if key == k then some v else x) (sym (get_lem hash d k)),
                )))
      ]
