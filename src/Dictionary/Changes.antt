-- ===== src/Dictionary/Changes.antt =====
-- The chains of include/llfix/core/utilities/dictionary.h when a value is changed.
use llfix.Dictionary.Growth.{Unique, linked}
use llfix.Dictionary.Chains.{
  get_elem?-bound, chain_value, Bounded, chain_value-stop, find_node-stop, chain_value-cons,
  find_node-cons,
}
use llfix.Dictionary.{DictionaryNode, find_node}
use mathlib.Core.Option
use llfix.Dictionary.Growth.{ended, linked}
use llfix.Common.{
  eq_self, ℕ, false, refl, subst, inl, inr, none, some, List, arith, get_elem?, set, Bool-cases,
  Option-cases, ◌≡◌, ◌⊎◌, ◌∙◌, ◌==◌, get_elem?-set_ne, get_elem?-set_self, ◌∷◌, All, ◌<◌, sym, ap,
  length-set, [], if◌then◌else◌,
}

module _ {V : Type 0} (cache : List (DictionaryNode V)) (p : ℕ) (n : DictionaryNode V) (v : V)
    (at : get_elem? cache p ≡ some n) where
  -- The cache with another value at the place.
  abbrev changed : List (DictionaryNode V)
  changed = set cache p (record n { value = v })

  look-other : (q : ℕ) → (p == q) ≡ false → get_elem? changed q ≡ get_elem? cache q
  look-other q ne = get_elem?-set_ne cache _ (λ e. ground (arith, e, ne))

  look-here : get_elem? changed p ≡ some (record n { value = v })
  look-here = get_elem?-set_self cache p _ (get_elem?-bound cache p n at)

  -- What a place holds in both caches.
  look :
      (q : ℕ)
      → ((get_elem? cache q ≡ none) × (get_elem? changed q ≡ none))
        ⊎ ((node : DictionaryNode V) × (get_elem? cache q ≡ some node)
            × (get_elem? changed q ≡ some node))
        ⊎ ((p ≡ q)
            × (get_elem? cache q ≡ some n)
            × (get_elem? changed q ≡ some (record n { value = v })))
  look q = elim (Bool-cases (p == q)) [
    | inl e ↦
        (let same : p ≡ q = ground (arith, e) in
          inr (
            inr (
              same,
              subst (λ x. get_elem? cache x ≡ some n) same at,
              subst (λ x. get_elem? changed x ≡ some (record n { value = v })) same look-here,
            )))
    | inr ne ↦ elim (Option-cases (get_elem? cache q)) [
      | inl h ↦ inl (h, look-other q ne ∙ h)
      | inr (node, h) ↦ inr (inl (node, h, look-other q ne ∙ h))
    ]
  ]

  -- Other keys have the values that they had.
  pub value-other :
      (chain : List ℕ) (k : ℕ)
      → (n.key == k) ≡ false
      → chain_value changed chain k ≡ chain_value cache chain k
  unfolding chain_value
  value-other [] k ne = refl
  value-other (q ∷ chain) k ne =
      let ih = value-other chain k ne in
      elim (look q) [
        | inl (a, b) ↦
            chain_value-stop changed q chain k b ∙ sym (chain_value-stop cache q chain k a)
        | inr (inl (node, a, b)) ↦
            chain_value-cons changed q chain k node b
            ∙ ap (λ x. if node.key == k then some node.value else x) ih
            ∙ sym (chain_value-cons cache q chain k node a)
        | inr (inr (e, a, b)) ↦
            (let c = chain_value-cons changed q chain k (record n { value = v }) b in
              let d = chain_value-cons cache q chain k n a in ground (arith, ne, c, d, ih))
      ]

  -- A chain without the key of the place stays one.
  pub value-none :
      (chain : List ℕ)
      → chain_value cache chain n.key ≡ none
      → chain_value changed chain n.key ≡ none
  unfolding chain_value
  value-none [] h = refl
  value-none (q ∷ chain) h =
      let ih = value-none chain in
      let self = eq_self n.key in
      elim (look q) [
        | inl (a, b) ↦ chain_value-stop changed q chain n.key b
        | inr (inl (node, a, b)) ↦
            (let c = chain_value-cons changed q chain n.key node b in
              let d = chain_value-cons cache q chain n.key node a in
              elim (Bool-cases (node.key == n.key)) [
                | inl k ↦ ground (arith, k, d, h)
                | inr k ↦
                    (let rest : chain_value cache chain n.key ≡ none = ground (arith, k, d, h) in
                      let r = ih rest in ground (arith, k, c, r))
              ])
        | inr (inr (e, a, b)) ↦
            (let d = chain_value-cons cache q chain n.key n a in ground (arith, self, d, h))
      ]

  -- The chain in which the place is found has the new value.
  pub value-found :
      (chain : List ℕ)
      → find_node cache chain n.key ≡ some p
      → chain_value changed chain n.key ≡ some v
  unfolding chain_value find_node
  value-found [] h = ground (arith, h)
  value-found (q ∷ chain) h =
      let ih = value-found chain in
      let self = eq_self n.key in
      elim (look q) [
        | inl (a, b) ↦ (let d = find_node-stop cache q chain n.key a in ground (arith, d, h))
        | inr (inl (node, a, b)) ↦
            (let c = chain_value-cons changed q chain n.key node b in
              let d = find_node-cons cache q chain n.key node a in
              elim (Bool-cases (node.key == n.key)) [
                | inl k ↦
                    (let same : q ≡ p = ground (arith, k, d, h) in
                      let here = subst (λ x. get_elem? changed x ≡ some node) same b in
                      let w : node ≡ record n { value = v } =
                        Option.some-injective _ _ (sym here ∙ look-here) in
                      let value = ap (λ (x : DictionaryNode V). x.value) w in
                      ground (arith, k, c, value))
                | inr k ↦
                    (let rest : find_node cache chain n.key ≡ some p = ground (arith, k, d, h) in
                      let r = ih rest in ground (arith, k, c, r))
              ])
        | inr (inr (e, a, b)) ↦
            (let c = chain_value-cons changed q chain n.key (record n { value = v }) b in
              ground (arith, self, c))
      ]

  pub changed-Unique : (chain : List ℕ) → Unique cache chain → Unique changed chain
  changed-Unique [] ended = ended
  changed-Unique (q ∷ chain) (linked {node = node} e f u) =
      let rest : chain_value changed chain node.key ≡ none = elim (Bool-cases (n.key == node.key)) [
        | inr ne ↦ value-other chain node.key ne ∙ f
        | inl k ↦
            (let same : n.key ≡ node.key = ground (arith, k) in
              subst (λ x. chain_value changed chain x ≡ none) same
                (value-none chain (subst (λ x. chain_value cache chain x ≡ none) (sym same) f)))
      ] in
      elim (look q) [
        | inl (a, b) ↦ absurd (ground (arith, a, e))
        | inr (inl (other, a, b)) ↦ linked (b ∙ sym a ∙ e) rest (changed-Unique chain u)
        | inr (inr (here, a, b)) ↦
            (let w : n ≡ node = Option.some-injective _ _ (sym a ∙ e) in
              let key = ap (λ (x : DictionaryNode V). x.key) w in
              linked b (subst (λ x. chain_value changed chain x ≡ none) (sym key) rest)
                (changed-Unique chain u))
      ]

  pub changed-Bounded : (chain : List ℕ) → Bounded cache chain → Bounded changed chain
  changed-Bounded chain h =
      subst (λ size. All (λ q. q < size) chain) (sym (length-set cache p (record n { value = v })))
        h
