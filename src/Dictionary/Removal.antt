-- ===== src/Dictionary/Removal.antt =====
-- Unlinking a node of include/llfix/core/utilities/dictionary.h, and moving the last one.
use mathlib.Core.Option
use llfix.Dictionary.Chains.{chain_value, chain_value-cons, Bounded, find_node-cons}
use llfix.Dictionary.{DictionaryNode, unlink, find_node}
use llfix.Dictionary.Growth.{ended, linked, Unique}
use llfix.Common.{
  ℕ, false, refl, sym, ap, subst, inl, inr, none, some, List, [], arith, if◌then◌else◌, get_elem?,
  All, Bool-cases, ◌≡◌, ◌∙◌, ◌∷◌, ◌==◌,
}

module _ {V : Type 0} (cache : List (DictionaryNode V)) (p : ℕ) (n : DictionaryNode V)
    (at : get_elem? cache p ≡ some n) where
  -- A chain without the key of a place has not the place.
  pub absent :
      (chain : List ℕ)
      → Unique cache chain
      → chain_value cache chain n.key ≡ none
      → All (λ q. (q == p) ≡ false) chain
  absent [] u h = tt
  absent (q ∷ chain) (linked {node = node} e f u) h =
      let c = chain_value-cons cache q chain n.key node e in
      let ih = absent chain u in
      elim (Bool-cases (node.key == n.key)) [
        | inl k ↦ absurd (ground (arith, k, c, h))
        | inr k ↦ (
          elim (Bool-cases (q == p)) [
            | inr ne ↦ ne
            | inl here ↦
                (let same : q ≡ p = ground (arith, here) in
                  let w : node ≡ n =
                    Option.some-injective _ _ (sym e ∙ ap (get_elem? cache) same ∙ at) in
                  let key = ap (λ (x : DictionaryNode V). x.key) w in
                  absurd (ground (arith, k, key)))
          ],
          ih (ground (arith, k, c, h)),
        )
      ]

  unlink-none :
      (chain : List ℕ) (k : ℕ)
      → chain_value cache chain k ≡ none
      → Unique cache chain
      → chain_value cache (unlink chain p) k ≡ none
  unfolding unlink chain_value
  unlink-none [] k h u = refl
  unlink-none (q ∷ chain) k h (linked {node = node} e f u) =
      let c = chain_value-cons cache q chain k node e in
      let ih = unlink-none chain k in
      elim (Bool-cases (node.key == k)) [
        | inl a ↦ absurd (ground (arith, a, c, h))
        | inr a ↦
            (let rest : chain_value cache chain k ≡ none = ground (arith, a, c, h) in
              elim (Bool-cases (q == p)) [
                | inl b ↦ rw (b, unlink) rest
                | inr b ↦
                    rw (b, unlink)
                      (chain_value-cons cache q (unlink chain p) k node e
                        ∙ ap
                            (λ x.
                              if x then some node.value else chain_value cache (unlink chain p) k)
                            a
                        ∙ ih rest u)
              ])
      ]

  pub unlink-other :
      (chain : List ℕ) (k : ℕ)
      → (n.key == k) ≡ false
      → Unique cache chain
      → chain_value cache (unlink chain p) k ≡ chain_value cache chain k
  unfolding unlink chain_value
  unlink-other [] k ne u = refl
  unlink-other (q ∷ chain) k ne (linked {node = node} e f u) =
      let c = chain_value-cons cache q chain k node e in
      elim (Bool-cases (q == p)) [
        | inl b ↦
            (let same : q ≡ p = ground (arith, b) in
              let w : node ≡ n =
                Option.some-injective _ _ (sym e ∙ ap (get_elem? cache) same ∙ at) in
              let key = ap (λ (x : DictionaryNode V). x.key) w in
              rw (b, unlink) (ground (arith, ne, key, c)))
        | inr b ↦
            rw (b, unlink)
              (chain_value-cons cache q (unlink chain p) k node e
                ∙ ap (λ x. if node.key == k then some node.value else x) (unlink-other chain k ne u)
                ∙ sym c)
      ]

  pub unlink-Unique : (chain : List ℕ) → Unique cache chain → Unique cache (unlink chain p)
  unfolding unlink
  unlink-Unique [] u = ended
  unlink-Unique (q ∷ chain) (linked {node = node} e f u) = elim (Bool-cases (q == p)) [
    | inl b ↦ rw (b, unlink) u
    | inr b ↦ rw (b, unlink) (linked e (unlink-none chain node.key f u) (unlink-Unique chain u))
  ]

  pub unlink-Bounded : (chain : List ℕ) → Bounded cache chain → Bounded cache (unlink chain p)
  unfolding unlink
  unlink-Bounded [] h = h
  unlink-Bounded (q ∷ chain) (h, hs) = elim (Bool-cases (q == p)) [
    | inl b ↦ rw (b, unlink) hs
    | inr b ↦ rw (b, unlink) (h, unlink-Bounded chain hs)
  ]

  -- The chain in which the place was found has neither the place nor its key any more.
  pub unlink-gone :
      (chain : List ℕ)
      → Unique cache chain
      → find_node cache chain n.key ≡ some p
      → (chain_value cache (unlink chain p) n.key ≡ none)
        × All (λ q. (q == p) ≡ false) (unlink chain p)
  unfolding unlink find_node
  unlink-gone [] u h = absurd (ground (arith, h))
  unlink-gone (q ∷ chain) (linked {node = node} e f u) h =
      let c = find_node-cons cache q chain n.key node e in
      elim (Bool-cases (q == p)) [
        | inl b ↦
            (let same : q ≡ p = ground (arith, b) in
              let w : node ≡ n =
                Option.some-injective _ _ (sym e ∙ ap (get_elem? cache) same ∙ at) in
              let gone =
                subst (λ (x : DictionaryNode V). chain_value cache chain x.key ≡ none) w f in
              rw (b, unlink) (gone, absent chain u gone))
        | inr b ↦
            (let other : (node.key == n.key) ≡ false = elim (Bool-cases (node.key == n.key)) [
              | inl k ↦ absurd (ground (arith, k, c, h, b))
              | inr k ↦ k
            ] in
              let (value, places) = unlink-gone chain u (ground (arith, other, c, h)) in
              rw (b, unlink)
                (
                  chain_value-cons cache q (unlink chain p) n.key node e
                      ∙ ap
                          (λ x.
                            if x then some node.value else chain_value cache (unlink chain p) n.key)
                          other
                      ∙ value,
                  (b, places),
                ))
      ]
