-- ===== src/Dictionary/Compaction.antt =====
-- remove of include/llfix/core/utilities/dictionary.h keeps the node cache compact.
use llfix.Dictionary.Removal.{absent}
use llfix.Dictionary.Chains.{
  chain_value, Bounded, chain_value-cons, get_elem?-bound, get_elem?-take,
}
use llfix.Dictionary.{DictionaryNode, Dictionary, modulo_table_size, relink}
use mathlib.Core.Option
use llfix.Dictionary.Growth.{ended, linked, Unique, Valid, chain_at, value_in, slot}
use llfix.Common.{
  ℕ, refl, sym, ap, subst, none, some, List, [], arith, if◌then◌else◌, length, get_elem?, All, ◌<◌,
  ◌≡◌, ◌∙◌, ◌∷◌, ◌==◌, take, false, ◌-◌, set, Bool-cases, get_elem?-set_ne, get_elem?-set_self, inl,
  inr,
}

-- Two chains of two caches have the same nodes, one after the other.
pub data Corresponds {V : Type 0} (cache new : List (DictionaryNode V))
    : List ℕ → List ℕ → Type 0 where
  both_ended : Corresponds cache new [] []
  both_linked :
      {p q : ℕ} {chain other : List ℕ} {node : DictionaryNode V}
      → get_elem? cache p ≡ some node
      → get_elem? new q ≡ some node
      → Corresponds cache new chain other
      → Corresponds cache new (p ∷ chain) (q ∷ other)

module _ {V : Type 0} (cache new : List (DictionaryNode V)) where
  Corresponds-value :
      (chain other : List ℕ) (k : ℕ)
      → Corresponds cache new chain other
      → chain_value new other k ≡ chain_value cache chain k
  unfolding chain_value
  Corresponds-value [] [] k both_ended = refl
  Corresponds-value [] (q ∷ other) k c = elim c [ ]
  Corresponds-value (p ∷ chain) [] k c = elim c [ ]
  Corresponds-value (p ∷ chain) (q ∷ other) k (both_linked {node = node} e f c) =
      chain_value-cons new q other k node f
      ∙ ap (λ x. if node.key == k then some node.value else x) (Corresponds-value chain other k c)
      ∙ sym (chain_value-cons cache p chain k node e)

  Corresponds-Unique :
      (chain other : List ℕ)
      → Corresponds cache new chain other
      → Unique cache chain
      → Unique new other
  Corresponds-Unique [] [] both_ended u = ended
  Corresponds-Unique [] (q ∷ other) c u = elim c [ ]
  Corresponds-Unique (p ∷ chain) [] c u = elim c [ ]
  Corresponds-Unique (p ∷ chain) (q ∷ other) (both_linked {node = node} e f c)
        (linked {node = node'} e' f' u) =
      let w : node' ≡ node = Option.some-injective _ _ (sym e' ∙ e) in
      let key = ap (λ (x : DictionaryNode V). x.key) w in
      linked f
        (Corresponds-value chain other node.key c
          ∙ subst (λ x. chain_value cache chain x ≡ none) key f')
        (Corresponds-Unique chain other c u)

  Corresponds-Bounded :
      (chain other : List ℕ) → Corresponds cache new chain other → Bounded new other
  Corresponds-Bounded [] [] both_ended = tt
  Corresponds-Bounded [] (q ∷ other) c = elim c [ ]
  Corresponds-Bounded (p ∷ chain) [] c = elim c [ ]
  Corresponds-Bounded (p ∷ chain) (q ∷ other) (both_linked e f c) =
      (get_elem?-bound new q _ f, Corresponds-Bounded chain other c)

  -- A chain whose places hold the same nodes.
  pub Corresponds-kept :
      (P : ℕ → Type 0) (chain : List ℕ)
      → ((q : ℕ) → P q → q < length cache → get_elem? new q ≡ get_elem? cache q)
      → Unique cache chain
      → All P chain
      → Corresponds cache new chain chain
  Corresponds-kept P [] same u h = both_ended
  Corresponds-kept P (q ∷ chain) same (linked {node = node} e f u) (h, hs) =
      both_linked e (same q h (get_elem?-bound cache q node e) ∙ e)
        (Corresponds-kept P chain same u hs)

pub All-both : (P Q : ℕ → Type 0) (xs : List ℕ) → All P xs → All Q xs → All (λ x. P x × Q x) xs
All-both P Q [] h k = tt
All-both P Q (x ∷ xs) (h, hs) (k, ks) = ((h, k), All-both P Q xs hs ks)

module _ {V : Type 0} (hash : ℕ → ℕ) where
  pub Corresponds-Valid :
      (d t : Dictionary V)
      → Valid hash d
      → length t.table ≡ length d.table
      → ((i : ℕ) → Corresponds d.node_cache t.node_cache (chain_at hash d i) (chain_at hash t i))
      → Valid hash t × ((k : ℕ) → value_in hash t k ≡ value_in hash d k)
  Corresponds-Valid d t valid size c =
      let slots = λ (k : ℕ). ap (λ s. modulo_table_size s (hash k)) size in
      let values = λ (i k : ℕ).
        Corresponds-value d.node_cache t.node_cache (chain_at hash d i) (chain_at hash t i) k
          (c i) in
      (
        record {
          pos = (let pos = valid.pos in omega (arith, size, pos));
          bounded = λ i.
              Corresponds-Bounded d.node_cache t.node_cache (chain_at hash d i) (chain_at hash t i)
                (c i);
          hashed = λ i k v h. slots k ∙ valid.hashed i k v (sym (values i k) ∙ h);
          unique = λ i.
              Corresponds-Unique d.node_cache t.node_cache (chain_at hash d i) (chain_at hash t i)
                (c i) (valid.unique i);
        },
        λ k.
            ap (λ i. chain_value t.node_cache (chain_at hash t i) k) (slots k)
            ∙ values (slot hash d k) k,
      )

  -- The last node stands at the free place as well.
  module _ (cache : List (DictionaryNode V)) (current : ℕ) (node : DictionaryNode V) where
    abbrev pub last : ℕ
    last = length cache - 1

    abbrev pub moved : List (DictionaryNode V)
    moved = take last (set cache current node)

    pub moved-other :
        (q : ℕ)
        → ((q == current) ≡ false) × ((q == last) ≡ false)
        → q < length cache
        → get_elem? moved q ≡ get_elem? cache q
    moved-other q (a, b) h =
        get_elem?-take last q (set cache current node) (ground (arith, b, h))
        ∙ get_elem?-set_ne cache node (λ e. ground (arith, a, e))

    moved-here : current < last → get_elem? moved current ≡ some node
    moved-here h =
        get_elem?-take last current (set cache current node) h
        ∙ get_elem?-set_self cache current node (omega (arith, h))

    pub relink-Corresponds :
        (chain : List ℕ)
        → current < last
        → get_elem? cache last ≡ some node
        → Unique cache chain
        → All (λ q. (q == current) ≡ false) chain
        → Corresponds cache moved chain (relink chain last current)
    unfolding relink
    relink-Corresponds [] low at u h = both_ended
    relink-Corresponds (q ∷ chain) low at (linked {node = other} e f u) (h, hs) =
        elim (Bool-cases (q == last)) [
          | inl b ↦
              (let same : q ≡ last = ground (arith, b) in
                let w : other ≡ node =
                  Option.some-injective _ _ (sym e ∙ ap (get_elem? cache) same ∙ at) in
                let gone =
                  subst (λ (x : DictionaryNode V). chain_value cache chain x.key ≡ none) w f in
                let rest =
                  Corresponds-kept cache moved
                    (λ x. ((x == current) ≡ false) × ((x == last) ≡ false)) chain moved-other u
                    (All-both _ _ chain hs (absent cache last node at chain u gone)) in
                rw (b, relink) (both_linked (ap (get_elem? cache) same ∙ at) (moved-here low) rest))
          | inr b ↦
              rw (b, relink)
                (both_linked e (moved-other q (h, b) (get_elem?-bound cache q other e) ∙ e)
                  (relink-Corresponds chain low at u hs))
        ]
