-- ===== src/Dictionary/Removes.antt =====
-- remove of include/llfix/core/utilities/dictionary.h as an operation on a map.
use llfix.Dictionary.Unlinking.{with_chain-at, unlinked, unlinked-Valid}
use llfix.Dictionary.Laws.{get_lem}
use llfix.Dictionary.Updates.{found_node}
use llfix.Dictionary.Compaction.{
  Corresponds-Valid, Corresponds-kept, Corresponds, relink-Corresponds, moved-other, All-both,
}
use llfix.Dictionary.Removal.{absent}
use llfix.Dictionary.Chains.{chain_value, get_elem?-take, get_elem?-some, get_elem?-bound}
use llfix.Dictionary.Growth.{Valid, slot, chain_at, value_in}
use llfix.Dictionary.{
  Dictionary, find_place, move_last, compact, relink, get, remove, has_key, find_node,
}
use llfix.Common.{
  ℕ, false, refl, sym, ap, subst, inl, inr, none, some, arith, if◌then◌else◌, get_elem?, set, All,
  Bool-cases, Option-cases, ◌≡◌, ◌∙◌, ◌==◌, length-set, ◌<◌, length, true, ◌-◌, take, ◌⊎◌,
}

module _ {V : Type 0} (hash : ℕ → ℕ) where
  -- Moving the last node to a place that no chain has changes no value.
  compact_lem :
      (d : Dictionary V) (p : ℕ)
      → Valid hash d
      → p < length d.node_cache
      → ((i : ℕ) → All (λ q. (q == p) ≡ false) (chain_at hash d i))
      → let t = compact hash d p in Valid hash t × ((k : ℕ) → value_in hash t k ≡ value_in hash d k)
  unfolding move_last
  compact_lem d p valid low away =
      let cache = d.node_cache in
      let last = length cache - 1 in
      elim (Bool-cases (p == last)) [
        | inl e ↦
            (let same : (q : ℕ)
                  → (q == p) ≡ false
                  → q < length cache
                  → get_elem? (take last cache) q ≡ get_elem? cache q =
                λ q ne h. get_elem?-take last q cache (ground (arith, e, ne, h)) in
              let t : Dictionary V = record d { node_cache = take last cache } in
              rw e (
                Corresponds-Valid hash d t valid refl (λ i.
                  Corresponds-kept cache (take last cache) (λ q. (q == p) ≡ false)
                    (chain_at hash d i) same (valid.unique i) (away i))))
        | inr e ↦
            (let (node, at) = get_elem?-some cache last (omega (arith, low)) in
              let index = slot hash d node.key in
              let chain = relink (chain_at hash d index) last p in
              let t : Dictionary V = record {
                table = set d.table index chain;
                node_cache = take last (set cache p node);
              } in
              let below : p < last = ground (arith, e, low) in
              let chains : (i : ℕ)
                  → Corresponds cache t.node_cache (chain_at hash d i) (chain_at hash t i) =
                λ i.
                  subst (Corresponds cache t.node_cache (chain_at hash d i))
                    (sym (with_chain-at hash d valid node.key i chain))
                    (elim (Bool-cases (index == i)) [
                      | inl h ↦
                          (let same : index ≡ i = ground (arith, h) in
                            rw h (
                              subst (λ j. Corresponds cache t.node_cache (chain_at hash d j) chain)
                                same
                                (relink-Corresponds hash cache p node (chain_at hash d index) below
                                  at (valid.unique index) (away index))))
                      | inr h ↦
                          (let gone : chain_value cache (chain_at hash d i) node.key ≡ none =
                              elim (Option-cases (chain_value cache (chain_at hash d i) node.key)) [
                                | inl f ↦ f
                                | inr (w, f) ↦
                                    (let own = valid.hashed i node.key w f in
                                      absurd (ground (arith, own, h)))
                              ] in
                            rw h (
                              Corresponds-kept cache t.node_cache
                                (λ q. ((q == p) ≡ false) × ((q == last) ≡ false))
                                (chain_at hash d i) (moved-other hash cache p node) (valid.unique i)
                                (All-both _ _ (chain_at hash d i) (away i) (
                                  absent cache last node at (chain_at hash d i) (valid.unique i)
                                    gone))))
                    ]) in
              rw (e, at) (Corresponds-Valid hash d t valid (length-set d.table index chain) chains))
      ]

  abbrev pub IsRemoved : Dictionary V → ℕ → Dictionary V → Type 0
  IsRemoved d key t =
      Valid hash t
      × ((k : ℕ) → get hash t k ≡ (if key == k then none else get hash d k))
      × ((has_key hash d key ≡ true) ⊎ (t ≡ d))

  -- A key that is removed from a well-formed table is gone, all other keys have the values that they had,
  -- although the last node of the cache moves to the place that became free, and the table stays
  -- well-formed. Removing a key that is not there changes nothing.
  pub remove_lem : (d : Dictionary V) (key : ℕ) → Valid hash d → IsRemoved d key (remove hash d key)
  unfolding remove find_place has_key get
  remove_lem d key valid =
      elim (Option-cases (find_node d.node_cache (chain_at hash d (slot hash d key)) key)) [
        | inl h ↦
            (let step : remove hash d key ≡ d = rw (h, remove, find_place) refl in
              let gone : get hash d key ≡ none = rw (h, get, find_place) refl in
              subst (IsRemoved d key) (sym step) (
                valid,
                λ k. elim (Bool-cases (key == k)) [
                  | inl e ↦
                      (let same : key ≡ k = ground (arith, e) in
                        let here = subst (λ x. get hash d x ≡ none) same gone in
                        ground (arith, e, here))
                  | inr e ↦ ground (arith, e)
                ],
                inr refl,
              ))
        | inr (p, h) ↦
            (let (n, at, same) =
                found_node hash d.node_cache (chain_at hash d (slot hash d key)) key p h in
              let found = subst (λ x. find_place hash d x ≡ some p) (sym same) h in
              let u = unlinked hash d valid n.key p in
              let (valid', values, away) = unlinked-Valid hash d valid p n at found in
              let (valid'', kept) =
                compact_lem u p valid' (get_elem?-bound d.node_cache p n at) away in
              let t = compact hash u p in
              let step : remove hash d key ≡ t =
                rw (h, remove, find_place)
                  (ap (λ x. compact hash (unlinked hash d valid x p) p) (sym same)) in
              subst (IsRemoved d key) (sym step) (
                valid'',
                λ k.
                    get_lem hash t k
                    ∙ kept k
                    ∙ values k
                    ∙ ap (λ x. if x == k then none else value_in hash d k) same
                    ∙ ap (λ x. if key == k then none else x) (sym (get_lem hash d k)),
                inl (rw (h, has_key, find_place) refl),
              ))
      ]
