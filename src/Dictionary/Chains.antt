-- ===== src/Dictionary/Chains.antt =====
-- What a chain of include/llfix/core/utilities/dictionary.h holds.
use llfix.Dictionary.{DictionaryNode, find_node, value_at}
use llfix.Common.{
  take, ℕ, zero, suc, refl, ap, inl, inr, Option, none, some, List, [], arith, if◌then◌else◌,
  length, get_elem?, get_or, set, length-append, All, Bool-cases, Option-cases, ◌<◌, ◌≡◌, ◌++◌, ◌∷◌,
  ◌==◌, ◌∙◌, sym,
}

pub get_or-set {ℓ} :
    {A : Type ℓ} (xs : List A) (i j : ℕ) (v d : A)
    → i < length xs
    → get_or (set xs i v) j d ≡ (if i == j then v else get_or xs j d)
get_or-set [] i j v d h = elim h [ ]
get_or-set (x ∷ xs) zero zero v d h = refl
get_or-set (x ∷ xs) zero (suc j) v d h = ground arith
get_or-set (x ∷ xs) (suc i) zero v d h = ground arith
get_or-set (x ∷ xs) (suc i) (suc j) v d h =
    let e = get_or-set xs i j v d (omega arith) in ground (arith, e)

pub get_elem?-append {ℓ} :
    {A : Type ℓ} (xs ys : List A) (i : ℕ) → i < length xs → get_elem? (xs ++ ys) i ≡ get_elem? xs i
get_elem?-append [] ys i h = elim h [ ]
get_elem?-append (x ∷ xs) ys zero h = refl
get_elem?-append (x ∷ xs) ys (suc i) h = get_elem?-append xs ys i (omega arith)

pub get_elem?-last {ℓ} :
    {A : Type ℓ} (xs : List A) (y : A) → get_elem? (xs ++ y ∷ []) (length xs) ≡ some y
get_elem?-last [] y = refl
get_elem?-last (x ∷ xs) y = get_elem?-last xs y

pub get_elem?-take {ℓ} :
    {A : Type ℓ} (n i : ℕ) (xs : List A) → i < n → get_elem? (take n xs) i ≡ get_elem? xs i
get_elem?-take zero i xs h = absurd (omega arith)
get_elem?-take (suc n) i [] h = refl
get_elem?-take (suc n) zero (x ∷ xs) h = refl
get_elem?-take (suc n) (suc i) (x ∷ xs) h = get_elem?-take n i xs (omega arith)

pub get_elem?-bound {ℓ} :
    {A : Type ℓ} (xs : List A) (i : ℕ) (a : A) → get_elem? xs i ≡ some a → i < length xs
get_elem?-bound [] i a h = ground (arith, h)
get_elem?-bound (x ∷ xs) zero a h = omega arith
get_elem?-bound (x ∷ xs) (suc i) a h = let e = get_elem?-bound xs i a h in omega (arith, e)

pub get_elem?-some {ℓ} :
    {A : Type ℓ} (xs : List A) (i : ℕ) → i < length xs → (a : A) × (get_elem? xs i ≡ some a)
get_elem?-some [] i h = elim h [ ]
get_elem?-some (x ∷ xs) zero h = (x, refl)
get_elem?-some (x ∷ xs) (suc i) h = get_elem?-some xs i (omega arith)

module _ {V : Type 0} where
  -- The value of the first node of a chain with the key.
  unfoldable pub chain_value : List (DictionaryNode V) → List ℕ → ℕ → Option V
  chain_value cache [] key = none
  chain_value cache (p ∷ chain) key = elim (get_elem? cache p) [
    | none ↦ none
    | some node ↦ if node.key == key then some node.value else chain_value cache chain key
  ]

  pub chain_value-cons :
      (cache : List (DictionaryNode V)) (p : ℕ) (chain : List ℕ) (key : ℕ) (node : DictionaryNode V)
      → get_elem? cache p ≡ some node
      → chain_value cache (p ∷ chain) key
        ≡ (if node.key == key then some node.value else chain_value cache chain key)
  unfolding chain_value
  chain_value-cons cache p chain key node h = rw (h, chain_value) refl

  pub chain_value-stop :
      (cache : List (DictionaryNode V)) (p : ℕ) (chain : List ℕ) (key : ℕ)
      → get_elem? cache p ≡ none
      → chain_value cache (p ∷ chain) key ≡ none
  unfolding chain_value
  chain_value-stop cache p chain key h = rw (h, chain_value) refl

  pub find_node-cons :
      (cache : List (DictionaryNode V)) (p : ℕ) (chain : List ℕ) (key : ℕ) (node : DictionaryNode V)
      → get_elem? cache p ≡ some node
      → find_node cache (p ∷ chain) key
        ≡ (if node.key == key then some p else find_node cache chain key)
  unfolding find_node
  find_node-cons cache p chain key node h = rw (h, find_node) refl

  pub find_node-stop :
      (cache : List (DictionaryNode V)) (p : ℕ) (chain : List ℕ) (key : ℕ)
      → get_elem? cache p ≡ none
      → find_node cache (p ∷ chain) key ≡ none
  unfolding find_node
  find_node-stop cache p chain key h = rw (h, find_node) refl

  pub value_at-find_node :
      (cache : List (DictionaryNode V)) (chain : List ℕ) (key : ℕ)
      → value_at cache (find_node cache chain key) ≡ chain_value cache chain key
  unfolding find_node chain_value
  value_at-find_node cache [] key = refl
  value_at-find_node cache (p ∷ chain) key =
      let e = value_at-find_node cache chain key in
      elim (Option-cases (get_elem? cache p)) [
        | inl h ↦ rw (h, find_node, chain_value, value_at) refl
        | inr (node, h) ↦ elim (Bool-cases (node.key == key)) [
          | inl k ↦ rw (h, find_node, chain_value, k, value_at, h) refl
          | inr k ↦ rw (h, find_node, chain_value, k) e
        ]
      ]

  -- The places of a chain are in use.
  abbrev pub Bounded : List (DictionaryNode V) → List ℕ → Type 0
  Bounded cache chain = All (λ p. p < length cache) chain

  pub Bounded-append :
      (cache new : List (DictionaryNode V)) (chain : List ℕ)
      → Bounded cache chain
      → Bounded (cache ++ new) chain
  Bounded-append cache new [] h = h
  Bounded-append cache new (p ∷ chain) (h, hs) =
      let e = length-append cache new in (omega arith, Bounded-append cache new chain hs)

  pub chain_value-append :
      (cache new : List (DictionaryNode V)) (chain : List ℕ) (key : ℕ)
      → Bounded cache chain
      → chain_value (cache ++ new) chain key ≡ chain_value cache chain key
  unfolding chain_value
  chain_value-append cache new [] key h = refl
  chain_value-append cache new (p ∷ chain) key (h, hs) =
      let (node, f) = get_elem?-some cache p h in
      chain_value-cons (cache ++ new) p chain key node (get_elem?-append cache new p h ∙ f)
      ∙ ap (λ x. if node.key == key then some node.value else x)
          (chain_value-append cache new chain key hs)
      ∙ sym (chain_value-cons cache p chain key node f)
