-- ===== src/Parser/Tags.antt =====
-- The tags of a message after the parser of include/llfix/fix_client.h stored a field.
use llfix.Parser.Values.{stored}
use llfix.Message.Tags.{tag_value-set_tag}
use llfix.Message.{
  tag_value, is_some, IncomingFixMessage, has_tag, set_tag, IncomingFixMessage, has_tag, set_tag,
}
use llfix.Parser.{Parsing}
use llfix.Common.{
  List, [], arith, refl, ℕ, ◌≡◌, true, false, ◌==◌, if◌then◌else◌, ◌∷◌, ◌∙◌, Bool, ap, Option, none,
  some, ◌++◌, sym, Bool-cases, inl, inr,
}

-- The value of a tag among fields, the first one if the tag is there more than once.
abbrev pub first_value : List (ℕ × List ℕ) → ℕ → Option (List ℕ)
first_value [] u = none
first_value ((t, v) ∷ fields) u = if t == u then some v else first_value fields u

abbrev pub or_else : Option (List ℕ) → Option (List ℕ) → Option (List ℕ)
or_else none other = other
or_else (some v) other = some v

has_tag_lem : (m : IncomingFixMessage) (t : ℕ) → has_tag m t ≡ is_some (tag_value m t)
unfolding has_tag
has_tag_lem m t = refl

pub or_else-none : (o : Option (List ℕ)) → or_else o none ≡ o
or_else-none none = refl
or_else-none (some v) = refl

pub or_else_assoc :
    (o : Option (List ℕ)) (b : Bool) (v : List ℕ) (other : Option (List ℕ))
    → or_else (or_else o (if b then some v else none)) other
      ≡ or_else o (if b then some v else other)
or_else_assoc none true v other = refl
or_else_assoc none false v other = refl
or_else_assoc (some w) b v other = refl

not_some : (o : Option (List ℕ)) → is_some o ≡ false → o ≡ none
not_some none h = refl
not_some (some v) h = cc

or_else-some : (o other : Option (List ℕ)) → is_some o ≡ true → or_else o other ≡ o
or_else-some none other h = cc
or_else-some (some v) other h = refl

stored_same :
    (m : IncomingFixMessage) (known : Bool) (t u : ℕ) (v : List ℕ)
    → known ≡ is_some (tag_value m u)
    → tag_value (set_tag m t v) u ≡ some v
    → tag_value (if known then m else set_tag m t v) u ≡ or_else (tag_value m u) (some v)
stored_same m true t u v k s = sym (or_else-some (tag_value m u) (some v) (sym k))
stored_same m false t u v k s =
    s ∙ (ap (λ o. or_else o (some v)) (sym (not_some (tag_value m u) (sym k))))

stored_other :
    (m : IncomingFixMessage) (known : Bool) (t u : ℕ) (v : List ℕ)
    → tag_value (set_tag m t v) u ≡ tag_value m u
    → tag_value (if known then m else set_tag m t v) u ≡ or_else (tag_value m u) none
stored_other m true t u v s = sym (or_else-none (tag_value m u))
stored_other m false t u v s = s ∙ sym (or_else-none (tag_value m u))

pub stored-tag_value :
    (p : Parsing) (t u : ℕ) (v : List ℕ)
    → tag_value (stored p t v) u ≡ or_else (tag_value p.message u) (if t == u then some v else none)
stored-tag_value p t u v =
    let s = tag_value-set_tag p.message t u v in
    let known = has_tag_lem p.message t in
    elim (Bool-cases (t == u)) [
      | inl e ↦
          (let same : t ≡ u = ground (arith, e) in
            let k = known ∙ ap (λ k. is_some (tag_value p.message k)) same in
            rw e (stored_same p.message (has_tag p.message t) t u v k (s ∙ (rw e refl))))
      | inr e ↦ rw e (stored_other p.message (has_tag p.message t) t u v (s ∙ (rw e refl)))
    ]

pub first_value-append :
    (fields : List (ℕ × List ℕ)) (t u : ℕ) (v : List ℕ)
    → first_value (fields ++ (t, v) ∷ []) u
      ≡ or_else (first_value fields u) (if t == u then some v else none)
first_value-append [] t u v = refl
first_value-append ((s, w) ∷ fields) t u v = elim (Bool-cases (s == u)) [
  | inl e ↦ rw e refl
  | inr e ↦ rw e (first_value-append fields t u v)
]
