-- ===== src/Parser/Rounds.antt =====
-- Where the messages end that the parser of include/llfix/fix_client.h finds.
use llfix.Parser.Fields.{go_on, parse_step}
use llfix.Common.{
  ℕ, zero, suc, Bool, true, false, refl, sym, ap, some, List, [], arith, length, drop, ◌+◌, ◌≤◌,
  ◌<◌, ◌≡◌, ◌∙◌, ◌∷◌,
}
use llfix.GroupSpecs.{IncomingFixRepeatingGroupSpecs}
use llfix.Parser.{Parsing, parse_char, parse_message}

-- An index behind `index` and before the end of as many bytes as there are behind it.
abbrev pub Within : ℕ → ℕ → ℕ → Type 0
Within index n e = (index ≤ e) × (e < index + n)

go_on-Within :
    (specs : IncomingFixRepeatingGroupSpecs) (x : Parsing × Bool) (index e : ℕ) (cs : List ℕ)
    → ((q : Parsing)
        → (parse_message specs q (index + 1) cs).1 ≡ some e
        → Within (index + 1) (length cs) e)
    → (go_on specs x index cs).1 ≡ some e
    → Within index (suc (length cs)) e
go_on-Within specs (q, true) index e cs ih h = ground arith
go_on-Within specs (q, false) index e cs ih h = let (a, b) = ih q h in (omega arith, omega arith)

pub parse_message-Within :
    (specs : IncomingFixRepeatingGroupSpecs) (bytes : List ℕ) (p : Parsing) (index e : ℕ)
    → (parse_message specs p index bytes).1 ≡ some e
    → Within index (length bytes) e
unfolding parse_message
parse_message-Within specs [] p index e h = cc
parse_message-Within specs (c ∷ cs) p index e h =
    let step = ap (λ r. r.1) (parse_step specs p index c cs) in
    go_on-Within specs (parse_char specs p index c) index e cs
      (λ q. parse_message-Within specs cs q (index + 1) e) (sym step ∙ h)

pub drop-all : (n : ℕ) (xs : List ℕ) → length xs ≤ n → drop n xs ≡ []
drop-all zero [] h = refl
drop-all (suc n) [] h = refl
drop-all zero (x ∷ xs) h = absurd (omega arith)
drop-all (suc n) (x ∷ xs) h = drop-all n xs (omega arith)
