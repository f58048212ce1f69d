-- ===== src/Vault/Template.antt =====
-- services/vault/src/vault/template.ts: placeholders filled in with the values of a card.
pub mod Print
use karta_cards_vera.Common.{
  ℕ, zero, suc, ◌+◌, String, Text, codes, Option, none, some, Bool, true, false, ◌&&◌, ◌||◌, List,
  [], ◌∷◌, ◌++◌, eqb, length, is_digit, is_upper, is_lower, text_eq, if◌then◌else◌,
}
use karta_cards_vera.Core.Error.{other}
use karta_cards_vera.Core.Exec.{Outcome, ok, throw}

pub record TemplateValues : Type 0 where
  pub pan : Text
  pub cvc : Option Text
  pub exp_month : Text
  pub exp_year : Text
  pub cardholder_name : Text
  pub last4 : Text
  pub bin : Text

-- `KNOWN` with `values[key]`: no key of the set, or the value, which may be undefined.
unfoldable pub value_of : TemplateValues → Text → Option (Option Text)
value_of v key =
    if text_eq key (codes "pan")
    then some (some v.pan)
    else if text_eq key (codes "cvc")
    then some v.cvc
    else if text_eq key (codes "expMonth")
    then some (some v.exp_month)
    else if text_eq key (codes "expYear")
    then some (some v.exp_year)
    else if text_eq key (codes "cardholderName")
    then some (some v.cardholder_name)
    else if text_eq key (codes "last4")
    then some (some v.last4)
    else if text_eq key (codes "bin")
    then some (some v.bin)
    else none

-- The replacement of a placeholder.
unfoldable pub replacement : TemplateValues → Text → Outcome Text
replacement v key = elim (value_of v key) [
  | none ↦ throw (other "Unknown template placeholder")
  | some none ↦ throw (other "Template placeholder has no value for this vault entry")
  | some (some value) ↦ ok value
]

-- `[a-zA-Z0-9_]`
abbrev pub is_word : ℕ → Bool
is_word c = is_lower c || (is_upper c || (is_digit c || eqb c b'_'))

-- The longest prefix of word characters, and what follows it.
abbrev pub grow : Bool → ℕ → Text → Text × Text → Text × Text
grow true c cs (word, rest) = (c ∷ word, rest)
grow false c cs split = ([], c ∷ cs)

abbrev pub split_word : Text → Text × Text
split_word [] = ([], [])
split_word (c ∷ cs) = grow (is_word c) c cs (split_word cs)

-- The key, where a word is not empty and two closing braces follow.
abbrev pub closed : Text × Text → Option Text
closed (c ∷ word, a ∷ b ∷ rest) = if eqb a b'}' && eqb b b'}' then some (c ∷ word) else none
closed _ = none

-- `PLACEHOLDER_RE` at the head of a text.
abbrev pub placeholder : Text → Option Text
placeholder (a ∷ b ∷ rest) = if eqb a b'{' && eqb b b'{' then closed (split_word rest) else none
placeholder _ = none

abbrev pub join_text : Outcome Text → Outcome Text → Outcome Text
join_text (throw e) _ = throw e
join_text (ok s) (throw e) = throw e
join_text (ok s) (ok t) = ok (s ++ t)

-- `template.replace`: from the left; `skip` characters belong to a placeholder already replaced.
unfoldable pub replace_from : TemplateValues → ℕ → Text → Outcome Text
replace_from v skip [] = ok []
replace_from v (suc skip) (c ∷ cs) = replace_from v skip cs
replace_from v zero (c ∷ cs) = elim (placeholder (c ∷ cs)) [
  | some key ↦ join_text (replacement v key) (replace_from v (length key + 3) cs)
  | none ↦ join_text (ok (c ∷ [])) (replace_from v zero cs)
]

unfoldable pub substitute : Text → TemplateValues → Outcome Text
substitute template v = replace_from v zero template

-- `substituteHeaders`, in the order of the entries.
abbrev pub add_header :
    String → Outcome Text → Outcome (List (String × Text)) → Outcome (List (String × Text))
add_header k (throw e) rest = throw e
add_header k (ok v) (throw e) = throw e
add_header k (ok v) (ok rest) = ok ((k, v) ∷ rest)

unfoldable pub substitute_headers :
    List (String × Text) → TemplateValues → Outcome (List (String × Text))
substitute_headers [] v = ok []
substitute_headers ((k, t) ∷ rest) v = add_header k (substitute t v) (substitute_headers rest v)
