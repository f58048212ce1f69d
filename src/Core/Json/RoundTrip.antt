-- ===== src/Core/Json/RoundTrip.antt =====
-- Reading back the JSON text of a card.
use karta_cards_vera.Common.{
  ℕ, ◌+◌, ◌*◌, ◌/◌, ◌%◌, ◌<◌, ◌≡◌, refl, Option, none, some, false, [], ◌∷◌, ◌++◌, Text, ltb, eqb,
  arith, append_assoc, inl, inr, Bool-cases, Option-cases, ltb→lt,
}
use karta_cards_vera.Core.Json.{
  quote, backslash, short_escape, short_unescape, hex_digit, hex_value, escape_unit, escape, plain,
  push, read_string, after_prefix, cvc_part, stringify_card, parse_cvc, parse_card,
}

hex_value-digit : (d : ℕ) → d < 16 → hex_value (hex_digit d) ≡ some d
hex_value-digit d h = ground arith

short_unescape-escape : (c e : ℕ) → short_escape c ≡ some e → short_unescape e ≡ some c
short_unescape-escape c e h = ground arith

short_escape-none :
    (c : ℕ) → short_escape c ≡ none → (eqb c quote ≡ false) × (eqb c backslash ≡ false)
short_escape-none c h = (ground arith, ground arith)

read_string-short :
    (c e : ℕ) (rest : Text)
    → short_unescape e ≡ some c
    → read_string plain (backslash ∷ e ∷ rest) ≡ push c (read_string plain rest)
unfolding read_string
read_string-short c e rest h = rw h

read_string-hex :
    (c : ℕ) (rest : Text)
    → c < 32
    → read_string plain
        (backslash ∷ b'u' ∷ b'0' ∷ b'0' ∷ hex_digit (c / 16) ∷ hex_digit (c % 16) ∷ rest)
      ≡ push c (read_string plain rest)
unfolding read_string
read_string-hex c rest h =
    let high = hex_value-digit (c / 16) (omega arith) in
    let low = hex_value-digit (c % 16) (omega arith) in
    let whole : (0 + c / 16) * 16 + c % 16 ≡ c = omega arith in rw (high, low, whole)

read_string-plain :
    (c : ℕ) (rest : Text)
    → short_escape c ≡ none
    → ltb c 32 ≡ false
    → read_string plain (c ∷ rest) ≡ push c (read_string plain rest)
unfolding read_string
read_string-plain c rest h k =
    let (no_quote, no_backslash) = short_escape-none c h in
    rw (no_quote, no_backslash, k, read_string)

-- One escaped character is read back, whatever follows.
read_string-escape_unit :
    (c : ℕ) (rest : Text)
    → read_string plain (escape_unit c ++ rest) ≡ push c (read_string plain rest)
unfolding escape_unit
read_string-escape_unit c rest = elim (Option-cases (short_escape c)) [
  | inr (e, h) ↦ rw (h, escape_unit) (read_string-short c e rest (short_unescape-escape c e h))
  | inl h ↦ elim (Bool-cases (ltb c 32)) [
    | inl small ↦ rw (h, small, escape_unit) (read_string-hex c rest (ltb→lt c 32 small))
    | inr large ↦ rw (h, large, escape_unit) (read_string-plain c rest h large)
  ]
]

read_string-escape :
    (s rest : Text) → read_string plain (escape s ++ (quote ∷ rest)) ≡ some (s, rest)
unfolding escape
read_string-escape [] rest = unfold read_string in refl
read_string-escape (c ∷ s) rest = rw (
  append_assoc (escape_unit c) (escape s) (quote ∷ rest),
  read_string-escape_unit c (escape s ++ (quote ∷ rest)),
  read_string-escape s rest,
)

parse_cvc-part : (cvc : Option Text) → parse_cvc (cvc_part cvc) ≡ some cvc
unfolding after_prefix
parse_cvc-part none = refl
parse_cvc-part (some cvc) = rw (read_string-escape cvc (b'}' ∷ []))

-- The JSON text of a card number and an optional CVC is parsed back to both.
pub parse_card-stringify :
    (pan : Text) (cvc : Option Text) → parse_card (stringify_card pan cvc) ≡ some (pan, cvc)
unfolding parse_card stringify_card
parse_card-stringify pan cvc =
    rw (read_string-escape pan (cvc_part cvc), parse_cvc-part cvc, parse_card)
