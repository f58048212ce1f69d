-- ===== src/Core/Json.antt =====
-- The JSON text of the pair { pan, cvc } that services/vault/src/vault/store.service.ts encrypts:
-- `JSON.stringify` of that object, and `JSON.parse` of such a text. Text is a list of UTF-16 code
-- units; a lone surrogate, which `JSON.stringify` would escape, is written as it is.
pub mod RoundTrip
use karta_cards_vera.Common.{
  ℕ, zero, suc, ◌+◌, ◌-◌, ◌*◌, ◌/◌, ◌%◌, Option, none, some, ◌&&◌, [], ◌∷◌, ◌++◌, Text, ltb, leb,
  eqb, is_digit, text_eq, if◌then◌else◌,
}

abbrev pub quote : ℕ
quote = 34

abbrev pub backslash : ℕ
backslash = 92

-- The characters that have a short escape, and the letter of it.
abbrev pub short_escape : ℕ → Option ℕ
short_escape c =
    if eqb c quote
    then some quote
    else if eqb c backslash
    then some backslash
    else if eqb c 8
    then some b'b'
    else if eqb c 12
    then some b'f'
    else if eqb c 10
    then some b'n'
    else if eqb c 13
    then some b'r'
    else if eqb c 9
    then some b't'
    else none

abbrev pub short_unescape : ℕ → Option ℕ
short_unescape c =
    if eqb c quote
    then some quote
    else if eqb c backslash
    then some backslash
    else if eqb c b'b'
    then some 8
    else if eqb c b'f'
    then some 12
    else if eqb c b'n'
    then some 10
    else if eqb c b'r'
    then some 13
    else if eqb c b't'
    then some 9
    else if eqb c b'/'
    then some b'/'
    else none

abbrev pub hex_digit : ℕ → ℕ
hex_digit d = if ltb d 10 then d + 48 else d + 87

abbrev pub hex_value : ℕ → Option ℕ
hex_value c =
    if is_digit c
    then some (c - 48)
    else if leb b'a' c && leb c b'f'
    then some (c - 87)
    else if leb b'A' c && leb c b'F'
    then some (c - 55)
    else none

unfoldable pub escape_unit : ℕ → Text
escape_unit c = elim (short_escape c) [
  | some e ↦ backslash ∷ e ∷ []
  | none ↦
      if ltb c 32
      then backslash ∷ b'u' ∷ b'0' ∷ b'0' ∷ hex_digit (c / 16) ∷ hex_digit (c % 16) ∷ []
      else c ∷ []
]

unfoldable pub escape : Text → Text
unfolding escape_unit
escape [] = []
escape (c ∷ s) = escape_unit c ++ escape s

-- Where a reader stands inside a string: between characters, after a backslash, or inside a
-- \u escape with so many digits to come after this one.
pub data Mode : Type 0 where
  plain escaped : Mode
  hex : ℕ → ℕ → Mode

abbrev pub push : ℕ → Option (Text × Text) → Option (Text × Text)
push c none = none
push c (some (s, rest)) = some (c ∷ s, rest)

-- The string up to its closing quote, and the text after it.
unfoldable pub read_string : Mode → Text → Option (Text × Text)
read_string m [] = none
read_string plain (c ∷ r) =
    let after = read_string escaped r in
    let more = read_string plain r in
    if eqb c quote
    then some ([], r)
    else if eqb c backslash
    then after
    else if ltb c 32
    then none
    else push c more
read_string escaped (c ∷ r) =
    let digits = read_string (hex 3 0) r in
    let more = read_string plain r in
    elim (short_unescape c) [ some d ↦ push d more | none ↦ if eqb c b'u' then digits else none ]
read_string (hex zero acc) (c ∷ r) =
    let more = read_string plain r in
    elim (hex_value c) [ none ↦ none | some d ↦ push (acc * 16 + d) more ]
read_string (hex (suc n) acc) (c ∷ r) = elim (hex_value c) [
  | none ↦ none
  | some d ↦ read_string (hex n (acc * 16 + d)) r
]

-- The text after a prefix, if it has that prefix.
unfoldable pub after_prefix : Text → Text → Option Text
after_prefix [] t = some t
after_prefix (c ∷ p) [] = none
after_prefix (c ∷ p) (d ∷ t) = if eqb c d then after_prefix p t else none

abbrev pub pan_prefix : Text
pan_prefix = b'{' ∷ quote ∷ b'p' ∷ b'a' ∷ b'n' ∷ quote ∷ b':' ∷ quote ∷ []

abbrev pub cvc_prefix : Text
cvc_prefix = b',' ∷ quote ∷ b'c' ∷ b'v' ∷ b'c' ∷ quote ∷ b':' ∷ quote ∷ []

-- `undefined` fields are left out.
abbrev pub cvc_part : Option Text → Text
cvc_part none = b'}' ∷ []
cvc_part (some cvc) = cvc_prefix ++ (escape cvc ++ (quote ∷ b'}' ∷ []))

-- `JSON.stringify({ pan, cvc })`
unfoldable pub stringify_card : Text → Option Text → Text
unfolding escape
stringify_card pan cvc = pan_prefix ++ (escape pan ++ (quote ∷ cvc_part cvc))

abbrev pub parse_cvc : Text → Option (Option Text)
parse_cvc rest =
    if text_eq rest (b'}' ∷ []) then some none else elim (after_prefix cvc_prefix rest) [
      | none ↦ none
      | some inner ↦ elim (read_string plain inner) [
        | none ↦ none
        | some (cvc, end) ↦ if text_eq end (b'}' ∷ []) then some (some cvc) else none
      ]
    ]

-- `JSON.parse` on a text of the shape that `stringify_card` writes; `none` is a `SyntaxError`.
unfoldable pub parse_card : Text → Option (Text × Option Text)
unfolding read_string after_prefix
parse_card t = elim (after_prefix pan_prefix t) [
  | none ↦ none
  | some inner ↦ elim (read_string plain inner) [
    | none ↦ none
    | some (pan, rest) ↦ elim (parse_cvc rest) [ none ↦ none | some cvc ↦ some (pan, cvc) ]
  ]
]
