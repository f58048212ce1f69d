-- ===== src/Programs/Currency.antt =====
-- packages/programs/src/currency.ts: ISO 4217 codes, checked and upper-cased on the way in.
use karta_cards_vera.Common.{
  ℕ, ◌-◌, ◌≡◌, Bool, true, ◌&&◌, ◌||◌, Option, none, some, [], ◌∷◌, map, Text, eqb, length, all,
  is_upper, is_lower, arith, if◌then◌else◌,
}
use karta_cards_vera.Core.Error.{api, bad_request}
use karta_cards_vera.Core.Exec.{Outcome, ok, throw}

-- `toUpperCase` on an ASCII letter.
abbrev pub to_upper : ℕ → ℕ
to_upper c = if is_lower c then c - 32 else c

-- `[A-Za-z]`
abbrev pub is_letter : ℕ → Bool
is_letter c = is_upper c || is_lower c

-- `currencySchema`: three letters, then the transform. `none` is a value with issues.
unfoldable pub currency_schema : Text → Option Text
currency_schema raw =
    if eqb (length raw) 3 && all is_letter raw then some (map to_upper raw) else none

unfoldable pub normalise_currency : Text → Outcome Text
unfolding currency_schema
normalise_currency raw = elim (currency_schema raw) [
  | none ↦ throw (api (bad_request "invalid_currency"))
  | some code ↦ ok code
]

letter-to_upper : (c : ℕ) → is_letter c ≡ true → is_upper (to_upper c) ≡ true
letter-to_upper c h = ground arith

upper-to_upper : (c : ℕ) → is_upper c ≡ true → (to_upper c ≡ c) × (is_letter c ≡ true)
upper-to_upper c h = ground arith

-- The shape of a code that may be stored: three upper-case letters.
abbrev pub IsCode : Text → Type 0
IsCode (a ∷ b ∷ c ∷ []) = (is_upper a ≡ true) × (is_upper b ≡ true) × (is_upper c ≡ true)
IsCode _ = ⊥

normalise_currency-upper :
    (a b c : ℕ)
    → IsCode (a ∷ b ∷ c ∷ [])
    → normalise_currency (a ∷ b ∷ c ∷ []) ≡ ok (a ∷ b ∷ c ∷ [])
unfolding normalise_currency
normalise_currency-upper a b c (ha, hb, hc) =
    let (same_a, letter_a) = upper-to_upper a ha in
    let (same_b, letter_b) = upper-to_upper b hb in
    let (same_c, letter_c) = upper-to_upper c hc in ground arith

-- What `normaliseCurrency` returns is a code of three upper-case letters, and a second call leaves
-- it as it is.
pub normalise_currency-IsCode :
    (raw code : Text)
    → normalise_currency raw ≡ ok code
    → IsCode code × (normalise_currency code ≡ ok code)
unfolding normalise_currency
normalise_currency-IsCode (a ∷ b ∷ c ∷ []) code h =
    let letters : (is_letter a ≡ true) × (is_letter b ≡ true) × (is_letter c ≡ true) =
      ground arith in
    let upper : IsCode (to_upper a ∷ to_upper b ∷ to_upper c ∷ []) =
      (letter-to_upper a letters.0, letter-to_upper b letters.1, letter-to_upper c letters.2) in
    let same : (to_upper a ∷ to_upper b ∷ to_upper c ∷ []) ≡ code = ground arith in
    rw (← same) (upper, normalise_currency-upper _ _ _ upper)
normalise_currency-IsCode [] code h = cc
normalise_currency-IsCode (a ∷ []) code h = cc
normalise_currency-IsCode (a ∷ b ∷ []) code h = cc
normalise_currency-IsCode (a ∷ b ∷ c ∷ d ∷ rest) code h = ground arith
