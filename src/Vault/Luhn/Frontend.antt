-- ===== src/Vault/Luhn/Frontend.antt =====
-- The frontends' Luhn check against the vault's.
use karta_cards_vera.Common.{
  ◌≡◌, refl, ap, inl, inr, true, false, [], ◌∷◌, Text, keep, all, is_digit, arith, Bool-cases,
}
use karta_cards_vera.Vault.Luhn.{luhn_valid, luhn_valid_frontend, strip, is_separator}

-- Where all that is left after stripping is digits, stripping all but digits leaves the same.
keep-digits : (s : Text) → all is_digit (strip s) ≡ true → keep is_digit s ≡ strip s
unfolding strip
keep-digits [] h = refl
keep-digits (c ∷ s) h = elim (Bool-cases (is_separator c)) [
  | inl e ↦
      let other : is_digit c ≡ false = ground arith in rw (other, e) (keep-digits s (ground arith))
  | inr e ↦
      let (digit, rest) : (is_digit c ≡ true) × (all is_digit (strip s) ≡ true) = ground arith in
      rw (digit, e) (ap (λ (r : Text). c ∷ r) (keep-digits s rest))
]

valid-digits : (pan : Text) → luhn_valid pan ≡ true → all is_digit (strip pan) ≡ true
unfolding luhn_valid
valid-digits pan h = ground arith

-- What the vault accepts, the frontends accept.
pub luhn_valid-frontend : (pan : Text) → luhn_valid pan ≡ true → luhn_valid_frontend pan ≡ true
unfolding luhn_valid luhn_valid_frontend
luhn_valid-frontend pan h = rw (keep-digits pan (valid-digits pan h)) (ground arith)
