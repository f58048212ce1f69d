-- ===== src/Vault/Luhn/Detects.antt =====
-- The typing errors that the Luhn check detects.
use mathlib.Core.List.{reverse}
use karta_cards_vera.Common.{
  ℕ, ◌+◌, ◌-◌, ◌%◌, ◌≡◌, ◌≢◌, ◌⊎◌, ap, ◌∙◌, inl, inr, Bool, true, false, not, ◌∷◌, ◌++◌, Text,
  is_digit, arith, Bool-cases,
}
use karta_cards_vera.Vault.Luhn.{weigh, luhn_loop, luhn_valid, strip, is_separator}
use karta_cards_vera.Vault.Luhn.Sum.{
  luhn_sum, flag_after, luhn_loop-middle, keep-append, luhn_loop-sum, luhn_sum-append, reverse-pair,
}

luhn_valid-sum :
    (pan : Text) → luhn_valid pan ≡ true → luhn_loop 0 false (reverse (strip pan)) % 10 ≡ 0
unfolding luhn_valid
luhn_valid-sum pan h = ground arith

digit-separator : (c : ℕ) → is_digit c ≡ true → not (is_separator c) ≡ true
digit-separator c h = ground arith

strip-cons : (c : ℕ) (t : Text) → is_digit c ≡ true → strip (c ∷ t) ≡ c ∷ strip t
unfolding strip
strip-cons c t h = rw (digit-separator c h)

strip-append : (s t : Text) → strip (s ++ t) ≡ strip s ++ strip t
unfolding strip
strip-append s t = keep-append (λ c. not (is_separator c)) s t

strip-middle :
    (s t : Text) (c : ℕ) → is_digit c ≡ true → strip (s ++ c ∷ t) ≡ strip s ++ c ∷ strip t
strip-middle s t c h = strip-append s (c ∷ t) ∙ ap (λ (r : Text). strip s ++ r) (strip-cons c t h)

-- Two digits with the same weight modulo 10 are one digit.
weigh-cancel :
    (alt : Bool) (c c' a b : ℕ)
    → is_digit c ≡ true
    → is_digit c' ≡ true
    → (a + (weigh alt (c - 48) + b)) % 10 ≡ 0
    → (a + (weigh alt (c' - 48) + b)) % 10 ≡ 0
    → c ≡ c'
weigh-cancel true c c' a b h h' e e' = ground arith
weigh-cancel false c c' a b h h' e e' = ground arith

valid-middle :
    (s t : Text) (c : ℕ)
    → is_digit c ≡ true
    → luhn_valid (s ++ c ∷ t) ≡ true
    → (luhn_sum false (reverse (strip t))
          + (weigh (flag_after false (reverse (strip t))) (c - 48)
              + luhn_sum (not (flag_after false (reverse (strip t)))) (reverse (strip s))))
        % 10
      ≡ 0
valid-middle s t c h v =
    rw (← luhn_loop-middle (strip s) (strip t) c, ← strip-middle s t c h)
      (luhn_valid-sum (s ++ c ∷ t) v)

-- One digit of a valid number changed to another digit, in any place, makes it invalid.
pub luhn_valid-one_digit :
    (s t : Text) (c c' : ℕ)
    → is_digit c ≡ true
    → is_digit c' ≡ true
    → c ≢ c'
    → luhn_valid (s ++ c ∷ t) ≡ true
    → luhn_valid (s ++ c' ∷ t) ≡ false
luhn_valid-one_digit s t c c' h h' ne v = elim (Bool-cases (luhn_valid (s ++ c' ∷ t))) [
  | inl v' ↦ absurd (
      ne (
        weigh-cancel (flag_after false (reverse (strip t))) c c' _ _ h h' (valid-middle s t c h v)
          (valid-middle s t c' h' v')))
  | inr bad ↦ bad
]

-- The sum with two neighbouring digits singled out.
luhn_loop-pair :
    (s t : Text) (c d : ℕ)
    → luhn_loop 0 false (reverse (s ++ c ∷ d ∷ t))
      ≡ luhn_sum false (reverse t)
        + (weigh (flag_after false (reverse t)) (d - 48)
            + (weigh (not (flag_after false (reverse t))) (c - 48)
                + luhn_sum (not (not (flag_after false (reverse t)))) (reverse s)))
unfolding luhn_sum
luhn_loop-pair s t c d =
    luhn_loop-sum 0 false (reverse (s ++ c ∷ d ∷ t))
    ∙ (ap (λ (r : Text). 0 + luhn_sum false r) (reverse-pair s t c d)
        ∙ omega (arith, luhn_sum-append false (reverse t) (d ∷ c ∷ reverse s)))

valid-pair :
    (s t : Text) (c d : ℕ)
    → is_digit c ≡ true
    → is_digit d ≡ true
    → luhn_valid (s ++ c ∷ d ∷ t) ≡ true
    → (luhn_sum false (reverse (strip t))
          + (weigh (flag_after false (reverse (strip t))) (d - 48)
              + (weigh (not (flag_after false (reverse (strip t)))) (c - 48)
                  + luhn_sum
                      (not (not (flag_after false (reverse (strip t)))))
                      (reverse (strip s)))))
        % 10
      ≡ 0
valid-pair s t c d h k v =
    let split : strip (s ++ c ∷ d ∷ t) ≡ strip s ++ c ∷ d ∷ strip t =
      strip-middle s (d ∷ t) c h ∙ ap (λ (r : Text). strip s ++ c ∷ r) (strip-cons d t k) in
    rw (← luhn_loop-pair (strip s) (strip t) c d, ← split) (luhn_valid-sum (s ++ c ∷ d ∷ t) v)

-- The one pair of digits whose exchange the check cannot see.
abbrev pub IsBlindPair : ℕ → ℕ → Type 0
IsBlindPair c d = ((c ≡ b'0') × (d ≡ b'9')) ⊎ ((c ≡ b'9') × (d ≡ b'0'))

weigh-swap :
    (alt : Bool) (c d a b : ℕ)
    → is_digit c ≡ true
    → is_digit d ≡ true
    → (a + (weigh alt (d - 48) + (weigh (not alt) (c - 48) + b))) % 10 ≡ 0
    → (a + (weigh alt (c - 48) + (weigh (not alt) (d - 48) + b))) % 10 ≡ 0
    → (c ≡ d) ⊎ IsBlindPair c d
weigh-swap true c d a b h k e e' = ground arith
weigh-swap false c d a b h k e e' = ground arith

-- Two neighbouring digits of a valid number exchanged make it invalid, unless they are equal or
-- are 0 and 9.
pub luhn_valid-swap :
    (s t : Text) (c d : ℕ)
    → is_digit c ≡ true
    → is_digit d ≡ true
    → c ≢ d
    → ¬ IsBlindPair c d
    → luhn_valid (s ++ c ∷ d ∷ t) ≡ true
    → luhn_valid (s ++ d ∷ c ∷ t) ≡ false
luhn_valid-swap s t c d h k ne seen v = elim (Bool-cases (luhn_valid (s ++ d ∷ c ∷ t))) [
  | inl v' ↦
      let same_or_blind =
        weigh-swap (flag_after false (reverse (strip t))) c d _ _ h k (valid-pair s t c d h k v)
          (valid-pair s t d c k h v') in
      elim same_or_blind [ inl same ↦ absurd (ne same) | inr blind ↦ absurd (seen blind) ]
  | inr bad ↦ bad
]
