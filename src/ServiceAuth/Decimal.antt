-- ===== src/ServiceAuth/Decimal.antt =====
-- A timestamp printed in decimal reads back as itself.
use karta_cards_vera.Common.{
  ℕ, zero, suc, ◌+◌, ◌-◌, ◌*◌, ◌/◌, ◌%◌, ◌<◌, ◌≡◌, refl, ap, ◌∙◌, Text, some, true, [], ◌∷◌, ◌++◌,
  pos, all, ltb, is_digit, arith, Bool-cases, inl, inr,
}
use karta_cards_vera.ServiceAuth.{decimal_from, digits_value, parse_int, show_int}

digits_value-append :
    (s : Text) (acc d : ℕ)
    → all is_digit s ≡ true
    → is_digit d ≡ true
    → digits_value acc (s ++ d ∷ []) ≡ digits_value acc s * 10 + (d - 48)
digits_value-append [] acc d hs hd = rw hd refl
digits_value-append (c ∷ s) acc d hs hd =
    let first : is_digit c ≡ true = ground arith in
    rw first (digits_value-append s (acc * 10 + (c - 48)) d (ground arith) hd)

all-append :
    (s t : Text) → all is_digit s ≡ true → all is_digit t ≡ true → all is_digit (s ++ t) ≡ true
all-append [] t hs ht = ht
all-append (c ∷ s) t hs ht = ground (arith, all-append s t)

pub decimal_from-digits : (fuel n : ℕ) → all is_digit (decimal_from fuel n) ≡ true
unfolding decimal_from
decimal_from-digits zero n = refl
decimal_from-digits (suc fuel) n = elim (Bool-cases (ltb n 10)) [
  | inl small ↦ rw small (ground arith)
  | inr large ↦
      rw large (
        all-append (decimal_from fuel (n / 10)) _ (decimal_from-digits fuel (n / 10))
          (ground arith))
]

-- With fuel beyond the number, every digit is printed.
decimal_from-value : (fuel n : ℕ) → n < fuel → digits_value 0 (decimal_from fuel n) ≡ n
unfolding decimal_from
decimal_from-value zero n h = absurd (omega arith)
decimal_from-value (suc fuel) n h = elim (Bool-cases (ltb n 10)) [
  | inl small ↦ rw small (ground arith)
  | inr large ↦
      let ih = decimal_from-value fuel (n / 10) (ground arith) in
      let digit : is_digit (n % 10 + 48) ≡ true = ground arith in
      rw large (
        digits_value-append (decimal_from fuel (n / 10)) 0 (n % 10 + 48)
          (decimal_from-digits fuel (n / 10)) digit
        ∙ rw ih (omega arith))
]

parse_int-digits :
    (c : ℕ) (cs : Text)
    → all is_digit (c ∷ cs) ≡ true
    → parse_int (c ∷ cs) ≡ some (pos (digits_value 0 (c ∷ cs)))
parse_int-digits c cs h = ground arith

snoc-cons : (s : Text) (d : ℕ) → (c : ℕ) × (cs : Text) × (s ++ d ∷ [] ≡ c ∷ cs)
snoc-cons [] d = (d, [], refl)
snoc-cons (c ∷ s) d = (c, s ++ d ∷ [], refl)

pub decimal_from-cons : (fuel n : ℕ) → (c : ℕ) × (cs : Text) × (decimal_from (suc fuel) n ≡ c ∷ cs)
unfolding decimal_from
decimal_from-cons fuel n = elim (Bool-cases (ltb n 10)) [
  | inl small ↦ (n + 48, [], rw small refl)
  | inr large ↦ rw large (snoc-cons (decimal_from fuel (n / 10)) (n % 10 + 48))
]

-- A number that a signer prints into the header is read back as itself by the verifier.
pub parse_int-show_int : (n : ℕ) → parse_int (show_int (pos n)) ≡ some (pos n)
parse_int-show_int n =
    let (c, cs, shape) = decimal_from-cons n n in
    let digits = decimal_from-digits (suc n) n in
    let value = decimal_from-value (suc n) n (omega arith) in
    rw shape (
      parse_int-digits c cs (rw shape at digits) ∙ ap (λ (k : ℕ). some (pos k)) (rw shape at value))
