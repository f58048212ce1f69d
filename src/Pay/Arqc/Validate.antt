-- ===== src/Pay/Arqc/Validate.antt =====
-- Which candidates a transaction's cryptogram check accepts.
use karta_cards_vera.Common.{
  ℕ, ◌+◌, ◌/◌, ◌%◌, ◌≤◌, ◌<◌, ◌≡◌, ◌↔◌, refl, sym, ap, Text, Bool, true, ◌&&◌, ◌||◌, [], ◌∷◌, All,
  all, map, take, length, zero, suc, leb, eqb, is_digit, text_eq_iff, arith, inl, inr,
}
use karta_cards_vera.Core.Exec.{ok, Outcome-cases}
use karta_cards_vera.Core.Encryption.{Bytes}
use karta_cards_vera.Core.Json.{hex_digit}
use karta_cards_vera.Pay.Arqc.{
  Kdf, ArqcInput, to_hex, is_hex, lower, derive_k_card, build_message, generate_arqc, validate_arqc,
}

abbrev pub IsByte : ℕ → Type 0
IsByte b = b < 256

-- HMAC-SHA256 returns at least sixteen bytes.
pub record KdfLaws (k : Kdf) : Type 0 where
  pub long : (key msg : Bytes) → 16 ≤ length (k.hmac key msg)
  pub bytes : (key msg : Bytes) → All IsByte (k.hmac key msg)

-- `[0-9a-f]`
abbrev is_low_hex : ℕ → Bool
is_low_hex c = is_digit c || (leb b'a' c && leb c b'f')

hex_digit-low : (d : ℕ) → d < 16 → is_low_hex (hex_digit d) ≡ true
hex_digit-low d h = ground arith

to_hex-low : (bs : Bytes) → All IsByte bs → all is_low_hex (to_hex bs) ≡ true
unfolding to_hex
to_hex-low [] h = refl
to_hex-low (b ∷ bs) (small, rest) =
    let high = hex_digit-low (b / 16) (omega arith) in
    let low = hex_digit-low (b % 16) (omega arith) in rw (high, low) (to_hex-low bs rest)

length-to_hex : (bs : Bytes) → length (to_hex bs) ≡ length bs + length bs
unfolding to_hex
length-to_hex [] = omega arith
length-to_hex (b ∷ bs) = omega (arith, length-to_hex bs)

All-take : (n : ℕ) (bs : Bytes) → All IsByte bs → All IsByte (take n bs)
All-take zero bs h = tt
All-take (suc n) [] h = tt
All-take (suc n) (b ∷ bs) (small, rest) = (small, All-take n bs rest)

length-take-full : (n : ℕ) (bs : Bytes) → n ≤ length bs → length (take n bs) ≡ n
length-take-full zero bs h = omega arith
length-take-full (suc n) [] h = absurd (omega arith)
length-take-full (suc n) (b ∷ bs) h = omega (arith, length-take-full n bs (omega arith))

lower-is_hex : (c : ℕ) → is_low_hex (lower c) ≡ true → is_hex c ≡ true
lower-is_hex c h = ground arith

all-lower : (cs : Text) → all is_low_hex (map lower cs) ≡ true → all is_hex cs ≡ true
all-lower [] h = refl
all-lower (c ∷ cs) h =
    let first = lower-is_hex c (ground arith) in rw first (all-lower cs (ground arith))

pub length-lower : (cs : Text) → length (map lower cs) ≡ length cs
length-lower [] = refl
length-lower (c ∷ cs) = omega (arith, length-lower cs)

-- The cryptogram is thirty-two hex digits in lower case.
generate_arqc-hex :
    (k : Kdf) (i : ArqcInput) (a : Text)
    → KdfLaws k
    → generate_arqc k i ≡ ok a
    → (all is_low_hex a ≡ true) × (length a ≡ 32)
unfolding generate_arqc
generate_arqc-hex k i a laws h = elim (Outcome-cases (derive_k_card k i)) [
  | inr (e, x) ↦ ground arith
  | inl (key, x) ↦ elim (Outcome-cases (build_message i)) [
    | inr (e, y) ↦ ground arith
    | inl (msg, y) ↦
        let mac = k.hmac key msg in
        let is_a : to_hex (take 16 mac) ≡ a = ground arith in
        let low = to_hex-low (take 16 mac) (All-take 16 mac (laws.bytes key msg)) in
        let size = length-to_hex (take 16 mac) in
        let full = length-take-full 16 mac (laws.long key msg) in rw (← is_a) (low, omega arith)
  ]
]

-- Where a cryptogram can be generated, the check accepts exactly the texts that are that cryptogram
-- up to the case of their letters. It is assumed that HMAC returns sixteen bytes or more.
pub validate_arqc_iff :
    (k : Kdf) (i : ArqcInput) (a candidate : Text)
    → KdfLaws k
    → generate_arqc k i ≡ ok a
    → (validate_arqc k i candidate ≡ ok true) ↔ (map lower candidate ≡ a)
unfolding validate_arqc
validate_arqc_iff k i a candidate laws h =
    let (low, size) = generate_arqc-hex k i a laws h in
    let same = text_eq_iff a (map lower candidate) in
    (
      λ accepted. ground arith,
      λ equal.
          let digits = all-lower candidate (rw equal low) in
          let full : eqb (length candidate) 32 ≡ true = ground (arith, length-lower candidate) in
          rw (full, digits, h, validate_arqc) (ap ok (same.1 (sym equal))),
    )
