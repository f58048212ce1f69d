-- ===== src/Core/Cmac/Subkey.antt =====
-- The subkeys of NIST SP 800-38B, stated by arithmetic on the blocks, and those of the code.
use Prim.Native.Nat.{bit_and, bit_xor}
use native.Mathlib.Nat.{div-eq_of_lt-le, mod-add-div'}
use karta_cards_vera.Common.{
  ℕ, zero, suc, ◌+◌, ◌*◌, ◌/◌, ◌%◌, ◌≤◌, ◌<◌, ◌≡◌, refl, sym, ap, ◌∙◌, Bool, true, ◌&&◌, not, [],
  ◌∷◌, ◌++◌, ltb, eqb, length, All, arith, Bool-cases, inl, inr, if◌then◌else◌,
}
use karta_cards_vera.Core.Encryption.{Bytes}
use karta_cards_vera.Pay.Arqc.Validate.{IsByte}
use karta_cards_vera.Core.Cmac.{
  left_shift_one_bit, xor_last, top_bit, next_key, rb, xor_into, zeros,
}
use karta_cards_vera.Core.Cmac.Shift.{value, span, value-lt-span, left_shift_one_bit-double}

-- So many zero bytes; the xor of two strings of bytes; and the first bit of one.
abbrev pub nulls : ℕ → Bytes
nulls zero = []
nulls (suc n) = 0 ∷ nulls n

unfoldable pub exclusive_or : Bytes → Bytes → Bytes
exclusive_or [] ys = []
exclusive_or (x ∷ xs) [] = x ∷ xs
exclusive_or (x ∷ xs) (y ∷ ys) = bit_xor x y ∷ exclusive_or xs ys

unfoldable pub first_bit : Bytes → ℕ
first_bit [] = 0
first_bit (b ∷ bs) = b / 128

-- The last so many bytes of a number, in big-endian order.
abbrev radix : ℕ → ℕ
radix zero = 1
radix (suc n) = 256 * radix n

unfoldable pub bytes_of : ℕ → ℕ → Bytes
bytes_of zero v = []
bytes_of (suc n) v = v / radix n % 256 ∷ bytes_of n v

-- The next subkey: the block doubled as a number of 128 bits, and reduced by the constant R128,
-- 120 zero bits and 10000111, where its first bit was set.
unfoldable pub subkey : Bytes → Bytes
subkey l =
    let doubled = bytes_of 16 (2 * value l) in
    if eqb (first_bit l) 1 then exclusive_or doubled (nulls 15 ++ 0x87 ∷ []) else doubled

span-radix : (bs : Bytes) → span bs ≡ radix (length bs)
span-radix [] = refl
span-radix (b ∷ bs) = ap (λ n. 256 * n) (span-radix bs)

-- A digit in front of a rest, and more digits in front of it.
digit_out : (b k w t : ℕ) → b < 256 → t < w → (b * w + t + k * (256 * w)) / w % 256 ≡ b
digit_out b k w t hb ht =
    let low : (b + 256 * k) * w ≤ b * w + t + k * (256 * w) = grind arith in
    let high : b * w + t + k * (256 * w) < (b + 256 * k + 1) * w = grind arith in
    let quotient = div-eq_of_lt-le w low high in rw quotient (omega arith)

bytes_of-value :
    (bs : Bytes) (k : ℕ) → All IsByte bs → bytes_of (length bs) (value bs + k * span bs) ≡ bs
unfolding bytes_of
bytes_of-value [] k h = refl
bytes_of-value (b ∷ bs) k (small, h) =
    let first = digit_out b k (span bs) (value bs) small (value-lt-span bs h) in
    let same : value bs + (b + k * 256) * span bs ≡ b * span bs + value bs + k * (256 * span bs) =
      grind arith in
    rw (← span-radix bs) (rw (first, ← same) (ap (λ t. b ∷ t) (bytes_of-value bs (b + k * 256) h)))

-- The shifted block is the doubled number.
left_shift_one_bit-bytes_of :
    (l : Bytes) → All IsByte l → bytes_of (length l) (2 * value l) ≡ left_shift_one_bit l
left_shift_one_bit-bytes_of l h =
    let (bytes, same, doubled) = left_shift_one_bit-double l h in
    let out = left_shift_one_bit l in
    let q = 2 * value l / span l in
    let wide : span out ≡ span l = span-radix out ∙ (ap radix same ∙ sym (span-radix l)) in
    let split : value out + q * span out ≡ 2 * value l =
      rw (wide, doubled) (mod-add-div' (2 * value l) (span l)) in
    rw (← split, ← same) (bytes_of-value out q bytes)

-- Facts about single bytes, by evaluation.
all_below : ℕ → (ℕ → Bool) → Bool
all_below zero p = true
all_below (suc n) p = p n && all_below n p

all_below-at : (n : ℕ) (p : ℕ → Bool) (x : ℕ) → all_below n p ≡ true → x < n → p x ≡ true
unfolding all_below
all_below-at zero p x h lt = absurd (omega arith)
all_below-at (suc n) p x h lt = ground (arith, all_below-at n p x)

xor_table : all_below 256 (λ x. eqb (bit_xor x 0) x) ≡ true
unfolding all_below
xor_table = refl

bit_xor-null : (x : ℕ) → IsByte x → bit_xor x 0 ≡ x
bit_xor-null x h =
    let same = all_below-at 256 (λ y. eqb (bit_xor y 0) y) x xor_table h in ground arith

top_bit_table :
    all_below 256 (λ x. eqb (if not (eqb (bit_and x 0x80) 0) then 1 else 0) (x / 128)) ≡ true
unfolding all_below
top_bit_table = refl

top_bit-first_bit : (l : Bytes) → All IsByte l → top_bit l ≡ eqb (first_bit l) 1
unfolding first_bit
top_bit-first_bit [] h = refl
top_bit-first_bit (b ∷ l) (small, h) =
    let same =
      all_below-at 256 (λ x. eqb (if not (eqb (bit_and x 0x80) 0) then 1 else 0) (x / 128)) b
        top_bit_table small in
    ground arith

-- The last byte takes the constant.
xor_last-exclusive_or :
    (n : ℕ) (bs : Bytes)
    → All IsByte bs
    → length bs ≡ suc n
    → xor_last bs ≡ exclusive_or bs (nulls n ++ 0x87 ∷ [])
unfolding exclusive_or
xor_last-exclusive_or n [] h e = absurd (omega arith)
xor_last-exclusive_or zero (b ∷ []) h e = refl
xor_last-exclusive_or (suc n) (b ∷ []) h e = absurd (omega arith)
xor_last-exclusive_or zero (b ∷ c ∷ bs) h e = absurd (omega arith)
xor_last-exclusive_or (suc n) (b ∷ c ∷ bs) (small, h) e =
    rw (bit_xor-null b small) (ap (λ t. b ∷ t) (xor_last-exclusive_or n (c ∷ bs) h (omega arith)))

-- A block of a cipher.
pub record IsBlock (b : Bytes) : Type 0 where
  pub bytes : All IsByte b
  pub sixteen : length b ≡ 16

-- On a block, the code's next subkey is the standard's.
pub next_key-subkey : (l : Bytes) → IsBlock l → next_key l ≡ subkey l
unfolding subkey
next_key-subkey l h =
    let (bytes, same, doubled) = left_shift_one_bit-double l h.bytes in
    let shifted : bytes_of 16 (2 * value l) ≡ left_shift_one_bit l =
      rw (← h.sixteen) (left_shift_one_bit-bytes_of l h.bytes) in
    let masked = xor_last-exclusive_or 15 (left_shift_one_bit l) bytes (same ∙ h.sixteen) in
    rw (top_bit-first_bit l h.bytes, shifted, masked) refl

-- And it is a block again, so that the second subkey is the standard's too.
rb_table : all_below 256 (λ x. ltb (bit_xor x rb) 256) ≡ true
unfolding all_below
rb_table = refl

bit_xor-IsByte : (x : ℕ) → IsByte x → IsByte (bit_xor x rb)
bit_xor-IsByte x h =
    let small = all_below-at 256 (λ y. ltb (bit_xor y rb) 256) x rb_table h in ground arith

xor_last-IsByte : (bs : Bytes) → All IsByte bs → All IsByte (xor_last bs)
xor_last-IsByte [] h = tt
xor_last-IsByte (b ∷ []) (small, h) = (bit_xor-IsByte b small, tt)
xor_last-IsByte (b ∷ c ∷ bs) (small, h) = (small, xor_last-IsByte (c ∷ bs) h)

length-xor_last : (bs : Bytes) → length (xor_last bs) ≡ length bs
length-xor_last [] = refl
length-xor_last (b ∷ []) = refl
length-xor_last (b ∷ c ∷ bs) = ap suc (length-xor_last (c ∷ bs))

pub next_key-IsBlock : (l : Bytes) → IsBlock l → IsBlock (next_key l)
next_key-IsBlock l h =
    let (bytes, same, doubled) = left_shift_one_bit-double l h.bytes in
    elim (Bool-cases (top_bit l)) [
      | inl set ↦ rw set (record {
        bytes = xor_last-IsByte (left_shift_one_bit l) bytes;
        sixteen = length-xor_last (left_shift_one_bit l) ∙ (same ∙ h.sixteen);
      })
      | inr clear ↦ rw clear (record { bytes = bytes; sixteen = same ∙ h.sixteen })
    ]

-- The code's xor and its zeros are the standard's.
pub xor_into-exclusive_or : (xs ys : Bytes) → xor_into xs ys ≡ exclusive_or xs ys
unfolding exclusive_or
xor_into-exclusive_or [] ys = refl
xor_into-exclusive_or (x ∷ xs) [] = refl
xor_into-exclusive_or (x ∷ xs) (y ∷ ys) = ap (λ t. bit_xor x y ∷ t) (xor_into-exclusive_or xs ys)

pub zeros-nulls : (n : ℕ) → zeros n ≡ nulls n
zeros-nulls zero = refl
zeros-nulls (suc n) = ap (λ t. 0 ∷ t) (zeros-nulls n)
