-- ===== src/Core/Cmac/Shift.antt =====
-- The shift of a buffer by one bit doubles the number that it stands for.
use karta_cards_vera.Common.{
  ℕ, zero, suc, ◌≤◌, ◌+◌, ◌*◌, ◌/◌, ◌%◌, ◌<◌, ◌≡◌, refl, ap, [], ◌∷◌, length, All, arith,
}
use karta_cards_vera.Core.Encryption.{Bytes}
use karta_cards_vera.Pay.Arqc.Validate.{IsByte}
use karta_cards_vera.Core.Cmac.{shift_from, left_shift_one_bit}

-- 256 to the length of a buffer, and its value in big-endian order.
abbrev pub span : Bytes → ℕ
span [] = 1
span (b ∷ bs) = 256 * span bs

abbrev pub value : Bytes → ℕ
value [] = 0
value (b ∷ bs) = b * span bs + value bs

pub IsShifted : Bytes → Bytes × ℕ → Type 0
IsShifted bs (out, carry) =
    (carry < 2)
    × (span out ≡ span bs)
    × All IsByte out
    × (value out + carry * span bs ≡ 2 * value bs)

-- One byte more: the new byte and carry are the doubled byte with the carry that came in.
byte-doubled :
    (b c r q w v t : ℕ)
    → r + 256 * q ≡ b * 2 + c
    → v + c * w ≡ 2 * t
    → r * w + v + q * (256 * w) ≡ 2 * (b * w + t)
byte-doubled b c r q w v t e h = omega (arith, ap (λ (n : ℕ). n * w) e)

shift_from-IsShifted : (bs : Bytes) → All IsByte bs → IsShifted bs (shift_from bs)
unfolding shift_from IsShifted
shift_from-IsShifted [] h = (omega arith, refl, tt, refl)
shift_from-IsShifted (b ∷ bs) (small, h) =
    let (low, same, bytes, doubled) = shift_from-IsShifted bs h in
    let (out, c) : Bytes × ℕ = shift_from bs in
    (
      omega arith,
      ap (λ n. 256 * n) same,
      (omega arith, bytes),
      rw same (
          byte-doubled b (shift_from bs).1 ((b * 2 + (shift_from bs).1) % 256)
            ((b * 2 + (shift_from bs).1) / 256 % 2) (span bs) (value (shift_from bs).0) (value bs)
            (omega arith) doubled),
    )

length-shift_from : (bs : Bytes) → length (shift_from bs).0 ≡ length bs
unfolding shift_from
length-shift_from [] = refl
length-shift_from (b ∷ bs) = ap suc (length-shift_from bs)

pub value-lt-span : (bs : Bytes) → All IsByte bs → value bs < span bs
value-lt-span [] h = omega arith
value-lt-span (b ∷ bs) (small, h) =
    let ih = value-lt-span bs h in
    let room : b * span bs + span bs ≤ 256 * span bs = grind arith in omega arith

mod_carry : (v c w t : ℕ) → c < 2 → v < w → v + c * w ≡ t → v ≡ t % w
mod_carry v zero w t hc h e = let e' : v ≡ t = omega arith in rw (← e') (grind arith)
mod_carry v (suc zero) w t hc h e = let e' : v + w ≡ t = omega arith in rw (← e') (grind arith)
mod_carry v (suc (suc c)) w t hc h e = absurd (omega arith)

-- Shifting a buffer of bytes gives a buffer of bytes of the same span, whose value is the double,
-- without the bit that falls off.
pub left_shift_one_bit-double :
    (bs : Bytes)
    → All IsByte bs
    → All IsByte (left_shift_one_bit bs)
      × (length (left_shift_one_bit bs) ≡ length bs)
      × (value (left_shift_one_bit bs) ≡ 2 * value bs % span bs)
unfolding IsShifted
left_shift_one_bit-double bs h =
    let (low, same, bytes, doubled) = shift_from-IsShifted bs h in
    (
      bytes,
      length-shift_from bs,
      mod_carry (value (shift_from bs).0) (shift_from bs).1 (span bs) (2 * value bs) low
          (rw (← same) (value-lt-span (shift_from bs).0 bytes)) doubled,
    )
