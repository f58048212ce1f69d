-- ===== src/Core/Tests.antt =====
-- Witnesses for the theorems about packages/core/src/cmac.ts.
use karta_cards_vera.Common.{
  ◌+◌, ◌*◌, ◌%◌, ◌≡◌, refl, ap, ◌∙◌, ℕ, suc, [], ◌∷◌, length, All, map, eqb, if◌then◌else◌, arith,
}
use karta_cards_vera.Core.Error.{other}
use karta_cards_vera.Core.Exec.{ok, throw}
use karta_cards_vera.Core.Encryption.{Bytes}
use karta_cards_vera.Core.Cmac.{Cipher, zeros, left_shift_one_bit, aes_cmac}
use karta_cards_vera.Core.Cmac.Shift.{value, span, left_shift_one_bit-double}
use karta_cards_vera.Pay.Arqc.Validate.{IsByte}
use karta_cards_vera.Core.Cmac.Subkey.{subkey, bytes_of, first_bit, exclusive_or}
use karta_cards_vera.Core.Cmac.Reference.{IsBlockCipher, nist_cmac, aes_cmac-nist_cmac}

-- A cipher of one multiplication.
abbrev cipher : Cipher
cipher = λ key block. map (λ b. (b * 3 + length key) % 256) block

abbrev sample : Bytes
sample = 1 ∷ 2 ∷ 3 ∷ 4 ∷ 5 ∷ 6 ∷ 7 ∷ 8 ∷ 9 ∷ 10 ∷ 11 ∷ 12 ∷ 13 ∷ 14 ∷ 15 ∷ 16 ∷ 17 ∷ 18 ∷ []

cipher-IsByte : (n : ℕ) (block : Bytes) → All IsByte (map (λ b. (b * 3 + n) % 256) block)
cipher-IsByte n [] = tt
cipher-IsByte n (b ∷ block) = (omega arith, cipher-IsByte n block)

length-cipher : (n : ℕ) (block : Bytes) → length (map (λ b. (b * 3 + n) % 256) block) ≡ length block
length-cipher n [] = refl
length-cipher n (b ∷ block) = ap suc (length-cipher n block)

cipher-IsBlockCipher : IsBlockCipher cipher
cipher-IsBlockCipher key block h sixteen = record {
  bytes = cipher-IsByte (length key) block;
  sixteen = length-cipher (length key) block ∙ sixteen;
}

aes_cmac-nist_cmac_example : aes_cmac cipher (zeros 16) sample ≡ (
    if eqb (length (zeros 16)) 16
    then ok (nist_cmac cipher (zeros 16) sample)
    else throw (other "AES-128-CMAC requires a 16-byte key"))
aes_cmac-nist_cmac_example = aes_cmac-nist_cmac cipher (zeros 16) sample cipher-IsBlockCipher

-- The subkeys of the example of RFC 4493, section 4.
abbrev rfc_block : Bytes
rfc_block =
    0x7d ∷ 0xf7 ∷ 0x6b ∷ 0x0c ∷ 0x1a ∷ 0xb8 ∷ 0x99 ∷ 0xb3 ∷ 0x3e ∷ 0x42 ∷ 0xf0 ∷ 0x47 ∷ 0xb9 ∷ 0x1b
    ∷ 0x54 ∷ 0x6f ∷ []

abbrev rfc_first : Bytes
rfc_first =
    0xfb ∷ 0xee ∷ 0xd6 ∷ 0x18 ∷ 0x35 ∷ 0x71 ∷ 0x33 ∷ 0x66 ∷ 0x7c ∷ 0x85 ∷ 0xe0 ∷ 0x8f ∷ 0x72 ∷ 0x36
    ∷ 0xa8 ∷ 0xde ∷ []

abbrev rfc_second : Bytes
rfc_second =
    0xf7 ∷ 0xdd ∷ 0xac ∷ 0x30 ∷ 0x6a ∷ 0xe2 ∷ 0x66 ∷ 0xcc ∷ 0xf9 ∷ 0x0b ∷ 0xc1 ∷ 0x1e ∷ 0xe4 ∷ 0x6d
    ∷ 0x51 ∷ 0x3b ∷ []

rfc_first_run : subkey rfc_block ≡ rfc_first
unfolding subkey bytes_of first_bit exclusive_or
rfc_first_run = refl

rfc_second_run : subkey rfc_first ≡ rfc_second
unfolding subkey bytes_of first_bit exclusive_or
rfc_second_run = refl

left_shift_one_bit-double_example :
    All IsByte (left_shift_one_bit (0x81 ∷ 0x80 ∷ []))
    × (length (left_shift_one_bit (0x81 ∷ 0x80 ∷ [])) ≡ 2)
    × (value (left_shift_one_bit (0x81 ∷ 0x80 ∷ []))
        ≡ 2 * value (0x81 ∷ 0x80 ∷ []) % span (0x81 ∷ 0x80 ∷ []))
left_shift_one_bit-double_example =
    left_shift_one_bit-double (0x81 ∷ 0x80 ∷ []) (omega arith, (omega arith, tt))
