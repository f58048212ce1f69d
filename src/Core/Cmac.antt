-- ===== src/Core/Cmac.antt =====
-- packages/core/src/cmac.ts: AES-128-CMAC over the single-block cipher of node:crypto, which is a
-- parameter. A buffer is its list of bytes.
pub mod Shift
pub mod Subkey
pub mod Reference
use Prim.Native.Nat.{bit_and, bit_xor}
use karta_cards_vera.Common.{
  ℕ, zero, suc, ◌+◌, ◌-◌, ◌*◌, ◌/◌, ◌%◌, Bool, false, not, ◌&&◌, [], ◌∷◌, ◌++◌, ltb, eqb, length,
  take, drop, if◌then◌else◌,
}
use karta_cards_vera.Core.Error.{other}
use karta_cards_vera.Core.Exec.{Outcome, ok, throw}
use karta_cards_vera.Core.Encryption.{Bytes}

-- `aesEcbEncryptBlock`, of a key and a block.
abbrev pub Cipher : Type 0
Cipher = Bytes → Bytes → Bytes

abbrev pub block_size : ℕ
block_size = 16

abbrev pub zeros : ℕ → Bytes
zeros zero = []
zeros (suc n) = 0 ∷ zeros n

abbrev pub rb : ℕ
rb = 0x87

-- One byte of the loop, which runs from the last byte to the first: the shifted bytes behind it and
-- their carry.
abbrev pub shift_byte : ℕ → Bytes × ℕ → Bytes × ℕ
shift_byte b (rest, carry) = ((b * 2 + carry) % 256 ∷ rest, (b * 2 + carry) / 256 % 2)

unfoldable pub shift_from : Bytes → Bytes × ℕ
shift_from [] = ([], 0)
shift_from (b ∷ bs) = shift_byte b (shift_from bs)

abbrev pub left_shift_one_bit : Bytes → Bytes
left_shift_one_bit input = (shift_from input).0

-- `buf[BLOCK_SIZE - 1] ^= RB`
abbrev pub xor_last : Bytes → Bytes
xor_last [] = []
xor_last (b ∷ []) = bit_xor b rb ∷ []
xor_last (b ∷ c ∷ bs) = b ∷ xor_last (c ∷ bs)

-- `buf[0] & 0x80`
abbrev pub top_bit : Bytes → Bool
top_bit [] = false
top_bit (b ∷ bs) = not (eqb (bit_and b 0x80) 0)

abbrev pub next_key : Bytes → Bytes
next_key l = if top_bit l then xor_last (left_shift_one_bit l) else left_shift_one_bit l

pub record Subkeys : Type 0 where
  pub k1 : Bytes
  pub k2 : Bytes

unfoldable pub derive_subkeys : Cipher → Bytes → Subkeys
derive_subkeys aes key =
    let k1 = next_key (aes key (zeros block_size)) in record { k1 = k1; k2 = next_key k1 }

-- `xorInto`, and the xor of two blocks.
abbrev pub xor_into : Bytes → Bytes → Bytes
xor_into [] src = []
xor_into (d ∷ dst) [] = d ∷ dst
xor_into (d ∷ dst) (b ∷ src) = bit_xor d b ∷ xor_into dst src

-- `data.subarray(a, b)`
abbrev pub subarray : ℕ → ℕ → Bytes → Bytes
subarray a b bytes = take (b - a) (drop a bytes)

-- A zeroed block with bytes copied to its start.
abbrev pub copied : Bytes → Bytes
copied bytes = bytes ++ zeros (block_size - length bytes)

-- `block[i] = v`
abbrev pub set : ℕ → ℕ → Bytes → Bytes
set i v [] = []
set zero v (b ∷ bs) = v ∷ bs
set (suc i) v (b ∷ bs) = b ∷ set i v bs

-- `Math.max(1, Math.ceil(data.length / BLOCK_SIZE)) - 1`: the blocks before the last.
abbrev pub full_blocks : ℕ → ℕ
full_blocks n = (n + 15) / 16 - 1

-- The last block, after so many others.
unfoldable pub last_block : Subkeys → Bytes → ℕ → Bytes
last_block k bytes before =
    let tail = subarray (before * 16) (length bytes) bytes in
    if ltb 0 (length bytes) && eqb (length bytes % 16) 0
    then xor_into (subarray (before * 16) ((before + 1) * 16) bytes) k.k1
    else xor_into (set (length bytes - before * 16) 0x80 (copied tail)) k.k2

-- The loop over the blocks before the last: the rounds left, the index and the chaining value.
unfoldable pub chain : Cipher → Bytes → Bytes → ℕ → ℕ → Bytes → Bytes
chain aes key bytes zero i x = x
chain aes key bytes (suc rounds) i x =
    chain aes key bytes rounds (i + 1)
      (aes key (xor_into x (subarray (i * 16) ((i + 1) * 16) bytes)))

unfoldable pub aes_cmac : Cipher → Bytes → Bytes → Outcome Bytes
aes_cmac aes key bytes =
    let before = full_blocks (length bytes) in
    if eqb (length key) 16
    then ok (
        aes key (
          xor_into (chain aes key bytes before 0 (zeros block_size))
            (last_block (derive_subkeys aes key) bytes before)))
    else throw (other "AES-128-CMAC requires a 16-byte key")
