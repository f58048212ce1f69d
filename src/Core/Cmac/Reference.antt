-- ===== src/Core/Cmac/Reference.antt =====
-- The code's CMAC is the one of NIST SP 800-38B: the message is cut into blocks, the last of which is
-- padded and masked by a subkey, and the blocks are chained through the cipher.
use karta_cards_vera.Common.{
  ℕ, zero, suc, ◌+◌, ◌-◌, ◌*◌, ◌%◌, ◌≤◌, ◌<◌, ◌≡◌, refl, sym, ap, ◌∙◌, Bool, true, false, ◌&&◌, [],
  ◌∷◌, ◌++◌, ltb, leb, eqb, length, length-drop, take, drop, arith, Bool-cases, ◌⊎◌, inl, inr,
  if◌then◌else◌,
}
use karta_cards_vera.Core.Error.{other}
use karta_cards_vera.Core.Exec.{ok, throw}
use karta_cards_vera.Core.Encryption.{Bytes}
use karta_cards_vera.Core.Cmac.{
  Cipher, zeros, Subkeys, derive_subkeys, next_key, xor_into, subarray, copied, set, full_blocks,
  last_block, chain, aes_cmac,
}
use karta_cards_vera.Core.Cmac.Subkey.{
  nulls, exclusive_or, subkey, IsBlock, next_key-subkey, next_key-IsBlock, xor_into-exclusive_or,
  zeros-nulls,
}

-- A last block of the standard: a whole one under the first subkey, and any other one padded with a
-- single one bit and zeros, under the second.
pub masked : Bytes → Bytes → Bytes → Bytes
masked k1 k2 tail =
    if eqb (length tail) 16
    then exclusive_or tail k1
    else exclusive_or (tail ++ 0x80 ∷ nulls (15 - length tail)) k2

-- The standard's chain, by recursion on the message. The fuel is more than its blocks.
pub standard : Cipher → Bytes → Bytes → Bytes → ℕ → Bytes → Bytes → Bytes
standard aes key k1 k2 zero x message = x
standard aes key k1 k2 (suc fuel) x message =
    let block = aes key (exclusive_or x (take 16 message)) in
    let rest = standard aes key k1 k2 fuel block (drop 16 message) in
    if leb (length message) 16 then aes key (exclusive_or x (masked k1 k2 message)) else rest

pub nist_cmac : Cipher → Bytes → Bytes → Bytes
nist_cmac aes key message =
    let k1 = subkey (aes key (nulls 16)) in
    standard aes key k1 (subkey k1) (suc (length message)) (nulls 16) message

-- What is assumed of the cipher: a block of 16 bytes under a key of 16 bytes.
abbrev pub IsBlockCipher : Cipher → Type 0
IsBlockCipher aes =
    (key block : Bytes) → length key ≡ 16 → length block ≡ 16 → IsBlock (aes key block)

drop-nil : (n : ℕ) → drop {A = ℕ} n [] ≡ []
drop-nil zero = refl
drop-nil (suc n) = refl

drop-drop : (m n : ℕ) (xs : Bytes) → drop n (drop m xs) ≡ drop (m + n) xs
drop-drop zero n xs = let e : 0 + n ≡ n = omega arith in rw e refl
drop-drop (suc m) n [] = drop-nil n ∙ sym (drop-nil (suc m + n))
drop-drop (suc m) n (x ∷ xs) =
    let e : suc m + n ≡ suc (m + n) = omega arith in rw e (drop-drop m n xs)

take-all : (n : ℕ) (xs : Bytes) → length xs ≤ n → take n xs ≡ xs
take-all zero [] h = refl
take-all zero (x ∷ xs) h = absurd (omega arith)
take-all (suc n) [] h = refl
take-all (suc n) (x ∷ xs) h = ap (λ t. x ∷ t) (take-all n xs (omega arith))

set-copied :
    (n : ℕ) (t : Bytes)
    → length t + suc n ≡ 16
    → set (length t) 0x80 (t ++ zeros (suc n)) ≡ t ++ 0x80 ∷ nulls n
set-copied n t h = set_at t
  where
    set_at : (s : Bytes) → set (length s) 0x80 (s ++ zeros (suc n)) ≡ s ++ 0x80 ∷ nulls n
    set_at [] = ap (λ u. 0x80 ∷ u) (zeros-nulls n)
    set_at (b ∷ s) = ap (λ u. b ∷ u) (set_at s)

-- A range of the message, counted from the second block.
subarray-drop : (a b : ℕ) (xs : Bytes) → subarray (16 + a) (16 + b) xs ≡ subarray a b (drop 16 xs)
subarray-drop a b xs =
    let width : 16 + b - (16 + a) ≡ b - a = omega arith in
    rw width (ap (take (b - a)) (sym (drop-drop 16 a xs)))

subarray-next :
    (a b a' b' : ℕ) (xs : Bytes)
    → a' ≡ 16 + a
    → b' ≡ 16 + b
    → subarray a' b' xs ≡ subarray a b (drop 16 xs)
subarray-next a b a' b' xs ha hb = rw (ha, hb) (subarray-drop a b xs)

module _ (aes : Cipher) (key : Bytes) (k : Subkeys) where
  chain-drop :
      (rounds i : ℕ) (x bytes : Bytes)
      → chain aes key bytes rounds (i + 1) x ≡ chain aes key (drop 16 bytes) rounds i x
  unfolding chain
  chain-drop zero i x bytes = refl
  chain-drop (suc rounds) i x bytes =
      rw
        (subarray-next (i * 16) ((i + 1) * 16) ((i + 1) * 16) ((i + 1 + 1) * 16) bytes (omega arith)
          (omega arith))
        (chain-drop rounds (i + 1) _ bytes)

  last_block-short :
      (bytes : Bytes) → length bytes ≤ 16 → last_block k bytes 0 ≡ masked k.k1 k.k2 bytes
  unfolding last_block masked
  last_block-short bytes h = elim (Bool-cases (eqb (length bytes) 16)) [
    | inl full ↦
        let whole : ltb 0 (length bytes) && eqb (length bytes % 16) 0 ≡ true = ground arith in
        rw (full, whole, take-all 16 bytes h) (xor_into-exclusive_or bytes k.k1)
    | inr short ↦
        let part : ltb 0 (length bytes) && eqb (length bytes % 16) 0 ≡ false = ground arith in
        let start : length bytes - 0 ≡ length bytes = omega arith in
        let room : 16 - length bytes ≡ suc (15 - length bytes) = ground arith in
        rw (short, part)
          (rw (start, take-all (length bytes) bytes (omega arith), room)
            (ap (λ t. xor_into t k.k2) (set-copied (15 - length bytes) bytes (ground arith))
              ∙ xor_into-exclusive_or (bytes ++ 0x80 ∷ nulls (15 - length bytes)) k.k2))
  ]

  -- The parts of a last block.
  abbrev assembled : Bool → Bytes → ℕ → Bytes → Bytes
  assembled whole block rest tail =
      if whole then xor_into block k.k1 else xor_into (set rest 0x80 (copied tail)) k.k2

  assembled-eq :
      (t t' : Bool) (b b' : Bytes) (r r' : ℕ) (u u' : Bytes)
      → t ≡ t'
      → b ≡ b'
      → r ≡ r'
      → u ≡ u'
      → assembled t b r u ≡ assembled t' b' r' u'
  assembled-eq t t' b b' r r' u u' ht hb hr hu = rw (ht, hb, hr, hu) refl

  whole-drop :
      (n : ℕ) → 16 < n → (ltb 0 n && eqb (n % 16) 0) ≡ (ltb 0 (n - 16) && eqb ((n - 16) % 16) 0)
  whole-drop n h = ground arith

  last_block-drop :
      (bytes : Bytes) (before : ℕ)
      → 16 < length bytes
      → last_block k bytes (suc before) ≡ last_block k (drop 16 bytes) before
  unfolding last_block
  last_block-drop bytes before h =
      let shorter : length (drop 16 bytes) ≡ length bytes - 16 = length-drop 16 bytes in
      assembled-eq (ltb 0 (length bytes) && eqb (length bytes % 16) 0)
        (ltb 0 (length (drop 16 bytes)) && eqb (length (drop 16 bytes) % 16) 0)
        (subarray (suc before * 16) ((suc before + 1) * 16) bytes)
        (subarray (before * 16) ((before + 1) * 16) (drop 16 bytes))
        (length bytes - suc before * 16) (length (drop 16 bytes) - before * 16)
        (subarray (suc before * 16) (length bytes) bytes)
        (subarray (before * 16) (length (drop 16 bytes)) (drop 16 bytes))
        (rw shorter (whole-drop (length bytes) h))
        (subarray-next (before * 16) ((before + 1) * 16) (suc before * 16) ((suc before + 1) * 16)
          bytes (omega arith) (omega arith))
        (omega (arith, shorter))
        (subarray-next (before * 16) (length (drop 16 bytes)) (suc before * 16) (length bytes) bytes
          (omega arith) (omega (arith, shorter)))

  -- From a chaining value on, with the rounds that the length asks for and enough fuel.
  chained-standard :
      (rounds fuel : ℕ) (x bytes : Bytes)
      → rounds < fuel
      → length bytes ≤ (rounds + 1) * 16
      → (rounds * 16 < length bytes) ⊎ (rounds ≡ 0)
      → aes key (xor_into (chain aes key bytes rounds 0 x) (last_block k bytes rounds))
        ≡ standard aes key k.k1 k.k2 fuel x bytes
  unfolding chain standard
  chained-standard rounds zero x bytes e h l = absurd (omega arith)
  chained-standard zero (suc fuel) x bytes e h l =
      let short : length bytes ≤ 16 = omega arith in
      let test : leb (length bytes) 16 ≡ true = ground arith in
      rw test (
        ap (λ t. aes key (xor_into x t)) (last_block-short bytes short)
        ∙ ap (aes key) (xor_into-exclusive_or x (masked k.k1 k.k2 bytes)))
  chained-standard (suc rounds) (suc fuel) x bytes e h (inr l) = absurd (omega arith)
  chained-standard (suc rounds) (suc fuel) x bytes e h (inl l) =
      let long : 16 < length bytes = omega arith in
      let test : leb (length bytes) 16 ≡ false = ground arith in
      let shorter : length (drop 16 bytes) ≡ length bytes - 16 = length-drop 16 bytes in
      let x' = aes key (exclusive_or x (take 16 bytes)) in
      let same = xor_into-exclusive_or x (take 16 bytes) in
      let more : rounds * 16 < length (drop 16 bytes) = omega (arith, shorter) in
      rw (test, same, chain-drop rounds 0 x' bytes, last_block-drop bytes rounds long)
        (chained-standard rounds fuel x' (drop 16 bytes) (omega arith) (omega (arith, shorter))
          (inl more))

rounds-cases : (n : ℕ) → (full_blocks n * 16 < n) ⊎ (full_blocks n ≡ 0)
rounds-cases zero = inr (omega arith)
rounds-cases (suc n) = inl (omega arith)

-- The code's subkeys are the standard's.
derive_subkeys-subkey :
    (aes : Cipher) (key : Bytes)
    → IsBlockCipher aes
    → length key ≡ 16
    → ((derive_subkeys aes key).k1 ≡ subkey (aes key (nulls 16)))
      × ((derive_subkeys aes key).k2 ≡ subkey (subkey (aes key (nulls 16))))
unfolding derive_subkeys
derive_subkeys-subkey aes key law h =
    let l = aes key (zeros 16) in
    let block : IsBlock l = law key (zeros 16) h refl in
    let first = next_key-subkey l block in
    (first, next_key-subkey (next_key l) (next_key-IsBlock l block) ∙ ap subkey first)

-- With a cipher that makes blocks of 16 bytes, on a key of 16 bytes the CMAC of every message is the
-- standard's; any other key is refused.
pub aes_cmac-nist_cmac :
    (aes : Cipher) (key message : Bytes)
    → IsBlockCipher aes
    → aes_cmac aes key message ≡ (
        if eqb (length key) 16
        then ok (nist_cmac aes key message)
        else throw (other "AES-128-CMAC requires a 16-byte key"))
unfolding aes_cmac nist_cmac
aes_cmac-nist_cmac aes key message law = elim (Bool-cases (eqb (length key) 16)) [
  | inr refused ↦ rw (refused, aes_cmac) refl
  | inl fits ↦
      let (first, second) = derive_subkeys-subkey aes key law (ground arith) in
      let run =
        chained-standard aes key (derive_subkeys aes key) (full_blocks (length message))
          (suc (length message)) (zeros 16) message (omega arith) (omega arith)
          (rounds-cases (length message)) in
      rw (fits, aes_cmac)
        (ap ok (
          run
          ∙ rw (first, second)
              (ap
                (λ x.
                  standard aes key (subkey (aes key (nulls 16)))
                    (subkey (subkey (aes key (nulls 16)))) (suc (length message)) x message)
                (zeros-nulls 16))))
]
