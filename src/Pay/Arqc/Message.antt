-- ===== src/Pay/Arqc/Message.antt =====
-- The authenticated message tells its fields apart.
use karta_cards_vera.Common.{
  ℕ, zero, suc, ◌*◌, ◌/◌, ◌%◌, ◌<◌, ◌≡◌, ◌≢◌, refl, sym, ap, ◌∙◌, ℤ, pos, negsuc, codes, [], ◌∷◌,
  ◌++◌, All, length, length-append, arith, inl, inr,
}
use karta_cards_vera.Core.Exec.{ok, Outcome-cases}
use karta_cards_vera.Core.Encryption.{Bytes}
use karta_cards_vera.Pay.Arqc.{
  ArqcInput, utf8, big_endian, write_uint32, write_uint64, message, build_message,
}

length-big_endian : (k n : ℕ) → length (big_endian k n) ≡ k
unfolding big_endian
length-big_endian zero n = refl
length-big_endian (suc k) n =
    omega (
      arith,
      length-append (big_endian k (n / 256)) ((n % 256) ∷ []),
      length-big_endian k (n / 256),
    )

snoc-injective : (xs ys : Bytes) (a b : ℕ) → xs ++ a ∷ [] ≡ ys ++ b ∷ [] → (xs ≡ ys) × (a ≡ b)
snoc-injective [] [] a b h = (refl, ground arith)
snoc-injective [] (y ∷ []) a b h = ground arith
snoc-injective [] (y ∷ z ∷ ys) a b h = ground arith
snoc-injective (x ∷ []) [] a b h = ground arith
snoc-injective (x ∷ z ∷ xs) [] a b h = ground arith
snoc-injective (x ∷ xs) (y ∷ ys) a b h =
    let (rest, last) = snoc-injective xs ys a b (ground arith) in (ground arith, last)

-- How many numbers fit into so many bytes.
abbrev capacity : ℕ → ℕ
capacity zero = 1
capacity (suc k) = 256 * capacity k

big_endian-injective :
    (k n m : ℕ) → n < capacity k → m < capacity k → big_endian k n ≡ big_endian k m → n ≡ m
unfolding big_endian
big_endian-injective zero n m hn hm h = omega arith
big_endian-injective (suc k) n m hn hm h =
    let (high, low) =
      snoc-injective (big_endian k (n / 256)) (big_endian k (m / 256)) (n % 256) (m % 256) h in
    let same = big_endian-injective k (n / 256) (m / 256) (omega arith) (omega arith) high in
    omega arith

-- Two texts with no zero byte, each ended by one.
split_zero :
    (xs ys r s : Bytes)
    → All (λ b. b ≢ 0) xs
    → All (λ b. b ≢ 0) ys
    → xs ++ 0 ∷ r ≡ ys ++ 0 ∷ s
    → (xs ≡ ys) × (r ≡ s)
split_zero [] [] r s hx hy h = (refl, ground arith)
split_zero [] (y ∷ ys) r s hx (hy, _) h = absurd (hy (ground arith))
split_zero (x ∷ xs) [] r s (hx, _) hy h = absurd (hx (ground arith))
split_zero (x ∷ xs) (y ∷ ys) r s (_, hx) (_, hy) h =
    let (rest, tail) = split_zero xs ys r s hx hy (ground arith) in (ground arith, tail)

tail_of : (r s : Bytes) → 0 ∷ r ≡ 0 ∷ s → r ≡ s
tail_of r s h = ground arith

split_length : (xs ys r s : Bytes) → length xs ≡ length ys → xs ++ r ≡ ys ++ s → (xs ≡ ys) × (r ≡ s)
split_length [] [] r s n h = (refl, h)
split_length [] (y ∷ ys) r s n h = absurd (omega arith)
split_length (x ∷ xs) [] r s n h = absurd (omega arith)
split_length (x ∷ xs) (y ∷ ys) r s n h =
    let (rest, tail) = split_length xs ys r s (omega arith) (ground arith) in (ground arith, tail)

write_uint32-injective :
    (n m : ℕ) (bs : Bytes) → write_uint32 n ≡ ok bs → write_uint32 m ≡ ok bs → n ≡ m
unfolding write_uint32
write_uint32-injective n m bs h h' =
    big_endian-injective 4 n m (ground arith) (ground arith) (ground arith)

write_uint64-injective :
    (n m : ℤ) (bs : Bytes) → write_uint64 n ≡ ok bs → write_uint64 m ≡ ok bs → n ≡ m
unfolding write_uint64
write_uint64-injective (pos n) (pos m) bs h h' =
    ap pos (big_endian-injective 8 n m (ground arith) (ground arith) (ground arith))
write_uint64-injective (negsuc n) m bs h h' = cc
write_uint64-injective (pos n) (negsuc m) bs h h' = cc

length-write_uint64 : (n : ℤ) (bs : Bytes) → write_uint64 n ≡ ok bs → length bs ≡ 8
unfolding write_uint64
length-write_uint64 (pos n) bs h =
    let written : big_endian 8 n ≡ bs = ground arith in rw (← written) (length-big_endian 8 n)
length-write_uint64 (negsuc n) bs h = cc

-- The variable fields of an input have no zero byte.
pub record HasNoZero (i : ArqcInput) : Type 0 where
  pub currency : All (λ b. b ≢ 0) (utf8 i.currency)
  pub merchant : All (λ b. b ≢ 0) (utf8 (codes i.merchant_ref))
  pub nonce : All (λ b. b ≢ 0) (utf8 (codes i.nonce))

-- A message that was built, with the parts it was built from.
record Built (i : ArqcInput) (msg : Bytes) : Type 0 where
  atc : Bytes
  amount : Bytes
  wrote_atc : write_uint32 i.atc ≡ ok atc
  wrote_amount : write_uint64 i.amount ≡ ok amount
  is_message :
      message amount (utf8 i.currency) (utf8 (codes i.merchant_ref)) (utf8 (codes i.nonce)) atc
      ≡ msg

build_message-Built : (i : ArqcInput) (msg : Bytes) → build_message i ≡ ok msg → Built i msg
unfolding build_message
build_message-Built i msg h = elim (Outcome-cases (write_uint32 i.atc)) [
  | inr (e, x) ↦ ground arith
  | inl (atc, x) ↦ elim (Outcome-cases (write_uint64 i.amount)) [
    | inr (e, y) ↦ ground arith
    | inl (amount, y) ↦ record {
      atc = atc;
      amount = amount;
      wrote_atc = x;
      wrote_amount = y;
      is_message = ground arith;
    }
  ]
]

-- Two inputs whose variable fields have no zero byte, with the same authenticated message, have the
-- same counter and amount, and the same currency, merchant reference and nonce in UTF-8.
pub build_message-injective :
    (i j : ArqcInput) (msg : Bytes)
    → HasNoZero i
    → HasNoZero j
    → build_message i ≡ ok msg
    → build_message j ≡ ok msg
    → (i.atc ≡ j.atc)
      × (i.amount ≡ j.amount)
      × (utf8 i.currency ≡ utf8 j.currency)
      × (utf8 (codes i.merchant_ref) ≡ utf8 (codes j.merchant_ref))
      × (utf8 (codes i.nonce) ≡ utf8 (codes j.nonce))
build_message-injective i j msg hi hj built built' =
    let a = build_message-Built i msg built in
    let b = build_message-Built j msg built' in
    let sizes =
      length-write_uint64 i.amount a.amount a.wrote_amount
      ∙ sym (length-write_uint64 j.amount b.amount b.wrote_amount) in
    let (amounts, r1) =
      split_length a.amount b.amount _ _ sizes (a.is_message ∙ sym b.is_message) in
    let (currencies, r2) = split_zero _ _ _ _ hi.currency hj.currency (tail_of _ _ r1) in
    let (merchants, r3) = split_zero _ _ _ _ hi.merchant hj.merchant r2 in
    let (nonces, atcs) = split_zero _ _ _ _ hi.nonce hj.nonce r3 in
    (
      write_uint32-injective i.atc j.atc b.atc (a.wrote_atc ∙ ap ok atcs) b.wrote_atc,
      write_uint64-injective i.amount j.amount b.amount (a.wrote_amount ∙ ap ok amounts)
          b.wrote_amount,
      currencies,
      merchants,
      nonces,
    )
