-- ===== src/Core/Encryption/RoundTrip.antt =====
-- Decryption undoes encryption, also after the active key has been rotated.
use karta_cards_vera.Common.{
  ℕ, zero, suc, ◌+◌, ◌-◌, ◌≡◌, refl, ap, ◌∙◌, sym, append_assoc, false, some, List, [], ◌∷◌, ◌++◌,
  length, take, drop, arith, length-append, inl, inr, ltb,
}
use karta_cards_vera.Core.Exec.{ok, Outcome-cases}
use karta_cards_vera.Core.Encryption.{
  Bytes, Gcm, KeyProvider, EncryptedPayload, get_key, encrypt, decrypt, open_envelope, envelope,
  iv_len, tag_len,
}

take-append {ℓ} : {A : Type ℓ} (xs ys : List A) (n : ℕ) → n ≡ length xs → take n (xs ++ ys) ≡ xs
take-append [] ys zero e = refl
take-append [] ys (suc n) e = absurd (omega arith)
take-append (x ∷ xs) ys zero e = absurd (omega arith)
take-append (x ∷ xs) ys (suc n) e = ap (λ (r : List _). x ∷ r) (take-append xs ys n (omega arith))

drop-append {ℓ} : {A : Type ℓ} (xs ys : List A) (n : ℕ) → n ≡ length xs → drop n (xs ++ ys) ≡ ys
drop-append [] ys zero e = refl
drop-append [] ys (suc n) e = absurd (omega arith)
drop-append (x ∷ xs) ys zero e = absurd (omega arith)
drop-append (x ∷ xs) ys (suc n) e = drop-append xs ys n (omega arith)

-- What AES-GCM guarantees: the tag has 16 bytes, and a box opens under what sealed it.
pub record GcmLaws (gcm : Gcm) : Type 0 where
  pub tag_length : (key iv plain : Bytes) → length (gcm.seal key iv plain).1 ≡ tag_len
  pub opens :
      (key iv plain : Bytes)
      → gcm.open_box key iv (gcm.seal key iv plain).0 (gcm.seal key iv plain).1 ≡ some plain

-- The three slices of an envelope.
module _ (iv ct tag : Bytes) (iv_fits : length iv ≡ iv_len) (tag_fits : length tag ≡ tag_len) where
  length-envelope : length (iv ++ (ct ++ tag)) ≡ length ct + 28
  length-envelope = omega (arith, length-append iv (ct ++ tag), length-append ct tag)

  ct_slice : take (suc (length (iv ++ (ct ++ tag))) - 16 - 13) (drop 12 (iv ++ (ct ++ tag))) ≡ ct
  ct_slice =
      rw (drop-append iv (ct ++ tag) 12 (sym iv_fits))
        (take-append ct tag _ (omega (arith, length-envelope)))

  tag_slice : drop (suc (length (iv ++ (ct ++ tag))) - 16) (1 ∷ (iv ++ (ct ++ tag))) ≡ tag
  tag_slice = rw (← append_assoc iv ct tag) (
      drop-append (1 ∷ (iv ++ ct)) tag _
        (omega (arith, length-envelope, length-append iv ct, length-append (iv ++ ct) tag)))

module _ (gcm : Gcm) (laws : GcmLaws gcm) (iv : Bytes) (iv_fits : length iv ≡ iv_len) where
  open_envelope-seal :
      (key plain : Bytes) → open_envelope gcm key (envelope iv (gcm.seal key iv plain)) ≡ ok plain
  unfolding open_envelope
  open_envelope-seal key plain =
      let ct = (gcm.seal key iv plain).0 in
      let tag = (gcm.seal key iv plain).1 in
      let tag_fits = laws.tag_length key iv plain in
      rw (
        take-append iv (ct ++ tag) 12 (sym iv_fits),
        ct_slice iv ct tag iv_fits tag_fits,
        tag_slice iv ct tag iv_fits tag_fits,
        laws.opens key iv plain,
        open_envelope,
      )

  decrypt-envelope :
      (later : KeyProvider) (version : ℕ) (key plain : Bytes)
      → get_key later version ≡ ok key
      → decrypt gcm
          (record { ciphertext = envelope iv (gcm.seal key iv plain); key_version = version })
          later
        ≡ ok plain
  unfolding decrypt
  decrypt-envelope later version key plain held =
      let ct = (gcm.seal key iv plain).0 in
      let tag = (gcm.seal key iv plain).1 in
      let long = length-envelope iv ct tag iv_fits (laws.tag_length key iv plain) in
      let enough : ltb (suc (length (iv ++ (ct ++ tag)))) 29 ≡ false = ground arith in
      rw (held, enough, decrypt) (open_envelope-seal key plain)

  -- What was encrypted under a provider's active key decrypts to the plaintext under every
  -- provider that still holds that key at that version, whichever version is active there.
  pub decrypt-encrypt :
      (kp later : KeyProvider) (plain : Bytes) (payload : EncryptedPayload)
      → get_key later kp.active_version ≡ get_key kp kp.active_version
      → encrypt gcm iv plain kp ≡ ok payload
      → decrypt gcm payload later ≡ ok plain
  unfolding encrypt decrypt
  decrypt-encrypt kp later plain payload kept h =
      elim (Outcome-cases (get_key kp kp.active_version)) [
        | inr (e, missing) ↦ ground arith
        | inl (key, found) ↦
            let sealed : EncryptedPayload = record {
              ciphertext = envelope iv (gcm.seal key iv plain);
              key_version = kp.active_version;
            } in
            let same : sealed ≡ payload = ground arith in
            rw (← same) (decrypt-envelope later kp.active_version key plain (kept ∙ found))
      ]
