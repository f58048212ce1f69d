-- ===== src/Core/Encryption.antt =====
-- packages/core/src/encryption.ts and key-provider.ts: the AES-256-GCM envelope and versioned keys.
-- A buffer is its list of bytes; the base64 and UTF-8 conversions of Node are not modelled.
pub mod RoundTrip
use karta_cards_vera.Common.{
  ℕ, ◌+◌, ◌-◌, Option, none, some, List, [], ◌∷◌, ◌++◌, ltb, eqb, length, take, drop, is_some,
  if◌then◌else◌,
}
use karta_cards_vera.Core.Error.{other}
use karta_cards_vera.Core.Exec.{Outcome, ok, throw}

abbrev pub Bytes : Type 0
Bytes = List ℕ

abbrev pub envelope_version : ℕ
envelope_version = 0x01

abbrev pub iv_len : ℕ
iv_len = 12

abbrev pub tag_len : ℕ
tag_len = 16

-- node:crypto's AES-256-GCM: `seal` returns the ciphertext and the tag, `open_box` the plaintext
-- if the tag is right.
pub record Gcm : Type 0 where
  pub seal : Bytes → Bytes → Bytes → Bytes × Bytes
  pub open_box : Bytes → Bytes → Bytes → Bytes → Option Bytes

pub record KeyProvider : Type 0 where
  pub active_version : ℕ
  pub keys : List (ℕ × Bytes)

unfoldable pub find_key : ℕ → List (ℕ × Bytes) → Option Bytes
find_key version [] = none
find_key version ((v, key) ∷ rest) = if eqb v version then some key else find_key version rest

-- The constructor of `EnvKeyProvider`, on hex strings already decoded.
unfoldable pub env_key_provider : ℕ → List (ℕ × Bytes) → Outcome KeyProvider
unfolding find_key
env_key_provider active keys =
    if is_some (find_key active keys)
    then ok (record { active_version = active; keys = keys })
    else throw (other "no key for the active version was provided")

unfoldable pub get_key : KeyProvider → ℕ → Outcome Bytes
unfolding find_key
get_key kp version = elim (find_key version kp.keys) [
  | none ↦ throw (other "Unknown key version")
  | some key ↦ ok key
]

pub record EncryptedPayload : Type 0 where
  pub ciphertext : Bytes
  pub key_version : ℕ

-- The envelope: version byte, IV, ciphertext, tag.
abbrev pub envelope : Bytes → Bytes × Bytes → Bytes
envelope iv (ct, tag) = (envelope_version ∷ []) ++ (iv ++ (ct ++ tag))

-- `buf[0]`, where the buffer has been found long enough.
abbrev pub version_of : Bytes → ℕ
version_of [] = 0
version_of (b ∷ _) = b

module _ (gcm : Gcm) where
  -- `iv` is what `crypto.randomBytes(IV_LEN)` returned.
  unfoldable pub encrypt : Bytes → Bytes → KeyProvider → Outcome EncryptedPayload
  encrypt iv plaintext kp = elim (get_key kp kp.active_version) [
    | throw e ↦ throw e
    | ok key ↦ ok (record {
      ciphertext = envelope iv (gcm.seal key iv plaintext);
      key_version = kp.active_version;
    })
  ]

  open_envelope : Bytes → Bytes → Outcome Bytes
  open_envelope key buf =
      let tag = drop (length buf - tag_len) buf in
      let ct = take (length buf - tag_len - (1 + iv_len)) (drop (1 + iv_len) buf) in
      elim (gcm.open_box key (take iv_len (drop 1 buf)) ct tag) [
        | none ↦ throw (other "Unsupported state or unable to authenticate data")
        | some plaintext ↦ ok plaintext
      ]

  unfoldable pub decrypt : EncryptedPayload → KeyProvider → Outcome Bytes
  unfolding open_envelope
  decrypt payload kp = elim (get_key kp payload.key_version) [
    | throw e ↦ throw e
    | ok key ↦
        if ltb (length payload.ciphertext) (1 + iv_len + tag_len)
        then throw (other "ciphertext too short")
        else if eqb (version_of payload.ciphertext) envelope_version
        then open_envelope key payload.ciphertext
        else throw (other "unknown envelope version")
  ]
