-- ===== src/Vault/Store.antt =====
-- services/vault/src/vault/store.service.ts
pub mod Lookup
pub mod Retry
pub mod Refusals
use karta_cards_vera.Common.{
  ◌-◌, String, Text, Option, none, some, Bool, true, false, ◌&&◌, ◌||◌, List, [], ◌∷◌, ◌==◌, leb,
  eqb, length, take, drop, all, is_digit, if◌then◌else◌, or_else,
}
use karta_cards_vera.Core.Error.{bad_request, conflict}
use karta_cards_vera.Core.Exec.{ok, Exec, pure, fail_with, ensure, lift, ◌>>=◌, ◌>>◌}
use karta_cards_vera.Core.Encryption.{Gcm, KeyProvider, Bytes, encrypt}
use karta_cards_vera.Core.Json.{stringify_card}
use karta_cards_vera.Vault.Luhn.{strip, luhn_valid, fingerprint_input}
use karta_cards_vera.Vault.Audit.{Actor, VaultEvent}
use karta_cards_vera.Vault.Db.{
  Db, VaultEntry, find_entry, find_by_key, find_by_fingerprint, create_entry, emit,
}

pub data OnDuplicate : Type 0 where
  error reuse : OnDuplicate

pub record StoreInput : Type 0 where
  pub pan : Text
  pub cvc : Option Text
  pub expiry_month : Text
  pub expiry_year : Text
  pub cardholder_name : String
  pub by : Actor
  pub on_duplicate : Option OnDuplicate
  pub idempotency_key : Option String

pub record StoreResult : Type 0 where
  pub vault_entry_id : String
  pub pan_last4 : Text
  pub deduped : Bool

-- What the vault takes from outside: HMAC-SHA256 under the fingerprint key, in hex, AES-GCM, and
-- its data-encryption keys.
pub record Crypto : Type 0 where
  pub hmac_hex : Text → String
  pub gcm : Gcm
  pub key_provider : KeyProvider

-- The random values of one call: the new row's id and the IV.
pub record Fresh : Type 0 where
  pub id : String
  pub iv : Bytes

-- `/^(0[1-9]|1[0-2])$/`
abbrev pub is_month : Text → Bool
is_month (a ∷ b ∷ []) =
    (eqb a b'0' && (leb b'1' b && leb b b'9')) || (eqb a b'1' && (leb b'0' b && leb b b'2'))
is_month _ = false

abbrev pub short_year : Text → Text
short_year y = if eqb (length y) 4 then drop 2 y else y

-- `/^[0-9]{2}$/`
abbrev pub is_year : Text → Bool
is_year y = eqb (length y) 2 && all is_digit y

-- `pan.slice(-4)`
abbrev pub last4 : Text → Text
last4 pan = drop (length pan - 4) pan

unfoldable pub fingerprint_pan : Crypto → Text → String
unfolding fingerprint_input
fingerprint_pan c raw = c.hmac_hex (fingerprint_input raw)

abbrev pub reused : VaultEntry → StoreResult
reused e = record { vault_entry_id = e.id; pan_last4 = e.pan_last4; deduped = true }

-- A truthy idempotency key is looked up.
unfoldable pub find_prior : Option String → List VaultEntry → Option VaultEntry
unfolding find_by_key
find_prior none entries = none
find_prior (some k) entries = if k == "" then none else find_by_key k entries

-- The branch on an entry with the same fingerprint.
unfoldable pub on_existing : StoreInput → VaultEntry → OnDuplicate → Exec Db StoreResult
unfolding emit
on_existing input existing error = do
  emit (VaultEvent.duplicate_rejected existing.id input.by)
  fail_with (conflict "vault_duplicate" (some existing.id))
on_existing input existing reuse = pure (reused existing)

module _ (c : Crypto) (fresh : Fresh) where
  -- Encrypts and writes a new entry.
  unfoldable pub store_new : StoreInput → Text → String → Exec Db StoreResult
  unfolding create_entry emit
  store_new input pan fp = do
    enc ← lift (encrypt c.gcm fresh.iv (stringify_card pan input.cvc) c.key_provider)
    row ← create_entry (record {
      id = fresh.id;
      idempotency_key = input.idempotency_key;
      pan_last4 = last4 pan;
      pan_bin = take 6 pan;
      cardholder_name = input.cardholder_name;
      pan_expiry_month = input.expiry_month;
      pan_expiry_year = short_year input.expiry_year;
      encrypted_pan = enc;
      pan_fingerprint = fp;
    })
    emit (VaultEvent.create row.id input.by)
    pure (record { vault_entry_id = row.id; pan_last4 = last4 pan; deduped = false })

  -- The lookups after validation: by idempotency key, then by fingerprint.
  unfoldable pub store_valid : StoreInput → Text → Exec Db StoreResult
  store_valid input pan s = elim (find_prior input.idempotency_key s.entries) [
    | some prior ↦ (ok (reused prior), s)
    | none ↦ elim (find_by_fingerprint (fingerprint_pan c pan) s.entries) [
      | some existing ↦ on_existing input existing (or_else input.on_duplicate reuse) s
      | none ↦ store_new input pan (fingerprint_pan c pan) s
    ]
  ]

  unfoldable pub store_card : StoreInput → Exec Db StoreResult
  store_card input = do
    ensure (luhn_valid (strip input.pan)) (bad_request "invalid_pan")
    ensure (is_month input.expiry_month) (bad_request "invalid_expiry")
    ensure (is_year (short_year input.expiry_year)) (bad_request "invalid_expiry")
    store_valid input (strip input.pan)

-- `getCardMetadata`: the columns of an entry that are no cardholder secret.
pub record CardMetadata : Type 0 where
  pub id : String
  pub pan_last4 : Text
  pub pan_bin : Text
  pub pan_expiry_month : Text
  pub pan_expiry_year : Text
  pub cardholder_name : String

unfoldable pub get_card_metadata : String → Db → Option CardMetadata
unfolding find_entry
get_card_metadata id s = elim (find_entry id s.entries) [
  | none ↦ none
  | some e ↦ some (record {
    id = e.id;
    pan_last4 = e.pan_last4;
    pan_bin = e.pan_bin;
    pan_expiry_month = e.pan_expiry_month;
    pan_expiry_year = e.pan_expiry_year;
    cardholder_name = e.cardholder_name;
  })
]
