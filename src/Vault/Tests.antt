-- ===== src/Vault/Tests.antt =====
-- Witnesses for the theorems about services/vault, and the runs that they start from.
use karta_cards_vera.Common.{
  ◌≡◌, ◌≤◌, refl, ℕ, List, [], ◌∷◌, ◌++◌, some, none, true, false, Text, codes, arith,
  if◌then◌else◌, text_eq,
}
use karta_cards_vera.Core.Exec.{ok}
use karta_cards_vera.Core.Encryption.{
  Gcm, KeyProvider, EncryptedPayload, envelope, get_key, find_key, encrypt, decrypt,
}
use karta_cards_vera.Core.Encryption.RoundTrip.{GcmLaws, decrypt-encrypt}
use karta_cards_vera.Core.Json.{stringify_card}
use karta_cards_vera.Vault.Luhn.{luhn_valid}
use karta_cards_vera.Vault.Luhn.Detects.{luhn_valid-one_digit}
use karta_cards_vera.Vault.Audit.{Actor, VaultEvent, normalise_event}
use karta_cards_vera.Vault.Db.{
  Db, VaultEntry, find_token, find_entry, find_by_fingerprint, find_by_key, create_entry,
  create_token, emit,
}
use karta_cards_vera.Vault.Store.{
  Crypto, Fresh, StoreInput, StoreResult, store_card, store_valid, store_new, find_prior,
  fingerprint_pan, on_existing,
}
use karta_cards_vera.Vault.Store.Retry.{store_card-retry}
use karta_cards_vera.Vault.Retrieval.{
  minted_row, MintTokenInput, MintTokenResult, ConsumeContext, mint_retrieval_token,
  consume_retrieval_token,
}
use karta_cards_vera.Vault.Retrieval.Tokens.{IsUnique}
use karta_cards_vera.Vault.Retrieval.SingleUse.{mint, consume, release_count, release_count-le}
use karta_cards_vera.Vault.Retrieval.Verdict.{verdict, consume-verdict}
use karta_cards_vera.Vault.Retrieval.EndToEnd.{stored_card, store-mint-consume}

abbrev visa : Text
visa = codes "4242 4242 4242 4242"

visa-luhn_valid : luhn_valid visa ≡ true
unfolding luhn_valid
visa-luhn_valid = refl

luhn_valid-one_digit_example : luhn_valid (codes "4242 4242 4242 424" ++ b'3' ∷ []) ≡ false
luhn_valid-one_digit_example =
    luhn_valid-one_digit (codes "4242 4242 4242 424") [] b'2' b'3' refl refl (omega arith)
      visa-luhn_valid

-- AES-GCM that leaves the plaintext as it is.
abbrev plain_gcm : Gcm
plain_gcm = record {
  seal =
      λ key iv plain. (plain, 0 ∷ 0 ∷ 0 ∷ 0 ∷ 0 ∷ 0 ∷ 0 ∷ 0 ∷ 0 ∷ 0 ∷ 0 ∷ 0 ∷ 0 ∷ 0 ∷ 0 ∷ 0 ∷ []);
  open_box = λ key iv ct tag. some ct;
}

plain_gcm-GcmLaws : GcmLaws plain_gcm
plain_gcm-GcmLaws = record { tag_length = λ key iv plain. refl; opens = λ key iv plain. refl }

abbrev iv : List ℕ
iv = 1 ∷ 2 ∷ 3 ∷ 4 ∷ 5 ∷ 6 ∷ 7 ∷ 8 ∷ 9 ∷ 10 ∷ 11 ∷ 12 ∷ []

abbrev keys : KeyProvider
keys = record { active_version = 1; keys = (1, 7 ∷ []) ∷ [] }

abbrev rotated_keys : KeyProvider
rotated_keys = record { active_version = 2; keys = (2, 8 ∷ []) ∷ (1, 7 ∷ []) ∷ [] }

abbrev secret : EncryptedPayload
secret = record { ciphertext = envelope iv (plain_gcm.seal [] iv (3 ∷ [])); key_version = 1 }

decrypt-encrypt_example : decrypt plain_gcm secret rotated_keys ≡ ok (3 ∷ [])
unfolding get_key find_key encrypt
decrypt-encrypt_example =
    decrypt-encrypt plain_gcm plain_gcm-GcmLaws iv refl keys rotated_keys (3 ∷ []) secret refl refl

-- A fingerprint that tells two card numbers apart.
abbrev pub toy : Crypto
toy = record {
  hmac_hex = λ pan. if text_eq pan (codes "4242424242424242") then "f1" else "f2";
  gcm = plain_gcm;
  key_provider = keys;
}

abbrev pub fresh : Fresh
fresh = record { id = "ve_1"; iv = iv }

abbrev other_fresh : Fresh
other_fresh = record { id = "ve_2"; iv = iv }

abbrev pub admin : Actor
admin = record { actor = "admin"; purpose = "registration"; ip = none; ua = none }

abbrev pub card : StoreInput
card = record {
  pan = visa;
  cvc = some (codes "123");
  expiry_month = codes "12";
  expiry_year = codes "2030";
  cardholder_name = "A Holder";
  by = admin;
  on_duplicate = none;
  idempotency_key = some "k1";
}

abbrev keyed : StoreInput
keyed = record card { idempotency_key = some "k2" }

abbrev empty_vault : Db
empty_vault = record { entries = []; tokens = []; access_log = [] }

abbrev stored : StoreResult
stored = record { vault_entry_id = "ve_1"; pan_last4 = codes "4242"; deduped = false }

abbrev vault_entry : VaultEntry
vault_entry = record {
  id = "ve_1";
  idempotency_key = some "k1";
  pan_last4 = codes "4242";
  pan_bin = codes "424242";
  cardholder_name = "A Holder";
  pan_expiry_month = codes "12";
  pan_expiry_year = codes "30";
  encrypted_pan = record {
    ciphertext =
        envelope iv
          (plain_gcm.seal [] iv (stringify_card (codes "4242424242424242") (some (codes "123"))));
    key_version = 1;
  };
  pan_fingerprint = "f1";
}

abbrev pub vault : Db
vault = record {
  entries = vault_entry ∷ [];
  tokens = [];
  access_log = normalise_event (VaultEvent.create "ve_1" admin) ∷ [];
}

store_run : store_card toy fresh card empty_vault ≡ (ok stored, vault)
unfolding store_card store_valid store_new find_prior find_by_fingerprint find_by_key create_entry
    emit encrypt get_key find_key luhn_valid fingerprint_pan
store_run = refl

store_card-retry_example :
    store_card toy other_fresh card vault ≡ (ok (record stored { deduped = true }), vault)
store_card-retry_example =
    store_card-retry toy fresh other_fresh card stored empty_vault vault (λ h. cc) store_run

abbrev order : MintTokenInput
order = record {
  vault_entry_id = "ve_1";
  amount = 1500;
  currency = "AUD";
  by = admin;
  transaction_id = none;
}

abbrev pub sale : ConsumeContext
sale = record {
  expected_amount = 1500;
  expected_currency = "AUD";
  by = admin;
  transaction_id = none;
}

abbrev minted : MintTokenResult
minted = record { token = "vrt_1"; retrieval_token_id = "rt_1"; expires_at = 61000 }

abbrev pub with_token : Db
with_token = record vault {
  tokens = minted_row order "rt_1" "vrt_1" 61000 ∷ [];
  access_log =
      vault.access_log ++ normalise_event (VaultEvent.token_minted "ve_1" "rt_1" none admin) ∷ [];
}

mint_run : mint_retrieval_token 60 1000 "rt_1" "vrt_1" order vault ≡ (ok minted, with_token)
unfolding mint_retrieval_token find_entry create_token emit
mint_run = refl

no_tokens-IsUnique : IsUnique []
no_tokens-IsUnique t = omega arith

pub one_token-IsUnique : IsUnique with_token.tokens
one_token-IsUnique t = ground arith

store-mint-consume_example :
    (consume_retrieval_token toy 2000 "vrt_1" sale with_token).0
    ≡ ok (record { retrieval_token_id = "rt_1"; vault_entry_id = "ve_1"; card = stored_card card })
store-mint-consume_example =
    store-mint-consume toy fresh card stored 60 1000 2000 "rt_1" "vrt_1" order minted sale
      empty_vault vault with_token plain_gcm-GcmLaws refl no_tokens-IsUnique store_run refl refl
      mint_run (omega arith) refl refl

consume-verdict_example :
    (consume_retrieval_token toy 2000 "vrt_1" sale with_token).0
    ≡ verdict toy 2000 sale with_token.entries (find_token "vrt_1" with_token.tokens)
consume-verdict_example = consume-verdict toy 2000 "vrt_1" sale with_token one_token-IsUnique

release_count-le_example :
    release_count toy "vrt_1"
      (consume 2000 "vrt_1" sale
        ∷ consume 3000 "vrt_1" sale
        ∷ mint 60 1000 "rt_1" "vrt_1" order
        ∷ [])
      with_token
    ≤ 1
release_count-le_example =
    release_count-le toy "vrt_1"
      (consume 2000 "vrt_1" sale
        ∷ consume 3000 "vrt_1" sale
        ∷ mint 60 1000 "rt_1" "vrt_1" order
        ∷ [])
      with_token one_token-IsUnique

-- The same card under a second key, and then another card under that key.
abbrev other_card : StoreInput
other_card = record keyed { pan = codes "4000056655665556" }

abbrev known : StoreResult
known = record stored { deduped = true }

abbrev second : StoreResult
second = record { vault_entry_id = "ve_2"; pan_last4 = codes "5556"; deduped = false }

abbrev two_cards : Db
two_cards = (store_card toy other_fresh other_card vault).1

keyed_run : store_card toy fresh keyed vault ≡ (ok known, vault)
unfolding store_card store_valid find_prior find_by_fingerprint find_by_key luhn_valid
    fingerprint_pan on_existing
keyed_run = refl

other_card_run : store_card toy other_fresh other_card vault ≡ (ok second, two_cards)
unfolding store_card store_valid store_new find_prior find_by_fingerprint find_by_key create_entry
    emit encrypt get_key find_key luhn_valid fingerprint_pan
other_card_run = refl
