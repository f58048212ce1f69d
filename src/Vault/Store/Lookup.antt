-- ===== src/Vault/Store/Lookup.antt =====
-- What the lookups of `storeCard` find, and what a store of a new card writes.
use karta_cards_vera.Common.{
  ◌≡◌, refl, String, Text, Option, none, some, Bool, true, false, List, [], ◌∷◌, ◌++◌, take, ◌⊎◌,
  find, any, arith, ◌==◌, eq_refl, Bool-cases, inl, inr,
}
use karta_cards_vera.Core.Exec.{ok, Outcome-cases}
use karta_cards_vera.Core.Encryption.{encrypt}
use karta_cards_vera.Core.Json.{stringify_card}
use karta_cards_vera.Vault.Luhn.{strip}
use karta_cards_vera.Vault.Db.{
  Db, VaultEntry, create_entry, emit, clashes, has_key, find_by_key, find_by_fingerprint,
}
use karta_cards_vera.Vault.Store.{
  Crypto, Fresh, StoreInput, StoreResult, on_existing, find_prior, fingerprint_pan, store_new,
  store_valid, store_card, last4, short_year,
}

pub find-append_none {ℓ} :
    {A : Type ℓ} (p : A → Bool) (xs : List A) (y : A)
    → find p xs ≡ none
    → p y ≡ true
    → find p (xs ++ y ∷ []) ≡ some y
find-append_none p [] y h k = rw k
find-append_none p (x ∷ xs) y h k = ground (arith, find-append_none p xs y)

-- A new entry is found again by its key, and by its fingerprint.
pub find_prior-append :
    (key : Option String) (xs : List VaultEntry) (row : VaultEntry)
    → find_prior key xs ≡ none
    → row.idempotency_key ≡ key
    → (find_prior key (xs ++ row ∷ []) ≡ none) ⊎ (find_prior key (xs ++ row ∷ []) ≡ some row)
unfolding find_prior find_by_key
find_prior-append none xs row h e = inl refl
find_prior-append (some k) xs row h e = elim (Bool-cases (k == "")) [
  | inl empty ↦ inl (rw empty)
  | inr full ↦ inr (
      rw full (
        find-append_none (λ x. has_key k x.idempotency_key) xs row (rw full at h)
          (rw e (eq_refl k))))
]

pub find_by_fingerprint-append :
    (fp : String) (xs : List VaultEntry) (row : VaultEntry)
    → find_by_fingerprint fp xs ≡ none
    → row.pan_fingerprint ≡ fp
    → find_by_fingerprint fp (xs ++ row ∷ []) ≡ some row
unfolding find_by_fingerprint
find_by_fingerprint-append fp xs row h e =
    find-append_none (λ x. x.pan_fingerprint == fp) xs row h (rw e (eq_refl fp))

-- What a successful store of a new card did.
pub record Stored (c : Crypto) (f : Fresh) (input : StoreInput) (pan : Text) (fp : String)
    (r : StoreResult) (s s' : Db) : Type 0 where
  pub row : VaultEntry
  pub fresh_id : row.id ≡ f.id
  pub key : row.idempotency_key ≡ input.idempotency_key
  pub fingerprint : row.pan_fingerprint ≡ fp
  pub digits : row.pan_last4 ≡ last4 pan
  pub sealed :
      encrypt c.gcm f.iv (stringify_card pan input.cvc) c.key_provider ≡ ok row.encrypted_pan
  pub month : row.pan_expiry_month ≡ input.expiry_month
  pub year : row.pan_expiry_year ≡ short_year input.expiry_year
  pub holder : row.cardholder_name ≡ input.cardholder_name
  pub bin : row.pan_bin ≡ take 6 pan
  pub result : r ≡ record { vault_entry_id = f.id; pan_last4 = last4 pan; deduped = false }
  pub entries : s'.entries ≡ s.entries ++ row ∷ []
  pub unclashing : any (clashes row) s.entries ≡ false

pub store_new-Stored :
    (c : Crypto) (f : Fresh) (input : StoreInput) (pan : Text) (fp : String) (r : StoreResult)
    (s s' : Db)
    → store_new c f input pan fp s ≡ (ok r, s')
    → Stored c f input pan fp r s s'
unfolding store_new create_entry emit
store_new-Stored c f input pan fp r s s' h =
    elim (Outcome-cases (encrypt c.gcm f.iv (stringify_card pan input.cvc) c.key_provider)) [
      | inr (e, no_key) ↦ ground arith
      | inl (enc, sealed) ↦
          let row : VaultEntry = record {
            id = f.id;
            idempotency_key = input.idempotency_key;
            pan_last4 = last4 pan;
            pan_bin = take 6 pan;
            cardholder_name = input.cardholder_name;
            pan_expiry_month = input.expiry_month;
            pan_expiry_year = short_year input.expiry_year;
            encrypted_pan = enc;
            pan_fingerprint = fp;
          } in
          elim (Bool-cases (any (clashes row) s.entries)) [
            | inl clash ↦ ground arith
            | inr free ↦ record {
              row = row;
              fresh_id = refl;
              key = refl;
              fingerprint = refl;
              digits = refl;
              sealed = sealed;
              month = refl;
              year = refl;
              holder = refl;
              bin = refl;
              result = ground arith;
              entries = ground arith;
              unclashing = free;
            }
          ]
    ]

-- A store that answered with a new entry wrote it.
pub store_card-Stored :
    (c : Crypto) (f : Fresh) (input : StoreInput) (r : StoreResult) (s s' : Db)
    → store_card c f input s ≡ (ok r, s')
    → r.deduped ≡ false
    → Stored c f input (strip input.pan) (fingerprint_pan c (strip input.pan)) r s s'
unfolding store_card store_valid on_existing
store_card-Stored c f input r s s' h new =
    store_new-Stored c f input (strip input.pan) (fingerprint_pan c (strip input.pan)) r s s'
      (ground arith)
