-- ===== src/Vault/Store/Retry.antt =====
-- Storing again: what a retry answers.
use karta_cards_vera.Common.{
  ◌≡◌, ◌≢◌, sym, subst, ◌∙◌, String, Text, Option, none, some, true, List, [], ◌∷◌, ◌++◌, ◌⊎◌,
  arith, or_else, Option-cases, inl, inr,
}
use karta_cards_vera.Core.Exec.{ok}
use karta_cards_vera.Vault.Luhn.{strip, luhn_valid}
use karta_cards_vera.Vault.Db.{Db, VaultEntry, find_by_fingerprint}
use karta_cards_vera.Vault.Store.{
  Crypto, Fresh, StoreInput, StoreResult, OnDuplicate, error, reuse, on_existing, find_prior,
  fingerprint_pan, store_new, store_valid, store_card, reused, is_month, is_year, short_year,
}
use karta_cards_vera.Vault.Store.Lookup.{
  find_prior-append, find_by_fingerprint-append, store_new-Stored,
}

-- The three ways through the lookups.
module _ (c : Crypto) (f : Fresh) (input : StoreInput) (pan : Text) (s : Db) where
  pub store_valid-known :
      (e : VaultEntry)
      → find_prior input.idempotency_key s.entries ≡ some e
      → store_valid c f input pan s ≡ (ok (reused e), s)
  unfolding store_valid
  store_valid-known e h = rw (h, store_valid)

  pub store_valid-seen :
      (e : VaultEntry)
      → find_prior input.idempotency_key s.entries ≡ none
      → find_by_fingerprint (fingerprint_pan c pan) s.entries ≡ some e
      → store_valid c f input pan s ≡ on_existing input e (or_else input.on_duplicate reuse) s
  unfolding store_valid
  store_valid-seen e h k = rw (h, k, store_valid)

  pub store_valid-new :
      find_prior input.idempotency_key s.entries ≡ none
      → find_by_fingerprint (fingerprint_pan c pan) s.entries ≡ none
      → store_valid c f input pan s ≡ store_new c f input pan (fingerprint_pan c pan) s
  unfolding store_valid
  store_valid-new h k = rw (h, k, store_valid)

  on_existing-reuse :
      (e : VaultEntry)
      → input.on_duplicate ≢ some error
      → on_existing input e (or_else input.on_duplicate reuse) s ≡ (ok (reused e), s)
  unfolding on_existing
  on_existing-reuse e h = ground arith

  pub on_existing-ok :
      (e : VaultEntry) (mode : OnDuplicate) (r : StoreResult) (s' : Db)
      → on_existing input e mode s ≡ (ok r, s')
      → (r ≡ reused e) × (s' ≡ s)
  unfolding on_existing
  on_existing-ok e error r s' h = ground arith
  on_existing-ok e reuse r s' h = ground arith

-- The lookups end at this entry.
abbrev pub Finds : Option String → String → List VaultEntry → VaultEntry → Type 0
Finds key fp entries e =
    (find_prior key entries ≡ some e)
    ⊎ ((find_prior key entries ≡ none) × (find_by_fingerprint fp entries ≡ some e))

Finds-append :
    (key : Option String) (fp : String) (xs : List VaultEntry) (row : VaultEntry)
    → find_prior key xs ≡ none
    → find_by_fingerprint fp xs ≡ none
    → row.idempotency_key ≡ key
    → row.pan_fingerprint ≡ fp
    → Finds key fp (xs ++ row ∷ []) row
Finds-append key fp xs row unknown unseen k p = elim (find_prior-append key xs row unknown k) [
  | inr found ↦ inl found
  | inl still ↦ inr (still, find_by_fingerprint-append fp xs row unseen p)
]

-- Whatever entry a lookup finds, a store answers with it and changes nothing.
store_valid-found :
    (c : Crypto) (f : Fresh) (input : StoreInput) (pan : Text) (s : Db) (e : VaultEntry)
    → input.on_duplicate ≢ some error
    → Finds input.idempotency_key (fingerprint_pan c pan) s.entries e
    → store_valid c f input pan s ≡ (ok (reused e), s)
store_valid-found c f input pan s e mode (inl known) = store_valid-known c f input pan s e known
store_valid-found c f input pan s e mode (inr (unknown, seen)) =
    store_valid-seen c f input pan s e unknown seen ∙ on_existing-reuse c f input pan s e mode

-- After a successful store a lookup finds an entry with the id and the digits that it returned.
store_valid-Finds :
    (c : Crypto) (f : Fresh) (input : StoreInput) (pan : Text) (r : StoreResult) (s s' : Db)
    → input.on_duplicate ≢ some error
    → store_valid c f input pan s ≡ (ok r, s')
    → (e : VaultEntry) × (reused e ≡ record r { deduped = true })
      × Finds input.idempotency_key (fingerprint_pan c pan) s'.entries e
store_valid-Finds c f input pan r s s' mode h =
    elim (Option-cases (find_prior input.idempotency_key s.entries)) [
      | inr (prior, known) ↦
          let same = store_valid-known c f input pan s prior known in
          let same_state : s ≡ s' = ground arith in
          (
            prior,
            ground arith,
            subst (λ (x : Db). Finds input.idempotency_key (fingerprint_pan c pan) x.entries prior)
                same_state (inl known),
          )
      | inl unknown ↦ elim (Option-cases (find_by_fingerprint (fingerprint_pan c pan) s.entries)) [
        | inr (existing, seen) ↦
            let same = store_valid-seen c f input pan s existing unknown seen in
            let (answer, same_state) =
              on_existing-ok c f input pan s existing (or_else input.on_duplicate reuse) r s'
                (sym same ∙ h) in
            (
              existing,
              ground arith,
              subst
                  (λ (x : Db).
                    Finds input.idempotency_key (fingerprint_pan c pan) x.entries existing)
                  (sym same_state) (inr (unknown, seen)),
            )
        | inl unseen ↦
            let fp = fingerprint_pan c pan in
            let new =
              store_new-Stored c f input pan fp r s s'
                (sym (store_valid-new c f input pan s unknown unseen) ∙ h) in
            (
              new.row,
              ground (arith, new.fresh_id, new.digits, new.result),
              rw new.entries (
                  Finds-append input.idempotency_key fp s.entries new.row unknown unseen new.key
                    new.fingerprint),
            )
      ]
    ]

-- What `storeCard` checks before it looks anything up.
pub record IsValidInput (input : StoreInput) : Type 0 where
  pub luhn : luhn_valid (strip input.pan) ≡ true
  pub month : is_month input.expiry_month ≡ true
  pub year : is_year (short_year input.expiry_year) ≡ true

pub store_card-valid :
    (c : Crypto) (f : Fresh) (input : StoreInput) (s : Db)
    → IsValidInput input
    → store_card c f input s ≡ store_valid c f input (strip input.pan) s
unfolding store_card
store_card-valid c f input s v = rw (v.luhn, v.month, v.year, store_card)

pub store_card-IsValidInput :
    (c : Crypto) (f : Fresh) (input : StoreInput) (s s' : Db) (r : StoreResult)
    → store_card c f input s ≡ (ok r, s')
    → IsValidInput input
unfolding store_card
store_card-IsValidInput c f input s s' r h = ground arith

-- A store that succeeded, repeated with the same input (and other random values), answers with the
-- same entry id and the same last digits, as a duplicate, and changes nothing; unless the input
-- asks for duplicates to be an error.
pub store_card-retry :
    (c : Crypto) (f f' : Fresh) (input : StoreInput) (r : StoreResult) (s s' : Db)
    → input.on_duplicate ≢ some error
    → store_card c f input s ≡ (ok r, s')
    → store_card c f' input s' ≡ (ok (record r { deduped = true }), s')
store_card-retry c f f' input r s s' mode h =
    let v = store_card-IsValidInput c f input s s' r h in
    let pan = strip input.pan in
    let (e, answer, found) =
      store_valid-Finds c f input pan r s s' mode (sym (store_card-valid c f input s v) ∙ h) in
    store_card-valid c f' input s' v ∙ rw (store_valid-found c f' input pan s' e mode found, answer)
