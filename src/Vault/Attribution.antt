-- ===== src/Vault/Attribution.antt =====
-- Who is named in the audit rows that the vault's operations write.
use karta_cards_vera.Common.{
  Text, Bool, or_else, any, count, eqb, ◌||◌, ℕ, ◌≡◌, refl, ◌∙◌, String, ◌==◌, eq_refl, Option,
  some, none, true, false, not, List, [], ◌∷◌, ◌++◌, keep, length, take, arith, Option-cases, inl,
  inr, Bool-cases,
}
use karta_cards_vera.Core.Error.{other}
use karta_cards_vera.Core.Exec.{ok, throw, Outcome-cases}
use karta_cards_vera.Core.Encryption.{encrypt}
use karta_cards_vera.Core.Json.{stringify_card}
use karta_cards_vera.Vault.Luhn.{strip, luhn_valid}
use karta_cards_vera.Vault.Audit.{VaultEvent, AccessLog, normalise_event}
use karta_cards_vera.Vault.Db.{
  Db, VaultEntry, RetrievalToken, emit, create_token, find_entry, find_token, find_by_fingerprint,
  clashes,
}
use karta_cards_vera.Vault.Store.{
  is_month, is_year, short_year, last4, OnDuplicate, error, reuse, StoreInput, Crypto, Fresh,
  store_card, store_valid, store_new, on_existing, fingerprint_pan, find_prior,
}
use karta_cards_vera.Vault.Retrieval.{
  MintTokenInput, mint_retrieval_token, claimable, amount_matches, consumed_event, open_card,
  ConsumeContext, consume_retrieval_token, claim, refuse, release, reveal, mismatch, load_claimed,
}

-- The rows that name someone else.
abbrev pub others : String → List AccessLog → List AccessLog
others a = keep (λ r. not (r.actor == a))

-- Only rows of one actor were added, at the end.
pub record IsAttributed (a : String) (old new : List AccessLog) : Type 0 where
  pub others_kept : others a new ≡ others a old
  pub appended : take (length old) new ≡ old

others-snoc :
    (a : String) (log : List AccessLog) (r : AccessLog)
    → (r.actor == a) ≡ true
    → others a (log ++ r ∷ []) ≡ others a log
others-snoc a [] r h = rw h refl
others-snoc a (x ∷ log) r h = rw (others-snoc a log r h) refl

take-snoc :
    (old new : List AccessLog) (r : AccessLog)
    → take (length old) new ≡ old
    → take (length old) (new ++ r ∷ []) ≡ old
take-snoc [] new r h = refl
take-snoc (x ∷ old) [] r h = cc
take-snoc (x ∷ old) (y ∷ new) r h = ground (arith, take-snoc old new r)

take-length : (log : List AccessLog) → take (length log) log ≡ log
take-length [] = refl
take-length (x ∷ log) = rw (take-length log) refl

pub IsAttributed-same : (a : String) (log : List AccessLog) → IsAttributed a log log
IsAttributed-same a log = record { others_kept = refl; appended = take-length log }

pub IsAttributed-snoc :
    (a : String) (old new : List AccessLog) (e : VaultEvent)
    → IsAttributed a old new
    → (normalise_event e).actor ≡ a
    → IsAttributed a old (new ++ normalise_event e ∷ [])
IsAttributed-snoc a old new e h named = record {
  others_kept = others-snoc a new (normalise_event e) (rw named (eq_refl a)) ∙ h.others_kept;
  appended = take-snoc old new (normalise_event e) h.appended;
}

module _ (c : Crypto) (fresh : Fresh) (input : StoreInput) (s : Db) where
  abbrev StoredBy : Db → Type 0
  StoredBy t = IsAttributed input.by.actor s.access_log t.access_log

  emitted_by :
      (e : VaultEvent)
      → (normalise_event e).actor ≡ input.by.actor
      → IsAttributed input.by.actor s.access_log (s.access_log ++ normalise_event e ∷ [])
  emitted_by e =
      IsAttributed-snoc input.by.actor s.access_log s.access_log e (IsAttributed-same _ _)

  on_existing-IsAttributed :
      (existing : VaultEntry) (d : OnDuplicate) → StoredBy (on_existing input existing d s).1
  unfolding on_existing normalise_event
  on_existing-IsAttributed existing error =
      emitted_by (VaultEvent.duplicate_rejected existing.id input.by) refl
  on_existing-IsAttributed existing reuse = IsAttributed-same _ _

  store_new-IsAttributed :
      (pan : Text) (fp : String) → StoredBy (store_new c fresh input pan fp s).1
  unfolding store_new normalise_event
  store_new-IsAttributed pan fp =
      elim (Outcome-cases (encrypt c.gcm fresh.iv (stringify_card pan input.cvc) c.key_provider)) [
        | inr (e, x) ↦ rw (x, store_new) (IsAttributed-same _ _)
        | inl (enc, x) ↦
            let row : VaultEntry = record {
              id = fresh.id;
              idempotency_key = input.idempotency_key;
              pan_last4 = last4 pan;
              pan_bin = take 6 pan;
              cardholder_name = input.cardholder_name;
              pan_expiry_month = input.expiry_month;
              pan_expiry_year = short_year input.expiry_year;
              encrypted_pan = enc;
              pan_fingerprint = fp;
            } in
            elim (Bool-cases (any (clashes row) s.entries)) [
              | inl y ↦ rw (x, y, store_new) (IsAttributed-same _ _)
              | inr y ↦ rw (x, y, store_new) (emitted_by (VaultEvent.create fresh.id input.by) refl)
            ]
      ]

  store_valid-IsAttributed : (pan : Text) → StoredBy (store_valid c fresh input pan s).1
  unfolding store_valid
  store_valid-IsAttributed pan = elim (Option-cases (find_prior input.idempotency_key s.entries)) [
    | inr (prior, x) ↦ rw (x, store_valid) (IsAttributed-same _ _)
    | inl x ↦ elim (Option-cases (find_by_fingerprint (fingerprint_pan c pan) s.entries)) [
      | inr (existing, y) ↦
          rw (x, y, store_valid)
            (on_existing-IsAttributed existing (or_else input.on_duplicate reuse))
      | inl y ↦ rw (x, y, store_valid) (store_new-IsAttributed pan (fingerprint_pan c pan))
    ]
  ]

  -- A stored card is logged in the name of its caller.
  pub store_card-IsAttributed : StoredBy (store_card c fresh input s).1
  unfolding store_card
  store_card-IsAttributed = elim (Bool-cases (luhn_valid (strip input.pan))) [
    | inr x ↦ rw (x, store_card) (IsAttributed-same _ _)
    | inl x ↦ elim (Bool-cases (is_month input.expiry_month)) [
      | inr y ↦ rw (x, y, store_card) (IsAttributed-same _ _)
      | inl y ↦ elim (Bool-cases (is_year (short_year input.expiry_year))) [
        | inr z ↦ rw (x, y, z, store_card) (IsAttributed-same _ _)
        | inl z ↦ rw (x, y, z, store_card) (store_valid-IsAttributed (strip input.pan))
      ]
    ]
  ]

module _ (a : String) (old : List AccessLog) where
  abbrev AddedTo : Db → Type 0
  AddedTo t = IsAttributed a old t.access_log

  pub mint_retrieval_token-IsAttributed :
      (ttl now : ℕ) (id token : String) (input : MintTokenInput) (s : Db)
      → AddedTo s
      → input.by.actor ≡ a
      → AddedTo (mint_retrieval_token ttl now id token input s).1
  unfolding mint_retrieval_token create_token normalise_event emit
  mint_retrieval_token-IsAttributed ttl now id token input s h named =
      elim (Option-cases (find_entry input.vault_entry_id s.entries)) [
        | inl x ↦ rw (x, mint_retrieval_token) h
        | inr (entry, x) ↦ elim (Bool-cases (any (λ t. t.id == id || t.token == token) s.tokens)) [
          | inl y ↦ rw (x, y, mint_retrieval_token) h
          | inr y ↦
              rw (x, y, mint_retrieval_token)
                (IsAttributed-snoc a old s.access_log
                  (VaultEvent.token_minted entry.id id input.transaction_id input.by) h named)
        ]
      ]

  module _ (c : Crypto) (ctx : ConsumeContext) (named : ctx.by.actor ≡ a) where
    consumed_by :
        (entry id : String) (done : Bool) (msg : Option String) (log : List AccessLog)
        → IsAttributed a old log
        → IsAttributed a old (log ++ normalise_event (consumed_event entry id ctx done msg) ∷ [])
    unfolding normalise_event
    consumed_by entry id done msg log h =
        IsAttributed-snoc a old log (consumed_event entry id ctx done msg) h named

    refuse-IsAttributed :
        (row : Option RetrievalToken) (s : Db) → AddedTo s → AddedTo (refuse ctx row s).1
    unfolding refuse
    refuse-IsAttributed none s h = consumed_by "unknown" "unknown" false _ s.access_log h
    refuse-IsAttributed (some row) s h =
        consumed_by row.vault_entry_id row.id false _ s.access_log h

    revealed-IsAttributed :
        (row : RetrievalToken) (e : VaultEntry) (s : Db)
        → AddedTo s
        → AddedTo (reveal c ctx row e s).1
    unfolding reveal
    revealed-IsAttributed row e s h = elim (Outcome-cases (open_card c e)) [
      | inr (err, x) ↦ rw (x, reveal) h
      | inl (opened, x) ↦
          rw (x, reveal) (consumed_by row.vault_entry_id row.id true _ s.access_log h)
    ]

    release-IsAttributed : (token : String) (s : Db) → AddedTo s → AddedTo (release c ctx token s).1
    unfolding release load_claimed mismatch
    release-IsAttributed token s h = elim (Option-cases (find_token token s.tokens)) [
      | inl x ↦
          let loaded : load_claimed token s ≡ (throw (other "P2025"), s) =
            rw (x, load_claimed) refl in
          rw (loaded, release) h
      | inr (row, x) ↦ elim (Option-cases (find_entry row.vault_entry_id s.entries)) [
        | inl y ↦
            let loaded : load_claimed token s ≡ (throw (other "P2025"), s) =
              rw (x, y, load_claimed) refl in
            rw (loaded, release) h
        | inr (e, y) ↦
            let loaded : load_claimed token s ≡ (ok (row, e), s) = rw (x, y, load_claimed) refl in
            elim (Bool-cases (amount_matches ctx row)) [
              | inr z ↦
                  rw (loaded, z, release)
                    (consumed_by row.vault_entry_id row.id false _ s.access_log h)
              | inl z ↦ rw (loaded, z, release) (revealed-IsAttributed row e s h)
            ]
      ]
    ]

    pub consume_retrieval_token-IsAttributed :
        (now : ℕ) (token : String) (s : Db)
        → AddedTo s
        → AddedTo (consume_retrieval_token c now token ctx s).1
    unfolding consume_retrieval_token claim
    consume_retrieval_token-IsAttributed now token s h =
        let s' = (claim token now s).1 in
        elim (Bool-cases (eqb (count (claimable token now) s.tokens) 1)) [
          | inl x ↦ rw (x, consume_retrieval_token) (release-IsAttributed token s' h)
          | inr x ↦
              rw (x, consume_retrieval_token)
                (refuse-IsAttributed (find_token token s'.tokens) s' h)
        ]
