-- ===== src/Vault/Store/Refusals.antt =====
-- What a store refuses, what it leaves behind then, and what becomes of an idempotency key.
use karta_cards_vera.Common.{
  ◌≡◌, ◌≢◌, sym, subst, ◌∙◌, String, none, some, Bool, true, false, List, [], ◌∷◌, ◌++◌, find, any,
  arith, ◌==◌, eq_iff, if◌then◌else◌, or_else, Option-cases, Bool-cases, inl, inr,
}
use karta_cards_vera.Core.Error.{api, bad_request, conflict}
use karta_cards_vera.Core.Exec.{ok, throw}
use karta_cards_vera.Vault.Luhn.{strip, luhn_valid}
use karta_cards_vera.Vault.Audit.{VaultEvent, normalise_event}
use karta_cards_vera.Vault.Db.{Db, VaultEntry, clashes, find_by_fingerprint}
use karta_cards_vera.Vault.Store.{
  Crypto, Fresh, StoreInput, StoreResult, error, reuse, on_existing, find_prior, fingerprint_pan,
  store_valid, store_card, reused, is_month, is_year, short_year,
}
use karta_cards_vera.Vault.Store.Lookup.{store_new-Stored}
use karta_cards_vera.Vault.Store.Retry.{
  IsValidInput, store_card-valid, store_card-IsValidInput, store_valid-seen, store_valid-new,
  on_existing-ok,
}

-- The error of an input that fails a check: the card number is checked first.
abbrev pub input_error : StoreInput → String
input_error input = if luhn_valid (strip input.pan) then "invalid_expiry" else "invalid_pan"

-- An input that fails a check is refused with a 400 that names the first check it fails, and the
-- vault is unchanged.
pub store_card-invalid :
    (c : Crypto) (f : Fresh) (input : StoreInput) (s : Db)
    → ¬ IsValidInput input
    → store_card c f input s ≡ (throw (api (bad_request (input_error input))), s)
unfolding store_card
store_card-invalid c f input s bad = elim (Bool-cases (luhn_valid (strip input.pan))) [
  | inr e ↦ rw (e, store_card)
  | inl e ↦ elim (Bool-cases (is_month input.expiry_month)) [
    | inr e' ↦ rw (e, e', store_card)
    | inl e' ↦ elim (Bool-cases (is_year (short_year input.expiry_year))) [
      | inr e'' ↦ rw (e, e', e'', store_card)
      | inl e'' ↦ absurd (bad (record { luhn = e; month = e'; year = e'' }))
    ]
  ]
]

-- A valid card that is there already, stored with duplicates an error and under no known key, is
-- refused with a 409 that names the entry; the refusal is audited, and the tables are unchanged.
pub store_card-duplicate :
    (c : Crypto) (f : Fresh) (input : StoreInput) (s : Db) (e : VaultEntry)
    → IsValidInput input
    → input.on_duplicate ≡ some error
    → find_prior input.idempotency_key s.entries ≡ none
    → find_by_fingerprint (fingerprint_pan c (strip input.pan)) s.entries ≡ some e
    → store_card c f input s ≡ (
      throw (api (conflict "vault_duplicate" (some e.id))),
      record s {
        access_log =
            s.access_log ++ normalise_event (VaultEvent.duplicate_rejected e.id input.by) ∷ [];
      },
    )
unfolding on_existing
store_card-duplicate c f input s e v mode unknown seen =
    store_card-valid c f input s v
    ∙ (store_valid-seen c f input (strip input.pan) s e unknown seen ∙ rw (mode, on_existing))

any-find {ℓ} :
    {A : Type ℓ} (p q : A → Bool) (xs : List A) (x : A)
    → find p xs ≡ some x
    → any q xs ≡ false
    → q x ≡ false
any-find p q [] x h k = cc
any-find p q (y ∷ ys) x h k = ground (arith, any-find p q ys x)

-- A new row clashes with none that the lookup by fingerprint finds.
unclashing-fingerprint :
    (fp : String) (entries : List VaultEntry) (e row : VaultEntry)
    → find_by_fingerprint fp entries ≡ some e
    → any (clashes row) entries ≡ false
    → row.id ≢ e.id
unfolding find_by_fingerprint
unclashing-fingerprint fp entries e row h k =
    let apart = any-find (λ x. x.pan_fingerprint == fp) (clashes row) entries e h k in
    ground (arith, eq_iff row.id e.id)

-- An unknown idempotency key and a store that answered with an entry that was there: the entry was
-- found by its fingerprint, and nothing was changed.
deduped-unchanged :
    (c : Crypto) (f : Fresh) (input : StoreInput) (s s' : Db) (r : StoreResult)
    → find_prior input.idempotency_key s.entries ≡ none
    → store_card c f input s ≡ (ok r, s')
    → r.deduped ≡ true
    → (e : VaultEntry) × (s' ≡ s)
      × (r ≡ reused e)
      × (find_by_fingerprint (fingerprint_pan c (strip input.pan)) s.entries ≡ some e)
deduped-unchanged c f input s s' r unknown h d =
    let pan = strip input.pan in
    let v = store_card-IsValidInput c f input s s' r h in
    let run = sym (store_card-valid c f input s v) ∙ h in
    elim (Option-cases (find_by_fingerprint (fingerprint_pan c pan) s.entries)) [
      | inr (e, seen) ↦
          let (answer, same) =
            on_existing-ok c f input pan s e (or_else input.on_duplicate reuse) r s'
              (sym (store_valid-seen c f input pan s e unknown seen) ∙ run) in
          (e, same, answer, seen)
      | inl unseen ↦
          let new =
            store_new-Stored c f input pan (fingerprint_pan c pan) r s s'
              (sym (store_valid-new c f input pan s unknown unseen) ∙ run) in
          absurd (ground (arith, new.result))
    ]

-- An idempotency key that the vault does not know yet, sent with a card that it has, is not
-- recorded: the state is unchanged, the key stays unknown, and the same key sent with a card that
-- the vault does not have gets a new entry with another id.
pub store_card-key_forgotten :
    (c : Crypto) (f g : Fresh) (input other : StoreInput) (r r' : StoreResult) (s s' s'' : Db)
    → find_prior input.idempotency_key s.entries ≡ none
    → store_card c f input s ≡ (ok r, s')
    → r.deduped ≡ true
    → other.idempotency_key ≡ input.idempotency_key
    → find_by_fingerprint (fingerprint_pan c (strip other.pan)) s.entries ≡ none
    → store_card c g other s' ≡ (ok r', s'')
    → (s' ≡ s) × (r'.vault_entry_id ≢ r.vault_entry_id)
store_card-key_forgotten c f g input other r r' s s' s'' unknown h d key unseen h' =
    let pan = strip other.pan in
    let (e, same, answer, seen) = deduped-unchanged c f input s s' r unknown h d in
    let v = store_card-IsValidInput c g other s' s'' r' h' in
    let run : store_valid c g other pan s ≡ (ok r', s'') =
      subst (λ (x : Db). store_valid c g other pan x ≡ (ok r', s'')) same
        (sym (store_card-valid c g other s' v) ∙ h') in
    let new =
      store_new-Stored c g other pan (fingerprint_pan c pan) r' s s''
        (sym (store_valid-new c g other pan s (rw key unknown) unseen) ∙ run) in
    let apart =
      unclashing-fingerprint (fingerprint_pan c (strip input.pan)) s.entries e new.row seen
        new.unclashing in
    (same, λ clash. apart (ground (arith, new.fresh_id, new.result)))
