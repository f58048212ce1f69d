-- ===== src/Vault/Retrieval/EndToEnd.antt =====
-- From a stored card to a released one.
use karta_cards_vera.Common.{
  ℕ, ◌+◌, ◌*◌, ◌<◌, ◌≡◌, refl, subst, ◌∙◌, String, Text, none, some, true, false, List, [], ◌∷◌,
  ◌++◌, ◌||◌, find, any, take, arith, ◌==◌, eq_refl, eq_iff, ltb, length,
}
use karta_cards_vera.Core.Exec.{Outcome, ok}
use karta_cards_vera.Core.Encryption.{decrypt, iv_len}
use karta_cards_vera.Core.Encryption.RoundTrip.{GcmLaws, decrypt-encrypt}
use karta_cards_vera.Core.Json.{stringify_card}
use karta_cards_vera.Core.Json.RoundTrip.{parse_card-stringify}
use karta_cards_vera.Vault.Luhn.{strip}
use karta_cards_vera.Vault.Store.Lookup.{find-append_none, Stored, store_card-Stored}
use karta_cards_vera.Vault.Db.{
  clashes, create_token, Db, VaultEntry, RetrievalToken, find_entry, find_token, emit,
}
use karta_cards_vera.Vault.Store.{
  Crypto, Fresh, StoreInput, StoreResult, short_year, last4, store_card,
}
use karta_cards_vera.Vault.Retrieval.{
  MintTokenInput, MintTokenResult, ConsumeContext, DecryptedCard, mint_retrieval_token, minted_row,
  consume_retrieval_token, open_card, amount_matches,
}
use karta_cards_vera.Vault.Retrieval.Verdict.{consume-verdict}
use karta_cards_vera.Vault.Retrieval.SingleUse.{step-IsUnique, mint, store}
use karta_cards_vera.Vault.Retrieval.Tokens.{has_token, IsUnique}

-- The card that a store puts away.
abbrev pub stored_card : StoreInput → DecryptedCard
stored_card input =
    let pan = strip input.pan in
    record {
      pan = pan;
      cvc = input.cvc;
      exp_month = input.expiry_month;
      exp_year = short_year input.expiry_year;
      cardholder_name = input.cardholder_name;
      last4 = last4 pan;
      bin = take 6 pan;
    }

find_id-absent :
    (row : VaultEntry) (entries : List VaultEntry)
    → any (clashes row) entries ≡ false
    → find (λ e. e.id == row.id) entries ≡ none
find_id-absent row [] h = refl
find_id-absent row (e ∷ es) h =
    ground (arith, find_id-absent row es, eq_iff row.id e.id, eq_iff e.id row.id)

-- An entry just stored opens to the card that was stored.
open_card-Stored :
    (c : Crypto) (f : Fresh) (input : StoreInput) (fp : String) (r : StoreResult) (s s' : Db)
    → GcmLaws c.gcm
    → length f.iv ≡ iv_len
    → (new : Stored c f input (strip input.pan) fp r s s')
    → open_card c new.row ≡ ok (stored_card input)
unfolding open_card
open_card-Stored c f input fp r s s' laws fits new =
    let pan = strip input.pan in
    let opened : decrypt c.gcm new.row.encrypted_pan c.key_provider
        ≡ ok (stringify_card pan input.cvc) =
      decrypt-encrypt c.gcm laws f.iv fits c.key_provider c.key_provider
        (stringify_card pan input.cvc) new.row.encrypted_pan refl new.sealed in
    let parsed = parse_card-stringify pan input.cvc in
    ground (arith, new.month, new.year, new.holder, new.digits, new.bin)

find_entry-Stored :
    (c : Crypto) (f : Fresh) (input : StoreInput) (pan : Text) (fp : String) (r : StoreResult)
    (s s' : Db)
    → (new : Stored c f input pan fp r s s') → find_entry new.row.id s'.entries ≡ some new.row
unfolding find_entry
find_entry-Stored c f input pan fp r s s' new = rw new.entries (
    find-append_none (λ e. e.id == new.row.id) s.entries new.row
      (find_id-absent new.row s.entries new.unclashing) (eq_refl new.row.id))

-- A mint that succeeded added one unused token, under a text that no row had.
record Minted (ttl now : ℕ) (id t : String) (input : MintTokenInput) (m : MintTokenResult)
    (s s' : Db) : Type 0 where
  entries : s'.entries ≡ s.entries
  tokens : s'.tokens ≡ s.tokens ++ minted_row input id t (now + ttl * 1000) ∷ []
  fresh : any (λ r. r.id == id || r.token == t) s.tokens ≡ false

mint-Minted :
    (ttl now : ℕ) (id t : String) (input : MintTokenInput) (m : MintTokenResult) (s s' : Db)
    → mint_retrieval_token ttl now id t input s ≡ (ok m, s')
    → Minted ttl now id t input m s s'
unfolding mint_retrieval_token create_token emit
mint-Minted ttl now id t input m s s' h = record {
  entries = ground arith;
  tokens = ground arith;
  fresh = ground arith;
}

find_token-absent :
    (id t : String) (rows : List RetrievalToken)
    → any (λ r. r.id == id || r.token == t) rows ≡ false
    → find (has_token t) rows ≡ none
find_token-absent id t [] h = refl
find_token-absent id t (r ∷ rows) h = ground (arith, find_token-absent id t rows)

find_token-Minted :
    (ttl now : ℕ) (id t : String) (input : MintTokenInput) (m : MintTokenResult) (s s' : Db)
    → Minted ttl now id t input m s s'
    → find_token t s'.tokens ≡ some (minted_row input id t (now + ttl * 1000))
unfolding find_token
find_token-Minted ttl now id t input m s s' new = rw new.tokens (
    find-append_none (has_token t) s.tokens (minted_row input id t (now + ttl * 1000))
      (find_token-absent id t s.tokens new.fresh) (eq_refl t))

mint-IsUnique :
    (c : Crypto) (ttl now : ℕ) (id t : String) (input : MintTokenInput) (m : MintTokenResult)
    (s s' : Db)
    → mint_retrieval_token ttl now id t input s ≡ (ok m, s')
    → IsUnique s.tokens
    → IsUnique s'.tokens
mint-IsUnique c ttl now id t input m s s' h u =
    subst (λ (x : Outcome MintTokenResult × Db). IsUnique x.1.tokens) h
      (step-IsUnique c (mint ttl now id t input) s u)

-- A card stored as a new entry, a token minted for that entry, and a consumption of the token
-- before it expires, for the amount and the currency of the mint, give back the card as it was
-- stored: the number without separators, the CVC, the expiry with a two-digit year, and the name.
-- It is assumed that AES-GCM opens what it sealed, that the IV has its length, and that no two
-- rows of the token table share a token.
pub store-mint-consume :
    (c : Crypto) (f : Fresh) (input : StoreInput) (r : StoreResult) (ttl now later : ℕ)
    (id t : String) (order : MintTokenInput) (m : MintTokenResult) (ctx : ConsumeContext)
    (s s' s'' : Db)
    → GcmLaws c.gcm
    → length f.iv ≡ iv_len
    → IsUnique s.tokens
    → store_card c f input s ≡ (ok r, s')
    → r.deduped ≡ false
    → order.vault_entry_id ≡ r.vault_entry_id
    → mint_retrieval_token ttl now id t order s' ≡ (ok m, s'')
    → later < now + ttl * 1000
    → ctx.expected_amount ≡ order.amount
    → ctx.expected_currency ≡ order.currency
    → (consume_retrieval_token c later t ctx s'').0
      ≡ ok (record {
        retrieval_token_id = id;
        vault_entry_id = r.vault_entry_id;
        card = stored_card input;
      })
store-mint-consume c f input r ttl now later id t order m ctx s s' s'' laws fits u h new_entry named
      h' live amount currency =
    let new = store_card-Stored c f input r s s' h new_entry in
    let minted = mint-Minted ttl now id t order m s' s'' h' in
    let row = minted_row order id t (now + ttl * 1000) in
    let kept = step-IsUnique c (store f input) s u in
    let unique : IsUnique s''.tokens =
      mint-IsUnique c ttl now id t order m s' s'' h'
        (subst (λ (x : Outcome StoreResult × Db). IsUnique x.1.tokens) h kept) in
    let answer = consume-verdict c later t ctx s'' unique in
    let token_found = find_token-Minted ttl now id t order m s' s'' minted in
    let same_id : order.vault_entry_id ≡ new.row.id = ground (arith, new.result, new.fresh_id) in
    let entry : find_entry order.vault_entry_id s''.entries ≡ some new.row =
      rw (same_id, minted.entries) (find_entry-Stored c f input (strip input.pan) _ r s s' new) in
    let opened = open_card-Stored c f input _ r s s' laws fits new in
    let matches : amount_matches ctx row ≡ true =
      ground (arith, eq_iff order.currency ctx.expected_currency) in
    let in_time : ltb later (now + ttl * 1000) ≡ true = ground arith in
    answer ∙ rw (token_found, in_time, entry, matches, opened, named)
