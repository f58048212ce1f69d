-- ===== src/Vault/Retrieval.antt =====
-- services/vault/src/vault/retrieval.service.ts
pub mod Tokens
pub mod Frame
pub mod SingleUse
pub mod Verdict
pub mod EndToEnd
use karta_cards_vera.Common.{
  ℕ, ◌+◌, ◌*◌, String, Text, Option, none, some, Bool, true, false, not, ◌&&◌, ◌==◌, ltb, eqb,
  count, map, if◌then◌else◌,
}
use karta_cards_vera.Core.Error.{api, other, bad_request, not_found, gone}
use karta_cards_vera.Core.Exec.{Outcome, ok, throw, Exec, pure, fail_with, lift, gets, ◌>>=◌, ◌>>◌}
use karta_cards_vera.Core.Encryption.{decrypt}
use karta_cards_vera.Core.Json.{parse_card}
use karta_cards_vera.Vault.Audit.{Actor, VaultEvent}
use karta_cards_vera.Vault.Db.{
  Db, VaultEntry, RetrievalToken, find_entry, find_token, create_token, emit,
}
use karta_cards_vera.Vault.Store.{Crypto}

pub record MintTokenInput : Type 0 where
  pub vault_entry_id : String
  pub amount : ℕ
  pub currency : String
  pub by : Actor
  pub transaction_id : Option String

pub record MintTokenResult : Type 0 where
  pub token : String
  pub retrieval_token_id : String
  pub expires_at : ℕ

-- The token row that a mint creates.
abbrev pub minted_row : MintTokenInput → String → String → ℕ → RetrievalToken
minted_row input id token expires_at = record {
  id = id;
  token = token;
  used = false;
  used_at = none;
  amount = input.amount;
  currency = input.currency;
  expires_at = expires_at;
  purpose = input.by.purpose;
  vault_entry_id = input.vault_entry_id;
}

-- `ttl` is RETRIEVAL_TOKEN_TTL_SECONDS, `now` the clock; `id` and `token` are the random values.
unfoldable pub mint_retrieval_token :
    ℕ → ℕ → String → String → MintTokenInput → Exec Db MintTokenResult
mint_retrieval_token ttl now id token input s = elim (find_entry input.vault_entry_id s.entries) [
  | none ↦ (throw (api (not_found "vault_entry_not_found")), s)
  | some entry ↦
      (do
        row ← create_token (minted_row input id token (now + ttl * 1000))
        emit (VaultEvent.token_minted entry.id row.id input.transaction_id input.by)
        pure (record { token = token; retrieval_token_id = row.id; expires_at = row.expires_at }))
        s
]

pub record ConsumeContext : Type 0 where
  pub expected_amount : ℕ
  pub expected_currency : String
  pub by : Actor
  pub transaction_id : Option String

pub record DecryptedCard : Type 0 where
  pub pan : Text
  pub cvc : Option Text
  pub exp_month : Text
  pub exp_year : Text
  pub cardholder_name : String
  pub last4 : Text
  pub bin : Text

pub record ConsumeResult : Type 0 where
  pub retrieval_token_id : String
  pub vault_entry_id : String
  pub card : DecryptedCard

-- The `where` of the claim.
abbrev pub claimable : String → ℕ → RetrievalToken → Bool
claimable token now t = t.token == token && (not t.used && ltb now t.expires_at)

abbrev pub mark_used : String → ℕ → RetrievalToken → RetrievalToken
mark_used token now t =
    if claimable token now t then record t { used = true; used_at = some now } else t

-- `retrievalToken.updateMany`, one atomic step: the number of rows that it changed.
unfoldable pub claim : String → ℕ → Exec Db ℕ
claim token now s = (
  ok (count (claimable token now) s.tokens),
  record s { tokens = map (mark_used token now) s.tokens },
)

-- The event of a consumption.
abbrev pub consumed_event : String → String → ConsumeContext → Bool → Option String → VaultEvent
consumed_event entry id ctx done msg =
    VaultEvent.token_consumed entry id ctx.transaction_id ctx.by done msg

-- The claim changed no row: the token is missing, used or expired.
unfoldable pub refuse : ConsumeContext → Option RetrievalToken → Exec Db ConsumeResult
unfolding emit
refuse ctx none = do
  emit (consumed_event "unknown" "unknown" ctx false (some "token_not_found"))
  fail_with (not_found "token_not_found")
refuse ctx (some row) = do
  let reason : String = if row.used then "token_already_used" else "token_expired"
  emit (consumed_event row.vault_entry_id row.id ctx false (some reason))
  fail_with (gone reason)

-- The card of an entry, decrypted.
unfoldable pub open_card : Crypto → VaultEntry → Outcome DecryptedCard
open_card c e = elim (decrypt c.gcm e.encrypted_pan c.key_provider) [
  | throw err ↦ throw err
  | ok plaintext ↦ elim (parse_card plaintext) [
    | none ↦ throw (other "SyntaxError")
    | some (pan, cvc) ↦ ok (record {
      pan = pan;
      cvc = cvc;
      exp_month = e.pan_expiry_month;
      exp_year = e.pan_expiry_year;
      cardholder_name = e.cardholder_name;
      last4 = e.pan_last4;
      bin = e.pan_bin;
    })
  ]
]

-- The claimed row with its entry.
unfoldable pub load_claimed : String → Exec Db (RetrievalToken × VaultEntry)
load_claimed token s = elim (find_token token s.tokens) [
  | none ↦ (throw (other "P2025"), s)
  | some row ↦ elim (find_entry row.vault_entry_id s.entries) [
    | none ↦ (throw (other "P2025"), s)
    | some e ↦ (ok (row, e), s)
  ]
]

-- Amount and currency are right: decrypt and report.
unfoldable pub reveal :
    Crypto → ConsumeContext → RetrievalToken → VaultEntry → Exec Db ConsumeResult
unfolding emit
reveal c ctx row e = do
  card ← lift (open_card c e)
  emit (consumed_event row.vault_entry_id row.id ctx true none)
  pure (record { retrieval_token_id = row.id; vault_entry_id = row.vault_entry_id; card = card })

unfoldable pub mismatch : ConsumeContext → RetrievalToken → Exec Db ConsumeResult
unfolding emit
mismatch ctx row = do
  emit (consumed_event row.vault_entry_id row.id ctx false (some "amount_or_currency_mismatch"))
  fail_with (bad_request "amount_mismatch")

abbrev pub amount_matches : ConsumeContext → RetrievalToken → Bool
amount_matches ctx row = eqb row.amount ctx.expected_amount && row.currency == ctx.expected_currency

-- After a claim that changed one row.
unfoldable pub release : Crypto → ConsumeContext → String → Exec Db ConsumeResult
release c ctx token = do
  (row, e) ← load_claimed token
  if amount_matches ctx row then reveal c ctx row e else mismatch ctx row

unfoldable pub consume_retrieval_token :
    Crypto → ℕ → String → ConsumeContext → Exec Db ConsumeResult
consume_retrieval_token c now token ctx = do
  changed ← claim token now
  row ← gets (λ s. find_token token s.tokens)
  if eqb changed 1 then release c ctx token else refuse ctx row
