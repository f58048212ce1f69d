-- ===== src/Pay/Transactions.antt =====
-- services/pay/src/transactions/transaction.service.ts and serialize.ts, and the expiry sweep of
-- packages/retention/src/purge.ts on the same table. A request reads the clock once, as `now`.
pub mod Status
pub mod Created
pub mod Expiry
use karta_cards_vera.Common.{
  ℕ, ◌+◌, ◌*◌, ℤ, is_nonpositive, String, Text, Option, none, some, Bool, true, not, ◌&&◌, ◌||◌,
  List, ◌==◌, ltb, leb, map, take, text_eq, is_empty, if◌then◌else◌, or_else,
}
use mathlib.Core.List.{reverse}
use karta_cards_vera.Core.Error.{api, other, bad_request, not_found, gone}
use karta_cards_vera.Core.Exec.{Outcome, ok, throw, Exec, ensure, lift, gets, ◌>>=◌, ◌>>◌}
use karta_cards_vera.Programs.Currency.{normalise_currency}
use karta_cards_vera.Programs.Resolve.{TokenisationProgram, resolve_rules}
use karta_cards_vera.Pay.StateMachine.{
  TransactionStatus, pending, completed, failed, expired, status_eq, assert_transition,
}
use karta_cards_vera.Pay.Tier.{TierDecision, evaluate_tier_rules}
use karta_cards_vera.Pay.Db.{
  Transaction, Call, PayDb, find_transaction, find_by_rlid, find_program, patch_rows,
  create_transaction_row, call_service,
}

-- Palisade's card, as `lookupCard` returns it.
pub record CardState : Type 0 where
  pub id : String
  pub card_ref : String
  pub status : String
  pub program_id : Option String
  pub pan_last4 : Option Text
  pub pan_bin : Option String
  pub cardholder_name : Option String
  pub vault_token : Option String

pub record CreateTxnInput : Type 0 where
  pub card_id : String
  pub amount : ℤ
  pub currency : Text
  pub merchant_ref : String
  pub merchant_name : Option String

-- The random values of a new transaction.
pub record FreshTxn : Type 0 where
  pub id : String
  pub rlid : String
  pub challenge : String

-- The test of an optional text as a condition.
abbrev pub truthy : Option String → Option String
truthy none = none
truthy (some s) = if s == "" then none else some s

abbrev pub program_of : Option String → List TokenisationProgram → Option TokenisationProgram
program_of id programs = elim (truthy id) [ none ↦ none | some p ↦ find_program p programs ]

-- `programCurrency && programCurrency !== currency`, negated.
abbrev pub currency_fits : Option Text → Text → Bool
currency_fits none currency = true
currency_fits (some c) currency = is_empty c || text_eq c currency

abbrev pub transaction_row :
    ℕ → FreshTxn → CreateTxnInput → CardState → Text → TierDecision → Transaction
transaction_row expires_at f input card currency decision = record {
  id = f.id;
  rlid = f.rlid;
  card_id = card.id;
  amount = input.amount;
  currency = currency;
  merchant_ref = input.merchant_ref;
  merchant_name = or_else input.merchant_name "Demo Merchant";
  status = pending;
  tier = decision.tier;
  actual_tier = none;
  allowed_credential_kinds = decision.allowed_kinds;
  challenge_nonce = f.challenge;
  used_credential_id = none;
  provider_name = none;
  provider_payment_method_id = none;
  provider_txn_id = none;
  arqc = none;
  atc_used = none;
  expires_at = expires_at;
  completed_at = none;
  failed_at = none;
  failure_reason = none;
  card_ref = some card.card_ref;
  pan_last4 = card.pan_last4;
  pan_bin = card.pan_bin;
  cardholder_name = card.cardholder_name;
  vault_entry_id = card.vault_token;
}

-- `ttl` is TRANSACTION_TTL_SECONDS; `palisade` answers `lookupCard`.
unfoldable pub create_transaction :
    (String → List Call → Outcome CardState)
    → ℕ
    → ℕ
    → FreshTxn
    → CreateTxnInput
    → Exec PayDb Transaction
create_transaction palisade ttl now f input = do
  ensure (not (is_nonpositive input.amount)) (bad_request "invalid_amount")
  card ← call_service (palisade input.card_id) (Call.lookup_card input.card_id)
  ensure (card.status == "ACTIVATED") (bad_request "card_not_activated")
  program ← gets (λ s. program_of card.program_id s.programs)
  resolved ← lift (resolve_rules program)
  currency ← lift (normalise_currency input.currency)
  ensure (currency_fits resolved.currency currency) (bad_request "currency_mismatch")
  decision ← lift (evaluate_tier_rules resolved.rules input.amount)
  create_transaction_row (transaction_row (now + ttl * 1000) f input card currency decision)

abbrev pub ttl_elapsed : String
ttl_elapsed = "transaction_ttl_elapsed"

-- The `where` of both expiries: PENDING, with its time over.
abbrev pub is_overdue : ℕ → Transaction → Bool
is_overdue now t = status_eq t.status pending && ltb t.expires_at now

abbrev pub expire_row : Transaction → Transaction
expire_row t = record t { status = expired; failure_reason = some ttl_elapsed }

-- `updateMany` of the row with the id, if it is still PENDING.
abbrev pub expire_pending : Transaction → Transaction
expire_pending t = if status_eq t.status pending then expire_row t else t

abbrev pub reread : Option Transaction → Exec PayDb Transaction
reread none s = (throw (other "P2025"), s)
reread (some t) s = (ok t, s)

abbrev pub expire_one : String → PayDb → PayDb
expire_one id s = record s { transactions = patch_rows id expire_pending s.transactions }

abbrev pub refresh : ℕ → Option Transaction → Exec PayDb Transaction
refresh now none s = (throw (api (not_found "transaction_not_found")), s)
refresh now (some txn) s =
    if is_overdue now txn
    then reread (find_transaction txn.id (expire_one txn.id s).transactions) (expire_one txn.id s)
    else (ok txn, s)

unfoldable pub get_transaction_by_rlid : ℕ → String → Exec PayDb Transaction
get_transaction_by_rlid now rlid s = refresh now (find_by_rlid rlid s.transactions) s

-- `{ ...extra, status: to }` with the time that the status brings.
abbrev pub status_patch :
    ℕ → TransactionStatus → (Transaction → Transaction) → Transaction → Transaction
status_patch now to extra t =
    let u = extra t in
    record u {
      status = to;
      completed_at = if status_eq to completed then some now else u.completed_at;
      failed_at = if status_eq to failed then some now else u.failed_at;
    }

abbrev pub write_status :
    ℕ
    → String
    → TransactionStatus
    → (Transaction → Transaction)
    → Transaction
    → Outcome (Unit {0})
    → Exec PayDb Transaction
write_status now id to extra current (throw e) s = (throw e, s)
write_status now id to extra current (ok _) s = (
  ok (status_patch now to extra current),
  record s { transactions = patch_rows id (status_patch now to extra) s.transactions },
)

abbrev pub change_status :
    ℕ
    → String
    → TransactionStatus
    → (Transaction → Transaction)
    → Option Transaction
    → Exec PayDb Transaction
change_status now id to extra none s = (throw (other "P2025"), s)
change_status now id to extra (some current) s =
    write_status now id to extra current (assert_transition current.status to) s

-- `extra` sets the other columns of the patch. The read and the write are one step here.
unfoldable pub update_status :
    ℕ → String → TransactionStatus → (Transaction → Transaction) → Exec PayDb Transaction
update_status now id to extra s =
    change_status now id to extra (find_transaction id s.transactions) s

-- The guard of the authentication routes.
abbrev pub auth_guard : Transaction → Exec PayDb Transaction
auth_guard txn s =
    if status_eq txn.status expired
    then (throw (api (gone "transaction_expired")), s)
    else if status_eq txn.status completed || status_eq txn.status failed
    then (throw (api (bad_request "transaction_terminal")), s)
    else (ok txn, s)

unfoldable pub get_transaction_for_auth : ℕ → String → Exec PayDb Transaction
get_transaction_for_auth now rlid = get_transaction_by_rlid now rlid >>= auth_guard

-- `expirePendingTransactions` of packages/retention: all rows that are overdue.
abbrev pub sweep_row : ℕ → Transaction → Transaction
sweep_row now t = if is_overdue now t then expire_row t else t

unfoldable pub expire_pending_transactions : ℕ → PayDb → PayDb
expire_pending_transactions now s = record s { transactions = map (sweep_row now) s.transactions }

-- Rows stand in the order of their creation; the list view is newest first.
unfoldable pub list_transactions : ℕ → PayDb → List Transaction
list_transactions limit s = take (if leb limit 500 then limit else 500) (reverse s.transactions)
