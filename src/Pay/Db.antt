-- ===== src/Pay/Db.antt =====
-- The payment service's state: the Transaction table (packages/db/prisma/schema.prisma), the event
-- bus, and the calls it has made to the services outside, whose answers depend on those calls.
use karta_cards_vera.Common.{
  ℕ, ℤ, String, Text, Option, Bool, List, [], ◌∷◌, ◌++◌, ◌==◌, find, map, any, ◌||◌, if◌then◌else◌,
}
use karta_cards_vera.Core.Error.{other}
use karta_cards_vera.Core.Exec.{Outcome, ok, throw, Exec}
use karta_cards_vera.Programs.TierRules.{CredentialKind}
use karta_cards_vera.Programs.Resolve.{TokenisationProgram}
use karta_cards_vera.Pay.StateMachine.{TransactionStatus}
use karta_cards_vera.Pay.Tier.{Tier}
use karta_cards_vera.Pay.Realtime.{SseBus}

-- Prisma's `Transaction`; a created amount is positive. Times are milliseconds.
pub record Transaction : Type 0 where
  pub id : String
  pub rlid : String
  pub card_id : String
  pub amount : ℤ
  pub currency : Text
  pub merchant_ref : String
  pub merchant_name : String
  pub status : TransactionStatus
  pub tier : Tier
  pub actual_tier : Option Tier
  pub allowed_credential_kinds : List CredentialKind
  pub challenge_nonce : String
  pub used_credential_id : Option String
  pub provider_name : Option String
  pub provider_payment_method_id : Option String
  pub provider_txn_id : Option String
  pub arqc : Option Text
  pub atc_used : Option ℕ
  pub expires_at : ℕ
  pub completed_at : Option ℕ
  pub failed_at : Option ℕ
  pub failure_reason : Option String
  pub card_ref : Option String
  pub pan_last4 : Option Text
  pub pan_bin : Option String
  pub cardholder_name : Option String
  pub vault_entry_id : Option String

-- What the mint of a retrieval token is asked.
pub record MintRequest : Type 0 where
  pub vault_entry_id : String
  pub amount : ℤ
  pub currency : Text
  pub purpose : String
  pub transaction_id : String
  pub ip : Option String
  pub ua : Option String

-- `createPaymentMethod` of the provider.
pub record PaymentMethodRequest : Type 0 where
  pub retrieval_token : String
  pub expected_amount : ℤ
  pub expected_currency : Text
  pub transaction_id : String

pub record PaymentMethod : Type 0 where
  pub provider_payment_method_id : String
  pub last4 : Text

pub record ChargeRequest : Type 0 where
  pub provider_payment_method_id : String
  pub amount : ℤ
  pub currency : Text
  pub idempotency_key : String
  pub merchant_ref : String

-- `ChargeResult`: `succeeded` is its status.
pub record ChargeResult : Type 0 where
  pub provider_txn_id : String
  pub succeeded : Bool
  pub error : Option String

-- A call to a service outside.
pub data Call : Type 0 where
  lookup_card : String → Call
  increment_atc : String → Call
  mint_token : MintRequest → Call
  create_payment_method : PaymentMethodRequest → Call
  charge : ChargeRequest → Call

pub record PayDb : Type 0 where
  pub transactions : List Transaction
  pub programs : List TokenisationProgram
  pub bus : SseBus
  pub calls : List Call

abbrev pub has_id : String → Transaction → Bool
has_id id t = t.id == id

unfoldable pub find_transaction : String → List Transaction → Option Transaction
find_transaction id = find (has_id id)

unfoldable pub find_by_rlid : String → List Transaction → Option Transaction
find_by_rlid rlid = find (λ t. t.rlid == rlid)

unfoldable pub find_program : String → List TokenisationProgram → Option TokenisationProgram
find_program id = find (λ p. p.id == id)

-- `update` of the row with an id.
abbrev pub patch_row : String → (Transaction → Transaction) → Transaction → Transaction
patch_row id patch t = if has_id id t then patch t else t

unfoldable pub patch_rows :
    String → (Transaction → Transaction) → List Transaction → List Transaction
patch_rows id patch = map (patch_row id patch)

-- `transaction.create`: a unique column that clashes is refused (P2002).
abbrev pub clashes : Transaction → Transaction → Bool
clashes a b = a.id == b.id || (a.rlid == b.rlid || a.challenge_nonce == b.challenge_nonce)

unfoldable pub create_transaction_row : Transaction → Exec PayDb Transaction
create_transaction_row row s =
    if any (clashes row) s.transactions
    then (throw (other "P2002"), s)
    else (ok row, record s { transactions = s.transactions ++ row ∷ [] })

-- The answer of a service outside to a call, after the calls before it.
abbrev pub call_service : {A : Type 0} → (List Call → Outcome A) → Call → Exec PayDb A
call_service answer call s = (answer s.calls, record s { calls = s.calls ++ call ∷ [] })
