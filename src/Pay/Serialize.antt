-- ===== src/Pay/Serialize.antt =====
-- services/pay/src/transactions/serialize.ts: what clients see of a transaction.
use karta_cards_vera.Common.{ℕ, ℤ, String, Text, Option, List}
use karta_cards_vera.Programs.TierRules.{CredentialKind}
use karta_cards_vera.Pay.StateMachine.{TransactionStatus}
use karta_cards_vera.Pay.Tier.{Tier}
use karta_cards_vera.Pay.Db.{Transaction}

pub record TransactionDto : Type 0 where
  pub id : String
  pub rlid : String
  pub status : TransactionStatus
  pub tier : Tier
  pub actual_tier : Option Tier
  pub allowed_credential_kinds : List CredentialKind
  pub amount : ℤ
  pub currency : Text
  pub merchant_ref : String
  pub merchant_name : String
  pub challenge_nonce : String
  pub expires_at : ℕ

unfoldable pub to_transaction_dto : Transaction → TransactionDto
to_transaction_dto txn = record {
  id = txn.id;
  rlid = txn.rlid;
  status = txn.status;
  tier = txn.tier;
  actual_tier = txn.actual_tier;
  allowed_credential_kinds = txn.allowed_credential_kinds;
  amount = txn.amount;
  currency = txn.currency;
  merchant_ref = txn.merchant_ref;
  merchant_name = txn.merchant_name;
  challenge_nonce = txn.challenge_nonce;
  expires_at = txn.expires_at;
}

pub record TransactionListDto : Type 0 where
  pub id : String
  pub rlid : String
  pub status : TransactionStatus
  pub tier : Tier
  pub actual_tier : Option Tier
  pub allowed_credential_kinds : List CredentialKind
  pub amount : ℤ
  pub currency : Text
  pub merchant_ref : String
  pub merchant_name : String
  pub expires_at : ℕ
  pub card_ref : Option String
  pub pan_last4 : Option Text

unfoldable pub to_transaction_list_dto : Transaction → TransactionListDto
to_transaction_list_dto txn = record {
  id = txn.id;
  rlid = txn.rlid;
  status = txn.status;
  tier = txn.tier;
  actual_tier = txn.actual_tier;
  allowed_credential_kinds = txn.allowed_credential_kinds;
  amount = txn.amount;
  currency = txn.currency;
  merchant_ref = txn.merchant_ref;
  merchant_name = txn.merchant_name;
  expires_at = txn.expires_at;
  card_ref = txn.card_ref;
  pan_last4 = txn.pan_last4;
}
