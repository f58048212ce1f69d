-- ===== src/Pay/MockProvider.antt =====
-- services/pay/src/providers/mock.provider.ts. The client of the vault is a parameter: a call that
-- changes the vault's state and returns the card or throws. The random ids are arguments.
pub mod Calls
pub mod Created
pub mod OneToken
use karta_cards_vera.Common.{
  String, concat, Text, string_of, ℤ, pos, negsuc, none, some, Bool, true, false, List, lookup,
  insert, if◌then◌else◌,
}
use karta_cards_vera.Core.Exec.{ok, throw, Exec}
use karta_cards_vera.Vault.Retrieval.{ConsumeResult}
use karta_cards_vera.VaultClient.{ConsumeTokenInput}
use karta_cards_vera.Pay.Db.{PaymentMethodRequest, PaymentMethod, ChargeRequest, ChargeResult}

-- What the provider keeps of a payment method.
pub record MockMethod : Type 0 where
  pub last4 : Text
  pub vault_entry_id : String
  pub retrieval_token_id : String

abbrev pub Methods : Type 0
Methods = List (String × MockMethod)

abbrev pub consume_input : PaymentMethodRequest → ConsumeTokenInput
consume_input input = record {
  token = input.retrieval_token;
  expected_amount = input.expected_amount;
  expected_currency = string_of input.expected_currency;
  purpose = "mock provider tokenise";
  transaction_id = some input.transaction_id;
  ip = none;
  ua = none;
}

abbrev pub method_of : ConsumeResult → MockMethod
method_of r = record {
  last4 = r.card.last4;
  vault_entry_id = r.vault_entry_id;
  retrieval_token_id = r.retrieval_token_id;
}

-- The state is the vault's, and the provider's map beside it.
unfoldable pub create_payment_method :
    {S : Type 0}
    → (ConsumeTokenInput → Exec S ConsumeResult)
    → String
    → PaymentMethodRequest
    → Exec (Methods × S) PaymentMethod
create_payment_method consume_token pm_id input (pms, s) =
    let (answer, after) = consume_token (consume_input input) s in
    elim answer [
      | throw e ↦ (throw e, (pms, after))
      | ok consumed ↦
          let id = concat "pm_mock_" pm_id in
          (
            ok (record { provider_payment_method_id = id; last4 = consumed.card.last4 }),
            (insert id (method_of consumed) pms, after),
          )
    ]

abbrev pub is_negative : ℤ → Bool
is_negative (pos n) = false
is_negative (negsuc n) = true

unfoldable pub charge : String → ChargeRequest → Methods → ChargeResult
charge tx_id input pms = elim (lookup input.provider_payment_method_id pms) [
  | none ↦ record { provider_txn_id = ""; succeeded = false; error = some "unknown_payment_method" }
  | some pm ↦
      if is_negative input.amount
      then record {
        provider_txn_id = "";
        succeeded = false;
        error = some "simulated_failure_negative_amount";
      }
      else record { provider_txn_id = concat "txn_mock_" tx_id; succeeded = true; error = none }
]
