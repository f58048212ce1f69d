-- ===== src/Pay/Orchestration.antt =====
-- services/pay/src/orchestration/post-auth.ts: from a verified authentication to a charge.
pub mod Settles
pub mod Frame
pub mod Charge
pub mod Calls
pub mod Repeat
pub mod Once
use karta_cards_vera.Common.{
  ℕ, String, Text, concat, Option, none, some, List, if◌then◌else◌, or_else,
}
use karta_cards_vera.Core.Error.{Thrown, api, zod, other, bad_request}
use karta_cards_vera.Core.Exec.{
  Outcome, ok, Exec, pure, raise, fail_with, lift, try_catch, ◌>>=◌, ◌>>◌,
}
use karta_cards_vera.Pay.StateMachine.{TransactionStatus}
use karta_cards_vera.Pay.Realtime.{
  SseEventType, SseData, no_data, atc_data, tokenised_data, charged_data, completed_data,
  failed_data, SseBus, forget,
}
use karta_cards_vera.Pay.Realtime as Realtime
use karta_cards_vera.Pay.Db.{
  Transaction, MintRequest, PaymentMethodRequest, PaymentMethod, ChargeRequest, ChargeResult, Call,
  PayDb, find_transaction, call_service,
}
use karta_cards_vera.Pay.Transactions.{update_status, truthy}
use karta_cards_vera.Pay.Arqc.{Kdf, ArqcInput, generate_arqc, validate_arqc}

-- The services outside, by their answers to a request after the calls made before it: Palisade's
-- ATC counter, the vault (packages/vault-client) and the payment provider.
pub record Services : Type 0 where
  pub increment_atc : String → List Call → Outcome ℕ
  pub mint_token : MintRequest → List Call → Outcome String
  pub provider_name : String
  pub create_payment_method : PaymentMethodRequest → List Call → Outcome PaymentMethod
  pub charge : ChargeRequest → List Call → Outcome ChargeResult

pub record OrchestratePostAuthInput : Type 0 where
  pub transaction_id : String
  pub used_credential_id : String
  pub ip : Option String
  pub ua : Option String

pub record OrchestratePostAuthResult : Type 0 where
  pub rlid : String
  pub status : TransactionStatus
  pub provider_name : Option String
  pub provider_txn_id : Option String
  pub last4 : Option Text

-- `err instanceof Error ? err.message : String(err)`, by the error's code where it has one.
abbrev pub message_of : Thrown → String
message_of (api e) = e.code
message_of zod = "ZodError"
message_of (other msg) = msg

abbrev pub on_bus : (SseBus → SseBus) → Exec PayDb (Unit {0})
on_bus f s = (ok tt, record s { bus = f s.bus })

abbrev pub arqc_input : Transaction → String → ℕ → ArqcInput
arqc_input txn bin atc = record {
  bin = bin;
  card_id = txn.card_id;
  atc = atc;
  amount = txn.amount;
  currency = txn.currency;
  merchant_ref = txn.merchant_ref;
  nonce = txn.challenge_nonce;
}

abbrev pub mint_request : OrchestratePostAuthInput → Transaction → String → MintRequest
mint_request input txn entry = record {
  vault_entry_id = entry;
  amount = txn.amount;
  currency = txn.currency;
  purpose = concat "orchestration:" txn.rlid;
  transaction_id = txn.id;
  ip = input.ip;
  ua = input.ua;
}

abbrev pub payment_method_request : Transaction → String → PaymentMethodRequest
payment_method_request txn token = record {
  retrieval_token = token;
  expected_amount = txn.amount;
  expected_currency = txn.currency;
  transaction_id = txn.id;
}

abbrev pub charge_request : Transaction → PaymentMethod → ChargeRequest
charge_request txn pm = record {
  provider_payment_method_id = pm.provider_payment_method_id;
  amount = txn.amount;
  currency = txn.currency;
  idempotency_key = concat "charge_" txn.id;
  merchant_ref = txn.merchant_ref;
}

module _ (now : ℕ) where
  unfoldable pub publish : String → SseEventType → SseData → Exec PayDb (Unit {0})
  publish rlid kind payload =
      on_bus (Realtime.publish (record { kind = kind; rlid = rlid; at = now; payload = payload }))

  -- `fail`: the update may throw, which is ignored.
  unfoldable pub fail : String → String → String → Exec PayDb (Unit {0})
  fail id rlid reason = do
    try_catch
        (update_status now id TransactionStatus.failed
            (λ t. record t { failure_reason = some reason })
          >> pure tt)
        (λ err. pure tt)
    publish rlid SseEventType.failed (failed_data reason)
    on_bus (forget rlid)

  module _ (k : Kdf) (v : Services) (input : OrchestratePostAuthInput) (txn : Transaction) where
    -- 2. The cryptogram.
    unfoldable pub arqc_step : String → Exec PayDb (Unit {0})
    arqc_step bin = do
      atc ← call_service (v.increment_atc txn.card_id) (Call.increment_atc txn.card_id)
      arqc ← lift (generate_arqc k (arqc_input txn bin atc))
      valid ← lift (validate_arqc k (arqc_input txn bin atc) arqc)
      if valid then pure tt else raise (other "arqc_self_validation_failed")
      update_status now txn.id TransactionStatus.arqc_valid
          (λ t. record t { arqc = some arqc; atc_used = some atc })
      publish txn.rlid SseEventType.arqc_valid (atc_data atc)

    -- 3 and 4. A retrieval token, and the provider's payment method for it.
    unfoldable pub tokenise_step : String → Exec PayDb PaymentMethod
    tokenise_step entry = do
      token ←
          call_service (v.mint_token (mint_request input txn entry))
            (Call.mint_token (mint_request input txn entry))
      pm ←
          call_service (v.create_payment_method (payment_method_request txn token))
            (Call.create_payment_method (payment_method_request txn token))
      update_status now txn.id TransactionStatus.vault_retrieved (λ t. record t {
        provider_name = some v.provider_name;
        provider_payment_method_id = some pm.provider_payment_method_id;
      })
      publish txn.rlid SseEventType.vault_retrieved no_data
      publish txn.rlid SseEventType.provider_tokenised (tokenised_data v.provider_name pm.last4)
      pure pm

    -- 6. Complete, after a charge that succeeded.
    unfoldable pub complete_step :
        PaymentMethod → ChargeResult → Exec PayDb OrchestratePostAuthResult
    complete_step pm charge = do
      update_status now txn.id TransactionStatus.stripe_charged
          (λ t. record t { provider_txn_id = some charge.provider_txn_id })
      publish txn.rlid SseEventType.charged (charged_data charge.provider_txn_id)
      done ←
          update_status now txn.id TransactionStatus.completed
            (λ t. record t { actual_tier = some txn.tier })
      publish txn.rlid SseEventType.completed
          (completed_data v.provider_name charge.provider_txn_id pm.last4)
      on_bus (forget txn.rlid)
      pure (record {
        rlid = txn.rlid;
        status = done.status;
        provider_name = some v.provider_name;
        provider_txn_id = some charge.provider_txn_id;
        last4 = some pm.last4;
      })

    -- The charge was refused.
    unfoldable pub refused_step :
        PaymentMethod → ChargeResult → Exec PayDb OrchestratePostAuthResult
    refused_step pm charge = do
      fail txn.id txn.rlid (concat "provider_charge_failed: " (or_else charge.error "unknown"))
      pure (record {
        rlid = txn.rlid;
        status = TransactionStatus.failed;
        provider_name = some v.provider_name;
        provider_txn_id = none;
        last4 = some pm.last4;
      })

    -- 5. The charge.
    unfoldable pub charge_step : PaymentMethod → Exec PayDb OrchestratePostAuthResult
    charge_step pm = do
      charge ← call_service (v.charge (charge_request txn pm)) (Call.charge (charge_request txn pm))
      if charge.succeeded then complete_step pm charge else refused_step pm charge

    -- The `try` block.
    unfoldable pub pay : String → String → Exec PayDb OrchestratePostAuthResult
    pay entry bin = do arqc_step bin; pm ← tokenise_step entry; charge_step pm

    -- Its `catch`.
    unfoldable pub give_up : Thrown → Exec PayDb OrchestratePostAuthResult
    give_up err = do fail txn.id txn.rlid (message_of err); raise err

    -- 1. The two transitions of the authentication.
    unfoldable pub authn_step : Exec PayDb (Unit {0})
    authn_step = do
      update_status now txn.id TransactionStatus.authn_started
          (λ t. record t { used_credential_id = some input.used_credential_id })
      publish txn.rlid SseEventType.authn_started no_data
      update_status now txn.id TransactionStatus.authn_complete (λ t. t)
      publish txn.rlid SseEventType.authn_complete no_data

    unfoldable pub not_vaulted : Exec PayDb OrchestratePostAuthResult
    not_vaulted = do
      fail txn.id txn.rlid "card_not_vaulted"
      fail_with (bad_request "card_not_vaulted")

    unfoldable pub settle : String → String → Exec PayDb OrchestratePostAuthResult
    settle entry bin = do authn_step; try_catch (pay entry bin) give_up

    -- From the row that was read on.
    unfoldable pub post_auth : Option String → Option String → Exec PayDb OrchestratePostAuthResult
    post_auth (some entry) (some bin) = settle entry bin
    post_auth (some entry) none = not_vaulted
    post_auth none bin = not_vaulted

  abbrev pub with_row :
      Kdf
      → Services
      → OrchestratePostAuthInput
      → Option Transaction
      → Exec PayDb OrchestratePostAuthResult
  with_row k v input none = raise (other "P2025")
  with_row k v input (some txn) =
      post_auth k v input txn (truthy txn.vault_entry_id) (truthy txn.pan_bin)

  unfoldable pub orchestrate_post_auth :
      Kdf → Services → OrchestratePostAuthInput → Exec PayDb OrchestratePostAuthResult
  orchestrate_post_auth k v input s =
      with_row k v input (find_transaction input.transaction_id s.transactions) s
