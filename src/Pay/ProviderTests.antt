-- ===== src/Pay/ProviderTests.antt =====
-- Witnesses for the theorem about the mock provider.
use karta_cards_vera.Common.{◌≡◌, refl, codes, pos, not, List, [], ◌∷◌}
use karta_cards_vera.Core.Exec.{ok}
use karta_cards_vera.Core.Encryption.{decrypt, get_key, find_key}
use karta_cards_vera.Core.Json.{parse_card, stringify_card}
use karta_cards_vera.Vault.Db.{Db, find_token, find_entry, emit}
use karta_cards_vera.Vault.Retrieval.{
  consume_retrieval_token, claim, release, load_claimed, reveal, open_card, refuse,
}
use karta_cards_vera.Vault.Retrieval.SingleUse.{consume}
use karta_cards_vera.Vault.Tests.{toy, sale, with_token, one_token-IsUnique}
use karta_cards_vera.Pay.Db.{PaymentMethodRequest, PaymentMethod, ChargeRequest}
use karta_cards_vera.Pay.MockProvider.{Methods, create_payment_method, is_negative, charge}
use karta_cards_vera.Pay.MockProvider.Created.{vault_consume}
use karta_cards_vera.Pay.MockProvider.Calls.{Call, vault_call, create, call_all, use_count}
use karta_cards_vera.Pay.MockProvider.OneToken.{create_payment_method-once}

abbrev request : PaymentMethodRequest
request = record {
  retrieval_token = "vrt_1";
  expected_amount = pos 1500;
  expected_currency = codes "AUD";
  transaction_id = "t1";
}

abbrev cheaper : PaymentMethodRequest
cheaper = record request { expected_amount = pos 1 }

abbrev order : ChargeRequest
order = record {
  provider_payment_method_id = "pm_mock_a";
  amount = pos 1500;
  currency = codes "AUD";
  idempotency_key = "t1";
  merchant_ref = "m1";
}

abbrev method : PaymentMethod
method = record { provider_payment_method_id = "pm_mock_a"; last4 = codes "4242" }

abbrev methods : Methods
methods =
    (
      "pm_mock_a",
      record { last4 = codes "4242"; vault_entry_id = "ve_1"; retrieval_token_id = "rt_1" },
    )
    ∷ []

-- Before, a consumption of a token that there is not; after, a second creation and a consumption.
abbrev before : List Call
before = vault_call (consume 1500 "vrt_9" sale) ∷ []

abbrev after : List Call
after = create 3000 "b" cheaper ∷ vault_call (consume 3000 "vrt_1" sale) ∷ []

abbrev spent : Db
spent =
    (create_payment_method (vault_consume toy 2000) "a" request
      (call_all toy before ([], with_token))).1.1

create_run :
    create_payment_method
      (vault_consume toy 2000)
      "a"
      request
      (call_all toy before ([], with_token))
    ≡ (ok method, (methods, spent))
unfolding create_payment_method consume_retrieval_token claim release load_claimed reveal open_card
    find_token find_entry emit decrypt get_key find_key parse_card stringify_card refuse
create_run = refl

create_payment_method-once_example :
    (use_count toy "vrt_1" before ([], with_token) ≡ 0)
    × (use_count toy "vrt_1" after (methods, spent) ≡ 0)
    × ((charge "x" order (call_all toy after (methods, spent)).0).succeeded
        ≡ not (is_negative order.amount))
create_payment_method-once_example =
    create_payment_method-once toy before after 2000 "a" "x" request order ([], with_token)
      (methods, spent) method one_token-IsUnique refl create_run
