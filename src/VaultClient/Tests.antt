-- ===== src/VaultClient/Tests.antt =====
-- Witnesses for the theorems about the vault's client and router together.
use karta_cards_vera.Common.{
  ℕ, zero, suc, ◌≡◌, refl, Text, codes, string_of, pos, none, some, [], ◌∷◌, ◌++◌, take, drop,
  length, arith,
}
use karta_cards_vera.Core.Exec.{pure, ◌>>=◌}
use karta_cards_vera.Core.Encryption.{Bytes}
use karta_cards_vera.Core.Http.{drop_slash}
use karta_cards_vera.Core.Zod.{Json, null, num, str, obj, Fields, end, field}
use karta_cards_vera.ServiceAuth.Tests.{mac, mac-MacLaws, pay-IsWord}
use karta_cards_vera.Vault.Retrieval.{consume_retrieval_token}
use karta_cards_vera.Vault.Routes.{consumed, respond, vault_router}
use karta_cards_vera.Vault.Tests.{with_token}
use karta_cards_vera.Vault.RouteTests.{config, entropy}
use karta_cards_vera.VaultClient.{
  VaultClientOptions, ConsumeTokenInput, consume_json, consume_token,
}
use karta_cards_vera.VaultClient.Served.{Wire, Carries, received}
use karta_cards_vera.VaultClient.Served.Bodies.{IsConsumable}
use karta_cards_vera.VaultClient.Served.Tokens.{vault_router-consume_token}

-- An encoding of flat objects of texts and amounts: a tag, a length, the content.
abbrev print_value : Json → Bytes
print_value (num (pos n)) = 0 ∷ n ∷ []
print_value (str t) = 1 ∷ length t ∷ t
print_value _ = 2 ∷ []

abbrev print_fields : Fields → Bytes
print_fields end = []
print_fields (field k v rest) = length (codes k) ∷ codes k ++ (print_value v ++ print_fields rest)

abbrev stringify : Json → Bytes
stringify (obj fields) = 3 ∷ print_fields fields
stringify j = print_value j

abbrev parse_value : Bytes → Json
parse_value (zero ∷ n ∷ rest) = num (pos n)
parse_value (suc zero ∷ l ∷ rest) = str (take l rest)
parse_value _ = null

abbrev after_value : Bytes → Bytes
after_value (suc zero ∷ l ∷ rest) = drop l rest
after_value bytes = drop 2 bytes

abbrev parse_fields : ℕ → Bytes → Fields
parse_fields zero bytes = end
parse_fields (suc fuel) [] = end
parse_fields (suc fuel) (l ∷ bytes) =
    let rest = drop l bytes in
    field (string_of (take l bytes)) (parse_value rest) (parse_fields fuel (after_value rest))

abbrev parse : Bytes → Json
parse (suc (suc (suc zero)) ∷ bytes) = obj (parse_fields (length bytes) bytes)
parse _ = null

abbrev wire : Wire
wire = record {
  stringify = stringify;
  parse = parse;
  path_of = drop 10;
  ip = none;
  user_agent = none;
}

abbrev base_url : Text
base_url = codes "http://v:1/"

abbrev auth : VaultClientOptions
auth = record { key_id = codes "pay"; secret = 5 ∷ [] }

abbrev sale : ConsumeTokenInput
sale = record {
  token = "vrt_1";
  expected_amount = pos 1500;
  expected_currency = "AUD";
  purpose = "payment";
  transaction_id = some "t1";
  ip = none;
  ua = none;
}

sale-Carries : Carries wire base_url (codes "/api/vault/tokens/consume") (consume_json sale)
unfolding drop_slash
sale-Carries = record { path_kept = refl; body_kept = refl; body_some = refl }

sale-IsConsumable : IsConsumable sale 1500
sale-IsConsumable = record {
  amount_is = refl;
  token_length = refl;
  currency_length = refl;
  purpose_length = refl;
}

vault_router-consume_token_example :
    vault_router config entropy 1_730_500
      (received wire (consume_token mac stringify base_url auth 1700 sale))
      with_token
    ≡ respond (
        (consume_retrieval_token config.crypto 1_730_500 "vrt_1" (record {
          expected_amount = 1500;
          expected_currency = "AUD";
          by = record { actor = "pay"; purpose = "payment"; ip = none; ua = none };
          transaction_id = some "t1";
        })
            >>= λ r. pure (consumed r))
          with_token)
vault_router-consume_token_example =
    vault_router-consume_token config entropy wire base_url auth 1700 1_730_500 mac-MacLaws
      pay-IsWord refl (omega arith) sale 1500 with_token sale-Carries sale-IsConsumable
