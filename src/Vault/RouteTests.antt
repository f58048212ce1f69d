-- ===== src/Vault/RouteTests.antt =====
-- Witnesses for the theorem about the vault's routes: a request to mint a token.
use karta_cards_vera.Common.{◌/◌, ◌≡◌, ◌⊎◌, Text, codes, string_of, pos, none, some, [], ◌∷◌}
use karta_cards_vera.Core.Encryption.{Bytes}
use karta_cards_vera.Core.Zod.{obj, field, end, num, str}
use karta_cards_vera.ServiceAuth.{sign_request, ServiceAuthError, verify_input}
use karta_cards_vera.ServiceAuth.Inherited.{HasInheritedKey}
use karta_cards_vera.ServiceAuth.Sound.{IsSigned}
use karta_cards_vera.ServiceAuth.Tests.{mac}
use karta_cards_vera.Vault.Attribution.{IsAttributed}
use karta_cards_vera.Vault.Routes.{
  VaultConfig, Entropy, VaultRequest, refused, errored, vault_router,
}
use karta_cards_vera.Vault.Routes.Attributed.{vault_router-IsAttributed}
use karta_cards_vera.Vault.Tests.{toy, fresh, vault}
use karta_cards_vera.Vault.ProxyTests.{network}

abbrev pub config : VaultConfig
config = record {
  auth = record { keys = (codes "pay", 5 ∷ []) ∷ []; window_seconds = none };
  token_ttl_seconds = 300;
  mac = mac;
  crypto = toy;
  network = network;
}

abbrev pub entropy : Entropy
entropy = record { entry = fresh; token_id = "rt_1"; token = "vrt_1" }

abbrev body : Bytes
body = codes "{}"

abbrev request : VaultRequest
request = record {
  authorization = some (
      sign_request mac (record {
        method = codes "POST";
        path_and_query = codes "/api/vault/tokens/mint";
        body = body;
        key_id = codes "pay";
        secret = 5 ∷ [];
        now = 1700;
      }));
  method = codes "POST";
  url = codes "/api/vault/tokens/mint";
  raw_body = some body;
  body = obj (
      field "vaultEntryId" (str (codes "ve_1")) (
        field "amount" (num (pos 1500))
          (field "currency" (str (codes "AUD")) (field "purpose" (str (codes "payment")) end))));
  limit = none;
  offset = none;
  ip = none;
  user_agent = none;
}

vault_router-IsAttributed_example :
    ((e : ServiceAuthError) × (vault_router config entropy 1_700_500 request vault
        ≡ (refused 401 e, vault)))
    ⊎ (((vault_router config entropy 1_700_500 request vault
            ≡ (errored (record { status = 500; code = "internal_error"; details = none }), vault))
          × HasInheritedKey (
              verify_input config.auth request.authorization request.method request.url
                request.raw_body
                (1_700_500 / 1000)))
        ⊎ ((key : Text) × IsSigned mac
              (verify_input config.auth request.authorization request.method request.url
                request.raw_body
                (1_700_500 / 1000))
              key
            × IsAttributed
                (string_of key)
                vault.access_log
                (vault_router config entropy 1_700_500 request vault).1.access_log))
vault_router-IsAttributed_example = vault_router-IsAttributed config entropy 1_700_500 request vault
