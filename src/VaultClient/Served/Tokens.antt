-- ===== src/VaultClient/Served/Tokens.antt =====
-- Minting and consuming a token over HTTP.
use karta_cards_vera.Common.{
  ℕ, ◌≤◌, ◌/◌, ◌≡◌, refl, ap, ◌∙◌, Text, codes, string_of, pos, none, some, or_else,
}
use karta_cards_vera.Core.Exec.{ok, pure, ◌>>=◌}
use karta_cards_vera.Core.Http.{HttpRequest, drop_slash}
use karta_cards_vera.Core.Zod.{Json}
use karta_cards_vera.ServiceAuth.{
  secret_for, distance, default_window, require_signed_request, require_caller_key_id, next,
}
use karta_cards_vera.ServiceAuth.RoundTrip.{MacLaws, IsWord, require_signed_request-sign_request}
use karta_cards_vera.Vault.Db.{Db}
use karta_cards_vera.Vault.Schemas.{mint_schema, MintBody, consume_schema, ConsumeBody}
use karta_cards_vera.Vault.Retrieval.{mint_retrieval_token, consume_retrieval_token}
use karta_cards_vera.Vault.Routes.{
  VaultRequest, VaultConfig, Entropy, caller_actor, minted, consumed, mint_route, consume_route,
  dispatch, respond, vault_router,
}
use karta_cards_vera.VaultClient.{
  VaultClientOptions, MintTokenInput, mint_json, ConsumeTokenInput, consume_json,
  signed_http_request, mint_token, consume_token,
}
use karta_cards_vera.VaultClient.Served.{Wire, Carries, received}
use karta_cards_vera.VaultClient.Served.Bodies.{
  IsMintable, IsConsumable, mint_schema-mint_json, consume_schema-consume_json, validate_body-ok,
}

-- The handlers on a valid body.
module _ (cfg : VaultConfig) (fresh : Entropy) (now : ℕ) (req : VaultRequest) (key : Text) (s : Db)
    (caller : require_caller_key_id (some key) ≡ ok key) where
  mint_route-valid :
      (b : MintBody)
      → mint_schema req.body ≡ some b
      → mint_route cfg fresh now req key s
        ≡ (mint_retrieval_token cfg.token_ttl_seconds now fresh.token_id fresh.token (record {
          vault_entry_id = b.vault_entry_id;
          amount = b.amount;
          currency = b.currency;
          by = caller_actor key b.caller;
          transaction_id = b.caller.transaction_id;
        })
              >>= λ r. pure (minted r))
            s
  unfolding mint_route
  mint_route-valid b h =
      let valid = validate_body-ok mint_schema req.body b h in rw (valid, caller, mint_route) refl

  consume_route-valid :
      (b : ConsumeBody)
      → consume_schema req.body ≡ some b
      → consume_route cfg fresh now req key s
        ≡ (consume_retrieval_token cfg.crypto now b.token (record {
          expected_amount = b.expected_amount;
          expected_currency = b.expected_currency;
          by = caller_actor key b.caller;
          transaction_id = b.caller.transaction_id;
        })
              >>= λ r. pure (consumed r))
            s
  unfolding consume_route
  consume_route-valid b h =
      let valid = validate_body-ok consume_schema req.body b h in
      rw (valid, caller, consume_route) refl

-- A client and a vault that share a secret, with clocks that differ by no more than the window.
module _ (cfg : VaultConfig) (fresh : Entropy) (w : Wire) (base_url : Text)
    (auth : VaultClientOptions) (sent later : ℕ) (mac : MacLaws cfg.mac) (word : IsWord auth.key_id)
    (known : secret_for auth.key_id cfg.auth.keys ≡ some auth.secret)
    (timely : distance (later / 1000) (pos sent)
      ≤ or_else cfg.auth.window_seconds default_window) where
  abbrev posted : Text → Json → HttpRequest
  posted path j =
      signed_http_request cfg.mac w.stringify base_url auth sent path (codes "POST") (w.stringify j)

  -- The request arrives as it was meant.
  abbrev arrived : Text → Json → VaultRequest
  arrived path j = record {
    authorization = some (posted path j).authorization;
    method = codes "POST";
    url = path;
    raw_body = some (w.stringify j);
    body = j;
    limit = none;
    offset = none;
    ip = w.ip;
    user_agent = w.user_agent;
  }

  received-posted :
      (path : Text) (j : Json)
      → Carries w base_url path j
      → received w (posted path j) ≡ arrived path j
  unfolding signed_http_request
  received-posted path j wire = rw (wire.body_some, wire.path_kept, wire.body_kept) refl

  vault_router-posted :
      (path : Text) (j : Json) (s : Db)
      → Carries w base_url path j
      → vault_router cfg fresh later (received w (posted path j)) s
        ≡ respond (dispatch cfg fresh later (arrived path j) auth.key_id s)
  unfolding vault_router signed_http_request
  vault_router-posted path j s wire =
      let passes : require_signed_request cfg.mac cfg.auth (some (posted path j).authorization)
            (codes "POST") path (some (w.stringify j)) (later / 1000)
          ≡ next auth.key_id =
        require_signed_request-sign_request cfg.mac
          (record {
            method = codes "POST";
            path_and_query = path;
            body = w.stringify j;
            key_id = auth.key_id;
            secret = auth.secret;
            now = sent;
          })
          cfg.auth (some (w.stringify j)) (later / 1000) mac word refl known timely in
      ap (λ r. vault_router cfg fresh later r s) (received-posted path j wire)
      ∙ rw (passes, vault_router) refl

  caller_known : require_caller_key_id (some auth.key_id) ≡ ok auth.key_id
  unfolding require_caller_key_id
  caller_known = rw word.nonempty refl

  -- A mint that the client asks for over HTTP is the vault's own mint, in the name of the client's
  -- key, with the answer that the router makes of it.
  pub vault_router-mint_token :
      (i : MintTokenInput) (amount : ℕ) (s : Db)
      → Carries w base_url (codes "/api/vault/tokens/mint") (mint_json i)
      → IsMintable i amount
      → vault_router cfg fresh later
          (received w (mint_token cfg.mac w.stringify base_url auth sent i))
          s
        ≡ respond (
            (mint_retrieval_token cfg.token_ttl_seconds later fresh.token_id fresh.token (record {
              vault_entry_id = i.vault_entry_id;
              amount = amount;
              currency = i.currency;
              by = record {
                actor = string_of auth.key_id;
                purpose = i.purpose;
                ip = i.ip;
                ua = i.ua;
              };
              transaction_id = i.transaction_id;
            })
                >>= λ r. pure (minted r))
              s)
  unfolding mint_token dispatch mint_route drop_slash
  vault_router-mint_token i amount s wire v =
      vault_router-posted (codes "/api/vault/tokens/mint") (mint_json i) s wire
      ∙ ap respond (
          mint_route-valid cfg fresh later (arrived (codes "/api/vault/tokens/mint") (mint_json i))
            auth.key_id s caller_known _ (mint_schema-mint_json i amount v))

  -- So is a consumption.
  pub vault_router-consume_token :
      (i : ConsumeTokenInput) (amount : ℕ) (s : Db)
      → Carries w base_url (codes "/api/vault/tokens/consume") (consume_json i)
      → IsConsumable i amount
      → vault_router cfg fresh later
          (received w (consume_token cfg.mac w.stringify base_url auth sent i))
          s
        ≡ respond (
            (consume_retrieval_token cfg.crypto later i.token (record {
              expected_amount = amount;
              expected_currency = i.expected_currency;
              by = record {
                actor = string_of auth.key_id;
                purpose = i.purpose;
                ip = i.ip;
                ua = i.ua;
              };
              transaction_id = i.transaction_id;
            })
                >>= λ r. pure (consumed r))
              s)
  unfolding consume_token dispatch consume_route drop_slash
  vault_router-consume_token i amount s wire v =
      vault_router-posted (codes "/api/vault/tokens/consume") (consume_json i) s wire
      ∙ ap respond (
          consume_route-valid cfg fresh later
            (arrived (codes "/api/vault/tokens/consume") (consume_json i)) auth.key_id s
            caller_known _ (consume_schema-consume_json i amount v))
