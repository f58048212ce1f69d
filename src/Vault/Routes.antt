-- ===== src/Vault/Routes.antt =====
-- services/vault/src/index.ts and routes: the vault's router behind the signature check, its
-- handlers and the error middleware. express.json (with its 64kb limit) is outside: a request comes
-- with the raw bytes and the value they parse to.
pub mod Attributed
use karta_cards_vera.Common.{
  ℕ, ◌/◌, String, concat, Text, codes, string_of, pos, Option, none, some, Bool, ◌&&◌, List, [],
  map, take, drop, eqb, leb, text_eq, or_else, if◌then◌else◌,
}
use mathlib.Core.List.{reverse}
use karta_cards_vera.Core.Error.{ErrorBody, zod, error_middleware}
use karta_cards_vera.Core.Exec.{Outcome, ok, throw, Exec, pure, lift, gets, ◌>>=◌, ◌>>◌}
use karta_cards_vera.Core.Encryption.{Bytes}
use karta_cards_vera.Core.Http.{drop_slash}
use karta_cards_vera.Core.Zod.{Json, num, validate_body}
use karta_cards_vera.ServiceAuth.{
  Mac, break_at, ServiceAuthError, RequireSignedRequestOptions, require_signed_request,
  require_caller_key_id, next, answer, next_error,
}
use karta_cards_vera.Pay.Arqc.{lower}
use karta_cards_vera.Vault.Audit.{Actor, AccessLog}
use karta_cards_vera.Vault.Db.{Db, VaultEntry, find_entry}
use karta_cards_vera.Vault.Store.{
  Crypto, Fresh, StoreInput, StoreResult, OnDuplicate, reuse, store_card,
}
use karta_cards_vera.Vault.Retrieval.{
  MintTokenResult, mint_retrieval_token, ConsumeResult, consume_retrieval_token,
}
use karta_cards_vera.Vault.Proxy.{ProxyInput, ProxyResult, Network, Wired, forward_via_vault}
use karta_cards_vera.Vault.Schemas.{
  CardBody, ProxyBody, CallerBody, store_schema, register_schema, mint_schema, consume_schema,
  proxy_schema,
}

-- A request as the router sees it; `url` is `originalUrl`, `limit` and `offset` are what
-- `Number` makes of those query parameters.
pub record VaultRequest : Type 0 where
  pub authorization : Option Text
  pub method : Text
  pub url : Text
  pub raw_body : Option Bytes
  pub body : Json
  pub limit : Option Json
  pub offset : Option Json
  pub ip : Option String
  pub user_agent : Option String

-- The vault's configuration, its cryptography and its network; and the random values of a request.
pub record VaultConfig : Type 0 where
  pub auth : RequireSignedRequestOptions
  pub token_ttl_seconds : ℕ
  pub mac : Mac
  pub crypto : Crypto
  pub network : Network

pub record Entropy : Type 0 where
  pub entry : Fresh
  pub token_id : String
  pub token : String

-- A row of the audit log with the summary of its entry.
pub record AuditRow : Type 0 where
  pub log : AccessLog
  pub entry : Option (Text × Text × String)

pub data VaultResponse : Type 0 where
  stored : StoreResult → VaultResponse
  registered : String → Text → VaultResponse
  minted : MintTokenResult → VaultResponse
  consumed : ConsumeResult → VaultResponse
  forwarded : ProxyResult → VaultResponse
  listed : List AuditRow → VaultResponse
  refused : ℕ → ServiceAuthError → VaultResponse
  errored : ErrorBody → VaultResponse
  no_route : VaultResponse

-- `req.callerKeyId` and the request's own fields, as the audit names them.
abbrev pub actor_of : VaultRequest → Text → String → Actor
actor_of req key purpose = record {
  actor = string_of key;
  purpose = purpose;
  ip = req.ip;
  ua = req.user_agent;
}

abbrev pub store_input :
    VaultRequest → Text → CardBody → String → Option OnDuplicate → Option String → StoreInput
store_input req key card purpose on_duplicate idempotency_key = record {
  pan = card.pan;
  cvc = card.cvc;
  expiry_month = card.expiry_month;
  expiry_year = card.expiry_year;
  cardholder_name = card.cardholder_name;
  by = actor_of req key purpose;
  on_duplicate = on_duplicate;
  idempotency_key = idempotency_key;
}

abbrev pub caller_actor : Text → CallerBody → Actor
caller_actor key b = record { actor = string_of key; purpose = b.purpose; ip = b.ip; ua = b.ua }

abbrev pub summary_of : List VaultEntry → AccessLog → AuditRow
summary_of entries log = record {
  log = log;
  entry = elim log.vault_entry_id [
    | none ↦ none
    | some id ↦ elim (find_entry id entries) [
      | none ↦ none
      | some e ↦ some (e.pan_last4, e.pan_bin, e.cardholder_name)
    ]
  ];
}

-- `listAuditEvents`: the newest first.
unfoldable pub list_audit_events : ℕ → ℕ → Db → List AuditRow
list_audit_events limit offset s =
    take (if leb limit 500 then limit else 500)
      (drop offset (map (summary_of s.entries) (reverse s.access_log)))

-- `z.coerce.number().int().positive().max(500).default(100)`, and the offset's.
abbrev pub limit_of : Option Json → Option ℕ
limit_of none = some 100
limit_of (some (num (pos n))) = if leb 1 n && leb n 500 then some n else none
limit_of (some _) = none

abbrev pub offset_of : Option Json → Option ℕ
offset_of none = some 0
offset_of (some (num (pos n))) = some n
offset_of (some _) = none

-- What was sent is no part of the vault's state.
abbrev pub unwired : {A : Type 0} → Exec Wired A → Exec Db A
unwired m s = ((m (s, [])).0, (m (s, [])).1.0)

module _ (cfg : VaultConfig) (fresh : Entropy) (now : ℕ) (req : VaultRequest) (key : Text) where
  unfoldable pub store_route : Exec Db VaultResponse
  store_route = do
    body ← lift (validate_body store_schema req.body)
    actor ← lift (require_caller_key_id (some key))
    result ←
        store_card cfg.crypto fresh.entry
          (store_input req actor body.card body.purpose body.on_duplicate none)
    pure (stored result)

  unfoldable pub register_route : Exec Db VaultResponse
  register_route = do
    body ← lift (validate_body register_schema req.body)
    actor ← lift (require_caller_key_id (some key))
    result ← store_card cfg.crypto fresh.entry (
        store_input req actor body.card (concat "register " body.idempotency_key) (some reuse)
          (some body.idempotency_key))
    pure (registered result.vault_entry_id result.pan_last4)

  unfoldable pub mint_route : Exec Db VaultResponse
  mint_route = do
    body ← lift (validate_body mint_schema req.body)
    actor ← lift (require_caller_key_id (some key))
    result ← mint_retrieval_token cfg.token_ttl_seconds now fresh.token_id fresh.token (record {
      vault_entry_id = body.vault_entry_id;
      amount = body.amount;
      currency = body.currency;
      by = caller_actor actor body.caller;
      transaction_id = body.caller.transaction_id;
    })
    pure (minted result)

  unfoldable pub consume_route : Exec Db VaultResponse
  consume_route = do
    body ← lift (validate_body consume_schema req.body)
    actor ← lift (require_caller_key_id (some key))
    result ← consume_retrieval_token cfg.crypto now body.token (record {
      expected_amount = body.expected_amount;
      expected_currency = body.expected_currency;
      by = caller_actor actor body.caller;
      transaction_id = body.caller.transaction_id;
    })
    pure (consumed result)

  abbrev pub proxy_input : ProxyBody → Text → ProxyInput
  proxy_input body actor = record {
    retrieval_token = body.retrieval_token;
    destination = body.destination;
    method = body.method;
    headers = or_else body.headers [];
    body = body.body;
    expected_amount = body.expected_amount;
    expected_currency = body.expected_currency;
    by = record {
      actor = string_of actor;
      purpose = body.caller.purpose;
      ip = elim body.caller.ip [ none ↦ req.ip | some ip ↦ some ip ];
      ua = elim body.caller.ua [ none ↦ req.user_agent | some ua ↦ some ua ];
    };
    transaction_id = body.caller.transaction_id;
  }

  unfoldable pub proxy_route : Exec Db VaultResponse
  proxy_route = do
    body ← lift (validate_body (proxy_schema cfg.network) req.body)
    actor ← lift (require_caller_key_id (some key))
    result ← unwired (forward_via_vault cfg.crypto cfg.network now (proxy_input body actor))
    pure (forwarded result)

  abbrev pub query_of : Option ℕ → Option ℕ → Outcome (ℕ × ℕ)
  query_of (some limit) (some offset) = ok (limit, offset)
  query_of _ _ = throw zod

  unfoldable pub audit_route : Exec Db VaultResponse
  audit_route = do
    (limit, offset) ← lift (query_of (limit_of req.limit) (offset_of req.offset))
    rows ← gets (list_audit_events limit offset)
    pure (listed rows)

-- Express matches a path without regard to case and to one slash at its end.
abbrev pub is_path : Text → Text → Bool
is_path path url = text_eq (drop_slash (map lower (break_at (eqb b'?') url).0)) path

-- The routes behind the signature check.
unfoldable pub dispatch : VaultConfig → Entropy → ℕ → VaultRequest → Text → Exec Db VaultResponse
dispatch cfg fresh now req key =
    if text_eq req.method (codes "POST")
    then if is_path (codes "/api/vault/store") req.url
      then store_route cfg fresh now req key
      else if is_path (codes "/api/vault/register") req.url
      then register_route cfg fresh now req key
      else if is_path (codes "/api/vault/tokens/mint") req.url
      then mint_route cfg fresh now req key
      else if is_path (codes "/api/vault/tokens/consume") req.url
      then consume_route cfg fresh now req key
      else if is_path (codes "/api/vault/proxy") req.url
      then proxy_route cfg fresh now req key
      else pure no_route
    else if text_eq req.method (codes "GET") && is_path (codes "/api/vault/audit") req.url
    then audit_route cfg fresh now req key
    else pure no_route

-- `errorMiddleware`
abbrev pub respond : Outcome VaultResponse × Db → VaultResponse × Db
respond (ok r, s) = (r, s)
respond (throw e, s) = (errored (error_middleware e), s)

-- The vault's router; the clock is in milliseconds, the signature check reads it in seconds.
unfoldable pub vault_router : VaultConfig → Entropy → ℕ → VaultRequest → Db → VaultResponse × Db
vault_router cfg fresh now req s =
    elim (require_signed_request cfg.mac cfg.auth req.authorization req.method req.url req.raw_body
      (now / 1000)) [
        | answer status e ↦ (refused status e, s)
        | next_error e ↦ (errored (error_middleware e), s)
        | next key ↦ respond (dispatch cfg fresh now req key s)
      ]
