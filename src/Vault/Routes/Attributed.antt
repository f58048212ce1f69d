-- ===== src/Vault/Routes/Attributed.antt =====
-- The vault's router acts only for a verified caller, and logs in the caller's name.
use karta_cards_vera.Common.{
  ℕ, ◌/◌, ◌≡◌, refl, ap, String, Text, codes, string_of, none, some, Bool, true, false, ◌&&◌, [],
  ◌⊎◌, text_eq, inl, inr, arith, subst, concat, if◌then◌else◌,
}
use karta_cards_vera.Core.Exec.{Outcome, ok, throw, Exec, pure, ◌>>=◌, Outcome-cases}
use karta_cards_vera.Core.Zod.{validate_body}
use karta_cards_vera.Core.Error.{error_middleware}
use karta_cards_vera.ServiceAuth.{ServiceAuthError, verify_input, require_caller_key_id}
use karta_cards_vera.ServiceAuth.Inherited.{HasInheritedKey}
use karta_cards_vera.ServiceAuth.Sound.{IsSigned, require_signed_request-IsSigned}
use karta_cards_vera.Vault.Db.{Db}
use karta_cards_vera.Vault.Store.{store_card, StoreInput, reuse}
use karta_cards_vera.Vault.Retrieval.{
  mint_retrieval_token, consume_retrieval_token, MintTokenInput, ConsumeContext,
}
use karta_cards_vera.Vault.Proxy.{forward_via_vault}
use karta_cards_vera.Vault.Schemas.{
  store_schema, register_schema, mint_schema, consume_schema, proxy_schema,
}
use karta_cards_vera.Vault.Attribution.{
  IsAttributed, IsAttributed-same, store_card-IsAttributed, mint_retrieval_token-IsAttributed,
  consume_retrieval_token-IsAttributed,
}
use karta_cards_vera.Vault.Proxy.Logged.{forward_via_vault-IsAttributed}
use karta_cards_vera.Vault.Routes.{
  VaultRequest, VaultConfig, Entropy, VaultResponse, refused, errored, registered, minted, consumed,
  forwarded, store_input, caller_actor, proxy_input, unwired, store_route, register_route,
  mint_route, consume_route, proxy_route, audit_route, query_of, limit_of, offset_of, is_path,
  dispatch, respond, vault_router,
}

state-pure :
    {A B : Type 0} (m : Exec Db A) (f : A → B) (s : Db) → ((m >>= λ a. pure (f a)) s).1 ≡ (m s).1
state-pure m f s = elim (Outcome-cases (m s).0) [
  | inl (a, x) ↦ rw (x, ◌>>=◌) refl
  | inr (e, x) ↦ rw (x, ◌>>=◌) refl
]

state-respond : (r : Outcome VaultResponse × Db) → (respond r).1 ≡ r.1
state-respond (ok a, s) = refl
state-respond (throw e, s) = refl

require_caller_key_id-ok :
    (key actor : Text) → require_caller_key_id (some key) ≡ ok actor → actor ≡ key
unfolding require_caller_key_id
require_caller_key_id-ok key actor h = ground arith

module _ (cfg : VaultConfig) (fresh : Entropy) (now : ℕ) (req : VaultRequest) (key : Text)
    (s : Db) where
  abbrev ByCaller : Exec Db VaultResponse → Type 0
  ByCaller m = IsAttributed (string_of key) s.access_log (m s).1.access_log

  abbrev IsLogged : Db → Type 0
  IsLogged t = IsAttributed (string_of key) s.access_log t.access_log

  unchanged : IsLogged s
  unchanged = IsAttributed-same (string_of key) s.access_log

  named :
      (actor : Text) → require_caller_key_id (some key) ≡ ok actor → string_of actor ≡ string_of key
  named actor h = ap string_of (require_caller_key_id-ok key actor h)

  stored-IsLogged :
      (input : StoreInput)
      → input.by.actor ≡ string_of key
      → IsLogged (store_card cfg.crypto fresh.entry input s).1
  stored-IsLogged input h =
      subst
        (λ (a : String).
          IsAttributed a s.access_log (store_card cfg.crypto fresh.entry input s).1.access_log)
        h (store_card-IsAttributed cfg.crypto fresh.entry input s)

  store_route-IsAttributed : ByCaller (store_route cfg fresh now req key)
  unfolding store_route
  store_route-IsAttributed = elim (Outcome-cases (validate_body store_schema req.body)) [
    | inr (e, x) ↦ rw (x, store_route) unchanged
    | inl (body, x) ↦ elim (Outcome-cases (require_caller_key_id (some key))) [
      | inr (e, y) ↦ rw (x, y, store_route) unchanged
      | inl (actor, y) ↦
          let input = store_input req actor body.card body.purpose body.on_duplicate none in
          rw (x, y, store_route)
            (rw (state-pure (store_card cfg.crypto fresh.entry input) VaultResponse.stored s)
              (stored-IsLogged input (named actor y)))
    ]
  ]

  register_route-IsAttributed : ByCaller (register_route cfg fresh now req key)
  unfolding register_route
  register_route-IsAttributed = elim (Outcome-cases (validate_body register_schema req.body)) [
    | inr (e, x) ↦ rw (x, register_route) unchanged
    | inl (body, x) ↦ elim (Outcome-cases (require_caller_key_id (some key))) [
      | inr (e, y) ↦ rw (x, y, register_route) unchanged
      | inl (actor, y) ↦
          let input =
            store_input req actor body.card (concat "register " body.idempotency_key) (some reuse)
              (some body.idempotency_key) in
          rw (x, y, register_route)
            (rw
              (state-pure (store_card cfg.crypto fresh.entry input)
                (λ r. registered r.vault_entry_id r.pan_last4) s)
              (stored-IsLogged input (named actor y)))
    ]
  ]

  mint_route-IsAttributed : ByCaller (mint_route cfg fresh now req key)
  unfolding mint_route
  mint_route-IsAttributed = elim (Outcome-cases (validate_body mint_schema req.body)) [
    | inr (e, x) ↦ rw (x, mint_route) unchanged
    | inl (body, x) ↦ elim (Outcome-cases (require_caller_key_id (some key))) [
      | inr (e, y) ↦ rw (x, y, mint_route) unchanged
      | inl (actor, y) ↦
          let input : MintTokenInput = record {
            vault_entry_id = body.vault_entry_id;
            amount = body.amount;
            currency = body.currency;
            by = caller_actor actor body.caller;
            transaction_id = body.caller.transaction_id;
          } in
          rw (x, y, mint_route)
            (rw
              (state-pure
                (mint_retrieval_token cfg.token_ttl_seconds now fresh.token_id fresh.token input)
                minted s)
              (mint_retrieval_token-IsAttributed (string_of key) s.access_log cfg.token_ttl_seconds
                now fresh.token_id fresh.token input s unchanged (named actor y)))
    ]
  ]

  consume_route-IsAttributed : ByCaller (consume_route cfg fresh now req key)
  unfolding consume_route
  consume_route-IsAttributed = elim (Outcome-cases (validate_body consume_schema req.body)) [
    | inr (e, x) ↦ rw (x, consume_route) unchanged
    | inl (body, x) ↦ elim (Outcome-cases (require_caller_key_id (some key))) [
      | inr (e, y) ↦ rw (x, y, consume_route) unchanged
      | inl (actor, y) ↦
          let ctx : ConsumeContext = record {
            expected_amount = body.expected_amount;
            expected_currency = body.expected_currency;
            by = caller_actor actor body.caller;
            transaction_id = body.caller.transaction_id;
          } in
          rw (x, y, consume_route)
            (rw (state-pure (consume_retrieval_token cfg.crypto now body.token ctx) consumed s) (
              consume_retrieval_token-IsAttributed (string_of key) s.access_log cfg.crypto ctx
                (named actor y) now body.token s unchanged))
    ]
  ]

  proxy_route-IsAttributed : ByCaller (proxy_route cfg fresh now req key)
  unfolding proxy_route
  proxy_route-IsAttributed =
      elim (Outcome-cases (validate_body (proxy_schema cfg.network) req.body)) [
        | inr (e, x) ↦ rw (x, proxy_route) unchanged
        | inl (body, x) ↦ elim (Outcome-cases (require_caller_key_id (some key))) [
          | inr (e, y) ↦ rw (x, y, proxy_route) unchanged
          | inl (actor, y) ↦
              let input = proxy_input cfg fresh now req key body actor in
              rw (x, y, proxy_route)
                (rw
                  (state-pure (unwired (forward_via_vault cfg.crypto cfg.network now input))
                    forwarded s)
                  (forward_via_vault-IsAttributed cfg.crypto cfg.network now input (string_of key)
                    s.access_log (named actor y) s [] unchanged))
        ]
      ]

  audit_route-IsAttributed : ByCaller (audit_route cfg fresh now req key)
  unfolding audit_route
  audit_route-IsAttributed =
      elim (Outcome-cases
        (query_of cfg fresh now req key (limit_of req.limit) (offset_of req.offset))) [
          | inr (e, x) ↦ rw (x, audit_route) unchanged
          | inl ((limit, offset), x) ↦ rw (x, audit_route) unchanged
        ]

  branch :
      (b : Bool) (m n : Exec Db VaultResponse)
      → ByCaller m
      → ByCaller n
      → ByCaller (if b then m else n)
  branch true m n h k = h
  branch false m n h k = k

  dispatch-IsAttributed : ByCaller (dispatch cfg fresh now req key)
  unfolding dispatch
  dispatch-IsAttributed =
      branch (text_eq req.method (codes "POST")) _ _
        (branch (is_path (codes "/api/vault/store") req.url) _ _ store_route-IsAttributed (
          branch (is_path (codes "/api/vault/register") req.url) _ _ register_route-IsAttributed (
            branch (is_path (codes "/api/vault/tokens/mint") req.url) _ _ mint_route-IsAttributed (
              branch (is_path (codes "/api/vault/tokens/consume") req.url) _ _
                consume_route-IsAttributed
                (branch (is_path (codes "/api/vault/proxy") req.url) _ _ proxy_route-IsAttributed
                  unchanged)))))
        (branch (text_eq req.method (codes "GET") && is_path (codes "/api/vault/audit") req.url) _ _
          audit_route-IsAttributed unchanged)

-- Every request to the vault is refused with 401 and changes nothing; or answered with 500 and
-- changes nothing, where it names a key that the vault's keys have only from their prototype; or it
-- carries a valid signature of a key, and then the audit rows that it adds all name that key as their
-- actor, behind the rows that were there, which stay as they were.
pub vault_router-IsAttributed :
    (cfg : VaultConfig) (fresh : Entropy) (now : ℕ) (req : VaultRequest) (s : Db)
    → ((e : ServiceAuthError) × (vault_router cfg fresh now req s ≡ (refused 401 e, s)))
      ⊎ (((vault_router cfg fresh now req s
              ≡ (errored (record { status = 500; code = "internal_error"; details = none }), s))
            × HasInheritedKey (
                verify_input cfg.auth req.authorization req.method req.url req.raw_body
                  (now / 1000)))
          ⊎ ((key : Text) × IsSigned cfg.mac
                (verify_input cfg.auth req.authorization req.method req.url req.raw_body
                  (now / 1000))
                key
              × IsAttributed
                  (string_of key)
                  s.access_log
                  (vault_router cfg fresh now req s).1.access_log))
unfolding vault_router error_middleware
vault_router-IsAttributed cfg fresh now req s =
    elim (require_signed_request-IsSigned cfg.mac cfg.auth req.authorization req.method req.url
      req.raw_body (now / 1000)) [
        | inr (inl (e, x, listed)) ↦ inl (e, rw (x, vault_router) refl)
        | inr (inr (x, strange)) ↦ inr (inl (rw (x, vault_router) refl, strange))
        | inl (key, x, signed) ↦ inr (
            inr (
              key,
              signed,
              rw (x, vault_router)
                  (rw (state-respond (dispatch cfg fresh now req key s))
                    (dispatch-IsAttributed cfg fresh now req key s)),
            ))
      ]
