-- ===== src/Admin/VaultProxy.antt =====
-- services/admin/src/routes/vault-proxy.routes.ts: the browser's calls of the vault, signed with the
-- admin service's key. `parse` is JSON.parse at the type of an answer.
pub mod Mirrors
use karta_cards_vera.Common.{ℕ, Text, codes, Option, none, some, if◌then◌else◌}
use karta_cards_vera.Core.Error.{api, zod}
use karta_cards_vera.Core.Exec.{Outcome, ok, throw}
use karta_cards_vera.Core.Encryption.{Bytes}
use karta_cards_vera.Core.Http.{Http}
use karta_cards_vera.Core.Zod.{
  Json, field_of, ◌>>=◌, ◌>>◌, z_object, z_optional, text_field, min_length, validate_body,
}
use karta_cards_vera.ServiceAuth.{Mac}
use karta_cards_vera.Vault.Schemas.{card_fields, z_on_duplicate}
use karta_cards_vera.Vault.Routes.{limit_of, offset_of}
use karta_cards_vera.VaultClient.{
  VaultClientOptions, StoreCardInput, ListAuditInput, vault_error, transport, Reply, got, failed,
  store_card, list_audit, send,
}

-- `callVault`: the vault's status and code become those of an `ApiError`.
unfoldable pub call_vault : {A : Type 0} → Reply A → Outcome A
call_vault (got a) = ok a
call_vault (failed (vault_error e)) =
    throw (api (record { status = e.status; code = e.code; details = none }))
call_vault (failed (transport e)) = throw e

-- The body as the input of the client's `storeCard`. Its checks on a card are those of the vault's
-- own route.
unfoldable pub store_schema : Json → Option StoreCardInput
store_schema = z_object λ f. do
  card_id ← text_field (min_length 1) (field_of "cardId" f)
  card ← card_fields f
  on_duplicate ← z_optional z_on_duplicate (field_of "onDuplicate" f)
  some (record {
    pan = card.pan;
    cvc = card.cvc;
    expiry_month = card.expiry_month;
    expiry_year = card.expiry_year;
    cardholder_name = card.cardholder_name;
    purpose = "admin_vault_ui";
    card_id = some card_id;
    on_duplicate = on_duplicate;
    ip = none;
    ua = none;
  })

-- The query of `GET /audit`.
unfoldable pub audit_query : Option Json → Option Json → Option ListAuditInput
audit_query limit offset = do
  l ← limit_of limit
  o ← offset_of offset
  some (record { limit = some l; offset = some o })

module _ {A : Type 0} (m : Mac) (h : Http) (stringify : Json → Bytes) (parse : Text → Option A)
    (vault_url secret : Text) (now : ℕ) where
  abbrev pub admin_auth : VaultClientOptions
  admin_auth = record { key_id = codes "admin"; secret = secret }

  abbrev pub store_answer : StoreCardInput → Reply A
  store_answer i = send h parse (store_card m stringify vault_url admin_auth now i)

  -- `POST /store`
  unfoldable pub store_route : Json → Outcome A
  store_route body = elim (validate_body store_schema body) [
    | throw e ↦ throw e
    | ok input ↦ call_vault (store_answer input)
  ]

  -- `GET /audit`
  unfoldable pub audit_route : Option Json → Option Json → Outcome A
  audit_route limit offset = elim (audit_query limit offset) [
    | none ↦ throw zod
    | some input ↦ call_vault (send h parse (list_audit m stringify vault_url admin_auth now input))
  ]
