-- ===== src/Pay/Schemas.antt =====
-- The zod schemas of services/pay/src/routes/transactions.routes.ts and auth.routes.ts.
use karta_cards_vera.Common.{
  List, [], ◌∷◌, String, Text, codes, ℤ, Option, none, some, is_nonpositive, text_eq, leb, length,
  if◌then◌else◌,
}
use karta_cards_vera.Core.Zod.{
  Json, Items, nil, cons, num, str, arr, field_of, ◌>>=◌, z_object, z_optional, text_field,
  min_length, within,
}
use karta_cards_vera.Programs.TierRules.{CredentialKind, platform, cross_platform}
use karta_cards_vera.Programs.Currency.{currency_schema}
use karta_cards_vera.Pay.Transactions.{CreateTxnInput}

-- `z.number().int().positive()`
unfoldable pub z_positive : Option Json → Option ℤ
z_positive (some (num n)) = if is_nonpositive n then none else some n
z_positive _ = none

-- `currencySchema.default('AUD')`
unfoldable pub z_currency : Option Json → Option Text
z_currency none = some (codes "AUD")
z_currency (some (str t)) = currency_schema t
z_currency _ = none

unfoldable pub create_schema : Json → Option CreateTxnInput
create_schema = z_object λ f. do
  card_id ← text_field (min_length 1) (field_of "cardId" f)
  amount ← z_positive (field_of "amount" f)
  currency ← z_currency (field_of "currency" f)
  merchant_ref ← text_field (within 1 128) (field_of "merchantRef" f)
  merchant_name ← z_optional (text_field (within 1 128)) (field_of "merchantName" f)
  some (record {
    card_id = card_id;
    amount = amount;
    currency = currency;
    merchant_ref = merchant_ref;
    merchant_name = merchant_name;
  })

-- `z.nativeEnum(CredentialKind)`
unfoldable pub z_kind : Option Json → Option CredentialKind
z_kind (some (str t)) =
    if text_eq t (codes "PLATFORM")
    then some platform
    else if text_eq t (codes "CROSS_PLATFORM")
    then some cross_platform
    else none
z_kind _ = none

pub record BeginRegBody : Type 0 where
  pub card_id : String
  pub kind : CredentialKind

unfoldable pub begin_reg_schema : Json → Option BeginRegBody
begin_reg_schema = z_object λ f. do
  card_id ← text_field (min_length 1) (field_of "cardId" f)
  kind ← z_kind (field_of "kind" f)
  some (record { card_id = card_id; kind = kind })

-- The `response` is unknown to the schema.
pub record FinishRegBody : Type 0 where
  pub card_id : String
  pub device_name : Option String

unfoldable pub finish_reg_schema : Json → Option FinishRegBody
finish_reg_schema = z_object λ f. do
  card_id ← text_field (min_length 1) (field_of "cardId" f)
  device_name ← z_optional (text_field (λ t. leb (length t) 128)) (field_of "deviceName" f)
  some (record { card_id = card_id; device_name = device_name })

-- `z.array(z.nativeEnum(CredentialKind))`
abbrev pub kinds_of : Items → Option (List CredentialKind)
kinds_of nil = some []
kinds_of (cons v rest) = elim (z_kind (some v)) [
  | none ↦ none
  | some kind ↦ elim (kinds_of rest) [ none ↦ none | some kinds ↦ some (kind ∷ kinds) ]
]

unfoldable pub z_kinds : Option Json → Option (List CredentialKind)
z_kinds (some (arr items)) = kinds_of items
z_kinds _ = none

pub record BeginAuthBody : Type 0 where
  pub rlid : String
  pub kinds : Option (List CredentialKind)

unfoldable pub begin_auth_schema : Json → Option BeginAuthBody
begin_auth_schema = z_object λ f. do
  rlid ← text_field (min_length 1) (field_of "rlid" f)
  kinds ← z_optional z_kinds (field_of "kinds" f)
  some (record { rlid = rlid; kinds = kinds })

-- The `response` is unknown to the schema: the answer is the `rlid`.
unfoldable pub finish_auth_schema : Json → Option String
finish_auth_schema = z_object λ f. text_field (min_length 1) (field_of "rlid" f)
