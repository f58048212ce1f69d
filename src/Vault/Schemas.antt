-- ===== src/Vault/Schemas.antt =====
-- The zod schemas of services/vault/src/routes: a body, parsed and checked.
use karta_cards_vera.Common.{
  ℕ, String, Text, codes, Option, none, some, Bool, ◌&&◌, List, [], ◌∷◌, all, is_digit, any,
  text_eq, is_some, string_of, if◌then◌else◌,
}
use karta_cards_vera.Core.Zod.{
  Json, str, Fields, end, field, field_of, ◌>>=◌, z_object, obj, z_string, any_text, min_length,
  within, z_optional, z_nonnegative, text_field,
}
use karta_cards_vera.Vault.Store.{is_month, OnDuplicate, error, reuse}
use karta_cards_vera.Vault.Proxy.{Network}

-- `/^[0-9]{2,4}$/`
abbrev pub is_year_text : Text → Bool
is_year_text t = within 2 4 t && all is_digit t

-- What the store and the register route share.
pub record CardBody : Type 0 where
  pub pan : Text
  pub cvc : Option Text
  pub expiry_month : Text
  pub expiry_year : Text
  pub cardholder_name : String

unfoldable pub card_fields : Fields → Option CardBody
card_fields f = do
  pan ← z_string (within 12 23) (field_of "pan" f)
  cvc ← z_optional (z_string any_text) (field_of "cvc" f)
  month ← z_string is_month (field_of "expiryMonth" f)
  year ← z_string is_year_text (field_of "expiryYear" f)
  name ← text_field (within 1 128) (field_of "cardholderName" f)
  some (record {
    pan = pan;
    cvc = cvc;
    expiry_month = month;
    expiry_year = year;
    cardholder_name = name;
  })

-- `z.enum(['error', 'reuse'])`
abbrev pub z_on_duplicate : Option Json → Option OnDuplicate
z_on_duplicate (some (str t)) =
    if text_eq t (codes "error")
    then some error
    else if text_eq t (codes "reuse")
    then some reuse
    else none
z_on_duplicate _ = none

pub record StoreBody : Type 0 where
  pub card : CardBody
  pub purpose : String
  pub on_duplicate : Option OnDuplicate

unfoldable pub store_schema : Json → Option StoreBody
store_schema = z_object λ f. do
  card ← card_fields f
  purpose ← text_field (within 1 256) (field_of "purpose" f)
  on_duplicate ← z_optional z_on_duplicate (field_of "onDuplicate" f)
  some (record { card = card; purpose = purpose; on_duplicate = on_duplicate })

pub record RegisterBody : Type 0 where
  pub card : CardBody
  pub idempotency_key : String

unfoldable pub register_schema : Json → Option RegisterBody
register_schema = z_object λ f. do
  card ← card_fields f
  key ← text_field (within 8 128) (field_of "idempotencyKey" f)
  some (record { card = card; idempotency_key = key })

abbrev pub optional_text : String → Fields → Option (Option String)
optional_text k f = z_optional (text_field any_text) (field_of k f)

-- What the token routes and the proxy share: the purpose and who asked.
pub record CallerBody : Type 0 where
  pub purpose : String
  pub transaction_id : Option String
  pub ip : Option String
  pub ua : Option String

unfoldable pub caller_fields : Fields → Option CallerBody
caller_fields f = do
  purpose ← text_field (within 1 256) (field_of "purpose" f)
  transaction_id ← optional_text "transactionId" f
  ip ← optional_text "ip" f
  ua ← optional_text "ua" f
  some (record { purpose = purpose; transaction_id = transaction_id; ip = ip; ua = ua })

pub record MintBody : Type 0 where
  pub vault_entry_id : String
  pub amount : ℕ
  pub currency : String
  pub caller : CallerBody

unfoldable pub mint_schema : Json → Option MintBody
mint_schema = z_object λ f. do
  id ← text_field (min_length 1) (field_of "vaultEntryId" f)
  amount ← z_nonnegative (field_of "amount" f)
  currency ← text_field (within 3 8) (field_of "currency" f)
  caller ← caller_fields f
  some (record { vault_entry_id = id; amount = amount; currency = currency; caller = caller })

pub record ConsumeBody : Type 0 where
  pub token : String
  pub expected_amount : ℕ
  pub expected_currency : String
  pub caller : CallerBody

unfoldable pub consume_schema : Json → Option ConsumeBody
consume_schema = z_object λ f. do
  token ← text_field (min_length 1) (field_of "token" f)
  amount ← z_nonnegative (field_of "expectedAmount" f)
  currency ← text_field (within 3 8) (field_of "expectedCurrency" f)
  caller ← caller_fields f
  some (record {
    token = token;
    expected_amount = amount;
    expected_currency = currency;
    caller = caller;
  })

-- `z.record(z.string())`
abbrev pub add_header :
    String → Option Text → Option (List (String × Text)) → Option (List (String × Text))
add_header k (some v) (some rest) = some ((k, v) ∷ rest)
add_header k _ _ = none

abbrev pub string_record : Fields → Option (List (String × Text))
string_record end = some []
string_record (field k v rest) = add_header k (z_string any_text (some v)) (string_record rest)

abbrev pub z_headers : Option Json → Option (List (String × Text))
z_headers (some (obj fields)) = string_record fields
z_headers _ = none

-- `z.enum(['GET', 'POST', 'PUT', 'PATCH', 'DELETE'])`
abbrev pub is_method : Text → Bool
is_method t =
    any (text_eq t) (codes "GET" ∷ codes "POST" ∷ codes "PUT" ∷ codes "PATCH" ∷ codes "DELETE" ∷ [])

pub record ProxyBody : Type 0 where
  pub retrieval_token : String
  pub destination : String
  pub method : Option Text
  pub headers : Option (List (String × Text))
  pub body : Option Text
  pub expected_amount : ℕ
  pub expected_currency : String
  pub caller : CallerBody

-- `z.string().url()` asks `new URL`.
unfoldable pub proxy_schema : Network → Json → Option ProxyBody
proxy_schema net = z_object λ f. do
  token ← text_field (min_length 16) (field_of "retrievalToken" f)
  destination ← text_field (λ t. is_some (net.parse_url (string_of t))) (field_of "destination" f)
  method ← z_optional (z_string is_method) (field_of "method" f)
  headers ← z_optional z_headers (field_of "headers" f)
  body ← z_optional (z_string any_text) (field_of "body" f)
  amount ← z_nonnegative (field_of "expectedAmount" f)
  currency ← text_field (within 3 8) (field_of "expectedCurrency" f)
  caller ← caller_fields f
  some (record {
    retrieval_token = token;
    destination = destination;
    method = method;
    headers = headers;
    body = body;
    expected_amount = amount;
    expected_currency = currency;
    caller = caller;
  })
