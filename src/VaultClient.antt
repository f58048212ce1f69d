-- ===== src/VaultClient.antt =====
-- packages/vault-client/src/index.ts: the signed HTTP client of the vault. Undici, JSON.stringify and
-- JSON.parse are parameters.
pub mod Served
pub mod Tests
use karta_cards_vera.Common.{
  ℕ, String, concat, Text, codes, ℤ, pos, Option, none, some, not, List, [], ◌∷◌, ◌++◌, leb,
  or_else, is_empty, if◌then◌else◌,
}
use karta_cards_vera.Core.Error.{Thrown, other}
use karta_cards_vera.Core.Exec.{ok, throw}
use karta_cards_vera.Core.Encryption.{Bytes}
use karta_cards_vera.Core.Http.{
  HttpRequest, HttpResponse, Http, ClientError, drop_slash, status_string,
}
use karta_cards_vera.Core.Zod.{Json, num, str, obj, Fields, end, field}
use karta_cards_vera.ServiceAuth.{Mac, sign_request, show_int}
use karta_cards_vera.Vault.Store.{OnDuplicate, error, reuse}

pub record VaultClientOptions : Type 0 where
  pub key_id : Text
  pub secret : Text

-- An absent property is no property of the JSON object.
abbrev pub opt_field : String → Option Text → Fields → Fields
opt_field k none rest = rest
opt_field k (some t) rest = field k (str t) rest

abbrev pub opt_string : String → Option String → Fields → Fields
opt_string k none rest = rest
opt_string k (some t) rest = field k (str (codes t)) rest

pub record StoreCardInput : Type 0 where
  pub pan : Text
  pub cvc : Option Text
  pub expiry_month : Text
  pub expiry_year : Text
  pub cardholder_name : String
  pub purpose : String
  pub card_id : Option String
  pub on_duplicate : Option OnDuplicate
  pub ip : Option String
  pub ua : Option String

abbrev pub show_on_duplicate : OnDuplicate → String
show_on_duplicate error = "error"
show_on_duplicate reuse = "reuse"

abbrev pub on_duplicate_text : Option OnDuplicate → Option String
on_duplicate_text none = none
on_duplicate_text (some d) = some (show_on_duplicate d)

abbrev pub store_json : StoreCardInput → Json
store_json i = obj (
    field "pan" (str i.pan) (
      opt_field "cvc" i.cvc (
        field "expiryMonth" (str i.expiry_month) (
          field "expiryYear" (str i.expiry_year) (
            field "cardholderName" (str (codes i.cardholder_name)) (
              field "purpose" (str (codes i.purpose)) (
                opt_string "cardId" i.card_id (
                  opt_string "onDuplicate" (on_duplicate_text i.on_duplicate)
                    (opt_string "ip" i.ip (opt_string "ua" i.ua end))))))))))

pub record MintTokenInput : Type 0 where
  pub vault_entry_id : String
  pub amount : ℤ
  pub currency : String
  pub purpose : String
  pub transaction_id : Option String
  pub ip : Option String
  pub ua : Option String

abbrev pub caller_json : String → Option String → Option String → Option String → Fields
caller_json purpose transaction_id ip ua =
    field "purpose" (str (codes purpose))
      (opt_string "transactionId" transaction_id (opt_string "ip" ip (opt_string "ua" ua end)))

abbrev pub mint_json : MintTokenInput → Json
mint_json i = obj (
    field "vaultEntryId" (str (codes i.vault_entry_id)) (
      field "amount" (num i.amount) (
        field "currency" (str (codes i.currency))
          (caller_json i.purpose i.transaction_id i.ip i.ua))))

pub record ConsumeTokenInput : Type 0 where
  pub token : String
  pub expected_amount : ℤ
  pub expected_currency : String
  pub purpose : String
  pub transaction_id : Option String
  pub ip : Option String
  pub ua : Option String

abbrev pub consume_json : ConsumeTokenInput → Json
consume_json i = obj (
    field "token" (str (codes i.token)) (
      field "expectedAmount" (num i.expected_amount) (
        field "expectedCurrency" (str (codes i.expected_currency))
          (caller_json i.purpose i.transaction_id i.ip i.ua))))

pub record ProxyInput : Type 0 where
  pub retrieval_token : String
  pub destination : String
  pub method : Option Text
  pub headers : Option (List (String × Text))
  pub body : Option Text
  pub expected_amount : ℤ
  pub expected_currency : String
  pub purpose : String
  pub transaction_id : Option String
  pub ip : Option String
  pub ua : Option String

abbrev pub record_json : List (String × Text) → Fields
record_json [] = end
record_json ((k, v) ∷ rest) = field k (str v) (record_json rest)

abbrev pub opt_record : String → Option (List (String × Text)) → Fields → Fields
opt_record k none rest = rest
opt_record k (some h) rest = field k (obj (record_json h)) rest

abbrev pub proxy_json : ProxyInput → Json
proxy_json i = obj (
    field "retrievalToken" (str (codes i.retrieval_token)) (
      field "destination" (str (codes i.destination)) (
        opt_field "method" i.method (
          opt_record "headers" i.headers (
            opt_field "body" i.body (
              field "expectedAmount" (num i.expected_amount) (
                field "expectedCurrency" (str (codes i.expected_currency))
                  (caller_json i.purpose i.transaction_id i.ip i.ua))))))))

pub record ListAuditInput : Type 0 where
  pub limit : Option ℕ
  pub offset : Option ℕ

-- `params.toString()` after the question mark.
abbrev pub query_text : ListAuditInput → Text
query_text i = elim i.limit [
  | none ↦ elim i.offset [ none ↦ [] | some o ↦ codes "?offset=" ++ show_int (pos o) ]
  | some l ↦
      codes "?limit="
      ++ (show_int (pos l)
          ++ elim i.offset [ none ↦ [] | some o ↦ codes "&offset=" ++ show_int (pos o) ])
]

pub data ClientFailure : Type 0 where
  vault_error : ClientError → ClientFailure
  transport : Thrown → ClientFailure

pub data Reply (A : Type 0) : Type 0 where
  got : A → Reply A
  failed : ClientFailure → Reply A

module _ (m : Mac) (stringify : Json → Bytes) (base_url : Text) (auth : VaultClientOptions)
    (now : ℕ) where
  -- The request that `sendSigned` makes of a path, a method and the bytes of a body.
  unfoldable pub signed_http_request : Text → Text → Bytes → HttpRequest
  signed_http_request path method body = record {
    url = drop_slash base_url ++ path;
    method = method;
    authorization = sign_request m (record {
      method = method;
      path_and_query = path;
      body = body;
      key_id = auth.key_id;
      secret = auth.secret;
      now = now;
    });
    is_json = not (is_empty body);
    body = if is_empty body then none else some body;
  }

  abbrev pub vault_post : Text → Json → HttpRequest
  vault_post path body = signed_http_request path (codes "POST") (stringify body)

  abbrev pub vault_get : Text → HttpRequest
  vault_get path = signed_http_request path (codes "GET") []

  unfoldable pub store_card : StoreCardInput → HttpRequest
  store_card i = vault_post (codes "/api/vault/store") (store_json i)

  unfoldable pub mint_token : MintTokenInput → HttpRequest
  mint_token i = vault_post (codes "/api/vault/tokens/mint") (mint_json i)

  unfoldable pub consume_token : ConsumeTokenInput → HttpRequest
  consume_token i = vault_post (codes "/api/vault/tokens/consume") (consume_json i)

  unfoldable pub proxy : ProxyInput → HttpRequest
  proxy i = vault_post (codes "/api/vault/proxy") (proxy_json i)

  unfoldable pub list_audit : ListAuditInput → HttpRequest
  list_audit i = vault_get (codes "/api/vault/audit" ++ query_text i)

-- The answer to a request; a body that is not JSON throws out of `JSON.parse`.
unfoldable pub read_response : {A : Type 0} → Http → (Text → Option A) → HttpResponse → Reply A
read_response h parse r =
    if leb 400 r.status_code
    then failed (
        vault_error (record {
          status = r.status_code;
          code = or_else (h.error_code r.text) "vault_error";
          message =
              or_else (h.error_message r.text)
                (concat "Vault service returned " (status_string r.status_code));
        }))
    else elim (parse r.text) [ none ↦ failed (transport (other "SyntaxError")) | some a ↦ got a ]

unfoldable pub send : {A : Type 0} → Http → (Text → Option A) → HttpRequest → Reply A
send h parse request = elim (h.request request) [
  | throw e ↦ failed (transport e)
  | ok r ↦ read_response h parse r
]
