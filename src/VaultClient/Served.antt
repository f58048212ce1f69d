-- ===== src/VaultClient/Served.antt =====
-- A client's request, served by the vault's router: the call of the vault's operation that was
-- meant, in the name of the client's key.
pub mod Bodies
pub mod Tokens
use karta_cards_vera.Common.{
  ◌≡◌, refl, ◌∙◌, String, Text, codes, Option, none, some, true, false, ◌==◌, ◌++◌, is_empty,
  if◌then◌else◌,
}
use karta_cards_vera.Core.Exec.{◌>>=◌}
use karta_cards_vera.Core.Encryption.{Bytes}
use karta_cards_vera.Core.Http.{HttpRequest, drop_slash}
use karta_cards_vera.Core.Zod.{
  Json, obj, end, Fields, field, opt_json, str, field_of, field_of-other, field_of-here, text_field,
  text_field-ok, z_optional-opt_json, within,
}
use karta_cards_vera.Vault.Schemas.{caller_fields}
use karta_cards_vera.Vault.Routes.{VaultRequest}
use karta_cards_vera.VaultClient.{opt_string, caller_json}

-- The way from the client to the vault: the path of a URL, and the value that a body parses to.
pub record Wire : Type 0 where
  pub stringify : Json → Bytes
  pub parse : Bytes → Json
  pub path_of : Text → Text
  pub ip : Option String
  pub user_agent : Option String

-- A path and a body survive, and the body is not sent empty.
pub record Carries (w : Wire) (base_url path : Text) (j : Json) : Type 0 where
  pub path_kept : w.path_of (drop_slash base_url ++ path) ≡ path
  pub body_kept : w.parse (w.stringify j) ≡ j
  pub body_some : is_empty (w.stringify j) ≡ false

abbrev pub parsed_body : Wire → Option Bytes → Json
parsed_body w none = obj end
parsed_body w (some b) = w.parse b

abbrev pub received : Wire → HttpRequest → VaultRequest
received w r = record {
  authorization = some r.authorization;
  method = r.method;
  url = w.path_of r.url;
  raw_body = r.body;
  body = parsed_body w r.body;
  limit = none;
  offset = none;
  ip = w.ip;
  user_agent = w.user_agent;
}

field_of-opt_other :
    (k j : String) (o : Option String) (rest : Fields)
    → (j == k) ≡ false
    → field_of k (opt_string j o rest) ≡ field_of k rest
field_of-opt_other k j none rest h = refl
field_of-opt_other k j (some s) rest h = field_of-other k j (str (codes s)) rest h

field_of-opt_here :
    (k : String) (o : Option String) (rest : Fields)
    → field_of k rest ≡ none
    → field_of k (opt_string k o rest) ≡ opt_json o
field_of-opt_here k none rest h = h
field_of-opt_here k (some s) rest h = field_of-here k (str (codes s)) rest h

-- A field that is none of a caller's changes nothing for the caller.
pub caller_fields-field :
    (j : String) (v : Json) (rest : Fields)
    → (j == "purpose") ≡ false
    → (j == "transactionId") ≡ false
    → (j == "ip") ≡ false
    → (j == "ua") ≡ false
    → caller_fields (field j v rest) ≡ caller_fields rest
unfolding caller_fields
caller_fields-field j v rest p a b c =
    rw
      (
        field_of-other "purpose" j v rest p,
        field_of-other "transactionId" j v rest a,
        field_of-other "ip" j v rest b,
        field_of-other "ua" j v rest c,
        caller_fields,
      )
      refl

-- The fields of a caller, read back one by one, and a field that is none of them.
module _ (purpose : String) (txn ip ua : Option String) where
  abbrev from_ua : Fields
  from_ua = opt_string "ua" ua end

  abbrev from_ip : Fields
  from_ip = opt_string "ip" ip from_ua

  abbrev from_txn : Fields
  from_txn = opt_string "transactionId" txn from_ip

  abbrev word : Json
  word = str (codes purpose)

  abbrev fields : Fields
  fields = caller_json purpose txn ip ua

  absent_from :
      (k : String)
      → ("transactionId" == k) ≡ false
      → ("ip" == k) ≡ false
      → ("ua" == k) ≡ false
      → field_of k from_txn ≡ none
  absent_from k a b c =
      field_of-opt_other k "transactionId" txn from_ip a
      ∙ (field_of-opt_other k "ip" ip from_ua b ∙ field_of-opt_other k "ua" ua end c)

  pub other_field :
      (k : String)
      → ("purpose" == k) ≡ false
      → ("transactionId" == k) ≡ false
      → ("ip" == k) ≡ false
      → ("ua" == k) ≡ false
      → field_of k fields ≡ none
  other_field k p a b c = field_of-other k "purpose" word from_txn p ∙ absent_from k a b c

  pub caller_fields-json :
      within 1 256 (codes purpose) ≡ true
      → caller_fields fields
        ≡ some (record { purpose = purpose; transaction_id = txn; ip = ip; ua = ua })
  unfolding caller_fields
  caller_fields-json h =
      let f1 : field_of "purpose" fields ≡ some word =
        field_of-here "purpose" word from_txn (absent_from "purpose" refl refl refl) in
      let f2 : field_of "transactionId" fields ≡ opt_json txn =
        field_of-other "transactionId" "purpose" word from_txn refl
        ∙ field_of-opt_here "transactionId" txn from_ip (
            field_of-opt_other "transactionId" "ip" ip from_ua refl
            ∙ field_of-opt_other "transactionId" "ua" ua end refl) in
      let f3 : field_of "ip" fields ≡ opt_json ip =
        field_of-other "ip" "purpose" word from_txn refl
        ∙ (field_of-opt_other "ip" "transactionId" txn from_ip refl
            ∙ field_of-opt_here "ip" ip from_ua (field_of-opt_other "ip" "ua" ua end refl)) in
      let f4 : field_of "ua" fields ≡ opt_json ua =
        field_of-other "ua" "purpose" word from_txn refl
        ∙ (field_of-opt_other "ua" "transactionId" txn from_ip refl
            ∙ (field_of-opt_other "ua" "ip" ip from_ua refl
                ∙ field_of-opt_here "ua" ua end refl)) in
      rw
        (
          f1,
          f2,
          f3,
          f4,
          text_field-ok (within 1 256) purpose h,
          z_optional-opt_json txn,
          z_optional-opt_json ip,
          z_optional-opt_json ua,
          caller_fields,
        )
        refl
