-- ===== src/Pay/Routes.antt =====
-- services/pay/src/routes: transactions.routes.ts, payment.routes.ts and
-- auth.routes.ts, behind the gates of the service's index.ts, with `getTransactionCardSummary`. The
-- rendering of a QR code is a parameter.
pub mod Admitted
use karta_cards_vera.Common.{
  ℕ, String, ◌==◌, Text, codes, Option, none, some, List, ◌++◌, map, if◌then◌else◌,
}
use karta_cards_vera.Core.Error.{api, not_found}
use karta_cards_vera.Core.Exec.{Outcome, ok, throw, Exec, pure, lift, gets, ◌>>=◌, ◌>>◌}
use karta_cards_vera.Core.Zod.{Json, validate_body}
use karta_cards_vera.Programs.TierRules.{CredentialKind}
use karta_cards_vera.Pay.Realtime.{SseEventType, created_data, Subscription, subscribe}
use karta_cards_vera.Pay.Db.{Call, PayDb, find_by_rlid}
use karta_cards_vera.Pay.Transactions.{
  CardState, CreateTxnInput, FreshTxn, create_transaction, get_transaction_by_rlid,
  list_transactions,
}
use karta_cards_vera.Pay.Serialize.{
  TransactionDto, TransactionListDto, to_transaction_dto, to_transaction_list_dto,
}
use karta_cards_vera.Pay.Arqc.{Kdf}
use karta_cards_vera.Pay.Orchestration.{Services, OrchestratePostAuthResult, publish}
use karta_cards_vera.Pay.Authentication.{
  WebAuthnCredential, AuthenticationResponse, Ceremony, authenticate_options, authenticate_verify,
}
use karta_cards_vera.Pay.Registration.{
  Registrar, RegistrationResponse, Challenges, begin_registration, finish_registration,
}
use karta_cards_vera.Pay.Schemas.{
  create_schema, begin_reg_schema, finish_reg_schema, begin_auth_schema, finish_auth_schema,
}
use karta_cards_vera.Pay.AdminKey.{AdminGate, passes, require_admin_key}

pub record TransactionCardSummary : Type 0 where
  pub id : String
  pub pan_last4 : Option Text
  pub credentials : List CredentialKind

pub data PayAnswer : Type 0 where
  unauthorized : AdminGate → PayAnswer
  created found : TransactionDto → PayAnswer
  listed : List TransactionListDto → PayAnswer
  summary : TransactionCardSummary → PayAnswer
  qr : Text → Text → ℕ → PayAnswer
  streaming : Subscription → PayAnswer

-- A handler behind the gate: a request without the key is answered there.
unfoldable pub behind_gate :
    {S A : Type 0} → (AdminGate → A) → Text → Option Text → Exec S A → Exec S A
behind_gate answer expected_key header m = elim (require_admin_key expected_key header) [
  | passes ↦ m
  | code ↦ pure (answer code)
]

-- What `POST /` does with a valid body.
unfoldable pub create_and_publish :
    (String → List Call → Outcome CardState)
    → ℕ
    → ℕ
    → FreshTxn
    → CreateTxnInput
    → Exec PayDb PayAnswer
create_and_publish palisade ttl now f input = do
  txn ← create_transaction palisade ttl now f input
  publish now txn.rlid SseEventType.transaction_created (
      created_data txn.amount txn.currency txn.tier txn.allowed_credential_kinds txn.merchant_name
        txn.expires_at)
  pure (created (to_transaction_dto txn))

-- `POST /`
unfoldable pub create_route :
    (String → List Call → Outcome CardState)
    → ℕ
    → ℕ
    → FreshTxn
    → Text
    → Option Text
    → Json
    → Exec PayDb PayAnswer
create_route palisade ttl now f expected_key header body =
    behind_gate unauthorized expected_key header
      (lift (validate_body create_schema body) >>= create_and_publish palisade ttl now f)

-- `GET /`
unfoldable pub list_route : Text → Option Text → Exec PayDb PayAnswer
list_route expected_key header =
    behind_gate unauthorized expected_key header
      (gets (λ s. listed (map to_transaction_list_dto (list_transactions 100 s))))

-- `GET /:rlid`
unfoldable pub get_route : ℕ → String → Exec PayDb PayAnswer
get_route now rlid = do
  txn ← get_transaction_by_rlid now rlid
  pure (found (to_transaction_dto txn))

-- `getTransactionCardSummary`, which neither expires nor changes the transaction.
unfoldable pub get_transaction_card_summary :
    (String → Outcome (List WebAuthnCredential)) → String → Exec PayDb TransactionCardSummary
get_transaction_card_summary list_credentials rlid s = elim (find_by_rlid rlid s.transactions) [
  | none ↦ (throw (api (not_found "transaction_not_found")), s)
  | some txn ↦ elim (list_credentials txn.card_id) [
    | throw e ↦ (throw e, s)
    | ok creds ↦ (
      ok (record {
        id = txn.card_id;
        pan_last4 = txn.pan_last4;
        credentials = map (λ (c : WebAuthnCredential). c.kind) creds;
      }),
      s,
    )
  ]
]

-- `GET /:rlid/card`
unfoldable pub card_route :
    (String → Outcome (List WebAuthnCredential)) → String → Exec PayDb PayAnswer
card_route list_credentials rlid = do
  card ← get_transaction_card_summary list_credentials rlid
  pure (summary card)

abbrev pub pay_origin : String → Text
pay_origin node_env =
    if node_env == "development"
    then codes "http://localhost:5175"
    else codes "https://pay.karta.cards"

-- `POST /:rlid/qr`
unfoldable pub qr_route : (Text → Outcome Text) → String → ℕ → String → Exec PayDb PayAnswer
qr_route to_data_url node_env now rlid = do
  txn ← get_transaction_by_rlid now rlid
  let url : Text = pay_origin node_env ++ (codes "/pay/" ++ codes txn.rlid)
  image ← lift (to_data_url url)
  pure (qr url image txn.expires_at)

-- `GET /status/:rlid`: the response joins the stream of the transaction.
unfoldable pub status_route : ℕ → String → ℕ → Exec PayDb PayAnswer
status_route now rlid res = do
  txn ← get_transaction_by_rlid now rlid
  λ s. let (sub, bus) = subscribe txn.rlid res s.bus in (ok (streaming sub), record s { bus = bus })

-- The id and the device name that the card service gives to a credential are left out.
pub data RegisterAnswer : Type 0 where
  barred : AdminGate → RegisterAnswer
  options : String → RegisterAnswer
  registered : WebAuthnCredential → RegisterAnswer

-- `POST /options` of the registration.
unfoldable pub register_options :
    ℕ → Registrar → Text → Option Text → Json → Exec Challenges RegisterAnswer
register_options now w expected_key header body = behind_gate barred expected_key header do
  b ← lift (validate_body begin_reg_schema body)
  challenge ← begin_registration now w b.card_id b.kind
  pure (options challenge)

-- `POST /verify` of the registration.
unfoldable pub register_verify :
    ℕ
    → Registrar
    → Text
    → Option Text
    → Json
    → RegistrationResponse
    → Exec Challenges RegisterAnswer
register_verify now w expected_key header body response = behind_gate barred expected_key header do
  b ← lift (validate_body finish_reg_schema body)
  cred ← finish_registration now w b.card_id response b.device_name
  pure (registered cred)

-- `POST /options` of the authentication.
unfoldable pub authenticate_options_route :
    ℕ → Ceremony → Json → Exec PayDb (List WebAuthnCredential)
authenticate_options_route now w body = do
  b ← lift (validate_body begin_auth_schema body)
  authenticate_options now w b.rlid b.kinds

-- `POST /verify` of the authentication, with the address and the agent of the request.
unfoldable pub authenticate_verify_route :
    ℕ
    → Kdf
    → Services
    → Ceremony
    → Option String
    → Option String
    → Json
    → AuthenticationResponse
    → Exec PayDb OrchestratePostAuthResult
authenticate_verify_route now k v w ip ua body response = do
  rlid ← lift (validate_body finish_auth_schema body)
  authenticate_verify now k v w rlid response ip ua
