-- ===== src/Pay/Authentication.antt =====
-- services/pay/src/routes/auth.routes.ts and webauthn/webauthn.service.ts: the authentication of a
-- payment. Palisade's credential store and the WebAuthn library are parameters.
pub mod Verified
use karta_cards_vera.Common.{
  ℕ, String, Option, none, some, not, List, keep, is_empty_list, if◌then◌else◌,
}
use karta_cards_vera.Core.Error.{api, bad_request, not_found, unauthorized}
use karta_cards_vera.Core.Exec.{Outcome, ok, throw, Exec, ensure, lift, ◌>>=◌, ◌>>◌}
use karta_cards_vera.Programs.TierRules.{CredentialKind}
use karta_cards_vera.Pay.Tier.{includes}
use karta_cards_vera.Pay.Db.{Transaction, PayDb}
use karta_cards_vera.Pay.Transactions.{get_transaction_for_auth}
use karta_cards_vera.Pay.Arqc.{Kdf}
use karta_cards_vera.Pay.Orchestration.{Services, OrchestratePostAuthResult, orchestrate_post_auth}

-- Palisade's credential, as far as an authentication reads it.
pub record WebAuthnCredential : Type 0 where
  pub credential_id : String
  pub public_key : String
  pub counter : ℕ
  pub kind : CredentialKind
  pub card_id : String

-- The browser's response: the id of its credential, and the signed rest.
pub record AuthenticationResponse : Type 0 where
  pub id : String
  pub payload : String

-- What the library is given of a credential.
pub record VerifyCredential : Type 0 where
  pub credential_id : String
  pub public_key : String
  pub counter : ℕ

-- The answers from outside: the credential of an id, the credentials of a card, the new counter of
-- a response that verifies against a challenge, and the update of a counter.
pub record Ceremony : Type 0 where
  pub find_credential : String → Outcome (Option WebAuthnCredential)
  pub list_credentials : String → Outcome (List WebAuthnCredential)
  pub verify : AuthenticationResponse → String → VerifyCredential → Outcome (Option ℕ)
  pub update_counter : String → ℕ → Outcome (Unit {0})

pub record FinishAuthenticationResult : Type 0 where
  pub credential_id : String
  pub card_id : String
  pub kind : CredentialKind
  pub new_counter : ℕ

abbrev pub verify_credential : WebAuthnCredential → VerifyCredential
verify_credential c = record {
  credential_id = c.credential_id;
  public_key = c.public_key;
  counter = c.counter;
}

module _ (w : Ceremony) (response : AuthenticationResponse) (challenge : String)
    (allowed : List CredentialKind) where
  -- The response verified: the counter is updated.
  unfoldable pub accept_response : WebAuthnCredential → ℕ → Outcome FinishAuthenticationResult
  accept_response c counter = elim (w.update_counter c.credential_id counter) [
    | throw e ↦ throw e
    | ok _ ↦ ok (record {
      credential_id = c.credential_id;
      card_id = c.card_id;
      kind = c.kind;
      new_counter = counter;
    })
  ]

  unfoldable pub check_response : WebAuthnCredential → Outcome FinishAuthenticationResult
  check_response c =
      if includes c.kind allowed
      then elim (w.verify response challenge (verify_credential c)) [
        | throw e ↦ throw e
        | ok none ↦ throw (api (unauthorized "auth_verify_failed"))
        | ok (some counter) ↦ accept_response c counter
      ]
      else throw (api (unauthorized "credential_kind_not_allowed"))

  unfoldable pub finish_authentication : Outcome FinishAuthenticationResult
  finish_authentication = elim (w.find_credential response.id) [
    | throw e ↦ throw e
    | ok none ↦ throw (api (not_found "credential_not_found"))
    | ok (some c) ↦ check_response c
  ]

-- `POST /verify`
unfoldable pub authenticate_verify :
    ℕ
    → Kdf
    → Services
    → Ceremony
    → String
    → AuthenticationResponse
    → Option String
    → Option String
    → Exec PayDb OrchestratePostAuthResult
authenticate_verify now k v w rlid response ip ua = do
  txn ← get_transaction_for_auth now rlid
  auth ← lift (finish_authentication w response txn.challenge_nonce txn.allowed_credential_kinds)
  orchestrate_post_auth now k v (record {
    transaction_id = txn.id;
    used_credential_id = auth.credential_id;
    ip = ip;
    ua = ua;
  })

-- The credentials of a card that may be offered: those of the kinds asked for.
unfoldable pub begin_authentication :
    Ceremony → String → List CredentialKind → Outcome (List WebAuthnCredential)
begin_authentication w card_id kinds = elim (w.list_credentials card_id) [
  | throw e ↦ throw e
  | ok every ↦
      let creds = keep (λ c. includes c.kind kinds) every in
      if is_empty_list creds then throw (api (not_found "no_credentials")) else ok creds
]

abbrev pub effective_kinds : Option (List CredentialKind) → Transaction → List CredentialKind
effective_kinds none txn = txn.allowed_credential_kinds
effective_kinds (some requested) txn = keep (λ k. includes k requested) txn.allowed_credential_kinds

-- `POST /options`, up to the library's rendering of the options.
unfoldable pub authenticate_options :
    ℕ → Ceremony → String → Option (List CredentialKind) → Exec PayDb (List WebAuthnCredential)
authenticate_options now w rlid requested = do
  txn ← get_transaction_for_auth now rlid
  ensure (not (is_empty_list (effective_kinds requested txn))) (bad_request "no_allowed_kinds")
  lift (begin_authentication w txn.card_id (effective_kinds requested txn))
