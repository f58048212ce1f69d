-- ===== src/Pay/AuthenticationTests.antt =====
-- Witnesses for the theorems about the authentication of a payment: a credential of another card.
use karta_cards_vera.Common.{◌≡◌, refl, codes, [], ◌∷◌, some, none, ◌==◌, if◌then◌else◌}
use karta_cards_vera.Core.Exec.{ok}
use karta_cards_vera.Programs.TierRules.{platform}
use karta_cards_vera.Pay.StateMachine.{TransactionStatus, assert_transition}
use karta_cards_vera.Pay.Db.{Transaction, find_transaction, find_by_rlid, patch_rows}
use karta_cards_vera.Pay.Transactions.{
  get_transaction_for_auth, get_transaction_by_rlid, update_status,
}
use karta_cards_vera.Pay.Arqc.{
  generate_arqc, validate_arqc, derive_k_card, build_message, write_uint32, write_uint64, to_hex,
}
use karta_cards_vera.Pay.Orchestration.{
  OrchestratePostAuthResult, orchestrate_post_auth, post_auth, settle, authn_step, pay, arqc_step,
  tokenise_step, charge_step, complete_step,
}
use karta_cards_vera.Pay.Orchestration as Orchestration
use karta_cards_vera.Pay.Authentication.{
  WebAuthnCredential, AuthenticationResponse, Ceremony, FinishAuthenticationResult,
  finish_authentication, check_response, accept_response, authenticate_verify,
}
use karta_cards_vera.Pay.Authentication.Verified.{
  IsVouched, authenticate_verify-IsVouched, moved, authenticate_verify-moved,
}
use karta_cards_vera.Pay.PaymentTests.{kdf, good, one_txn}

abbrev credential : WebAuthnCredential
credential = record {
  credential_id = "cred_1";
  public_key = "pk";
  counter = 4;
  kind = platform;
  card_id = "card_1";
}

abbrev ceremony : Ceremony
ceremony = record {
  find_credential = λ id. if id == "cred_1" then ok (some credential) else ok none;
  list_credentials = λ card. ok (credential ∷ []);
  verify = λ response challenge c. if challenge == "n1" then ok (some 5) else ok none;
  update_counter = λ id counter. ok tt;
}

abbrev response : AuthenticationResponse
response = record { id = "cred_1"; payload = "" }

abbrev charged : OrchestratePostAuthResult
charged = record {
  rlid = "r1";
  status = TransactionStatus.completed;
  provider_name = some "mock";
  provider_txn_id = some "ch_1";
  last4 = some (codes "4242");
}

verify_run :
    (authenticate_verify 2000 kdf good ceremony "r1" response none none one_txn).0 ≡ ok charged
unfolding authenticate_verify get_transaction_for_auth get_transaction_by_rlid find_by_rlid
    finish_authentication check_response accept_response orchestrate_post_auth post_auth settle
    authn_step pay arqc_step tokenise_step charge_step complete_step Orchestration.publish
    update_status assert_transition find_transaction patch_rows generate_arqc validate_arqc
    derive_k_card build_message write_uint32 write_uint64 to_hex
verify_run = refl

authenticate_verify-IsVouched_example :
    (txn : Transaction) × (auth : FinishAuthenticationResult) × ((get_transaction_for_auth 2000 "r1"
        one_txn).0
      ≡ ok txn)
    × IsVouched ceremony response txn.challenge_nonce txn.allowed_credential_kinds auth
    × ((orchestrate_post_auth 2000 kdf good
          (record {
            transaction_id = txn.id;
            used_credential_id = auth.credential_id;
            ip = none;
            ua = none;
          })
          (get_transaction_for_auth 2000 "r1" one_txn).1).0
        ≡ ok charged)
authenticate_verify-IsVouched_example =
    authenticate_verify-IsVouched 2000 kdf good ceremony "r1" response none none charged one_txn
      verify_run

authenticate_verify-moved_example :
    authenticate_verify 2000 kdf good (moved "card_2" ceremony) "r1" response none none one_txn
    ≡ authenticate_verify 2000 kdf good ceremony "r1" response none none one_txn
authenticate_verify-moved_example =
    authenticate_verify-moved 2000 kdf good ceremony "r1" response none none "card_2" one_txn
