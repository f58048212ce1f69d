-- ===== src/Pay/Authentication/Verified.antt =====
-- What stands behind a payment that the verification route started, and what does not.
use karta_cards_vera.Common.{
  ℕ, ◌≡◌, refl, sym, ap, ◌∙◌, String, Option, none, some, true, List, arith, inl, inr,
}
use karta_cards_vera.Core.Exec.{Outcome, ok, throw, Exec, resume, Outcome-cases}
use karta_cards_vera.Programs.TierRules.{CredentialKind}
use karta_cards_vera.Pay.Tier.{includes}
use karta_cards_vera.Pay.Db.{Transaction, PayDb}
use karta_cards_vera.Pay.Transactions.{get_transaction_for_auth}
use karta_cards_vera.Pay.Arqc.{Kdf}
use karta_cards_vera.Pay.Orchestration.{Services, OrchestratePostAuthResult, orchestrate_post_auth}
use karta_cards_vera.Pay.Authentication.{
  WebAuthnCredential, AuthenticationResponse, Ceremony, FinishAuthenticationResult,
  verify_credential, accept_response, check_response, finish_authentication, authenticate_verify,
}

-- A credential that stands behind a response: known, of an allowed kind, and verified against the
-- challenge.
pub record IsVouched (w : Ceremony) (response : AuthenticationResponse) (challenge : String)
    (allowed : List CredentialKind) (auth : FinishAuthenticationResult) : Type 0 where
  pub credential : WebAuthnCredential
  pub found : w.find_credential response.id ≡ ok (some credential)
  pub kind_allowed : includes credential.kind allowed ≡ true
  pub verified :
      w.verify response challenge (verify_credential credential) ≡ ok (some auth.new_counter)
  pub used : auth.credential_id ≡ credential.credential_id

finish_authentication-IsVouched :
    (w : Ceremony) (response : AuthenticationResponse) (challenge : String)
    (allowed : List CredentialKind) (auth : FinishAuthenticationResult)
    → finish_authentication w response challenge allowed ≡ ok auth
    → IsVouched w response challenge allowed auth
unfolding finish_authentication check_response accept_response
finish_authentication-IsVouched w response challenge allowed auth h =
    elim (Outcome-cases (w.find_credential response.id)) [
      | inr (e, x) ↦ ground arith
      | inl (none, x) ↦ ground arith
      | inl (some c, x) ↦ record {
        credential = c;
        found = x;
        kind_allowed = ground arith;
        verified = ground arith;
        used = ground arith;
      }
    ]

-- The verification route answers with a payment only if the transaction may be paid, and a known
-- credential of a kind that the transaction allows has signed the transaction's own challenge; and
-- the answer is then that of the payment of this transaction.
pub authenticate_verify-IsVouched :
    (now : ℕ) (k : Kdf) (v : Services) (w : Ceremony) (rlid : String)
    (response : AuthenticationResponse) (ip ua : Option String) (r : OrchestratePostAuthResult)
    (s : PayDb)
    → (authenticate_verify now k v w rlid response ip ua s).0 ≡ ok r
    → (txn : Transaction) × (auth : FinishAuthenticationResult) × ((get_transaction_for_auth now
          rlid s).0
        ≡ ok txn)
      × IsVouched w response txn.challenge_nonce txn.allowed_credential_kinds auth
      × ((orchestrate_post_auth now k v
            (record {
              transaction_id = txn.id;
              used_credential_id = auth.credential_id;
              ip = ip;
              ua = ua;
            })
            (get_transaction_for_auth now rlid s).1).0
          ≡ ok r)
unfolding authenticate_verify
authenticate_verify-IsVouched now k v w rlid response ip ua r s h =
    elim (Outcome-cases (get_transaction_for_auth now rlid s).0) [
      | inr (e, x) ↦ cc (rw (x, authenticate_verify) at h)
      | inl (txn, x) ↦
          elim (Outcome-cases
            (finish_authentication w response txn.challenge_nonce txn.allowed_credential_kinds)) [
              | inr (e, y) ↦ cc (rw (x, y, authenticate_verify) at h)
              | inl (auth, y) ↦ (
                txn,
                auth,
                x,
                finish_authentication-IsVouched w response txn.challenge_nonce
                    txn.allowed_credential_kinds auth y,
                rw (x, y, authenticate_verify) at h,
              )
            ]
    ]

-- The same credentials, all of them registered for one card.
abbrev pub move_to : String → Option WebAuthnCredential → Option WebAuthnCredential
move_to card none = none
move_to card (some c) = some (record c { card_id = card })

abbrev pub moved_answer :
    String → Outcome (Option WebAuthnCredential) → Outcome (Option WebAuthnCredential)
moved_answer card (throw e) = throw e
moved_answer card (ok c) = ok (move_to card c)

abbrev pub moved : String → Ceremony → Ceremony
moved card w = record w { find_credential = λ id. moved_answer card (w.find_credential id) }

abbrev credential_used : Outcome FinishAuthenticationResult → Outcome String
credential_used (throw e) = throw e
credential_used (ok auth) = ok auth.credential_id

finish_authentication-moved :
    (w : Ceremony) (response : AuthenticationResponse) (challenge : String)
    (allowed : List CredentialKind) (card : String)
    → credential_used (finish_authentication (moved card w) response challenge allowed)
      ≡ credential_used (finish_authentication w response challenge allowed)
unfolding finish_authentication check_response accept_response
finish_authentication-moved w response challenge allowed card = ground arith

resume-credential_used :
    (o : Outcome FinishAuthenticationResult) (K : String → Exec PayDb OrchestratePostAuthResult)
    (s : PayDb)
    → resume o (λ auth. K auth.credential_id) s ≡ resume (credential_used o) K s
resume-credential_used (throw e) K s = refl
resume-credential_used (ok auth) K s = refl

-- The credential's card plays no part: with every credential registered for any other card the
-- verification route does the same, to the same state and with the same answer.
pub authenticate_verify-moved :
    (now : ℕ) (k : Kdf) (v : Services) (w : Ceremony) (rlid : String)
    (response : AuthenticationResponse) (ip ua : Option String) (card : String) (s : PayDb)
    → authenticate_verify now k v (moved card w) rlid response ip ua s
      ≡ authenticate_verify now k v w rlid response ip ua s
unfolding authenticate_verify
authenticate_verify-moved now k v w rlid response ip ua card s =
    elim (Outcome-cases (get_transaction_for_auth now rlid s).0) [
      | inr (e, x) ↦ rw (x, authenticate_verify) refl
      | inl (txn, x) ↦
          let pay_with : String → Exec PayDb OrchestratePostAuthResult = λ id.
            orchestrate_post_auth now k v
              (record { transaction_id = txn.id; used_credential_id = id; ip = ip; ua = ua }) in
          let s' = (get_transaction_for_auth now rlid s).1 in
          let challenge = txn.challenge_nonce in
          let allowed = txn.allowed_credential_kinds in
          rw (x, authenticate_verify)
            (resume-credential_used
                (finish_authentication (moved card w) response challenge allowed) pay_with s'
              ∙ (ap (λ (o : Outcome String). resume o pay_with s')
                    (finish_authentication-moved w response challenge allowed card)
                  ∙ sym (
                      resume-credential_used (finish_authentication w response challenge allowed)
                        pay_with s')))
    ]
