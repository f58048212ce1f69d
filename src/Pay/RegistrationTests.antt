-- ===== src/Pay/RegistrationTests.antt =====
-- Witnesses for the theorems about the registration of a credential.
use karta_cards_vera.Common.{◌≡◌, refl, [], ◌∷◌, some, none}
use karta_cards_vera.Core.Exec.{ok}
use karta_cards_vera.Programs.TierRules.{cross_platform}
use karta_cards_vera.Pay.Authentication.{WebAuthnCredential}
use karta_cards_vera.Pay.Registration.{
  Registrar, RegistrationResponse, Challenges, begin_registration, create_challenge, find_challenge,
  delete_challenge, finish_registration, build_nfc_card_registration_options,
  build_platform_registration_options,
}
use karta_cards_vera.Pay.Registration.Challenge.{IsIssued, finish_registration-IsIssued}

abbrev made : WebAuthnCredential
made = record {
  credential_id = "cred_9";
  public_key = "pk";
  counter = 0;
  kind = cross_platform;
  card_id = "card_1";
}

abbrev registrar : Registrar
registrar = record {
  lookup_card = λ id. ok id;
  list_credentials = λ card. ok [];
  generate_options = λ o. ok "ch_1";
  challenge_of = λ r. ok (some r.client_data);
  verify = λ r c.
      ok (some (record { credential_id = "cred_9"; credential_public_key = "pk"; counter = 0 }));
  base64url = λ s. s;
  create_credential = λ card i. ok (record {
    credential_id = i.credential_id;
    public_key = i.public_key;
    counter = i.counter;
    kind = i.kind;
    card_id = card;
  });
}

abbrev answer : RegistrationResponse
answer = record { client_data = "ch_1"; transports = none }

-- The table after a registration has begun.
abbrev begun : Challenges
begun =
    record { challenge = "ch_1"; card_id = "card_1"; kind = cross_platform; expires_at = 301000 }
    ∷ []

begin_run : begin_registration 1000 registrar "card_1" cross_platform [] ≡ (ok "ch_1", begun)
unfolding begin_registration create_challenge build_nfc_card_registration_options
    build_platform_registration_options
begin_run = refl

finish_run : (finish_registration 2000 registrar "card_1" answer none begun).0 ≡ ok made
unfolding finish_registration find_challenge delete_challenge
finish_run = refl

finish_registration-IsIssued_example : IsIssued 2000 registrar "card_1" answer none begun made
finish_registration-IsIssued_example =
    finish_registration-IsIssued 2000 registrar "card_1" answer none begun made finish_run
