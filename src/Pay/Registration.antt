-- ===== src/Pay/Registration.antt =====
-- The registration half of services/pay/src/webauthn/webauthn.service.ts, with the registration
-- options of packages/webauthn/src/config.ts. The card service, the WebAuthn library and the decoding
-- of a response's client data are parameters. The state is the table of registration challenges.
pub mod Challenge
use karta_cards_vera.Common.{
  ℕ, ◌+◌, ◌*◌, ltb, String, ◌==◌, Text, codes, ℤ, negsuc, Option, none, some, Bool, not, List, [],
  ◌∷◌, ◌++◌, map, take, find, any, keep, or_else, if◌then◌else◌,
}
use karta_cards_vera.Core.Error.{api, bad_request, unauthorized, other}
use karta_cards_vera.Core.Exec.{Outcome, ok, throw, Exec, pure, lift, modify, ensure, ◌>>=◌, ◌>>◌}
use karta_cards_vera.Programs.TierRules.{CredentialKind, platform, cross_platform, kind_eq}
use karta_cards_vera.Pay.Authentication.{WebAuthnCredential}

pub record RegInputCommon : Type 0 where
  pub user_handle : String
  pub user_label : Text
  pub exclude_credential_ids : List String

pub record ExcludedCredential : Type 0 where
  pub id : String
  pub transports : List String

-- The options that the two builders set apart from each other; the relying party, the timeout and
-- the attestation are the same in both.
pub record RegOpts : Type 0 where
  pub user_id : String
  pub user_name : Text
  pub supported_algorithm_ids : List ℤ
  pub authenticator_attachment : String
  pub resident_key : String
  pub user_verification : String
  pub exclude_credentials : List ExcludedCredential

abbrev pub default_transports : CredentialKind → List String
default_transports cross_platform = "nfc" ∷ []
default_transports platform = "internal" ∷ "hybrid" ∷ []

abbrev pub exclude : List String → String → ExcludedCredential
exclude transports id = record { id = id; transports = transports }

unfoldable pub build_nfc_card_registration_options : RegInputCommon → RegOpts
build_nfc_card_registration_options i = record {
  user_id = i.user_handle;
  user_name = i.user_label;
  supported_algorithm_ids = negsuc 6 ∷ [];
  authenticator_attachment = "cross-platform";
  resident_key = "discouraged";
  user_verification = "discouraged";
  exclude_credentials = map (exclude ("nfc" ∷ [])) i.exclude_credential_ids;
}

unfoldable pub build_platform_registration_options : RegInputCommon → RegOpts
build_platform_registration_options i = record {
  user_id = i.user_handle;
  user_name = i.user_label;
  supported_algorithm_ids = negsuc 6 ∷ negsuc 256 ∷ [];
  authenticator_attachment = "platform";
  resident_key = "preferred";
  user_verification = "preferred";
  exclude_credentials = map (exclude ("internal" ∷ "hybrid" ∷ [])) i.exclude_credential_ids;
}

-- Prisma's model `RegistrationChallenge`.
pub record RegistrationChallenge : Type 0 where
  pub challenge : String
  pub card_id : String
  pub kind : CredentialKind
  pub expires_at : ℕ

pub record RegistrationResponse : Type 0 where
  pub client_data : String
  pub transports : Option (List String)

pub record RegistrationInfo : Type 0 where
  pub credential_id : String
  pub credential_public_key : String
  pub counter : ℕ

pub record CreateCredInput : Type 0 where
  pub credential_id : String
  pub public_key : String
  pub counter : ℕ
  pub kind : CredentialKind
  pub transports : List String
  pub device_name : Option String

-- The answers from outside: the id of a card, its credentials, the challenge that the library makes
-- for some options, the challenge inside a response, the registration that a response verifies to,
-- and the credential that the card service creates.
pub record Registrar : Type 0 where
  pub lookup_card : String → Outcome String
  pub list_credentials : String → Outcome (List WebAuthnCredential)
  pub generate_options : RegOpts → Outcome String
  pub challenge_of : RegistrationResponse → Outcome (Option String)
  pub verify : RegistrationResponse → String → Outcome (Option RegistrationInfo)
  pub base64url : String → String
  pub create_credential : String → CreateCredInput → Outcome WebAuthnCredential

abbrev pub Challenges : Type 0
Challenges = List RegistrationChallenge

abbrev pub is_for : String → RegistrationChallenge → Bool
is_for challenge r = r.challenge == challenge

-- `registrationChallenge.create`: the challenge is unique.
unfoldable pub create_challenge : RegistrationChallenge → Exec Challenges (Unit {0})
create_challenge row s =
    if any (is_for row.challenge) s then (throw (other "P2002"), s) else (ok tt, row ∷ s)

abbrev pub registration_ttl : ℕ
registration_ttl = 5 * 60 * 1000

abbrev pub builder_options : String → CredentialKind → List WebAuthnCredential → RegOpts
builder_options card_id kind existing =
    let input : RegInputCommon = record {
      user_handle = card_id;
      user_label = codes "card_" ++ take 8 (codes card_id);
      exclude_credential_ids =
          map (λ (c : WebAuthnCredential). c.credential_id)
            (keep (λ c. kind_eq c.kind kind) existing);
    } in
    elim kind [
      | cross_platform ↦ build_nfc_card_registration_options input
      | platform ↦ build_platform_registration_options input
    ]

-- The answer is the challenge of the options.
unfoldable pub begin_registration : ℕ → Registrar → String → CredentialKind → Exec Challenges String
begin_registration now w card_id kind = do
  card ← lift (w.lookup_card card_id)
  existing ← lift (w.list_credentials card)
  challenge ← lift (w.generate_options (builder_options card kind existing))
  create_challenge (record {
    challenge = challenge;
    card_id = card;
    kind = kind;
    expires_at = now + registration_ttl;
  })
  pure challenge

abbrev pub expected_challenge : Option String → Outcome String
expected_challenge none = throw (api (bad_request "missing_challenge"))
expected_challenge (some c) =
    if c == "" then throw (api (bad_request "missing_challenge")) else ok c

unfoldable pub find_challenge : String → String → Challenges → Outcome RegistrationChallenge
find_challenge card_id challenge s = elim (find (is_for challenge) s) [
  | none ↦ throw (api (unauthorized "bad_challenge"))
  | some r ↦ if r.card_id == card_id then ok r else throw (api (unauthorized "bad_challenge"))
]

abbrev pub registration_info : Option RegistrationInfo → Outcome RegistrationInfo
registration_info none = throw (api (unauthorized "registration_verify_failed"))
registration_info (some info) = ok info

abbrev pub credential_input :
    Registrar
    → RegistrationChallenge
    → RegistrationResponse
    → Option String
    → RegistrationInfo
    → CreateCredInput
credential_input w row response device info = record {
  credential_id = info.credential_id;
  public_key = w.base64url info.credential_public_key;
  counter = info.counter;
  kind = row.kind;
  transports = or_else response.transports (default_transports row.kind);
  device_name = device;
}

-- `registrationChallenge.delete`, whose missing row is no error here.
unfoldable pub delete_challenge : String → Challenges → Challenges
delete_challenge challenge = keep (λ r. not (is_for challenge r))

unfoldable pub finish_registration :
    ℕ
    → Registrar
    → String
    → RegistrationResponse
    → Option String
    → Exec Challenges WebAuthnCredential
finish_registration now w card_id response device = do
  claimed ← lift (w.challenge_of response)
  expected ← lift (expected_challenge claimed)
  row ← λ s. (find_challenge card_id expected s, s)
  ensure (not (ltb row.expires_at now)) (unauthorized "challenge_expired")
  verified ← lift (w.verify response expected)
  info ← lift (registration_info verified)
  credential ← lift (w.create_credential card_id (credential_input w row response device info))
  modify (delete_challenge row.challenge)
  pure credential
