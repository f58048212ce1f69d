-- ===== src/Pay/Palisade/Api.antt =====
-- The calls of the Palisade client, and the parameters of the authentication and the registration
-- that they implement.
use karta_cards_vera.Common.{
  ℕ, ◌+◌, ◌/◌, ◌%◌, String, ◌==◌, Text, codes, pos, Option, none, some, Bool, ◌||◌, List, [], ◌∷◌,
  ◌++◌, map, eqb, ltb, is_digit, is_upper, is_lower, if◌then◌else◌,
}
use karta_cards_vera.Core.Error.{bad_request}
use karta_cards_vera.Core.Exec.{Outcome}
use karta_cards_vera.Core.Encryption.{Bytes}
use karta_cards_vera.Core.Http.{Http}
use karta_cards_vera.Programs.TierRules.{CredentialKind}
use karta_cards_vera.ServiceAuth.{Mac, show_int}
use karta_cards_vera.Pay.Arqc.{utf8_char}
use karta_cards_vera.Pay.Transactions.{CardState}
use karta_cards_vera.Pay.Authentication.{
  WebAuthnCredential, AuthenticationResponse, VerifyCredential, Ceremony,
}
use karta_cards_vera.Pay.Registration.{CreateCredInput}
use karta_cards_vera.Pay.Palisade.{
  PalisadeClientOptions, allowed, card, generic, Reply, failed, api_error, then_parse, outcome_of,
  send_signed,
}

-- `encodeURIComponent`, of code points.
abbrev pub is_unreserved : ℕ → Bool
is_unreserved c =
    is_digit c
    || (is_upper c
        || (is_lower c
            || (eqb c b'-'
                || (eqb c b'_'
                    || (eqb c b'.'
                        || (eqb c b'!'
                            || (eqb c b'~'
                                || (eqb c b'*' || (eqb c 39 || (eqb c b'(' || eqb c b')'))))))))))

abbrev pub upper_hex : ℕ → ℕ
upper_hex d = if ltb d 10 then d + 48 else d + 55

abbrev pub percent : Bytes → Text
percent [] = []
percent (b ∷ bs) = b'%' ∷ upper_hex (b / 16) ∷ upper_hex (b % 16) ∷ percent bs

unfoldable pub encode_uri_component : Text → Text
encode_uri_component [] = []
encode_uri_component (c ∷ cs) =
    (if is_unreserved c then c ∷ [] else percent (utf8_char c)) ++ encode_uri_component cs

-- A credential as JSON carries it, its counter as text or number.
pub record WireCredential : Type 0 where
  pub credential_id : String
  pub public_key : String
  pub counter : ℕ
  pub kind : CredentialKind
  pub card_id : String

unfoldable pub parse_credential : WireCredential → WebAuthnCredential
parse_credential w = record {
  credential_id = w.credential_id;
  public_key = w.public_key;
  counter = w.counter;
  kind = w.kind;
  card_id = w.card_id;
}

abbrev pub parse_found : Option WireCredential → Option WebAuthnCredential
parse_found none = none
parse_found (some w) = some (parse_credential w)

-- JSON.parse at the types of the answers, and JSON.stringify at a new credential.
pub record Codec : Type 0 where
  pub read_card : Text → Option CardState
  pub read_atc : Text → Option ℕ
  pub read_credentials : Text → Option (List WireCredential)
  pub read_found : Text → Option (Option WireCredential)
  pub read_credential : Text → Option WireCredential
  pub read_counter : Text → Option ℕ
  pub show_credential : CreateCredInput → Bytes

abbrev pub card_path : String → String → Text
card_path id tail = codes "/api/cards/" ++ (encode_uri_component (codes id) ++ codes tail)

abbrev pub credential_path : String → String → Text
credential_path id tail =
    codes "/api/webauthn-credentials/" ++ (encode_uri_component (codes id) ++ codes tail)

-- `if (!id) throw badRequest(code)`
abbrev pub require_id : {A : Type 0} → String → String → Reply A → Reply A
require_id id code r = if id == "" then failed (api_error (bad_request code)) else r

module _ (m : Mac) (h : Http) (json : Codec) (opts : PalisadeClientOptions) (now : ℕ) where
  unfoldable pub lookup_card : String → Reply CardState
  lookup_card id = require_id id "invalid_card_id" (
      send_signed m h opts now json.read_card card (record {
        method = codes "GET";
        path_and_query = codes "/api/cards/lookup/" ++ encode_uri_component (codes id);
        body = none;
      }))

  unfoldable pub increment_atc : String → Reply ℕ
  increment_atc id = require_id id "invalid_card_id" (
      send_signed m h opts now json.read_atc card (record {
        method = codes "PATCH";
        path_and_query = card_path id "/atc-increment";
        body = some (codes "{}");
      }))

  unfoldable pub list_web_authn_credentials : String → Reply (List WebAuthnCredential)
  list_web_authn_credentials id = require_id id "invalid_card_id" (
      then_parse (map parse_credential) (
        send_signed m h opts now json.read_credentials card (record {
          method = codes "GET";
          path_and_query = card_path id "/webauthn-credentials";
          body = none;
        })))

  unfoldable pub get_web_authn_credential_by_credential_id :
      String → Reply (Option WebAuthnCredential)
  get_web_authn_credential_by_credential_id id = require_id id "invalid_credential_id" (
      then_parse parse_found (
        send_signed m h opts now json.read_found (allowed none)
          (record { method = codes "GET"; path_and_query = credential_path id ""; body = none })))

  unfoldable pub create_web_authn_credential : String → CreateCredInput → Reply WebAuthnCredential
  create_web_authn_credential id input = require_id id "invalid_card_id" (
      then_parse parse_credential (
        send_signed m h opts now json.read_credential card (record {
          method = codes "POST";
          path_and_query = card_path id "/webauthn-credentials";
          body = some (json.show_credential input);
        })))

  unfoldable pub update_web_authn_credential_counter : String → ℕ → Reply ℕ
  update_web_authn_credential_counter id sign_counter = require_id id "invalid_credential_id" (
      send_signed m h opts now json.read_counter generic (record {
        method = codes "PATCH";
        path_and_query = credential_path id "/counter";
        body = some (codes "{\"signCounter\":" ++ (show_int (pos sign_counter) ++ codes "}"));
      }))

  -- The authentication's card service, by these calls.
  abbrev pub palisade_ceremony :
      (AuthenticationResponse → String → VerifyCredential → Outcome (Option ℕ)) → Ceremony
  palisade_ceremony verify = record {
    find_credential = λ id. outcome_of (get_web_authn_credential_by_credential_id id);
    list_credentials = λ id. outcome_of (list_web_authn_credentials id);
    verify = verify;
    update_counter =
        λ id n. outcome_of (then_parse (λ _. tt) (update_web_authn_credential_counter id n));
  }
