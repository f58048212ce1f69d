-- ===== src/ServiceAuth/Tests.antt =====
-- Witnesses for the theorems about packages/service-auth.
use karta_cards_vera.Common.{◌≡◌, refl, Text, codes, ◌%◌, map, All, arith, [], ◌∷◌, some, none, ◌⊎◌}
use karta_cards_vera.Pay.Arqc.{to_hex}
use karta_cards_vera.ServiceAuth.{
  Mac, SignRequestInput, VerifyRequestInput, accepted, canonical, sign_request, verify_request,
  decimal_from, parse_authorization, verify_parsed, from_hex, ServiceAuthError, next, answer,
  next_error, type_error, verify_input, RequireSignedRequestOptions, require_signed_request,
}
use karta_cards_vera.Core.Encryption.{Bytes}
use karta_cards_vera.Pay.Arqc.Validate.{IsByte}
use karta_cards_vera.ServiceAuth.RoundTrip.{MacLaws, IsWord, require_signed_request-sign_request}
use karta_cards_vera.ServiceAuth.Inherited.{HasInheritedKey}
use karta_cards_vera.ServiceAuth.Sound.{IsSigned, require_signed_request-IsSigned}

abbrev low_bytes : Bytes → Bytes
low_bytes = map (λ b. b % 256)

-- A MAC that is the secret itself.
abbrev pub mac : Mac
mac = record {
  sha256_hex = λ body. codes "ab";
  hmac = λ secret message. 18 ∷ 52 ∷ low_bytes secret;
}

low_bytes-IsByte : (bs : Bytes) → All IsByte (low_bytes bs)
low_bytes-IsByte [] = tt
low_bytes-IsByte (b ∷ bs) = (omega arith, low_bytes-IsByte bs)

pub mac-MacLaws : MacLaws mac
mac-MacLaws = record {
  bytes = λ secret message. (omega arith, (omega arith, low_bytes-IsByte secret));
  some_bytes = λ secret message. refl;
}

pub pay-IsWord : IsWord (codes "pay")
pay-IsWord = record { plain = refl; nonempty = refl }

abbrev request : SignRequestInput
request = record {
  method = codes "post";
  path_and_query = codes "/api/vault/store?x=1";
  body = 1 ∷ [];
  key_id = codes "pay";
  secret = 5 ∷ [];
  now = 1700;
}

signed_run : sign_request mac request ≡ codes "VeraHmac keyId=pay,ts=1700,sig=123405"
unfolding sign_request canonical decimal_from to_hex
signed_run = refl

abbrev received : VerifyRequestInput
received = record {
  authorization = some (codes "VeraHmac keyId=pay,ts=1700,sig=123405");
  method = codes "POST";
  path_and_query = codes "/api/vault/store?x=1";
  body = 1 ∷ [];
  keys = (codes "activation", 9 ∷ []) ∷ (codes "pay", 5 ∷ []) ∷ [];
  now = 1730;
  window_seconds = none;
}

abbrev options : RequireSignedRequestOptions
options = record { keys = received.keys; window_seconds = none }

received_run : verify_request mac received ≡ accepted (codes "pay")
unfolding verify_request parse_authorization verify_parsed canonical decimal_from from_hex
received_run = refl

-- A key id of the prototype stops the verification.
abbrev strange_header : Text
strange_header = codes "VeraHmac keyId=constructor,ts=1700,sig=00"

strange_run :
    require_signed_request mac options
      (some strange_header)
      received.method
      received.path_and_query
      none
      1730
    ≡ next_error type_error
unfolding require_signed_request verify_request parse_authorization verify_parsed
strange_run = refl

require_signed_request-IsSigned_example :
    ((key_id : Text) × (require_signed_request mac options
          (some strange_header)
          received.method
          received.path_and_query
          none
          1730
        ≡ next key_id)
      × IsSigned mac
          (verify_input options
            (some strange_header)
            received.method
            received.path_and_query
            none
            1730)
          key_id)
    ⊎ (((e : ServiceAuthError) × (require_signed_request mac options
              (some strange_header)
              received.method
              received.path_and_query
              none
              1730
            ≡ answer 401 e)
          × (¬ HasInheritedKey (
              verify_input options
                (some strange_header)
                received.method
                received.path_and_query
                none
                1730)))
        ⊎ ((require_signed_request mac options
                (some strange_header)
                received.method
                received.path_and_query
                none
                1730
              ≡ next_error type_error)
            × HasInheritedKey (
                verify_input options
                  (some strange_header)
                  received.method
                  received.path_and_query
                  none
                  1730)))
require_signed_request-IsSigned_example =
    require_signed_request-IsSigned mac options (some strange_header) received.method
      received.path_and_query none 1730

require_signed_request-sign_request_example :
    require_signed_request mac options
      (some (sign_request mac request))
      request.method
      request.path_and_query
      (some (1 ∷ []))
      1730
    ≡ next (codes "pay")
require_signed_request-sign_request_example =
    require_signed_request-sign_request mac request options (some (1 ∷ [])) 1730 mac-MacLaws
      pay-IsWord refl refl (omega arith)
