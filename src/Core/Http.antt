-- ===== src/Core/Http.antt =====
-- What the HTTP clients of packages/vault-client and services/pay/src/cards share: a request, a
-- response, and the JSON of an error's body. The undici library and JSON.parse are parameters.
use karta_cards_vera.Common.{
  ℕ, ◌/◌, ◌%◌, String, concat, Text, Option, Bool, [], ◌∷◌, eqb, if◌then◌else◌,
}
use karta_cards_vera.Core.Exec.{Outcome}
use karta_cards_vera.Core.Encryption.{Bytes}

pub record HttpRequest : Type 0 where
  pub url : Text
  pub method : Text
  pub authorization : Text
  pub is_json : Bool
  pub body : Option Bytes

pub record HttpResponse : Type 0 where
  pub status_code : ℕ
  pub text : Text

-- undici's `request`, which may throw; and, of a text that is JSON, `error.code` and
-- `error.message`, where they are present and not empty.
pub record Http : Type 0 where
  pub request : HttpRequest → Outcome HttpResponse
  pub error_code : Text → Option String
  pub error_message : Text → Option String

-- An error of a client: its status, its code and its message.
pub record ClientError : Type 0 where
  pub status : ℕ
  pub code : String
  pub message : String

-- `baseUrl.replace(/\/$/, '')`
unfoldable pub drop_slash : Text → Text
drop_slash [] = []
drop_slash (c ∷ []) = if eqb c b'/' then [] else c ∷ []
drop_slash (c ∷ d ∷ t) = c ∷ drop_slash (d ∷ t)

-- A status of three digits in a template string.
abbrev pub digit_string : ℕ → String
digit_string d =
    if eqb d 0
    then "0"
    else if eqb d 1
    then "1"
    else if eqb d 2
    then "2"
    else if eqb d 3
    then "3"
    else if eqb d 4
    then "4"
    else if eqb d 5
    then "5"
    else if eqb d 6
    then "6"
    else if eqb d 7
    then "7"
    else if eqb d 8
    then "8"
    else "9"

abbrev pub status_string : ℕ → String
status_string n =
    concat (digit_string (n / 100)) (concat (digit_string (n / 10 % 10)) (digit_string (n % 10)))
