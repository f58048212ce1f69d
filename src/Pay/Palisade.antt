-- ===== src/Pay/Palisade.antt =====
-- services/pay/src/cards/palisade-client.ts: the payment service's client of Palisade, the card
-- service. Undici, JSON.parse and the JSON of the two larger bodies are parameters.
pub mod Api
pub mod Segment
pub mod Send
use karta_cards_vera.Common.{
  ℕ, ◌+◌, String, concat, Text, Option, none, some, true, false, not, [], ◌++◌, eqb, leb, or_else,
  if◌then◌else◌,
}
use karta_cards_vera.Core.Error.{ApiError, Thrown, api, other, not_found}
use karta_cards_vera.Core.Exec.{Outcome, ok, throw}
use karta_cards_vera.Core.Encryption.{Bytes}
use karta_cards_vera.Core.Http.{
  HttpRequest, HttpResponse, Http, ClientError, drop_slash, status_string,
}
use karta_cards_vera.ServiceAuth.{Mac, sign_request}

pub record PalisadeClientOptions : Type 0 where
  pub base_url : Text
  pub key_id : Text
  pub secret : Text

-- What a 404 becomes: an allowed null, `card_not_found`, or a `PalisadeClientError`.
pub data OnNotFound (A : Type 0) : Type 0 where
  allowed : A → OnNotFound A
  card generic : OnNotFound A

pub record SendOpts : Type 0 where
  pub method : Text
  pub path_and_query : Text
  pub body : Option Bytes

-- What a call throws: an `ApiError`, a `PalisadeClientError`, or an error of the transport.
pub data Failure : Type 0 where
  api_error : ApiError → Failure
  client_error : ClientError → Failure
  transport : Thrown → Failure

pub data Reply (A : Type 0) : Type 0 where
  got : A → Reply A
  failed : Failure → Reply A

-- The failure as it passes through the payment service's handlers.
abbrev pub thrown_of : Failure → Thrown
thrown_of (api_error e) = api e
thrown_of (client_error e) = other e.message
thrown_of (transport e) = e

abbrev pub outcome_of : {A : Type 0} → Reply A → Outcome A
outcome_of (got a) = ok a
outcome_of (failed f) = throw (thrown_of f)

abbrev pub then_parse : {A B : Type 0} → (A → B) → Reply A → Reply B
then_parse f (got a) = got (f a)
then_parse f (failed e) = failed e

abbrev pub parse_body : {A : Type 0} → ℕ → Option A → Reply A
parse_body status none = failed (
    client_error (record {
      status = status;
      code = "palisade_bad_body";
      message = "Palisade returned a non-JSON body";
    }))
parse_body status (some a) = got a

-- The key, the HMAC, the transport and the clock.
module _ (m : Mac) (h : Http) (opts : PalisadeClientOptions) (now : ℕ) where
  unfoldable pub signed_http_request : SendOpts → HttpRequest
  signed_http_request a = record {
    url = drop_slash opts.base_url ++ a.path_and_query;
    method = a.method;
    authorization = sign_request m (record {
      method = a.method;
      path_and_query = a.path_and_query;
      body = or_else a.body [];
      key_id = opts.key_id;
      secret = opts.secret;
      now = now;
    });
    is_json = elim a.body [ none ↦ false | some _ ↦ true ];
    body = a.body;
  }

  abbrev pub error_of : ℕ → String → String → Text → Failure
  error_of status code message text = client_error (record {
    status = status;
    code = or_else (h.error_code text) code;
    message = or_else (h.error_message text) message;
  })

  -- The answer by the response's status.
  unfoldable pub read_response :
      {A : Type 0} → (Text → Option A) → OnNotFound A → HttpResponse → Reply A
  read_response parse missing r =
      if eqb r.status_code 404
      then elim missing [
        | allowed a ↦ got a
        | card ↦ failed (api_error (not_found "card_not_found"))
        | generic ↦ failed (error_of 404 "not_found" "Resource not found in Palisade" r.text)
      ]
      else if leb 400 r.status_code
      then failed (
          error_of r.status_code "palisade_error"
            (concat "Palisade request returned " (status_string r.status_code)) r.text)
      else parse_body r.status_code (parse r.text)

  unfoldable pub send_signed : {A : Type 0} → (Text → Option A) → OnNotFound A → SendOpts → Reply A
  send_signed parse missing a = elim (h.request (signed_http_request a)) [
    | throw e ↦ failed (transport e)
    | ok r ↦ read_response parse missing r
  ]
