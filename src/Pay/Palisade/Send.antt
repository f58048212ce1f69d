-- ===== src/Pay/Palisade/Send.antt =====
-- What the client sends passes the card service's signature check; and what a missing credential
-- does to an authentication.
use karta_cards_vera.Common.{
  ℕ, ◌≤◌, ◌≡◌, refl, ap, String, ◌==◌, Text, codes, pos, Option, none, some, true, false, List, [],
  ◌++◌, or_else, eqb, arith,
}
use karta_cards_vera.Core.Error.{api, not_found}
use karta_cards_vera.Core.Exec.{Outcome, ok, throw}
use karta_cards_vera.Core.Http.{HttpResponse, Http, drop_slash}
use karta_cards_vera.Programs.TierRules.{CredentialKind}
use karta_cards_vera.ServiceAuth.{
  Mac, secret_for, distance, default_window, RequireSignedRequestOptions, require_signed_request,
  next,
}
use karta_cards_vera.ServiceAuth.RoundTrip.{MacLaws, IsWord, require_signed_request-sign_request}
use karta_cards_vera.Pay.Authentication.{
  AuthenticationResponse, VerifyCredential, finish_authentication,
}
use karta_cards_vera.Pay.Palisade.{
  PalisadeClientOptions, SendOpts, allowed, got, read_response, signed_http_request, send_signed,
  outcome_of, then_parse,
}
use karta_cards_vera.Pay.Palisade.Api.{
  Codec, credential_path, parse_found, get_web_authn_credential_by_credential_id, palisade_ceremony,
}

module _ (m : Mac) (h : Http) (opts : PalisadeClientOptions) (now : ℕ) where
  -- Every request that the client sends goes to its base URL, and the signature check of a server
  -- that knows the client's secret under its key id passes it on with that key id, as long as the
  -- clocks differ by no more than the window.
  pub require_signed_request-signed_http_request :
      (a : SendOpts) (server : RequireSignedRequestOptions) (later : ℕ)
      → MacLaws m
      → IsWord opts.key_id
      → secret_for opts.key_id server.keys ≡ some opts.secret
      → distance later (pos now) ≤ or_else server.window_seconds default_window
      → ((signed_http_request m h opts now a).url ≡ drop_slash opts.base_url ++ a.path_and_query)
        × (require_signed_request m server
              (some (signed_http_request m h opts now a).authorization)
              (signed_http_request m h opts now a).method
              a.path_and_query
              (signed_http_request m h opts now a).body
              later
            ≡ next opts.key_id)
  unfolding signed_http_request
  require_signed_request-signed_http_request a server later laws w known timely = (
    refl,
    require_signed_request-sign_request m
        (record {
          method = a.method;
          path_and_query = a.path_and_query;
          body = or_else a.body [];
          key_id = opts.key_id;
          secret = opts.secret;
          now = now;
        })
        server a.body later laws w refl known timely,
  )

  send_signed-404 :
      {A : Type 0} (parse : Text → Option A) (a : A) (o : SendOpts) (r : HttpResponse)
      → h.request (signed_http_request m h opts now o) ≡ ok r
      → r.status_code ≡ 404
      → send_signed m h opts now parse (allowed a) o ≡ got a
  unfolding send_signed read_response
  send_signed-404 parse a o r sent e =
      let missing : eqb r.status_code 404 ≡ true = ground arith in
      rw (sent, missing, send_signed) refl

  -- Where the card service answers the lookup of a credential with a 404, the authentication ends
  -- with `credential_not_found`, and asks for nothing else.
  pub finish_authentication-unknown :
      (json : Codec)
      (verify : AuthenticationResponse → String → VerifyCredential → Outcome (Option ℕ))
      (response : AuthenticationResponse) (challenge : String) (kinds : List CredentialKind)
      (r : HttpResponse)
      → (response.id == "") ≡ false
      → h.request (
          signed_http_request m h opts now (record {
            method = codes "GET";
            path_and_query = credential_path response.id "";
            body = none;
          }))
        ≡ ok r
      → r.status_code ≡ 404
      → finish_authentication (palisade_ceremony m h json opts now verify) response challenge kinds
        ≡ throw (api (not_found "credential_not_found"))
  unfolding finish_authentication get_web_authn_credential_by_credential_id
  finish_authentication-unknown json verify response challenge kinds r named sent e =
      let found : get_web_authn_credential_by_credential_id m h json opts now response.id
          ≡ got none =
        rw named (ap (then_parse parse_found) (send_signed-404 json.read_found none _ r sent e)) in
      rw (ap outcome_of found, finish_authentication) refl
