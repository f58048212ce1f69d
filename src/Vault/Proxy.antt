-- ===== src/Vault/Proxy.antt =====
-- services/vault/src/vault/proxy.service.ts: a request forwarded with the card's values filled in.
-- `new URL` and the HTTP client are parameters.
pub mod Guards
pub mod Logged
pub mod Sent
pub mod Wasted
use karta_cards_vera.Common.{
  ℕ, String, Text, codes, Option, none, some, Bool, false, List, [], ◌∷◌, ◌++◌, ◌==◌, any, map,
  is_empty, text_eq, ltb, if◌then◌else◌, or_else,
}
use karta_cards_vera.Core.Error.{Thrown, api, zod, other, bad_request}
use karta_cards_vera.Core.Exec.{
  Outcome, ok, throw, Exec, pure, raise, fail_with, ensure, lift, ◌>>=◌, ◌>>◌,
}
use karta_cards_vera.Programs.Currency.{to_upper}
use karta_cards_vera.Vault.Audit.{Actor, VaultEvent}
use karta_cards_vera.Vault.Db.{Db, emit}
use karta_cards_vera.Vault.Store.{Crypto}
use karta_cards_vera.Vault.Retrieval.{
  ConsumeContext, ConsumeResult, DecryptedCard, consume_retrieval_token,
}
use karta_cards_vera.Vault.Template.{TemplateValues, substitute, substitute_headers}

pub record ProxyInput : Type 0 where
  pub retrieval_token : String
  pub destination : String
  pub method : Option Text
  pub headers : List (String × Text)
  pub body : Option Text
  pub expected_amount : ℕ
  pub expected_currency : String
  pub by : Actor
  pub transaction_id : Option String

pub record ProxyResult : Type 0 where
  pub status : ℕ
  pub response_body : Text

-- A parsed URL, and the request that is sent.
pub record Url : Type 0 where
  pub protocol : String
  pub href : String

pub record OutRequest : Type 0 where
  pub url : String
  pub method : Text
  pub headers : List (String × Text)
  pub body : Option Text

-- `new URL(s)`, none where it throws; and the HTTP client.
pub record Network : Type 0 where
  pub parse_url : String → Option Url
  pub send : OutRequest → Outcome ProxyResult

-- The vault's state, and the requests that were sent so far, in order.
abbrev pub Wired : Type 0
Wired = Db × List OutRequest

-- A step of the vault, which sends nothing; and a request to the HTTP client.
abbrev pub on_vault : {A : Type 0} → Exec Db A → Exec Wired A
on_vault m (s, sent) = ((m s).0, ((m s).1, sent))

abbrev pub request : Network → OutRequest → Exec Wired (Outcome ProxyResult)
request net out (s, sent) = (ok (net.send out), (s, sent ++ out ∷ []))

abbrev pub allowed_methods : List Text
allowed_methods = codes "GET" ∷ codes "POST" ∷ codes "PUT" ∷ codes "PATCH" ∷ codes "DELETE" ∷ []

abbrev pub method_of : ProxyInput → Text
method_of input = map to_upper (or_else input.method (codes "POST"))

abbrev pub consume_context : ProxyInput → ConsumeContext
consume_context input = record {
  expected_amount = input.expected_amount;
  expected_currency = input.expected_currency;
  by = input.by;
  transaction_id = input.transaction_id;
}

-- The name is text that is only compared elsewhere; here its codes are filled in.
abbrev pub values_of : DecryptedCard → TemplateValues
values_of card = record {
  pan = card.pan;
  cvc = card.cvc;
  exp_month = card.exp_month;
  exp_year = card.exp_year;
  cardholder_name = codes card.cardholder_name;
  last4 = card.last4;
  bin = card.bin;
}

-- `input.body ? substitute(...) : undefined`
abbrev pub fill_body : Option Text → TemplateValues → Outcome (Option Text)
fill_body none v = ok none
fill_body (some t) v =
    if is_empty t then ok none else elim (substitute t v) [ throw e ↦ throw e | ok b ↦ ok (some b) ]

abbrev pub error_text : Thrown → String
error_text (api e) = e.code
error_text zod = "ZodError"
error_text (other msg) = msg

abbrev pub forwarded_event : ProxyInput → ConsumeResult → Url → Bool → Option String → VaultEvent
forwarded_event input consumed url done msg =
    VaultEvent.proxy_forwarded consumed.vault_entry_id consumed.retrieval_token_id url.href input.by
      done msg

module _ (c : Crypto) (net : Network) (now : ℕ) (input : ProxyInput) where
  -- The audit of the request that was sent, with its answer or its error.
  unfoldable pub report : ConsumeResult → Url → Outcome ProxyResult → Exec Db ProxyResult
  unfolding emit
  report consumed url (ok r) = do
    emit (forwarded_event input consumed url (ltb r.status 500) none)
    pure r
  report consumed url (throw e) = do
    emit (forwarded_event input consumed url false (some (error_text e)))
    raise e

  -- From a URL that passed its checks on.
  unfoldable pub forward_to : Url → Exec Wired ProxyResult
  forward_to url = do
    consumed ←
        on_vault (consume_retrieval_token c now input.retrieval_token (consume_context input))
    headers ← lift (substitute_headers input.headers (values_of consumed.card))
    body ← lift (fill_body input.body (values_of consumed.card))
    answer ←
        request net
          (record { url = url.href; method = method_of input; headers = headers; body = body })
    on_vault (report consumed url answer)

  abbrev pub check_url : Option Url → Exec Wired ProxyResult
  check_url none = fail_with (bad_request "invalid_destination")
  check_url (some url) =
      if url.protocol == "https:"
      then forward_to url
      else fail_with (bad_request "insecure_destination")

  unfoldable pub forward_via_vault : Exec Wired ProxyResult
  forward_via_vault = do
    ensure (any (text_eq (method_of input)) allowed_methods) (bad_request "method_not_allowed")
    check_url (net.parse_url input.destination)
