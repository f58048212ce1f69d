-- ===== src/Vault/Proxy/Logged.antt =====
-- Who is named in the audit rows of a forwarded request.
use karta_cards_vera.Common.{
  ℕ, ◌≡◌, String, ◌==◌, Option, some, none, false, List, any, text_eq, ltb, Bool-cases, inl, inr,
}
use karta_cards_vera.Core.Exec.{Outcome, ok, throw, Outcome-cases}
use karta_cards_vera.Vault.Audit.{AccessLog, normalise_event}
use karta_cards_vera.Vault.Db.{Db}
use karta_cards_vera.Vault.Store.{Crypto}
use karta_cards_vera.Vault.Retrieval.{ConsumeResult, consume_retrieval_token}
use karta_cards_vera.Vault.Attribution.{
  IsAttributed, IsAttributed-snoc, consume_retrieval_token-IsAttributed,
}
use karta_cards_vera.Vault.Proxy.{
  ProxyInput, OutRequest, ProxyResult, Network, Url, consume_context, values_of, fill_body,
  forwarded_event, error_text, method_of, allowed_methods, substitute_headers, report, forward_to,
  forward_via_vault, check_url,
}

module _ (c : Crypto) (net : Network) (now : ℕ) (input : ProxyInput) (a : String)
    (old : List AccessLog) (named : input.by.actor ≡ a) where
  abbrev AddedTo : Db → Type 0
  AddedTo t = IsAttributed a old t.access_log

  report-IsAttributed :
      (consumed : ConsumeResult) (url : Url) (r : Outcome ProxyResult) (s : Db)
      → AddedTo s
      → AddedTo (report c net now input consumed url r s).1
  unfolding report normalise_event
  report-IsAttributed consumed url (ok r) s h =
      IsAttributed-snoc a old s.access_log
        (forwarded_event input consumed url (ltb r.status 500) none) h named
  report-IsAttributed consumed url (throw e) s h =
      IsAttributed-snoc a old s.access_log
        (forwarded_event input consumed url false (some (error_text e))) h named

  forward_to-IsAttributed :
      (url : Url) (s : Db) (sent : List OutRequest)
      → AddedTo s
      → AddedTo (forward_to c net now input url (s, sent)).1.0
  unfolding forward_to
  forward_to-IsAttributed url s sent h =
      let after =
        consume_retrieval_token-IsAttributed a old c (consume_context input) named now
          input.retrieval_token s h in
      let s' = (consume_retrieval_token c now input.retrieval_token (consume_context input) s).1 in
      elim (Outcome-cases
        (consume_retrieval_token c now input.retrieval_token (consume_context input) s).0) [
          | inr (e, x) ↦ rw (x, forward_to) after
          | inl (consumed, x) ↦
              elim (Outcome-cases (substitute_headers input.headers (values_of consumed.card))) [
                | inr (e, y) ↦ rw (x, y, forward_to) after
                | inl (headers, y) ↦
                    elim (Outcome-cases (fill_body input.body (values_of consumed.card))) [
                      | inr (e, z) ↦ rw (x, y, z, forward_to) after
                      | inl (body, z) ↦
                          rw (x, y, z, forward_to) (report-IsAttributed consumed url _ s' after)
                    ]
              ]
        ]

  check_url-IsAttributed :
      (url : Option Url) (s : Db) (sent : List OutRequest)
      → AddedTo s
      → AddedTo (check_url c net now input url (s, sent)).1.0
  check_url-IsAttributed none s sent h = h
  check_url-IsAttributed (some url) s sent h = elim (Bool-cases (url.protocol == "https:")) [
    | inl x ↦ rw x (forward_to-IsAttributed url s sent h)
    | inr x ↦ rw x h
  ]

  pub forward_via_vault-IsAttributed :
      (s : Db) (sent : List OutRequest)
      → AddedTo s
      → AddedTo (forward_via_vault c net now input (s, sent)).1.0
  unfolding forward_via_vault
  forward_via_vault-IsAttributed s sent h =
      elim (Bool-cases (any (text_eq (method_of input)) allowed_methods)) [
        | inr x ↦ rw (x, forward_via_vault) h
        | inl x ↦
            rw (x, forward_via_vault)
              (check_url-IsAttributed (net.parse_url input.destination) s sent h)
      ]
