-- ===== src/Vault/Proxy/Sent.antt =====
-- What the proxy sends for a token, over all that the vault does.
use karta_cards_vera.Common.{
  ℕ, ◌≡◌, refl, sym, subst, String, Option, some, none, List, ◌==◌, any, text_eq, Bool-cases, ◌⊎◌,
  inl, inr,
}
use karta_cards_vera.Core.Error.{Thrown}
use karta_cards_vera.Core.Exec.{Outcome, ok, throw, Outcome-cases}
use karta_cards_vera.Vault.Db.{Db, RetrievalToken}
use karta_cards_vera.Vault.Store.{Crypto}
use karta_cards_vera.Vault.Retrieval.{ConsumeResult, consume_retrieval_token}
use karta_cards_vera.Vault.Retrieval.Frame.{IsSpent}
use karta_cards_vera.Vault.Retrieval.SingleUse.{consume, step-IsSpent, spent-consume}
use karta_cards_vera.Vault.Template.{substitute_headers}
use karta_cards_vera.Vault.Proxy.{
  ProxyInput, ProxyResult, OutRequest, Url, Network, allowed_methods, method_of, consume_context,
  values_of, fill_body, report, forward_to, check_url, forward_via_vault,
}

module _ (c : Crypto) (net : Network) where
  module _ (now : ℕ) (input : ProxyInput) (s : Db) (sent : List OutRequest) where
    -- What the consumption answers, and the vault after it.
    abbrev answered : Outcome ConsumeResult
    answered = (consume_retrieval_token c now input.retrieval_token (consume_context input) s).0

    abbrev consumed_db : Db
    consumed_db = (consume_retrieval_token c now input.retrieval_token (consume_context input) s).1

    tokens-report :
        (consumed : ConsumeResult) (url : Url) (r : Outcome ProxyResult) (t : Db)
        → (report c net now input consumed url r t).1.tokens ≡ t.tokens
    unfolding report
    tokens-report consumed url (ok r) t = refl
    tokens-report consumed url (throw e) t = refl

    tokens-forward_to :
        (url : Url) → (forward_to c net now input url (s, sent)).1.0.tokens ≡ consumed_db.tokens
    unfolding forward_to
    tokens-forward_to url = elim (Outcome-cases answered) [
      | inr (e, x) ↦ rw (x, forward_to) refl
      | inl (consumed, x) ↦
          elim (Outcome-cases (substitute_headers input.headers (values_of consumed.card))) [
            | inr (e, y) ↦ rw (x, y, forward_to) refl
            | inl (headers, y) ↦
                elim (Outcome-cases (fill_body input.body (values_of consumed.card))) [
                  | inr (e, z) ↦ rw (x, y, z, forward_to) refl
                  | inl (body, z) ↦
                      rw (x, y, z, forward_to) (tokens-report consumed url _ consumed_db)
                ]
          ]
    ]

    -- The table of tokens after a forwarding is the one before or the one after its consumption.
    abbrev Touched : List RetrievalToken → Type 0
    Touched rows = (rows ≡ s.tokens) ⊎ (rows ≡ consumed_db.tokens)

    check_url-Touched :
        (url : Option Url) → Touched (check_url c net now input url (s, sent)).1.0.tokens
    check_url-Touched none = inl refl
    check_url-Touched (some url) = elim (Bool-cases (url.protocol == "https:")) [
      | inl x ↦ inr (rw x (tokens-forward_to url))
      | inr x ↦ inl (rw x refl)
    ]

    forward_via_vault-Touched : Touched (forward_via_vault c net now input (s, sent)).1.0.tokens
    unfolding forward_via_vault
    forward_via_vault-Touched =
        elim (Bool-cases (any (text_eq (method_of input)) allowed_methods)) [
          | inr x ↦ inl (rw (x, forward_via_vault) refl)
          | inl x ↦ rw (x, forward_via_vault) (check_url-Touched (net.parse_url input.destination))
        ]

    -- A consumption that is refused sends nothing.
    refused-check_url :
        (url : Option Url) (e : Thrown)
        → answered ≡ throw e
        → (check_url c net now input url (s, sent)).1.1 ≡ sent
    unfolding forward_to
    refused-check_url none e h = refl
    refused-check_url (some url) e h = elim (Bool-cases (url.protocol == "https:")) [
      | inl x ↦ rw (x, h, forward_to) refl
      | inr x ↦ rw x refl
    ]

    refused-forward_via_vault :
        (e : Thrown) → answered ≡ throw e → (forward_via_vault c net now input (s, sent)).1.1 ≡ sent
    unfolding forward_via_vault
    refused-forward_via_vault e h =
        elim (Bool-cases (any (text_eq (method_of input)) allowed_methods)) [
          | inr x ↦ rw (x, forward_via_vault) refl
          | inl x ↦
              rw (x, forward_via_vault) (refused-check_url (net.parse_url input.destination) e h)
        ]

    pub spent-forward_via_vault :
        IsSpent input.retrieval_token s.tokens
        → (forward_via_vault c net now input (s, sent)).1.1 ≡ sent
    spent-forward_via_vault h = elim (Outcome-cases answered) [
      | inr (e, x) ↦ refused-forward_via_vault e x
      | inl (r, x) ↦
          let refused = spent-consume c now input.retrieval_token (consume_context input) s h in
          cc (rw x at refused)
    ]

  pub forward_via_vault-IsSpent :
      (t : String) (now : ℕ) (input : ProxyInput) (s : Db) (sent : List OutRequest)
      → IsSpent t s.tokens
      → IsSpent t (forward_via_vault c net now input (s, sent)).1.0.tokens
  forward_via_vault-IsSpent t now input s sent h =
      elim (forward_via_vault-Touched now input s sent) [
        | inl same ↦ subst (IsSpent t) (sym same) h
        | inr moved ↦
            subst (IsSpent t) (sym moved)
              (step-IsSpent c t (consume now input.retrieval_token (consume_context input)) s h)
      ]
