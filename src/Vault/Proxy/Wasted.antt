-- ===== src/Vault/Proxy/Wasted.antt =====
-- A token whose templates cannot be filled in, over all that the vault does afterwards.
use karta_cards_vera.Common.{
  ℕ, ◌+◌, ◌≡◌, refl, sym, subst, String, Text, Bool, true, false, ◌&&◌, List, [], ◌∷◌, ◌==◌, length,
  ltb, eq_iff, if◌then◌else◌, Bool-cases, ◌⊎◌, inl, inr, arith, ap,
}
use karta_cards_vera.Core.Error.{Thrown}
use karta_cards_vera.Core.Exec.{Outcome, ok, throw}
use karta_cards_vera.Vault.Db.{Db}
use karta_cards_vera.Vault.Store.{Crypto}
use karta_cards_vera.Vault.Retrieval.{ConsumeResult, consume_retrieval_token}
use karta_cards_vera.Vault.Retrieval.Tokens.{IsUnique}
use karta_cards_vera.Vault.Retrieval.Frame.{is_ok, IsSpent}
use karta_cards_vera.Vault.Retrieval.SingleUse.{Op, step, step-IsSpent, consume-IsSpent}
use karta_cards_vera.Vault.Template.{substitute_headers}
use karta_cards_vera.Vault.Proxy.{
  ProxyInput, OutRequest, Network, Wired, consume_context, values_of, fill_body, forward_to,
  forward_via_vault,
}
use karta_cards_vera.Vault.Proxy.Guards.{MayForward}
use karta_cards_vera.Vault.Proxy.Sent.{spent-forward_via_vault, forward_via_vault-IsSpent}

-- A call of the vault: one of its operations, or a request to forward, with its clock.
pub data Call : Type 0 where
  vault_call : Op → Call
  forward : ℕ → ProxyInput → Call

-- The templates of a request cannot be filled in: those of its headers, or that of its body.
abbrev pub Unfillable : ProxyInput → ConsumeResult → Thrown → Type 0
Unfillable input consumed e =
    (substitute_headers input.headers (values_of consumed.card) ≡ throw e)
    ⊎ ((headers : List (String × Text)) × (substitute_headers input.headers
            (values_of consumed.card)
          ≡ ok headers)
        × (fill_body input.body (values_of consumed.card) ≡ throw e))

module _ (c : Crypto) (net : Network) where
  abbrev pub call : Call → Wired → Wired
  call (vault_call op) (s, sent) = (step c op s, sent)
  call (forward now input) w = (forward_via_vault c net now input w).1

  -- Whether a call sends a request on behalf of a token, and how many of a sequence do.
  abbrev pub sends : String → Call → Wired → Bool
  sends t (vault_call op) w = false
  sends t (forward now input) w =
      (input.retrieval_token == t)
      && ltb (length w.1) (length (forward_via_vault c net now input w).1.1)

  abbrev pub send_count : String → List Call → Wired → ℕ
  send_count t [] w = 0
  send_count t (x ∷ calls) w = (if sends t x w then 1 else 0) + send_count t calls (call x w)

  call-IsSpent :
      (t : String) (x : Call) (w : Wired) → IsSpent t w.0.tokens → IsSpent t (call x w).0.tokens
  call-IsSpent t (vault_call op) (s, sent) h = step-IsSpent c t op s h
  call-IsSpent t (forward now input) (s, sent) h =
      forward_via_vault-IsSpent c net t now input s sent h

  spent-sends : (t : String) (x : Call) (w : Wired) → IsSpent t w.0.tokens → sends t x w ≡ false
  spent-sends t (vault_call op) w h = refl
  spent-sends t (forward now input) (s, sent) h = elim (Bool-cases (input.retrieval_token == t)) [
    | inr other ↦ rw other refl
    | inl same ↦
        let token = (eq_iff input.retrieval_token t).0 same in
        let quiet =
          spent-forward_via_vault c net now input s sent
            (subst (λ (u : String). IsSpent u s.tokens) (sym token) h) in
        let still : ltb (length sent) (length (forward_via_vault c net now input (s, sent)).1.1)
            ≡ false =
          rw quiet (ground arith) in
        rw (same, still) refl
  ]

  spent-send_count :
      (t : String) (calls : List Call) (w : Wired) → IsSpent t w.0.tokens → send_count t calls w ≡ 0
  spent-send_count t [] w h = refl
  spent-send_count t (x ∷ calls) w h =
      rw (spent-sends t x w h)
        (omega (arith, spent-send_count t calls (call x w) (call-IsSpent t x w h)))

  forward_via_vault-throws :
      (now : ℕ) (input : ProxyInput) (s s' : Db) (sent : List OutRequest) (consumed : ConsumeResult)
      (e : Thrown)
      → MayForward net input
      → consume_retrieval_token c now input.retrieval_token (consume_context input) s
        ≡ (ok consumed, s')
      → Unfillable input consumed e
      → forward_via_vault c net now input (s, sent) ≡ (throw e, (s', sent))
  unfolding forward_via_vault forward_to
  forward_via_vault-throws now input s s' sent consumed e (method, url, parsed, https) h bad =
      elim bad [
        | inl headers_fail ↦
            rw (method, parsed, https, h, headers_fail, forward_via_vault, forward_to) refl
        | inr (headers, filled, body_fails) ↦
            rw (method, parsed, https, h, filled, body_fails, forward_via_vault, forward_to) refl
      ]

  -- A token is consumed before the templates are filled in. Where a request may be forwarded and its
  -- token is consumed, but the templates of its headers or its body cannot be filled in, the error
  -- goes to the caller, nothing is sent and the vault is left as the consumption left it, so that no
  -- forwarding is audited. The token is spent, and nothing is ever sent on its behalf, whatever
  -- retries, stores, mints and consumptions follow. No two rows of the token table share a token.
  pub forward_via_vault-wasted :
      (now : ℕ) (input : ProxyInput) (s s' : Db) (sent : List OutRequest) (consumed : ConsumeResult)
      (e : Thrown) (calls : List Call)
      → IsUnique s.tokens
      → MayForward net input
      → consume_retrieval_token c now input.retrieval_token (consume_context input) s
        ≡ (ok consumed, s')
      → Unfillable input consumed e
      → (forward_via_vault c net now input (s, sent) ≡ (throw e, (s', sent)))
        × IsSpent input.retrieval_token s'.tokens
        × (send_count input.retrieval_token calls (s', sent) ≡ 0)
  forward_via_vault-wasted now input s s' sent consumed e calls u may h bad =
      let released : is_ok
            (consume_retrieval_token c now input.retrieval_token (consume_context input) s).0
          ≡ true =
        rw h refl in
      let spent : IsSpent input.retrieval_token s'.tokens =
        subst (λ (t : Db). IsSpent input.retrieval_token t.tokens)
          (ap (λ (q : Outcome ConsumeResult × Db). q.1) h)
          (consume-IsSpent c now input.retrieval_token (consume_context input) s u released) in
      (
        forward_via_vault-throws now input s s' sent consumed e may h bad,
        spent,
        spent-send_count input.retrieval_token calls (s', sent) spent,
      )
