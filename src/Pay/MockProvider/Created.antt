-- ===== src/Pay/MockProvider/Created.antt =====
-- One payment method made on top of the vault: its consumption, and what it leaves of the two states.
use karta_cards_vera.Common.{
  ℕ, ◌≡◌, refl, ap, sym, ◌∙◌, String, concat, ℤ, pos, negsuc, true, false, insert, ◌⊎◌, inl, inr,
  subst,
}
use karta_cards_vera.Core.Error.{zod}
use karta_cards_vera.Core.Exec.{Outcome, ok, throw, Exec, Outcome-cases}
use karta_cards_vera.Vault.Db.{Db}
use karta_cards_vera.Vault.Store.{Crypto}
use karta_cards_vera.Vault.Retrieval.{ConsumeContext, ConsumeResult, consume_retrieval_token}
use karta_cards_vera.Vault.Retrieval.Tokens.{IsUnique}
use karta_cards_vera.Vault.Retrieval.Frame.{is_ok, IsSpent}
use karta_cards_vera.Vault.Retrieval.SingleUse.{consume, step, consume-IsSpent, spent-consume}
use karta_cards_vera.VaultClient.{ConsumeTokenInput}
use karta_cards_vera.Pay.Db.{PaymentMethodRequest, PaymentMethod}
use karta_cards_vera.Pay.MockProvider.{
  Methods, MockMethod, consume_input, method_of, create_payment_method,
}

-- A consumption asked for with an amount, which the vault's route refuses where it is negative.
abbrev pub vault_consume : Crypto → ℕ → ConsumeTokenInput → Exec Db ConsumeResult
vault_consume c now i s = elim i.expected_amount [
  | negsuc n ↦ (throw zod, s)
  | pos n ↦
      consume_retrieval_token c now i.token
        (record {
          expected_amount = n;
          expected_currency = i.expected_currency;
          by = record { actor = "pay"; purpose = i.purpose; ip = i.ip; ua = i.ua };
          transaction_id = i.transaction_id;
        })
        s
]

pub sign-cases : (z : ℤ) → ((n : ℕ) × (z ≡ pos n)) ⊎ ((n : ℕ) × (z ≡ negsuc n))
sign-cases (pos n) = inl (n, refl)
sign-cases (negsuc n) = inr (n, refl)

-- A payment method comes from a consumption.
pub created-consumed :
    {S : Type 0} (consume_token : ConsumeTokenInput → Exec S ConsumeResult) (pm_id : String)
    (input : PaymentMethodRequest) (pms : Methods) (s : S) (pm : PaymentMethod) (pms' : Methods)
    (s' : S)
    → create_payment_method consume_token pm_id input (pms, s) ≡ (ok pm, (pms', s'))
    → (r : ConsumeResult) × (consume_token (consume_input input) s ≡ (ok r, s'))
      × (pm.provider_payment_method_id ≡ concat "pm_mock_" pm_id)
      × (pms' ≡ insert (concat "pm_mock_" pm_id) (method_of r) pms)
unfolding create_payment_method
created-consumed consume_token pm_id input pms s pm pms' s' h =
    elim (Outcome-cases (consume_token (consume_input input) s).0) [
      | inr (e, x) ↦ cc (rw (x, create_payment_method) at h)
      | inl (r, x) ↦
          let left = (consume_token (consume_input input) s).1 in
          let id = concat "pm_mock_" pm_id in
          let made : PaymentMethod = record {
            provider_payment_method_id = id;
            last4 = r.card.last4;
          } in
          let both : (ok made, (insert id (method_of r) pms, left)) ≡ (ok pm, (pms', s')) =
            rw (x, create_payment_method) at h in
          let same_pm : made ≡ pm = cc both in
          let same_pms : insert id (method_of r) pms ≡ pms' = cc both in
          let same_s : left ≡ s' = cc both in
          (
            r,
            ap (λ o. (o, left)) x ∙ ap (λ (t : _). (ok r, t)) same_s,
            ap (λ (p : PaymentMethod). p.provider_payment_method_id) (sym same_pm),
            sym same_pms,
          )
    ]

module _ (c : Crypto) (now : ℕ) where
  pub consume-spends :
      (i : ConsumeTokenInput) (s s' : Db) (r : ConsumeResult)
      → IsUnique s.tokens
      → vault_consume c now i s ≡ (ok r, s')
      → IsSpent i.token s'.tokens
  consume-spends i s s' r u h = elim (sign-cases i.expected_amount) [
    | inr (n, x) ↦ cc (rw x at h)
    | inl (n, x) ↦
        let ctx : ConsumeContext = record {
          expected_amount = n;
          expected_currency = i.expected_currency;
          by = record { actor = "pay"; purpose = i.purpose; ip = i.ip; ua = i.ua };
          transaction_id = i.transaction_id;
        } in
        let done : consume_retrieval_token c now i.token ctx s ≡ (ok r, s') = rw x at h in
        let released : is_ok (consume_retrieval_token c now i.token ctx s).0 ≡ true =
          rw done refl in
        subst (λ (t : Db). IsSpent i.token t.tokens)
          (ap (λ (q : Outcome ConsumeResult × Db). q.1) done)
          (consume-IsSpent c now i.token ctx s u released)
  ]

  pub spent-refused :
      (i : ConsumeTokenInput) (s : Db)
      → IsSpent i.token s.tokens
      → is_ok (vault_consume c now i s).0 ≡ false
  spent-refused i s h = elim (sign-cases i.expected_amount) [
    | inr (n, x) ↦ rw x refl
    | inl (n, x) ↦ rw x (spent-consume c now i.token _ s h)
  ]

  pub refused-create :
      (pm_id : String) (input : PaymentMethodRequest) (pms : Methods) (s : Db)
      → is_ok (vault_consume c now (consume_input input) s).0 ≡ false
      → is_ok (create_payment_method (vault_consume c now) pm_id input (pms, s)).0 ≡ false
  unfolding create_payment_method
  refused-create pm_id input pms s h =
      elim (Outcome-cases (vault_consume c now (consume_input input) s).0) [
        | inl (r, x) ↦ cc (rw x at h)
        | inr (e, x) ↦ rw (x, create_payment_method) refl
      ]

  -- The vault after a consumption: as it was, or after the vault's own operation.
  pub vault_consume-step :
      (i : ConsumeTokenInput) (s : Db)
      → ((vault_consume c now i s).1 ≡ s)
        ⊎ ((ctx : ConsumeContext) × ((vault_consume c now i s).1
              ≡ step c (consume now i.token ctx) s))
  vault_consume-step i s = elim (sign-cases i.expected_amount) [
    | inr (n, x) ↦ inl (rw x refl)
    | inl (n, x) ↦ inr (
      record {
        expected_amount = n;
        expected_currency = i.expected_currency;
        by = record { actor = "pay"; purpose = i.purpose; ip = i.ip; ua = i.ua };
        transaction_id = i.transaction_id;
      },
      rw x refl,
    )
  ]

  -- The two states after a creation, whatever it answers.
  pub create_payment_method-state :
      (pm_id : String) (input : PaymentMethodRequest) (pms : Methods) (s : Db)
      → ((create_payment_method (vault_consume c now) pm_id input (pms, s)).1.1
          ≡ (vault_consume c now (consume_input input) s).1)
        × (((create_payment_method (vault_consume c now) pm_id input (pms, s)).1.0 ≡ pms)
            ⊎ ((id : String) × (m : MockMethod) × ((create_payment_method
                    (vault_consume c now)
                    pm_id
                    input
                    (pms, s)).1.0
                  ≡ insert id m pms)))
  unfolding create_payment_method
  create_payment_method-state pm_id input pms s =
      elim (Outcome-cases (vault_consume c now (consume_input input) s).0) [
        | inl (r, x) ↦ (
          rw (x, create_payment_method) refl,
          inr (concat "pm_mock_" pm_id, method_of r, rw (x, create_payment_method) refl),
        )
        | inr (e, x) ↦
            (rw (x, create_payment_method) refl, inl (rw (x, create_payment_method) refl))
      ]
