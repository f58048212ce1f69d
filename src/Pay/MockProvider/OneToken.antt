-- ===== src/Pay/MockProvider/OneToken.antt =====
-- The provider on top of the vault, used side by side: one retrieval token, one payment method.
use karta_cards_vera.Common.{
  ℕ, ◌≡◌, refl, ap, sym, subst, ◌∙◌, String, concat, some, true, not, List, [], ◌∷◌, ◌==◌, eq_iff,
  lookup, insert, lookup-insert, lookup-insert_other, Bool-cases, ◌⊎◌, inl, inr, arith,
}
use karta_cards_vera.Core.Exec.{Outcome-cases, ok}
use karta_cards_vera.Vault.Db.{Db}
use karta_cards_vera.Vault.Store.{Crypto}
use karta_cards_vera.Vault.Retrieval.Tokens.{IsUnique}
use karta_cards_vera.Vault.Retrieval.Frame.{is_ok, IsSpent}
use karta_cards_vera.Vault.Retrieval.SingleUse.{release-IsSpent}
use karta_cards_vera.Pay.Db.{PaymentMethodRequest, PaymentMethod, ChargeRequest}
use karta_cards_vera.Pay.MockProvider.{
  Methods, MockMethod, consume_input, method_of, create_payment_method, is_negative, charge,
}
use karta_cards_vera.Pay.MockProvider.Created.{
  vault_consume, sign-cases, created-consumed, consume-spends, create_payment_method-state,
}
use karta_cards_vera.Pay.MockProvider.Calls.{
  Call, vault_call, create, call, call_all, uses, use_count, call-IsSpent, call-IsUnique,
  call_all-IsUnique, spent-create, spent-use_count,
}

module _ (c : Crypto) where
  -- A use spends its token.
  create-IsSpent :
      (now : ℕ) (pm_id : String) (input : PaymentMethodRequest) (pms : Methods) (s : Db)
      → IsUnique s.tokens
      → is_ok (create_payment_method (vault_consume c now) pm_id input (pms, s)).0 ≡ true
      → IsSpent input.retrieval_token
          (create_payment_method (vault_consume c now) pm_id input (pms, s)).1.1.tokens
  create-IsSpent now pm_id input pms s u made =
      let made_of = create_payment_method (vault_consume c now) pm_id input (pms, s) in
      elim (Outcome-cases made_of.0) [
        | inr (e, x) ↦ cc (rw x at made)
        | inl (pm, x) ↦
            let (r, done, named, stored) =
              created-consumed (vault_consume c now) pm_id input pms s pm made_of.1.0 made_of.1.1
                (ap (λ o. (o, made_of.1)) x) in
            consume-spends c now (consume_input input) s made_of.1.1 r u done
      ]

  uses-IsSpent :
      (t : String) (x : Call) (st : Methods × Db)
      → IsUnique st.1.tokens
      → uses c t x st ≡ true
      → IsSpent t (call c x st).1.tokens
  uses-IsSpent t (vault_call op) (pms, s) u h = release-IsSpent c t op s u h
  uses-IsSpent t (create now pm_id input) (pms, s) u h =
      elim (Bool-cases (input.retrieval_token == t)) [
        | inr other ↦ cc (rw other at h)
        | inl same ↦
            subst (λ (v : String). IsSpent v (call c (create now pm_id input) (pms, s)).1.tokens)
              ((eq_iff input.retrieval_token t).0 same)
              (create-IsSpent now pm_id input pms s u (rw same at h))
      ]

  -- After any calls, a token is unused, or spent.
  unused-or-IsSpent :
      (t : String) (calls : List Call) (st : Methods × Db)
      → IsUnique st.1.tokens
      → (use_count c t calls st ≡ 0) ⊎ IsSpent t (call_all c calls st).1.tokens
  unused-or-IsSpent t [] st u = inl refl
  unused-or-IsSpent t (x ∷ calls) st u = elim (Bool-cases (uses c t x st)) [
    | inl used ↦ inr (spent-call_all calls (call c x st) (uses-IsSpent t x st u used))
    | inr idle ↦ elim (unused-or-IsSpent t calls (call c x st) (call-IsUnique c x st u)) [
      | inr spent ↦ inr spent
      | inl none_later ↦ inl (rw idle (omega (arith, none_later)))
    ]
  ]
    where
      spent-call_all :
          (calls : List Call) (st : Methods × Db)
          → IsSpent t st.1.tokens
          → IsSpent t (call_all c calls st).1.tokens
      spent-call_all [] st h = h
      spent-call_all (x ∷ calls) st h = spent-call_all calls (call c x st) (call-IsSpent c t x st h)

  -- A payment method that was made stays chargeable.
  abbrev Chargeable : String → Methods → Type 0
  Chargeable id pms = (m : MockMethod) × (lookup id pms ≡ some m)

  insert-Chargeable :
      (id other : String) (m : MockMethod) (pms : Methods)
      → Chargeable id pms
      → Chargeable id (insert other m pms)
  insert-Chargeable id other m pms (kept, h) = elim (Bool-cases (other == id)) [
    | inl same ↦ (m, rw same refl)
    | inr apart ↦ (
      kept,
      lookup-insert_other id other m pms (λ e. cc (apart, (eq_iff other id).1 (sym e))) ∙ h,
    )
  ]

  call-Chargeable :
      (id : String) (x : Call) (st : Methods × Db)
      → Chargeable id st.0
      → Chargeable id (call c x st).0
  call-Chargeable id (vault_call op) (pms, s) h = h
  call-Chargeable id (create now pm_id input) (pms, s) h =
      elim (create_payment_method-state c now pm_id input pms s).1 [
        | inl same ↦ subst (Chargeable id) (sym same) h
        | inr (other, m, more) ↦
            subst (Chargeable id) (sym more) (insert-Chargeable id other m pms h)
      ]

  call_all-Chargeable :
      (id : String) (calls : List Call) (st : Methods × Db)
      → Chargeable id st.0
      → Chargeable id (call_all c calls st).0
  call_all-Chargeable id [] st h = h
  call_all-Chargeable id (x ∷ calls) st h =
      call_all-Chargeable id calls (call c x st) (call-Chargeable id x st h)

  charge-Chargeable :
      (tx_id : String) (order : ChargeRequest) (pms : Methods)
      → Chargeable order.provider_payment_method_id pms
      → (charge tx_id order pms).succeeded ≡ not (is_negative order.amount)
  unfolding charge
  charge-Chargeable tx_id order pms (m, kept) = elim (sign-cases order.amount) [
    | inl (n, x) ↦ rw (kept, x, charge) refl
    | inr (n, x) ↦ rw (kept, x, charge) refl
  ]

  -- When the provider makes a payment method of a retrieval token, the token was used in no call
  -- before and is used in no call c after: neither the vault hands its card out to any other
  -- consumption nor is another payment method made of it, whatever stores, mints, consumptions and
  -- creations are interleaved, with any amounts, currencies and times. After all of them a charge to
  -- the method succeeds exactly where its amount is not negative. The token table starts with no
  -- two rows of one token.
  pub create_payment_method-once :
      (before after : List Call) (now : ℕ) (pm_id tx_id : String) (input : PaymentMethodRequest)
      (order : ChargeRequest) (start st : Methods × Db) (pm : PaymentMethod)
      → IsUnique start.1.tokens
      → order.provider_payment_method_id ≡ pm.provider_payment_method_id
      → create_payment_method (vault_consume c now) pm_id input (call_all c before start)
        ≡ (ok pm, st)
      → (use_count c input.retrieval_token before start ≡ 0)
        × (use_count c input.retrieval_token after st ≡ 0)
        × ((charge tx_id order (call_all c after st).0).succeeded ≡ not (is_negative order.amount))
  create_payment_method-once before after now pm_id tx_id input order start (pms', s') pm u to h =
      let (r, done, named, stored) =
        created-consumed (vault_consume c now) pm_id input (call_all c before start).0
          (call_all c before start).1 pm pms' s' h in
      let unique = call_all-IsUnique c before start u in
      let spent =
        consume-spends c now (consume_input input) (call_all c before start).1 s' r unique done in
      let kept : lookup order.provider_payment_method_id pms' ≡ some (method_of r) =
        rw (to, named, stored)
          (lookup-insert (concat "pm_mock_" pm_id) (method_of r) (call_all c before start).0) in
      (
        elim (unused-or-IsSpent input.retrieval_token before start u) [
          | inl idle ↦ idle
          | inr used ↦
              let refused =
                spent-create c input.retrieval_token now pm_id input (call_all c before start).0
                  (call_all c before start).1 refl used in
              cc (rw h at refused)
        ],
        spent-use_count c input.retrieval_token after (pms', s') spent,
        charge-Chargeable tx_id order (call_all c after (pms', s')).0 (
            call_all-Chargeable order.provider_payment_method_id after (pms', s')
              (method_of r, kept)),
      )
