-- ===== src/Pay/Orchestration/Frame.antt =====
-- What a payment cannot disturb: a property of the state that its elementary steps keep.
use karta_cards_vera.Common.{
  ℕ, ◌≡◌, refl, String, some, [], ◌∷◌, ◌++◌, Bool, true, false, concat, or_else, Bool-cases, inl,
  inr,
}
use karta_cards_vera.Core.Error.{Thrown}
use karta_cards_vera.Core.Exec.{ok, Outcome-cases}
use karta_cards_vera.Pay.StateMachine.{TransactionStatus, status_eq, pending}
use karta_cards_vera.Pay.Realtime.{SseBus, SseEventType, charged_data, no_data}
use karta_cards_vera.Pay.Db.{Transaction, PaymentMethod, ChargeResult, Call, PayDb}
use karta_cards_vera.Pay.Transactions.{update_status}
use karta_cards_vera.Pay.Transactions.Status.{KeepsId}
use karta_cards_vera.Pay.Arqc.{Kdf, generate_arqc, validate_arqc}
use karta_cards_vera.Pay.Orchestration.{
  Services, OrchestratePostAuthInput, publish, fail, arqc_step, tokenise_step, complete_step,
  refused_step, give_up, authn_step, not_vaulted, arqc_input, mint_request, payment_method_request,
  message_of,
}

abbrev pub is_charge : Call → Bool
is_charge (Call.charge r) = true
is_charge _ = false

-- Kept by the bus, by calls other than charges, and by changes of status of one row.
pub record Closed (id : String) (P : PayDb → Type 0) : Type 0 where
  pub on_bus : (s : PayDb) (b : SseBus) → P s → P (record s { bus = b })
  pub on_call :
      (s : PayDb) (c : Call)
      → is_charge c ≡ false
      → P s
      → P (record s { calls = s.calls ++ c ∷ [] })
  pub on_update :
      (now : ℕ) (to : TransactionStatus) (extra : Transaction → Transaction) (s : PayDb)
      → status_eq to pending ≡ false
      → KeepsId extra
      → P s
      → P (update_status now id to extra s).1

-- The effect of a change of status, with its outcome.
module _ (P : PayDb → Type 0) (now : ℕ) (id : String) (c : Closed id P) where
  pub fail-keeps : (rlid reason : String) (s : PayDb) → P s → P (fail now id rlid reason s).1
  unfolding fail publish
  fail-keeps rlid reason s h =
      let patch : Transaction → Transaction = λ t. record t { failure_reason = some reason } in
      let moved = c.on_update now TransactionStatus.failed patch s refl (λ t. refl) h in
      elim (Outcome-cases (update_status now id TransactionStatus.failed patch s).0) [
        | inl (t, e) ↦ rw (e, fail) (c.on_bus _ _ moved)
        | inr (err, e) ↦ rw (e, fail) (c.on_bus _ _ moved)
      ]

  fail-ok : (rlid reason : String) (s : PayDb) → (fail now id rlid reason s).0 ≡ ok tt
  unfolding fail publish
  fail-ok rlid reason s =
      elim (Outcome-cases
        (update_status now id TransactionStatus.failed
          (λ t. record t { failure_reason = some reason }) s).0) [
            | inl (t, e) ↦ rw (e, fail) refl
            | inr (err, e) ↦ rw (e, fail) refl
          ]

module _ (P : PayDb → Type 0) (now : ℕ) (k : Kdf) (v : Services) (input : OrchestratePostAuthInput)
    (txn : Transaction) (c : Closed txn.id P) where
  pub arqc_step-keeps : (bin : String) (s : PayDb) → P s → P (arqc_step now k v input txn bin s).1
  unfolding arqc_step publish
  arqc_step-keeps bin s h =
      let called = c.on_call s (Call.increment_atc txn.card_id) refl h in
      elim (Outcome-cases (v.increment_atc txn.card_id s.calls)) [
        | inr (err, e) ↦ rw (e, arqc_step) called
        | inl (atc, e) ↦ elim (Outcome-cases (generate_arqc k (arqc_input txn bin atc))) [
          | inr (err, e') ↦ rw (e, e', arqc_step) called
          | inl (arqc, e') ↦ elim (Outcome-cases (validate_arqc k (arqc_input txn bin atc) arqc)) [
            | inr (err, e'') ↦ rw (e, e', e'', arqc_step) called
            | inl (valid, e'') ↦ elim (Bool-cases valid) [
              | inr bad ↦ rw (e, e', e'', bad, arqc_step) called
              | inl good ↦
                  let s' : PayDb = record s {
                    calls = s.calls ++ Call.increment_atc txn.card_id ∷ [];
                  } in
                  let patch : Transaction → Transaction =
                    λ t. record t { arqc = some arqc; atc_used = some atc } in
                  let moved =
                    c.on_update now TransactionStatus.arqc_valid patch s' refl (λ t. refl) called in
                  elim (Outcome-cases
                    (update_status now txn.id TransactionStatus.arqc_valid patch s').0) [
                      | inr (err, u) ↦ rw (e, e', e'', good, u, arqc_step) moved
                      | inl (t, u) ↦ rw (e, e', e'', good, u, arqc_step) (c.on_bus _ _ moved)
                    ]
            ]
          ]
        ]
      ]

  pub tokenise_step-keeps :
      (entry : String) (s : PayDb) → P s → P (tokenise_step now k v input txn entry s).1
  unfolding tokenise_step publish
  tokenise_step-keeps entry s h =
      let mint = mint_request input txn entry in
      let s' : PayDb = record s { calls = s.calls ++ Call.mint_token mint ∷ [] } in
      let called = c.on_call s (Call.mint_token mint) refl h in
      elim (Outcome-cases (v.mint_token mint s.calls)) [
        | inr (err, e) ↦ rw (e, tokenise_step) called
        | inl (token, e) ↦
            let call = payment_method_request txn token in
            let s'' : PayDb = record s' {
              calls = s'.calls ++ Call.create_payment_method call ∷ [];
            } in
            let called' = c.on_call s' (Call.create_payment_method call) refl called in
            elim (Outcome-cases (v.create_payment_method call s'.calls)) [
              | inr (err, e') ↦ rw (e, e', tokenise_step) called'
              | inl (pm, e') ↦
                  let patch : Transaction → Transaction = λ t. record t {
                    provider_name = some v.provider_name;
                    provider_payment_method_id = some pm.provider_payment_method_id;
                  } in
                  let moved =
                    c.on_update now TransactionStatus.vault_retrieved patch s'' refl (λ t. refl)
                      called' in
                  elim (Outcome-cases
                    (update_status now txn.id TransactionStatus.vault_retrieved patch s'').0) [
                      | inr (err, u) ↦ rw (e, e', u, tokenise_step) moved
                      | inl (t, u) ↦ rw (e, e', u, tokenise_step) (c.on_bus _ _ moved)
                    ]
            ]
      ]

  pub complete_step-keeps :
      (pm : PaymentMethod) (charge : ChargeResult) (s : PayDb)
      → P s
      → P (complete_step now k v input txn pm charge s).1
  unfolding complete_step publish
  complete_step-keeps pm charge s h =
      let patch : Transaction → Transaction =
        λ t. record t { provider_txn_id = some charge.provider_txn_id } in
      let moved = c.on_update now TransactionStatus.stripe_charged patch s refl (λ t. refl) h in
      elim (Outcome-cases (update_status now txn.id TransactionStatus.stripe_charged patch s).0) [
        | inr (err, e) ↦ rw (e, complete_step) moved
        | inl (t, e) ↦
            let s' = (update_status now txn.id TransactionStatus.stripe_charged patch s).1 in
            let s'' =
              (publish now txn.rlid SseEventType.charged (charged_data charge.provider_txn_id)
                s').1 in
            let last : Transaction → Transaction = λ t. record t { actual_tier = some txn.tier } in
            let moved' =
              c.on_update now TransactionStatus.completed last s'' refl (λ t. refl)
                (c.on_bus _ _ moved) in
            elim (Outcome-cases (update_status now txn.id TransactionStatus.completed last s'').0) [
              | inr (err, e') ↦ rw (e, e', complete_step) moved'
              | inl (t', e') ↦ rw (e, e', complete_step) (c.on_bus _ _ moved')
            ]
      ]

  pub refused_step-keeps :
      (pm : PaymentMethod) (charge : ChargeResult) (s : PayDb)
      → P s
      → P (refused_step now k v input txn pm charge s).1
  unfolding refused_step
  refused_step-keeps pm charge s h =
      let reason = concat "provider_charge_failed: " (or_else charge.error "unknown") in
      rw (fail-ok P now txn.id c txn.rlid reason s, refused_step)
        (fail-keeps P now txn.id c txn.rlid reason s h)

  pub authn_step-keeps : (s : PayDb) → P s → P (authn_step now k v input txn s).1
  unfolding authn_step publish
  authn_step-keeps s h =
      let patch : Transaction → Transaction =
        λ t. record t { used_credential_id = some input.used_credential_id } in
      let moved = c.on_update now TransactionStatus.authn_started patch s refl (λ t. refl) h in
      elim (Outcome-cases (update_status now txn.id TransactionStatus.authn_started patch s).0) [
        | inr (err, e) ↦ rw (e, authn_step) moved
        | inl (t, e) ↦
            let s' = (update_status now txn.id TransactionStatus.authn_started patch s).1 in
            let s'' = (publish now txn.rlid SseEventType.authn_started no_data s').1 in
            let moved' =
              c.on_update now TransactionStatus.authn_complete (λ t. t) s'' refl (λ t. refl)
                (c.on_bus _ _ moved) in
            elim (Outcome-cases
              (update_status now txn.id TransactionStatus.authn_complete (λ t. t) s'').0) [
                | inr (err, e') ↦ rw (e, e', authn_step) moved'
                | inl (t', e') ↦ rw (e, e', authn_step) (c.on_bus _ _ moved')
              ]
      ]

  pub give_up-keeps : (e : Thrown) (s : PayDb) → P s → P (give_up now k v input txn e s).1
  unfolding give_up
  give_up-keeps e s h =
      rw (fail-ok P now txn.id c txn.rlid (message_of e) s, give_up)
        (fail-keeps P now txn.id c txn.rlid (message_of e) s h)

  pub not_vaulted-keeps : (s : PayDb) → P s → P (not_vaulted now k v input txn s).1
  unfolding not_vaulted
  not_vaulted-keeps s h =
      rw (fail-ok P now txn.id c txn.rlid "card_not_vaulted" s, not_vaulted)
        (fail-keeps P now txn.id c txn.rlid "card_not_vaulted" s h)
