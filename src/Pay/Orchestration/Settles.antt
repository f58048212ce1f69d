-- ===== src/Pay/Orchestration/Settles.antt =====
-- A payment that was started ends: completed or failed, whatever the services outside answer.
use karta_cards_vera.Common.{
  ℕ, ◌≡◌, refl, sym, subst, String, Option, none, some, List, [], ◌∷◌, ◌++◌, true, arith, eq_iff,
  ◌⊎◌, inl, inr, or_else, concat, Bool-cases,
}
use karta_cards_vera.Core.Error.{Thrown}
use karta_cards_vera.Core.Exec.{ok, Outcome-cases}
use karta_cards_vera.Core.Hoare.{Ends, Ends-ok, Ends-throw}
use karta_cards_vera.Pay.StateMachine.{TransactionStatus, can_transition}
use karta_cards_vera.Pay.Realtime.{SseEventType, charged_data, no_data}
use karta_cards_vera.Pay.Db.{
  Transaction, PaymentMethod, ChargeResult, Call, PayDb, find_transaction,
}
use karta_cards_vera.Pay.Transactions.{truthy}
use karta_cards_vera.Pay.Transactions.Status.{status_of, status_of-some, update_status-moves}
use karta_cards_vera.Pay.Arqc.{Kdf, generate_arqc, validate_arqc}
use karta_cards_vera.Pay.Orchestration.{
  Services, OrchestratePostAuthInput, OrchestratePostAuthResult, publish, fail, arqc_step,
  tokenise_step, complete_step, refused_step, charge_step, pay, give_up, authn_step, not_vaulted,
  settle, post_auth, orchestrate_post_auth, arqc_input, mint_request, payment_method_request,
  charge_request, message_of,
}

-- The row with the id has this status.
abbrev pub At : String → TransactionStatus → PayDb → Type 0
At id a s = status_of id s ≡ some a

-- The row with the id can still fail.
abbrev pub Live : String → Thrown → PayDb → Type 0
Live id e s =
    (a : TransactionStatus) × (At id a s) × (can_transition a TransactionStatus.failed ≡ true)

-- An answer with the row at the status that it names, completed or failed.
abbrev pub Settled : String → OrchestratePostAuthResult → PayDb → Type 0
Settled id r s =
    (At id r.status s)
    × ((r.status ≡ TransactionStatus.completed) ⊎ (r.status ≡ TransactionStatus.failed))

fail-At :
    (now : ℕ) (id rlid reason : String) (a : TransactionStatus) (s : PayDb)
    → can_transition a TransactionStatus.failed ≡ true
    → At id a s
    → (s' : PayDb) × (fail now id rlid reason s ≡ (ok tt, s')) × At id TransactionStatus.failed s'
unfolding fail publish
fail-At now id rlid reason a s live h =
    let (t, s', e, is_failed, at) =
      update_status-moves now id a TransactionStatus.failed
        (λ t. record t { failure_reason = some reason }) s (λ t. refl) live h in
    ((fail now id rlid reason s).1, rw (e, fail) refl, rw (e, fail) at)

module _ (now : ℕ) (k : Kdf) (v : Services) (input : OrchestratePostAuthInput)
    (txn : Transaction) where
  refused_step-At :
      (pm : PaymentMethod) (charge : ChargeResult) (s : PayDb)
      → At txn.id TransactionStatus.vault_retrieved s
      → Ends (Settled txn.id) (Live txn.id) (refused_step now k v input txn pm charge s)
  unfolding refused_step can_transition
  refused_step-At pm charge s h =
      let reason = concat "provider_charge_failed: " (or_else charge.error "unknown") in
      let (s', e, at) =
        fail-At now txn.id txn.rlid reason TransactionStatus.vault_retrieved s refl h in
      rw (e, refused_step) (at, inr refl)

  complete_step-At :
      (pm : PaymentMethod) (charge : ChargeResult) (s : PayDb)
      → At txn.id TransactionStatus.vault_retrieved s
      → Ends (Settled txn.id) (Live txn.id) (complete_step now k v input txn pm charge s)
  unfolding complete_step can_transition publish
  complete_step-At pm charge s h =
      let (t, s', e, _, at) =
        update_status-moves now txn.id TransactionStatus.vault_retrieved
          TransactionStatus.stripe_charged
          (λ t. record t { provider_txn_id = some charge.provider_txn_id }) s (λ t. refl) refl h in
      let s'' =
        (publish now txn.rlid SseEventType.charged (charged_data charge.provider_txn_id) s').1 in
      let (t', _, e', is_completed, at') =
        update_status-moves now txn.id TransactionStatus.stripe_charged TransactionStatus.completed
          (λ t. record t { actual_tier = some txn.tier }) s'' (λ t. refl) refl at in
      rw (e, e', complete_step) (rw is_completed at', inl is_completed)

  charge_step-At :
      (pm : PaymentMethod) (s : PayDb)
      → At txn.id TransactionStatus.vault_retrieved s
      → Ends (Settled txn.id) (Live txn.id) (charge_step now k v input txn pm s)
  unfolding charge_step can_transition complete_step refused_step
  charge_step-At pm s h =
      let call = charge_request txn pm in
      let s' : PayDb = record s { calls = s.calls ++ Call.charge call ∷ [] } in
      elim (Outcome-cases (v.charge call s.calls)) [
        | inr (err, e) ↦ rw (e, charge_step) (_, h, refl)
        | inl (r, e) ↦ elim (Bool-cases r.succeeded) [
          | inl good ↦ rw (e, good, charge_step) (complete_step-At pm r s' h)
          | inr bad ↦ rw (e, bad, charge_step) (refused_step-At pm r s' h)
        ]
      ]

  arqc_step-At :
      (bin : String) (s : PayDb)
      → At txn.id TransactionStatus.authn_complete s
      → Ends
          (λ (x : Unit {0}). At txn.id TransactionStatus.arqc_valid)
          (Live txn.id)
          (arqc_step now k v input txn bin s)
  unfolding arqc_step can_transition publish
  arqc_step-At bin s h = elim (Outcome-cases (v.increment_atc txn.card_id s.calls)) [
    | inr (err, e) ↦ rw (e, arqc_step) (_, h, refl)
    | inl (atc, e) ↦ elim (Outcome-cases (generate_arqc k (arqc_input txn bin atc))) [
      | inr (err, e') ↦ rw (e, e', arqc_step) (_, h, refl)
      | inl (arqc, e') ↦ elim (Outcome-cases (validate_arqc k (arqc_input txn bin atc) arqc)) [
        | inr (err, e'') ↦ rw (e, e', e'', arqc_step) (_, h, refl)
        | inl (valid, e'') ↦ elim (Bool-cases valid) [
          | inr bad ↦ rw (e, e', e'', bad, arqc_step) (_, h, refl)
          | inl good ↦
              let s' : PayDb = record s {
                calls = s.calls ++ Call.increment_atc txn.card_id ∷ [];
              } in
              let (t, s'', moved, _, at) =
                update_status-moves now txn.id TransactionStatus.authn_complete
                  TransactionStatus.arqc_valid
                  (λ t. record t { arqc = some arqc; atc_used = some atc }) s' (λ t. refl) refl h in
              rw (e, e', e'', good, moved, arqc_step) at
        ]
      ]
    ]
  ]

  tokenise_step-At :
      (entry : String) (s : PayDb)
      → At txn.id TransactionStatus.arqc_valid s
      → Ends
          (λ (pm : PaymentMethod). At txn.id TransactionStatus.vault_retrieved)
          (Live txn.id)
          (tokenise_step now k v input txn entry s)
  unfolding tokenise_step can_transition publish
  tokenise_step-At entry s h =
      let mint = mint_request input txn entry in
      let s' : PayDb = record s { calls = s.calls ++ Call.mint_token mint ∷ [] } in
      elim (Outcome-cases (v.mint_token mint s.calls)) [
        | inr (err, e) ↦ rw (e, tokenise_step) (_, h, refl)
        | inl (token, e) ↦
            let call = payment_method_request txn token in
            elim (Outcome-cases (v.create_payment_method call s'.calls)) [
              | inr (err, e') ↦ rw (e, e', tokenise_step) (_, h, refl)
              | inl (pm, e') ↦
                  let s'' : PayDb = record s' {
                    calls = s'.calls ++ Call.create_payment_method call ∷ [];
                  } in
                  let (t, _, moved, _, at) =
                    update_status-moves now txn.id TransactionStatus.arqc_valid
                      TransactionStatus.vault_retrieved
                      (λ t. record t {
                        provider_name = some v.provider_name;
                        provider_payment_method_id = some pm.provider_payment_method_id;
                      })
                      s'' (λ t. refl) refl h in
                  rw (e, e', moved, tokenise_step) at
            ]
      ]

  pay-At :
      (entry bin : String) (s : PayDb)
      → At txn.id TransactionStatus.authn_complete s
      → Ends (Settled txn.id) (Live txn.id) (pay now k v input txn entry bin s)
  unfolding pay
  pay-At entry bin s h =
      let crypted = arqc_step-At bin s h in
      elim (Outcome-cases (arqc_step now k v input txn bin s).0) [
        | inr (err, e) ↦ rw (e, pay) (Ends-throw _ _ _ err crypted e)
        | inl (x, e) ↦
            let s' = (arqc_step now k v input txn bin s).1 in
            let tokenised = tokenise_step-At entry s' (Ends-ok _ _ _ x crypted e) in
            elim (Outcome-cases (tokenise_step now k v input txn entry s').0) [
              | inr (err, e') ↦ rw (e, e', pay) (Ends-throw _ _ _ err tokenised e')
              | inl (pm, e') ↦
                  rw (e, e', pay)
                    (charge_step-At pm (tokenise_step now k v input txn entry s').1
                      (Ends-ok _ _ _ pm tokenised e'))
            ]
      ]

  settle-At :
      (entry bin : String) (s : PayDb)
      → At txn.id TransactionStatus.pending s
      → Ends
          (Settled txn.id)
          (λ e. At txn.id TransactionStatus.failed)
          (settle now k v input txn entry bin s)
  unfolding settle authn_step give_up can_transition publish
  settle-At entry bin s h =
      let (_, s', e, _, at) =
        update_status-moves now txn.id TransactionStatus.pending TransactionStatus.authn_started
          (λ t. record t { used_credential_id = some input.used_credential_id }) s (λ t. refl) refl
          h in
      let s'' = (publish now txn.rlid SseEventType.authn_started no_data s').1 in
      let (_, t, e', _, at') =
        update_status-moves now txn.id TransactionStatus.authn_started
          TransactionStatus.authn_complete (λ t. t) s'' (λ t. refl) refl at in
      let t' = (publish now txn.rlid SseEventType.authn_complete no_data t).1 in
      let paid = pay-At entry bin t' at' in
      elim (Outcome-cases (pay now k v input txn entry bin t').0) [
        | inl (r, ends) ↦ rw (e, e', ends, settle) (Ends-ok _ _ _ r paid ends)
        | inr (err, ends) ↦
            let (a, left, live) = Ends-throw _ _ _ err paid ends in
            let (_, gave_up, at'') =
              fail-At now txn.id txn.rlid (message_of err) a (pay now k v input txn entry bin t').1
                live left in
            rw (e, e', ends, gave_up, settle) at''
      ]

  not_vaulted-At :
      (s : PayDb)
      → At txn.id TransactionStatus.pending s
      → Ends
          (Settled txn.id)
          (λ e. At txn.id TransactionStatus.failed)
          (not_vaulted now k v input txn s)
  unfolding not_vaulted can_transition
  not_vaulted-At s h =
      let (_, e, at) =
        fail-At now txn.id txn.rlid "card_not_vaulted" TransactionStatus.pending s refl h in
      rw (e, not_vaulted) at

  post_auth-At :
      (entry bin : Option String) (s : PayDb)
      → At txn.id TransactionStatus.pending s
      → Ends
          (Settled txn.id)
          (λ e. At txn.id TransactionStatus.failed)
          (post_auth now k v input txn entry bin s)
  unfolding post_auth
  post_auth-At none bin s h = not_vaulted-At s h
  post_auth-At (some entry) none s h = not_vaulted-At s h
  post_auth-At (some entry) (some bin) s h = settle-At entry bin s h

pub find-id :
    (id : String) (rows : List Transaction) (t : Transaction)
    → find_transaction id rows ≡ some t
    → t.id ≡ id
unfolding find_transaction
find-id id [] t h = cc
find-id id (r ∷ rows) t h = ground (arith, find-id id rows t, eq_iff r.id id)

-- A payment started on a pending transaction settles it, whatever the services outside answer: if
-- an answer comes back, the row has the status in the answer, completed or failed; if an error
-- comes back, the row is failed.
pub orchestrate-Settled :
    (now : ℕ) (k : Kdf) (v : Services) (input : OrchestratePostAuthInput) (s : PayDb)
    → status_of input.transaction_id s ≡ some TransactionStatus.pending
    → Ends
        (Settled input.transaction_id)
        (λ e s'. status_of input.transaction_id s' ≡ some TransactionStatus.failed)
        (orchestrate_post_auth now k v input s)
unfolding orchestrate_post_auth
orchestrate-Settled now k v input s h =
    let (txn, found, _) = status_of-some input.transaction_id s TransactionStatus.pending h in
    let same = find-id input.transaction_id s.transactions txn found in
    rw (found, orchestrate_post_auth)
      (subst
        (λ (id : String).
          Ends (Settled id) (λ e s'. status_of id s' ≡ some TransactionStatus.failed)
            (post_auth now k v input txn (truthy txn.vault_entry_id) (truthy txn.pan_bin) s))
        same
        (post_auth-At now k v input txn (truthy txn.vault_entry_id) (truthy txn.pan_bin) s
          (subst (λ (id : String). status_of id s ≡ some TransactionStatus.pending) (sym same) h)))
