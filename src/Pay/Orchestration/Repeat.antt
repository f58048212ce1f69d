-- ===== src/Pay/Orchestration/Repeat.antt =====
-- services/pay/src/orchestration/post-auth.ts: a payment beside other transactions, and a payment
-- started again.
use karta_cards_vera.Common.{
  ℕ, ◌+◌, ◌≤◌, ◌≡◌, ◌≢◌, refl, sym, ap, subst, ◌∙◌, String, Option, none, some, true, false, ◌⊎◌,
  inl, inr, arith, Bool-cases, Option-cases,
}
use karta_cards_vera.Core.Error.{api, conflict}
use karta_cards_vera.Core.Exec.{Outcome, ok, throw}
use karta_cards_vera.Core.Hoare.{Ends}
use karta_cards_vera.Pay.StateMachine.{
  TransactionStatus, status_eq, pending, can_transition, assert_transition,
}
use karta_cards_vera.Pay.Db.{Transaction, Call, PayDb, find_transaction}
use karta_cards_vera.Pay.Transactions.{update_status, truthy}
use karta_cards_vera.Pay.Transactions.Status.{status_of, status_of-some}
use karta_cards_vera.Pay.Arqc.{Kdf}
use karta_cards_vera.Pay.Orchestration.{
  Services, OrchestratePostAuthInput, OrchestratePostAuthResult, post_auth, settle, authn_step,
  orchestrate_post_auth, charge_request,
}
use karta_cards_vera.Pay.Orchestration.Settles.{find-id, orchestrate-Settled, Settled}
use karta_cards_vera.Pay.Orchestration.Frame.{not_vaulted-keeps}
use karta_cards_vera.Pay.Orchestration.Charge.{post_auth-keeps}
use karta_cards_vera.Pay.Orchestration.Calls.{
  charge_count, Past, charge_count-call, charge_count-charge, Closed-other, Closed-count,
  Closed-Past, other_key,
}

-- A payment for a transaction that is past pending stops at its first transition.
past-transition :
    (a : TransactionStatus)
    → status_eq a pending ≡ false
    → can_transition a TransactionStatus.authn_started ≡ false
unfolding can_transition
past-transition pending h = cc
past-transition TransactionStatus.authn_started h = refl
past-transition TransactionStatus.authn_complete h = refl
past-transition TransactionStatus.arqc_valid h = refl
past-transition TransactionStatus.vault_retrieved h = refl
past-transition TransactionStatus.stripe_charged h = refl
past-transition TransactionStatus.completed h = refl
past-transition TransactionStatus.failed h = refl
past-transition TransactionStatus.expired h = refl

settle-Past :
    (now : ℕ) (k : Kdf) (v : Services) (input : OrchestratePostAuthInput) (txn : Transaction)
    (entry bin : String) (s : PayDb)
    → Past txn.id s
    → settle now k v input txn entry bin s ≡ (throw (api (conflict "illegal_transition" none)), s)
unfolding settle authn_step update_status assert_transition
settle-Past now k v input txn entry bin s (a, is_a, past) =
    let (t, found, same) = status_of-some txn.id s a is_a in
    let refused = past-transition a past in rw (found, same, refused, settle) refl

post_auth-Past :
    (now : ℕ) (k : Kdf) (v : Services) (input : OrchestratePostAuthInput) (txn : Transaction)
    (s : PayDb)
    → Past txn.id s
    → (entry bin : Option String)
    → Past txn.id (post_auth now k v input txn entry bin s).1
      × (charge_count txn.id (post_auth now k v input txn entry bin s).1 ≡ charge_count txn.id s)
unfolding post_auth
post_auth-Past now k v input txn s h none bin =
    not_vaulted-keeps _ now k v input txn (Closed-Past txn.id (charge_count txn.id s)) s (h, refl)
post_auth-Past now k v input txn s h (some entry) none =
    not_vaulted-keeps _ now k v input txn (Closed-Past txn.id (charge_count txn.id s)) s (h, refl)
post_auth-Past now k v input txn s h (some entry) (some bin) =
    rw (settle-Past now k v input txn entry bin s h) (h, refl)

module _ (now : ℕ) (k : Kdf) (v : Services) (input : OrchestratePostAuthInput) (s : PayDb) where
  -- A payment leaves other transactions alone.
  pub orchestrate-other :
      (id : String)
      → id ≢ input.transaction_id
      → (status_of id (orchestrate_post_auth now k v input s).1 ≡ status_of id s)
        × (charge_count id (orchestrate_post_auth now k v input s).1 ≡ charge_count id s)
  unfolding orchestrate_post_auth
  orchestrate-other id apart =
      elim (Option-cases (find_transaction input.transaction_id s.transactions)) [
        | inl missing ↦ rw (missing, orchestrate_post_auth) (refl, refl)
        | inr (txn, found) ↦
            let same = find-id input.transaction_id s.transactions txn found in
            let apart' : id ≢ txn.id = rw same apart in
            let closed = Closed-other id txn.id (status_of id s) (charge_count id s) apart' in
            rw (found, orchestrate_post_auth)
              (post_auth-keeps _ _ now k v input txn closed closed (λ s h. h)
                (λ pm s h. (h.0, charge_count-call id s _ (other_key id txn.id apart') ∙ h.1))
                (truthy txn.vault_entry_id) (truthy txn.pan_bin) s (refl, refl))
      ]

  -- It charges its own at most once.
  orchestrate-charge :
      (id : String)
      → charge_count id (orchestrate_post_auth now k v input s).1 ≤ charge_count id s + 1
  unfolding orchestrate_post_auth
  orchestrate-charge id =
      elim (Option-cases (find_transaction input.transaction_id s.transactions)) [
        | inl missing ↦ rw (missing, orchestrate_post_auth) (omega arith)
        | inr (txn, found) ↦
            rw (found, orchestrate_post_auth)
              (post_auth-keeps (λ t. charge_count id t ≤ charge_count id s)
                (λ t. charge_count id t ≤ charge_count id s + 1) now k v input txn
                (Closed-count id txn.id (charge_count id s))
                (Closed-count id txn.id (charge_count id s + 1)) (λ t h. omega arith)
                (λ pm t h.
                  omega (arith, charge_count-charge id t (Call.charge (charge_request txn pm))))
                (truthy txn.vault_entry_id) (truthy txn.pan_bin) s (omega arith))
      ]

  -- Once a transaction is past pending, a payment makes no charge for it.
  pub orchestrate-Past :
      Past input.transaction_id s
      → Past input.transaction_id (orchestrate_post_auth now k v input s).1
        × (charge_count input.transaction_id (orchestrate_post_auth now k v input s).1
            ≡ charge_count input.transaction_id s)
  unfolding orchestrate_post_auth post_auth
  orchestrate-Past (a, is_a, past) =
      let id = input.transaction_id in
      let (txn, found, same_status) = status_of-some id s a is_a in
      let same = find-id id s.transactions txn found in
      rw (found, orchestrate_post_auth)
        (subst
          (λ (u : String).
            Past u
              (post_auth now k v input txn (truthy txn.vault_entry_id) (truthy txn.pan_bin) s).1
            × (charge_count u
                  (post_auth now k v input txn (truthy txn.vault_entry_id) (truthy txn.pan_bin) s).1
                ≡ charge_count u s))
          same
          (post_auth-Past now k v input txn s
            (subst (λ (u : String). Past u s) (sym same) (a, is_a, past))
            (truthy txn.vault_entry_id) (truthy txn.pan_bin)))

status_eq-pending : (a : TransactionStatus) → status_eq a pending ≡ true → a ≡ pending
status_eq-pending a h = ground arith

-- A payment that settled left pending.
Settled-Past :
    (id : String) (r : Outcome OrchestratePostAuthResult × PayDb)
    → Ends (Settled id) (λ e s. status_of id s ≡ some TransactionStatus.failed) r
    → Past id r.1
Settled-Past id (ok a, s) (at, inl is_completed) = (a.status, at, rw is_completed refl)
Settled-Past id (ok a, s) (at, inr is_failed) = (a.status, at, rw is_failed refl)
Settled-Past id (throw e, s) at = (TransactionStatus.failed, at, refl)

-- A payment of a transaction, whatever its status.
pub orchestrate-step :
    (now : ℕ) (k : Kdf) (v : Services) (input : OrchestratePostAuthInput) (s : PayDb)
    → (charge_count input.transaction_id (orchestrate_post_auth now k v input s).1
        ≡ charge_count input.transaction_id s)
      ⊎ (Past input.transaction_id (orchestrate_post_auth now k v input s).1
          × (charge_count input.transaction_id (orchestrate_post_auth now k v input s).1
              ≤ charge_count input.transaction_id s + 1))
unfolding orchestrate_post_auth
orchestrate-step now k v input s =
    elim (Option-cases (find_transaction input.transaction_id s.transactions)) [
      | inl missing ↦ inl (rw (missing, orchestrate_post_auth) refl)
      | inr (txn, found) ↦ elim (Bool-cases (status_eq txn.status pending)) [
        | inr past ↦ inl (orchestrate-Past now k v input s (txn.status, rw found refl, past)).1
        | inl still ↦
            let is_pending : txn.status ≡ pending = status_eq-pending txn.status still in
            let settled = orchestrate-Settled now k v input s (rw found (ap some is_pending)) in
            inr (
              Settled-Past input.transaction_id (orchestrate_post_auth now k v input s) settled,
              orchestrate-charge now k v input s input.transaction_id,
            )
      ]
    ]

-- A payment started on a vaulted transaction that has left PENDING is refused with a 409, and
-- changes nothing: no call is made, no event is published, no row is written.
pub orchestrate-again :
    (now : ℕ) (k : Kdf) (v : Services) (input : OrchestratePostAuthInput) (s : PayDb)
    (txn : Transaction) (entry bin : String)
    → find_transaction input.transaction_id s.transactions ≡ some txn
    → status_eq txn.status pending ≡ false
    → truthy txn.vault_entry_id ≡ some entry
    → truthy txn.pan_bin ≡ some bin
    → orchestrate_post_auth now k v input s ≡ (throw (api (conflict "illegal_transition" none)), s)
unfolding orchestrate_post_auth post_auth
orchestrate-again now k v input s txn entry bin found past vaulted has_bin =
    let same = find-id input.transaction_id s.transactions txn found in
    let again : find_transaction txn.id s.transactions ≡ some txn =
      subst (λ (u : String). find_transaction u s.transactions ≡ some txn) (sym same) found in
    rw (found, vaulted, has_bin, orchestrate_post_auth)
      (settle-Past now k v input txn entry bin s (txn.status, rw again refl, past))
