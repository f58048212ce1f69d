-- ===== src/Pay/Orchestration/Calls.antt =====
-- Counting the charges of a transaction, and what leaves the count alone.
use karta_cards_vera.Common.{
  ℕ, ◌+◌, ◌≤◌, ◌≡◌, ◌≢◌, refl, sym, ◌∙◌, String, concat, Option, some, Bool, false, [], ◌∷◌, ◌++◌,
  ◌==◌, inl, inr, count, arith, eq_iff, Bool-cases, Option-cases, count-append,
}
use text.Mathlib.TextLemmas.{append_cancel_left}
use karta_cards_vera.Core.Exec.{Outcome-cases}
use karta_cards_vera.Pay.StateMachine.{TransactionStatus, status_eq, pending, assert_transition}
use karta_cards_vera.Pay.Db.{Transaction, Call, PayDb, find_transaction}
use karta_cards_vera.Pay.Transactions.{update_status, status_patch}
use karta_cards_vera.Pay.Transactions.Status.{
  KeepsId, find-patch, find-patch_other, status_of, status_of-some,
}
use karta_cards_vera.Pay.Orchestration.Frame.{Closed, is_charge}

-- A charge under the idempotency key of a transaction.
abbrev pub charges_for : String → Call → Bool
charges_for id (Call.charge r) = r.idempotency_key == concat "charge_" id
charges_for id _ = false

-- How often a transaction has been charged.
abbrev pub charge_count : String → PayDb → ℕ
charge_count id s = count (charges_for id) s.calls

-- The transaction is there and no longer pending.
abbrev pub Past : String → PayDb → Type 0
Past id s = (a : TransactionStatus) × (status_of id s ≡ some a) × (status_eq a pending ≡ false)

pub charges_for-other : (id : String) (c : Call) → is_charge c ≡ false → charges_for id c ≡ false
charges_for-other id (Call.charge r) h = cc
charges_for-other id (Call.lookup_card r) h = refl
charges_for-other id (Call.increment_atc r) h = refl
charges_for-other id (Call.mint_token r) h = refl
charges_for-other id (Call.create_payment_method r) h = refl

pub charge_count-call :
    (id : String) (s : PayDb) (c : Call)
    → charges_for id c ≡ false
    → charge_count id (record s { calls = s.calls ++ c ∷ [] }) ≡ charge_count id s
charge_count-call id s c h = rw (count-append (charges_for id) s.calls (c ∷ [])) (ground arith)

pub charge_count-charge :
    (id : String) (s : PayDb) (c : Call)
    → charge_count id (record s { calls = s.calls ++ c ∷ [] }) ≤ charge_count id s + 1
charge_count-charge id s c = rw (count-append (charges_for id) s.calls (c ∷ [])) (ground arith)

-- A change of status makes no call.
pub update_status-calls :
    (now : ℕ) (id : String) (to : TransactionStatus) (extra : Transaction → Transaction) (s : PayDb)
    → (update_status now id to extra s).1.calls ≡ s.calls
unfolding update_status
update_status-calls now id to extra s = elim (Option-cases (find_transaction id s.transactions)) [
  | inl missing ↦ rw (missing, update_status) refl
  | inr (t, found) ↦ elim (Outcome-cases (assert_transition t.status to)) [
    | inl (x, e) ↦ rw (found, e, update_status) refl
    | inr (x, e) ↦ rw (found, e, update_status) refl
  ]
]

-- Nor does it touch another row, nor bring a row back to pending.
pub update_status-other :
    (now : ℕ) (id u : String) (to : TransactionStatus) (extra : Transaction → Transaction)
    (s : PayDb)
    → id ≢ u
    → KeepsId extra
    → status_of id (update_status now u to extra s).1 ≡ status_of id s
unfolding update_status
update_status-other now id u to extra s apart keeps =
    elim (Option-cases (find_transaction u s.transactions)) [
      | inl missing ↦ rw (missing, update_status) refl
      | inr (t, found) ↦ elim (Outcome-cases (assert_transition t.status to)) [
        | inl (x, e) ↦
            rw
              (
                found,
                e,
                update_status,
                find-patch_other id u (status_patch now to extra) s.transactions keeps apart,
              )
              refl
        | inr (x, e) ↦ rw (found, e, update_status) refl
      ]
    ]

pub update_status-Past :
    (now : ℕ) (id : String) (to : TransactionStatus) (extra : Transaction → Transaction) (s : PayDb)
    → status_eq to pending ≡ false
    → KeepsId extra
    → Past id s
    → Past id (update_status now id to extra s).1
unfolding update_status
update_status-Past now id to extra s on keeps (a, is_a, past) =
    let (t, found, same) = status_of-some id s a is_a in
    elim (Outcome-cases (assert_transition t.status to)) [
      | inl (x, e) ↦
          rw (found, e, update_status)
            (
              to,
              rw (find-patch id (status_patch now to extra) s.transactions t keeps found) refl,
              on,
            )
      | inr (x, e) ↦ rw (found, e, update_status) (a, is_a, past)
    ]

-- Another row, its status and its charges.
pub Closed-other :
    (id u : String) (a : Option TransactionStatus) (n : ℕ)
    → id ≢ u
    → Closed u (λ s. (status_of id s ≡ a) × (charge_count id s ≡ n))
Closed-other id u a n apart = record {
  on_bus = λ s b h. h;
  on_call =
      λ s c no_charge h. (h.0, charge_count-call id s c (charges_for-other id c no_charge) ∙ h.1);
  on_update = λ now to extra s on keeps h. (
    update_status-other now id u to extra s apart keeps ∙ h.0,
    rw (update_status-calls now u to extra s) h.1,
  );
}

pub Closed-count : (id u : String) (n : ℕ) → Closed u (λ s. charge_count id s ≤ n)
Closed-count id u n = record {
  on_bus = λ s b h. h;
  on_call = λ s c no_charge h. rw (charge_count-call id s c (charges_for-other id c no_charge)) h;
  on_update = λ now to extra s on keeps h. rw (update_status-calls now u to extra s) h;
}

pub Closed-Past : (id : String) (n : ℕ) → Closed id (λ s. Past id s × (charge_count id s ≡ n))
Closed-Past id n = record {
  on_bus = λ s b h. h;
  on_call =
      λ s c no_charge h. (h.0, charge_count-call id s c (charges_for-other id c no_charge) ∙ h.1);
  on_update = λ now to extra s on keeps h. (
    update_status-Past now id to extra s on keeps h.0,
    rw (update_status-calls now id to extra s) h.1,
  );
}

concat-injective : (a b : String) → concat "charge_" a ≡ concat "charge_" b → a ≡ b
concat-injective a b h = append_cancel_left "charge_" a b h

pub other_key : (id u : String) → id ≢ u → (concat "charge_" u == concat "charge_" id) ≡ false
other_key id u apart = elim (Bool-cases (concat "charge_" u == concat "charge_" id)) [
  | inr differ ↦ differ
  | inl same ↦ absurd (apart (sym (concat-injective u id ((eq_iff _ _).0 same))))
]
