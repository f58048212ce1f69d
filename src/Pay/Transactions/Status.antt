-- ===== src/Pay/Transactions/Status.antt =====
-- The status of a row under the operations on the table.
use karta_cards_vera.Common.{
  ℕ, ◌≡◌, ◌≢◌, refl, String, Option, none, some, true, List, [], ◌∷◌, ◌==◌, arith, eq_iff,
  Bool-cases, Option-cases, inl, inr,
}
use karta_cards_vera.Core.Exec.{ok}
use karta_cards_vera.Pay.StateMachine.{TransactionStatus, can_transition, assert_transition}
use karta_cards_vera.Pay.Db.{Transaction, PayDb, find_transaction, patch_rows}
use karta_cards_vera.Pay.Transactions.{update_status, status_patch}

-- A change of columns that leaves the row's id.
abbrev pub KeepsId : (Transaction → Transaction) → Type 0
KeepsId f = (t : Transaction) → (f t).id ≡ t.id

pub find-patch :
    (id : String) (f : Transaction → Transaction) (rows : List Transaction) (t : Transaction)
    → KeepsId f
    → find_transaction id rows ≡ some t
    → find_transaction id (patch_rows id f rows) ≡ some (f t)
unfolding find_transaction patch_rows
find-patch id f [] t keeps h = cc
find-patch id f (r ∷ rows) t keeps h = elim (Bool-cases (r.id == id)) [
  | inl hit ↦ let same = keeps r in ground arith
  | inr miss ↦ let ih = find-patch id f rows t keeps (ground arith) in ground arith
]

pub find-patch_other :
    (id other : String) (f : Transaction → Transaction) (rows : List Transaction)
    → KeepsId f
    → id ≢ other
    → find_transaction id (patch_rows other f rows) ≡ find_transaction id rows
unfolding find_transaction patch_rows
find-patch_other id other f [] keeps h = refl
find-patch_other id other f (r ∷ rows) keeps h =
    let same = keeps r in
    ground (arith, find-patch_other id other f rows keeps h, eq_iff r.id id, eq_iff r.id other)

abbrev pub status_in : Option Transaction → Option TransactionStatus
status_in none = none
status_in (some t) = some t.status

-- The status of the row with an id.
abbrev pub status_of : String → PayDb → Option TransactionStatus
status_of id s = status_in (find_transaction id s.transactions)

pub status_of-some :
    (id : String) (s : PayDb) (a : TransactionStatus)
    → status_of id s ≡ some a
    → (t : Transaction) × (find_transaction id s.transactions ≡ some t) × (t.status ≡ a)
status_of-some id s a h = elim (Option-cases (find_transaction id s.transactions)) [
  | inl missing ↦ cc (rw missing at h)
  | inr (t, found) ↦ (t, found, ground arith)
]

-- A change of status that the state machine allows is made.
pub update_status-moves :
    (now : ℕ) (id : String) (a b : TransactionStatus) (extra : Transaction → Transaction)
    (s : PayDb)
    → KeepsId extra
    → can_transition a b ≡ true
    → status_of id s ≡ some a
    → (t : Transaction) × (s' : PayDb) × (update_status now id b extra s ≡ (ok t, s'))
      × (t.status ≡ b)
      × (status_of id s' ≡ some b)
unfolding update_status assert_transition
update_status-moves now id a b extra s keeps allowed h =
    let (t, found, is_a) = status_of-some id s a h in
    let done = find-patch id (status_patch now b extra) s.transactions t keeps found in
    (
      status_patch now b extra t,
      record s { transactions = patch_rows id (status_patch now b extra) s.transactions },
      rw (found, is_a, allowed, update_status) refl,
      refl,
      rw done refl,
    )
