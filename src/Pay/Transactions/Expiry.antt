-- ===== src/Pay/Transactions/Expiry.antt =====
-- Expiry on reading, expiry by the sweep, and the guard of the authentication routes.
use karta_cards_vera.Common.{
  ℕ, ◌≡◌, refl, sym, ap, ◌∙◌, String, Option, none, some, false, ◌||◌, List, [], ◌∷◌, map, arith,
  if◌then◌else◌, Option-cases, Bool-cases, inl, inr,
}
use karta_cards_vera.Core.Error.{api, bad_request, not_found, gone}
use karta_cards_vera.Core.Exec.{Outcome, ok, throw, resume}
use karta_cards_vera.Pay.StateMachine.{status_eq, completed, failed, expired}
use karta_cards_vera.Pay.Db.{Transaction, PayDb, find_transaction, find_by_rlid}
use karta_cards_vera.Pay.Transactions.{
  get_transaction_by_rlid, get_transaction_for_auth, expire_pending_transactions, is_overdue,
  expire_row, expire_pending, sweep_row, auth_guard,
}
use karta_cards_vera.Pay.Transactions.Status.{find-patch}

-- A row found by its RLID is the row with its id.
abbrev pub IsIndexed : List Transaction → Type 0
IsIndexed rows =
    (rlid : String) (t : Transaction)
    → find_by_rlid rlid rows ≡ some t
    → find_transaction t.id rows ≡ some t

-- What a read answers: a row that is overdue as it is once expired.
abbrev pub current : ℕ → Option Transaction → Outcome Transaction
current now none = throw (api (not_found "transaction_not_found"))
current now (some t) = ok (sweep_row now t)

-- What the guard answers to a row.
abbrev pub admitted : Transaction → Outcome Transaction
admitted t =
    if status_eq t.status expired
    then throw (api (gone "transaction_expired"))
    else if status_eq t.status completed || status_eq t.status failed
    then throw (api (bad_request "transaction_terminal"))
    else ok t

abbrev pub admit : Outcome Transaction → Outcome Transaction
admit (throw e) = throw e
admit (ok t) = admitted t

auth_guard-admit : (r : Outcome Transaction × PayDb) → (resume r.0 auth_guard r.1).0 ≡ admit r.0
auth_guard-admit (throw e, s) = refl
auth_guard-admit (ok t, s) = ground arith

abbrev sweep_found : ℕ → Option Transaction → Option Transaction
sweep_found now none = none
sweep_found now (some t) = some (sweep_row now t)

-- Where a row found by its RLID is the row with its id, a read by RLID answers 404 where there is
-- no row, the row as expired where it is overdue, and else the row.
pub get_transaction_by_rlid-current :
    (now : ℕ) (rlid : String) (s : PayDb)
    → IsIndexed s.transactions
    → (get_transaction_by_rlid now rlid s).0 ≡ current now (find_by_rlid rlid s.transactions)
unfolding get_transaction_by_rlid
get_transaction_by_rlid-current now rlid s indexed =
    elim (Option-cases (find_by_rlid rlid s.transactions)) [
      | inl missing ↦ rw (missing, get_transaction_by_rlid) refl
      | inr (t, found) ↦ elim (Bool-cases (is_overdue now t)) [
        | inr timely ↦ rw (found, timely, get_transaction_by_rlid) refl
        | inl overdue ↦
            let again =
              find-patch t.id expire_pending s.transactions t (λ u. ground arith)
                (indexed rlid t found) in
            let same : expire_pending t ≡ expire_row t = ground arith in
            rw (found, overdue, again, same, get_transaction_by_rlid) refl
      ]
    ]

-- The guard of the authentication routes, where a row found by its RLID is the row with its id:
-- 404 where there is no row, 410 where it is expired or overdue, 400 where it is completed or
-- failed, and else the row.
pub get_transaction_for_auth-admit :
    (now : ℕ) (rlid : String) (s : PayDb)
    → IsIndexed s.transactions
    → (get_transaction_for_auth now rlid s).0
      ≡ admit (current now (find_by_rlid rlid s.transactions))
unfolding get_transaction_for_auth
get_transaction_for_auth-admit now rlid s indexed =
    auth_guard-admit (get_transaction_by_rlid now rlid s)
    ∙ ap admit (get_transaction_by_rlid-current now rlid s indexed)

-- `find` by RLID in the swept table.
find_by_rlid-sweep :
    (now : ℕ) (rlid : String) (rows : List Transaction)
    → find_by_rlid rlid (map (sweep_row now) rows) ≡ sweep_found now (find_by_rlid rlid rows)
unfolding find_by_rlid
find_by_rlid-sweep now rlid [] = refl
find_by_rlid-sweep now rlid (r ∷ rows) = ground (arith, find_by_rlid-sweep now rlid rows)

swept-current :
    (now : ℕ) (rlid : String) (s : PayDb)
    → (get_transaction_by_rlid now rlid (expire_pending_transactions now s)).0
      ≡ current now (find_by_rlid rlid s.transactions)
unfolding get_transaction_by_rlid expire_pending_transactions
swept-current now rlid s =
    let swept = find_by_rlid-sweep now rlid s.transactions in
    elim (Option-cases (find_by_rlid rlid s.transactions)) [
      | inl missing ↦ rw (swept, missing, get_transaction_by_rlid) refl
      | inr (t, found) ↦
          let timely : is_overdue now (sweep_row now t) ≡ false = ground arith in
          rw (swept, found, timely, get_transaction_by_rlid) refl
    ]

-- The two expiries agree: a read answers the same before and after a sweep at the same time, where
-- a row found by its RLID is the row with its id.
pub get_transaction_by_rlid-sweep :
    (now : ℕ) (rlid : String) (s : PayDb)
    → IsIndexed s.transactions
    → (get_transaction_by_rlid now rlid (expire_pending_transactions now s)).0
      ≡ (get_transaction_by_rlid now rlid s).0
get_transaction_by_rlid-sweep now rlid s indexed =
    swept-current now rlid s ∙ sym (get_transaction_by_rlid-current now rlid s indexed)
