-- ===== src/Pay/Orchestration/Once.antt =====
-- services/pay/src/orchestration/post-auth.ts: no transaction is charged twice.
use karta_cards_vera.Common.{
  ℕ, ◌+◌, ◌≤◌, ◌≡◌, ◌≢◌, refl, sym, ap, subst, ◌∙◌, String, some, false, List, [], ◌∷◌, ◌++◌, ◌==◌,
  ◌⊎◌, inl, inr, map, arith, eq_iff, Bool-cases, Option-cases, count-append,
}
use karta_cards_vera.Core.Exec.{Outcome, Outcome-cases}
use karta_cards_vera.Pay.StateMachine.{status_eq, pending}
use karta_cards_vera.Pay.Db.{
  Transaction, Call, PayDb, find_transaction, find_by_rlid, patch_row, patch_rows,
  create_transaction_row,
}
use karta_cards_vera.Pay.Transactions.{
  CardState, CreateTxnInput, FreshTxn, create_transaction, get_transaction_by_rlid,
  expire_pending_transactions, sweep_row, expire_pending, is_overdue, expire_one,
}
use karta_cards_vera.Pay.Transactions.Status.{KeepsId, status_of-some}
use karta_cards_vera.Pay.Transactions.Created.{create-Created, create-throw}
use karta_cards_vera.Pay.Arqc.{Kdf}
use karta_cards_vera.Pay.Orchestration.{Services, OrchestratePostAuthInput, orchestrate_post_auth}
use karta_cards_vera.Pay.Orchestration.Calls.{charges_for, charge_count, Past}
use karta_cards_vera.Pay.Orchestration.Repeat.{
  orchestrate-other, orchestrate-Past, orchestrate-step,
}

-- An operation of the payment service, with its random values, its clock and the services outside.
pub data PayOp : Type 0 where
  create : (String → List Call → Outcome CardState) → ℕ → ℕ → FreshTxn → CreateTxnInput → PayOp
  read : ℕ → String → PayOp
  sweep : ℕ → PayOp
  pay_for : ℕ → Kdf → Services → OrchestratePostAuthInput → PayOp

abbrev pub step : PayOp → PayDb → PayDb
step (create palisade ttl now f input) s = (create_transaction palisade ttl now f input s).1
step (read now rlid) s = (get_transaction_by_rlid now rlid s).1
step (sweep now) s = expire_pending_transactions now s
step (pay_for now k v input) s = (orchestrate_post_auth now k v input s).1

abbrev pub run : List PayOp → PayDb → PayDb
run [] s = s
run (op ∷ ops) s = run ops (step op s)

create-calls :
    (palisade : String → List Call → Outcome CardState) (ttl now : ℕ) (f : FreshTxn)
    (input : CreateTxnInput) (s : PayDb)
    → ((create_transaction palisade ttl now f input s).1.calls ≡ s.calls)
      ⊎ ((create_transaction palisade ttl now f input s).1.calls
          ≡ s.calls ++ Call.lookup_card input.card_id ∷ [])
unfolding create_transaction create_transaction_row
create-calls palisade ttl now f input s = ground arith

create-uncharged :
    (id : String) (palisade : String → List Call → Outcome CardState) (ttl now : ℕ) (f : FreshTxn)
    (input : CreateTxnInput) (s : PayDb)
    → charge_count id (create_transaction palisade ttl now f input s).1 ≡ charge_count id s
create-uncharged id palisade ttl now f input s = elim (create-calls palisade ttl now f input s) [
  | inl same ↦ rw same refl
  | inr more ↦
      rw (more, count-append (charges_for id) s.calls (Call.lookup_card input.card_id ∷ []))
        (omega arith)
]

find-append :
    (id : String) (rows : List Transaction) (row t : Transaction)
    → find_transaction id rows ≡ some t
    → find_transaction id (rows ++ row ∷ []) ≡ some t
unfolding find_transaction
find-append id [] row t h = cc
find-append id (r ∷ rows) row t h = ground (arith, find-append id rows row t)

create-keeps :
    (palisade : String → List Call → Outcome CardState) (ttl now : ℕ) (f : FreshTxn)
    (input : CreateTxnInput) (s : PayDb) (id : String) (t : Transaction)
    → find_transaction id s.transactions ≡ some t
    → find_transaction id (create_transaction palisade ttl now f input s).1.transactions ≡ some t
create-keeps palisade ttl now f input s id t h =
    let r = create_transaction palisade ttl now f input s in
    elim (Outcome-cases r.0) [
      | inl (row, e) ↦
          let new =
            create-Created palisade ttl now f input row s r.1
              (ap (λ (o : Outcome Transaction). (o, r.1)) e) in
          rw new.transactions (find-append id s.transactions row t h)
      | inr (err, e) ↦
          rw
            (create-throw palisade ttl now f input err s r.1
              (ap (λ (o : Outcome Transaction). (o, r.1)) e))
            h
    ]

-- A change of every row that keeps ids.
find-map :
    (id : String) (g : Transaction → Transaction) (rows : List Transaction) (t : Transaction)
    → KeepsId g
    → find_transaction id rows ≡ some t
    → find_transaction id (map g rows) ≡ some (g t)
unfolding find_transaction
find-map id g [] t keeps h = cc
find-map id g (r ∷ rows) t keeps h = elim (Bool-cases (r.id == id)) [
  | inl hit ↦ let same = keeps r in ground arith
  | inr miss ↦
      let same = keeps r in let ih = find-map id g rows t keeps (ground arith) in ground arith
]

-- A read changes at most the row that it finds overdue, and makes no call.
read-effect :
    (now : ℕ) (rlid : String) (s : PayDb) (id : String) (t : Transaction)
    → find_transaction id s.transactions ≡ some t
    → status_eq t.status pending ≡ false
    → find_transaction id (get_transaction_by_rlid now rlid s).1.transactions ≡ some t
unfolding get_transaction_by_rlid patch_rows
read-effect now rlid s id t h past = elim (Option-cases (find_by_rlid rlid s.transactions)) [
  | inl missing ↦ rw (missing, get_transaction_by_rlid) h
  | inr (u, found) ↦
      let kept =
        find-map id (patch_row u.id expire_pending) s.transactions t (λ t. ground arith) h in
      let same : patch_row u.id expire_pending t ≡ t = ground arith in
      elim (Bool-cases (is_overdue now u)) [
        | inr timely ↦ rw (found, timely, get_transaction_by_rlid) h
        | inl overdue ↦
            elim (Option-cases (find_transaction u.id (expire_one u.id s).transactions)) [
              | inl gone ↦ rw (found, overdue, gone, get_transaction_by_rlid) (kept ∙ ap some same)
              | inr (w, again) ↦
                  rw (found, overdue, again, get_transaction_by_rlid) (kept ∙ ap some same)
            ]
      ]
]

read-calls :
    (now : ℕ) (rlid : String) (s : PayDb) → (get_transaction_by_rlid now rlid s).1.calls ≡ s.calls
unfolding get_transaction_by_rlid patch_rows
read-calls now rlid s = ground arith

sweep-effect :
    (now : ℕ) (s : PayDb) (id : String) (t : Transaction)
    → find_transaction id s.transactions ≡ some t
    → status_eq t.status pending ≡ false
    → find_transaction id (expire_pending_transactions now s).transactions ≡ some t
unfolding expire_pending_transactions
sweep-effect now s id t h past =
    let same : sweep_row now t ≡ t = ground arith in
    find-map id (sweep_row now) s.transactions t (λ t. ground arith) h ∙ ap some same

apart : (a b : String) → (a == b) ≡ false → a ≢ b
apart a b h e = cc ((eq_iff a b).1 e)

module _ (id : String) (s : PayDb) where
  -- Whatever the operation, a transaction that is past pending stays so and is not charged.
  step-Past :
      (op : PayOp)
      → Past id s
      → Past id (step op s) × (charge_count id (step op s) ≡ charge_count id s)
  unfolding expire_pending_transactions
  step-Past (create palisade ttl now f input) (a, is_a, past) =
      let (t, found, same) = status_of-some id s a is_a in
      (
        (a, rw (create-keeps palisade ttl now f input s id t found) (ap some same), past),
        create-uncharged id palisade ttl now f input s,
      )
  step-Past (read now rlid) (a, is_a, past) =
      let (t, found, same) = status_of-some id s a is_a in
      (
        (a, rw (read-effect now rlid s id t found (rw same past)) (ap some same), past),
        rw (read-calls now rlid s) refl,
      )
  step-Past (sweep now) (a, is_a, past) =
      let (t, found, same) = status_of-some id s a is_a in
      ((a, rw (sweep-effect now s id t found (rw same past)) (ap some same), past), refl)
  step-Past (pay_for now k v input) (a, is_a, past) =
      elim (Bool-cases (id == input.transaction_id)) [
        | inl same ↦
            let equal = (eq_iff id input.transaction_id).0 same in
            subst
              (λ (u : String).
                Past u (orchestrate_post_auth now k v input s).1
                × (charge_count u (orchestrate_post_auth now k v input s).1 ≡ charge_count u s))
              (sym equal)
              (orchestrate-Past now k v input s
                (subst (λ (u : String). Past u s) equal (a, is_a, past)))
        | inr differ ↦
            let (kept, uncharged) = orchestrate-other now k v input s id (apart id _ differ) in
            ((a, kept ∙ is_a, past), uncharged)
      ]

  -- An operation charges a transaction at most once, and then it is past pending.
  step-charge :
      (op : PayOp)
      → (charge_count id (step op s) ≡ charge_count id s)
        ⊎ (Past id (step op s) × (charge_count id (step op s) ≤ charge_count id s + 1))
  unfolding expire_pending_transactions
  step-charge (create palisade ttl now f input) =
      inl (create-uncharged id palisade ttl now f input s)
  step-charge (read now rlid) = inl (rw (read-calls now rlid s) refl)
  step-charge (sweep now) = inl refl
  step-charge (pay_for now k v input) = elim (Bool-cases (id == input.transaction_id)) [
    | inr differ ↦ inl (orchestrate-other now k v input s id (apart id _ differ)).1
    | inl same ↦
        let equal = (eq_iff id input.transaction_id).0 same in
        let u = input.transaction_id in
        subst
          (λ (u : String).
            (charge_count u (orchestrate_post_auth now k v input s).1 ≡ charge_count u s)
            ⊎ (Past u (orchestrate_post_auth now k v input s).1
                × (charge_count u (orchestrate_post_auth now k v input s).1
                    ≤ charge_count u s + 1)))
          (sym equal) (orchestrate-step now k v input s)
  ]

-- Charged once and past pending, or not charged.
abbrev pub ChargedOnce : String → PayDb → Type 0
ChargedOnce id s = (charge_count id s ≡ 0) ⊎ (Past id s × (charge_count id s ≤ 1))

step-ChargedOnce :
    (id : String) (op : PayOp) (s : PayDb) → ChargedOnce id s → ChargedOnce id (step op s)
step-ChargedOnce id op s (inr (past, few)) =
    let (still, same) = step-Past id s op past in inr (still, rw same few)
step-ChargedOnce id op s (inl unpaid) = elim (step-charge id s op) [
  | inl same ↦ inl (same ∙ unpaid)
  | inr (past, more) ↦ inr (past, omega arith)
]

run-ChargedOnce :
    (id : String) (ops : List PayOp) (s : PayDb) → ChargedOnce id s → ChargedOnce id (run ops s)
run-ChargedOnce id [] s h = h
run-ChargedOnce id (op ∷ ops) s h = run-ChargedOnce id ops (step op s) (step-ChargedOnce id op s h)

-- From a state in which a transaction has not been charged, or is not there, whatever creations,
-- reads, sweeps and payments follow, whatever the services outside answer, and however often the
-- payment is started: the provider is asked to charge it at most once.
pub run-charge_count :
    (id : String) (ops : List PayOp) (s : PayDb)
    → charge_count id s ≡ 0
    → charge_count id (run ops s) ≤ 1
run-charge_count id ops s h = elim (run-ChargedOnce id ops s (inl h)) [
  | inl unpaid ↦ omega arith
  | inr (past, few) ↦ few
]

-- A transaction that has left PENDING never comes back to it, and no operation charges it then.
pub run-Past :
    (id : String) (ops : List PayOp) (s : PayDb)
    → Past id s
    → Past id (run ops s) × (charge_count id (run ops s) ≡ charge_count id s)
run-Past id [] s h = (h, refl)
run-Past id (op ∷ ops) s h =
    let (past, same) = step-Past id s op h in
    let (still, again) = run-Past id ops (step op s) past in (still, again ∙ same)
