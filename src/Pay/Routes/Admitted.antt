-- ===== src/Pay/Routes/Admitted.antt =====
-- What a creation over HTTP has checked, and what it leaves alone.
use karta_cards_vera.Common.{
  ℕ, ◌≡◌, refl, ap, String, Text, Option, some, all, length, map, List, ◌⊎◌, inl, inr, Option-cases,
  true,
}
use karta_cards_vera.Core.Error.{zod}
use karta_cards_vera.Core.Exec.{Outcome, ok, throw, Outcome-cases}
use karta_cards_vera.Core.Zod.{Json, validate_body}
use karta_cards_vera.Pay.Arqc.{is_hex, lower}
use karta_cards_vera.Pay.AdminKey.{
  AdminGate, passes, missing_admin_key, invalid_admin_key, require_admin_key,
}
use karta_cards_vera.Pay.AdminKey.Matches.{require_admin_key_iff}
use karta_cards_vera.Pay.Realtime.{SseEventType, created_data}
use karta_cards_vera.Pay.Db.{Transaction, Call, PayDb}
use karta_cards_vera.Pay.Transactions.{CardState, CreateTxnInput, FreshTxn, create_transaction}
use karta_cards_vera.Pay.Transactions.Created.{Created, create-Created, create-throw}
use karta_cards_vera.Pay.Serialize.{to_transaction_dto}
use karta_cards_vera.Pay.Orchestration.{publish}
use karta_cards_vera.Pay.Schemas.{create_schema}
use karta_cards_vera.Pay.Routes.{created, behind_gate, create_and_publish, create_route}

gate-cases : (g : AdminGate) → (g ≡ passes) ⊎ ((g ≡ missing_admin_key) ⊎ (g ≡ invalid_admin_key))
gate-cases passes = inl refl
gate-cases missing_admin_key = inr (inl refl)
gate-cases invalid_admin_key = inr (inr refl)

-- The state after the event of a new transaction.
abbrev pub announced : ℕ → Transaction → PayDb → PayDb
announced now txn s =
    (publish now txn.rlid SseEventType.transaction_created
      (created_data txn.amount txn.currency txn.tier txn.allowed_credential_kinds txn.merchant_name
        txn.expires_at)
      s).1

module _ (palisade : String → List Call → Outcome CardState) (ttl now : ℕ) (f : FreshTxn)
    (expected : Text) (hex : all is_hex expected ≡ true) (size : length expected ≡ 64)
    (header : Option Text) (body : Json) (s : PayDb) where
  -- A request with the admin key whose body is a valid order: the transaction is created, announced
  -- on its stream, and what is answered is its view.
  pub record Admitted : Type 0 where
    pub key : (p : Text) × (header ≡ some p) × (map lower p ≡ map lower expected)
    pub input : CreateTxnInput
    pub parses : create_schema body ≡ some input
    pub row : Transaction
    pub before : PayDb
    pub creation : Created palisade ttl now f input row s before
    pub answer :
        create_route palisade ttl now f expected header body s
        ≡ (ok (created (to_transaction_dto row)), announced now row before)

  created_or_not :
      (input : CreateTxnInput)
      → create_schema body ≡ some input
      → require_admin_key expected header ≡ passes
      → Admitted
        ⊎ ((create_route palisade ttl now f expected header body s).1.transactions ≡ s.transactions)
  unfolding create_route behind_gate create_and_publish publish
  created_or_not input parses key =
      let valid : validate_body create_schema body ≡ ok input = rw (parses, validate_body) refl in
      elim (Outcome-cases (create_transaction palisade ttl now f input s).0) [
        | inl (row, x) ↦
            let mid : PayDb = (create_transaction palisade ttl now f input s).1 in
            inl (record {
              key = (require_admin_key_iff expected hex size header).0 key;
              input = input;
              parses = parses;
              row = row;
              before = mid;
              creation = create-Created palisade ttl now f input row s mid (ap (λ o. (o, mid)) x);
              answer = rw (key, valid, x, create_route, behind_gate) refl;
            })
        | inr (e, x) ↦
            let mid : PayDb = (create_transaction palisade ttl now f input s).1 in
            inr (
              rw (key, valid, x, create_route, behind_gate)
                (create-throw palisade ttl now f input e s mid (ap (λ o. (o, mid)) x)))
      ]

  -- Against a configured key of 64 hex digits, a request to create a transaction either carries that
  -- key and a valid body, and is answered with the view of a transaction that was created as it should
  -- be and announced on its stream, or leaves the transactions as they were.
  pub create_route-Admitted :
      Admitted
      ⊎ ((create_route palisade ttl now f expected header body s).1.transactions ≡ s.transactions)
  unfolding create_route behind_gate
  create_route-Admitted = elim (gate-cases (require_admin_key expected header)) [
    | inr (inl x) ↦ inr (rw (x, create_route, behind_gate) refl)
    | inr (inr x) ↦ inr (rw (x, create_route, behind_gate) refl)
    | inl x ↦ elim (Option-cases (create_schema body)) [
      | inl y ↦
          let bad : validate_body create_schema body ≡ throw zod = rw (y, validate_body) refl in
          inr (rw (x, bad, create_route, behind_gate) refl)
      | inr (input, y) ↦ created_or_not input y x
    ]
  ]
