-- ===== src/Pay/Orchestration/Charge.antt =====
-- A payment around its one charge.
use karta_cards_vera.Common.{ℕ, String, Option, none, some, [], ◌∷◌, ◌++◌, Bool-cases, inl, inr}
use karta_cards_vera.Core.Exec.{Outcome-cases}
use karta_cards_vera.Pay.Db.{Transaction, PaymentMethod, Call, PayDb}
use karta_cards_vera.Pay.Arqc.{Kdf}
use karta_cards_vera.Pay.Orchestration.{
  Services, OrchestratePostAuthInput, arqc_step, tokenise_step, complete_step, refused_step,
  charge_step, pay, authn_step, settle, post_auth, charge_request,
}
use karta_cards_vera.Pay.Orchestration.Frame.{
  Closed, arqc_step-keeps, tokenise_step-keeps, complete_step-keeps, refused_step-keeps,
  authn_step-keeps, give_up-keeps, not_vaulted-keeps,
}

-- With `P` before and `Q` from the charge on.
module _ (P Q : PayDb → Type 0) (now : ℕ) (k : Kdf) (v : Services)
    (input : OrchestratePostAuthInput) (txn : Transaction) (c : Closed txn.id P)
    (d : Closed txn.id Q) (weaken : (s : PayDb) → P s → Q s)
    (charged : (pm : PaymentMethod) (s : PayDb)
      → P s
      → Q (record s { calls = s.calls ++ Call.charge (charge_request txn pm) ∷ [] })) where
  charge_step-keeps :
      (pm : PaymentMethod) (s : PayDb) → P s → Q (charge_step now k v input txn pm s).1
  unfolding charge_step complete_step refused_step
  charge_step-keeps pm s h =
      let call = charge_request txn pm in
      let s' : PayDb = record s { calls = s.calls ++ Call.charge call ∷ [] } in
      elim (Outcome-cases (v.charge call s.calls)) [
        | inr (err, e) ↦ rw (e, charge_step) (charged pm s h)
        | inl (r, e) ↦ elim (Bool-cases r.succeeded) [
          | inl good ↦
              rw (e, good, charge_step)
                (complete_step-keeps Q now k v input txn d pm r s' (charged pm s h))
          | inr bad ↦
              rw (e, bad, charge_step)
                (refused_step-keeps Q now k v input txn d pm r s' (charged pm s h))
        ]
      ]

  pay-keeps : (entry bin : String) (s : PayDb) → P s → Q (pay now k v input txn entry bin s).1
  unfolding pay
  pay-keeps entry bin s h =
      let crypted = arqc_step-keeps P now k v input txn c bin s h in
      elim (Outcome-cases (arqc_step now k v input txn bin s).0) [
        | inr (err, e) ↦ rw (e, pay) (weaken _ crypted)
        | inl (x, e) ↦
            let s' = (arqc_step now k v input txn bin s).1 in
            let tokenised = tokenise_step-keeps P now k v input txn c entry s' crypted in
            elim (Outcome-cases (tokenise_step now k v input txn entry s').0) [
              | inr (err, e') ↦ rw (e, e', pay) (weaken _ tokenised)
              | inl (pm, e') ↦
                  rw (e, e', pay)
                    (charge_step-keeps pm (tokenise_step now k v input txn entry s').1 tokenised)
            ]
      ]

  pub settle-keeps :
      (entry bin : String) (s : PayDb) → P s → Q (settle now k v input txn entry bin s).1
  unfolding settle
  settle-keeps entry bin s h =
      let begun = authn_step-keeps P now k v input txn c s h in
      elim (Outcome-cases (authn_step now k v input txn s).0) [
        | inr (err, e) ↦ rw (e, settle) (weaken _ begun)
        | inl (x, e) ↦
            let s' = (authn_step now k v input txn s).1 in
            let paid = pay-keeps entry bin s' begun in
            elim (Outcome-cases (pay now k v input txn entry bin s').0) [
              | inl (r, e') ↦ rw (e, e', settle) paid
              | inr (err, e') ↦
                  rw (e, e', settle)
                    (give_up-keeps Q now k v input txn d err (pay now k v input txn entry bin s').1
                      paid)
            ]
      ]

  pub post_auth-keeps :
      (entry bin : Option String) (s : PayDb) → P s → Q (post_auth now k v input txn entry bin s).1
  unfolding post_auth
  post_auth-keeps none bin s h = weaken _ (not_vaulted-keeps P now k v input txn c s h)
  post_auth-keeps (some entry) none s h = weaken _ (not_vaulted-keeps P now k v input txn c s h)
  post_auth-keeps (some entry) (some bin) s h = settle-keeps entry bin s h
