-- ===== src/Pay/MockProvider/Calls.antt =====
-- Calls of the provider and of the vault under it, side by side, and the uses of a token in them.
use karta_cards_vera.Common.{
  ℕ, ◌+◌, ◌≡◌, refl, sym, subst, ◌∙◌, String, Bool, false, ◌&&◌, List, [], ◌∷◌, ◌==◌, eq_iff,
  Bool-cases, inl, inr, arith, if◌then◌else◌,
}
use karta_cards_vera.Vault.Db.{Db}
use karta_cards_vera.Vault.Store.{Crypto}
use karta_cards_vera.Vault.Retrieval.Tokens.{IsUnique}
use karta_cards_vera.Vault.Retrieval.Frame.{is_ok, IsSpent}
use karta_cards_vera.Vault.Retrieval.SingleUse.{
  Op, consume, step, releases, step-IsUnique, step-IsSpent, spent-releases,
}
use karta_cards_vera.Pay.Db.{PaymentMethodRequest}
use karta_cards_vera.Pay.MockProvider.{Methods, consume_input, create_payment_method}
use karta_cards_vera.Pay.MockProvider.Created.{
  vault_consume, spent-refused, refused-create, vault_consume-step, create_payment_method-state,
}

-- A call of the two services: an operation of the vault, or the creation of a payment method, with
-- its clock and its random id.
pub data Call : Type 0 where
  vault_call : Op → Call
  create : ℕ → String → PaymentMethodRequest → Call

module _ (c : Crypto) where
  abbrev pub call : Call → Methods × Db → Methods × Db
  call (vault_call op) (pms, s) = (pms, step c op s)
  call (create now pm_id input) st = (create_payment_method (vault_consume c now) pm_id input st).1

  abbrev pub call_all : List Call → Methods × Db → Methods × Db
  call_all [] st = st
  call_all (x ∷ calls) st = call_all calls (call x st)

  -- Whether a call uses a token: the vault hands its card out, or a payment method is made of it.
  abbrev pub uses : String → Call → Methods × Db → Bool
  uses t (vault_call op) (pms, s) = releases c t op s
  uses t (create now pm_id input) st =
      (input.retrieval_token == t)
      && is_ok (create_payment_method (vault_consume c now) pm_id input st).0

  abbrev pub use_count : String → List Call → Methods × Db → ℕ
  use_count t [] st = 0
  use_count t (x ∷ calls) st = (if uses t x st then 1 else 0) + use_count t calls (call x st)

  -- What a creation leaves of the tokens, by the vault's own operation.
  create-keeps :
      (P : Db → Type 0)
      → ((op : Op) (s : Db) → P s → P (step c op s))
      → (now : ℕ) (pm_id : String) (input : PaymentMethodRequest) (pms : Methods) (s : Db) → P s
      → P (create_payment_method (vault_consume c now) pm_id input (pms, s)).1.1
  create-keeps P kept now pm_id input pms s h =
      let (same, more) = create_payment_method-state c now pm_id input pms s in
      elim (vault_consume-step c now (consume_input input) s) [
        | inl still ↦ subst P (sym (same ∙ still)) h
        | inr (ctx, moved) ↦ subst P (sym (same ∙ moved)) (kept (consume now _ ctx) s h)
      ]

  call-keeps :
      (P : Db → Type 0)
      → ((op : Op) (s : Db) → P s → P (step c op s))
      → (x : Call) (st : Methods × Db) → P st.1
      → P (call x st).1
  call-keeps P kept (vault_call op) (pms, s) h = kept op s h
  call-keeps P kept (create now pm_id input) (pms, s) h =
      create-keeps P kept now pm_id input pms s h

  pub call-IsSpent :
      (t : String) (x : Call) (st : Methods × Db)
      → IsSpent t st.1.tokens
      → IsSpent t (call x st).1.tokens
  call-IsSpent t = call-keeps (λ s. IsSpent t s.tokens) (step-IsSpent c t)

  pub call-IsUnique :
      (x : Call) (st : Methods × Db) → IsUnique st.1.tokens → IsUnique (call x st).1.tokens
  call-IsUnique = call-keeps (λ s. IsUnique s.tokens) (step-IsUnique c)

  pub call_all-IsUnique :
      (calls : List Call) (st : Methods × Db)
      → IsUnique st.1.tokens
      → IsUnique (call_all calls st).1.tokens
  call_all-IsUnique [] st u = u
  call_all-IsUnique (x ∷ calls) st u = call_all-IsUnique calls (call x st) (call-IsUnique x st u)

  -- A spent token is used no more.
  pub spent-create :
      (t : String) (now : ℕ) (pm_id : String) (input : PaymentMethodRequest) (pms : Methods)
      (s : Db)
      → input.retrieval_token ≡ t
      → IsSpent t s.tokens
      → is_ok (create_payment_method (vault_consume c now) pm_id input (pms, s)).0 ≡ false
  spent-create t now pm_id input pms s token h = refused-create c now pm_id input pms s (
      spent-refused c now (consume_input input) s
        (subst (λ (u : String). IsSpent u s.tokens) (sym token) h))

  spent-uses :
      (t : String) (x : Call) (st : Methods × Db) → IsSpent t st.1.tokens → uses t x st ≡ false
  spent-uses t (vault_call op) (pms, s) h = spent-releases c t op s h
  spent-uses t (create now pm_id input) (pms, s) h =
      elim (Bool-cases (input.retrieval_token == t)) [
        | inr other ↦ rw other refl
        | inl same ↦
            rw
              (
                same,
                spent-create t now pm_id input pms s ((eq_iff input.retrieval_token t).0 same) h,
              )
              refl
      ]

  pub spent-use_count :
      (t : String) (calls : List Call) (st : Methods × Db)
      → IsSpent t st.1.tokens
      → use_count t calls st ≡ 0
  spent-use_count t [] st h = refl
  spent-use_count t (x ∷ calls) st h =
      rw (spent-uses t x st h)
        (omega (arith, spent-use_count t calls (call x st) (call-IsSpent t x st h)))
