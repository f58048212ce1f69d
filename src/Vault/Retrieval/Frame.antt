-- ===== src/Vault/Retrieval/Frame.antt =====
-- How each operation of the vault changes the token table.
use karta_cards_vera.Common.{
  ℕ, ◌+◌, ◌≡◌, refl, String, Bool, true, false, ◌||◌, List, [], ◌∷◌, ◌++◌, ◌==◌, count, any, map,
  arith, count-append, Bool-cases, Option-cases, inl, inr, eq_iff, none, some, Option, Text, ◌⊎◌,
  ◌*◌, sym, ◌∙◌, subst,
}
use karta_cards_vera.Vault.Luhn.{strip}
use karta_cards_vera.Core.Exec.{Outcome, ok, throw}
use karta_cards_vera.Vault.Db.{Db, RetrievalToken, create_token, emit, find_entry, find_token}
use karta_cards_vera.Vault.Store.{
  Crypto, Fresh, StoreInput, store_card, fingerprint_pan, store_valid, store_new, on_existing,
}
use karta_cards_vera.Vault.Retrieval.{
  MintTokenInput, ConsumeContext, mint_retrieval_token, minted_row, claim, refuse, release, reveal,
  mismatch, load_claimed, consume_retrieval_token, mark_used, claimable,
}
use karta_cards_vera.Vault.Retrieval.Tokens.{has_token, unused, IsUnique}

abbrev pub is_ok {ℓ} : {A : Type ℓ} → Outcome A → Bool
is_ok (ok a) = true
is_ok (throw e) = false

-- What the operations leave alone.
tokens-store_new :
    (c : Crypto) (f : Fresh) (input : StoreInput) (pan : Text) (fp : String) (s : Db)
    → (store_new c f input pan fp s).1.tokens ≡ s.tokens
unfolding store_new
tokens-store_new c f input pan fp s = ground arith

tokens-store_valid :
    (c : Crypto) (f : Fresh) (input : StoreInput) (pan : Text) (s : Db)
    → (store_valid c f input pan s).1.tokens ≡ s.tokens
unfolding store_valid on_existing
tokens-store_valid c f input pan s =
    ground (arith, tokens-store_new c f input pan (fingerprint_pan c pan) s)

pub tokens-store_card :
    (c : Crypto) (f : Fresh) (input : StoreInput) (s : Db)
    → (store_card c f input s).1.tokens ≡ s.tokens
unfolding store_card
tokens-store_card c f input s = ground (arith, tokens-store_valid c f input (strip input.pan) s)

tokens-refuse :
    (ctx : ConsumeContext) (row : Option RetrievalToken) (s : Db)
    → ((refuse ctx row s).1.tokens ≡ s.tokens) × (is_ok (refuse ctx row s).0 ≡ false)
unfolding refuse
tokens-refuse ctx none s = (refl, refl)
tokens-refuse ctx (some row) s = (refl, refl)

tokens-release :
    (c : Crypto) (ctx : ConsumeContext) (t : String) (s : Db)
    → (release c ctx t s).1.tokens ≡ s.tokens
unfolding release load_claimed reveal mismatch
tokens-release c ctx t s = ground arith

-- The table after a consumption is the table after its claim, whatever came of it.
pub tokens-consume :
    (c : Crypto) (now : ℕ) (t : String) (ctx : ConsumeContext) (s : Db)
    → (consume_retrieval_token c now t ctx s).1.tokens ≡ map (mark_used t now) s.tokens
unfolding consume_retrieval_token claim
tokens-consume c now t ctx s =
    let s' = (claim t now s).1 in
    ground (arith, tokens-release c ctx t s', tokens-refuse ctx (find_token t s'.tokens) s')

-- A consumption succeeds only if its claim changed exactly one row.
pub consume-claimed :
    (c : Crypto) (now : ℕ) (t : String) (ctx : ConsumeContext) (s : Db)
    → is_ok (consume_retrieval_token c now t ctx s).0 ≡ true
    → count (claimable t now) s.tokens ≡ 1
unfolding consume_retrieval_token claim
consume-claimed c now t ctx s h =
    let s' = (claim t now s).1 in ground (arith, tokens-refuse ctx (find_token t s'.tokens) s')

any-has_token :
    (id t : String) (rows : List RetrievalToken)
    → any (λ r. r.id == id || r.token == t) rows ≡ false
    → count (has_token t) rows ≡ 0
any-has_token id t [] h = refl
any-has_token id t (r ∷ rows) h = ground (arith, any-has_token id t rows)

-- The rows after a mint: as before, or one more whose token no row had.
abbrev pub Extends : String → List RetrievalToken → List RetrievalToken → Type 0
Extends t rows rows' =
    (row : RetrievalToken) × (rows' ≡ rows ++ row ∷ [])
    × (row.token ≡ t)
    × (count (has_token t) rows ≡ 0)

pub tokens-mint :
    (ttl now : ℕ) (id t : String) (input : MintTokenInput) (s : Db)
    → ((mint_retrieval_token ttl now id t input s).1.tokens ≡ s.tokens)
      ⊎ Extends t s.tokens (mint_retrieval_token ttl now id t input s).1.tokens
unfolding mint_retrieval_token create_token emit
tokens-mint ttl now id t input s = elim (Option-cases (find_entry input.vault_entry_id s.entries)) [
  | inl missing ↦ inl (ground arith)
  | inr (entry, found) ↦ elim (Bool-cases (any (λ r. r.id == id || r.token == t) s.tokens)) [
    | inl taken ↦ inl (ground arith)
    | inr free ↦ inr (
      minted_row input id t (now + ttl * 1000),
      ground arith,
      refl,
      any-has_token id t s.tokens free,
    )
  ]
]

-- One row has the token, and it is used.
abbrev pub IsSpent : String → List RetrievalToken → Type 0
IsSpent t rows = (count (has_token t) rows ≡ 1) × (count (unused t) rows ≡ 0)

-- A row with the token of another table row would have been refused.
Extends-other :
    (t x : String) (rows : List RetrievalToken) (row : RetrievalToken)
    → row.token ≡ t
    → count (has_token t) rows ≡ 0
    → (count (has_token x) rows ≡ 0) ⊎ (has_token x row ≡ false)
Extends-other t x rows row same none_had = elim (Bool-cases (row.token == x)) [
  | inl hit ↦
      let t-x : t ≡ x = sym same ∙ (eq_iff row.token x).0 hit in
      inl (subst (λ (y : String). count (has_token y) rows ≡ 0) t-x none_had)
  | inr miss ↦ inr miss
]

pub Extends-IsUnique :
    (t : String) (rows rows' : List RetrievalToken)
    → Extends t rows rows'
    → IsUnique rows
    → IsUnique rows'
Extends-IsUnique t rows rows' (row, e, same, none_had) u x =
    let other = Extends-other t x rows row same none_had in
    let split = count-append (has_token x) rows (row ∷ []) in
    let before = u x in rw e (ground arith)

pub Extends-IsSpent :
    (t x : String) (rows rows' : List RetrievalToken)
    → Extends t rows rows'
    → IsSpent x rows
    → IsSpent x rows'
Extends-IsSpent t x rows rows' (row, e, same, none_had) (once, used) =
    let other = Extends-other t x rows row same none_had in
    let had = count-append (has_token x) rows (row ∷ []) in
    let unclaimed = count-append (unused x) rows (row ∷ []) in rw e (ground arith, ground arith)
