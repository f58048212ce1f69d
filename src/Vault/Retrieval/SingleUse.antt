-- ===== src/Vault/Retrieval/SingleUse.antt =====
-- A retrieval token releases a card at most once, whatever else the vault does.
use karta_cards_vera.Common.{
  ℕ, ◌+◌, ◌≤◌, ◌≡◌, refl, String, Bool, true, false, ◌&&◌, List, [], ◌∷◌, ◌==◌, arith,
  if◌then◌else◌, Bool-cases, inl, inr, eq_iff, sym, subst,
}
use karta_cards_vera.Vault.Db.{Db}
use karta_cards_vera.Vault.Store.{Crypto, Fresh, StoreInput, store_card}
use karta_cards_vera.Vault.Retrieval.{
  MintTokenInput, ConsumeContext, mint_retrieval_token, consume_retrieval_token,
}
use karta_cards_vera.Vault.Retrieval.Tokens.{
  IsUnique, count-claimable-le, count-unused-le, count-has_token-mark, count-unused-mark,
  count-unused-claimed,
}
use karta_cards_vera.Vault.Retrieval.Frame.{
  is_ok, tokens-store_card, tokens-consume, consume-claimed, tokens-mint, Extends-IsUnique,
  Extends-IsSpent, IsSpent,
}

-- An operation of the vault, with its random values and its clock.
pub data Op : Type 0 where
  store : Fresh → StoreInput → Op
  mint : ℕ → ℕ → String → String → MintTokenInput → Op
  consume : ℕ → String → ConsumeContext → Op

module _ (c : Crypto) where
  abbrev pub step : Op → Db → Db
  step (store f input) s = (store_card c f input s).1
  step (mint ttl now id t input) s = (mint_retrieval_token ttl now id t input s).1
  step (consume now t ctx) s = (consume_retrieval_token c now t ctx s).1

  -- Whether an operation hands out the card behind a token.
  abbrev pub releases : String → Op → Db → Bool
  releases t (consume now u ctx) s = (u == t) && is_ok (consume_retrieval_token c now u ctx s).0
  releases t _ s = false

  -- How often a sequence of operations hands out the card behind a token.
  abbrev pub release_count : String → List Op → Db → ℕ
  release_count t [] s = 0
  release_count t (op ∷ ops) s =
      (if releases t op s then 1 else 0) + release_count t ops (step op s)

  pub step-IsUnique : (op : Op) (s : Db) → IsUnique s.tokens → IsUnique (step op s).tokens
  step-IsUnique (store f input) s u = rw (tokens-store_card c f input s) u
  step-IsUnique (mint ttl now id t input) s u = elim (tokens-mint ttl now id t input s) [
    | inl same ↦ rw same u
    | inr more ↦ Extends-IsUnique t _ _ more u
  ]
  step-IsUnique (consume now t ctx) s u =
      rw (tokens-consume c now t ctx s) (λ x. rw (count-has_token-mark x t now s.tokens) (u x))

  pub step-IsSpent :
      (t : String) (op : Op) (s : Db) → IsSpent t s.tokens → IsSpent t (step op s).tokens
  step-IsSpent t (store f input) s h = rw (tokens-store_card c f input s) h
  step-IsSpent t (mint ttl now id u input) s h = elim (tokens-mint ttl now id u input s) [
    | inl same ↦ rw same h
    | inr more ↦ Extends-IsSpent u t _ _ more h
  ]
  step-IsSpent t (consume now u ctx) s h = rw (tokens-consume c now u ctx s) (
    omega (arith, count-has_token-mark t u now s.tokens),
    omega (arith, count-unused-mark t u now s.tokens),
  )

  pub spent-consume :
      (now : ℕ) (t : String) (ctx : ConsumeContext) (s : Db)
      → IsSpent t s.tokens
      → is_ok (consume_retrieval_token c now t ctx s).0 ≡ false
  spent-consume now t ctx s (_, used) =
      elim (Bool-cases (is_ok (consume_retrieval_token c now t ctx s).0)) [
        | inr no_card ↦ no_card
        | inl card ↦
            absurd
              (omega (arith, consume-claimed c now t ctx s card, count-claimable-le t now s.tokens))
      ]

  pub consume-IsSpent :
      (now : ℕ) (t : String) (ctx : ConsumeContext) (s : Db)
      → IsUnique s.tokens
      → is_ok (consume_retrieval_token c now t ctx s).0 ≡ true
      → IsSpent t (consume_retrieval_token c now t ctx s).1.tokens
  consume-IsSpent now t ctx s u card =
      let one = consume-claimed c now t ctx s card in
      let claimed = count-unused-claimed t now s.tokens in
      let few = count-unused-le t s.tokens in
      let at_most = u t in
      rw (tokens-consume c now t ctx s)
        (omega (arith, count-has_token-mark t t now s.tokens), omega arith)

  -- A spent token is refused.
  pub spent-releases :
      (t : String) (op : Op) (s : Db) → IsSpent t s.tokens → releases t op s ≡ false
  spent-releases t (store f input) s h = refl
  spent-releases t (mint ttl now id u input) s h = refl
  spent-releases t (consume now u ctx) s h = elim (Bool-cases (u == t)) [
    | inr other ↦ rw other
    | inl same ↦ rw (
      same,
      spent-consume now u ctx s
          (subst (λ (x : String). IsSpent x s.tokens) (sym ((eq_iff u t).0 same)) h),
    )
  ]

  -- A release spends its token.
  pub release-IsSpent :
      (t : String) (op : Op) (s : Db)
      → IsUnique s.tokens
      → releases t op s ≡ true
      → IsSpent t (step op s).tokens
  release-IsSpent t (store f input) s u h = cc
  release-IsSpent t (mint ttl now id x input) s u h = cc
  release-IsSpent t (consume now x ctx) s u h = elim (Bool-cases (x == t)) [
    | inr other ↦ cc (rw other at h)
    | inl same ↦
        subst (λ (y : String). IsSpent y (step (consume now x ctx) s).tokens) ((eq_iff x t).0 same)
          (consume-IsSpent now x ctx s u (rw same at h))
  ]

  spent-release_count :
      (t : String) (ops : List Op) (s : Db) → IsSpent t s.tokens → release_count t ops s ≡ 0
  spent-release_count t [] s h = refl
  spent-release_count t (op ∷ ops) s h =
      rw (spent-releases t op s h)
        (omega (arith, spent-release_count t ops (step op s) (step-IsSpent t op s h)))

  -- From a token table with no duplicates, whatever stores, mints and consumptions follow and in
  -- whatever order, the card behind a token is handed out at most once.
  pub release_count-le :
      (t : String) (ops : List Op) (s : Db) → IsUnique s.tokens → release_count t ops s ≤ 1
  release_count-le t [] s u = omega arith
  release_count-le t (op ∷ ops) s u = elim (Bool-cases (releases t op s)) [
    | inl yes_now ↦
        rw yes_now
          (omega (arith, spent-release_count t ops (step op s) (release-IsSpent t op s u yes_now)))
    | inr not_now ↦
        rw not_now (omega (arith, release_count-le t ops (step op s) (step-IsUnique op s u)))
  ]
