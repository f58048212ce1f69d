-- ===== src/Retention/Tokens.antt =====
-- What the purge of retrieval tokens does to consumptions.
use karta_cards_vera.Common.{
  ℕ, ◌≤◌, ◌≡◌, refl, sym, ap, ◌∙◌, String, ◌==◌, Option, none, some, Bool, false, not, List, [],
  ◌∷◌, count, find, keep, ltb, arith, Option-cases, Bool-cases, ◌⊎◌, inl, inr, if◌then◌else◌,
}
use karta_cards_vera.Core.Error.{api, not_found, gone}
use karta_cards_vera.Core.Exec.{throw}
use karta_cards_vera.Vault.Db.{Db, RetrievalToken, find_token}
use karta_cards_vera.Vault.Store.{Crypto}
use karta_cards_vera.Vault.Retrieval.{ConsumeContext, consume_retrieval_token}
use karta_cards_vera.Vault.Retrieval.Tokens.{has_token, IsUnique}
use karta_cards_vera.Vault.Retrieval.Verdict.{verdict, consume-verdict}
use karta_cards_vera.Retention.{purge_expired_retrieval_tokens}

abbrev is_kept : ℕ → RetrievalToken → Bool
is_kept now t = not (ltb t.expires_at now)

count-keep-le :
    (t : String) (now : ℕ) (rows : List RetrievalToken)
    → count (has_token t) (keep (is_kept now) rows) ≤ count (has_token t) rows
count-keep-le t now [] = omega arith
count-keep-le t now (r ∷ rows) = ground (arith, count-keep-le t now rows)

find-keep-absent :
    (t : String) (now : ℕ) (rows : List RetrievalToken)
    → count (has_token t) rows ≡ 0
    → find (has_token t) (keep (is_kept now) rows) ≡ none
find-keep-absent t now [] h = refl
find-keep-absent t now (r ∷ rows) h = ground (arith, find-keep-absent t now rows)

find-keep-none :
    (t : String) (now : ℕ) (rows : List RetrievalToken)
    → find (has_token t) rows ≡ none
    → find (has_token t) (keep (is_kept now) rows) ≡ none
find-keep-none t now [] h = refl
find-keep-none t now (r ∷ rows) h = ground (arith, find-keep-none t now rows)

-- The row of a token after the purge.
abbrev remaining : ℕ → RetrievalToken → Option RetrievalToken
remaining now row = if is_kept now row then some row else none

find-keep :
    (t : String) (now : ℕ) (rows : List RetrievalToken) (row : RetrievalToken)
    → count (has_token t) rows ≤ 1
    → find (has_token t) rows ≡ some row
    → find (has_token t) (keep (is_kept now) rows) ≡ remaining now row
find-keep t now [] row u h = cc
find-keep t now (r ∷ rows) row u h = elim (Bool-cases (r.token == t)) [
  | inl hit ↦
      let same : r ≡ row = ground arith in
      let gone_rest = find-keep-absent t now rows (ground arith) in rw (← same) (ground arith)
  | inr miss ↦ let ih = find-keep t now rows row (ground arith) (ground arith) in ground arith
]

module _ (c : Crypto) (now later : ℕ) (t : String) (ctx : ConsumeContext) (s : Db)
    (after : now ≤ later) (unique : IsUnique s.tokens) where
  abbrev purged : Db
  purged = (purge_expired_retrieval_tokens now s).1

  purged-IsUnique : IsUnique purged.tokens
  unfolding purge_expired_retrieval_tokens
  purged-IsUnique u = let kept = count-keep-le u now s.tokens in let once = unique u in omega arith

  purged-verdict :
      (consume_retrieval_token c later t ctx purged).0
      ≡ verdict c later ctx s.entries (find_token t purged.tokens)
  unfolding purge_expired_retrieval_tokens
  purged-verdict = consume-verdict c later t ctx purged purged-IsUnique

  refused_before :
      (row : RetrievalToken)
      → ltb later row.expires_at ≡ false
      → (reason : String) × (verdict c later ctx s.entries (some row) ≡ throw (api (gone reason)))
  refused_before row dead = elim (Bool-cases row.used) [
    | inl used ↦ ("token_already_used", rw used refl)
    | inr fresh ↦ ("token_expired", rw (fresh, dead) refl)
  ]

  -- A purge changes what a later consumption answers in one way only: a token that would have been
  -- refused with 410, as used or expired, may be refused with 404 instead.
  pub purge-consume :
      ((consume_retrieval_token c later t ctx (purge_expired_retrieval_tokens now s).1).0
        ≡ (consume_retrieval_token c later t ctx s).0)
      ⊎ (((consume_retrieval_token c later t ctx (purge_expired_retrieval_tokens now s).1).0
            ≡ throw (api (not_found "token_not_found")))
          × (reason : String) × ((consume_retrieval_token c later t ctx s).0
              ≡ throw (api (gone reason))))
  unfolding purge_expired_retrieval_tokens find_token
  purge-consume = elim (Option-cases (find (has_token t) s.tokens)) [
    | inl x ↦
        let y = find-keep-none t now s.tokens x in
        inl (
          purged-verdict
          ∙ (ap (verdict c later ctx s.entries) (y ∙ sym x)
              ∙ sym (consume-verdict c later t ctx s unique)))
    | inr (row, x) ↦
        let y = find-keep t now s.tokens row (unique t) x in
        elim (Bool-cases (is_kept now row)) [
          | inl kept ↦
              let z : remaining now row ≡ some row = rw kept refl in
              inl (
                purged-verdict
                ∙ (ap (verdict c later ctx s.entries) (y ∙ (z ∙ sym x))
                    ∙ sym (consume-verdict c later t ctx s unique)))
          | inr lost ↦
              let z : remaining now row ≡ none = rw lost refl in
              let old =
                consume-verdict c later t ctx s unique ∙ ap (verdict c later ctx s.entries) x in
              let dead : ltb later row.expires_at ≡ false = ground arith in
              inr (
                let (reason, refused) = refused_before row dead in
                (
                  purged-verdict ∙ ap (verdict c later ctx s.entries) (y ∙ z),
                  reason,
                  old ∙ refused,
                ))
        ]
  ]
