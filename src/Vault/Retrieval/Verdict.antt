-- ===== src/Vault/Retrieval/Verdict.antt =====
-- What a consumption answers, decided from the token's row as it stood before.
use karta_cards_vera.Common.{
  ℕ, ◌≤◌, ◌≡◌, refl, String, Option, none, some, not, ◌&&◌, List, [], ◌∷◌, find, count, map, arith,
  ◌==◌, if◌then◌else◌, Option-cases, Bool-cases, inl, inr, ltb,
}
use karta_cards_vera.Core.Error.{api, other, bad_request, not_found, gone}
use karta_cards_vera.Core.Exec.{Outcome, ok, throw}
use karta_cards_vera.Vault.Db.{Db, VaultEntry, RetrievalToken, find_entry, find_token}
use karta_cards_vera.Vault.Store.{Crypto}
use karta_cards_vera.Vault.Retrieval.{
  ConsumeContext, ConsumeResult, claim, refuse, release, reveal, mismatch, load_claimed,
  consume_retrieval_token, open_card, claimable, mark_used, amount_matches,
}
use karta_cards_vera.Vault.Retrieval.Tokens.{has_token, IsUnique}

claimable-absent :
    (t : String) (now : ℕ) (rows : List RetrievalToken)
    → count (has_token t) rows ≡ 0
    → count (claimable t now) rows ≡ 0
claimable-absent t now [] h = refl
claimable-absent t now (r ∷ rows) h = ground (arith, claimable-absent t now rows)

-- How many rows a claim changes, where no two rows share a token.
pub claimable-count :
    (t : String) (now : ℕ) (rows : List RetrievalToken) (row : RetrievalToken)
    → count (has_token t) rows ≤ 1
    → find (has_token t) rows ≡ some row
    → count (claimable t now) rows ≡ (if not row.used && ltb now row.expires_at then 1 else 0)
claimable-count t now [] row u h = cc
claimable-count t now (r ∷ rows) row u h = elim (Bool-cases (r.token == t)) [
  | inl hit ↦
      let rest_empty : count (claimable t now) rows ≡ 0 =
        claimable-absent t now rows (ground arith) in
      rw rest_empty (ground arith)
  | inr miss ↦ let ih = claimable-count t now rows row (ground arith) (ground arith) in ground arith
]

no_claimable :
    (t : String) (now : ℕ) (rows : List RetrievalToken)
    → find (has_token t) rows ≡ none
    → count (claimable t now) rows ≡ 0
no_claimable t now [] h = refl
no_claimable t now (r ∷ rows) h = ground (arith, no_claimable t now rows)

abbrev mark_found : String → ℕ → Option RetrievalToken → Option RetrievalToken
mark_found t now none = none
mark_found t now (some row) = some (mark_used t now row)

find-mark :
    (t : String) (now : ℕ) (rows : List RetrievalToken)
    → find (has_token t) (map (mark_used t now) rows) ≡ mark_found t now (find (has_token t) rows)
find-mark t now [] = refl
find-mark t now (r ∷ rows) = ground (arith, find-mark t now rows)

-- What a claimed row releases.
abbrev pub released :
    Crypto → ConsumeContext → RetrievalToken → Option VaultEntry → Outcome ConsumeResult
released c ctx row none = throw (other "P2025")
released c ctx row (some e) =
    if amount_matches ctx row
    then elim (open_card c e) [
      | throw err ↦ throw err
      | ok card ↦
          ok (record {
            retrieval_token_id = row.id;
            vault_entry_id = row.vault_entry_id;
            card = card;
          })
    ]
    else throw (api (bad_request "amount_mismatch"))

-- The answer, from the row that the token has and the entries.
abbrev pub verdict :
    Crypto → ℕ → ConsumeContext → List VaultEntry → Option RetrievalToken → Outcome ConsumeResult
verdict c now ctx entries none = throw (api (not_found "token_not_found"))
verdict c now ctx entries (some row) =
    if row.used
    then throw (api (gone "token_already_used"))
    else if ltb now row.expires_at
    then released c ctx row (find_entry row.vault_entry_id entries)
    else throw (api (gone "token_expired"))

release-released :
    (c : Crypto) (now : ℕ) (t : String) (ctx : ConsumeContext) (s : Db) (row : RetrievalToken)
    → find_token t s.tokens ≡ some row
    → (release c ctx t s).0 ≡ released c ctx row (find_entry row.vault_entry_id s.entries)
unfolding release load_claimed reveal mismatch
release-released c now t ctx s row h = ground arith

-- From a token table with no duplicates, a consumption answers by the token's row as it stood: 404
-- where there is none; 410 where it is used, and then where it has expired; 400 where the amount
-- or the currency differs; and otherwise the decrypted card of its entry.
pub consume-verdict :
    (c : Crypto) (now : ℕ) (t : String) (ctx : ConsumeContext) (s : Db)
    → IsUnique s.tokens
    → (consume_retrieval_token c now t ctx s).0
      ≡ verdict c now ctx s.entries (find_token t s.tokens)
unfolding consume_retrieval_token claim refuse find_token
consume-verdict c now t ctx s u = elim (Option-cases (find (has_token t) s.tokens)) [
  | inl missing ↦
      let none_claimed = no_claimable t now s.tokens missing in
      let still = find-mark t now s.tokens in ground arith
  | inr (row, found) ↦
      let changed = claimable-count t now s.tokens row (u t) found in
      let after = find-mark t now s.tokens in
      let s' : Db = record s { tokens = map (mark_used t now) s.tokens } in
      elim (Bool-cases row.used) [
        | inl used ↦ ground arith
        | inr fresh ↦ elim (Bool-cases (ltb now row.expires_at)) [
          | inr late ↦ ground arith
          | inl live ↦ ground (arith, release-released c now t ctx s' (mark_used t now row))
        ]
      ]
]
