-- ===== src/Vault/Retrieval/Tokens.antt =====
-- The token table under a claim.
use karta_cards_vera.Common.{
  ℕ, ◌+◌, ◌≤◌, ◌≡◌, refl, String, Bool, not, ◌&&◌, List, [], ◌∷◌, ◌==◌, count, map, arith,
}
use karta_cards_vera.Vault.Db.{RetrievalToken}
use karta_cards_vera.Vault.Retrieval.{claimable, mark_used}

abbrev pub has_token : String → RetrievalToken → Bool
has_token t r = r.token == t

abbrev pub unused : String → RetrievalToken → Bool
unused t r = has_token t r && not r.used

-- The unique index on `token`.
abbrev pub IsUnique : List RetrievalToken → Type 0
IsUnique rows = (t : String) → count (has_token t) rows ≤ 1

pub count-claimable-le :
    (t : String) (now : ℕ) (rows : List RetrievalToken)
    → count (claimable t now) rows ≤ count (unused t) rows
count-claimable-le t now [] = omega arith
count-claimable-le t now (r ∷ rows) = ground (arith, count-claimable-le t now rows)

pub count-unused-le :
    (t : String) (rows : List RetrievalToken) → count (unused t) rows ≤ count (has_token t) rows
count-unused-le t [] = omega arith
count-unused-le t (r ∷ rows) = ground (arith, count-unused-le t rows)

pub count-has_token-mark :
    (t u : String) (now : ℕ) (rows : List RetrievalToken)
    → count (has_token t) (map (mark_used u now) rows) ≡ count (has_token t) rows
count-has_token-mark t u now [] = refl
count-has_token-mark t u now (r ∷ rows) = ground (arith, count-has_token-mark t u now rows)

pub count-unused-mark :
    (t u : String) (now : ℕ) (rows : List RetrievalToken)
    → count (unused t) (map (mark_used u now) rows) ≤ count (unused t) rows
count-unused-mark t u now [] = omega arith
count-unused-mark t u now (r ∷ rows) = ground (arith, count-unused-mark t u now rows)

-- A claim uses up exactly the rows that it counts.
pub count-unused-claimed :
    (t : String) (now : ℕ) (rows : List RetrievalToken)
    → count (unused t) (map (mark_used t now) rows) + count (claimable t now) rows
      ≡ count (unused t) rows
count-unused-claimed t now [] = refl
count-unused-claimed t now (r ∷ rows) = ground (arith, count-unused-claimed t now rows)
