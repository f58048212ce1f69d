-- ===== src/Vault/Db.antt =====
-- The vault's state: its two tables and its audit log (packages/db/prisma/schema.prisma), the
-- queries that the services make, and the event bus with its audit subscriber.
use karta_cards_vera.Common.{
  ℕ, String, Text, Option, none, some, Bool, false, ◌||◌, List, [], ◌∷◌, ◌++◌, ◌==◌, any, find,
  if◌then◌else◌,
}
use karta_cards_vera.Core.Error.{other}
use karta_cards_vera.Core.Exec.{ok, throw, Exec}
use karta_cards_vera.Core.Encryption.{EncryptedPayload}
use karta_cards_vera.Vault.Audit.{VaultEvent, AccessLog, normalise_event}

pub record VaultEntry : Type 0 where
  pub id : String
  pub idempotency_key : Option String
  pub pan_last4 : Text
  pub pan_bin : Text
  pub cardholder_name : String
  pub pan_expiry_month : Text
  pub pan_expiry_year : Text
  pub encrypted_pan : EncryptedPayload
  pub pan_fingerprint : String

-- Times are milliseconds since the epoch.
pub record RetrievalToken : Type 0 where
  pub id : String
  pub token : String
  pub used : Bool
  pub used_at : Option ℕ
  pub amount : ℕ
  pub currency : String
  pub expires_at : ℕ
  pub purpose : String
  pub vault_entry_id : String

pub record Db : Type 0 where
  pub entries : List VaultEntry
  pub tokens : List RetrievalToken
  pub access_log : List AccessLog

-- An optional column equal to a text.
abbrev pub has_key : String → Option String → Bool
has_key k none = false
has_key k (some j) = j == k

-- `vaultEntry.findUnique` by each unique column.
unfoldable pub find_entry : String → List VaultEntry → Option VaultEntry
find_entry id = find (λ e. e.id == id)

unfoldable pub find_by_key : String → List VaultEntry → Option VaultEntry
find_by_key k = find (λ e. has_key k e.idempotency_key)

unfoldable pub find_by_fingerprint : String → List VaultEntry → Option VaultEntry
find_by_fingerprint fp = find (λ e. e.pan_fingerprint == fp)

unfoldable pub find_token : String → List RetrievalToken → Option RetrievalToken
find_token token = find (λ t. t.token == token)

-- Two rows that agree on a unique column.
abbrev pub same_key : Option String → Option String → Bool
same_key none _ = false
same_key (some k) o = has_key k o

abbrev pub clashes : VaultEntry → VaultEntry → Bool
clashes a b =
    a.id == b.id
    || (a.pan_fingerprint == b.pan_fingerprint || same_key a.idempotency_key b.idempotency_key)

-- `vaultEntry.create`: a unique column that clashes is refused (P2002).
unfoldable pub create_entry : VaultEntry → Exec Db VaultEntry
create_entry row s =
    if any (clashes row) s.entries
    then (throw (other "P2002"), s)
    else (ok row, record s { entries = s.entries ++ row ∷ [] })

unfoldable pub create_token : RetrievalToken → Exec Db RetrievalToken
create_token row s =
    if any (λ t. t.id == row.id || t.token == row.token) s.tokens
    then (throw (other "P2002"), s)
    else (ok row, record s { tokens = s.tokens ++ row ∷ [] })

-- `vaultEvents.emit`: the audit subscriber writes one row.
unfoldable pub emit : VaultEvent → Exec Db (Unit {0})
emit e s = (ok tt, record s { access_log = s.access_log ++ normalise_event e ∷ [] })
