-- ===== src/VaultClient/Served/Bodies.antt =====
-- The bodies of a mint and a consumption, read back by the schemas of the routes.
use karta_cards_vera.Common.{
  ℕ, ◌≡◌, refl, ◌∙◌, String, ◌==◌, codes, pos, Option, none, some, true, false,
}
use karta_cards_vera.Core.Exec.{ok}
use karta_cards_vera.Core.Zod.{
  Json, num, str, Fields, field, field_of, field_of-other, field_of-here, within, min_length,
  text_field-ok, z_nonnegative, validate_body,
}
use karta_cards_vera.Vault.Schemas.{caller_fields, mint_schema, consume_schema}
use karta_cards_vera.VaultClient.{
  caller_json, MintTokenInput, mint_json, ConsumeTokenInput, consume_json,
}
use karta_cards_vera.VaultClient.Served.{caller_fields-json, caller_fields-field, other_field}

-- Three fields in front of a caller's: read back one by one, and the caller behind them.
module _ (k1 k2 k3 : String) (v1 v2 v3 : Json) (purpose : String) (txn ip ua : Option String) where
  abbrev tail : Fields
  tail = caller_json purpose txn ip ua

  abbrev body : Fields
  body = field k1 v1 (field k2 v2 (field k3 v3 tail))

  abbrev IsOther : String → Type 0
  IsOther k =
      (("purpose" == k) ≡ false)
      × (("transactionId" == k) ≡ false)
      × (("ip" == k) ≡ false)
      × (("ua" == k) ≡ false)

  abbrev IsFront : String → Type 0
  IsFront k =
      ((k == "purpose") ≡ false)
      × ((k == "transactionId") ≡ false)
      × ((k == "ip") ≡ false)
      × ((k == "ua") ≡ false)

  absent : (k : String) → IsOther k → field_of k tail ≡ none
  absent k (p, a, b, c) = other_field purpose txn ip ua k p a b c

  first_field : IsOther k1 → (k2 == k1) ≡ false → (k3 == k1) ≡ false → field_of k1 body ≡ some v1
  first_field o h2 h3 = field_of-here k1 v1 (field k2 v2 (field k3 v3 tail)) (
      field_of-other k1 k2 v2 (field k3 v3 tail) h2
      ∙ (field_of-other k1 k3 v3 tail h3 ∙ absent k1 o))

  second_field : IsOther k2 → (k1 == k2) ≡ false → (k3 == k2) ≡ false → field_of k2 body ≡ some v2
  second_field o h1 h3 =
      field_of-other k2 k1 v1 (field k2 v2 (field k3 v3 tail)) h1
      ∙ field_of-here k2 v2 (field k3 v3 tail) (field_of-other k2 k3 v3 tail h3 ∙ absent k2 o)

  third_field : IsOther k3 → (k1 == k3) ≡ false → (k2 == k3) ≡ false → field_of k3 body ≡ some v3
  third_field o h1 h2 =
      field_of-other k3 k1 v1 (field k2 v2 (field k3 v3 tail)) h1
      ∙ (field_of-other k3 k2 v2 (field k3 v3 tail) h2 ∙ field_of-here k3 v3 tail (absent k3 o))

  caller_behind : IsFront k1 → IsFront k2 → IsFront k3 → caller_fields body ≡ caller_fields tail
  caller_behind (p1, a1, b1, c1) (p2, a2, b2, c2) (p3, a3, b3, c3) =
      caller_fields-field k1 v1 (field k2 v2 (field k3 v3 tail)) p1 a1 b1 c1
      ∙ (caller_fields-field k2 v2 (field k3 v3 tail) p2 a2 b2 c2
          ∙ caller_fields-field k3 v3 tail p3 a3 b3 c3)

-- A body whose amount is a natural number and whose texts have the lengths that the vault accepts.
pub record IsMintable (i : MintTokenInput) (amount : ℕ) : Type 0 where
  pub amount_is : i.amount ≡ pos amount
  pub id_length : min_length 1 (codes i.vault_entry_id) ≡ true
  pub currency_length : within 3 8 (codes i.currency) ≡ true
  pub purpose_length : within 1 256 (codes i.purpose) ≡ true

pub mint_schema-mint_json :
    (i : MintTokenInput) (amount : ℕ)
    → IsMintable i amount
    → mint_schema (mint_json i)
      ≡ some (record {
        vault_entry_id = i.vault_entry_id;
        amount = amount;
        currency = i.currency;
        caller = record {
          purpose = i.purpose;
          transaction_id = i.transaction_id;
          ip = i.ip;
          ua = i.ua;
        };
      })
unfolding mint_schema z_nonnegative
mint_schema-mint_json i amount v =
    let (id, n, cur) : Json × Json × Json =
      (str (codes i.vault_entry_id), num i.amount, str (codes i.currency)) in
    let read = λ (k : String).
      field_of k
        (body "vaultEntryId" "amount" "currency" id n cur i.purpose i.transaction_id i.ip i.ua) in
    let f1 : read "vaultEntryId" ≡ some (str (codes i.vault_entry_id)) =
      first_field "vaultEntryId" "amount" "currency" id n cur i.purpose i.transaction_id i.ip i.ua
        (refl, refl, refl, refl) refl refl in
    let f2 : read "amount" ≡ some (num i.amount) =
      second_field "vaultEntryId" "amount" "currency" id n cur i.purpose i.transaction_id i.ip i.ua
        (refl, refl, refl, refl) refl refl in
    let f3 : read "currency" ≡ some (str (codes i.currency)) =
      third_field "vaultEntryId" "amount" "currency" id n cur i.purpose i.transaction_id i.ip i.ua
        (refl, refl, refl, refl) refl refl in
    let behind =
      caller_behind "vaultEntryId" "amount" "currency" id n cur i.purpose i.transaction_id i.ip i.ua
        (refl, refl, refl, refl) (refl, refl, refl, refl) (refl, refl, refl, refl)
      ∙ caller_fields-json i.purpose i.transaction_id i.ip i.ua v.purpose_length in
    rw
      (
        behind,
        f1,
        f2,
        v.amount_is,
        f3,
        text_field-ok (min_length 1) i.vault_entry_id v.id_length,
        text_field-ok (within 3 8) i.currency v.currency_length,
        mint_schema,
      )
      refl

-- A consumption's body, likewise.
pub record IsConsumable (i : ConsumeTokenInput) (amount : ℕ) : Type 0 where
  pub amount_is : i.expected_amount ≡ pos amount
  pub token_length : min_length 1 (codes i.token) ≡ true
  pub currency_length : within 3 8 (codes i.expected_currency) ≡ true
  pub purpose_length : within 1 256 (codes i.purpose) ≡ true

pub consume_schema-consume_json :
    (i : ConsumeTokenInput) (amount : ℕ)
    → IsConsumable i amount
    → consume_schema (consume_json i)
      ≡ some (record {
        token = i.token;
        expected_amount = amount;
        expected_currency = i.expected_currency;
        caller = record {
          purpose = i.purpose;
          transaction_id = i.transaction_id;
          ip = i.ip;
          ua = i.ua;
        };
      })
unfolding consume_schema z_nonnegative
consume_schema-consume_json i amount v =
    let (t, n, cur) : Json × Json × Json =
      (str (codes i.token), num i.expected_amount, str (codes i.expected_currency)) in
    let k1 : String = "token" in
    let k2 : String = "expectedAmount" in
    let k3 : String = "expectedCurrency" in
    let f1 =
      first_field k1 k2 k3 t n cur i.purpose i.transaction_id i.ip i.ua (refl, refl, refl, refl)
        refl refl in
    let f2 =
      second_field k1 k2 k3 t n cur i.purpose i.transaction_id i.ip i.ua (refl, refl, refl, refl)
        refl refl in
    let f3 =
      third_field k1 k2 k3 t n cur i.purpose i.transaction_id i.ip i.ua (refl, refl, refl, refl)
        refl refl in
    let behind =
      caller_behind k1 k2 k3 t n cur i.purpose i.transaction_id i.ip i.ua (refl, refl, refl, refl)
        (refl, refl, refl, refl) (refl, refl, refl, refl)
      ∙ caller_fields-json i.purpose i.transaction_id i.ip i.ua v.purpose_length in
    rw
      (
        behind,
        f1,
        f2,
        f3,
        v.amount_is,
        text_field-ok (min_length 1) i.token v.token_length,
        text_field-ok (within 3 8) i.expected_currency v.currency_length,
        consume_schema,
      )
      refl

pub validate_body-ok :
    {A : Type 0} (schema : Json → Option A) (j : Json) (a : A)
    → schema j ≡ some a
    → validate_body schema j ≡ ok a
validate_body-ok schema j a h = rw (h, validate_body) refl
