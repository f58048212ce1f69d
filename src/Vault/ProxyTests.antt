-- ===== src/Vault/ProxyTests.antt =====
-- Witnesses for the theorems about the vault's forwarding proxy.
use karta_cards_vera.Common.{
  ◌≡◌, refl, Text, codes, List, [], ◌∷◌, some, none, true, false, ◌==◌, if◌then◌else◌, All, all,
  not, eqb, arith, inl,
}
use karta_cards_vera.Core.Error.{api, other, bad_request}
use karta_cards_vera.Core.Exec.{ok, throw}
use karta_cards_vera.Core.Encryption.{decrypt, get_key, find_key}
use karta_cards_vera.Core.Json.{parse_card, stringify_card}
use karta_cards_vera.Vault.Luhn.{strip}
use karta_cards_vera.Vault.Db.{Db, find_token, find_entry, emit}
use karta_cards_vera.Vault.Retrieval.{
  ConsumeResult, consume_retrieval_token, claim, release, load_claimed, reveal, open_card, refuse,
  mismatch,
}
use karta_cards_vera.Vault.Template.{
  TemplateValues, substitute, replace_from, replacement, value_of, substitute_headers,
}
use karta_cards_vera.Vault.Template.Print.{
  Piece, text, hole, IsPiece, print, fill, substitute-print,
}
use karta_cards_vera.Vault.Proxy.{
  ProxyInput, Network, Url, report, forward_to, forward_via_vault, consume_context, values_of,
}
use karta_cards_vera.Vault.Retrieval.Frame.{IsSpent}
use karta_cards_vera.Vault.Proxy.Wasted.{Call, send_count, forward_via_vault-wasted}
use karta_cards_vera.Vault.Proxy.Guards.{refusal, forward_via_vault-refused}
use karta_cards_vera.Vault.Tests.{toy, admin, with_token, card, one_token-IsUnique}
use karta_cards_vera.Vault.Retrieval.EndToEnd.{stored_card}

abbrev values : TemplateValues
values = values_of (stored_card card)

abbrev pieces : List Piece
pieces =
    text (codes "card[number]=")
    ∷ hole (codes "pan")
    ∷ text (codes "&cvc=")
    ∷ hole (codes "cvc")
    ∷ []

all-plain : (t : Text) → all (λ c. not (eqb c b'{')) t ≡ true → All (λ c. eqb c b'{' ≡ false) t
all-plain [] h = tt
all-plain (c ∷ t) h = (ground arith, all-plain t (ground arith))

pieces-IsPiece : All IsPiece pieces
pieces-IsPiece = (
  all-plain (codes "card[number]=") refl,
  ((omega arith, refl), (all-plain (codes "&cvc=") refl, ((omega arith, refl), tt))),
)

substitute-print_example : substitute (print pieces) values ≡ fill values pieces
substitute-print_example = substitute-print values pieces pieces-IsPiece

filled_run :
    substitute (codes "card[number]={{pan}}&cvc={{cvc}}") values
    ≡ ok (codes "card[number]=4242424242424242&cvc=123")
unfolding substitute replace_from replacement value_of strip
filled_run = refl

abbrev pub network : Network
network = record {
  parse_url = λ s.
      if s == "https://psp.example/charge"
      then some (record { protocol = "https:"; href = s })
      else if s == "http://psp.example/charge"
      then some (record { protocol = "http:"; href = s })
      else none;
  send = λ r. ok (record { status = 200; response_body = [] });
}

abbrev forward : ProxyInput
forward = record {
  retrieval_token = "vrt_1";
  destination = "https://psp.example/charge";
  method = none;
  headers = ("x-card", codes "{{pann}}") ∷ [];
  body = none;
  expected_amount = 1500;
  expected_currency = "AUD";
  by = admin;
  transaction_id = none;
}

abbrev plain : ProxyInput
plain = record forward { destination = "http://psp.example/charge" }

abbrev http_url : Url
http_url = record { protocol = "http:"; href = "http://psp.example/charge" }

forward_via_vault-refused_example :
    forward_via_vault toy network 2000 plain (with_token, [])
    ≡ (throw (api (bad_request (refusal network plain))), (with_token, []))
forward_via_vault-refused_example =
    forward_via_vault-refused toy network 2000 plain with_token [] (λ h.
      let (_, url, parsed, https) = h in
      let same : http_url ≡ url = cc in cc (rw (← same) at https))

abbrev consumed : ConsumeResult
consumed = record { retrieval_token_id = "rt_1"; vault_entry_id = "ve_1"; card = stored_card card }

abbrev after : Db
after = (consume_retrieval_token toy 2000 "vrt_1" (consume_context forward) with_token).1

consumed_run :
    consume_retrieval_token toy 2000 "vrt_1" (consume_context forward) with_token
    ≡ (ok consumed, after)
unfolding consume_retrieval_token claim release load_claimed reveal open_card refuse mismatch
    find_token find_entry decrypt get_key find_key parse_card emit stringify_card strip
consumed_run = refl

typo_run :
    substitute_headers forward.headers (values_of consumed.card)
    ≡ throw (other "Unknown template placeholder")
unfolding substitute_headers substitute replace_from replacement value_of
typo_run = refl

-- The same request with its header corrected is sent where the token is fresh.
abbrev corrected : ProxyInput
corrected = record forward { headers = ("x-card", codes "{{pan}}") ∷ [] }

sent_run :
    (forward_via_vault toy network 2000 corrected (with_token, [])).1.1
    ≡ record {
      url = "https://psp.example/charge";
      method = codes "POST";
      headers = ("x-card", codes "4242424242424242") ∷ [];
      body = none;
    }
      ∷ []
unfolding forward_via_vault forward_to report consume_retrieval_token claim release load_claimed
    reveal open_card refuse mismatch find_token find_entry decrypt get_key find_key parse_card emit
    stringify_card strip substitute_headers substitute replace_from replacement value_of
sent_run = refl

-- But not once it was wasted.
abbrev retries : List Call
retries = Call.forward 3000 corrected ∷ Call.forward 4000 corrected ∷ []

forward_via_vault-wasted_example :
    (forward_via_vault toy network 2000 forward (with_token, [])
      ≡ (throw (other "Unknown template placeholder"), (after, [])))
    × IsSpent "vrt_1" after.tokens
    × (send_count toy network "vrt_1" retries (after, []) ≡ 0)
forward_via_vault-wasted_example =
    forward_via_vault-wasted toy network 2000 forward with_token after [] consumed
      (other "Unknown template placeholder") retries one_token-IsUnique
      (refl, record { protocol = "https:"; href = "https://psp.example/charge" }, refl, refl)
      consumed_run (inl typo_run)
