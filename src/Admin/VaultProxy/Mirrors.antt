-- ===== src/Admin/VaultProxy/Mirrors.antt =====
-- What the browser is answered where the vault refuses.
use karta_cards_vera.Common.{ℕ, ◌≤◌, ◌≡◌, refl, Text, Option, none, some, true, leb, or_else, arith}
use karta_cards_vera.Core.Error.{Thrown, api, error_middleware}
use karta_cards_vera.Core.Exec.{ok, throw}
use karta_cards_vera.Core.Encryption.{Bytes}
use karta_cards_vera.Core.Http.{HttpResponse, Http}
use karta_cards_vera.Core.Zod.{Json, validate_body}
use karta_cards_vera.ServiceAuth.{Mac}
use karta_cards_vera.VaultClient.{StoreCardInput, store_card, send, read_response}
use karta_cards_vera.Admin.VaultProxy.{admin_auth, call_vault, store_schema, store_route}

-- Where the vault answers a store with an error, the admin service throws one that its own
-- middleware answers with the same status and the vault's code, or `vault_error` where the answer
-- names none.
pub store_route-mirrors :
    {A : Type 0} (m : Mac) (h : Http) (stringify : Json → Bytes) (parse : Text → Option A)
    (vault_url secret : Text) (now : ℕ) (body : Json) (input : StoreCardInput) (r : HttpResponse)
    → store_schema body ≡ some input
    → h.request (
        store_card m stringify vault_url
          (admin_auth m h stringify parse vault_url secret now)
          now
          input)
      ≡ ok r
    → 400 ≤ r.status_code
    → (e : Thrown) × (store_route m h stringify parse vault_url secret now body ≡ throw e)
      × ((error_middleware e).status ≡ r.status_code)
      × ((error_middleware e).code ≡ or_else (h.error_code r.text) "vault_error")
unfolding store_route call_vault send read_response error_middleware
store_route-mirrors m h stringify parse vault_url secret now body input r parsed sent bad =
    let valid : validate_body store_schema body ≡ ok input = rw (parsed, validate_body) refl in
    let refused : leb 400 r.status_code ≡ true = ground arith in
    let e : Thrown = api (record {
      status = r.status_code;
      code = or_else (h.error_code r.text) "vault_error";
      details = none;
    }) in
    (e, rw (valid, sent, refused, store_route, send, read_response, call_vault) refl, refl, refl)
