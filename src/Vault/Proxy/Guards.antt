-- ===== src/Vault/Proxy/Guards.antt =====
-- What the proxy checks before it touches a token, and what it sends.
use karta_cards_vera.Common.{
  ℕ, List, ◌≡◌, refl, String, none, some, true, ◌==◌, any, text_eq, if◌then◌else◌, Bool-cases,
  Option-cases, inl, inr,
}
use karta_cards_vera.Core.Error.{api, bad_request}
use karta_cards_vera.Core.Exec.{throw}
use karta_cards_vera.Vault.Db.{Db}
use karta_cards_vera.Vault.Store.{Crypto}
use karta_cards_vera.Vault.Proxy.{
  ProxyInput, OutRequest, Url, Network, allowed_methods, method_of, forward_via_vault,
}

-- A request that may be forwarded: an allowed method, and a destination that is an https URL.
abbrev pub MayForward : Network → ProxyInput → Type 0
MayForward net input =
    (any (text_eq (method_of input)) allowed_methods ≡ true)
    × (url : Url) × (net.parse_url input.destination ≡ some url)
    × ((url.protocol == "https:") ≡ true)

-- The error of a request that may not be forwarded.
abbrev pub refusal : Network → ProxyInput → String
refusal net input =
    if any (text_eq (method_of input)) allowed_methods
    then elim (net.parse_url input.destination) [
      | none ↦ "invalid_destination"
      | some url ↦ "insecure_destination"
    ]
    else "method_not_allowed"

-- A request with a method that is not allowed, or a destination that is no URL or not https, is
-- refused with a 400 that says which, before its token is consumed: the vault is unchanged and nothing is sent.
pub forward_via_vault-refused :
    (c : Crypto) (net : Network) (now : ℕ) (input : ProxyInput) (s : Db) (sent : List OutRequest)
    → ¬ MayForward net input
    → forward_via_vault c net now input (s, sent)
      ≡ (throw (api (bad_request (refusal net input))), (s, sent))
unfolding forward_via_vault
forward_via_vault-refused c net now input s sent bad =
    elim (Bool-cases (any (text_eq (method_of input)) allowed_methods)) [
      | inr e ↦ rw (e, forward_via_vault) refl
      | inl e ↦ elim (Option-cases (net.parse_url input.destination)) [
        | inl e' ↦ rw (e, e', forward_via_vault) refl
        | inr (url, e') ↦ elim (Bool-cases (url.protocol == "https:")) [
          | inr e'' ↦ rw (e, e', e'', forward_via_vault) refl
          | inl e'' ↦ absurd (bad (e, url, e', e''))
        ]
      ]
    ]
