-- ===== src/CognitoAuth.antt =====
-- packages/cognito-auth/src/index.ts: the middleware that admits a request by its Cognito token. The
-- verification of the token's signature, issuer and expiry by the jose library is a parameter. Lower
-- case is that of ASCII letters.
pub mod Admits
pub mod Tests
use karta_cards_vera.Common.{
  String, ◌==◌, Text, codes, Option, none, some, Bool, true, false, not, ◌&&◌, List, [], ◌∷◌, map,
  any, take, drop, text_eq, is_empty, or_else, if◌then◌else◌,
}
use karta_cards_vera.Pay.Arqc.{lower}

pub record CognitoUser : Type 0 where
  pub sub : String
  pub email : Option Text
  pub groups : List String

pub record CognitoAuthConfig : Type 0 where
  pub client_id : String
  pub required_group : Option String
  pub email_allowlist : Option (List Text)

-- A verified payload: a claim that is absent or no string is `none`; the groups are `none` where
-- the claim is no array, and a group that is no string is `none` in it.
pub record JwtPayload : Type 0 where
  pub sub : Option String
  pub token_use : Option String
  pub client_id : Option String
  pub aud : Option String
  pub email : Option Text
  pub groups : Option (List (Option String))

-- What the middleware does: pass the user on, or answer with a status.
pub data CognitoGate : Type 0 where
  next : CognitoUser → CognitoGate
  missing_token invalid_token forbidden : CognitoGate

-- `rawGroups.filter((g) => typeof g === 'string')`
abbrev pub only_strings : List (Option String) → List String
only_strings [] = []
only_strings (none ∷ gs) = only_strings gs
only_strings (some g ∷ gs) = g ∷ only_strings gs

abbrev pub groups_of : Option (List (Option String)) → List String
groups_of none = []
groups_of (some gs) = only_strings gs

unfoldable pub extract_user : JwtPayload → CognitoUser
extract_user p = record { sub = or_else p.sub ""; email = p.email; groups = groups_of p.groups }

abbrev pub is_claim : String → Option String → Bool
is_claim value none = false
is_claim value (some v) = v == value

-- The claim that binds a token to the client, by its use.
unfoldable pub is_bound : CognitoAuthConfig → JwtPayload → Bool
is_bound cfg p =
    if is_claim "access" p.token_use
    then is_claim cfg.client_id p.client_id
    else if is_claim "id" p.token_use
    then is_claim cfg.client_id p.aud
    else false

-- A group that is set and not empty has to be among the user's.
unfoldable pub in_group : CognitoAuthConfig → CognitoUser → Bool
in_group cfg user = elim cfg.required_group [
  | none ↦ true
  | some g ↦ if g == "" then true else any (λ h. h == g) user.groups
]

-- Without regard to case. An empty list admits nobody.
unfoldable pub on_allowlist : CognitoAuthConfig → CognitoUser → Bool
on_allowlist cfg user = elim cfg.email_allowlist [
  | none ↦ true
  | some list ↦ elim user.email [
    | none ↦ false
    | some e ↦ not (is_empty e) && any (text_eq (map lower e)) (map (map lower) list)
  ]
]

unfoldable pub check_payload : CognitoAuthConfig → JwtPayload → CognitoGate
check_payload cfg p =
    let user = extract_user p in
    if not (is_bound cfg p)
    then invalid_token
    else if not (in_group cfg user)
    then forbidden
    else if not (on_allowlist cfg user)
    then forbidden
    else next user

abbrev pub bearer : Text
bearer = codes "Bearer "

-- The middleware, on the authorization header.
unfoldable pub cognito_auth :
    CognitoAuthConfig → (Text → Option JwtPayload) → Option Text → CognitoGate
cognito_auth cfg jwt_verify none = missing_token
cognito_auth cfg jwt_verify (some auth) =
    if text_eq (take 7 auth) bearer
    then elim (jwt_verify (drop 7 auth)) [ none ↦ invalid_token | some p ↦ check_payload cfg p ]
    else missing_token

-- `Partial<CognitoAuthConfig>`, and the environment variable of the client's id. The user pool and
-- the region only choose the keys and the issuer of the library's verification.
pub record CognitoOverrides : Type 0 where
  pub client_id : Option String
  pub required_group : Option String
  pub email_allowlist : Option (List Text)

-- `requireCognitoAuth`, up to the middleware that it creates: the allowlist is not passed on.
unfoldable pub require_cognito_auth : Option String → CognitoOverrides → CognitoAuthConfig
require_cognito_auth env_client_id overrides = record {
  client_id = or_else overrides.client_id (or_else env_client_id "7pj9230obhsa6h6vrvk9tru7do");
  required_group = elim overrides.required_group [
    | none ↦ none
    | some g ↦ if g == "" then none else some g
  ];
  email_allowlist = none;
}
