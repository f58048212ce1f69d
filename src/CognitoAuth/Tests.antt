-- ===== src/CognitoAuth/Tests.antt =====
-- Witnesses for the theorem about packages/cognito-auth.
use karta_cards_vera.Common.{◌≡◌, ◌↔◌, refl, Text, codes, string_of, Option, none, some, [], ◌∷◌}
use karta_cards_vera.CognitoAuth.{
  CognitoUser, CognitoAuthConfig, JwtPayload, next, extract_user, is_bound, in_group, on_allowlist,
  check_payload, cognito_auth,
}
use karta_cards_vera.CognitoAuth.Admits.{IsAdmitted, cognito_auth_iff}

abbrev config : CognitoAuthConfig
config = record {
  client_id = "admin-app";
  required_group = some "staff";
  email_allowlist = some (codes "Ann@x.io" ∷ []);
}

-- A library that takes the token for the subject.
abbrev jwt_verify : Text → Option JwtPayload
jwt_verify token = some (record {
  sub = some (string_of token);
  token_use = some "id";
  client_id = none;
  aud = some "admin-app";
  email = some (codes "ann@x.io");
  groups = some (none ∷ some "staff" ∷ []);
})

abbrev user : CognitoUser
user = record { sub = "t0ken"; email = some (codes "ann@x.io"); groups = "staff" ∷ [] }

admitted_run : cognito_auth config jwt_verify (some (codes "Bearer t0ken")) ≡ next user
unfolding cognito_auth check_payload extract_user is_bound in_group on_allowlist
admitted_run = refl

cognito_auth_iff_example :
    (cognito_auth config jwt_verify (some (codes "Bearer t0ken")) ≡ next user)
    ↔ IsAdmitted config jwt_verify (some (codes "Bearer t0ken")) user
cognito_auth_iff_example = cognito_auth_iff config jwt_verify (some (codes "Bearer t0ken")) user
