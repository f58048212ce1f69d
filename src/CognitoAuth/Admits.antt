-- ===== src/CognitoAuth/Admits.antt =====
-- Exactly who is admitted.
use karta_cards_vera.Common.{
  ℕ, zero, suc, ◌≡◌, refl, sym, ap, ◌∙◌, ◌↔◌, String, eq_iff, eq_refl, Text, Option, none, some,
  true, [], ◌∷◌, ◌++◌, take, drop, text_eq, text_eq_iff, Option-cases, Bool-cases, inl, inr, ◌⊎◌,
}
use karta_cards_vera.CognitoAuth.{
  CognitoUser, CognitoAuthConfig, JwtPayload, next, extract_user, is_claim, is_bound, in_group,
  on_allowlist, check_payload, bearer, cognito_auth,
}

-- A bearer token that verifies to a payload which is bound to the client, by `client_id` as an access
-- token or by `aud` as an ID token, of a user in the required group and on the allowlist.
pub record IsAdmitted (cfg : CognitoAuthConfig) (jwt_verify : Text → Option JwtPayload)
    (auth : Option Text) (user : CognitoUser) : Type 0 where
  pub token : Text
  pub payload : JwtPayload
  pub header : auth ≡ some (bearer ++ token)
  pub verifies : jwt_verify token ≡ some payload
  pub bound :
      ((payload.token_use ≡ some "access") × (payload.client_id ≡ some cfg.client_id))
      ⊎ ((payload.token_use ≡ some "id") × (payload.aud ≡ some cfg.client_id))
  pub grouped : in_group cfg user ≡ true
  pub listed : on_allowlist cfg user ≡ true
  pub user_is : user ≡ extract_user payload

is_claim-some : (v : String) (o : Option String) → is_claim v o ≡ true → o ≡ some v
is_claim-some v none h = cc
is_claim-some v (some w) h = ap some ((eq_iff w v).0 h)

is_bound-cases :
    (cfg : CognitoAuthConfig) (p : JwtPayload)
    → is_bound cfg p ≡ true
    → ((p.token_use ≡ some "access") × (p.client_id ≡ some cfg.client_id))
      ⊎ ((p.token_use ≡ some "id") × (p.aud ≡ some cfg.client_id))
unfolding is_bound
is_bound-cases cfg p h = elim (Bool-cases (is_claim "access" p.token_use)) [
  | inl x ↦ inl (
    is_claim-some "access" p.token_use x,
    is_claim-some cfg.client_id p.client_id (rw (x, is_bound) at h),
  )
  | inr x ↦ elim (Bool-cases (is_claim "id" p.token_use)) [
    | inl y ↦ inr (
      is_claim-some "id" p.token_use y,
      is_claim-some cfg.client_id p.aud (rw (x, y, is_bound) at h),
    )
    | inr y ↦ cc (rw (x, y, is_bound) at h)
  ]
]

bound-is_bound :
    (cfg : CognitoAuthConfig) (p : JwtPayload)
    → ((p.token_use ≡ some "access") × (p.client_id ≡ some cfg.client_id))
      ⊎ ((p.token_use ≡ some "id") × (p.aud ≡ some cfg.client_id))
    → is_bound cfg p ≡ true
unfolding is_bound
bound-is_bound cfg p (inl (x, y)) = rw (x, y, is_bound) (eq_refl cfg.client_id)
bound-is_bound cfg p (inr (x, y)) = rw (x, y, is_bound) (eq_refl cfg.client_id)

check_payload-next :
    (cfg : CognitoAuthConfig) (p : JwtPayload) (user : CognitoUser)
    → check_payload cfg p ≡ next user
    → (is_bound cfg p ≡ true)
      × (in_group cfg user ≡ true)
      × (on_allowlist cfg user ≡ true)
      × (user ≡ extract_user p)
unfolding check_payload
check_payload-next cfg p user h = elim (Bool-cases (is_bound cfg p)) [
  | inr x ↦ cc (rw (x, check_payload) at h)
  | inl x ↦ elim (Bool-cases (in_group cfg (extract_user p))) [
    | inr y ↦ cc (rw (x, y, check_payload) at h)
    | inl y ↦ elim (Bool-cases (on_allowlist cfg (extract_user p))) [
      | inr z ↦ cc (rw (x, y, z, check_payload) at h)
      | inl z ↦
          let passed : next (extract_user p) ≡ next user = rw (x, y, z, check_payload) at h in
          let same : user ≡ extract_user p = cc passed in (x, rw same y, rw same z, same)
    ]
  ]
]

take-append-drop : (n : ℕ) (t : Text) → take n t ++ drop n t ≡ t
take-append-drop zero t = refl
take-append-drop (suc n) [] = refl
take-append-drop (suc n) (c ∷ t) = ap (λ u. c ∷ u) (take-append-drop n t)

split-bearer : (auth : Text) → take 7 auth ≡ bearer → auth ≡ bearer ++ drop 7 auth
split-bearer auth h = sym (take-append-drop 7 auth) ∙ ap (λ t. t ++ drop 7 auth) h

cognito_auth-next :
    (cfg : CognitoAuthConfig) (jwt_verify : Text → Option JwtPayload) (auth : Option Text)
    (user : CognitoUser)
    → cognito_auth cfg jwt_verify auth ≡ next user
    → IsAdmitted cfg jwt_verify auth user
unfolding cognito_auth
cognito_auth-next cfg jwt_verify none user h = cc
cognito_auth-next cfg jwt_verify (some auth) user h =
    elim (Bool-cases (text_eq (take 7 auth) bearer)) [
      | inr x ↦ cc (rw (x, cognito_auth) at h)
      | inl x ↦ elim (Option-cases (jwt_verify (drop 7 auth))) [
        | inl y ↦ cc (rw (x, y, cognito_auth) at h)
        | inr (p, y) ↦
            let (bound, grouped, listed, user_is) =
              check_payload-next cfg p user (rw (x, y, cognito_auth) at h) in
            record {
              token = drop 7 auth;
              payload = p;
              header = ap some (split-bearer auth ((text_eq_iff (take 7 auth) bearer).0 x));
              verifies = y;
              bound = is_bound-cases cfg p bound;
              grouped = grouped;
              listed = listed;
              user_is = user_is;
            }
      ]
    ]

next-cognito_auth :
    (cfg : CognitoAuthConfig) (jwt_verify : Text → Option JwtPayload) (auth : Option Text)
    (user : CognitoUser)
    → IsAdmitted cfg jwt_verify auth user
    → cognito_auth cfg jwt_verify auth ≡ next user
unfolding cognito_auth check_payload
next-cognito_auth cfg jwt_verify auth user a =
    let bound = bound-is_bound cfg a.payload a.bound in
    let grouped : in_group cfg (extract_user a.payload) ≡ true = rw (← a.user_is) a.grouped in
    let listed : on_allowlist cfg (extract_user a.payload) ≡ true = rw (← a.user_is) a.listed in
    let checked : check_payload cfg a.payload ≡ next (extract_user a.payload) =
      rw (bound, grouped, listed, check_payload) refl in
    let start : cognito_auth cfg jwt_verify (some (bearer ++ a.token))
        ≡ next (extract_user a.payload) =
      rw (a.verifies, cognito_auth) checked in
    ap (cognito_auth cfg jwt_verify) a.header ∙ (start ∙ ap next (sym a.user_is))

-- The middleware passes a user on exactly for a bearer token that verifies, is bound to this client,
-- and belongs to a user who is in the required group and on the allowlist, where these are set; and
-- the user is the token's.
pub cognito_auth_iff :
    (cfg : CognitoAuthConfig) (jwt_verify : Text → Option JwtPayload) (auth : Option Text)
    (user : CognitoUser)
    → (cognito_auth cfg jwt_verify auth ≡ next user) ↔ IsAdmitted cfg jwt_verify auth user
cognito_auth_iff cfg jwt_verify auth user =
    (cognito_auth-next cfg jwt_verify auth user, next-cognito_auth cfg jwt_verify auth user)
