-- ===== src/ServiceAuth/Sound.antt =====
-- What an accepted request proves.
use karta_cards_vera.Common.{
  ℕ, ◌≤◌, ◌≡◌, refl, Text, Option, some, true, false, ◌&&◌, text_eq, text_eq_iff, arith, ◌⊎◌,
  or_else, Option-cases, Bool-cases, inl, inr, ltb, not, subst, sym, is_empty, none, Bool,
}
use karta_cards_vera.Core.Error.{Thrown}
use karta_cards_vera.Core.Encryption.{Bytes}
use karta_cards_vera.ServiceAuth.{
  Mac, Verified, accepted, rejected, crashed, VerifyRequestInput, ParsedAuth, parse_authorization,
  secret_for, distance, default_window, canonical, from_hex, verify_parsed, verify_request,
  ServiceAuthError, next, answer, next_error, RequireSignedRequestOptions, require_signed_request,
  is_own, is_prototype_name, prototype_names, own_secret, check_signature, type_error, is_falsy,
  key_value, verify_input,
}
use karta_cards_vera.ServiceAuth.Inherited.{
  HasInheritedKey, inherited-crashed, on_parsed, on_header,
}

-- A request carries a valid signature of a key: the header parses, the key has a secret, the
-- timestamp is within the window, and the signature is the MAC of the method, the path, that
-- timestamp and the body.
pub record IsSigned (m : Mac) (i : VerifyRequestInput) (key_id : Text) : Type 0 where
  pub header : Text
  pub parsed : ParsedAuth
  pub secret : Text
  pub present : i.authorization ≡ some header
  pub parses : parse_authorization header ≡ some parsed
  pub named : parsed.key_id ≡ key_id
  pub known : secret_for key_id i.keys ≡ some secret
  pub timely : distance i.now parsed.ts ≤ or_else i.window_seconds default_window
  pub mac :
      m.hmac secret (canonical m i.method i.path_and_query parsed.ts i.body) ≡ from_hex parsed.sig

-- What a verification says of its request.
pub Means : Mac → VerifyRequestInput → Verified Text → Type 0
Means m i (accepted key_id) = IsSigned m i key_id
Means m i (rejected e) = Unit {0}
Means m i (crashed e) = (e ≡ type_error) × HasInheritedKey i

strange_parts : (a b : Bool) → (not a && b) ≡ true → (a ≡ false) × (b ≡ true)
strange_parts a b h = ground arith

not_late : (window skew : ℕ) → ltb window skew ≡ false → skew ≤ window
not_late window skew h = ground arith

module _ (m : Mac) (i : VerifyRequestInput) (p : ParsedAuth) (header : Text)
    (present : i.authorization ≡ some header) (parses : parse_authorization header ≡ some p) where
  check_mac-Means :
      (secret : Text)
      → secret_for p.key_id i.keys ≡ some secret
      → distance i.now p.ts ≤ or_else i.window_seconds default_window
      → Means m i (check_signature m i p (own_secret secret))
  unfolding Means
  check_mac-Means secret known timely =
      let mac = m.hmac secret (canonical m i.method i.path_and_query p.ts i.body) in
      elim (Bool-cases (text_eq mac (from_hex p.sig))) [
        | inr differs ↦ rw differs tt
        | inl fits ↦ rw fits (record {
          header = header;
          parsed = p;
          secret = secret;
          present = present;
          parses = parses;
          named = refl;
          known = known;
          timely = timely;
          mac = (text_eq_iff _ _).0 fits;
        })
      ]

  verify_parsed-Means : Means m i (verify_parsed m i p)
  unfolding verify_parsed Means
  verify_parsed-Means =
      elim (Bool-cases (ltb (or_else i.window_seconds default_window) (distance i.now p.ts))) [
        | inl late ↦ elim (Option-cases (secret_for p.key_id i.keys)) [
          | inr (secret, known) ↦ rw (known, late, is_falsy, key_value, verify_parsed) tt
          | inl missing ↦
              elim (Bool-cases
                (not (is_own p.key_id i.keys) && is_prototype_name p.key_id prototype_names)) [
                  | inl strange ↦ rw (missing, strange, late, is_falsy, key_value, verify_parsed) tt
                  | inr unknown ↦ rw (missing, unknown, is_falsy, key_value, verify_parsed) tt
                ]
        ]
        | inr on_time ↦ elim (Option-cases (secret_for p.key_id i.keys)) [
          | inr (secret, known) ↦
              subst (Means m i) (sym (rw (known, on_time, is_falsy, key_value, verify_parsed) refl))
                (check_mac-Means secret known (not_late _ _ on_time))
          | inl missing ↦
              elim (Bool-cases
                (not (is_own p.key_id i.keys) && is_prototype_name p.key_id prototype_names)) [
                  | inl strange ↦
                      rw (missing, strange, on_time, is_falsy, key_value, verify_parsed)
                        (
                          refl,
                          record {
                            header = header;
                            parsed = p;
                            present = present;
                            parses = parses;
                            foreign = (strange_parts _ _ strange).0;
                            listed = (strange_parts _ _ strange).1;
                            timely = not_late _ _ on_time;
                          },
                        )
                  | inr unknown ↦ rw (missing, unknown, is_falsy, key_value, verify_parsed) tt
                ]
        ]
      ]

module _ (m : Mac) (i : VerifyRequestInput) where
  on_parsed-Means :
      (header : Text)
      → i.authorization ≡ some header
      → (o : Option ParsedAuth) → parse_authorization header ≡ o
      → Means m i (on_parsed m i o)
  unfolding Means
  on_parsed-Means header present none parses = tt
  on_parsed-Means header present (some p) parses = verify_parsed-Means m i p header present parses

  on_header-Means : (a : Option Text) → i.authorization ≡ a → Means m i (on_header m i a)
  unfolding Means
  on_header-Means none missing = tt
  on_header-Means (some header) present = elim (Bool-cases (is_empty header)) [
    | inl blank ↦ rw blank tt
    | inr filled ↦ rw filled (on_parsed-Means header present (parse_authorization header) refl)
  ]

  verify_request-Means : Means m i (verify_request m i)
  unfolding verify_request
  verify_request-Means = on_header-Means i.authorization refl

Verified-cases :
    {A : Type 0} (r : Verified A)
    → ((a : A) × (r ≡ accepted a))
      ⊎ (((e : ServiceAuthError) × (r ≡ rejected e)) ⊎ ((e : Thrown) × (r ≡ crashed e)))
Verified-cases (accepted a) = inl (a, refl)
Verified-cases (rejected e) = inr (inl (e, refl))
Verified-cases (crashed e) = inr (inr (e, refl))

-- A request that the middleware passes on carries a valid signature of the key that it passes on, on
-- the body that was captured (or the empty body). Any other request is answered with a 401, except
-- exactly where its header parses, is within the window and names a key that `keys` does not have
-- but its prototype has: then the middleware passes a TypeError on to the error middleware.
pub require_signed_request-IsSigned :
    (m : Mac) (opts : RequireSignedRequestOptions) (authorization : Option Text) (method url : Text)
    (raw_body : Option Bytes) (now : ℕ)
    → ((key_id : Text) × (require_signed_request m opts authorization method url raw_body now
          ≡ next key_id)
        × IsSigned m (verify_input opts authorization method url raw_body now) key_id)
      ⊎ (((e : ServiceAuthError) × (require_signed_request m opts authorization method url raw_body
                now
              ≡ answer 401 e)
            × (¬ HasInheritedKey (verify_input opts authorization method url raw_body now)))
          ⊎ ((require_signed_request m opts authorization method url raw_body now
                ≡ next_error type_error)
              × HasInheritedKey (verify_input opts authorization method url raw_body now)))
unfolding require_signed_request Means
require_signed_request-IsSigned m opts authorization method url raw_body now =
    let i = verify_input opts authorization method url raw_body now in
    let meaning = verify_request-Means m i in
    elim (Verified-cases (verify_request m i)) [
      | inl (key_id, e) ↦
          inl (key_id, rw (e, require_signed_request) refl, subst (Means m i) e meaning)
      | inr (inl (err, e)) ↦ inr (
          inl (
            err,
            rw (e, require_signed_request) refl,
            λ strange. cc (e, inherited-crashed m i strange),
          ))
      | inr (inr (err, e)) ↦
          let (thrown, strange) : (err ≡ type_error) × HasInheritedKey i =
            subst (Means m i) e meaning in
          inr (inr (rw (e, thrown, require_signed_request) refl, strange))
    ]
