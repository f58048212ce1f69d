-- ===== src/ServiceAuth/RoundTrip.antt =====
-- What a signer writes, a verifier with the same secret accepts.
use karta_cards_vera.Common.{
  ℕ, suc, ◌≤◌, ◌<◌, ◌+◌, ◌*◌, ◌/◌, ◌%◌, ◌≡◌, refl, ap, ◌∙◌, Text, codes, Option, some, none,
  if◌then◌else◌, true, false, List, [], ◌∷◌, ◌++◌, All, all, pos, or_else, is_empty, is_digit, ltb,
  text_eq_refl, arith,
}
use karta_cards_vera.Core.Encryption.{Bytes}
use karta_cards_vera.Core.Json.{hex_digit, hex_value}
use karta_cards_vera.Pay.Arqc.{to_hex, is_hex}
use karta_cards_vera.Pay.Arqc.Validate.{IsByte}
use karta_cards_vera.ServiceAuth.{
  Mac, accepted, SignRequestInput, sign_request, VerifyRequestInput, ParsedAuth,
  parse_authorization, read_parts, parse_int, show_int, pairs, split_comma, scheme, secret_for,
  distance, default_window, canonical, from_hex, verify_parsed, verify_request, next, is_falsy,
  key_value, RequireSignedRequestOptions, require_signed_request,
}
use karta_cards_vera.ServiceAuth.Decimal.{
  parse_int-show_int, decimal_from-digits, decimal_from-cons,
}
use karta_cards_vera.ServiceAuth.Pieces.{
  is_plain, is_solid, is_solid-all, all-append, split_comma-append, split_comma-all, trim-all,
  second_part-all,
}

-- What is assumed of HMAC: bytes, and at least one.
pub record MacLaws (m : Mac) : Type 0 where
  pub bytes : (secret message : Text) → All IsByte (m.hmac secret message)
  pub some_bytes : (secret message : Text) → is_empty (m.hmac secret message) ≡ false

hex_digit-plain : (d : ℕ) → d < 16 → is_plain (hex_digit d) ≡ true
hex_digit-plain d h = ground arith

hex_digit-is_hex : (d : ℕ) → d < 16 → is_hex (hex_digit d) ≡ true
hex_digit-is_hex d h = ground arith

hex_value-hex_digit : (d : ℕ) → d < 16 → hex_value (hex_digit d) ≡ some d
hex_value-hex_digit d h = ground arith

to_hex-plain : (b : Bytes) → All IsByte b → all is_plain (to_hex b) ≡ true
unfolding to_hex
to_hex-plain [] h = refl
to_hex-plain (x ∷ b) (small, h) =
    let high = hex_digit-plain (x / 16) (omega arith) in
    let low = hex_digit-plain (x % 16) (omega arith) in rw (high, low) (to_hex-plain b h)

to_hex-is_hex : (b : Bytes) → All IsByte b → all is_hex (to_hex b) ≡ true
unfolding to_hex
to_hex-is_hex [] h = refl
to_hex-is_hex (x ∷ b) (small, h) =
    let high = hex_digit-is_hex (x / 16) (omega arith) in
    let low = hex_digit-is_hex (x % 16) (omega arith) in rw (high, low) (to_hex-is_hex b h)

pub from_hex-to_hex : (b : Bytes) → All IsByte b → from_hex (to_hex b) ≡ b
unfolding to_hex from_hex
from_hex-to_hex [] h = refl
from_hex-to_hex (x ∷ b) (small, h) =
    let high = hex_value-hex_digit (x / 16) (omega arith) in
    let low = hex_value-hex_digit (x % 16) (omega arith) in
    let same : x / 16 * 16 + x % 16 ≡ x = omega arith in
    rw (high, low, from_hex-to_hex b h, same) refl

to_hex-nonempty : (b : Bytes) → is_empty b ≡ false → is_empty (to_hex b) ≡ false
unfolding to_hex
to_hex-nonempty [] h = h
to_hex-nonempty (x ∷ b) h = refl

digit-plain : (t : Text) → all is_digit t ≡ true → all is_plain t ≡ true
digit-plain [] h = refl
digit-plain (c ∷ t) h = ground (arith, digit-plain t)

-- The three parts of a header.
abbrev parts_text : Text → Text → Text → Text
parts_text key ts sig = codes "keyId=" ++ (key ++ (codes ",ts=" ++ (ts ++ (codes ",sig=" ++ sig))))

parse_authorization-scheme :
    (c : ℕ) (rest : Text)
    → all is_solid (c ∷ rest) ≡ true
    → parse_authorization (scheme ++ 32 ∷ c ∷ rest)
      ≡ elim (pairs (split_comma (c ∷ rest))) [ none ↦ none | some ps ↦ read_parts ps ]
unfolding parse_authorization
parse_authorization-scheme c rest h =
    ap
      (λ (o : Option Text). elim o as (λ _. Option ParsedAuth) [
        | none ↦ none
        | some rest ↦
            if is_empty rest
            then none
            else elim (pairs (split_comma rest)) [ none ↦ none | some ps ↦ read_parts ps ]
      ])
      (second_part-all (c ∷ rest) h)

-- Text that can stand in a header: not empty, and with no white space and no comma.
pub record IsWord (t : Text) : Type 0 where
  pub plain : all is_plain t ≡ true
  pub nonempty : is_empty t ≡ false

parts_text-solid :
    (key ts sig : Text)
    → all is_plain key ≡ true
    → all is_plain ts ≡ true
    → all is_plain sig ≡ true
    → all is_solid (parts_text key ts sig) ≡ true
parts_text-solid key ts sig hk ht hs =
    all-append is_solid key _ (is_solid-all key hk)
      (all-append is_solid ts _ (is_solid-all ts ht) (is_solid-all sig hs))

split_comma-parts_text :
    (key ts sig : Text)
    → all is_plain key ≡ true
    → all is_plain ts ≡ true
    → all is_plain sig ≡ true
    → split_comma (parts_text key ts sig)
      ≡ (codes "keyId=" ++ key) ∷ (codes "ts=" ++ ts) ∷ (codes "sig=" ++ sig) ∷ []
split_comma-parts_text key ts sig hk ht hs =
    split_comma-append (codes "keyId=" ++ key) (codes "ts=" ++ (ts ++ (codes ",sig=" ++ sig))) hk
    ∙ ap (λ ps. (codes "keyId=" ++ key) ∷ ps)
        (split_comma-append (codes "ts=" ++ ts) (codes "sig=" ++ sig) ht
          ∙ ap (λ ps. (codes "ts=" ++ ts) ∷ ps) (split_comma-all (codes "sig=" ++ sig) hs))

pairs-parts_text :
    (key ts sig : Text)
    → all is_plain key ≡ true
    → all is_plain ts ≡ true
    → all is_plain sig ≡ true
    → pairs ((codes "keyId=" ++ key) ∷ (codes "ts=" ++ ts) ∷ (codes "sig=" ++ sig) ∷ [])
      ≡ some ((codes "keyId", key) ∷ (codes "ts", ts) ∷ (codes "sig", sig) ∷ [])
pairs-parts_text key ts sig hk ht hs = rw (trim-all key hk, trim-all ts ht, trim-all sig hs) refl

abbrev read_pairs : Option (List (Text × Text)) → Option ParsedAuth
read_pairs o = elim o [ none ↦ none | some ps ↦ read_parts ps ]

read_parts-signed :
    (key ts sig : Text) (t : ℕ)
    → IsWord key
    → IsWord ts
    → IsWord sig
    → parse_int ts ≡ some (pos t)
    → all is_hex sig ≡ true
    → read_parts ((codes "keyId", key) ∷ (codes "ts", ts) ∷ (codes "sig", sig) ∷ [])
      ≡ some (record { key_id = key; ts = pos t; sig = sig })
read_parts-signed key ts sig t wk wt ws ht hs =
    rw (wk.nonempty, wt.nonempty, ws.nonempty, ht, hs) refl

parse_authorization-parts_text :
    (key ts sig : Text) (t : ℕ)
    → IsWord key
    → IsWord ts
    → IsWord sig
    → parse_int ts ≡ some (pos t)
    → all is_hex sig ≡ true
    → parse_authorization (scheme ++ 32 ∷ parts_text key ts sig)
      ≡ some (record { key_id = key; ts = pos t; sig = sig })
parse_authorization-parts_text key ts sig t wk wt ws ht hs =
    parse_authorization-scheme b'k'
      (codes "eyId=" ++ (key ++ (codes ",ts=" ++ (ts ++ (codes ",sig=" ++ sig)))))
      (parts_text-solid key ts sig wk.plain wt.plain ws.plain)
    ∙ (ap (λ ps. read_pairs (pairs ps))
          (split_comma-parts_text key ts sig wk.plain wt.plain ws.plain)
        ∙ (ap read_pairs (pairs-parts_text key ts sig wk.plain wt.plain ws.plain)
            ∙ read_parts-signed key ts sig t wk wt ws ht hs))

show_int-IsWord : (n : ℕ) → IsWord (show_int (pos n))
show_int-IsWord n = record {
  plain = digit-plain (show_int (pos n)) (decimal_from-digits (suc n) n);
  nonempty = let (c, cs, shape) = decimal_from-cons n n in rw shape refl;
}

module _ (m : Mac) (laws : MacLaws m) where
  to_hex-hmac-IsWord : (secret message : Text) → IsWord (to_hex (m.hmac secret message))
  to_hex-hmac-IsWord secret message = record {
    plain = to_hex-plain (m.hmac secret message) (laws.bytes secret message);
    nonempty = to_hex-nonempty (m.hmac secret message) (laws.some_bytes secret message);
  }

  parse_authorization-sign_request :
      (i : SignRequestInput)
      → IsWord i.key_id
      → parse_authorization (sign_request m i)
        ≡ some (record {
          key_id = i.key_id;
          ts = pos i.now;
          sig = to_hex (m.hmac i.secret (canonical m i.method i.path_and_query (pos i.now) i.body));
        })
  unfolding sign_request
  parse_authorization-sign_request i w =
      let message = canonical m i.method i.path_and_query (pos i.now) i.body in
      parse_authorization-parts_text i.key_id (show_int (pos i.now))
        (to_hex (m.hmac i.secret message)) i.now w (show_int-IsWord i.now)
        (to_hex-hmac-IsWord i.secret message) (parse_int-show_int i.now)
        (to_hex-is_hex (m.hmac i.secret message) (laws.bytes i.secret message))

sign_request-nonempty : (m : Mac) (i : SignRequestInput) → is_empty (sign_request m i) ≡ false
unfolding sign_request
sign_request-nonempty m i = refl

-- What a request is verified with, when it arrives as it was signed.
abbrev arrival :
    Mac → SignRequestInput → RequireSignedRequestOptions → Option Bytes → ℕ → VerifyRequestInput
arrival m i opts raw later = record {
  authorization = some (sign_request m i);
  method = i.method;
  path_and_query = i.path_and_query;
  body = or_else raw [];
  keys = opts.keys;
  now = later;
  window_seconds = opts.window_seconds;
}

module _ (m : Mac) (i : SignRequestInput) (opts : RequireSignedRequestOptions) (raw : Option Bytes)
    (later : ℕ) (laws : MacLaws m) (w : IsWord i.key_id) (same : or_else raw [] ≡ i.body)
    (known : secret_for i.key_id opts.keys ≡ some i.secret)
    (timely : distance later (pos i.now) ≤ or_else opts.window_seconds default_window) where
  verify_parsed-sign_request :
      verify_parsed m (arrival m i opts raw later) (record {
        key_id = i.key_id;
        ts = pos i.now;
        sig = to_hex (m.hmac i.secret (canonical m i.method i.path_and_query (pos i.now) i.body));
      })
      ≡ accepted i.key_id
  unfolding verify_parsed
  verify_parsed-sign_request =
      let mac = m.hmac i.secret (canonical m i.method i.path_and_query (pos i.now) i.body) in
      let late : ltb (or_else opts.window_seconds default_window) (distance later (pos i.now))
          ≡ false =
        ground arith in
      let bytes : All IsByte mac = laws.bytes i.secret _ in
      let mac_same : m.hmac i.secret
            (canonical m i.method i.path_and_query (pos i.now) (or_else raw []))
          ≡ mac =
        ap (λ b. m.hmac i.secret (canonical m i.method i.path_and_query (pos i.now) b)) same in
      rw
        (
          known,
          late,
          is_falsy,
          key_value,
          mac_same,
          from_hex-to_hex mac bytes,
          text_eq_refl mac,
          verify_parsed,
        )
        refl

  verify_request-sign_request : verify_request m (arrival m i opts raw later) ≡ accepted i.key_id
  unfolding verify_request
  verify_request-sign_request =
      rw (sign_request-nonempty m i, parse_authorization-sign_request m laws i w, verify_request)
        verify_parsed-sign_request

  -- A signed request that arrives with the same body (which is absent where it is empty), within the window of the verifier's clock and under a
  -- key id that the verifier knows with the signer's secret, is passed on with that key id. The key
  -- id is a word without white space and commas.
  pub require_signed_request-sign_request :
      require_signed_request m opts (some (sign_request m i)) i.method i.path_and_query raw later
      ≡ next i.key_id
  unfolding require_signed_request
  require_signed_request-sign_request =
      rw (verify_request-sign_request, require_signed_request) refl
