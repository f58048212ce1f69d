-- ===== src/Handoff/RoundTrip.antt =====
-- A token verifies with the secret that signed it, until it expires.
use karta_cards_vera.Common.{
  ℕ, ◌+◌, ◌≤◌, ◌≡◌, refl, ap, ◌∙◌, String, eq_refl, Text, Option, some, Bool, true, false, not,
  List, [], ◌∷◌, ◌++◌, eqb, ltb, all, or_else, text_eq_refl, arith,
}
use karta_cards_vera.Core.Encryption.{Bytes}
use karta_cards_vera.Handoff.{
  HandoffPayload, accepted, Codec, SignInput, payload_of, sign_handoff, VerifyInput, split_dot,
  two_parts, issuer_allowed, check_payload, verify_parts, verify_handoff,
}

abbrev pub no_dot : Text → Bool
no_dot = all (λ c. not (eqb c b'.'))

-- base64url has no dot and can be undone, and the JSON of the payload reads back as the payload.
pub record CodecLaws (c : Codec) (p : HandoffPayload) : Type 0 where
  pub plain : (b : Bytes) → no_dot (c.b64url b) ≡ true
  pub decoded : (b : Bytes) → c.from_b64url (c.b64url b) ≡ b
  pub parsed : c.parse (c.stringify p) ≡ some p

split_dot-all : (s : Text) → no_dot s ≡ true → split_dot s ≡ s ∷ []
split_dot-all [] h = refl
split_dot-all (c ∷ s) h =
    let first : eqb c b'.' ≡ false = ground arith in rw (first, split_dot-all s (ground arith)) refl

split_dot-append : (s t : Text) → no_dot s ≡ true → split_dot (s ++ b'.' ∷ t) ≡ s ∷ split_dot t
split_dot-append [] t h = refl
split_dot-append (c ∷ s) t h =
    let first : eqb c b'.' ≡ false = ground arith in
    rw (first, split_dot-append s t (ground arith)) refl

module _ (c : Codec) (now later : ℕ) (input : SignInput) (secret : Text)
    (allowed : Option (List String)) (laws : CodecLaws c (payload_of input now)) where
  abbrev pub verified : VerifyInput
  verified = record {
    token = sign_handoff c now input secret;
    secret = secret;
    expected_purpose = input.purpose;
    allowed_issuers = allowed;
  }

  abbrev payload : HandoffPayload
  payload = payload_of input now

  abbrev encoded : Text
  encoded = c.b64url (c.stringify payload)

  split_dot-sign_handoff :
      split_dot (sign_handoff c now input secret) ≡ encoded ∷ c.b64url (c.mac secret encoded) ∷ []
  unfolding sign_handoff
  split_dot-sign_handoff =
      split_dot-append encoded (c.b64url (c.mac secret encoded)) (laws.plain (c.stringify payload))
      ∙ ap (λ ps. encoded ∷ ps)
          (split_dot-all (c.b64url (c.mac secret encoded)) (laws.plain (c.mac secret encoded)))

  module _ (in_time : later ≤ now + or_else input.ttl_seconds 30)
      (issuer : issuer_allowed allowed (some input.iss) ≡ true) where
    check_payload-fresh : check_payload verified later payload ≡ accepted payload
    unfolding check_payload
    check_payload-fresh =
        let live : ltb (now + or_else input.ttl_seconds 30) later ≡ false = ground arith in
        rw (live, eq_refl input.purpose, issuer, check_payload) refl

    verify_parts-signed :
        verify_parts c later verified (encoded, c.b64url (c.mac secret encoded)) ≡ accepted payload
    unfolding verify_parts
    verify_parts-signed =
        rw
          (
            laws.decoded (c.mac secret encoded),
            text_eq_refl (c.mac secret encoded),
            laws.decoded (c.stringify payload),
            laws.parsed,
            verify_parts,
          )
          check_payload-fresh

    -- A token that was signed is accepted, with the payload that was signed, under the same secret
    -- and purpose by a verifier that allows the issuer, up to and including its last second.
    pub verify_handoff-sign_handoff : verify_handoff c later verified ≡ accepted payload
    unfolding verify_handoff
    verify_handoff-sign_handoff =
        rw (ap two_parts split_dot-sign_handoff, verify_handoff) verify_parts-signed
