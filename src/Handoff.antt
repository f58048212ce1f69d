-- ===== src/Handoff.antt =====
-- packages/handoff/src/index.ts: the short-lived signed token that one service hands to the next.
-- HMAC-SHA256, base64url and the JSON of a payload are parameters.
pub mod Sound
pub mod RoundTrip
pub mod Tests
use karta_cards_vera.Common.{
  ℕ, ◌+◌, String, ◌==◌, Text, ℤ, pos, negsuc, Option, none, some, Bool, true, false, not, List, [],
  ◌∷◌, ◌++◌, eqb, ltb, any, text_eq, or_else, if◌then◌else◌,
}
use karta_cards_vera.Core.Encryption.{Bytes}

-- A payload as it is parsed: an expiry that is no number, and a missing issuer, are `none`. A
-- fractional expiry counts as its floor, which compares with whole seconds alike. The JSON value
-- null, which throws at the reading of its expiry, counts as a payload that does not parse.
pub record HandoffPayload : Type 0 where
  pub sub : String
  pub purpose : String
  pub iat : Option ℤ
  pub exp : Option ℤ
  pub iss : Option String
  pub ctx : Option String

pub data HandoffError : Type 0 where
  malformed_token malformed_payload bad_signature : HandoffError
  expired wrong_purpose unknown_issuer : HandoffError

pub data Handoff (A : Type 0) : Type 0 where
  accepted : A → Handoff A
  rejected : HandoffError → Handoff A

-- The HMAC of a secret in hex and a message, base64url both ways, and JSON both ways.
pub record Codec : Type 0 where
  pub mac : Text → Text → Bytes
  pub b64url : Bytes → Text
  pub from_b64url : Text → Bytes
  pub stringify : HandoffPayload → Bytes
  pub parse : Bytes → Option HandoffPayload

pub record SignInput : Type 0 where
  pub sub : String
  pub purpose : String
  pub iss : String
  pub ttl_seconds : Option ℕ
  pub ctx : Option String

abbrev pub payload_of : SignInput → ℕ → HandoffPayload
payload_of i now = record {
  sub = i.sub;
  purpose = i.purpose;
  iat = some (pos now);
  exp = some (pos (now + or_else i.ttl_seconds 30));
  iss = some i.iss;
  ctx = i.ctx;
}

unfoldable pub sign_handoff : Codec → ℕ → SignInput → Text → Text
sign_handoff c now i secret =
    let payload = c.b64url (c.stringify (payload_of i now)) in
    payload ++ b'.' ∷ c.b64url (c.mac secret payload)

-- `split('.')`
abbrev pub push_char : ℕ → List Text → List Text
push_char c [] = (c ∷ []) ∷ []
push_char c (p ∷ ps) = (c ∷ p) ∷ ps

abbrev pub split_dot : Text → List Text
split_dot [] = [] ∷ []
split_dot (c ∷ cs) = let rest = split_dot cs in if eqb c b'.' then [] ∷ rest else push_char c rest

-- Exactly two parts.
abbrev pub two_parts : List Text → Option (Text × Text)
two_parts (a ∷ b ∷ []) = some (a, b)
two_parts _ = none

pub record VerifyInput : Type 0 where
  pub token : Text
  pub secret : Text
  pub expected_purpose : String
  pub allowed_issuers : Option (List String)

-- `typeof payload.exp !== 'number' || payload.exp < now`
abbrev pub is_expired : ℕ → Option ℤ → Bool
is_expired now none = true
is_expired now (some (negsuc n)) = true
is_expired now (some (pos e)) = ltb e now

abbrev pub same_issuer : Option String → String → Bool
same_issuer none i = false
same_issuer (some iss) i = i == iss

abbrev pub issuer_allowed : Option (List String) → Option String → Bool
issuer_allowed none iss = true
issuer_allowed (some allowed) iss = any (same_issuer iss) allowed

unfoldable pub check_payload : VerifyInput → ℕ → HandoffPayload → Handoff HandoffPayload
check_payload i now p =
    if is_expired now p.exp
    then rejected expired
    else if not (p.purpose == i.expected_purpose)
    then rejected wrong_purpose
    else if not (issuer_allowed i.allowed_issuers p.iss)
    then rejected unknown_issuer
    else accepted p

unfoldable pub verify_parts : Codec → ℕ → VerifyInput → Text × Text → Handoff HandoffPayload
verify_parts c now i (payload, sig) =
    if text_eq (c.mac i.secret payload) (c.from_b64url sig)
    then elim (c.parse (c.from_b64url payload)) [
      | none ↦ rejected malformed_payload
      | some p ↦ check_payload i now p
    ]
    else rejected bad_signature

unfoldable pub verify_handoff : Codec → ℕ → VerifyInput → Handoff HandoffPayload
verify_handoff c now i = elim (two_parts (split_dot i.token)) [
  | none ↦ rejected malformed_token
  | some parts ↦ verify_parts c now i parts
]
