-- ===== src/Handoff/Tests.antt =====
-- Witnesses for the theorems about packages/handoff.
use karta_cards_vera.Common.{
  ℕ, ◌+◌, ◌-◌, ◌≡◌, refl, ap₂, Text, codes, string_of, pos, Option, none, some, true, not, [], ◌∷◌,
  ◌++◌, map, take, drop, length, eqb, arith,
}
use karta_cards_vera.Core.Encryption.{Bytes}
use karta_cards_vera.Handoff.{
  HandoffPayload, accepted, Codec, SignInput, payload_of, sign_handoff, VerifyInput, check_payload,
  verify_parts, verify_handoff,
}
use karta_cards_vera.Handoff.RoundTrip.{no_dot, CodecLaws, verified, verify_handoff-sign_handoff}
use karta_cards_vera.Handoff.Sound.{IsIssued, verify_handoff-IsIssued}

-- Texts with their length in front.
abbrev prefixed : Text → Bytes
prefixed t = length t ∷ t

abbrev or_zero : Option ℕ → ℕ
or_zero none = 0
or_zero (some n) = n

abbrev stringify : HandoffPayload → Bytes
stringify p = elim p.exp [
  | some (pos e) ↦ e ∷ prefixed (codes p.sub) ++ prefixed (codes p.purpose)
  | _ ↦ []
]

abbrev parse_purpose : ℕ → Text → Bytes → Option HandoffPayload
parse_purpose e sub [] = none
parse_purpose e sub (n ∷ rest) = some (record {
  sub = string_of sub;
  purpose = string_of (take n rest);
  iat = some (pos (e - 30));
  exp = some (pos e);
  iss = some "admin";
  ctx = none;
})

abbrev parse : Bytes → Option HandoffPayload
parse (e ∷ n ∷ rest) = parse_purpose e (take n rest) (drop n rest)
parse _ = none

-- Base64url that moves each byte past the dot.
abbrev codec : Codec
codec = record {
  mac = λ secret message. 7 ∷ secret ++ take 2 message;
  b64url = map (λ b. b + 47);
  from_b64url = map (λ c. c - 47);
  stringify = stringify;
  parse = parse;
}

abbrev input : SignInput
input = record {
  sub = "user-1";
  purpose = "provision";
  iss = "admin";
  ttl_seconds = none;
  ctx = none;
}

abbrev payload : HandoffPayload
payload = payload_of input 1000

shifted-no_dot : (b : Bytes) → no_dot (map (λ c. c + 47) b) ≡ true
shifted-no_dot [] = refl
shifted-no_dot (c ∷ b) =
    let here : not (eqb (c + 47) 46) ≡ true = ground arith in rw here (shifted-no_dot b)

shifted_back : (b : Bytes) → map (λ c. c - 47) (map (λ c. c + 47) b) ≡ b
shifted_back [] = refl
shifted_back (c ∷ b) = ap₂ (λ x xs. x ∷ xs) (omega arith) (shifted_back b)

laws : CodecLaws codec payload
laws = record { plain = shifted-no_dot; decoded = shifted_back; parsed = refl }

abbrev secret : Text
secret = codes "5ecret"

abbrev received : VerifyInput
received = verified codec 1000 1030 input secret (some ("admin" ∷ [])) laws

verify_handoff-sign_handoff_example : verify_handoff codec 1030 received ≡ accepted payload
verify_handoff-sign_handoff_example =
    verify_handoff-sign_handoff codec 1000 1030 input secret (some ("admin" ∷ [])) laws
      (omega arith) refl

received_run : verify_handoff codec 1030 received ≡ accepted payload
unfolding verify_handoff verify_parts check_payload sign_handoff
received_run = refl

verify_handoff-IsIssued_example : IsIssued codec 1030 received payload
verify_handoff-IsIssued_example = verify_handoff-IsIssued codec 1030 received payload received_run
