-- ===== src/Handoff/Sound.antt =====
-- What an accepted token proves.
use karta_cards_vera.Common.{
  ℕ, ◌≤◌, ◌≡◌, refl, ◌==◌, eq_iff, Text, ℤ, pos, negsuc, Option, none, some, true, false, List, [],
  ◌∷◌, text_eq, text_eq_iff, arith, Option-cases, Bool-cases, inl, inr,
}
use karta_cards_vera.Handoff.{
  HandoffPayload, accepted, Codec, VerifyInput, split_dot, two_parts, is_expired, issuer_allowed,
  check_payload, verify_parts, verify_handoff,
}

-- A token of two parts, the second the MAC of the first under the secret, the first a payload that
-- has not expired, for the purpose that is expected and from an issuer that is allowed.
pub record IsIssued (c : Codec) (now : ℕ) (i : VerifyInput) (p : HandoffPayload) : Type 0 where
  pub payload : Text
  pub sig : Text
  pub parts : split_dot i.token ≡ payload ∷ sig ∷ []
  pub signed : c.mac i.secret payload ≡ c.from_b64url sig
  pub parses : c.parse (c.from_b64url payload) ≡ some p
  pub fresh : (e : ℕ) × (p.exp ≡ some (pos e)) × (now ≤ e)
  pub purpose : p.purpose ≡ i.expected_purpose
  pub issuer : issuer_allowed i.allowed_issuers p.iss ≡ true

two_parts-some : (ps : List Text) (a b : Text) → two_parts ps ≡ some (a, b) → ps ≡ a ∷ b ∷ []
two_parts-some [] a b h = cc
two_parts-some (x ∷ []) a b h = cc
two_parts-some (x ∷ y ∷ []) a b h = ground arith
two_parts-some (x ∷ y ∷ z ∷ ps) a b h = cc

is_expired-false :
    (now : ℕ) (o : Option ℤ) → is_expired now o ≡ false → (e : ℕ) × (o ≡ some (pos e)) × (now ≤ e)
is_expired-false now none h = cc
is_expired-false now (some (negsuc n)) h = cc
is_expired-false now (some (pos e)) h = (e, refl, ground arith)

check_payload-accepted :
    (i : VerifyInput) (now : ℕ) (p q : HandoffPayload)
    → check_payload i now p ≡ accepted q
    → (p ≡ q)
      × (is_expired now p.exp ≡ false)
      × (p.purpose ≡ i.expected_purpose)
      × (issuer_allowed i.allowed_issuers p.iss ≡ true)
unfolding check_payload
check_payload-accepted i now p q h = elim (Bool-cases (is_expired now p.exp)) [
  | inl x ↦ cc (rw (x, check_payload) at h)
  | inr x ↦ elim (Bool-cases (p.purpose == i.expected_purpose)) [
    | inr y ↦ cc (rw (x, y, check_payload) at h)
    | inl y ↦ elim (Bool-cases (issuer_allowed i.allowed_issuers p.iss)) [
      | inr z ↦ cc (rw (x, y, z, check_payload) at h)
      | inl z ↦
          let passed : accepted p ≡ accepted q = rw (x, y, z, check_payload) at h in
          (cc passed, x, (eq_iff p.purpose i.expected_purpose).0 y, z)
    ]
  ]
]

verify_parts-accepted :
    (c : Codec) (now : ℕ) (i : VerifyInput) (payload sig : Text) (q : HandoffPayload)
    → verify_parts c now i (payload, sig) ≡ accepted q
    → (c.mac i.secret payload ≡ c.from_b64url sig)
      × (c.parse (c.from_b64url payload) ≡ some q)
      × (check_payload i now q ≡ accepted q)
unfolding verify_parts
verify_parts-accepted c now i payload sig q h =
    elim (Bool-cases (text_eq (c.mac i.secret payload) (c.from_b64url sig))) [
      | inr x ↦ cc (rw (x, verify_parts) at h)
      | inl x ↦ elim (Option-cases (c.parse (c.from_b64url payload))) [
        | inl y ↦ cc (rw (x, y, verify_parts) at h)
        | inr (p, y) ↦
            let passed : check_payload i now p ≡ accepted q = rw (x, y, verify_parts) at h in
            let (same, _, _, _) = check_payload-accepted i now p q passed in
            ((text_eq_iff _ _).0 x, rw (← same) y, rw same at passed)
      ]
    ]

-- A token that is accepted has two parts, the second of which is the MAC of the first under the
-- secret, and its payload is the one that is returned: it has an expiry that has not passed, the
-- expected purpose, and, where issuers are listed, one of them.
pub verify_handoff-IsIssued :
    (c : Codec) (now : ℕ) (i : VerifyInput) (p : HandoffPayload)
    → verify_handoff c now i ≡ accepted p
    → IsIssued c now i p
unfolding verify_handoff
verify_handoff-IsIssued c now i p h = elim (Option-cases (two_parts (split_dot i.token))) [
  | inl x ↦ cc (rw (x, verify_handoff) at h)
  | inr ((payload, sig), x) ↦
      let (signed, parses, checked) =
        verify_parts-accepted c now i payload sig p (rw (x, verify_handoff) at h) in
      let (_, live, purpose, issuer) = check_payload-accepted i now p p checked in
      record {
        payload = payload;
        sig = sig;
        parts = two_parts-some (split_dot i.token) payload sig x;
        signed = signed;
        parses = parses;
        fresh = is_expired-false now p.exp live;
        purpose = purpose;
        issuer = issuer;
      }
]
