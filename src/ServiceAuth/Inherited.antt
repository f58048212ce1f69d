-- ===== src/ServiceAuth/Inherited.antt =====
-- A key id that names no own property of `keys` but one of its prototype: the verification throws an
-- error that is no `ServiceAuthError`.
use karta_cards_vera.Common.{
  ℕ, ◌≤◌, ◌≡◌, refl, ap, ◌∙◌, Text, Option, none, some, true, false, List, [], ◌∷◌, text_eq, arith,
  or_else, Bool-cases, inl, inr, ltb, is_empty, if◌then◌else◌,
}
use karta_cards_vera.ServiceAuth.{
  Mac, Verified, rejected, crashed, VerifyRequestInput, ParsedAuth, parse_authorization, secret_for,
  distance, default_window, verify_parsed, verify_request, is_own, is_prototype_name,
  prototype_names, type_error, is_falsy, key_value, malformed_auth, missing_auth,
}

-- A request names a key that `keys` only has from its prototype, in a header that parses, and within
-- the window.
pub record HasInheritedKey (i : VerifyRequestInput) : Type 0 where
  pub header : Text
  pub parsed : ParsedAuth
  pub present : i.authorization ≡ some header
  pub parses : parse_authorization header ≡ some parsed
  pub foreign : is_own parsed.key_id i.keys ≡ false
  pub listed : is_prototype_name parsed.key_id prototype_names ≡ true
  pub timely : distance i.now parsed.ts ≤ or_else i.window_seconds default_window

not_own-secret_for :
    (key : Text) (keys : List (Text × Text)) → is_own key keys ≡ false → secret_for key keys ≡ none
not_own-secret_for key [] h = refl
not_own-secret_for key ((k, s) ∷ keys) h = elim (Bool-cases (text_eq k key)) [
  | inl same ↦ cc (rw same at h)
  | inr other ↦ rw other (not_own-secret_for key keys (rw other at h))
]

parsed-nonempty :
    (header : Text) (p : ParsedAuth) → parse_authorization header ≡ some p → is_empty header ≡ false
unfolding parse_authorization
parsed-nonempty [] p h = cc
parsed-nonempty (c ∷ cs) p h = refl

-- `verify_request` from what the header parses to, and from the header.
abbrev pub on_parsed : Mac → VerifyRequestInput → Option ParsedAuth → Verified Text
on_parsed m i o = elim o [ none ↦ rejected malformed_auth | some p ↦ verify_parsed m i p ]

abbrev pub on_header : Mac → VerifyRequestInput → Option Text → Verified Text
on_header m i a = elim a [
  | none ↦ rejected missing_auth
  | some header ↦
      if is_empty header then rejected missing_auth else on_parsed m i (parse_authorization header)
]

in_time : (window skew : ℕ) → skew ≤ window → ltb window skew ≡ false
in_time window skew h = ground arith

module _ (m : Mac) (i : VerifyRequestInput) where
  verify_parsed-crashed :
      (p : ParsedAuth)
      → is_own p.key_id i.keys ≡ false
      → is_prototype_name p.key_id prototype_names ≡ true
      → distance i.now p.ts ≤ or_else i.window_seconds default_window
      → verify_parsed m i p ≡ crashed type_error
  unfolding verify_parsed
  verify_parsed-crashed p foreign listed timely =
      let on_time =
        in_time (or_else i.window_seconds default_window) (distance i.now p.ts) timely in
      let unknown = not_own-secret_for p.key_id i.keys foreign in
      rw (unknown, foreign, listed, on_time, is_falsy, key_value, verify_parsed) refl

  -- Such a request always ends in the TypeError.
  pub inherited-crashed : HasInheritedKey i → verify_request m i ≡ crashed type_error
  unfolding verify_request
  inherited-crashed h =
      ap (on_header m i) h.present
      ∙ (rw (parsed-nonempty h.header h.parsed h.parses) (ap (on_parsed m i) h.parses)
          ∙ verify_parsed-crashed h.parsed h.foreign h.listed h.timely)
