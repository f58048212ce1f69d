-- ===== src/Pay/Registration/Challenge.antt =====
-- What a registration rests on, and that its challenge serves once.
use karta_cards_vera.Common.{
  ℕ, ◌≤◌, ◌≡◌, refl, ◌∙◌, ap, ◌==◌, eq_iff, String, ltb, Option, none, some, [], ◌∷◌, find, arith,
  Bool-cases, Option-cases, inl, inr,
}
use karta_cards_vera.Core.Error.{api, unauthorized}
use karta_cards_vera.Core.Exec.{ok, throw, Outcome-cases}
use karta_cards_vera.Pay.Authentication.{WebAuthnCredential}
use karta_cards_vera.Pay.Registration.{
  Registrar, RegistrationChallenge, RegistrationResponse, RegistrationInfo, Challenges, is_for,
  expected_challenge, find_challenge, registration_info, credential_input, delete_challenge,
  finish_registration,
}

find-is_for :
    (c : String) (s : Challenges) (r : RegistrationChallenge)
    → find (is_for c) s ≡ some r
    → r.challenge ≡ c
find-is_for c [] r h = ground arith
find-is_for c (x ∷ s) r h = ground (arith, find-is_for c s r, eq_iff x.challenge c)

find-delete_challenge :
    (c : String) (s : Challenges) → find (is_for c) (delete_challenge c s) ≡ none
unfolding delete_challenge
find-delete_challenge c [] = refl
find-delete_challenge c (x ∷ s) = ground (arith, find-delete_challenge c s)

-- An issued challenge that a response answers in time.
pub record IsIssued (now : ℕ) (w : Registrar) (card_id : String) (response : RegistrationResponse)
    (device : Option String) (s : Challenges) (credential : WebAuthnCredential) : Type 0 where
  pub row : RegistrationChallenge
  pub info : RegistrationInfo
  pub claimed : w.challenge_of response ≡ ok (some row.challenge)
  pub stated : expected_challenge (some row.challenge) ≡ ok row.challenge
  pub found : find (is_for row.challenge) s ≡ some row
  pub for_card : row.card_id ≡ card_id
  pub in_time : now ≤ row.expires_at
  pub verified : w.verify response row.challenge ≡ ok (some info)
  pub created :
      w.create_credential card_id (credential_input w row response device info) ≡ ok credential
  pub left :
      (finish_registration now w card_id response device s).1 ≡ delete_challenge row.challenge s

find_challenge-ok :
    (card_id c : String) (s : Challenges) (r : RegistrationChallenge)
    → find_challenge card_id c s ≡ ok r
    → (find (is_for c) s ≡ some r) × (r.card_id ≡ card_id) × (r.challenge ≡ c)
unfolding find_challenge
find_challenge-ok card_id c s r h = elim (Option-cases (find (is_for c) s)) [
  | inl x ↦ ground arith
  | inr (y, x) ↦ elim (Bool-cases (y.card_id == card_id)) [
    | inl q ↦
        let same : y ≡ r = ground arith in
        let card : y.card_id ≡ card_id = ground (arith, eq_iff y.card_id card_id) in
        (cc, cc, cc (find-is_for c s y x))
    | inr q ↦ ground arith
  ]
]

expected_challenge-ok : (o : Option String) (c : String) → expected_challenge o ≡ ok c → o ≡ some c
expected_challenge-ok none c h = ground arith
expected_challenge-ok (some d) c h = ground arith

registration_info-ok :
    (o : Option RegistrationInfo) (i : RegistrationInfo) → registration_info o ≡ ok i → o ≡ some i
registration_info-ok none i h = ground arith
registration_info-ok (some d) i h = ground arith

-- From the challenge of the response on.
finish_registration-expected :
    (now : ℕ) (w : Registrar) (card_id : String) (response : RegistrationResponse)
    (device : Option String) (s : Challenges) (credential : WebAuthnCredential) (c : String)
    → w.challenge_of response ≡ ok (some c)
    → expected_challenge (some c) ≡ ok c
    → (finish_registration now w card_id response device s).0 ≡ ok credential
    → IsIssued now w card_id response device s credential
unfolding finish_registration
finish_registration-expected now w card_id response device s credential c x y h =
    elim (Outcome-cases (find_challenge card_id c s)) [
      | inr (e, z) ↦ cc (rw (x, y, z, finish_registration) at h)
      | inl (row, z) ↦
          let f : (find (is_for c) s ≡ some row) × (row.card_id ≡ card_id) × (row.challenge ≡ c) =
            find_challenge-ok card_id c s row z in
          elim (Bool-cases (ltb row.expires_at now)) [
            | inl t ↦ cc (rw (x, y, z, t, finish_registration) at h)
            | inr t ↦ elim (Outcome-cases (w.verify response c)) [
              | inr (e, v) ↦ cc (rw (x, y, z, t, v, finish_registration) at h)
              | inl (none, v) ↦ cc (rw (x, y, z, t, v, finish_registration) at h)
              | inl (some info, v) ↦
                  elim (Outcome-cases
                    (w.create_credential card_id (credential_input w row response device info))) [
                      | inr (e, u) ↦ cc (rw (x, y, z, t, v, u, finish_registration) at h)
                      | inl (made, u) ↦ record {
                        row = row;
                        info = info;
                        claimed = rw f.2 x;
                        stated = rw f.2 y;
                        found = ap (λ d. find (is_for d) s) f.2 ∙ f.0;
                        for_card = f.1;
                        in_time = ground arith;
                        verified = rw f.2 v;
                        created = u ∙ (rw (x, y, z, t, v, u, finish_registration) at h);
                        left = rw (x, y, z, t, v, u, finish_registration);
                      }
                    ]
            ]
          ]
    ]

-- A registration answers with a credential only if the response carries a challenge that was issued
-- for this card and has not expired, the library verified the response against it, and the card
-- service created the credential with the challenge's kind; and it leaves the table without the
-- challenge.
pub finish_registration-IsIssued :
    (now : ℕ) (w : Registrar) (card_id : String) (response : RegistrationResponse)
    (device : Option String) (s : Challenges) (credential : WebAuthnCredential)
    → (finish_registration now w card_id response device s).0 ≡ ok credential
    → IsIssued now w card_id response device s credential
unfolding finish_registration
finish_registration-IsIssued now w card_id response device s credential h =
    elim (Outcome-cases (w.challenge_of response)) [
      | inr (e, x) ↦ cc (rw (x, finish_registration) at h)
      | inl (o, x) ↦ elim (Outcome-cases (expected_challenge o)) [
        | inr (e, y) ↦ cc (rw (x, y, finish_registration) at h)
        | inl (c, y) ↦
            let some_c : o ≡ some c = expected_challenge-ok o c y in
            finish_registration-expected now w card_id response device s credential c
              (x ∙ ap ok some_c) (rw some_c at y) h
      ]
    ]

finish_registration-unknown :
    (now : ℕ) (w : Registrar) (card_id : String) (response : RegistrationResponse)
    (device : Option String) (s : Challenges) (c : String)
    → w.challenge_of response ≡ ok (some c)
    → expected_challenge (some c) ≡ ok c
    → find (is_for c) s ≡ none
    → finish_registration now w card_id response device s
      ≡ (throw (api (unauthorized "bad_challenge")), s)
unfolding finish_registration find_challenge
finish_registration-unknown now w card_id response device s c x y z =
    rw (x, y, z, finish_registration) refl

-- The challenge of a registration that succeeded serves no other: in the state it leaves, a response
-- that carries it, for any card and at any time, is refused as unauthorized, and changes nothing.
pub finish_registration-once :
    (now : ℕ) (w : Registrar) (card_id : String) (response : RegistrationResponse)
    (device : Option String) (s : Challenges) (credential : WebAuthnCredential)
    → (finish_registration now w card_id response device s).0 ≡ ok credential
    → (later : ℕ) (v : Registrar) (card : String) (again : RegistrationResponse)
      (name : Option String)
    → v.challenge_of again ≡ w.challenge_of response
    → finish_registration later v card again name
        (finish_registration now w card_id response device s).1
      ≡ (
        throw (api (unauthorized "bad_challenge")),
        (finish_registration now w card_id response device s).1,
      )
finish_registration-once now w card_id response device s credential h later v card again name same =
    let issued : IsIssued now w card_id response device s credential =
      finish_registration-IsIssued now w card_id response device s credential h in
    finish_registration-unknown later v card again name
      (finish_registration now w card_id response device s).1 issued.row.challenge
      (same ∙ issued.claimed) issued.stated
      (rw issued.left (find-delete_challenge issued.row.challenge s))
