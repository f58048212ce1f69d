-- ===== src/Pay/Tests.antt =====
-- Witnesses for the theorems about services/pay.
use karta_cards_vera.Common.{◌≡◌, ◌≤◌, refl, List, [], ◌∷◌, length}
use karta_cards_vera.Pay.StateMachine.{
  TransactionStatus, pending, authn_started, authn_complete, arqc_valid, vault_retrieved,
  stripe_charged, completed, assert_transition,
}
use karta_cards_vera.Pay.StateMachine.Traces.{
  Follows, happy_path, remaining, completed-happy_path, length-Follows,
}

abbrev paid : List TransactionStatus
paid =
    authn_started ∷ authn_complete ∷ arqc_valid ∷ vault_retrieved ∷ stripe_charged ∷ completed ∷ []

paid-Follows : Follows pending paid
unfolding assert_transition
paid-Follows = (refl, (refl, (refl, (refl, (refl, (refl, tt))))))

completed-happy_path_example : paid ≡ happy_path pending
completed-happy_path_example = completed-happy_path pending paid paid-Follows refl

length-Follows_example : (length paid ≤ remaining pending) × (remaining pending ≤ 6)
length-Follows_example = length-Follows pending paid paid-Follows
