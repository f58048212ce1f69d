-- ===== src/Pay/StateMachine/Traces.antt =====
-- What every sequence of legal transitions looks like.
use karta_cards_vera.Common.{
  ℕ, ◌≤◌, ◌<◌, ◌≡◌, refl, ◌↔◌, ◌≢◌, ◌⊎◌, inl, inr, true, false, List, [], ◌∷◌, arith, length,
}
use karta_cards_vera.Core.Exec.{ok}
use karta_cards_vera.Pay.StateMachine.{
  TransactionStatus, pending, authn_started, authn_complete, arqc_valid, vault_retrieved,
  stripe_charged, completed, failed, expired, is_terminal, assert_transition,
}

-- `l` lists the statuses that a transaction takes after `s`, each move passing the assertion.
abbrev pub Follows : TransactionStatus → List TransactionStatus → Type 0
Follows s [] = Unit
Follows s (t ∷ l) = (assert_transition s t ≡ ok tt) × Follows t l

abbrev pub last : TransactionStatus → List TransactionStatus → TransactionStatus
last s [] = s
last s (t ∷ l) = last t l

-- The rest of the happy path.
abbrev pub happy_path : TransactionStatus → List TransactionStatus
happy_path pending =
    authn_started ∷ authn_complete ∷ arqc_valid ∷ vault_retrieved ∷ stripe_charged ∷ completed ∷ []
happy_path authn_started =
    authn_complete ∷ arqc_valid ∷ vault_retrieved ∷ stripe_charged ∷ completed ∷ []
happy_path authn_complete = arqc_valid ∷ vault_retrieved ∷ stripe_charged ∷ completed ∷ []
happy_path arqc_valid = vault_retrieved ∷ stripe_charged ∷ completed ∷ []
happy_path vault_retrieved = stripe_charged ∷ completed ∷ []
happy_path stripe_charged = completed ∷ []
happy_path _ = []

abbrev pub IsDead : TransactionStatus → Type 0
IsDead s = (s ≡ failed) ⊎ (s ≡ expired)

step-happy_path :
    (s t : TransactionStatus)
    → assert_transition s t ≡ ok tt
    → IsDead t ⊎ (happy_path s ≡ t ∷ happy_path t)
unfolding assert_transition
step-happy_path pending t h = ground arith
step-happy_path _ t h = ground arith

dead_end : (s t : TransactionStatus) → IsDead s → assert_transition s t ≢ ok tt
unfolding assert_transition
dead_end failed t d h = cc
dead_end expired t d h = cc
dead_end _ t d h = ground arith

dead-last :
    (s : TransactionStatus) (l : List TransactionStatus)
    → IsDead s
    → Follows s l
    → last s l ≢ completed
dead-last s [] d f e = ground arith
dead-last s (t ∷ l) d f e = dead_end s t d f.0

-- A transaction that ends COMPLETED has taken the happy path from where it was, status by status.
pub completed-happy_path :
    (s : TransactionStatus) (l : List TransactionStatus)
    → Follows s l
    → last s l ≡ completed
    → l ≡ happy_path s
completed-happy_path s [] f e = rw e
completed-happy_path s (t ∷ l) (legal, f) e = elim (step-happy_path s t legal) [
  | inl dead ↦ absurd (dead-last t l dead f e)
  | inr next ↦ rw (next, completed-happy_path t l f e)
]

-- A status is terminal exactly when no transition leaves it.
pub is_terminal_iff :
    (s : TransactionStatus)
    → (is_terminal s ≡ true) ↔ ((t : TransactionStatus) → assert_transition s t ≢ ok tt)
unfolding is_terminal assert_transition
is_terminal_iff completed = (λ _ t h. cc, λ _. refl)
is_terminal_iff failed = (λ _ t h. cc, λ _. refl)
is_terminal_iff expired = (λ _ t h. cc, λ _. refl)
is_terminal_iff s = (λ h. cc, λ h. absurd (h failed refl))

-- How many more transitions a status can see.
abbrev pub remaining : TransactionStatus → ℕ
remaining pending = 6
remaining authn_started = 5
remaining authn_complete = 4
remaining arqc_valid = 3
remaining vault_retrieved = 2
remaining stripe_charged = 1
remaining _ = 0

step-remaining :
    (s t : TransactionStatus) → assert_transition s t ≡ ok tt → remaining t < remaining s
unfolding assert_transition
step-remaining pending t h = ground arith
step-remaining _ t h = ground arith

remaining_bound : (s : TransactionStatus) → remaining s ≤ 6
remaining_bound pending = omega arith
remaining_bound _ = omega arith

-- No transaction sees more transitions than remain from its status, which are at most six.
pub length-Follows :
    (s : TransactionStatus) (l : List TransactionStatus)
    → Follows s l
    → (length l ≤ remaining s) × (remaining s ≤ 6)
length-Follows s [] f = (omega arith, remaining_bound s)
length-Follows s (t ∷ l) (legal, f) =
    let (ih, _) = length-Follows t l f in
    (omega (arith, step-remaining s t legal), remaining_bound s)

-- FAILED is open from every status that is not terminal, and EXPIRED from every such status but
-- STRIPE_CHARGED.
pub failure_branches :
    (s : TransactionStatus)
    → ((assert_transition s failed ≡ ok tt) ↔ (is_terminal s ≡ false))
      × ((assert_transition s expired ≡ ok tt) ↔ ((is_terminal s ≡ false) × (s ≢ stripe_charged)))
unfolding is_terminal assert_transition
failure_branches stripe_charged = ((λ _. refl, λ _. refl), (λ h. cc, λ h. absurd (h.1 refl)))
failure_branches completed = ((λ h. cc, λ h. cc), (λ h. cc, λ h. cc))
failure_branches failed = ((λ h. cc, λ h. cc), (λ h. cc, λ h. cc))
failure_branches expired = ((λ h. cc, λ h. cc), (λ h. cc, λ h. cc))
failure_branches s = ((λ _. refl, λ _. refl), (λ h. (refl, λ e. cc), λ _. refl))
