-- ===== src/Pay/StateMachine.antt =====
-- services/pay/src/transactions/state-machine.ts
pub mod Traces
use karta_cards_vera.Common.{Bool, true, false, none, List, [], ◌∷◌, any, if◌then◌else◌}
use karta_cards_vera.Core.Error.{api, conflict}
use karta_cards_vera.Core.Exec.{Outcome, ok, throw}

-- Prisma's enum `TransactionStatus`.
pub data TransactionStatus : Type 0 where
  pending authn_started authn_complete arqc_valid vault_retrieved : TransactionStatus
  stripe_charged completed failed expired : TransactionStatus

pub status_discrete : Discrete TransactionStatus
status_discrete = hlevel

-- The position of a status in the enum, by which statuses are compared.
abbrev pub status_eq : TransactionStatus → TransactionStatus → Bool
status_eq pending pending = true
status_eq authn_started authn_started = true
status_eq authn_complete authn_complete = true
status_eq arqc_valid arqc_valid = true
status_eq vault_retrieved vault_retrieved = true
status_eq stripe_charged stripe_charged = true
status_eq completed completed = true
status_eq failed failed = true
status_eq expired expired = true
status_eq _ _ = false

-- The set `TERMINAL`.
abbrev pub terminal : List TransactionStatus
terminal = completed ∷ failed ∷ expired ∷ []

-- The table `ALLOWED`.
abbrev pub allowed : TransactionStatus → List TransactionStatus
allowed pending = authn_started ∷ failed ∷ expired ∷ []
allowed authn_started = authn_complete ∷ failed ∷ expired ∷ []
allowed authn_complete = arqc_valid ∷ failed ∷ expired ∷ []
allowed arqc_valid = vault_retrieved ∷ failed ∷ expired ∷ []
allowed vault_retrieved = stripe_charged ∷ failed ∷ expired ∷ []
allowed stripe_charged = completed ∷ failed ∷ []
allowed completed = []
allowed failed = []
allowed expired = []

unfoldable pub is_terminal : TransactionStatus → Bool
is_terminal s = any (status_eq s) terminal

unfoldable pub can_transition : TransactionStatus → TransactionStatus → Bool
can_transition from to = any (status_eq to) (allowed from)

unfoldable pub assert_transition : TransactionStatus → TransactionStatus → Outcome (Unit {0})
unfolding can_transition
assert_transition from to =
    if can_transition from to then ok tt else throw (api (conflict "illegal_transition" none))
