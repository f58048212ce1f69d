-- ===== src/Retention.antt =====
-- packages/retention: the purges of purge.ts on the tables of the vault and of the payment service,
-- and the timer of sweeper.ts as a step relation. The sweep of overdue transactions stands with
-- Pay.Transactions.
pub mod Tokens
pub mod Sweeps
pub mod Tests
use karta_cards_vera.Common.{
  ℕ, ◌+◌, ◌≡◌, Bool, true, false, not, ◌||◌, List, [], ◌∷◌, ◌++◌, count, keep, ltb, if◌then◌else◌,
}
use karta_cards_vera.Core.Exec.{Outcome, ok, throw}
use karta_cards_vera.Core.Error.{Thrown}
use karta_cards_vera.Vault.Db.{Db, RetrievalToken}
use karta_cards_vera.Pay.Registration.{Challenges, RegistrationChallenge}

-- `deleteMany` where `expiresAt < now`: the number of rows, and the table without them. The audit
-- rows stay.
unfoldable pub purge_expired_retrieval_tokens : ℕ → Db → ℕ × Db
purge_expired_retrieval_tokens now s = (
  count (λ (t : RetrievalToken). ltb t.expires_at now) s.tokens,
  record s { tokens = keep (λ (t : RetrievalToken). not (ltb t.expires_at now)) s.tokens },
)

unfoldable pub purge_expired_registration_challenges : ℕ → Challenges → ℕ × Challenges
purge_expired_registration_challenges now s = (
  count (λ (r : RegistrationChallenge). ltb r.expires_at now) s,
  keep (λ (r : RegistrationChallenge). not (ltb r.expires_at now)) s,
)

pub data SweepLog : Type 0 where
  swept : ℕ → SweepLog
  sweep_failed : Thrown → SweepLog

-- The closure of `startSweeper`: its two flags, whether its interval is set, how many runs of the
-- task are under way and how many were started, and the log.
pub record Sweeper : Type 0 where
  pub busy : Bool
  pub stopped : Bool
  pub timer : Bool
  pub running : ℕ
  pub started : ℕ
  pub log : List SweepLog

abbrev pub start_sweeper : Sweeper
start_sweeper = record {
  busy = false;
  stopped = false;
  timer = true;
  running = 0;
  started = 0;
  log = [];
}

-- `tick`, up to the call of the task.
unfoldable pub tick : Sweeper → Sweeper
tick s =
    if s.busy || s.stopped
    then s
    else record s { busy = true; running = s.running + 1; started = s.started + 1 }

abbrev pub sweep_log : Outcome ℕ → List SweepLog
sweep_log (ok n) = if ltb 0 n then swept n ∷ [] else []
sweep_log (throw e) = sweep_failed e ∷ []

-- The rest of `tick`, when the task has answered: `running` is one more before.
unfoldable pub finish_sweep : ℕ → Outcome ℕ → Sweeper → Sweeper
finish_sweep left answer s = record s {
  busy = false;
  running = left;
  log = s.log ++ sweep_log answer;
}

unfoldable pub stop : Sweeper → Sweeper
stop s = if s.stopped then s else record s { stopped = true; timer = false }

-- What may happen next: the timer fires while it is set, a run that is under way ends, `stop` is
-- called.
pub data Step (s : Sweeper) : Sweeper → Type 0 where
  fires : s.timer ≡ true → Step s (tick s)
  ends :
      (left : ℕ) (answer : Outcome ℕ) → s.running ≡ left + 1 → Step s (finish_sweep left answer s)
  stops : Step s (stop s)

pub data Reaches (s : Sweeper) : Sweeper → Type 0 where
  here : Reaches s s
  next : {t u : Sweeper} → Reaches s t → Step t u → Reaches s u
