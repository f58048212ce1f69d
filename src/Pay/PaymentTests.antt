-- ===== src/Pay/PaymentTests.antt =====
-- Witnesses for the theorems about transactions and payments, and runs of a whole payment.
use karta_cards_vera.Common.{
  ◌≡◌, ◌≢◌, ◌↔◌, ◌≤◌, refl, ℕ, ◌-◌, pos, String, Text, codes, List, [], ◌∷◌, ◌++◌, map, drop,
  length, some, none, true, arith, All, all, ltb, ◌==◌, Bool-cases, inl, inr, subst,
}
use karta_cards_vera.Core.Error.{api, other, conflict}
use karta_cards_vera.Core.Exec.{Outcome, ok, throw}
use karta_cards_vera.Core.Hoare.{Ends}
use karta_cards_vera.Programs.TierRules.{platform, match_rule, covers}
use karta_cards_vera.Programs.Currency.{normalise_currency, currency_schema}
use karta_cards_vera.Programs.Resolve.{resolve_rules}
use karta_cards_vera.Pay.StateMachine.{TransactionStatus, assert_transition}
use karta_cards_vera.Pay.Tier.{tier_1, summarise_tier, evaluate_tier_rules}
use karta_cards_vera.Pay.Realtime.{
  SseBus, SseEvent, SseEventType, no_data, connected, event, subscribe,
}
use karta_cards_vera.Pay.Realtime.History.{publish_all, events_of, subscribe-publish_all}
use karta_cards_vera.Pay.Db.{
  Transaction, Call, PayDb, create_transaction_row, find_transaction, find_by_rlid, patch_rows,
}
use karta_cards_vera.Pay.Transactions.{
  CardState, CreateTxnInput, FreshTxn, create_transaction, transaction_row, get_transaction_by_rlid,
  get_transaction_for_auth, expire_pending_transactions, update_status,
}
use karta_cards_vera.Pay.Transactions.Status.{status_of}
use karta_cards_vera.Pay.Transactions.Expiry.{
  IsIndexed, current, admit, get_transaction_for_auth-admit, get_transaction_by_rlid-sweep,
}
use karta_cards_vera.Pay.Arqc.{
  Kdf, ArqcInput, generate_arqc, validate_arqc, lower, build_message, derive_k_card, write_uint32,
  write_uint64, big_endian, utf8, to_hex,
}
use karta_cards_vera.Pay.Arqc.Validate.{IsByte, KdfLaws, validate_arqc_iff}
use karta_cards_vera.Pay.Arqc.Message.{HasNoZero, build_message-injective}
use karta_cards_vera.Pay.Orchestration.{
  Services, OrchestratePostAuthInput, OrchestratePostAuthResult, orchestrate_post_auth, post_auth,
  settle, authn_step, pay, arqc_step, tokenise_step, charge_step, complete_step, refused_step,
  give_up, fail, not_vaulted,
}
use karta_cards_vera.Pay.Orchestration as Orchestration
use karta_cards_vera.Pay.Orchestration.Calls.{charge_count, Past}
use karta_cards_vera.Pay.Orchestration.Settles.{Settled, orchestrate-Settled}
use karta_cards_vera.Pay.Orchestration.Repeat.{orchestrate-again}
use karta_cards_vera.Pay.Orchestration.Once.{
  PayOp, create, read, sweep, pay_for, run, run-charge_count, run-Past,
}

abbrev card : CardState
card = record {
  id = "card_1";
  card_ref = "ref_1";
  status = "ACTIVATED";
  program_id = none;
  pan_last4 = some (codes "4242");
  pan_bin = some "424242";
  cardholder_name = some "A Holder";
  vault_token = some "ve_1";
}

abbrev pub palisade : String → List Call → Outcome CardState
palisade id calls = ok card

abbrev order : CreateTxnInput
order = record {
  card_id = "card_1";
  amount = pos 1500;
  currency = codes "aud";
  merchant_ref = "order-1";
  merchant_name = none;
}

abbrev pub fresh : FreshTxn
fresh = record { id = "txn_1"; rlid = "r1"; challenge = "n1" }

abbrev no_bus : SseBus
no_bus = record { subscribers = []; sets = []; last_by_rlid = []; written = [] }

abbrev pub empty : PayDb
empty = record { transactions = []; programs = []; bus = no_bus; calls = [] }

abbrev txn : Transaction
txn =
    transaction_row 301000 fresh order card (codes "AUD")
      (record { allowed_kinds = platform ∷ []; tier = tier_1; label = none })

abbrev pub one_txn : PayDb
one_txn = record empty { transactions = txn ∷ []; calls = Call.lookup_card "card_1" ∷ [] }

create_run : create_transaction palisade 300 1000 fresh order empty ≡ (ok txn, one_txn)
unfolding create_transaction create_transaction_row resolve_rules normalise_currency currency_schema
    evaluate_tier_rules match_rule covers summarise_tier
create_run = refl

one_txn-IsIndexed : IsIndexed one_txn.transactions
unfolding find_by_rlid find_transaction
one_txn-IsIndexed rlid t h = elim (Bool-cases ("r1" == rlid)) [
  | inr e ↦ cc (rw e at h)
  | inl e ↦
      let found : some txn ≡ some t = rw e at h in
      let same : txn ≡ t = cc in
      subst (λ (u : Transaction). find_transaction u.id one_txn.transactions ≡ some u) same refl
]

get_transaction_for_auth-admit_example :
    (get_transaction_for_auth 400000 "r1" one_txn).0
    ≡ admit (current 400000 (find_by_rlid "r1" one_txn.transactions))
get_transaction_for_auth-admit_example =
    get_transaction_for_auth-admit 400000 "r1" one_txn one_txn-IsIndexed

get_transaction_by_rlid-sweep_example :
    (get_transaction_by_rlid 400000 "r1" (expire_pending_transactions 400000 one_txn)).0
    ≡ (get_transaction_by_rlid 400000 "r1" one_txn).0
get_transaction_by_rlid-sweep_example =
    get_transaction_by_rlid-sweep 400000 "r1" one_txn one_txn-IsIndexed

-- A key derivation and a MAC that return sixteen bytes.
abbrev zeros : List ℕ
zeros = 0 ∷ 0 ∷ 0 ∷ 0 ∷ 0 ∷ 0 ∷ 0 ∷ 0 ∷ 0 ∷ 0 ∷ 0 ∷ 0 ∷ 0 ∷ 0 ∷ 0 ∷ 0 ∷ []

abbrev pub kdf : Kdf
kdf = record { seed = []; hkdf = λ key salt info size. zeros; hmac = λ key msg. zeros }

zeros-IsByte : All IsByte zeros
zeros-IsByte = ground arith

kdf-KdfLaws : KdfLaws kdf
kdf-KdfLaws = record { long = λ key msg. omega arith; bytes = λ key msg. zeros-IsByte }

abbrev sale : ArqcInput
sale = record {
  bin = "424242";
  card_id = "card_1";
  atc = 7;
  amount = pos 1500;
  currency = codes "AUD";
  merchant_ref = "order-1";
  nonce = "n1";
}

abbrev zero_arqc : Text
zero_arqc = codes "00000000000000000000000000000000"

sale_arqc : generate_arqc kdf sale ≡ ok zero_arqc
unfolding generate_arqc derive_k_card build_message write_uint32 write_uint64 to_hex
sale_arqc = refl

validate_arqc_iff_example :
    (validate_arqc kdf sale zero_arqc ≡ ok true) ↔ (map lower zero_arqc ≡ zero_arqc)
validate_arqc_iff_example = validate_arqc_iff kdf sale zero_arqc zero_arqc kdf-KdfLaws sale_arqc

abbrev sale_message : List ℕ
sale_message =
    (0 ∷ 0 ∷ 0 ∷ 0 ∷ 0 ∷ 0 ∷ 5 ∷ 220 ∷ 0 ∷ [])
    ++ (codes "AUD" ++ 0 ∷ (codes "order-1" ++ 0 ∷ (codes "n1" ++ 0 ∷ 0 ∷ 0 ∷ 0 ∷ 7 ∷ [])))

sale_built : build_message sale ≡ ok sale_message
unfolding build_message write_uint32 write_uint64 big_endian utf8
sale_built = refl

all-nonzero : (bs : List ℕ) → all (ltb 0) bs ≡ true → All (λ b. b ≢ 0) bs
all-nonzero [] h = tt
all-nonzero (b ∷ bs) h = (λ e. ground arith, all-nonzero bs (ground arith))

sale-HasNoZero : HasNoZero sale
unfolding utf8
sale-HasNoZero = record {
  currency = all-nonzero (utf8 sale.currency) refl;
  merchant = all-nonzero (utf8 (codes sale.merchant_ref)) refl;
  nonce = all-nonzero (utf8 (codes sale.nonce)) refl;
}

abbrev pub good : Services
good = record {
  increment_atc = λ card calls. ok 7;
  mint_token = λ request calls. ok "vrt_1";
  provider_name = "mock";
  create_payment_method =
      λ request calls. ok (record { provider_payment_method_id = "pm_1"; last4 = codes "4242" });
  charge =
      λ request calls. ok (record { provider_txn_id = "ch_1"; succeeded = true; error = none });
}

abbrev verified : OrchestratePostAuthInput
verified = record { transaction_id = "txn_1"; used_credential_id = "cred_1"; ip = none; ua = none }

-- The whole payment, run.
payment_run :
    (orchestrate_post_auth 2000 kdf good verified one_txn).0
    ≡ ok (record {
      rlid = "r1";
      status = TransactionStatus.completed;
      provider_name = some "mock";
      provider_txn_id = some "ch_1";
      last4 = some (codes "4242");
    })
unfolding orchestrate_post_auth post_auth settle authn_step pay arqc_step tokenise_step charge_step
    complete_step Orchestration.publish update_status assert_transition find_transaction patch_rows
    generate_arqc validate_arqc derive_k_card build_message write_uint32 write_uint64 to_hex
payment_run = refl

build_message-injective_example :
    (sale.atc ≡ sale.atc)
    × (sale.amount ≡ sale.amount)
    × (utf8 sale.currency ≡ utf8 sale.currency)
    × (utf8 (codes sale.merchant_ref) ≡ utf8 (codes sale.merchant_ref))
    × (utf8 (codes sale.nonce) ≡ utf8 (codes sale.nonce))
build_message-injective_example =
    build_message-injective sale sale sale_message sale-HasNoZero sale-HasNoZero sale_built
      sale_built

-- A provider that is down.
abbrev bad : Services
bad = record good { charge = λ request calls. throw (other "ECONNRESET") }

one_txn-pending : status_of "txn_1" one_txn ≡ some TransactionStatus.pending
unfolding find_transaction
one_txn-pending = refl

orchestrate-Settled_example :
    Ends
      (Settled "txn_1")
      (λ e s. status_of "txn_1" s ≡ some TransactionStatus.failed)
      (orchestrate_post_auth 2000 kdf bad verified one_txn)
orchestrate-Settled_example = orchestrate-Settled 2000 kdf bad verified one_txn one_txn-pending

abbrev paid_txn : Transaction
paid_txn = record txn { status = TransactionStatus.completed }

abbrev paid : PayDb
paid = record one_txn { transactions = paid_txn ∷ [] }

orchestrate-again_example :
    orchestrate_post_auth 3000 kdf good verified paid
    ≡ (throw (api (conflict "illegal_transition" none)), paid)
unfolding find_transaction
orchestrate-again_example =
    orchestrate-again 3000 kdf good verified paid paid_txn "ve_1" "424242" refl refl refl refl

abbrev busy_day : List PayOp
busy_day =
    create palisade 300 1000 fresh order
    ∷ pay_for 2000 kdf good verified
    ∷ pay_for 2001 kdf good verified
    ∷ sweep 400000
    ∷ read 400000 "r1"
    ∷ pay_for 400001 kdf good verified
    ∷ []

run-charge_count_example : charge_count "txn_1" (run busy_day empty) ≤ 1
run-charge_count_example = run-charge_count "txn_1" busy_day empty refl

paid-Past : Past "txn_1" paid
unfolding find_transaction
paid-Past = (TransactionStatus.completed, refl, refl)

run-Past_example :
    Past "txn_1" (run busy_day paid)
    × (charge_count "txn_1" (run busy_day paid) ≡ charge_count "txn_1" paid)
run-Past_example = run-Past "txn_1" busy_day paid paid-Past

abbrev started : SseEvent
started = record { kind = SseEventType.authn_started; rlid = "r1"; at = 1; payload = no_data }

abbrev elsewhere : SseEvent
elsewhere = record started { rlid = "r2" }

subscribe-publish_all_example :
    (subscribe "r1" 9 (publish_all (started ∷ elsewhere ∷ []) no_bus)).1.written
    ≡ (publish_all (started ∷ elsewhere ∷ []) no_bus).written
      ++ (9, connected)
        ∷ map
            (λ e. (9, event e))
            (drop
              (length (events_of "r1" (started ∷ elsewhere ∷ [])) - 20)
              (events_of "r1" (started ∷ elsewhere ∷ [])))
subscribe-publish_all_example = subscribe-publish_all "r1" 9 (started ∷ elsewhere ∷ []) no_bus refl
