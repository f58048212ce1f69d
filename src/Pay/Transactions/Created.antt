-- ===== src/Pay/Transactions/Created.antt =====
-- What `createTransaction` writes, and when it writes nothing.
use karta_cards_vera.Common.{
  ℕ, ◌+◌, ◌*◌, is_nonpositive, ◌≡◌, String, Text, true, false, List, [], ◌∷◌, ◌++◌, any, arith,
  eq_iff, Bool-cases, inl, inr,
}
use karta_cards_vera.Core.Error.{Thrown}
use karta_cards_vera.Core.Exec.{Outcome, ok, throw, Outcome-cases}
use karta_cards_vera.Programs.Currency.{normalise_currency}
use karta_cards_vera.Programs.Resolve.{ResolvedProgramRules, resolve_rules}
use karta_cards_vera.Pay.Tier.{TierDecision, evaluate_tier_rules}
use karta_cards_vera.Pay.Db.{Transaction, Call, PayDb, clashes, create_transaction_row}
use karta_cards_vera.Pay.Transactions.{
  CardState, CreateTxnInput, FreshTxn, create_transaction, transaction_row, currency_fits,
  program_of,
}

module _ (palisade : String → List Call → Outcome CardState) (ttl now : ℕ) (f : FreshTxn)
    (input : CreateTxnInput) where
  -- A transaction as it may be created: for an activated card, a positive amount, in the currency of
  -- the card's program, with the kinds and the tier that the program's rules give to the amount.
  pub record Created (row : Transaction) (s s' : PayDb) : Type 0 where
    pub card : CardState
    pub resolved : ResolvedProgramRules
    pub currency : Text
    pub decision : TierDecision
    pub answer : palisade input.card_id s.calls ≡ ok card
    pub activated : card.status ≡ "ACTIVATED"
    pub positive : is_nonpositive input.amount ≡ false
    pub rules : resolve_rules (program_of card.program_id s.programs) ≡ ok resolved
    pub code : normalise_currency input.currency ≡ ok currency
    pub fits : currency_fits resolved.currency currency ≡ true
    pub decided : evaluate_tier_rules resolved.rules input.amount ≡ ok decision
    pub is_row : row ≡ transaction_row (now + ttl * 1000) f input card currency decision
    pub unclashing : any (clashes row) s.transactions ≡ false
    pub transactions : s'.transactions ≡ s.transactions ++ row ∷ []
    pub calls : s'.calls ≡ s.calls ++ Call.lookup_card input.card_id ∷ []

  -- A creation that succeeded has checked all of this and appended that row: the card is activated,
  -- the amount positive, the currency a code that fits the program's, no unique column clashes; and
  -- the row is pending, with the kinds and the tier that the program's rules give to the amount.
  pub create-Created :
      (row : Transaction) (s s' : PayDb)
      → create_transaction palisade ttl now f input s ≡ (ok row, s')
      → Created row s s'
  unfolding create_transaction create_transaction_row
  create-Created row s s' h = elim (Bool-cases (is_nonpositive input.amount)) [
    | inl bad ↦ ground arith
    | inr positive ↦ elim (Outcome-cases (palisade input.card_id s.calls)) [
      | inr (e, x) ↦ ground arith
      | inl (card, answer) ↦
          elim (Outcome-cases (resolve_rules (program_of card.program_id s.programs))) [
            | inr (e, x) ↦ ground arith
            | inl (resolved, rules) ↦ elim (Outcome-cases (normalise_currency input.currency)) [
              | inr (e, x) ↦ ground arith
              | inl (currency, code) ↦
                  elim (Outcome-cases (evaluate_tier_rules resolved.rules input.amount)) [
                    | inr (e, x) ↦ ground arith
                    | inl (decision, decided) ↦ record {
                      card = card;
                      resolved = resolved;
                      currency = currency;
                      decision = decision;
                      answer = answer;
                      activated = ground (arith, eq_iff card.status "ACTIVATED");
                      positive = positive;
                      rules = rules;
                      code = code;
                      fits = ground arith;
                      decided = decided;
                      is_row = ground arith;
                      unclashing = ground arith;
                      transactions = ground arith;
                      calls = ground arith;
                    }
                  ]
            ]
          ]
    ]
  ]

  pub create-throw :
      (e : Thrown) (s s' : PayDb)
      → create_transaction palisade ttl now f input s ≡ (throw e, s')
      → s'.transactions ≡ s.transactions
  unfolding create_transaction create_transaction_row
  create-throw e s s' h = ground arith
