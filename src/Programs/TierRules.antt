-- ===== src/Programs/TierRules.antt =====
-- packages/programs/src/tier-rules.ts: the schema of a ruleset, the default ruleset, and the
-- search for the rule that covers an amount. Amounts are integers in minor units.
pub mod Coverage
use karta_cards_vera.Common.{
  ℕ, suc, Bool, true, false, ◌&&◌, Option, none, some, List, [], ◌∷◌, ◌++◌, ltb, leb, eqb, length,
  find, ℤ, pos, negsuc, if◌then◌else◌, Text, codes, is_some,
}
use karta_cards_vera.Core.Error.{zod, other}
use karta_cards_vera.Core.Exec.{Outcome, ok, throw}

-- Prisma's enum `CredentialKind`.
pub data CredentialKind : Type 0 where
  platform cross_platform : CredentialKind

abbrev pub kind_eq : CredentialKind → CredentialKind → Bool
kind_eq platform platform = true
kind_eq cross_platform cross_platform = true
kind_eq _ _ = false

pub record TierRule : Type 0 where
  pub amount_min_minor : ℕ
  pub amount_max_minor : Option ℕ
  pub allowed_kinds : List CredentialKind
  pub label : Option Text

-- A rule as it arrives, its numbers not yet checked.
pub record RawRule : Type 0 where
  pub amount_min_minor : ℤ
  pub amount_max_minor : Option ℤ
  pub allowed_kinds : List CredentialKind
  pub label : Option Text

-- `z.number().int().positive().nullable()`: the outer `none` is an issue.
abbrev pub parse_max : Option ℤ → Option (Option ℕ)
parse_max none = some none
parse_max (some (negsuc n)) = none
parse_max (some (pos n)) = if ltb 0 n then some (some n) else none

-- `z.number().int().min(0)`
abbrev pub parse_min : ℤ → Option ℕ
parse_min (negsuc n) = none
parse_min (pos n) = some n

-- `z.string().min(1).max(128).optional()`
abbrev pub label_fits : Option Text → Bool
label_fits none = true
label_fits (some s) = leb 1 (length s) && leb (length s) 128

-- The `.refine` of a rule.
abbrev pub ends_after : ℕ → Option ℕ → Bool
ends_after lo none = true
ends_after lo (some hi) = ltb lo hi

-- `tierRuleSchema`; `none` is a rule with issues.
unfoldable pub parse_rule : RawRule → Option TierRule
parse_rule r = elim (parse_min r.amount_min_minor) [
  | none ↦ none
  | some lo ↦ elim (parse_max r.amount_max_minor) [
    | none ↦ none
    | some hi ↦
        if leb 1 (length r.allowed_kinds) && (label_fits r.label && ends_after lo hi)
        then some (record {
          amount_min_minor = lo;
          amount_max_minor = hi;
          allowed_kinds = r.allowed_kinds;
          label = r.label;
        })
        else none
  ]
]

unfoldable pub parse_rules : List RawRule → Option (List TierRule)
parse_rules [] = some []
parse_rules (r ∷ rs) = elim (parse_rule r) [
  | none ↦ none
  | some t ↦ elim (parse_rules rs) [ none ↦ none | some ts ↦ some (t ∷ ts) ]
]

-- The issues that `superRefine` adds, with the index in their path.
pub data Issue : Type 0 where
  first_not_zero last_bounded : Issue
  unbounded_inside not_contiguous : ℕ → Issue

-- The loop over neighbouring rules, from index `i`; an unbounded rule ends it.
unfoldable pub neighbour_issues : ℕ → TierRule → List TierRule → List Issue
neighbour_issues i cur [] = []
neighbour_issues i cur (next ∷ rest) =
    let later = neighbour_issues (suc i) next rest in
    elim cur.amount_max_minor [
      | none ↦ unbounded_inside i ∷ []
      | some hi ↦ if eqb hi next.amount_min_minor then later else not_contiguous (suc i) ∷ later
    ]

abbrev pub last_rule : TierRule → List TierRule → TierRule
last_rule r [] = r
last_rule r (next ∷ rest) = last_rule next rest

-- The body of `superRefine` on `r ∷ rest`.
unfoldable pub rule_set_issues : TierRule → List TierRule → List Issue
unfolding neighbour_issues
rule_set_issues r rest =
    (if eqb r.amount_min_minor 0 then [] else first_not_zero ∷ [])
    ++ ((if is_some (last_rule r rest).amount_max_minor then last_bounded ∷ [] else [])
        ++ neighbour_issues 0 r rest)

-- `tierRuleSetSchema` on rules that passed their own schema; `.min(1)` refuses the empty list.
unfoldable pub check_rules : List TierRule → Outcome (List TierRule)
unfolding rule_set_issues
check_rules [] = throw zod
check_rules (r ∷ rest) = elim (rule_set_issues r rest) [ [] ↦ ok (r ∷ rest) | _ ∷ _ ↦ throw zod ]

unfoldable pub parse_tier_rule_set : List RawRule → Outcome (List TierRule)
unfolding parse_rules check_rules parse_rule
parse_tier_rule_set raw = elim (parse_rules raw) [
  | none ↦ throw zod
  | some rules ↦ check_rules rules
]

-- `DEFAULT_TIER_RULES`
abbrev pub default_tier_rules : List TierRule
default_tier_rules =
    record {
      amount_min_minor = 0;
      amount_max_minor = some 10_000;
      allowed_kinds = platform ∷ [];
      label = some (codes "Biometric (under AUD 100)");
    }
    ∷ record {
      amount_min_minor = 10_000;
      amount_max_minor = none;
      allowed_kinds = cross_platform ∷ [];
      label = some (codes "Card tap (AUD 100 and over)");
    }
    ∷ []

-- The predicate that `matchRule` gives to `rules.find`.
unfoldable pub covers : ℕ → TierRule → Bool
covers amount r =
    leb r.amount_min_minor amount
    && elim r.amount_max_minor [ none ↦ true | some hi ↦ ltb amount hi ]

unfoldable pub match_rule : List TierRule → ℤ → Outcome TierRule
unfolding covers
match_rule rules (negsuc n) = throw (other "amountMinor must be non-negative")
match_rule rules (pos amount) = elim (find (covers amount) rules) [
  | none ↦ throw (other "no tier rule matches amount")
  | some hit ↦ ok hit
]
