-- ===== src/Programs/Resolve.antt =====
-- packages/programs/src/program.ts: from a tokenisation program, or none, to the rules in force.
use karta_cards_vera.Common.{Option, none, some, List, String, Text}
use karta_cards_vera.Core.Exec.{Outcome, ok, throw}
use karta_cards_vera.Programs.TierRules.{TierRule, RawRule, default_tier_rules, parse_tier_rule_set}

-- Prisma's `TokenisationProgram`; `tierRules` is JSON, read here as a list of raw rules.
pub record TokenisationProgram : Type 0 where
  pub id : String
  pub name : Text
  pub currency : Text
  pub tier_rules : List RawRule

pub record ResolvedProgramRules : Type 0 where
  pub rules : List TierRule
  pub currency : Option Text
  pub program_id : Option String

unfoldable pub resolve_rules : Option TokenisationProgram → Outcome ResolvedProgramRules
resolve_rules none = ok (record { rules = default_tier_rules; currency = none; program_id = none })
resolve_rules (some program) = elim (parse_tier_rule_set program.tier_rules) [
  | throw e ↦ throw e
  | ok rules ↦
      ok (record { rules = rules; currency = some program.currency; program_id = some program.id })
]
