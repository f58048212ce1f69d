-- ===== src/Pay/Tier.antt =====
-- services/pay/src/transactions/tier.ts
pub mod Rules
use karta_cards_vera.Common.{ℤ, Bool, ◌&&◌, Option, List, any, Text, if◌then◌else◌}
use karta_cards_vera.Core.Exec.{Outcome, ok, throw}
use karta_cards_vera.Programs.TierRules.{
  CredentialKind, platform, cross_platform, kind_eq, TierRule, match_rule,
}

-- Prisma's enum `Tier`.
pub data Tier : Type 0 where
  tier_1 tier_2 tier_3 : Tier

pub record TierDecision : Type 0 where
  pub allowed_kinds : List CredentialKind
  pub tier : Tier
  pub label : Option Text

-- `kinds.includes(kind)`
abbrev pub includes : CredentialKind → List CredentialKind → Bool
includes kind = any (kind_eq kind)

unfoldable pub summarise_tier : List CredentialKind → Tier
summarise_tier kinds =
    let has_platform = includes platform kinds in
    let has_cross = includes cross_platform kinds in
    if has_platform && has_cross then tier_3 else if has_cross then tier_2 else tier_1

unfoldable pub evaluate_tier_rules : List TierRule → ℤ → Outcome TierDecision
evaluate_tier_rules rules amount = elim (match_rule rules amount) [
  | throw e ↦ throw e
  | ok rule ↦ ok (record {
    allowed_kinds = rule.allowed_kinds;
    tier = summarise_tier rule.allowed_kinds;
    label = rule.label;
  })
]
