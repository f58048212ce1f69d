-- ===== src/Programs/Tests.antt =====
-- Witnesses for the theorems about packages/programs.
use karta_cards_vera.Common.{◌≡◌, ◌↔◌, refl, List, [], ◌∷◌, some, none, pos, true, count, codes}
use karta_cards_vera.Core.Exec.{ok}
use karta_cards_vera.Programs.TierRules.{
  platform, cross_platform, RawRule, TierRule, default_tier_rules, parse_rules, parse_tier_rule_set,
  match_rule, covers,
}
use karta_cards_vera.Programs.TierRules.Coverage.{Tiles, parse_tier_rule_set_iff, match_rule-parse}
use karta_cards_vera.Programs.Currency.{normalise_currency}

abbrev pub raw_rules : List RawRule
raw_rules =
    record {
      amount_min_minor = pos 0;
      amount_max_minor = some (pos 10_000);
      allowed_kinds = platform ∷ [];
      label = some (codes "Biometric (under AUD 100)");
    }
    ∷ record {
      amount_min_minor = pos 10_000;
      amount_max_minor = none;
      allowed_kinds = cross_platform ∷ [];
      label = some (codes "Card tap (AUD 100 and over)");
    }
    ∷ []

pub raw_rules_parse : parse_tier_rule_set raw_rules ≡ ok default_tier_rules
unfolding parse_tier_rule_set
raw_rules_parse = refl

match_rule-parse_example :
    (r : TierRule) × (match_rule default_tier_rules (pos 10_000) ≡ ok r)
    × (covers 10_000 r ≡ true)
    × (count (covers 10_000) default_tier_rules ≡ 1)
match_rule-parse_example = match_rule-parse raw_rules default_tier_rules 10_000 raw_rules_parse

parse_tier_rule_set_iff_example :
    (parse_tier_rule_set raw_rules ≡ ok default_tier_rules)
    ↔ ((parse_rules raw_rules ≡ some default_tier_rules) × Tiles 0 default_tier_rules)
parse_tier_rule_set_iff_example = parse_tier_rule_set_iff raw_rules default_tier_rules

aud : normalise_currency (codes "aUd") ≡ ok (codes "AUD")
unfolding normalise_currency
aud = refl
