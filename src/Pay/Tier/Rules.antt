-- ===== src/Pay/Tier/Rules.antt =====
-- The tier of an amount under a rule set that the schema accepted.
use karta_cards_vera.Common.{
  ℕ, pos, ◌≤◌, ◌≡◌, refl, true, false, List, [], ◌∷◌, length, arith, Bool-cases, inl, inr,
}
use karta_cards_vera.Core.Exec.{ok}
use karta_cards_vera.Programs.TierRules.{
  CredentialKind, platform, cross_platform, TierRule, RawRule, parse_tier_rule_set, covers,
}
use karta_cards_vera.Programs.TierRules.Coverage.{match_rule-parse, match_rule-nonempty}
use karta_cards_vera.Pay.Tier.{
  Tier, tier_1, tier_2, tier_3, TierDecision, includes, summarise_tier, evaluate_tier_rules,
}

-- Where a list of kinds is not empty, its tier says which kinds it has.
abbrev pub TierFits : Tier → List CredentialKind → Type 0
TierFits tier_1 kinds = (includes platform kinds ≡ true) × (includes cross_platform kinds ≡ false)
TierFits tier_2 kinds = (includes platform kinds ≡ false) × (includes cross_platform kinds ≡ true)
TierFits tier_3 kinds = (includes platform kinds ≡ true) × (includes cross_platform kinds ≡ true)

summarise_tier-TierFits :
    (kinds : List CredentialKind) → 1 ≤ length kinds → TierFits (summarise_tier kinds) kinds
unfolding summarise_tier
summarise_tier-TierFits [] h = absurd (omega arith)
summarise_tier-TierFits (platform ∷ kinds) h = elim (Bool-cases (includes cross_platform kinds)) [
  | inl e ↦ rw (e, summarise_tier) (refl, e)
  | inr e ↦ rw (e, summarise_tier) (refl, e)
]
summarise_tier-TierFits (cross_platform ∷ kinds) h = elim (Bool-cases (includes platform kinds)) [
  | inl e ↦ rw (e, summarise_tier) (e, refl)
  | inr e ↦ rw (e, summarise_tier) (e, refl)
]

-- Under a rule set that the schema accepts every non-negative amount gets a decision: the kinds of
-- the one rule that covers the amount, and the tier that says which of the two kinds are among
-- them (1: platform only, 2: cross-platform only, 3: both).
pub evaluate_tier_rules-TierFits :
    (raw : List RawRule) (rules : List TierRule) (amount : ℕ)
    → parse_tier_rule_set raw ≡ ok rules
    → (r : TierRule) × (d : TierDecision) × (evaluate_tier_rules rules (pos amount) ≡ ok d)
      × (covers amount r ≡ true)
      × (d.allowed_kinds ≡ r.allowed_kinds)
      × TierFits d.tier d.allowed_kinds
unfolding evaluate_tier_rules
evaluate_tier_rules-TierFits raw rules amount h =
    let (r, matched, holds, once) = match_rule-parse raw rules amount h in
    let kinds = match_rule-nonempty raw rules amount r h matched in
    (
      r,
      record {
        allowed_kinds = r.allowed_kinds;
        tier = summarise_tier r.allowed_kinds;
        label = r.label;
      },
      rw (matched, evaluate_tier_rules) refl,
      holds,
      refl,
      summarise_tier-TierFits r.allowed_kinds kinds,
    )
