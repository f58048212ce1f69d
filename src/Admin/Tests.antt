-- ===== src/Admin/Tests.antt =====
-- Witnesses for the theorems about the admin service.
use karta_cards_vera.Common.{◌≡◌, refl, codes, none, some, List, [], ◌∷◌, find}
use karta_cards_vera.Programs.Tests.{raw_rules}
use karta_cards_vera.Programs.TierRules.{parse_tier_rule_set}
use karta_cards_vera.Programs.Currency.{normalise_currency}
use karta_cards_vera.Programs.Resolve.{TokenisationProgram}
use karta_cards_vera.Admin.Programs.{
  z_rules, has_id, create_program, insert_program, patch_program, update_program,
}
use karta_cards_vera.Admin.Programs.Valid.{
  Request, creates, patches, handle, handle_all, Prices, handle_all-Prices,
}

abbrev requests : List Request
requests =
    creates (record {
      id = codes "gold";
      name = codes "Gold";
      currency = codes "aud";
      tier_rules = raw_rules;
    })
    ∷ creates
        (record { id = codes "gold"; name = codes "Gold"; currency = codes "usd"; tier_rules = [] })
    ∷ patches "gold" (record { name = none; currency = some (codes "nzd"); tier_rules = none })
    ∷ []

abbrev gold : TokenisationProgram
gold = record { id = "gold"; name = codes "Gold"; currency = codes "NZD"; tier_rules = raw_rules }

found : find (has_id "gold") (handle_all requests []) ≡ some gold
unfolding handle create_program insert_program patch_program update_program z_rules
    parse_tier_rule_set normalise_currency
found = refl

handle_all-Prices_example : Prices gold 10_000
handle_all-Prices_example = handle_all-Prices requests "gold" gold 10_000 found
