-- ===== src/Programs.antt =====
-- packages/programs: tier rules, currencies, and the rules that a tokenisation program resolves to.
pub mod TierRules
pub mod Currency
pub mod Resolve
pub mod Tests
