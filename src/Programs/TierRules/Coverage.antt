-- ===== src/Programs/TierRules/Coverage.antt =====
-- A ruleset that the schema accepts covers every amount exactly once.
use karta_cards_vera.Common.{
  ℕ, suc, ◌≤◌, ◌<◌, ◌≡◌, refl, ap, subst, sym, ◌↔◌, Option-cases, inl, inr, Bool-cases, true, none,
  some, List, [], ◌∷◌, ltb, leb, ltb→lt, ◌&&◌, length, find, count, All, pos, arith,
}
use karta_cards_vera.Core.Exec.{ok}
use karta_cards_vera.Programs.TierRules.{
  TierRule, RawRule, neighbour_issues, rule_set_issues, check_rules, parse_rule, parse_rules,
  parse_tier_rule_set, last_rule, covers, match_rule,
}

-- The rules tile the amounts from `lo` on: each starts where the one before ends, none is empty,
-- and only the last is unbounded.
abbrev pub Tiles : ℕ → List TierRule → Type 0
Tiles lo [] = ⊥
Tiles lo (r ∷ []) = (r.amount_min_minor ≡ lo) × (r.amount_max_minor ≡ none)
Tiles lo (r ∷ next ∷ rest) =
    (hi : ℕ) × (r.amount_max_minor ≡ some hi)
    × (r.amount_min_minor ≡ lo)
    × (lo < hi)
    × Tiles hi (next ∷ rest)

-- What a rule's own schema guarantees.
pub record IsWellFormed (r : TierRule) : Type 0 where
  pub nonempty : 1 ≤ length r.allowed_kinds
  pub ordered : (hi : ℕ) → r.amount_max_minor ≡ some hi → r.amount_min_minor < hi

parse_rule-IsWellFormed : (r : RawRule) (t : TierRule) → parse_rule r ≡ some t → IsWellFormed t
unfolding parse_rule
parse_rule-IsWellFormed r t h = record { nonempty = ground arith; ordered = λ hi e. ground arith }

parse_rules-IsWellFormed :
    (raw : List RawRule) (rules : List TierRule)
    → parse_rules raw ≡ some rules
    → All IsWellFormed rules
unfolding parse_rules
parse_rules-IsWellFormed [] [] h = tt
parse_rules-IsWellFormed [] (t ∷ ts) h = cc
parse_rules-IsWellFormed (r ∷ raw) [] h = ground arith
parse_rules-IsWellFormed (r ∷ raw) (t ∷ ts) h =
    (parse_rule-IsWellFormed r t (ground arith), parse_rules-IsWellFormed raw ts (ground arith))

-- With no issue between neighbours and a last rule that is unbounded, the rules tile.
neighbour_issues-Tiles :
    (i : ℕ) (r : TierRule) (rest : List TierRule)
    → All IsWellFormed (r ∷ rest)
    → neighbour_issues i r rest ≡ []
    → (last_rule r rest).amount_max_minor ≡ none
    → Tiles r.amount_min_minor (r ∷ rest)
unfolding neighbour_issues
neighbour_issues-Tiles i r [] w h l = (refl, l)
neighbour_issues-Tiles i r (next ∷ rest) w h l = elim (Option-cases r.amount_max_minor) [
  | inl e ↦ ground arith
  | inr (hi, e) ↦
      let joined : next.amount_min_minor ≡ hi = ground arith in
      let rest_clear : neighbour_issues (suc i) next rest ≡ [] = ground arith in
      let tiles = neighbour_issues-Tiles (suc i) next rest w.1 rest_clear l in
      (hi, e, refl, w.0.ordered hi e, subst (λ x. Tiles x (next ∷ rest)) joined tiles)
]

Tiles-neighbour_issues :
    (i lo : ℕ) (r : TierRule) (rest : List TierRule)
    → Tiles lo (r ∷ rest)
    → (neighbour_issues i r rest ≡ [])
      × ((last_rule r rest).amount_max_minor ≡ none)
      × (r.amount_min_minor ≡ lo)
unfolding neighbour_issues
Tiles-neighbour_issues i lo r [] t = (refl, t.1, t.0)
Tiles-neighbour_issues i lo r (next ∷ rest) (hi, b, e, l, t) =
    ground (arith, Tiles-neighbour_issues (suc i) hi next rest t)

rule_set_issues_iff :
    (r : TierRule) (rest : List TierRule)
    → All IsWellFormed (r ∷ rest)
    → (rule_set_issues r rest ≡ []) ↔ Tiles 0 (r ∷ rest)
unfolding rule_set_issues
rule_set_issues_iff r rest w = (
  λ h.
      let starts : r.amount_min_minor ≡ 0 = ground arith in
      let clear : neighbour_issues 0 r rest ≡ [] = ground arith in
      let unbounded : (last_rule r rest).amount_max_minor ≡ none = ground arith in
      subst (λ x. Tiles x (r ∷ rest)) starts (neighbour_issues-Tiles 0 r rest w clear unbounded),
  λ t. ground (arith, Tiles-neighbour_issues 0 0 r rest t),
)

-- The test of one bounded or unbounded rule.
covers-bounded :
    (n lo hi : ℕ) (r : TierRule)
    → r.amount_max_minor ≡ some hi
    → r.amount_min_minor ≡ lo
    → covers n r ≡ (leb lo n && ltb n hi)
unfolding covers
covers-bounded n lo hi r b e = ground arith

covers-unbounded :
    (n lo : ℕ) (r : TierRule)
    → r.amount_max_minor ≡ none
    → r.amount_min_minor ≡ lo
    → covers n r ≡ leb lo n
unfolding covers
covers-unbounded n lo r b e = ground arith

-- Below the start of a tiling no rule covers an amount.
count-covers_below :
    (lo n : ℕ) (rules : List TierRule) → Tiles lo rules → n < lo → count (covers n) rules ≡ 0
count-covers_below lo n [] t h = elim t [ ]
count-covers_below lo n (r ∷ []) t h = ground (arith, covers-unbounded n lo r t.1 t.0)
count-covers_below lo n (r ∷ next ∷ rest) (hi, b, e, l, t) h =
    let later : count (covers n) (next ∷ rest) ≡ 0 =
      count-covers_below hi n (next ∷ rest) t (omega arith) in
    rw later (ground (arith, covers-bounded n lo hi r b e))

count-covers :
    (lo n : ℕ) (rules : List TierRule) → Tiles lo rules → lo ≤ n → count (covers n) rules ≡ 1
count-covers lo n [] t h = elim t [ ]
count-covers lo n (r ∷ []) t h = ground (arith, covers-unbounded n lo r t.1 t.0)
count-covers lo n (r ∷ next ∷ rest) (hi, b, e, l, t) h = elim (Bool-cases (ltb n hi)) [
  | inl below ↦
      let later : count (covers n) (next ∷ rest) ≡ 0 =
        count-covers_below hi n (next ∷ rest) t (ltb→lt n hi below) in
      rw later (ground (arith, covers-bounded n lo hi r b e))
  | inr above ↦
      let later : count (covers n) (next ∷ rest) ≡ 1 =
        count-covers hi n (next ∷ rest) t (ground arith) in
      rw later (ground (arith, covers-bounded n lo hi r b e))
]

-- `find` succeeds where the count is positive, and what it finds passes the test.
find-count :
    (n : ℕ) (rules : List TierRule)
    → count (covers n) rules ≡ 1
    → (r : TierRule) × (find (covers n) rules ≡ some r) × (covers n r ≡ true)
find-count n [] h = absurd (omega arith)
find-count n (r ∷ rs) h = elim (Bool-cases (covers n r)) [
  | inl e ↦ (r, rw e, e)
  | inr e ↦ let (r', found, holds) = find-count n rs (ground arith) in (r', rw e found, holds)
]

-- The schema of the list, on rules that passed their own.
check_rules-Tiles :
    (checked : List TierRule)
    → All IsWellFormed checked
    → (check_rules checked ≡ ok checked) ↔ Tiles 0 checked
unfolding check_rules
check_rules-Tiles [] w = (λ h. cc, λ t. elim t [ ])
check_rules-Tiles (r ∷ rest) w =
    let (to, from) = rule_set_issues_iff r rest w in
    (λ h. to (ground arith), λ t. ground (arith, from t))

check_rules-eq-ok :
    (checked rules : List TierRule) → check_rules checked ≡ ok rules → checked ≡ rules
unfolding check_rules
check_rules-eq-ok [] rules h = cc
check_rules-eq-ok (r ∷ rest) rules h = ground arith

check_rules-accepts :
    (checked rules : List TierRule)
    → All IsWellFormed checked
    → (check_rules checked ≡ ok rules) ↔ ((some checked ≡ some rules) × Tiles 0 rules)
check_rules-accepts checked rules w = (
  λ h.
      let same = check_rules-eq-ok checked rules h in
      (ap some same, subst (Tiles 0) same ((check_rules-Tiles checked w).0 (rw (← same) at h))),
  λ (p, t).
      let same : checked ≡ rules = cc in
      rw (← same) ((check_rules-Tiles checked w).1 (subst (Tiles 0) (sym same) t)),
)

-- A ruleset is accepted exactly when each rule passes its own schema and the rules tile the
-- amounts from 0 on; it is then returned as parsed.
pub parse_tier_rule_set_iff :
    (raw : List RawRule) (rules : List TierRule)
    → (parse_tier_rule_set raw ≡ ok rules) ↔ ((parse_rules raw ≡ some rules) × Tiles 0 rules)
unfolding parse_tier_rule_set
parse_tier_rule_set_iff raw rules = elim (Option-cases (parse_rules raw)) [
  | inl e ↦ rw (e, parse_tier_rule_set) (λ h. cc, λ h. cc)
  | inr (parsed, e) ↦
      let w = parse_rules-IsWellFormed raw parsed e in
      rw (e, parse_tier_rule_set) (check_rules-accepts parsed rules w)
]

-- Whatever ruleset the schema accepts, each non-negative amount is covered by exactly one of its
-- rules, and `matchRule` returns that rule.
pub match_rule-parse :
    (raw : List RawRule) (rules : List TierRule) (amount : ℕ)
    → parse_tier_rule_set raw ≡ ok rules
    → (r : TierRule) × (match_rule rules (pos amount) ≡ ok r)
      × (covers amount r ≡ true)
      × (count (covers amount) rules ≡ 1)
unfolding match_rule
match_rule-parse raw rules amount h =
    let (parsed, tiles) = (parse_tier_rule_set_iff raw rules).0 h in
    let once = count-covers 0 amount rules tiles (omega arith) in
    let (r, found, holds) = find-count amount rules once in (r, rw (found, match_rule), holds, once)

find-All :
    (n : ℕ) (rules : List TierRule) (r : TierRule)
    → All IsWellFormed rules
    → find (covers n) rules ≡ some r
    → IsWellFormed r
find-All n [] r w h = cc
find-All n (x ∷ xs) r w h = elim (Bool-cases (covers n x)) [
  | inl e ↦ let same : x ≡ r = ground arith in subst IsWellFormed same w.0
  | inr e ↦ find-All n xs r w.1 (ground arith)
]

-- The rule that matches names a kind.
pub match_rule-nonempty :
    (raw : List RawRule) (rules : List TierRule) (amount : ℕ) (r : TierRule)
    → parse_tier_rule_set raw ≡ ok rules
    → match_rule rules (pos amount) ≡ ok r
    → 1 ≤ length r.allowed_kinds
unfolding match_rule
match_rule-nonempty raw rules amount r h m =
    let (parsed, _) = (parse_tier_rule_set_iff raw rules).0 h in
    (find-All amount rules r (parse_rules-IsWellFormed raw rules parsed) (ground arith)).nonempty
