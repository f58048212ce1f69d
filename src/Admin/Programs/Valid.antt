-- ===== src/Admin/Programs/Valid.antt =====
-- Every program in the table can price every transaction, after any sequence of admin requests.
use karta_cards_vera.Common.{
  ℕ, ◌≤◌, ◌≡◌, refl, String, string_of, Text, pos, Option, none, some, ◌||◌, List, [], ◌∷◌, map,
  any, find, length, All, All-append, is_some, subst, arith, Bool-cases, Option-cases, inl, inr,
}
use karta_cards_vera.Core.Exec.{Outcome, ok, Outcome-cases}
use karta_cards_vera.Programs.TierRules.{RawRule, TierRule, parse_tier_rule_set, match_rule}
use karta_cards_vera.Programs.TierRules.Coverage.{match_rule-parse, match_rule-nonempty}
use karta_cards_vera.Programs.Currency.{normalise_currency, IsCode, normalise_currency-IsCode}
use karta_cards_vera.Programs.Resolve.{TokenisationProgram, ResolvedProgramRules, resolve_rules}
use karta_cards_vera.Admin.Programs.{
  Programs, CreateBody, PatchBody, z_name, z_id, z_currency, z_rules, partial, patched,
  patch_program_row, has_id, insert_program, create_program, update_program, patch_program,
}

-- A stored program: a currency code, and tier rules that parse.
pub record IsValid (p : TokenisationProgram) : Type 0 where
  pub code : IsCode p.currency
  pub rules : List TierRule
  pub parses : parse_tier_rule_set p.tier_rules ≡ ok rules

abbrev pub AllValid : Programs → Type 0
AllValid = All IsValid

abbrev Parsed : List RawRule → Type 0
Parsed raw = (rules : List TierRule) × (parse_tier_rule_set raw ≡ ok rules)

z_rules-ok : (raw r : List RawRule) → z_rules raw ≡ ok r → Parsed r
unfolding z_rules
z_rules-ok raw r h = elim (Outcome-cases (parse_tier_rule_set raw)) [
  | inr (e, x) ↦ cc (rw (x, z_rules) at h)
  | inl (rules, x) ↦
      let passed : ok raw ≡ ok r = rw (x, z_rules) at h in
      let same : raw ≡ r = cc passed in (rules, rw same at x)
]

insert_program-AllValid :
    (row : TokenisationProgram) (s : Programs)
    → IsValid row
    → AllValid s
    → AllValid (insert_program row s).1
unfolding insert_program
insert_program-AllValid row s v h = elim (Bool-cases (any (has_id row.id) s)) [
  | inl x ↦ rw (x, insert_program) h
  | inr x ↦ rw (x, insert_program) (All-append IsValid s (row ∷ []) h (v, tt))
]

create_program-AllValid :
    (b : CreateBody) (s : Programs) → AllValid s → AllValid (create_program b s).1
unfolding create_program
create_program-AllValid b s h = elim (Outcome-cases (z_name b.name)) [
  | inr (e, x) ↦ rw (x, create_program) h
  | inl (name, x) ↦ elim (Outcome-cases (z_currency b.currency)) [
    | inr (e, y) ↦ rw (x, y, create_program) h
    | inl (code, y) ↦ elim (Outcome-cases (z_rules b.tier_rules)) [
      | inr (e, z) ↦ rw (x, y, z, create_program) h
      | inl (raw, z) ↦ elim (Outcome-cases (z_id b.id)) [
        | inr (e, u) ↦ rw (x, y, z, u, create_program) h
        | inl (id, u) ↦ elim (Outcome-cases (normalise_currency code)) [
          | inr (e, v) ↦ rw (x, y, z, u, v, create_program) h
          | inl (currency, v) ↦
              let row : TokenisationProgram = record {
                id = string_of id;
                name = name;
                currency = currency;
                tier_rules = raw;
              } in
              let (rules, parses) = z_rules-ok b.tier_rules raw z in
              let valid : IsValid row = record {
                code = (normalise_currency-IsCode code currency v).0;
                rules = rules;
                parses = parses;
              } in
              rw (x, y, z, u, v, create_program) (insert_program-AllValid row s valid h)
        ]
      ]
    ]
  ]
]

-- A field of a patch, if it is there.
abbrev pub OnSome : {A : Type 0} → (A → Type 0) → Option A → Type 0
OnSome P none = Unit
OnSome P (some a) = P a

partial-ok :
    {A : Type 0}
    → (P : A → Type 0) (check : A → Outcome A) → ((a b : A) → check a ≡ ok b → P b)
    → (o r : Option A) → partial check o ≡ ok r
    → OnSome P r
partial-ok P check sound none r h = let same : none ≡ r = cc h in subst (OnSome P) same tt
partial-ok P check sound (some a) r h = elim (Outcome-cases (check a)) [
  | inr (e, x) ↦ cc (rw (x, partial) at h)
  | inl (b, x) ↦
      let passed : ok (some b) ≡ ok r = rw (x, partial) at h in
      let same : some b ≡ r = cc passed in subst (OnSome P) same (sound a b x)
]

patched-IsValid :
    (name currency : Option Text) (rules : Option (List RawRule))
    → OnSome IsCode currency
    → OnSome Parsed rules
    → (p : TokenisationProgram) → IsValid p
    → IsValid (patched name currency rules p)
patched-IsValid name none none c r p v = record {
  code = v.code;
  rules = v.rules;
  parses = v.parses;
}
patched-IsValid name none (some raw) c (rules, parses) p v = record {
  code = v.code;
  rules = rules;
  parses = parses;
}
patched-IsValid name (some code) none c r p v = record {
  code = c;
  rules = v.rules;
  parses = v.parses;
}
patched-IsValid name (some code) (some raw) c (rules, parses) p v = record {
  code = c;
  rules = rules;
  parses = parses;
}

update_program-AllValid :
    (id : String) (f : TokenisationProgram → TokenisationProgram)
    → ((p : TokenisationProgram) → IsValid p → IsValid (f p))
    → (s : Programs) → AllValid s
    → AllValid (update_program id f s).1
unfolding update_program
update_program-AllValid id f keeps s h = elim (Option-cases (find (has_id id) s)) [
  | inl x ↦ rw (x, update_program) h
  | inr (row, x) ↦ rw (x, update_program) (rows s h)
]
  where
    row_valid : (p : TokenisationProgram) → IsValid p → IsValid (patch_program_row id f p)
    row_valid p v = elim (Bool-cases (has_id id p)) [ inl x ↦ rw x (keeps p v) | inr x ↦ rw x v ]

    rows : (ps : Programs) → AllValid ps → AllValid (map (patch_program_row id f) ps)
    rows [] _ = tt
    rows (p ∷ ps) (v, vs) = (row_valid p v, rows ps vs)

normalised : (a b : Text) → normalise_currency a ≡ ok b → IsCode b
normalised a b h = (normalise_currency-IsCode a b h).0

patch_program-AllValid :
    (id : String) (b : PatchBody) (s : Programs) → AllValid s → AllValid (patch_program id b s).1
unfolding patch_program
patch_program-AllValid id b s h = elim (Outcome-cases (partial z_name b.name)) [
  | inr (e, x) ↦ rw (x, patch_program) h
  | inl (name, x) ↦ elim (Outcome-cases (partial z_currency b.currency)) [
    | inr (e, y) ↦ rw (x, y, patch_program) h
    | inl (code, y) ↦ elim (Outcome-cases (partial z_rules b.tier_rules)) [
      | inr (e, z) ↦ rw (x, y, z, patch_program) h
      | inl (rules, z) ↦ elim (Bool-cases (is_some name || (is_some code || is_some rules))) [
        | inr u ↦ rw (x, y, z, u, patch_program) h
        | inl u ↦ elim (Outcome-cases (partial normalise_currency code)) [
          | inr (e, v) ↦ rw (x, y, z, u, v, patch_program) h
          | inl (currency, v) ↦
              let coded : OnSome IsCode currency =
                partial-ok IsCode normalise_currency normalised code currency v in
              let parsed : OnSome Parsed rules =
                partial-ok Parsed z_rules z_rules-ok b.tier_rules rules z in
              let keeps = patched-IsValid name currency rules coded parsed in
              rw (x, y, z, u, v, patch_program)
                (update_program-AllValid id (patched name currency rules) keeps s h)
        ]
      ]
    ]
  ]
]

-- What an admin sends.
pub data Request : Type 0 where
  creates : CreateBody → Request
  patches : String → PatchBody → Request

unfoldable pub handle : Request → Programs → Programs
handle (creates b) s = (create_program b s).1
handle (patches id b) s = (patch_program id b s).1

abbrev pub handle_all : List Request → Programs → Programs
handle_all [] s = s
handle_all (q ∷ qs) s = handle_all qs (handle q s)

handle_all-AllValid : (qs : List Request) (s : Programs) → AllValid s → AllValid (handle_all qs s)
unfolding handle
handle_all-AllValid [] s h = h
handle_all-AllValid (creates b ∷ qs) s h =
    handle_all-AllValid qs (handle (creates b) s) (create_program-AllValid b s h)
handle_all-AllValid (patches id b ∷ qs) s h =
    handle_all-AllValid qs (handle (patches id b) s) (patch_program-AllValid id b s h)

find-IsValid :
    (id : String) (p : TokenisationProgram) (s : Programs)
    → AllValid s
    → find (has_id id) s ≡ some p
    → IsValid p
find-IsValid id p [] _ h = cc
find-IsValid id p (q ∷ qs) (v, vs) h = elim (Bool-cases (has_id id q)) [
  | inl x ↦ let same : q ≡ p = ground arith in subst IsValid same v
  | inr x ↦ find-IsValid id p qs vs (ground arith)
]

-- Whatever the payment service resolves for the program and the amount.
abbrev pub Prices : TokenisationProgram → ℕ → Type 0
Prices p amount =
    (r : ResolvedProgramRules) × (resolve_rules (some p) ≡ ok r)
    × (r.currency ≡ some p.currency)
    × IsCode p.currency
    × (rule : TierRule) × (match_rule r.rules (pos amount) ≡ ok rule)
    × (1 ≤ length rule.allowed_kinds)

-- After any sequence of creations and patches, refused ones included, from an empty table, every
-- program the payment service finds in it resolves: its currency is a code of three capital
-- letters and each amount has a rule, which names at least one credential kind.
pub handle_all-Prices :
    (qs : List Request) (id : String) (p : TokenisationProgram) (amount : ℕ)
    → find (has_id id) (handle_all qs []) ≡ some p
    → Prices p amount
unfolding resolve_rules
handle_all-Prices qs id p amount h =
    let valid = find-IsValid id p (handle_all qs []) (handle_all-AllValid qs [] tt) h in
    let (rule, found, _, _) = match_rule-parse p.tier_rules valid.rules amount valid.parses in
    let resolved : ResolvedProgramRules = record {
      rules = valid.rules;
      currency = some p.currency;
      program_id = some p.id;
    } in
    (
      resolved,
      rw (valid.parses, resolve_rules) refl,
      refl,
      valid.code,
      rule,
      found,
      match_rule-nonempty p.tier_rules valid.rules amount rule valid.parses found,
    )
