-- ===== src/Admin/Programs.antt =====
-- services/admin/src/routes/tokenisation-programs.routes.ts. A body's tier rules are kept as they
-- came, since the schema gives back the fields it reads.
pub mod Valid
use Prim.Native.Nat.{Ordering}
use Prim.Native.String.{compare}
use karta_cards_vera.Common.{
  ℕ, String, ◌==◌, string_of, Text, Option, none, some, Bool, ◌&&◌, ◌||◌, List, [], ◌∷◌, ◌++◌, map,
  any, find, all, eqb, leb, length, is_digit, is_upper, is_lower, is_some, or_else, if◌then◌else◌,
}
use karta_cards_vera.Core.Error.{api, zod, not_found, conflict}
use karta_cards_vera.Core.Exec.{Outcome, ok, throw, Exec, lift, ◌>>=◌, ◌>>◌}
use karta_cards_vera.Programs.TierRules.{RawRule, parse_tier_rule_set}
use karta_cards_vera.Programs.Currency.{currency_schema, normalise_currency}
use karta_cards_vera.Programs.Resolve.{TokenisationProgram}

abbrev pub Programs : Type 0
Programs = List TokenisationProgram

-- `z.string().min(1).max(128)`
abbrev pub z_name : Text → Outcome Text
z_name t = if leb 1 (length t) && leb (length t) 128 then ok t else throw zod

-- `/^[a-z0-9_-]+$/i`, of 1 to 64 characters.
abbrev pub is_id_char : ℕ → Bool
is_id_char c = is_lower c || (is_upper c || (is_digit c || (eqb c b'_' || eqb c b'-')))

abbrev pub z_id : Text → Outcome Text
z_id t = if leb 1 (length t) && (leb (length t) 64 && all is_id_char t) then ok t else throw zod

abbrev pub z_currency : Text → Outcome Text
z_currency t = elim (currency_schema t) [ none ↦ throw zod | some c ↦ ok c ]

-- The rules as they came, if they parse.
unfoldable pub z_rules : List RawRule → Outcome (List RawRule)
z_rules raw = elim (parse_tier_rule_set raw) [ throw e ↦ throw e | ok _ ↦ ok raw ]

pub record CreateBody : Type 0 where
  pub id : Text
  pub name : Text
  pub currency : Text
  pub tier_rules : List RawRule

pub record PatchBody : Type 0 where
  pub name : Option Text
  pub currency : Option Text
  pub tier_rules : Option (List RawRule)

abbrev pub has_id : String → TokenisationProgram → Bool
has_id id p = p.id == id

-- `create`: a clash of ids is P2002, which the handler turns into a conflict.
unfoldable pub insert_program : TokenisationProgram → Exec Programs TokenisationProgram
insert_program row s =
    if any (has_id row.id) s
    then (throw (api (conflict "tokenisation_program_exists" none)), s)
    else (ok row, s ++ row ∷ [])

-- `POST /`
unfoldable pub create_program : CreateBody → Exec Programs TokenisationProgram
create_program b = do
  name ← lift (z_name b.name)
  code ← lift (z_currency b.currency)
  rules ← lift (z_rules b.tier_rules)
  id ← lift (z_id b.id)
  currency ← lift (normalise_currency code)
  insert_program
      (record { id = string_of id; name = name; currency = currency; tier_rules = rules })

-- `.partial()` on one field.
abbrev pub partial : {A : Type 0} → (A → Outcome A) → Option A → Outcome (Option A)
partial check none = ok none
partial check (some a) = elim (check a) [ throw e ↦ throw e | ok b ↦ ok (some b) ]

-- The patched row.
abbrev pub patched :
    Option Text → Option Text → Option (List RawRule) → TokenisationProgram → TokenisationProgram
patched name currency rules p = record {
  id = p.id;
  name = or_else name p.name;
  currency = or_else currency p.currency;
  tier_rules = or_else rules p.tier_rules;
}

abbrev pub patch_program_row :
    String → (TokenisationProgram → TokenisationProgram) → TokenisationProgram → TokenisationProgram
patch_program_row id f p = if has_id id p then f p else p

-- `update`: a missing row is P2025, which the handler turns into a 404.
unfoldable pub update_program :
    String → (TokenisationProgram → TokenisationProgram) → Exec Programs TokenisationProgram
update_program id f s = elim (find (has_id id) s) [
  | none ↦ (throw (api (not_found "tokenisation_program_not_found")), s)
  | some row ↦ (ok (f row), map (patch_program_row id f) s)
]

-- `PATCH /:id`
unfoldable pub patch_program : String → PatchBody → Exec Programs TokenisationProgram
patch_program id b = do
  name ← lift (partial z_name b.name)
  code ← lift (partial z_currency b.currency)
  rules ← lift (partial z_rules b.tier_rules)
  lift (if is_some name || (is_some code || is_some rules) then ok tt else throw zod)
  currency ← lift (partial normalise_currency code)
  update_program id (patched name currency rules)

-- `GET /:id`
unfoldable pub get_program : String → Exec Programs TokenisationProgram
get_program id s = elim (find (has_id id) s) [
  | none ↦ (throw (api (not_found "tokenisation_program_not_found")), s)
  | some row ↦ (ok row, s)
]

-- `GET /`, in the order of the ids.
abbrev pub insert_by_id : TokenisationProgram → Programs → Programs
insert_by_id p [] = p ∷ []
insert_by_id p (q ∷ qs) = elim (compare q.id p.id) [
  | Ordering.lt ↦ q ∷ insert_by_id p qs
  | _ ↦ p ∷ q ∷ qs
]

unfoldable pub list_programs : Programs → Programs
list_programs [] = []
list_programs (p ∷ ps) = insert_by_id p (list_programs ps)
