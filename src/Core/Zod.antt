-- ===== src/Core/Zod.antt =====
-- A parsed JSON body, and the zod checks that the routes put on its fields (packages/core's
-- validate.ts throws a ZodError where one fails). `none` is an issue.
use karta_cards_vera.Common.{
  ℕ, String, ◌==◌, string_of, string_of-codes, ◌≡◌, refl, eq_refl, arith, Text, codes, ℤ, pos,
  Option, none, some, Bool, true, false, ◌&&◌, leb, length, if◌then◌else◌,
}
use karta_cards_vera.Core.Error.{zod}
use karta_cards_vera.Core.Exec.{Outcome, ok, throw}

-- A number that is no integer is `frac`.
mutual
  pub data Json : Type 0 where
    null frac : Json
    bool : Bool → Json
    num : ℤ → Json
    str : Text → Json
    arr : Items → Json
    obj : Fields → Json

  pub data Items : Type 0 where
    nil : Items
    cons : Json → Items → Items

  pub data Fields : Type 0 where
    end : Fields
    field : String → Json → Fields → Fields

-- The last field of a name counts.
abbrev pub field_of : String → Fields → Option Json
field_of k end = none
field_of k (field j v rest) = elim (field_of k rest) [
  | some later ↦ some later
  | none ↦ if j == k then some v else none
]

infixl 10 ◌>>=◌ ◌>>◌
abbrev pub ◌>>=◌ : {A B : Type 0} → Option A → (A → Option B) → Option B
none >>= f = none
some a >>= f = f a

abbrev pub ◌>>◌ : {A B : Type 0} → Option A → Option B → Option B
m >> n = m >>= λ _. n

-- `z.object({ … })` on a body.
abbrev pub z_object : {A : Type 0} → (Fields → Option A) → Json → Option A
z_object f (obj fields) = f fields
z_object f _ = none

-- `z.string()` and a test on it.
unfoldable pub z_string : (Text → Bool) → Option Json → Option Text
z_string p (some (str t)) = if p t then some t else none
z_string p _ = none

abbrev pub any_text : Text → Bool
any_text t = true

-- `.min(a)` and `.max(b)`
abbrev pub min_length : ℕ → Text → Bool
min_length a t = leb a (length t)

abbrev pub within : ℕ → ℕ → Text → Bool
within a b t = leb a (length t) && leb (length t) b

-- `.optional()` after a check on a value.
unfoldable pub z_optional :
    {A : Type 0} → (Option Json → Option A) → Option Json → Option (Option A)
z_optional check none = some none
z_optional check (some v) = elim (check (some v)) [ none ↦ none | some a ↦ some (some a) ]

-- `z.number().int().nonnegative()`
unfoldable pub z_nonnegative : Option Json → Option ℕ
z_nonnegative (some (num (pos n))) = some n
z_nonnegative _ = none

-- A text that is only compared from here on.
unfoldable pub text_field : (Text → Bool) → Option Json → Option String
text_field p v = elim (z_string p v) [ none ↦ none | some t ↦ some (string_of t) ]

-- `validateBody(schema)`
abbrev pub validate_body : {A : Type 0} → (Json → Option A) → Json → Outcome A
validate_body schema body = elim (schema body) [ none ↦ throw zod | some a ↦ ok a ]

-- A field that is present and passes its test.
pub text_field-ok :
    (p : Text → Bool) (s : String)
    → p (codes s) ≡ true
    → text_field p (some (str (codes s))) ≡ some s
unfolding text_field z_string
text_field-ok p s h = rw (text_field, z_string, h, string_of-codes s) refl

-- An optional text, present or not.
abbrev pub opt_json : Option String → Option Json
opt_json none = none
opt_json (some s) = some (str (codes s))

pub z_optional-opt_json :
    (o : Option String) → z_optional (text_field any_text) (opt_json o) ≡ some o
unfolding z_optional text_field z_string
z_optional-opt_json none = refl
z_optional-opt_json (some s) = rw (string_of-codes s) refl

-- Reading a field past another one, and reading the one that stands first.
pub field_of-other :
    (k j : String) (v : Json) (rest : Fields)
    → (j == k) ≡ false
    → field_of k (field j v rest) ≡ field_of k rest
field_of-other k j v rest h = ground arith

pub field_of-here :
    (k : String) (v : Json) (rest : Fields)
    → field_of k rest ≡ none
    → field_of k (field k v rest) ≡ some v
field_of-here k v rest h = rw (h, eq_refl k) refl
