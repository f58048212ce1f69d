-- ===== src/Common/Strings.antt =====
-- Text that the program walks: lists of character codes. Text that it only compares is `String`.
use Prim.Native.Nat.{ℕ, compare, Ordering}
use Prim.Native.Char.{Char, char, code, nul, IsLt, IsScalar}
use Prim.Native.String.{String, ◌++◌}
use mathlib.Core.Path.{◌≡◌, refl, ap₂}
use mathlib.Core.Logic.{◌↔◌}
use mathlib.Core.Bool.{Bool, true, false, ◌&&◌}
use mathlib.Core.List.{List, [], ◌∷◌}
use native.Mathlib.Omega.{arith}
use karta_cards_vera.Common.Tests.{leb, eqb}

abbrev pub Text : Type 0
Text = List ℕ

-- A literal as a list of codes.
abbrev pub codes : String → Text
codes String.[] = []
codes (String.◌∷◌ c s) = code c ∷ codes s

abbrev pub text_eq : Text → Text → Bool
text_eq [] [] = true
text_eq [] (_ ∷ _) = false
text_eq (_ ∷ _) [] = false
text_eq (a ∷ s) (b ∷ t) = eqb a b && text_eq s t

pub text_eq_sound : (s t : Text) → text_eq s t ≡ true → s ≡ t
text_eq_sound [] [] h = refl
text_eq_sound [] (b ∷ t) h = cc
text_eq_sound (a ∷ s) [] h = cc
text_eq_sound (a ∷ s) (b ∷ t) h = ground (arith, text_eq_sound s t)

pub text_eq_refl : (s : Text) → text_eq s s ≡ true
text_eq_refl [] = refl
text_eq_refl (a ∷ s) = ground (arith, text_eq_refl s)

pub text_eq_iff : (s t : Text) → (text_eq s t ≡ true) ↔ (s ≡ t)
text_eq_iff s t = (text_eq_sound s t, λ e. rw e (text_eq_refl t))

abbrev pub is_empty : Text → Bool
is_empty [] = true
is_empty (_ ∷ _) = false

-- `[0-9]`
abbrev pub is_digit : ℕ → Bool
is_digit c = leb b'0' c && leb c b'9'

-- `[A-Z]`
abbrev pub is_upper : ℕ → Bool
is_upper c = leb b'A' c && leb c b'Z'

-- `[a-z]`
abbrev pub is_lower : ℕ → Bool
is_lower c = leb b'a' c && leb c b'z'

-- A template string of two parts.
abbrev pub concat : String → String → String
concat s t = s ++ t

-- A list of codes as a text that is compared; a number that is no scalar value becomes U+0000.
abbrev BothScalar : Ordering → Ordering → Type 0
BothScalar Ordering.lt o = IsLt o
BothScalar Ordering.eq _ = ⊥
BothScalar Ordering.gt _ = ⊥

abbrev IsScalarBy : Ordering → Ordering → Ordering → Type 0
IsScalarBy Ordering.lt _ _ = Unit
IsScalarBy Ordering.eq o p = BothScalar o p
IsScalarBy Ordering.gt o p = BothScalar o p

abbrev pub char_from : (n : ℕ) (o p q : Ordering) → (IsScalarBy o p q → IsScalar n) → Char
char_from n Ordering.lt p q f = char n (f tt)
char_from n Ordering.eq Ordering.lt Ordering.lt f = char n (f tt)
char_from n Ordering.gt Ordering.lt Ordering.lt f = char n (f tt)
char_from n o p q f = nul

abbrev pub char_of : ℕ → Char
char_of n = char_from n (compare n 55296) (compare 57343 n) (compare n 1114112) (λ h. h)

abbrev pub string_of : Text → String
string_of [] = String.[]
string_of (c ∷ t) = String.◌∷◌ (char_of c) (string_of t)

char_from_scalar :
    (n : ℕ) (o p q : Ordering) (f : IsScalarBy o p q → IsScalar n) (h : IsScalarBy o p q)
    → char_from n o p q f ≡ char n (f h)
char_from_scalar n Ordering.lt p q f h = refl
char_from_scalar n Ordering.eq Ordering.lt Ordering.lt f h = refl
char_from_scalar n Ordering.eq Ordering.lt Ordering.eq f h = absurd h
char_from_scalar n Ordering.eq Ordering.lt Ordering.gt f h = absurd h
char_from_scalar n Ordering.eq Ordering.eq q f h = absurd h
char_from_scalar n Ordering.eq Ordering.gt q f h = absurd h
char_from_scalar n Ordering.gt Ordering.lt Ordering.lt f h = refl
char_from_scalar n Ordering.gt Ordering.lt Ordering.eq f h = absurd h
char_from_scalar n Ordering.gt Ordering.lt Ordering.gt f h = absurd h
char_from_scalar n Ordering.gt Ordering.eq q f h = absurd h
char_from_scalar n Ordering.gt Ordering.gt q f h = absurd h

-- A text that is read from its own codes is itself.
pub string_of-codes : (s : String) → string_of (codes s) ≡ s
string_of-codes String.[] = refl
string_of-codes (String.◌∷◌ (char n h) s) =
    ap₂ String.◌∷◌
      (char_from_scalar n (compare n 55296) (compare 57343 n) (compare n 1114112) (λ p. p) h)
      (string_of-codes s)
