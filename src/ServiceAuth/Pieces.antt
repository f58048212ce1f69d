-- ===== src/ServiceAuth/Pieces.antt =====
-- How the verifier's parser takes a header apart that is written without white space and commas.
use karta_cards_vera.Common.{
  ℕ, ◌≡◌, refl, Text, some, Bool, true, false, not, ◌&&◌, [], ◌∷◌, ◌++◌, all, eqb, arith,
}
use karta_cards_vera.Vault.Luhn.{is_space}
use karta_cards_vera.ServiceAuth.{break_at, split_comma, trim_end, trim, second_part}

-- A character of a key id, a timestamp or a signature.
abbrev pub is_plain : ℕ → Bool
is_plain c = not (is_space c) && not (eqb c b',')

-- A character of a whole header after the scheme.
abbrev pub is_solid : ℕ → Bool
is_solid c = not (is_space c)

pub is_solid-all : (t : Text) → all is_plain t ≡ true → all is_solid t ≡ true
is_solid-all [] h = refl
is_solid-all (c ∷ t) h = ground (arith, is_solid-all t)

pub all-append :
    (p : ℕ → Bool) (s t : Text) → all p s ≡ true → all p t ≡ true → all p (s ++ t) ≡ true
all-append p [] t hs ht = ht
all-append p (c ∷ s) t hs ht = ground (arith, all-append p s t)

pub break_at-all : (t : Text) → all is_solid t ≡ true → break_at is_space t ≡ (t, [])
break_at-all [] h = refl
break_at-all (c ∷ t) h =
    let first : is_space c ≡ false = ground arith in rw (first, break_at-all t (ground arith)) refl

pub split_comma-append :
    (s t : Text) → all is_plain s ≡ true → split_comma (s ++ b',' ∷ t) ≡ s ∷ split_comma t
split_comma-append [] t h = refl
split_comma-append (c ∷ s) t h =
    let first : eqb c b',' ≡ false = ground arith in
    rw (first, split_comma-append s t (ground arith)) refl

pub split_comma-all : (s : Text) → all is_plain s ≡ true → split_comma s ≡ s ∷ []
split_comma-all [] h = refl
split_comma-all (c ∷ s) h =
    let first : eqb c b',' ≡ false = ground arith in
    rw (first, split_comma-all s (ground arith)) refl

trim_end-all : (s : Text) → all is_plain s ≡ true → trim_end s ≡ s
trim_end-all [] h = refl
trim_end-all (c ∷ s) h =
    let first : is_space c ≡ false = ground arith in rw (first, trim_end-all s (ground arith)) refl

pub trim-all : (s : Text) → all is_plain s ≡ true → trim s ≡ s
trim-all [] h = refl
trim-all (c ∷ s) h =
    let first : is_space c ≡ false = ground arith in rw first (trim_end-all (c ∷ s) h)

pub second_part-all : (s : Text) → all is_solid s ≡ true → second_part (32 ∷ s) ≡ some s
second_part-all [] h = refl
second_part-all (c ∷ s) h =
    let first : is_space c ≡ false = ground arith in
    rw (first, break_at-all s (ground arith), first) refl
