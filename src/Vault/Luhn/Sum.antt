-- ===== src/Vault/Luhn/Sum.antt =====
-- The Luhn loop as a weighted sum that splits at any position.
use mathlib.Core.List.{reverse, reverse-append}
use karta_cards_vera.Common.{
  ℕ, ◌+◌, ◌-◌, ◌≡◌, refl, ap, ◌∙◌, Bool, false, not, List, [], ◌∷◌, ◌++◌, Text, keep, all, arith,
  append_assoc, ◌&&◌,
}
use karta_cards_vera.Vault.Luhn.{weigh, luhn_loop}

unfoldable pub luhn_sum : Bool → Text → ℕ
luhn_sum alt [] = 0
luhn_sum alt (c ∷ rest) = weigh alt (c - 48) + luhn_sum (not alt) rest

pub luhn_loop-sum : (sum : ℕ) (alt : Bool) (s : Text) → luhn_loop sum alt s ≡ sum + luhn_sum alt s
unfolding luhn_loop luhn_sum
luhn_loop-sum sum alt [] = omega arith
luhn_loop-sum sum alt (c ∷ s) = omega (arith, luhn_loop-sum (sum + weigh alt (c - 48)) (not alt) s)

-- The flag after a text.
pub flag_after : Bool → Text → Bool
flag_after alt [] = alt
flag_after alt (c ∷ rest) = flag_after (not alt) rest

pub luhn_sum-append :
    (alt : Bool) (s t : Text)
    → luhn_sum alt (s ++ t) ≡ luhn_sum alt s + luhn_sum (flag_after alt s) t
unfolding luhn_sum flag_after
luhn_sum-append alt [] t = omega arith
luhn_sum-append alt (c ∷ s) t = omega (arith, luhn_sum-append (not alt) s t)

pub keep-append {ℓ} :
    {A : Type ℓ} (p : A → Bool) (xs ys : List A) → keep p (xs ++ ys) ≡ keep p xs ++ keep p ys
keep-append p [] ys = refl
keep-append p (x ∷ xs) ys = ground (arith, keep-append p xs ys)

pub all-append {ℓ} :
    {A : Type ℓ} (p : A → Bool) (xs ys : List A) → all p (xs ++ ys) ≡ (all p xs && all p ys)
all-append p [] ys = refl
all-append p (x ∷ xs) ys = ground (arith, all-append p xs ys)

pub reverse-middle : (s t : Text) (c : ℕ) → reverse (s ++ c ∷ t) ≡ reverse t ++ c ∷ reverse s
reverse-middle s t c =
    reverse-append s (c ∷ t)
    ∙ (ap (λ (r : Text). r ++ reverse s) (reverse-append (c ∷ []) t)
        ∙ append_assoc (reverse t) (c ∷ []) (reverse s))

pub reverse-pair :
    (s t : Text) (c d : ℕ) → reverse (s ++ c ∷ d ∷ t) ≡ reverse t ++ d ∷ c ∷ reverse s
reverse-pair s t c d =
    reverse-append s (c ∷ d ∷ t)
    ∙ (ap (λ (r : Text). r ++ reverse s) (reverse-append (c ∷ d ∷ []) t)
        ∙ append_assoc (reverse t) (d ∷ c ∷ []) (reverse s))

-- The sum over the digits from the right, with one digit singled out.
pub luhn_loop-middle :
    (s t : Text) (c : ℕ)
    → luhn_loop 0 false (reverse (s ++ c ∷ t))
      ≡ luhn_sum false (reverse t)
        + (weigh (flag_after false (reverse t)) (c - 48)
            + luhn_sum (not (flag_after false (reverse t))) (reverse s))
unfolding luhn_sum
luhn_loop-middle s t c =
    luhn_loop-sum 0 false (reverse (s ++ c ∷ t))
    ∙ (ap (λ (r : Text). 0 + luhn_sum false r) (reverse-middle s t c)
        ∙ omega (arith, luhn_sum-append false (reverse t) (c ∷ reverse s)))
