-- ===== src/Pay/AdminKey/Matches.antt =====
-- Which header passes.
use karta_cards_vera.Common.{
  ℕ, ◌+◌, ◌-◌, ◌*◌, ◌/◌, ◌%◌, ◌<◌, ◌≡◌, refl, sym, ap, ap₂, ◌∙◌, ◌↔◌, Text, Option, none, some,
  true, false, ◌&&◌, [], ◌∷◌, map, all, eqb, leb, length, is_empty, is_digit, text_eq, text_eq_iff,
  arith, Bool-cases, inl, inr,
}
use karta_cards_vera.Core.Json.{hex_value, hex_digit}
use karta_cards_vera.Pay.Arqc.{is_hex, lower, to_hex}
use karta_cards_vera.Pay.Arqc.Validate.{length-lower}
use karta_cards_vera.ServiceAuth.{from_hex}
use karta_cards_vera.Pay.AdminKey.{passes, check_admin_key, require_admin_key}

hex-value :
    (c : ℕ)
    → is_hex c ≡ true
    → (d : ℕ) × (hex_value c ≡ some d) × (d < 16) × (hex_digit d ≡ lower c)
hex-value c h = elim (Bool-cases (is_digit c)) [
  | inl x ↦ (c - 48, ground arith, ground arith, ground arith)
  | inr x ↦ elim (Bool-cases (leb b'a' c && leb c b'f')) [
    | inl y ↦ (c - 87, ground arith, ground arith, ground arith)
    | inr y ↦ (c - 55, ground arith, ground arith, ground arith)
  ]
]

-- Decoding a text of an even number of hex digits keeps it, but for the case of its letters.
to_hex-from_hex :
    (n : ℕ) (s : Text) → all is_hex s ≡ true → length s ≡ n * 2 → to_hex (from_hex s) ≡ map lower s
unfolding to_hex from_hex
to_hex-from_hex n [] h e = refl
to_hex-from_hex n (a ∷ []) h e = absurd (omega arith)
to_hex-from_hex n (a ∷ b ∷ s) h e =
    let (d, da, small_a, same_a) = hex-value a (ground arith) in
    let (f, fb, small_b, same_b) = hex-value b (ground arith) in
    let high : (d * 16 + f) / 16 ≡ d = omega arith in
    let low : (d * 16 + f) % 16 ≡ f = omega arith in
    rw (da, fb, high, low, same_a, same_b, to_hex-from_hex (n - 1) s (ground arith) (omega arith))
      refl

length-from_hex :
    (n : ℕ) (s : Text) → all is_hex s ≡ true → length s ≡ n * 2 → length (from_hex s) ≡ n
unfolding from_hex
length-from_hex n [] h e = omega arith
length-from_hex n (a ∷ []) h e = absurd (omega arith)
length-from_hex n (a ∷ b ∷ s) h e =
    let (d, da, small_a, same_a) = hex-value a (ground arith) in
    let (f, fb, small_b, same_b) = hex-value b (ground arith) in
    let rest = length-from_hex (n - 1) s (ground arith) (omega arith) in rw (da, fb) (omega arith)

is_hex-lower : (c : ℕ) → is_hex (lower c) ≡ is_hex c
is_hex-lower c = ground arith

hex_value-lower : (c : ℕ) → hex_value (lower c) ≡ hex_value c
hex_value-lower c = ground arith

all-lower : (s : Text) → all is_hex (map lower s) ≡ all is_hex s
all-lower [] = refl
all-lower (c ∷ s) = ap₂ (λ x y. x && y) (is_hex-lower c) (all-lower s)

from_hex-lower : (s : Text) → from_hex (map lower s) ≡ from_hex s
unfolding from_hex
from_hex-lower [] = refl
from_hex-lower (a ∷ []) = refl
from_hex-lower (a ∷ b ∷ s) = rw (hex_value-lower a, hex_value-lower b, from_hex-lower s) refl

module _ (expected : Text) (hex : all is_hex expected ≡ true) (size : length expected ≡ 64) where
  decoded : length (from_hex expected) ≡ 32
  decoded = length-from_hex 32 expected hex size

  check_admin_key-passes :
      (p : Text) → check_admin_key expected p ≡ passes → map lower p ≡ map lower expected
  unfolding check_admin_key
  check_admin_key-passes p h =
      elim (Bool-cases (eqb (length p) (length (from_hex expected) * 2) && all is_hex p)) [
        | inr x ↦ cc (rw (x, check_admin_key) at h)
        | inl x ↦ elim (Bool-cases (text_eq (from_hex expected) (from_hex p))) [
          | inr y ↦ cc (rw (x, y, check_admin_key) at h)
          | inl y ↦
              let long : eqb (length p) (length (from_hex expected) * 2) ≡ true = ground arith in
              let digits : all is_hex p ≡ true = ground arith in
              let doubled : length p ≡ length (from_hex expected) * 2 = ground arith in
              let p_size : length p ≡ 32 * 2 = doubled ∙ ap (λ n. n * 2) decoded in
              sym (to_hex-from_hex 32 p digits p_size)
              ∙ (ap to_hex (sym ((text_eq_iff (from_hex expected) (from_hex p)).0 y))
                  ∙ to_hex-from_hex 32 expected hex size)
        ]
      ]

  passes-check_admin_key :
      (p : Text) → map lower p ≡ map lower expected → check_admin_key expected p ≡ passes
  unfolding check_admin_key
  passes-check_admin_key p h =
      let p_size : length p ≡ 64 =
        sym (length-lower p) ∙ (ap length h ∙ (length-lower expected ∙ size)) in
      let digits : all is_hex p ≡ true =
        sym (all-lower p) ∙ (ap (all is_hex) h ∙ (all-lower expected ∙ hex)) in
      let same : from_hex expected ≡ from_hex p =
        sym (from_hex-lower expected) ∙ (ap from_hex (sym h) ∙ from_hex-lower p) in
      rw
        (
          p_size,
          digits,
          decoded,
          (text_eq_iff (from_hex expected) (from_hex p)).1 same,
          check_admin_key,
        )
        refl

  -- Against a key of 64 hex digits, the middleware passes a request on exactly where its header is
  -- that key, in either case of each letter.
  pub require_admin_key_iff :
      (header : Option Text)
      → (require_admin_key expected header ≡ passes)
        ↔ ((p : Text) × (header ≡ some p) × (map lower p ≡ map lower expected))
  unfolding require_admin_key
  require_admin_key_iff none = (λ h. cc, λ (p, e, _). cc)
  require_admin_key_iff (some p) = (
    λ h. elim (Bool-cases (is_empty p)) [
      | inl x ↦ cc (rw (x, require_admin_key) at h)
      | inr x ↦
          let checked : check_admin_key expected p ≡ passes = rw (x, require_admin_key) at h in
          (p, refl, check_admin_key-passes p checked)
    ],
    λ (q, e, same).
        let is : p ≡ q = cc e in
        let lowered : map lower p ≡ map lower expected = rw is same in
        let filled : is_empty p ≡ false = filled_by p lowered in
        rw (filled, require_admin_key) (passes-check_admin_key p lowered),
  )
    where
      filled_by : (t : Text) → map lower t ≡ map lower expected → is_empty t ≡ false
      filled_by (c ∷ t) h = refl
      filled_by [] h =
          let same : 0 ≡ length expected = ap length h ∙ length-lower expected in
          absurd (omega arith)
