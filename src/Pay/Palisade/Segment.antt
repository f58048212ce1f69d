-- ===== src/Pay/Palisade/Segment.antt =====
-- An id in a path: one segment, from which the id can be read back.
use karta_cards_vera.Common.{
  ℕ, ◌+◌, ◌*◌, ◌/◌, ◌%◌, ◌<◌, ◌≡◌, refl, ap, ◌∙◌, Text, some, Bool, true, false, ◌||◌, [], ◌∷◌,
  ◌++◌, All, all, eqb, ltb, or_else, arith, Bool-cases, inl, inr, if◌then◌else◌,
}
use karta_cards_vera.Core.Encryption.{Bytes}
use karta_cards_vera.Core.Json.{hex_value}
use karta_cards_vera.Pay.Arqc.{utf8, utf8_char}
use karta_cards_vera.Pay.Arqc.Validate.{IsByte}
use karta_cards_vera.Pay.Palisade.Api.{is_unreserved, upper_hex, percent, encode_uri_component}

-- The characters of a path segment: letters, digits, marks and the percent sign. A slash, a
-- question mark, a number sign and white space are none of them.
abbrev pub is_segment : ℕ → Bool
is_segment c = eqb c b'%' || is_unreserved c

-- Percent-decoding, by RFC 3986.
pub percent_decode : Text → Bytes
percent_decode [] = []
percent_decode (c ∷ []) = c ∷ []
percent_decode (c ∷ a ∷ []) = c ∷ a ∷ []
percent_decode (c ∷ a ∷ b ∷ t) =
    let plain = c ∷ percent_decode (a ∷ b ∷ t) in
    let escaped = (or_else (hex_value a) 0 * 16 + or_else (hex_value b) 0) ∷ percent_decode t in
    if eqb c b'%' then escaped else plain

upper_hex-segment : (d : ℕ) → d < 16 → is_segment (upper_hex d) ≡ true
upper_hex-segment d h = ground arith

hex_value-upper_hex : (d : ℕ) → d < 16 → hex_value (upper_hex d) ≡ some d
hex_value-upper_hex d h = ground arith

percent_decode-plain :
    (c : ℕ) (t : Text) → eqb c b'%' ≡ false → percent_decode (c ∷ t) ≡ c ∷ percent_decode t
unfolding percent_decode
percent_decode-plain c [] h = refl
percent_decode-plain c (a ∷ []) h = refl
percent_decode-plain c (a ∷ b ∷ t) h = rw h refl

percent_decode-percent :
    (bs : Bytes) (t : Text)
    → All IsByte bs
    → percent_decode (percent bs ++ t) ≡ bs ++ percent_decode t
unfolding percent_decode
percent_decode-percent [] t h = refl
percent_decode-percent (b ∷ bs) t (small, h) =
    let high = hex_value-upper_hex (b / 16) (omega arith) in
    let low = hex_value-upper_hex (b % 16) (omega arith) in
    let same : b / 16 * 16 + b % 16 ≡ b = omega arith in
    rw (high, low, same, percent_decode-percent bs t h) refl

percent-segment : (bs : Bytes) → All IsByte bs → all is_segment (percent bs) ≡ true
percent-segment [] h = refl
percent-segment (b ∷ bs) (small, h) =
    let high = upper_hex-segment (b / 16) (omega arith) in
    let low = upper_hex-segment (b % 16) (omega arith) in rw (high, low) (percent-segment bs h)

all-append :
    (s t : Text)
    → all is_segment s ≡ true
    → all is_segment t ≡ true
    → all is_segment (s ++ t) ≡ true
all-append [] t hs ht = ht
all-append (c ∷ s) t hs ht = ground (arith, all-append s t)

-- A Unicode code point.
abbrev pub IsCodePoint : ℕ → Type 0
IsCodePoint c = c < 0x110000

utf8_char-bytes : (c : ℕ) → IsCodePoint c → All IsByte (utf8_char c)
utf8_char-bytes c h = elim (Bool-cases (ltb c 0x80)) [
  | inl p ↦ rw p (ground arith)
  | inr p ↦ elim (Bool-cases (ltb c 0x800)) [
    | inl q ↦ rw (p, q) (ground arith)
    | inr q ↦ elim (Bool-cases (ltb c 0x10000)) [
      | inl r ↦ rw (p, q, r) (ground arith)
      | inr r ↦ rw (p, q, r) (ground arith)
    ]
  ]
]

unreserved-ascii : (c : ℕ) → is_unreserved c ≡ true → (eqb c b'%' ≡ false) × (ltb c 0x80 ≡ true)
unreserved-ascii c h = ground arith

-- The encoding of an id is one path segment, and decoding it gives the bytes of the id.
pub percent_decode-encode_uri_component :
    (s : Text)
    → All IsCodePoint s
    → (percent_decode (encode_uri_component s) ≡ utf8 s)
      × (all is_segment (encode_uri_component s) ≡ true)
unfolding encode_uri_component utf8
percent_decode-encode_uri_component [] h = (unfold percent_decode in refl, refl)
percent_decode-encode_uri_component (c ∷ s) (point, h) =
    let (decoded, segment) = percent_decode-encode_uri_component s h in
    elim (Bool-cases (is_unreserved c)) [
      | inl kept ↦
          let (mark, ascii) = unreserved-ascii c kept in
          (
            rw (kept, ascii)
                (percent_decode-plain c (encode_uri_component s) mark ∙ ap (λ t. c ∷ t) decoded),
            rw kept (rw kept (ground arith)),
          )
      | inr escaped ↦ (
        rw escaped (
            percent_decode-percent (utf8_char c) (encode_uri_component s) (utf8_char-bytes c point)
            ∙ ap (λ t. utf8_char c ++ t) decoded),
        rw escaped (
            all-append (percent (utf8_char c)) (encode_uri_component s)
              (percent-segment (utf8_char c) (utf8_char-bytes c point)) segment),
      )
    ]
