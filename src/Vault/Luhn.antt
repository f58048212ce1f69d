-- ===== src/Vault/Luhn.antt =====
-- services/vault/src/vault/fingerprint.ts: normalisation and the Luhn check of a card number, and
-- the check that the two frontends repeat (services/pay/frontend/src/utils/luhn.ts).
pub mod Sum
pub mod Detects
pub mod Frontend
use mathlib.Core.List.{reverse}
use karta_cards_vera.Common.{
  ℕ, ◌+◌, ◌-◌, ◌*◌, ◌%◌, Bool, false, not, ◌&&◌, ◌||◌, [], ◌∷◌, map, Text, ltb, leb, eqb, length,
  keep, all, is_digit, is_upper, if◌then◌else◌,
}

-- `\s` over UTF-16 code units.
abbrev pub is_space : ℕ → Bool
is_space c =
    (leb 9 c && leb c 13)
    || (eqb c 32
        || (eqb c 160
            || (eqb c 0x1680
                || ((leb 0x2000 c && leb c 0x200a)
                    || (eqb c 0x2028
                        || (eqb c 0x2029
                            || (eqb c 0x202f
                                || (eqb c 0x205f || (eqb c 0x3000 || eqb c 0xfeff)))))))))

-- `[\s-]`
abbrev pub is_separator : ℕ → Bool
is_separator c = is_space c || eqb c b'-'

-- `s.replace(/[\s-]/g, '')`
unfoldable pub strip : Text → Text
strip s = keep (λ c. not (is_separator c)) s

-- `toLowerCase` on ASCII, for the text that is fingerprinted.
abbrev pub to_lower : ℕ → ℕ
to_lower c = if is_upper c then c + 32 else c

-- The text that `fingerprintPan` hands to HMAC.
unfoldable pub fingerprint_input : Text → Text
unfolding strip
fingerprint_input raw = map to_lower (strip raw)

-- What one digit adds: doubled, less 9 above 9, where `alt` is set.
abbrev pub weigh : Bool → ℕ → ℕ
weigh alt d = if alt then (if ltb 9 (d * 2) then d * 2 - 9 else d * 2) else d

-- The loop over the digits from the last to the first.
unfoldable pub luhn_loop : ℕ → Bool → Text → ℕ
luhn_loop sum alt [] = sum
luhn_loop sum alt (c ∷ rest) = luhn_loop (sum + weigh alt (c - 48)) (not alt) rest

unfoldable pub luhn_valid : Text → Bool
unfolding strip luhn_loop
luhn_valid pan =
    let digits = strip pan in
    (leb 1 (length digits) && all is_digit digits)
    && ((leb 12 (length digits) && leb (length digits) 19)
        && eqb (luhn_loop 0 false (reverse digits) % 10) 0)

-- The frontends strip every character that is no digit: `pan.replace(/\D/g, '')`.
unfoldable pub luhn_valid_frontend : Text → Bool
unfolding luhn_loop
luhn_valid_frontend pan =
    let digits = keep is_digit pan in
    (leb 12 (length digits) && leb (length digits) 19)
    && eqb (luhn_loop 0 false (reverse digits) % 10) 0
