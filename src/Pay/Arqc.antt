-- ===== src/Pay/Arqc.antt =====
-- services/pay/src/arqc/arqc.service.ts: the cryptogram of a transaction. HKDF (kdf.ts calls
-- node:crypto's) and HMAC-SHA256 are parameters; a buffer is its list of bytes.
pub mod Validate
pub mod Message
use karta_cards_vera.Common.{
  ℕ, ◌+◌, ◌-◌, ◌/◌, ◌%◌, ◌^◌, zero, suc, ℤ, pos, negsuc, String, Text, codes, Bool, false, ◌&&◌,
  ◌||◌, [], ◌∷◌, ◌++◌, map, take, ltb, leb, eqb, length, all, is_digit, is_upper, text_eq,
  if◌then◌else◌,
}
use karta_cards_vera.Core.Error.{other}
use karta_cards_vera.Core.Exec.{Outcome, ok, throw}
use karta_cards_vera.Core.Encryption.{Bytes}
use karta_cards_vera.Core.Json.{hex_digit}

pub record ArqcInput : Type 0 where
  pub bin : String
  pub card_id : String
  pub atc : ℕ
  pub amount : ℤ
  pub currency : Text
  pub merchant_ref : String
  pub nonce : String

-- Of a key, a salt, an info and a length; and of a key and a message. `seed` is
-- VERA_ROOT_ARQC_SEED, decoded.
pub record Kdf : Type 0 where
  pub seed : Bytes
  pub hkdf : Bytes → Bytes → Bytes → ℕ → Bytes
  pub hmac : Bytes → Bytes → Bytes

-- `Buffer.from(s, 'utf8')`, of code points.
abbrev pub utf8_char : ℕ → Bytes
utf8_char c =
    if ltb c 0x80
    then c ∷ []
    else if ltb c 0x800
    then (0xc0 + c / 64) ∷ (0x80 + c % 64) ∷ []
    else if ltb c 0x10000
    then (0xe0 + c / 4096) ∷ (0x80 + c / 64 % 64) ∷ (0x80 + c % 64) ∷ []
    else (0xf0 + c / 262144) ∷ (0x80 + c / 4096 % 64) ∷ (0x80 + c / 64 % 64) ∷ (0x80 + c % 64) ∷ []

unfoldable pub utf8 : Text → Bytes
utf8 [] = []
utf8 (c ∷ cs) = utf8_char c ++ utf8 cs

-- A number in big-endian bytes, on as many bytes as asked.
unfoldable pub big_endian : ℕ → ℕ → Bytes
big_endian zero n = []
big_endian (suc k) n = big_endian k (n / 256) ++ (n % 256) ∷ []

-- `writeUInt32BE` and `writeBigUInt64BE`, which throw out of range.
unfoldable pub write_uint32 : ℕ → Outcome Bytes
write_uint32 n = if ltb n (2 ^ 32) then ok (big_endian 4 n) else throw (other "ERR_OUT_OF_RANGE")

unfoldable pub write_uint64 : ℤ → Outcome Bytes
write_uint64 (pos n) =
    if ltb n (2 ^ 64) then ok (big_endian 8 n) else throw (other "ERR_OUT_OF_RANGE")
write_uint64 (negsuc n) = throw (other "ERR_OUT_OF_RANGE")

abbrev pub derive_vimk : Kdf → String → Bytes
derive_vimk k bin = k.hkdf k.seed (utf8 (codes "vera-vimk-v1")) (utf8 (codes bin)) 32

unfoldable pub derive_k_card : Kdf → ArqcInput → Outcome Bytes
derive_k_card k i = elim (write_uint32 i.atc) [
  | throw e ↦ throw e
  | ok atc ↦ ok (
      k.hkdf (derive_vimk k i.bin) (utf8 (codes "vera-card-ac")) (utf8 (codes i.card_id) ++ atc) 32)
]

-- The layout of the message: the fields, separated by a zero byte.
abbrev pub message : Bytes → Bytes → Bytes → Bytes → Bytes → Bytes
message amount currency merchant nonce atc =
    amount ++ 0 ∷ (currency ++ 0 ∷ (merchant ++ 0 ∷ (nonce ++ 0 ∷ atc)))

unfoldable pub build_message : ArqcInput → Outcome Bytes
build_message i = elim (write_uint32 i.atc) [
  | throw e ↦ throw e
  | ok atc ↦ elim (write_uint64 i.amount) [
    | throw e ↦ throw e
    | ok amount ↦
        ok (
          message amount (utf8 i.currency) (utf8 (codes i.merchant_ref)) (utf8 (codes i.nonce)) atc)
  ]
]

unfoldable pub to_hex : Bytes → Text
to_hex [] = []
to_hex (b ∷ bs) = hex_digit (b / 16) ∷ hex_digit (b % 16) ∷ to_hex bs

unfoldable pub generate_arqc : Kdf → ArqcInput → Outcome Text
generate_arqc k i = elim (derive_k_card k i) [
  | throw e ↦ throw e
  | ok key ↦ elim (build_message i) [
    | throw e ↦ throw e
    | ok msg ↦ ok (to_hex (take 16 (k.hmac key msg)))
  ]
]

-- `[0-9a-fA-F]`
abbrev pub is_hex : ℕ → Bool
is_hex c = is_digit c || ((leb b'a' c && leb c b'f') || (leb b'A' c && leb c b'F'))

-- `toLowerCase` on an ASCII letter.
abbrev pub lower : ℕ → ℕ
lower c = if is_upper c then c + 32 else c

-- `timingSafeEqual` of two texts of hex digits in lower case, decoded: their equality.
unfoldable pub validate_arqc : Kdf → ArqcInput → Text → Outcome Bool
validate_arqc k i candidate =
    if eqb (length candidate) 32 && all is_hex candidate
    then elim (generate_arqc k i) [
      | throw e ↦ throw e
      | ok expected ↦ ok (text_eq expected (map lower candidate))
    ]
    else ok false
