-- ===== src/ServiceAuth.antt =====
-- packages/service-auth/src/index.ts: signed requests between the services. SHA-256 and HMAC are
-- parameters; a header is the list of its character codes.
pub mod Decimal
pub mod Inherited
pub mod Pieces
pub mod RoundTrip
pub mod Sound
pub mod Tests
use karta_cards_vera.Common.{
  ℕ, zero, suc, ◌+◌, ◌-◌, ◌*◌, ◌/◌, ◌%◌, ℤ, pos, negsuc, Text, codes, Option, none, some, Bool,
  true, false, ◌&&◌, ◌||◌, List, [], ◌∷◌, ◌++◌, ltb, eqb, all, map, is_digit, text_eq, is_empty,
  if◌then◌else◌, or_else, not,
}
use karta_cards_vera.Core.Error.{Thrown, api, other, internal}
use karta_cards_vera.Core.Exec.{Outcome, ok, throw}
use karta_cards_vera.Core.Encryption.{Bytes}
use karta_cards_vera.Core.Json.{hex_value}
use karta_cards_vera.Programs.Currency.{to_upper}
use karta_cards_vera.Vault.Luhn.{is_space}
use karta_cards_vera.Pay.Arqc.{is_hex, to_hex}

-- `ServiceAuthError`, by its code.
pub data ServiceAuthError : Type 0 where
  missing_auth malformed_auth unknown_key bad_signature clock_skew : ServiceAuthError

-- What `verifyRequest` does: return, throw a `ServiceAuthError`, or throw another error.
pub data Verified (A : Type 0) : Type 0 where
  accepted : A → Verified A
  rejected : ServiceAuthError → Verified A
  crashed : Thrown → Verified A

-- The hash of a body in hex; and a MAC under a secret in hex.
pub record Mac : Type 0 where
  pub sha256_hex : Bytes → Text
  pub hmac : Text → Text → Bytes

-- A number in a template string. The fuel is more than its digits.
unfoldable pub decimal_from : ℕ → ℕ → Text
decimal_from zero n = []
decimal_from (suc fuel) n =
    let rest = decimal_from fuel (n / 10) in
    if ltb n 10 then (n + 48) ∷ [] else rest ++ (n % 10 + 48) ∷ []

abbrev pub decimal : ℕ → Text
decimal n = decimal_from (suc n) n

abbrev pub show_int : ℤ → Text
show_int (pos n) = decimal n
show_int (negsuc n) = b'-' ∷ decimal (suc n)

unfoldable pub canonical : Mac → Text → Text → ℤ → Bytes → Text
canonical m method path ts body =
    map to_upper method ++ 10 ∷ (path ++ 10 ∷ (show_int ts ++ 10 ∷ m.sha256_hex body))

pub record SignRequestInput : Type 0 where
  pub method : Text
  pub path_and_query : Text
  pub body : Bytes
  pub key_id : Text
  pub secret : Text
  pub now : ℕ

abbrev pub scheme : Text
scheme = codes "VeraHmac"

unfoldable pub sign_request : Mac → SignRequestInput → Text
sign_request m i =
    let sig = to_hex (m.hmac i.secret (canonical m i.method i.path_and_query (pos i.now) i.body)) in
    scheme
    ++ codes " keyId="
    ++ (i.key_id ++ (codes ",ts=" ++ (show_int (pos i.now) ++ (codes ",sig=" ++ sig))))

-- The text up to a character that passes a test, and the rest from that character on.
abbrev pub cut : Bool → ℕ → Text → Text × Text → Text × Text
cut true c cs _ = ([], c ∷ cs)
cut false c cs (before, rest) = (c ∷ before, rest)

abbrev pub break_at : (ℕ → Bool) → Text → Text × Text
break_at p [] = ([], [])
break_at p (c ∷ cs) = cut (p c) c cs (break_at p cs)

abbrev pub skip_spaces : Text → Text
skip_spaces [] = []
skip_spaces (c ∷ cs) = if is_space c then skip_spaces cs else c ∷ cs

-- `header.split(/\s+/, 2)`; the second is none where there is no white space.
abbrev pub second_part : Text → Option Text
second_part [] = none
second_part (c ∷ cs) = some (break_at is_space (skip_spaces (c ∷ cs))).0

-- `rest.split(',')`
abbrev pub push_char : ℕ → List Text → List Text
push_char c [] = (c ∷ []) ∷ []
push_char c (p ∷ ps) = (c ∷ p) ∷ ps

abbrev pub split_comma : Text → List Text
split_comma [] = [] ∷ []
split_comma (c ∷ cs) =
    let rest = split_comma cs in if eqb c b',' then [] ∷ rest else push_char c rest

-- `trim`
abbrev pub trim_end : Text → Text
trim_end [] = []
trim_end (c ∷ cs) = let rest = trim_end cs in if is_space c && is_empty rest then [] else c ∷ rest

abbrev pub trim : Text → Text
trim t = trim_end (skip_spaces t)

-- A piece `key=value`; none where there is no `=` after at least one character.
abbrev pub pair_of : Text × Text → Option (Text × Text)
pair_of ([], _) = none
pair_of (c ∷ key, []) = none
pair_of (c ∷ key, _ ∷ value) = some (trim (c ∷ key), trim value)

abbrev pub add_pair :
    Option (Text × Text) → Option (List (Text × Text)) → Option (List (Text × Text))
add_pair (some p) (some ps) = some (p ∷ ps)
add_pair _ _ = none

abbrev pub pairs : List Text → Option (List (Text × Text))
pairs [] = some []
pairs (p ∷ ps) = add_pair (pair_of (break_at (eqb b'=') p)) (pairs ps)

-- `parts[key]`: a later piece overrides an earlier one.
abbrev pub part : Text → List (Text × Text) → Option Text
part key [] = none
part key ((k, v) ∷ rest) = elim (part key rest) [
  | some later ↦ some later
  | none ↦ if text_eq k key then some v else none
]

-- `Number.parseInt(ts, 10)` on a trimmed text: none is NaN.
abbrev pub digits_value : ℕ → Text → ℕ
digits_value acc [] = acc
digits_value acc (c ∷ cs) = if is_digit c then digits_value (acc * 10 + (c - 48)) cs else acc

abbrev pub parse_unsigned : Text → Option ℕ
parse_unsigned [] = none
parse_unsigned (c ∷ cs) = if is_digit c then some (digits_value 0 (c ∷ cs)) else none

abbrev pub negate : ℕ → ℤ
negate zero = pos zero
negate (suc n) = negsuc n

abbrev pub parse_int : Text → Option ℤ
parse_int [] = none
parse_int (c ∷ cs) =
    if eqb c b'-'
    then elim (parse_unsigned cs) [ none ↦ none | some n ↦ some (negate n) ]
    else elim (parse_unsigned (if eqb c b'+' then cs else c ∷ cs)) [
      | none ↦ none
      | some n ↦ some (pos n)
    ]

pub record ParsedAuth : Type 0 where
  pub key_id : Text
  pub ts : ℤ
  pub sig : Text

abbrev pub read_parts : List (Text × Text) → Option ParsedAuth
read_parts ps =
    let key_id = or_else (part (codes "keyId") ps) [] in
    let ts = or_else (part (codes "ts") ps) [] in
    let sig = or_else (part (codes "sig") ps) [] in
    if is_empty key_id || (is_empty ts || is_empty sig) then none else elim (parse_int ts) [
      | none ↦ none
      | some t ↦
          if all is_hex sig then some (record { key_id = key_id; ts = t; sig = sig }) else none
    ]

-- `parseAuthorization`; none is `malformed_auth`.
unfoldable pub parse_authorization : Text → Option ParsedAuth
parse_authorization header =
    let (first, more) = break_at is_space header in
    if text_eq first scheme
    then elim (second_part more) [
      | none ↦ none
      | some rest ↦
          if is_empty rest
          then none
          else elim (pairs (split_comma rest)) [ none ↦ none | some ps ↦ read_parts ps ]
    ]
    else none

-- `Buffer.from(sig, 'hex')` on hex digits: a last odd digit is dropped.
abbrev pub byte_of : Option ℕ → Option ℕ → Bytes → Bytes
byte_of (some a) (some b) rest = (a * 16 + b) ∷ rest
byte_of _ _ rest = []

unfoldable pub from_hex : Text → Bytes
from_hex [] = []
from_hex (a ∷ []) = []
from_hex (a ∷ b ∷ rest) = byte_of (hex_value a) (hex_value b) (from_hex rest)

pub record VerifyRequestInput : Type 0 where
  pub authorization : Option Text
  pub method : Text
  pub path_and_query : Text
  pub body : Bytes
  pub keys : List (Text × Text)
  pub now : ℕ
  pub window_seconds : Option ℕ

-- The own property of `keys` of a name, where it is not the empty text.
abbrev pub secret_for : Text → List (Text × Text) → Option Text
secret_for key [] = none
secret_for key ((k, s) ∷ rest) =
    if text_eq k key then if is_empty s then none else some s else secret_for key rest

-- Whether `keys` has a property of its own of a name. env.ts builds it, and sets no `__proto__`.
abbrev pub is_own : Text → List (Text × Text) → Bool
is_own key [] = false
is_own key ((k, s) ∷ rest) = text_eq k key || is_own key rest

-- The names that a plain object has from `Object.prototype`.
abbrev pub prototype_names : List Text
prototype_names = map codes (
    "constructor" ∷ "__proto__" ∷ "toString" ∷ "valueOf" ∷ "hasOwnProperty" ∷ "isPrototypeOf"
    ∷ "propertyIsEnumerable" ∷ "toLocaleString" ∷ "__defineGetter__" ∷ "__defineSetter__"
    ∷ "__lookupGetter__" ∷ "__lookupSetter__" ∷ [])

abbrev pub is_prototype_name : Text → List Text → Bool
is_prototype_name key [] = false
is_prototype_name key (n ∷ names) = text_eq n key || is_prototype_name key names

-- `input.keys[keyId]`: undefined or empty, a text of its own, or, for a name that only the prototype
-- has, an object or a function.
pub data KeyValue : Type 0 where
  falsy inherited : KeyValue
  own_secret : Text → KeyValue

abbrev pub key_value : Text → List (Text × Text) → KeyValue
key_value key keys = elim (secret_for key keys) [
  | some secret ↦ own_secret secret
  | none ↦
      if not (is_own key keys) && is_prototype_name key prototype_names then inherited else falsy
]

abbrev pub is_falsy : KeyValue → Bool
is_falsy falsy = true
is_falsy inherited = false
is_falsy (own_secret secret) = false

-- What `Buffer.from(secret, 'hex')` throws for a secret that is no text.
abbrev pub type_error : Thrown
type_error = other "TypeError"

-- `Math.abs(now - ts)`
abbrev pub distance : ℕ → ℤ → ℕ
distance now (pos t) = (now - t) + (t - now)
distance now (negsuc n) = now + suc n

abbrev pub default_window : ℕ
default_window = 60

abbrev pub check_mac : Bool → Text → Verified Text
check_mac true key_id = accepted key_id
check_mac false key_id = rejected bad_signature

-- The signature under the value of `keys`.
abbrev pub check_signature : Mac → VerifyRequestInput → ParsedAuth → KeyValue → Verified Text
check_signature m i p (own_secret secret) =
    check_mac
      (text_eq (m.hmac secret (canonical m i.method i.path_and_query p.ts i.body)) (from_hex p.sig))
      p.key_id
check_signature m i p _ = crashed type_error

unfoldable pub verify_parsed : Mac → VerifyRequestInput → ParsedAuth → Verified Text
verify_parsed m i p =
    let value = key_value p.key_id i.keys in
    if is_falsy value
    then rejected unknown_key
    else if ltb (or_else i.window_seconds default_window) (distance i.now p.ts)
    then rejected clock_skew
    else check_signature m i p value

-- An absent or empty header is `missing_auth`.
unfoldable pub verify_request : Mac → VerifyRequestInput → Verified Text
verify_request m i = elim i.authorization [
  | none ↦ rejected missing_auth
  | some header ↦
      if is_empty header then rejected missing_auth else elim (parse_authorization header) [
        | none ↦ rejected malformed_auth
        | some p ↦ verify_parsed m i p
      ]
]

-- What the middleware does: pass the request on with its caller's key, answer with a status, or pass
-- an error on to the error middleware.
pub data Gate : Type 0 where
  next : Text → Gate
  answer : ℕ → ServiceAuthError → Gate
  next_error : Thrown → Gate

pub record RequireSignedRequestOptions : Type 0 where
  pub keys : List (Text × Text)
  pub window_seconds : Option ℕ

-- What the middleware verifies of a request: its header, method, URL and raw body, which may be
-- absent.
abbrev pub verify_input :
    RequireSignedRequestOptions → Option Text → Text → Text → Option Bytes → ℕ → VerifyRequestInput
verify_input opts authorization method url raw_body now = record {
  authorization = authorization;
  method = method;
  path_and_query = url;
  body = or_else raw_body [];
  keys = opts.keys;
  now = now;
  window_seconds = opts.window_seconds;
}

-- `requireSignedRequest`: a `ServiceAuthError` is answered, any other error is passed on.
unfoldable pub require_signed_request :
    Mac → RequireSignedRequestOptions → Option Text → Text → Text → Option Bytes → ℕ → Gate
require_signed_request m opts authorization method url raw_body now =
    elim (verify_request m (verify_input opts authorization method url raw_body now)) [
      | accepted key_id ↦ next key_id
      | rejected e ↦ answer 401 e
      | crashed e ↦ next_error e
    ]

-- `requireCallerKeyId`
unfoldable pub require_caller_key_id : Option Text → Outcome Text
require_caller_key_id none = throw (api (internal "caller_unidentified"))
require_caller_key_id (some id) =
    if is_empty id then throw (api (internal "caller_unidentified")) else ok id
