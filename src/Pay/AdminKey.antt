-- ===== src/Pay/AdminKey.antt =====
-- services/pay/src/middleware/require-admin-key.ts
pub mod Matches
use karta_cards_vera.Common.{
  ◌*◌, Text, Option, none, some, ◌&&◌, all, eqb, length, is_empty, text_eq, if◌then◌else◌,
}
use karta_cards_vera.Pay.Arqc.{is_hex}
use karta_cards_vera.ServiceAuth.{from_hex}

-- What the middleware does: pass the request on, or answer 401 with a code.
pub data AdminGate : Type 0 where
  passes missing_admin_key invalid_admin_key : AdminGate

-- A key that is not empty.
unfoldable pub check_admin_key : Text → Text → AdminGate
check_admin_key expected_key provided =
    let expected = from_hex expected_key in
    if eqb (length provided) (length expected * 2) && all is_hex provided
    then (if text_eq expected (from_hex provided) then passes else invalid_admin_key)
    else invalid_admin_key

unfoldable pub require_admin_key : Text → Option Text → AdminGate
require_admin_key expected_key none = missing_admin_key
require_admin_key expected_key (some provided) =
    if is_empty provided then missing_admin_key else check_admin_key expected_key provided
