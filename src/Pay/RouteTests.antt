-- ===== src/Pay/RouteTests.antt =====
-- Witnesses for the theorems about the routes of the payment service and their gate.
use karta_cards_vera.Common.{◌≡◌, ◌↔◌, ◌⊎◌, refl, Text, codes, Option, pos, some, map}
use karta_cards_vera.Core.Zod.{Json, num, str, obj, field, end}
use karta_cards_vera.Pay.Arqc.{lower}
use karta_cards_vera.Pay.AdminKey.{passes, check_admin_key, require_admin_key}
use karta_cards_vera.Pay.AdminKey.Matches.{require_admin_key_iff}
use karta_cards_vera.ServiceAuth.{from_hex}
use karta_cards_vera.Pay.Routes.{create_route}
use karta_cards_vera.Pay.Routes.Admitted.{Admitted, create_route-Admitted}
use karta_cards_vera.Pay.PaymentTests.{palisade, fresh, empty}

abbrev admin_key : Text
admin_key = codes "00112233445566778899aabbccddeeff00112233445566778899aabbccddeeff"

abbrev header : Option Text
header = some (codes "00112233445566778899AABBCCDDEEFF00112233445566778899aabbccddeeff")

key_run : require_admin_key admin_key header ≡ passes
unfolding require_admin_key check_admin_key from_hex
key_run = refl

require_admin_key_iff_example :
    (require_admin_key admin_key header ≡ passes)
    ↔ ((p : Text) × (header ≡ some p) × (map lower p ≡ map lower admin_key))
require_admin_key_iff_example = require_admin_key_iff admin_key refl refl header

abbrev body : Json
body = obj (
    field "cardId" (str (codes "card_1"))
      (field "amount" (num (pos 1500)) (field "merchantRef" (str (codes "m1")) end)))

create_route-Admitted_example :
    Admitted palisade 300 1000 fresh admin_key refl refl header body empty
    ⊎ ((create_route palisade 300 1000 fresh admin_key header body empty).1.transactions
        ≡ empty.transactions)
create_route-Admitted_example =
    create_route-Admitted palisade 300 1000 fresh admin_key refl refl header body empty
