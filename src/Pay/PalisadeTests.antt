-- ===== src/Pay/PalisadeTests.antt =====
-- A run of the client of the card service: an id in a path.
use karta_cards_vera.Common.{◌≡◌, refl, Text, codes, [], ◌∷◌, ◌++◌}
use karta_cards_vera.Pay.Palisade.Api.{encode_uri_component}

abbrev id : Text
id = codes "c/1?" ++ 0xe9 ∷ 0x20ac ∷ 0x1f600 ∷ []

encoded_run : encode_uri_component id ≡ codes "c%2F1%3F%C3%A9%E2%82%AC%F0%9F%98%80"
unfolding encode_uri_component
encoded_run = refl
