-- ===== src/Admin/Emails.antt =====
-- packages/admin-config/src/index.ts: the allowlist of admin emails, from a comma-separated text.
-- Lower case is that of ASCII letters.
use karta_cards_vera.Common.{
  Text, Option, none, some, Bool, false, List, [], ◌∷◌, map, any, is_empty, text_eq, if◌then◌else◌,
}
use karta_cards_vera.Pay.Arqc.{lower}
use karta_cards_vera.ServiceAuth.{split_comma, trim}

-- `.filter((s) => s.length > 0)`
abbrev pub nonempty_texts : List Text → List Text
nonempty_texts [] = []
nonempty_texts (t ∷ ts) = let rest = nonempty_texts ts in if is_empty t then rest else t ∷ rest

unfoldable pub parse_csv : Option Text → List Text
parse_csv none = []
parse_csv (some raw) =
    if is_empty raw then [] else nonempty_texts (map (λ s. map lower (trim s)) (split_comma raw))

-- `isAdminEmail`, of the environment variable and an email.
unfoldable pub is_admin_email : Option Text → Option Text → Bool
is_admin_email allowlist none = false
is_admin_email allowlist (some email) =
    if is_empty email then false else any (text_eq (map lower email)) (parse_csv allowlist)
