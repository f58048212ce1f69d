-- ===== src/Vault/Template/Print.antt =====
-- A template described by its pieces, and what filling it in gives.
use karta_cards_vera.Common.{
  ℕ, zero, suc, ◌+◌, ◌≤◌, ◌≡◌, refl, sym, ap, ◌∙◌, Text, none, some, true, false, List, [], ◌∷◌,
  ◌++◌, append_assoc, All, all, eqb, length, length-append, arith,
}
use karta_cards_vera.Core.Exec.{Outcome, ok, throw}
use karta_cards_vera.Vault.Template.{
  TemplateValues, replacement, is_word, split_word, closed, placeholder, join_text, replace_from,
  substitute,
}

-- A run of text, or a placeholder by its key.
pub data Piece : Type 0 where
  text : Text → Piece
  hole : Text → Piece

-- Text without an opening brace; a key of word characters, at least one.
abbrev pub IsPiece : Piece → Type 0
IsPiece (text t) = All (λ c. eqb c b'{' ≡ false) t
IsPiece (hole key) = (1 ≤ length key) × (all is_word key ≡ true)

abbrev pub print_piece : Piece → Text
print_piece (text t) = t
print_piece (hole key) = b'{' ∷ b'{' ∷ (key ++ b'}' ∷ b'}' ∷ [])

abbrev pub print : List Piece → Text
print [] = []
print (p ∷ ps) = print_piece p ++ print ps

abbrev pub fill_piece : TemplateValues → Piece → Outcome Text
fill_piece v (text t) = ok t
fill_piece v (hole key) = replacement v key

-- Each piece filled in, from the left; the first error is the answer.
abbrev pub fill : TemplateValues → List Piece → Outcome Text
fill v [] = ok []
fill v (p ∷ ps) = join_text (fill_piece v p) (fill v ps)

split_word-key :
    (key rest : Text)
    → all is_word key ≡ true
    → split_word (key ++ b'}' ∷ rest) ≡ (key, b'}' ∷ rest)
split_word-key [] rest h = refl
split_word-key (c ∷ key) rest h =
    let first : is_word c ≡ true = ground arith in
    let later = split_word-key key rest (ground arith) in rw (first, later) refl

replace_from-skip :
    (v : TemplateValues) (xs rest : Text) (n : ℕ)
    → n ≡ length xs
    → replace_from v n (xs ++ rest) ≡ replace_from v 0 rest
unfolding replace_from
replace_from-skip v [] rest zero h = refl
replace_from-skip v [] rest (suc n) h = absurd (omega arith)
replace_from-skip v (x ∷ xs) rest zero h = absurd (omega arith)
replace_from-skip v (x ∷ xs) rest (suc n) h = replace_from-skip v xs rest n (omega arith)

placeholder-text : (c : ℕ) (cs : Text) → eqb c b'{' ≡ false → placeholder (c ∷ cs) ≡ none
placeholder-text c [] h = refl
placeholder-text c (d ∷ cs) h = rw h refl

join_text_assoc :
    (s t : Text) (r : Outcome Text)
    → join_text (ok s) (join_text (ok t) r) ≡ join_text (ok (s ++ t)) r
join_text_assoc s t (throw e) = refl
join_text_assoc s t (ok r) = ap ok (sym (append_assoc s t r))

join_text-nil : (r : Outcome Text) → join_text (ok []) r ≡ r
join_text-nil (throw e) = refl
join_text-nil (ok r) = refl

-- One step of the replacement, at a placeholder and elsewhere.
replace_from-key :
    (v : TemplateValues) (c : ℕ) (cs key : Text)
    → placeholder (c ∷ cs) ≡ some key
    → replace_from v 0 (c ∷ cs) ≡ join_text (replacement v key) (replace_from v (length key + 3) cs)
unfolding replace_from
replace_from-key v c cs key h = rw (h, replace_from) refl

replace_from-plain :
    (v : TemplateValues) (c : ℕ) (cs : Text)
    → placeholder (c ∷ cs) ≡ none
    → replace_from v 0 (c ∷ cs) ≡ join_text (ok (c ∷ [])) (replace_from v 0 cs)
unfolding replace_from
replace_from-plain v c cs h = rw (h, replace_from) refl

replace_from-text :
    (v : TemplateValues) (t rest : Text)
    → All (λ c. eqb c b'{' ≡ false) t
    → replace_from v 0 (t ++ rest) ≡ join_text (ok t) (replace_from v 0 rest)
replace_from-text v [] rest h = sym (join_text-nil (replace_from v 0 rest))
replace_from-text v (c ∷ t) rest (plain, h) =
    replace_from-plain v c (t ++ rest) (placeholder-text c (t ++ rest) plain)
    ∙ (ap (join_text (ok (c ∷ []))) (replace_from-text v t rest h)
        ∙ join_text_assoc (c ∷ []) t (replace_from v 0 rest))

placeholder-hole :
    (key rest : Text)
    → 1 ≤ length key
    → all is_word key ≡ true
    → placeholder (b'{' ∷ b'{' ∷ ((key ++ b'}' ∷ b'}' ∷ []) ++ rest)) ≡ some key
placeholder-hole [] rest long word = absurd (omega arith)
placeholder-hole (k ∷ key) rest long word =
    let split = split_word-key (k ∷ key) (b'}' ∷ rest) word in
    let same = append_assoc (k ∷ key) (b'}' ∷ b'}' ∷ []) rest in
    ap (λ (t : Text). closed (split_word t)) same ∙ ap closed split

replace_from-hole :
    (v : TemplateValues) (key rest : Text)
    → 1 ≤ length key
    → all is_word key ≡ true
    → replace_from v 0 (print_piece (hole key) ++ rest)
      ≡ join_text (replacement v key) (replace_from v 0 rest)
replace_from-hole v key rest long word =
    let body = b'{' ∷ (key ++ b'}' ∷ b'}' ∷ []) in
    let size : length key + 3 ≡ length body = omega (arith, length-append key (b'}' ∷ b'}' ∷ [])) in
    replace_from-key v b'{' (body ++ rest) key (placeholder-hole key rest long word)
    ∙ ap (join_text (replacement v key)) (replace_from-skip v body rest (length key + 3) size)

-- A template printed from pieces, each of them text without an opening brace or a well-formed
-- placeholder, is filled in piece by piece from the left: the texts stay, each placeholder becomes
-- its value, and the first placeholder that is unknown or has no value is the error.
pub substitute-print :
    (v : TemplateValues) (ps : List Piece) → All IsPiece ps → substitute (print ps) v ≡ fill v ps
unfolding substitute replace_from
substitute-print v [] h = refl
substitute-print v (text t ∷ ps) (p, h) =
    replace_from-text v t (print ps) p ∙ ap (join_text (ok t)) (substitute-print v ps h)
substitute-print v (hole key ∷ ps) ((long, word), h) =
    replace_from-hole v key (print ps) long word
    ∙ ap (join_text (replacement v key)) (substitute-print v ps h)
