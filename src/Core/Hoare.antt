-- ===== src/Core/Hoare.antt =====
-- Triples for handlers: from a state with `P`, an answer comes with `Q` and an error with `E`.
use karta_cards_vera.Common.{◌≡◌, subst, arith}
use karta_cards_vera.Core.Error.{Thrown}
use karta_cards_vera.Core.Exec.{Outcome, ok, throw, Exec}

module _ {S A : Type 0} where
  abbrev pub Ends : (A → S → Type 0) → (Thrown → S → Type 0) → Outcome A × S → Type 0
  Ends Q E (ok a, s) = Q a s
  Ends Q E (throw e, s) = E e s

  abbrev pub Triple : (S → Type 0) → Exec S A → (A → S → Type 0) → (Thrown → S → Type 0) → Type 0
  Triple P m Q E = (s : S) → P s → Ends Q E (m s)

  -- A run that ended tells which of the two holds.
  pub Ends-ok :
      (Q : A → S → Type 0) (E : Thrown → S → Type 0) (r : Outcome A × S) (a : A)
      → Ends Q E r
      → r.0 ≡ ok a
      → Q a r.1
  Ends-ok Q E (ok b, s) a h e = subst (λ (x : A). Q x s) (ground arith) h
  Ends-ok Q E (throw x, s) a h e = cc

  pub Ends-throw :
      (Q : A → S → Type 0) (E : Thrown → S → Type 0) (r : Outcome A × S) (e : Thrown)
      → Ends Q E r
      → r.0 ≡ throw e
      → E e r.1
  Ends-throw Q E (ok b, s) x h e = cc
  Ends-throw Q E (throw y, s) x h e = subst (λ (z : Thrown). E z s) (ground arith) h
