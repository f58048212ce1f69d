-- ===== src/Core/Exec.antt =====
-- Async handlers that change state and may throw. What was written before a throw stays written,
-- so the state comes back beside the error too.
use karta_cards_vera.Common.{Bool, true, false, ◌≡◌, refl, ◌⊎◌, inl, inr}
use karta_cards_vera.Core.Error.{Thrown, api, ApiError}

pub data Outcome {ℓ} (A : Type ℓ) : Type ℓ where
  ok : A → Outcome A
  throw : Thrown → Outcome A

pub Outcome-cases {ℓ} :
    {A : Type ℓ} (r : Outcome A) → ((a : A) × (r ≡ ok a)) ⊎ ((e : Thrown) × (r ≡ throw e))
Outcome-cases (ok a) = inl (a, refl)
Outcome-cases (throw e) = inr (e, refl)

abbrev pub Exec : Type 0 → Type 0 → Type 0
Exec S A = S → Outcome A × S

module _ {S A : Type 0} where
  abbrev pub pure : A → Exec S A
  pure a s = (ok a, s)

  abbrev pub raise : Thrown → Exec S A
  raise e s = (throw e, s)

  abbrev pub fail_with : ApiError → Exec S A
  fail_with e s = (throw (api e), s)

  abbrev pub lift : Outcome A → Exec S A
  lift r s = (r, s)

  abbrev pub gets : (S → A) → Exec S A
  gets f s = (ok (f s), s)

abbrev pub modify : {S : Type 0} → (S → S) → Exec S (Unit {0})
modify f s = (ok tt, f s)

-- `if (!test) throw e`
abbrev pub ensure : {S : Type 0} → Bool → ApiError → Exec S (Unit {0})
ensure true e s = (ok tt, s)
ensure false e s = (throw (api e), s)

module _ {S A B : Type 0} where
  abbrev pub resume : Outcome A → (A → Exec S B) → Exec S B
  resume (ok a) f s = f a s
  resume (throw e) f s = (throw e, s)

  infixl 10 ◌>>=◌ ◌>>◌
  abbrev pub ◌>>=◌ : Exec S A → (A → Exec S B) → Exec S B
  ◌>>=◌ m f s = resume (m s).0 f (m s).1

  abbrev pub ◌>>◌ : Exec S A → Exec S B → Exec S B
  m >> n = m >>= λ _. n

-- `try { m } catch (e) { h(e) }`
abbrev pub recover : {S A : Type 0} → Outcome A → (Thrown → Exec S A) → Exec S A
recover (ok a) h s = (ok a, s)
recover (throw e) h s = h e s

abbrev pub try_catch : {S A : Type 0} → Exec S A → (Thrown → Exec S A) → Exec S A
try_catch m h s = recover (m s).0 h (m s).1

-- The error of a run, if it threw.
abbrev pub Threw : {A S : Type 0} → Outcome A × S → Thrown → Type 0
Threw r e = r.0 ≡ throw e
