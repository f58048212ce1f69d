-- ===== src/Common/Maps.antt =====
-- `Map` with string keys, as association lists.
use Prim.Native.String.{String}
use mathlib.Core.Path.{◌≡◌, refl}
use mathlib.Core.Logic.{◌≢◌}
use mathlib.Core.Option.{Option, none, some}
use mathlib.Core.List.{List, [], ◌∷◌}
use native.Mathlib.Omega.{arith}
use text.Mathlib.Text.{◌==◌}
use text.Mathlib.TextEquality.{eq_iff}
use text.Mathlib.TextPositions.{eq_refl}
use karta_cards_vera.Common.Tests.{if◌then◌else◌}

module _ {ℓ} {A : Type ℓ} where
  -- `m.get(k)`
  abbrev pub lookup : String → List (String × A) → Option A
  lookup k [] = none
  lookup k ((j, v) ∷ m) = if j == k then some v else lookup k m

  -- `m.delete(k)`
  abbrev pub remove : String → List (String × A) → List (String × A)
  remove k [] = []
  remove k ((j, v) ∷ m) = let rest = remove k m in if j == k then rest else (j, v) ∷ rest

  -- `m.set(k, v)`
  abbrev pub insert : String → A → List (String × A) → List (String × A)
  insert k v m = (k, v) ∷ remove k m

  pub lookup-insert :
      (k : String) (v : A) (m : List (String × A)) → lookup k (insert k v m) ≡ some v
  lookup-insert k v m = rw (eq_refl k)

  pub lookup-remove : (k : String) (m : List (String × A)) → lookup k (remove k m) ≡ none
  lookup-remove k [] = refl
  lookup-remove k ((j, v) ∷ m) = ground (arith, lookup-remove k m)

  pub lookup-remove_other :
      (k j : String) (m : List (String × A)) → k ≢ j → lookup k (remove j m) ≡ lookup k m
  lookup-remove_other k j [] h = refl
  lookup-remove_other k j ((i, v) ∷ m) h =
      ground (arith, lookup-remove_other k j m h, eq_iff i k, eq_iff i j)

  pub lookup-insert_other :
      (k j : String) (v : A) (m : List (String × A)) → k ≢ j → lookup k (insert j v m) ≡ lookup k m
  lookup-insert_other k j v m h = ground (arith, lookup-remove_other k j m h, eq_iff j k)
