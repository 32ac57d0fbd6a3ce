-- ===== src/Base/Dict.antt =====
-- Go maps with text keys, as association lists without an order that a caller may read.
pub mod Keys
use leyline.Base.Tests.{if◌then◌else◌}
use leyline.Base.Strings.{Text, text_eq, text_eq_iff}
use mathlib.Core.Path.{◌≡◌}
use mathlib.Core.List.{List, [], ◌∷◌}
use mathlib.Core.Option.{Option, none, some}
use native.Mathlib.Omega.{arith}

module _ {ℓ} {V : Type ℓ} where
  -- v, ok := m[k]
  unfoldable pub get : List (Text × V) → Text → Option V
  get [] k = none
  get ((j, v) ∷ m) k = if text_eq j k then some v else get m k

  -- delete(m, k)
  unfoldable pub remove : List (Text × V) → Text → List (Text × V)
  remove [] k = []
  remove ((j, v) ∷ m) k = let rest = remove m k in if text_eq j k then rest else (j, v) ∷ rest

  -- m[k] = v
  unfoldable pub put : List (Text × V) → Text → V → List (Text × V)
  unfolding remove
  put m k v = (k, v) ∷ remove m k

  pub get-remove :
      (m : List (Text × V)) (k j : Text)
      → get (remove m k) j ≡ (if text_eq k j then none else get m j)
  unfolding get remove
  get-remove [] k j = ground arith
  get-remove ((i, v) ∷ m) k j =
      ground (arith, get-remove m k j, text_eq_iff i k, text_eq_iff i j, text_eq_iff k j)

  pub get-put :
      (m : List (Text × V)) (k j : Text) (v : V)
      → get (put m k v) j ≡ (if text_eq k j then some v else get m j)
  unfolding get put
  get-put m k j v = ground (arith, get-remove m k j)

pub ruleset dict_laws = (get-remove, get-put)
