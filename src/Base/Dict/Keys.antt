-- ===== src/Base/Dict/Keys.antt =====
-- Maps in which no key stands twice: what the removal of a key takes from their length and sums.
use leyline.Base.Tests.{Bool-cases}
use leyline.Base.Lists.{length, sum_by}
use leyline.Base.Strings.{Text, text_eq, text_eq_iff}
use leyline.Base.Dict.{get, get-remove, put, remove}
use Prim.Native.Nat.{ℕ, ◌+◌}
use mathlib.Core.Path.{◌≡◌, refl, sym}
use mathlib.Core.Logic.{inl, inr}
use mathlib.Core.List.{List, [], ◌∷◌}
use mathlib.Core.Option.{Option, none, some}
use mathlib.Core.Bool.{true}
use native.Mathlib.Omega.{arith}

module _ {ℓ} {V : Type ℓ} where
  abbrev pub HasDistinctKeys : List (Text × V) → Type ℓ
  HasDistinctKeys [] = Unit
  HasDistinctKeys ((k, v) ∷ m) = (get m k ≡ none) × HasDistinctKeys m

  get-remove-none : (m : List (Text × V)) (k j : Text) → get m j ≡ none → get (remove m k) j ≡ none
  get-remove-none m k j h = ground (arith, get-remove m k j)

  pub remove-HasDistinctKeys :
      (m : List (Text × V)) (k : Text) → HasDistinctKeys m → HasDistinctKeys (remove m k)
  unfolding remove
  remove-HasDistinctKeys [] k h = tt
  remove-HasDistinctKeys ((j, v) ∷ m) k h = elim (Bool-cases (text_eq j k)) [
    | inl e ↦ rw e (remove-HasDistinctKeys m k h.1)
    | inr e ↦ rw e (get-remove-none m k j h.0, remove-HasDistinctKeys m k h.1)
  ]

  pub put-HasDistinctKeys :
      (m : List (Text × V)) (k : Text) (v : V) → HasDistinctKeys m → HasDistinctKeys (put m k v)
  unfolding put
  put-HasDistinctKeys m k v h =
      (ground (arith, get-remove m k k, text_eq_iff k k), remove-HasDistinctKeys m k h)

  pub remove_absent : (m : List (Text × V)) (k : Text) → get m k ≡ none → remove m k ≡ m
  unfolding get remove
  remove_absent [] k h = refl
  remove_absent ((j, v) ∷ m) k h = ground (arith, remove_absent m k)

  pub absent_at :
      (m : List (Text × V)) (j k : Text) → text_eq j k ≡ true → get m j ≡ none → get m k ≡ none
  absent_at m j k e h = rw (sym ((text_eq_iff j k).0 e)) h

  module _ (size : V → ℕ) where
    abbrev pub size_of : Option V → ℕ
    size_of none = 0
    size_of (some v) = size v

    -- What `remove` takes from a sum over the values.
    pub sum_by-remove :
        (m : List (Text × V)) (k : Text)
        → HasDistinctKeys m
        → sum_by (λ e. size e.1) m ≡ sum_by (λ e. size e.1) (remove m k) + size_of (get m k)
    unfolding get remove
    sum_by-remove [] k h = omega arith
    sum_by-remove ((j, v) ∷ m) k h = elim (Bool-cases (text_eq j k)) [
      | inl e ↦ rw (e, remove_absent m k (absent_at m j k e h.0)) (omega arith)
      | inr e ↦ rw e (omega (arith, sum_by-remove m k h.1))
    ]

  abbrev pub is_present : Option V → ℕ
  is_present none = 0
  is_present (some v) = 1

  -- What `remove` takes from the length.
  pub length-remove :
      (m : List (Text × V)) (k : Text)
      → HasDistinctKeys m
      → length m ≡ length (remove m k) + is_present (get m k)
  unfolding get remove
  length-remove [] k h = omega arith
  length-remove ((j, v) ∷ m) k h = elim (Bool-cases (text_eq j k)) [
    | inl e ↦ rw (e, remove_absent m k (absent_at m j k e h.0)) (omega arith)
    | inr e ↦ rw e (omega (arith, length-remove m k h.1))
  ]
