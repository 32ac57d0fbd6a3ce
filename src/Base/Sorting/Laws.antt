-- ===== src/Base/Sorting/Laws.antt =====
-- Sorting a slice that is in order, and slices whose elements are told apart by the order.
use leyline.Base.Tests.{Bool-cases}
use leyline.Base.Lists.{All, AllPairs, any, sum_by}
use leyline.Base.Sorting.{insert_sorted, sort_slice}
use mathlib.Core.Path.{◌≡◌, refl, ap, sym, ◌∙◌}
use mathlib.Core.Logic.{◌⊎◌, inl, inr}
use mathlib.Core.Bool.{Bool, true, false, ◌||◌}
use mathlib.Core.List.{List, [], ◌∷◌, ◌++◌, append-nil, Perm}
use mathlib.Core.List.Perm
use Prim.Native.Nat.{ℕ, ◌+◌}
use native.Mathlib.Omega.{arith}

module _ {ℓ} {A : Type ℓ} (less : A → A → Bool) where
  -- No element is before the one in front of it.
  abbrev pub InOrder : List A → Type 0
  InOrder [] = Unit
  InOrder (x ∷ []) = Unit
  InOrder (x ∷ y ∷ xs) = (less y x ≡ false) × InOrder (y ∷ xs)

  pub sort_slice_fixed : (xs : List A) → InOrder xs → sort_slice less xs ≡ xs
  unfolding sort_slice
  sort_slice_fixed [] h = refl
  sort_slice_fixed (x ∷ []) h = refl
  sort_slice_fixed (x ∷ y ∷ xs) h =
      ap (insert_sorted less x) (sort_slice_fixed (y ∷ xs) h.1) ∙ rw (h.0, insert_sorted)

  insert_sorted-perm : (x : A) (xs : List A) → Perm (insert_sorted less x xs) (x ∷ xs)
  unfolding insert_sorted
  insert_sorted-perm x [] = Perm.rfl
  insert_sorted-perm x (y ∷ ys) = elim (Bool-cases (less y x)) [
    | inl e ↦
        rw (e, insert_sorted)
          (Perm.trans (Perm.cons y (insert_sorted-perm x ys)) (Perm.swap x y ys))
    | inr e ↦ rw (e, insert_sorted) Perm.rfl
  ]

  pub sort_slice-perm : (xs : List A) → Perm (sort_slice less xs) xs
  unfolding sort_slice
  sort_slice-perm [] = Perm.rfl
  sort_slice-perm (x ∷ xs) =
      Perm.trans (insert_sorted-perm x (sort_slice less xs)) (Perm.cons x (sort_slice-perm xs))

  -- One of the two is before the other, and not the other way round.
  abbrev pub Apart : A → A → Type 0
  Apart x y = ((less x y ≡ true) × (less y x ≡ false)) ⊎ ((less y x ≡ true) × (less x y ≡ false))

  module _ (trans : (a b c : A) → less a b ≡ true → less b c ≡ true → less a c ≡ true) where
    insert_before :
        (x y : A) (xs : List A)
        → less x y ≡ true
        → less y x ≡ false
        → insert_sorted less x (insert_sorted less y xs)
          ≡ insert_sorted less y (insert_sorted less x xs)
    unfolding insert_sorted
    insert_before x y [] h k = ground arith
    insert_before x y (z ∷ zs) h k = ground (arith, insert_before x y zs, trans z x y)

    insert_comm :
        (x y : A) (xs : List A)
        → Apart x y
        → insert_sorted less x (insert_sorted less y xs)
          ≡ insert_sorted less y (insert_sorted less x xs)
    insert_comm x y xs (inl h) = insert_before x y xs h.0 h.1
    insert_comm x y xs (inr h) = sym (insert_before y x xs h.0 h.1)

    sort_slice-middle :
        (x : A) (ys xs : List A)
        → All (Apart x) ys
        → sort_slice less (ys ++ x ∷ xs) ≡ insert_sorted less x (sort_slice less (ys ++ xs))
    unfolding sort_slice
    sort_slice-middle x [] xs h = refl
    sort_slice-middle x (y ∷ ys) xs h =
        ap (insert_sorted less y) (sort_slice-middle x ys xs h.1)
        ∙ sym (insert_comm x y (sort_slice less (ys ++ xs)) h.0)

    -- Two slices whose elements are apart are sorted alike in either order.
    pub sort_slice-append_comm :
        (xs ys : List A)
        → All (λ x. All (Apart x) ys) xs
        → sort_slice less (xs ++ ys) ≡ sort_slice less (ys ++ xs)
    unfolding sort_slice
    sort_slice-append_comm [] ys h = ap (sort_slice less) (sym (append-nil ys))
    sort_slice-append_comm (x ∷ xs) ys h =
        ap (insert_sorted less x) (sort_slice-append_comm xs ys h.1)
        ∙ sym (sort_slice-middle x ys xs h.0)

module _ {ℓ} {A : Type ℓ} (less : A → A → Bool) where
  insert_sorted-All {κ} :
      (P : A → Type κ) (x : A) (xs : List A) → P x → All P xs → All P (insert_sorted less x xs)
  unfolding insert_sorted
  insert_sorted-All P x [] p h = (p, tt)
  insert_sorted-All P x (y ∷ ys) p h = elim (Bool-cases (less y x)) [
    | inl e ↦ rw (e, insert_sorted) (h.0, insert_sorted-All P x ys p h.1)
    | inr e ↦ rw (e, insert_sorted) (p, h)
  ]

  pub sort_slice-All {κ} : (P : A → Type κ) (xs : List A) → All P xs → All P (sort_slice less xs)
  unfolding sort_slice
  sort_slice-All P [] h = tt
  sort_slice-All P (x ∷ xs) h =
      insert_sorted-All P x (sort_slice less xs) h.0 (sort_slice-All P xs h.1)

  module _ {κ} {R : A → A → Type κ} (symm : (a b : A) → R a b → R b a) where
    insert_sorted-AllPairs :
        (x : A) (xs : List A) → All (R x) xs → AllPairs R xs → AllPairs R (insert_sorted less x xs)
    unfolding insert_sorted
    insert_sorted-AllPairs x [] p h = (tt, tt)
    insert_sorted-AllPairs x (y ∷ ys) p h = elim (Bool-cases (less y x)) [
      | inl e ↦
          rw (e, insert_sorted)
            (insert_sorted-All (R y) x ys (symm x y p.0) h.0, insert_sorted-AllPairs x ys p.1 h.1)
      | inr e ↦ rw (e, insert_sorted) (p, h)
    ]

    -- Sorting keeps a symmetric relation between all elements.
    pub sort_slice-AllPairs : (xs : List A) → AllPairs R xs → AllPairs R (sort_slice less xs)
    unfolding sort_slice
    sort_slice-AllPairs [] h = tt
    sort_slice-AllPairs (x ∷ xs) h =
        insert_sorted-AllPairs x (sort_slice less xs) (sort_slice-All (R x) xs h.0)
          (sort_slice-AllPairs xs h.1)

  insert_sorted-sum_by :
      (f : A → ℕ) (x : A) (xs : List A) → sum_by f (insert_sorted less x xs) ≡ f x + sum_by f xs
  unfolding insert_sorted
  insert_sorted-sum_by f x [] = refl
  insert_sorted-sum_by f x (y ∷ ys) = ground (arith, insert_sorted-sum_by f x ys)

  pub sort_slice-sum_by : (f : A → ℕ) (xs : List A) → sum_by f (sort_slice less xs) ≡ sum_by f xs
  unfolding sort_slice
  sort_slice-sum_by f [] = refl
  sort_slice-sum_by f (x ∷ xs) =
      insert_sorted-sum_by f x (sort_slice less xs) ∙ ap (λ n. f x + n) (sort_slice-sum_by f xs)

module _ {ℓ} {A : Type ℓ} (less : A → A → Bool) (p : A → Bool) where
  insert_sorted-any : (x : A) (xs : List A) → any p (insert_sorted less x xs) ≡ p x || any p xs
  unfolding insert_sorted
  insert_sorted-any x [] = refl
  insert_sorted-any x (y ∷ ys) = ground (arith, insert_sorted-any x ys)

  -- A test that an element passes is passed by an element of the sorted slice.
  pub sort_slice-any : (xs : List A) → any p (sort_slice less xs) ≡ any p xs
  unfolding sort_slice
  sort_slice-any [] = refl
  sort_slice-any (x ∷ xs) =
      insert_sorted-any x (sort_slice less xs) ∙ ap (λ b. p x || b) (sort_slice-any xs)
