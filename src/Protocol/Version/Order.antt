-- ===== src/Protocol/Version/Order.antt =====
-- CompareVersions of protocol/version/version.go: it orders all strings.
use leyline.Base.{
  Bool-cases, List, Text, [], ap, arith, false, inl, inr, refl, split, suc, sym, true, zero, ℕ, ◌<◌,
  ◌∷◌, ◌≡◌,
}
use leyline.Base.Int.{is_positive, negsuc, pos, ℤ}
use leyline.Protocol.Version.{atoi, compare_parts, compare_rounds, compare_versions, int_lt}

-- `- x`
abbrev pub opposite : ℤ → ℤ
opposite (pos zero) = pos 0
opposite (pos (suc n)) = negsuc n
opposite (negsuc n) = pos (suc n)

int_lt_asymm : (x y : ℤ) → int_lt x y ≡ true → int_lt y x ≡ false
unfolding int_lt
int_lt_asymm (pos m) (pos n) = ground arith
int_lt_asymm (pos m) (negsuc n) = ground arith
int_lt_asymm (negsuc m) (pos n) = ground arith
int_lt_asymm (negsuc m) (negsuc n) = ground arith

-- `int_lt` is a weak order: what is not above stays so along a chain, and a tie is no step.
int_le_trans : (x y z : ℤ) → int_lt y x ≡ false → int_lt z y ≡ false → int_lt z x ≡ false
unfolding int_lt
int_le_trans (pos l) (pos m) (pos n) = ground arith
int_le_trans (pos l) (pos m) (negsuc n) = ground arith
int_le_trans (pos l) (negsuc m) (pos n) = ground arith
int_le_trans (pos l) (negsuc m) (negsuc n) = ground arith
int_le_trans (negsuc l) (pos m) (pos n) = ground arith
int_le_trans (negsuc l) (pos m) (negsuc n) = ground arith
int_le_trans (negsuc l) (negsuc m) (pos n) = ground arith
int_le_trans (negsuc l) (negsuc m) (negsuc n) = ground arith

compare_parts-swap :
    (x y r s : ℤ) → s ≡ opposite r → compare_parts y x s ≡ opposite (compare_parts x y r)
unfolding compare_parts
compare_parts-swap x y r s h = ground (arith, int_lt_asymm x y, h)

compare_rounds-swap : (ps qs : List Text) → compare_rounds qs ps ≡ opposite (compare_rounds ps qs)
unfolding compare_rounds
compare_rounds-swap [] [] = refl
compare_rounds-swap [] (q ∷ qs) =
    compare_parts-swap (pos 0) (atoi q) _ _ (compare_rounds-swap [] qs)
compare_rounds-swap (p ∷ ps) [] =
    compare_parts-swap (atoi p) (pos 0) _ _ (compare_rounds-swap ps [])
compare_rounds-swap (p ∷ ps) (q ∷ qs) =
    compare_parts-swap (atoi p) (atoi q) _ _ (compare_rounds-swap ps qs)

-- Swapping the two versions negates the answer.
pub compare_versions-swap : (a b : Text) → compare_versions b a ≡ opposite (compare_versions a b)
unfolding compare_versions
compare_versions-swap a b = compare_rounds-swap (split a b'.') (split b b'.')

-- `IsAtMost r`: the answer is not that the first version is above the second.
abbrev IsAtMost : ℤ → Type 0
IsAtMost r = is_positive r ≡ false

compare_parts-le_trans :
    (x y z r s t : ℤ)
    → (IsAtMost r → IsAtMost s → IsAtMost t)
    → IsAtMost (compare_parts x y r)
    → IsAtMost (compare_parts y z s)
    → IsAtMost (compare_parts x z t)
unfolding compare_parts
compare_parts-le_trans x y z r s t ih h k =
    ground (arith, int_le_trans x y z, int_le_trans y z x, ih, h, k)

compare_rounds-le_trans :
    (ps qs rs : List Text)
    → IsAtMost (compare_rounds ps qs)
    → IsAtMost (compare_rounds qs rs)
    → IsAtMost (compare_rounds ps rs)
unfolding compare_rounds
compare_rounds-le_trans [] [] [] = λ h k. refl
compare_rounds-le_trans [] [] (r ∷ rs) =
    compare_parts-le_trans (pos 0) (pos 0) (atoi r) (pos 0) _ _ (compare_rounds-le_trans [] [] rs)
compare_rounds-le_trans [] (q ∷ qs) [] = λ h k. refl
compare_rounds-le_trans [] (q ∷ qs) (r ∷ rs) =
    compare_parts-le_trans (pos 0) (atoi q) (atoi r) _ _ _ (compare_rounds-le_trans [] qs rs)
compare_rounds-le_trans (p ∷ ps) [] [] = λ h k. h
compare_rounds-le_trans (p ∷ ps) [] (r ∷ rs) =
    compare_parts-le_trans (atoi p) (pos 0) (atoi r) _ _ _ (compare_rounds-le_trans ps [] rs)
compare_rounds-le_trans (p ∷ ps) (q ∷ qs) [] =
    compare_parts-le_trans (atoi p) (atoi q) (pos 0) _ _ _ (compare_rounds-le_trans ps qs [])
compare_rounds-le_trans (p ∷ ps) (q ∷ qs) (r ∷ rs) =
    compare_parts-le_trans (atoi p) (atoi q) (atoi r) _ _ _ (compare_rounds-le_trans ps qs rs)

-- Where the first version is at most the second, and the second at most the third, the first is at
-- most the third.
pub compare_versions-le_trans :
    (a b c : Text)
    → is_positive (compare_versions a b) ≡ false
    → is_positive (compare_versions b c) ≡ false
    → is_positive (compare_versions a c) ≡ false
unfolding compare_versions
compare_versions-le_trans a b c =
    compare_rounds-le_trans (split a b'.') (split b b'.') (split c b'.')

-- The component at a position, 0 where it is missing.
abbrev pub part : List Text → ℕ → ℤ
part [] n = pos 0
part (p ∷ ps) zero = atoi p
part (p ∷ ps) (suc n) = part ps n

-- The numbers agree up to a position, at which the first are below the second.
abbrev pub IsBelow : (ℕ → ℤ) → (ℕ → ℤ) → Type 0
IsBelow f g = (i : ℕ) × ((j : ℕ) → j < i → f j ≡ g j) × (int_lt (f i) (g i) ≡ true)

-- What an answer says of the numbers at all positions.
abbrev pub Says : ℤ → (ℕ → ℤ) → (ℕ → ℤ) → Type 0
Says (negsuc zero) f g = IsBelow f g
Says (negsuc (suc n)) f g = ⊥
Says (pos zero) f g = (j : ℕ) → f j ≡ g j
Says (pos (suc zero)) f g = IsBelow g f
Says (pos (suc (suc n))) f g = ⊥

int_lt_antisym : (x y : ℤ) → int_lt x y ≡ false → int_lt y x ≡ false → x ≡ y
unfolding int_lt
int_lt_antisym (pos m) (pos n) h k = ap pos (ground (arith, h, k))
int_lt_antisym (pos m) (negsuc n) h k = cc
int_lt_antisym (negsuc m) (pos n) h k = cc
int_lt_antisym (negsuc m) (negsuc n) h k = ap negsuc (ground (arith, h, k))

agree_from_suc :
    (f g : ℕ → ℤ) (i : ℕ)
    → f 0 ≡ g 0
    → ((j : ℕ) → j < i → f (suc j) ≡ g (suc j))
    → (j : ℕ) → j < suc i
    → f j ≡ g j
agree_from_suc f g i e h zero l = e
agree_from_suc f g i e h (suc j) l = h j (omega (arith, l))

IsBelow-suc : (f g : ℕ → ℤ) → f 0 ≡ g 0 → IsBelow (λ n. f (suc n)) (λ n. g (suc n)) → IsBelow f g
IsBelow-suc f g e (i, h, l) = (suc i, agree_from_suc f g i e h, l)

agree_suc : (f g : ℕ → ℤ) → f 0 ≡ g 0 → ((j : ℕ) → f (suc j) ≡ g (suc j)) → (j : ℕ) → f j ≡ g j
agree_suc f g e h zero = e
agree_suc f g e h (suc j) = h j

Says-suc : (r : ℤ) (f g : ℕ → ℤ) → f 0 ≡ g 0 → Says r (λ n. f (suc n)) (λ n. g (suc n)) → Says r f g
Says-suc (negsuc zero) f g e h = IsBelow-suc f g e h
Says-suc (negsuc (suc n)) f g e h = h
Says-suc (pos zero) f g e h = agree_suc f g e h
Says-suc (pos (suc zero)) f g e h = IsBelow-suc g f (sym e) h
Says-suc (pos (suc (suc n))) f g e h = h

IsBelow-here : (f g : ℕ → ℤ) → int_lt (f 0) (g 0) ≡ true → IsBelow f g
IsBelow-here f g h = (0, (λ j l. absurd (omega (arith, l))), h)

Says-compare_parts :
    (r : ℤ) (f g : ℕ → ℤ)
    → Says r (λ n. f (suc n)) (λ n. g (suc n))
    → Says (compare_parts (f 0) (g 0) r) f g
unfolding compare_parts
Says-compare_parts r f g h = elim (Bool-cases (int_lt (f 0) (g 0))) [
  | inl e ↦ rw e (IsBelow-here f g e)
  | inr e ↦ elim (Bool-cases (int_lt (g 0) (f 0))) [
    | inl k ↦ rw (e, k) (IsBelow-here g f k)
    | inr k ↦ rw (e, k) (Says-suc r f g (int_lt_antisym (f 0) (g 0) e k) h)
  ]
]

Says-compare_rounds : (ps qs : List Text) → Says (compare_rounds ps qs) (part ps) (part qs)
unfolding compare_rounds
Says-compare_rounds [] [] = λ j. refl
Says-compare_rounds [] (q ∷ qs) =
    Says-compare_parts _ (part []) (part (q ∷ qs)) (Says-compare_rounds [] qs)
Says-compare_rounds (p ∷ ps) [] =
    Says-compare_parts _ (part (p ∷ ps)) (part []) (Says-compare_rounds ps [])
Says-compare_rounds (p ∷ ps) (q ∷ qs) =
    Says-compare_parts _ (part (p ∷ ps)) (part (q ∷ qs)) (Says-compare_rounds ps qs)

-- The answer is -1, 0 or 1: -1 where the numbers of the components, 0 for a missing one, agree up to
-- a position at which the first version has the smaller one, 1 where the second has it, and 0 where
-- all numbers agree.
pub compare_versions-Says :
    (a b : Text) → Says (compare_versions a b) (part (split a b'.')) (part (split b b'.'))
unfolding compare_versions
compare_versions-Says a b = Says-compare_rounds (split a b'.') (split b b'.')
