-- ===== src/Merge/ThreeWay/Symmetry.antt =====
-- The two sides of a merge can be exchanged.
use mathlib.Core.Path.{fun_ext}
use leyline.Base.{
  All, Bool, List, Text, [], any, any_comm, ap, arith, false, join_lines, refl, text_eq,
  text_eq_iff, true, ℕ, ◌||◌, ◌∙◌, ◌∷◌, ◌≡◌, ◌≤◌,
}
use leyline.Base.Sorting.Laws.{Apart, sort_slice-append_comm}
use leyline.Merge.Hunks.{
  Diff, EditHunk, apply_from, apply_hunks, compute_hunks, has_overlap, hunks_overlap,
  ranges_overlap, starts_before,
}
use leyline.Merge.Hunks.Overlap.{ranges_overlap_comm}
use leyline.Merge.Hunks.Chain.{IsChain, compute_hunks-IsChain}
use leyline.Merge.ThreeWay.{merged, restore_newline, three_way_merge}
use leyline.Merge.Lines.{elements, ends_in_newline, split_lines}

pub has_overlap_comm : (xs ys : List EditHunk) → has_overlap xs ys ≡ has_overlap ys xs
unfolding has_overlap
has_overlap_comm xs ys =
    any_comm (λ x y. hunks_overlap x y) xs ys
    ∙ ap (λ p. any p ys)
        (fun_ext λ y.
          ap (λ p. any p xs)
            (fun_ext λ x. ranges_overlap_comm x.base_start x.base_end y.base_start y.base_end))

starts_before_trans :
    (a b c : EditHunk)
    → starts_before a b ≡ true
    → starts_before b c ≡ true
    → starts_before a c ≡ true
unfolding starts_before
starts_before_trans a b c h k = ground arith

-- Hunks that do not overlap are told apart by their position.
Apart-of_disjoint :
    (a b : EditHunk)
    → a.base_start ≤ a.base_end
    → b.base_start ≤ b.base_end
    → hunks_overlap a b ≡ false
    → Apart starts_before a b
unfolding ranges_overlap starts_before
Apart-of_disjoint a b h k n = ground arith

Apart-from_All :
    (p : ℕ) (a : EditHunk) (ys : List EditHunk)
    → a.base_start ≤ a.base_end
    → IsChain p ys
    → any (λ b. hunks_overlap a b) ys ≡ false
    → All (Apart starts_before a) ys
Apart-from_All p a [] h c n = tt
Apart-from_All p a (b ∷ ys) h c n = (
  Apart-of_disjoint a b h c.1 (ground arith),
  Apart-from_All b.base_end a ys h c.2 (ground arith),
)

All-Apart :
    (p q : ℕ) (xs ys : List EditHunk)
    → IsChain p xs
    → IsChain q ys
    → has_overlap xs ys ≡ false
    → All (λ a. All (Apart starts_before a) ys) xs
unfolding has_overlap
All-Apart p q [] ys c d n = tt
All-Apart p q (a ∷ xs) ys c d n =
    (Apart-from_All q a ys c.1 d (ground arith), All-Apart a.base_end q xs ys c.2 d (ground arith))

-- Hunks of two sides that do not overlap are applied to the same effect in either order.
pub apply_hunks_comm :
    (base : List Text) (p q : ℕ) (xs ys : List EditHunk)
    → IsChain p xs
    → IsChain q ys
    → has_overlap xs ys ≡ false
    → apply_hunks base xs ys ≡ apply_hunks base ys xs
unfolding apply_hunks
apply_hunks_comm base p q xs ys c d n =
    ap (apply_from base 0)
      (sort_slice-append_comm starts_before starts_before_trans xs ys (All-Apart p q xs ys c d n))

or_comm : (a b : Bool) → (a || b) ≡ (b || a)
or_comm a b = ground arith

text_eq_comm : (s t : Text) → text_eq s t ≡ text_eq t s
text_eq_comm s t = ground (arith, text_eq_iff s t, text_eq_iff t s)

-- The content of the branch that applies the hunks.
content_comm :
    (base : List Text) (b c : Bool) (p q : ℕ) (xs ys : List EditHunk)
    → IsChain p xs
    → IsChain q ys
    → has_overlap xs ys ≡ false
    → restore_newline (b || c) (join_lines (apply_hunks base xs ys))
      ≡ restore_newline (c || b) (join_lines (apply_hunks base ys xs))
content_comm base b c p q xs ys k l n = rw (or_comm b c, apply_hunks_comm base p q xs ys k l n) refl

-- Exchanging the server and the client text changes neither whether a merge has a conflict nor the
-- content of the merge, whatever the diff library returns.
pub merge_symmetric :
    (diff : Text → Text → List Diff) (base server client : Text)
    → ((three_way_merge diff base server client).has_conflict
        ≡ (three_way_merge diff base client server).has_conflict)
      × ((three_way_merge diff base server client).content
          ≡ (three_way_merge diff base client server).content)
unfolding three_way_merge merged
merge_symmetric diff base server client =
    let base_lines = elements (split_lines base) in
    let xs = compute_hunks diff base_lines (elements (split_lines server)) in
    let ys = compute_hunks diff base_lines (elements (split_lines client)) in
    ground (
      arith,
      text_eq_comm server client,
      text_eq_iff server client,
      has_overlap_comm xs ys,
      content_comm base_lines (ends_in_newline server) (ends_in_newline client) 0 0 xs ys
          (compute_hunks-IsChain diff base_lines (elements (split_lines server)))
          (compute_hunks-IsChain diff base_lines (elements (split_lines client))),
    )
