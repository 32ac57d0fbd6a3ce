-- ===== src/Merge/Format/Fence.antt =====
-- The fence of a callout is longer than every run of backticks in what it fences.
use leyline.Base.{
  List, Text, [], arith, if◌then◌else◌, length, length-replicate, ltb, replicate, suc, zero, ℕ,
  ◌&&◌, ◌++◌, ◌+◌, ◌<◌, ◌==◌, ◌∷◌, ◌≤◌,
}
use leyline.Merge.Format.Callout.{backtick, backtick_fence, fence_length, longest_in, longest_run}

-- The result is at least the longest run that was known.
longest-le-longest_run : (s : Text) (run longest : ℕ) → longest ≤ longest_run s run longest
unfolding longest_run
longest-le-longest_run [] run longest = omega arith
longest-le-longest_run (r ∷ s) run longest = ground (
  arith,
  longest-le-longest_run s (if r == backtick then run + 1 else 0)
      (if r == backtick && ltb longest (run + 1) then run + 1 else longest),
)

-- A run of `n` backticks in front of a text is counted onto the run that ends there.
longest_run-replicate :
    (n : ℕ) (s : Text) (run longest : ℕ)
    → run ≤ longest
    → run + n ≤ longest_run (replicate n backtick ++ s) run longest
unfolding longest_run
longest_run-replicate zero s run longest h = omega (arith, longest-le-longest_run s run longest)
longest_run-replicate (suc n) s run longest h = ground (
  arith,
  longest_run-replicate n s (run + 1) (if ltb longest (run + 1) then run + 1 else longest),
)

longest_run-inside :
    (x s : Text) (n run longest : ℕ)
    → run ≤ longest
    → n ≤ longest_run (x ++ (replicate n backtick ++ s)) run longest
unfolding longest_run
longest_run-inside [] s n run longest h = omega (arith, longest_run-replicate n s run longest h)
longest_run-inside (r ∷ x) s n run longest h = longest_run-inside x s n _ _ (ground arith)

longest-le-longest_in : (cs : List Text) (longest : ℕ) → longest ≤ longest_in cs longest
unfolding longest_in
longest-le-longest_in [] longest = omega arith
longest-le-longest_in (c ∷ cs) longest =
    omega (
      arith,
      longest-le-longest_run c 0 longest,
      longest-le-longest_in cs (longest_run c 0 longest),
    )

longest_in-inside :
    (before after : List Text) (x s : Text) (n longest : ℕ)
    → n ≤ longest_in (before ++ (x ++ (replicate n backtick ++ s)) ∷ after) longest
unfolding longest_in
longest_in-inside [] after x s n longest = omega (
  arith,
  longest_run-inside x s n 0 longest,
  longest-le-longest_in after (longest_run (x ++ (replicate n backtick ++ s)) 0 longest),
)
longest_in-inside (c ∷ before) after x s n longest =
    longest_in-inside before after x s n (longest_run c 0 longest)

-- The fence has three backticks at least, and more than any run of backticks in any of the texts.
pub backtick_fence_longer :
    (before after : List Text) (x s : Text) (n : ℕ)
    → (3 ≤ length (backtick_fence (before ++ (x ++ (replicate n backtick ++ s)) ∷ after)))
      × (n < length (backtick_fence (before ++ (x ++ (replicate n backtick ++ s)) ∷ after)))
unfolding backtick_fence fence_length
backtick_fence_longer before after x s n =
    let contents = before ++ (x ++ (replicate n backtick ++ s)) ∷ after in
    rw length-replicate (ground arith, ground (arith, longest_in-inside before after x s n 0))
