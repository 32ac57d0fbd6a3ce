-- ===== src/RateLimit/Window.antt =====
-- No window holds more allowed events than the limit.
use mathlib.Core.Path.{subst}
use leyline.Base.{
  Bool, Bool-cases, List, [], ap, append-nil, append_assoc, arith, false, if◌then◌else◌, inl, inr,
  keep, leb, leb→le, length, length-append, refl, sym, true, ℕ, ◌&&◌, ◌++◌, ◌<◌, ◌∙◌, ◌∷◌, ◌≡◌, ◌≤◌,
}
use leyline.RateLimit.{Limiter, allow, is_after, new_limiter, prune}

-- The times of the calls of `Allow` that return true.
abbrev pub allowed : List ℕ → Limiter → List ℕ
allowed [] l = []
allowed (t ∷ ts) l = let rest = allowed ts (allow t l).1 in if (allow t l).0 then t ∷ rest else rest

-- The clock does not go back.
abbrev pub Ascends : ℕ → List ℕ → Type 0
Ascends last [] = Unit
Ascends last (t ∷ ts) = (last ≤ t) × Ascends t ts

-- Is the time in the window that ends at `now`?
abbrev pub in_window : ℕ → ℕ → ℕ → Bool
in_window now window t = leb t now && is_after now window t

keep-append {ℓ} :
    {A : Type ℓ} (p : A → Bool) (xs ys : List A) → keep p (xs ++ ys) ≡ keep p xs ++ keep p ys
keep-append p [] ys = refl
keep-append p (x ∷ xs) ys = ground (arith, keep-append p xs ys)

keep-later :
    (m n w : ℕ) (ts : List ℕ)
    → m ≤ n
    → keep (is_after n w) (keep (is_after m w) ts) ≡ keep (is_after n w) ts
unfolding is_after
keep-later m n w [] h = refl
keep-later m n w (t ∷ ts) h = ground (arith, keep-later m n w ts h)

length-keep_window :
    (n w : ℕ) (ts : List ℕ) → length (keep (in_window n w) ts) ≤ length (keep (is_after n w) ts)
length-keep_window n w [] = omega arith
length-keep_window n w (t ∷ ts) = ground (arith, length-keep_window n w ts)

length-keep_later :
    (m n w : ℕ) (ts : List ℕ)
    → m ≤ n
    → length (keep (is_after n w) ts) ≤ length (keep (is_after m w) ts)
unfolding is_after
length-keep_later m n w [] h = omega arith
length-keep_later m n w (t ∷ ts) h = ground (arith, length-keep_later m n w ts h)

-- The events of the limiter and the times allowed so far, `last` being no later than the next call.
record Tracks (m w last : ℕ) (acc events : List ℕ) : Type 0 where
  pub count : (n : ℕ) → length (keep (in_window n w) acc) ≤ m
  pub same : (n : ℕ) → last ≤ n → keep (is_after n w) events ≡ keep (is_after n w) acc

module _ (m w : ℕ) where
  count-add :
      (last t : ℕ) (acc events : List ℕ)
      → Tracks m w last acc events
      → last ≤ t
      → length (keep (is_after t w) events) < m
      → (n : ℕ) → length (keep (in_window n w) (acc ++ t ∷ [])) ≤ m
  count-add last t acc events k h c n =
      rw (keep-append (in_window n w) acc (t ∷ []), length-append)
        (elim (Bool-cases (leb t n)) [
          | inl e ↦
              let later = length-keep_later t n w acc (leb→le t n e) in
              let now : length (keep (is_after t w) acc) < m = rw⁻¹ (k.same t h) c in
              ground (arith, length-keep_window n w acc, later, now)
          | inr e ↦ ground (arith, k.count n)
        ])

  Tracks-add :
      (last t : ℕ) (acc events : List ℕ)
      → Tracks m w last acc events
      → last ≤ t
      → length (keep (is_after t w) events) < m
      → Tracks m w t (acc ++ t ∷ []) (keep (is_after t w) events ++ t ∷ [])
  Tracks-add last t acc events k h c = record {
    count = count-add last t acc events k h c;
    same = λ n l.
        keep-append (is_after n w) (keep (is_after t w) events) (t ∷ [])
        ∙ ap (λ xs. xs ++ keep (is_after n w) (t ∷ []))
            (keep-later t n w events l ∙ k.same n (omega arith))
        ∙ sym (keep-append (is_after n w) acc (t ∷ []));
  }

  Tracks-prune :
      (last t : ℕ) (acc events : List ℕ)
      → Tracks m w last acc events
      → last ≤ t
      → Tracks m w t acc (keep (is_after t w) events)
  Tracks-prune last t acc events k h = record {
    count = k.count;
    same = λ n l. keep-later t n w events l ∙ k.same n (omega arith);
  }

  abbrev limiter : List ℕ → Limiter
  limiter events = record { events = events; max_count = m; window = w }

  allow-refused :
      (t : ℕ) (events : List ℕ)
      → leb m (length (keep (is_after t w) events)) ≡ true
      → allow t (limiter events) ≡ (false, limiter (keep (is_after t w) events))
  unfolding allow prune
  allow-refused t events e = rw e

  allow-allowed :
      (t : ℕ) (events : List ℕ)
      → leb m (length (keep (is_after t w) events)) ≡ false
      → allow t (limiter events) ≡ (true, limiter (keep (is_after t w) events ++ t ∷ []))
  unfolding allow prune
  allow-allowed t events e = rw e

  allowed-count :
      (ts : List ℕ) (last : ℕ) (acc events : List ℕ)
      → Tracks m w last acc events
      → Ascends last ts
      → (n : ℕ) → length (keep (in_window n w) (acc ++ allowed ts (limiter events))) ≤ m
  allowed-count [] last acc events k h n = rw (append-nil acc) (k.count n)
  allowed-count (t ∷ ts) last acc events k h n =
      elim (Bool-cases (leb m (length (keep (is_after t w) events)))) [
        | inl e ↦ rw (allow-refused t events e) (
            allowed-count ts t acc (keep (is_after t w) events)
              (Tracks-prune last t acc events k h.0) h.1 n)
        | inr e ↦ rw (allow-allowed t events e) (
            subst (λ xs. length (keep (in_window n w) xs) ≤ m) (append_assoc acc (t ∷ []) _)
              (allowed-count ts t (acc ++ t ∷ []) (keep (is_after t w) events ++ t ∷ [])
                (Tracks-add last t acc events k h.0 (ground arith)) h.1 n))
      ]

  -- Where the clock does not go back, a new limiter allows at most its limit of the calls that fall
  -- in a window, wherever the window ends.
  pub allow-limits :
      (ts : List ℕ) (now : ℕ)
      → Ascends 0 ts
      → length (keep (in_window now w) (allowed ts (new_limiter m w))) ≤ m
  unfolding new_limiter
  allow-limits ts now h =
      allowed-count ts 0 [] [] record { count = λ n. omega arith; same = λ n l. refl } h now
