-- ===== src/Hub/Stuck/Recent.antt =====
-- What a ring remembers: the last three of the hashes that were appended to it.
use leyline.Base.{List, [], any, arith, refl, sym, take, text_eq, ◌∷◌, ◌≡◌}
use leyline.Protocol.Op.{Hash}
use leyline.Hub.Stuck.{StuckRing, append_hash, new_ring, repeats_but, set_at, would_repeat}

-- The ring after the appends of the list, the newest first.
abbrev pub ring_of : List Hash → StuckRing
ring_of [] = new_ring
ring_of (h ∷ hs) = append_hash (ring_of hs) h

-- The rings after fewer than four appends, and after more for each place of the cursor, each with
-- the hashes that it compares, the newest first.
data Remembers : StuckRing → List Hash → Type 0 where
  fresh :
      (a b c d : Hash) → Remembers (record { buf = a ∷ b ∷ c ∷ d ∷ []; cursor = 0; count = 0 }) []
  one :
      (a b c d : Hash)
      → Remembers (record { buf = a ∷ b ∷ c ∷ d ∷ []; cursor = 1; count = 1 }) (a ∷ [])
  two :
      (a b c d : Hash)
      → Remembers (record { buf = a ∷ b ∷ c ∷ d ∷ []; cursor = 2; count = 2 }) (b ∷ a ∷ [])
  three :
      (a b c d : Hash)
      → Remembers (record { buf = a ∷ b ∷ c ∷ d ∷ []; cursor = 3; count = 3 }) (c ∷ b ∷ a ∷ [])
  full0 :
      (a b c d : Hash)
      → Remembers (record { buf = a ∷ b ∷ c ∷ d ∷ []; cursor = 0; count = 4 }) (d ∷ c ∷ b ∷ [])
  full1 :
      (a b c d : Hash)
      → Remembers (record { buf = a ∷ b ∷ c ∷ d ∷ []; cursor = 1; count = 4 }) (a ∷ d ∷ c ∷ [])
  full2 :
      (a b c d : Hash)
      → Remembers (record { buf = a ∷ b ∷ c ∷ d ∷ []; cursor = 2; count = 4 }) (b ∷ a ∷ d ∷ [])
  full3 :
      (a b c d : Hash)
      → Remembers (record { buf = a ∷ b ∷ c ∷ d ∷ []; cursor = 3; count = 4 }) (c ∷ b ∷ a ∷ [])

append_hash-Remembers :
    (r : StuckRing) (hs : List Hash) (h : Hash)
    → Remembers r hs
    → Remembers (append_hash r h) (take 3 (h ∷ hs))
unfolding append_hash set_at
append_hash-Remembers r hs h (fresh a b c d) = one h b c d
append_hash-Remembers r hs h (one a b c d) = two a h c d
append_hash-Remembers r hs h (two a b c d) = three a b h d
append_hash-Remembers r hs h (three a b c d) = full0 a b c h
append_hash-Remembers r hs h (full0 a b c d) = full1 h b c d
append_hash-Remembers r hs h (full1 a b c d) = full2 a h c d
append_hash-Remembers r hs h (full2 a b c d) = full3 a b h d
append_hash-Remembers r hs h (full3 a b c d) = full0 a b c h

would_repeat-Remembers :
    (r : StuckRing) (hs : List Hash) (h : Hash)
    → Remembers r hs
    → would_repeat r h ≡ any (λ x. text_eq x h) hs
unfolding would_repeat repeats_but
would_repeat-Remembers r hs h (fresh a b c d) = refl
would_repeat-Remembers r hs h (one a b c d) = refl
would_repeat-Remembers r hs h (two a b c d) = ground arith
would_repeat-Remembers r hs h (three a b c d) = ground arith
would_repeat-Remembers r hs h (full0 a b c d) = ground arith
would_repeat-Remembers r hs h (full1 a b c d) = ground arith
would_repeat-Remembers r hs h (full2 a b c d) = ground arith
would_repeat-Remembers r hs h (full3 a b c d) = ground arith

take_of_take : (h : Hash) (hs : List Hash) → take 3 (h ∷ take 3 hs) ≡ take 3 (h ∷ hs)
take_of_take h [] = refl
take_of_take h (a ∷ []) = refl
take_of_take h (a ∷ b ∷ []) = refl
take_of_take h (a ∷ b ∷ c ∷ hs) = refl

ring_of-Remembers : (hs : List Hash) → Remembers (ring_of hs) (take 3 hs)
ring_of-Remembers [] = fresh _ _ _ _
ring_of-Remembers (h ∷ hs) =
    rw (sym (take_of_take h hs))
      (append_hash-Remembers (ring_of hs) (take 3 hs) h (ring_of-Remembers hs))

-- A push is refused as stuck exactly when its hash is among those of the last three pushes that the
-- ring was given since it was made.
pub would_repeat-recent :
    (hs : List Hash) (h : Hash) → would_repeat (ring_of hs) h ≡ any (λ x. text_eq x h) (take 3 hs)
would_repeat-recent hs h = would_repeat-Remembers (ring_of hs) (take 3 hs) h (ring_of-Remembers hs)
