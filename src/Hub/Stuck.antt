-- ===== src/Hub/Stuck.antt =====
-- internal/server/hub/stuck_file.go: the content hashes of the last pushes of one client to one
-- path.
pub mod Recent
use leyline.Base.{
  Bool, List, Option, Text, [], any, false, if◌then◌else◌, ltb, replicate, suc, take, text_eq, zero,
  ℕ, ◌%◌, ◌+◌, ◌==◌, ◌||◌, ◌∷◌,
}
use leyline.Protocol.Op.{Hash, Op, OpType, op_delete, op_rename, op_write, other}
use leyline.ServerStage.{payload, zero_hash}

abbrev pub stuck_ring_depth : ℕ
stuck_ring_depth = 4

-- `buf` has `stuck_ring_depth` elements.
pub record StuckRing : Type 0 where
  pub buf : List Hash
  pub cursor : ℕ
  pub count : ℕ

-- `&stuckRing{}`
abbrev pub new_ring : StuckRing
new_ring = record { buf = replicate stuck_ring_depth zero_hash; cursor = 0; count = 0 }

-- Does some element equal the hash, where the one at the index is passed over?
repeats_but : ℕ → Hash → List Hash → Bool
repeats_but i post [] = false
repeats_but zero post (h ∷ hs) = any (λ x. text_eq x post) hs
repeats_but (suc i) post (h ∷ hs) = text_eq h post || repeats_but i post hs

unfoldable pub would_repeat : StuckRing → Hash → Bool
unfolding repeats_but
would_repeat r post =
    if r.count == 0
    then false
    else if ltb r.count stuck_ring_depth
    then any (λ x. text_eq x post) (take r.count r.buf)
    else repeats_but r.cursor post r.buf

-- `buf[i] = h`
set_at : ℕ → Hash → List Hash → List Hash
set_at i h [] = []
set_at zero h (x ∷ xs) = h ∷ xs
set_at (suc i) h (x ∷ xs) = x ∷ set_at i h xs

unfoldable pub append_hash : StuckRing → Hash → StuckRing
unfolding set_at
append_hash r post = record {
  buf = set_at r.cursor post r.buf;
  cursor = (r.cursor + 1) % stuck_ring_depth;
  count = if ltb r.count stuck_ring_depth then r.count + 1 else r.count;
}

-- `hash_bytes` is SHA-256.
module _ (hash_bytes : Text → Hash) where
  post_hash_of : OpType → Option Text → Hash
  post_hash_of op_write d = hash_bytes (payload d)
  post_hash_of op_delete d = zero_hash
  post_hash_of op_rename d = zero_hash
  post_hash_of (other t) d = zero_hash

  unfoldable pub stuck_post_hash : Op → Hash
  unfolding post_hash_of
  stuck_post_hash op = post_hash_of op.type op.data_bytes
