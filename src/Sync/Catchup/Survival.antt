-- ===== src/Sync/Catchup/Survival.antt =====
-- A pending write survives a catchup.
use leyline.Base.{
  All, Bool, Bool-cases, List, Option, Text, [], any, ap, arith, false, inl, inr, keep, none, not,
  refl, some, text_eq, text_eq_iff, text_eq_refl, true, ℕ, ◌&&◌, ◌++◌, ◌==◌, ◌||◌, ◌∷◌, ◌≡◌, ◌≢◌,
}
use leyline.Protocol.Op.{Hash, Op, OpType, op_delete, op_rename, op_write, other}
use leyline.Merge.Hunks.{Diff}
use leyline.Merge.Classify.{Context, rebased}
use leyline.Merge.Classify.Route.{
  at_dest, at_source, classify, classify_pair, is_sidecar, set_aside,
}
use leyline.Merge.Classify.Rebase.{classify_write_write-IsRebasedWrite}
use leyline.Sync.Enqueue.{StagedOp}
use leyline.Sync.Catchup.{
  is_keyed, is_touched, op_path_for, op_target_path, rebase_staged, replacements, staged_for,
  with_replacement,
}
use leyline.Merge.Classify.Content.{choose_format_for_path, is_text}
use leyline.Base.Sorting.Laws.{sort_slice-any}

-- Is the operation a write with the sequence number?
abbrev pub is_write_of : ℕ → StagedOp → Bool
is_write_of n s = elim s.op.type [ op_write ↦ s.op.seq == n | _ ↦ false ]

-- What becomes of an operation is a write with its sequence number.
abbrev IsWriteAgain : Op → Option Op → Type 0
IsWriteAgain staged o = (r : Op) × (o ≡ some r) × (r.type ≡ op_write) × (r.seq ≡ staged.seq)

other_not_keyed : (t : Text) → is_keyed (other t) ≢ true
unfolding is_keyed
other_not_keyed t k = cc

module _ (hash_bytes : Text → Hash) (diff : Text → Text → List Diff) where
  classify_pair-write :
      (s : OpType) (catchup staged : Op) (ctx : Context)
      → is_keyed s ≡ true
      → IsWriteAgain staged
          (classify_pair hash_bytes diff s op_write catchup staged ctx).replacement_staged
  unfolding classify_pair set_aside rebased
  classify_pair-write op_write catchup staged ctx k =
      let (r, e, t, n, ts, rest) =
        classify_write_write-IsRebasedWrite hash_bytes diff catchup staged ctx in
      (r, e, t, n)
  classify_pair-write op_delete catchup staged ctx k =
      elim (Bool-cases (
        staged.binary
        || not (is_text staged.data_bytes)
        || is_sidecar (choose_format_for_path catchup.path ctx.diff_mode))) [
          | inl e ↦ rw e (_, refl, refl, refl)
          | inr e ↦ rw e (_, refl, refl, refl)
        ]
  classify_pair-write op_rename catchup staged ctx k =
      elim (Bool-cases
        (at_dest op_write catchup staged && not (at_source op_write catchup staged))) [
          | inl e ↦ rw e (_, refl, refl, refl)
          | inr e ↦ rw e (_, refl, refl, refl)
        ]
  classify_pair-write (other t) catchup staged ctx k = absurd (other_not_keyed t k)

  typed_write :
      (s t : OpType) (catchup staged : Op) (ctx : Context)
      → is_keyed s ≡ true
      → t ≡ op_write
      → IsWriteAgain staged
          (classify_pair hash_bytes diff s t catchup staged ctx).replacement_staged
  typed_write s t catchup staged ctx k e = rw e (classify_pair-write s catchup staged ctx k)

  classify-write :
      (catchup staged : Op) (ctx : Context)
      → is_keyed catchup.type ≡ true
      → staged.type ≡ op_write
      → IsWriteAgain staged (classify hash_bytes diff catchup (some staged) ctx).replacement_staged
  unfolding classify
  classify-write catchup staged ctx k e =
      typed_write catchup.type staged.type catchup staged ctx k e

is_write_of_self :
    (op : Op) (n : ℕ) (frozen : Bool) (hash : Option Hash)
    → op.type ≡ op_write
    → op.seq ≡ n
    → is_write_of n record { op = op; frozen = frozen; frozen_local_hash = hash } ≡ true
is_write_of_self op n frozen hash t e = by_type op.type t
  where
    by_type :
        (t : OpType)
        → t ≡ op_write
        → (elim t as (λ t. Bool) [ op_write ↦ op.seq == n | _ ↦ false ]) ≡ true
    by_type op_write h = ground arith
    by_type op_delete h = cc
    by_type op_rename h = cc
    by_type (other u) h = cc

or_left : (b c : Bool) → b ≡ true → b || c ≡ true
or_left b c h = ground arith

or_right : (b c : Bool) → c ≡ true → b || c ≡ true
or_right b c h = ground arith

module _ (p : StagedOp → Bool) where
  any-with_replacement :
      (frozen : Bool) (o : Option Op) (ss : List StagedOp)
      → any p ss ≡ true
      → any p (with_replacement frozen o ss) ≡ true
  unfolding with_replacement
  any-with_replacement frozen none ss h = h
  any-with_replacement frozen (some op) ss h = ground arith

  any-first : (s : StagedOp) (ss : List StagedOp) → p s ≡ true → any p (s ∷ ss) ≡ true
  any-first s ss h = ground arith

  any-append : (xs ys : List StagedOp) → any p (xs ++ ys) ≡ any p xs || any p ys
  any-append [] ys = refl
  any-append (x ∷ xs) ys = ground (arith, any-append xs ys)

  any-keep :
      (q : StagedOp → Bool) (xs ys : List StagedOp) (s : StagedOp)
      → p s ≡ true
      → q s ≡ true
      → any p (keep q (xs ++ s ∷ ys)) ≡ true
  any-keep q [] ys s h k = ground arith
  any-keep q (x ∷ xs) ys s h k = ground (arith, any-keep q xs ys s h k)

-- The last operation with a key is the one found.
staged_for-last :
    (key : Text) (xs ys : List StagedOp) (s : StagedOp)
    → is_keyed s.op.type ≡ true
    → text_eq (op_path_for s.op) key ≡ true
    → staged_for key ys ≡ none
    → staged_for key (xs ++ s ∷ ys) ≡ some s.op
unfolding staged_for
staged_for-last key [] ys s k t h = rw (h, k, t) refl
staged_for-last key (x ∷ xs) ys s k t h = rw (staged_for-last key xs ys s k t h) refl

write_keyed : (t : OpType) → t ≡ op_write → is_keyed t ≡ true
unfolding is_keyed
write_keyed t e = rw e refl

module _ (hash_bytes : Text → Hash) (diff : Text → Text → List Diff) (excluded : Text → Bool)
    (context : Op → Context) (frozen : Bool) where
  replacements-write :
      (staged : List StagedOp) (op : Op) (key : Text) (ops : List Op)
      → op.type ≡ op_write
      → staged_for key staged ≡ some op
      → All (λ (o : Op). is_keyed o.type ≡ true) ops
      → is_touched hash_bytes diff excluded context frozen key ops ≡ true
      → any (is_write_of op.seq) (replacements hash_bytes diff excluded context frozen staged ops)
        ≡ true
  unfolding replacements is_touched
  replacements-write staged op key [] t f k h = cc
  replacements-write staged op key (o ∷ ops) t f k h =
      elim (Bool-cases (excluded (op_target_path o))) [
        | inl e ↦ rw e (replacements-write staged op key ops t f k.1 (ground arith))
        | inr e ↦ elim (Bool-cases (text_eq (op_path_for o) key)) [
          | inl q ↦
              let (r, er, tr, nr) = classify-write hash_bytes diff o op (context o) k.0 t in
              rw (e, (text_eq_iff (op_path_for o) key).0 q, f, er)
                (any-first (is_write_of op.seq)
                  record { op = r; frozen = frozen; frozen_local_hash = none }
                  (replacements hash_bytes diff excluded context frozen staged ops)
                  (is_write_of_self r op.seq frozen none tr nr))
          | inr q ↦ rw e (
              any-with_replacement (is_write_of op.seq) frozen
                (classify hash_bytes diff o (staged_for (op_path_for o) staged)
                  (context o)).replacement_staged
                (replacements hash_bytes diff excluded context frozen staged ops)
                (replacements-write staged op key ops t f k.1 (ground arith)))
        ]
      ]

  -- A staged write, the last staged operation of its path, is still staged after a catchup of
  -- writes, deletes and renames: the log has a write with its sequence number, whichever of them
  -- name its path and whatever the filter excludes.
  pub rebase_staged-keeps_write :
      (xs ys : List StagedOp) (s : StagedOp) (ops : List Op)
      → s.op.type ≡ op_write
      → staged_for (op_path_for s.op) ys ≡ none
      → All (λ (o : Op). is_keyed o.type ≡ true) ops
      → any
          (is_write_of s.op.seq)
          (rebase_staged hash_bytes diff excluded context frozen (xs ++ s ∷ ys) ops)
        ≡ true
  unfolding rebase_staged
  rebase_staged-keeps_write xs ys s ops t h k =
      let key = op_path_for s.op in
      let staged = xs ++ s ∷ ys in
      let touched = is_touched hash_bytes diff excluded context frozen key ops in
      let old = replacements hash_bytes diff excluded context frozen staged ops in
      let found = staged_for-last key xs ys s (write_keyed s.op.type t) (text_eq_refl key) h in
      rw (sort_slice-any, any-append)
        (elim (Bool-cases touched) [
          | inl e ↦ or_left _ _ (replacements-write staged s.op key ops t found k e)
          | inr e ↦ or_right _ _ (
              any-keep (is_write_of s.op.seq) _ xs ys s
                (is_write_of_self s.op s.op.seq s.frozen s.frozen_local_hash t refl) (ap not e))
        ])
