-- ===== src/ServerStage/Paths.antt =====
-- What `PathHash` answers after an operation is appended, and for a path that no operation touches.
use leyline.Base.{List, Text, [], any, ap, arith, false, refl, sym, ℕ, ◌∙◌, ◌∷◌, ◌≡◌}
use mathlib.Core.Path.{fun_ext}
use leyline.Protocol.Op.{Hash, Op, OpType, op_delete, op_rename, op_write, other}
use leyline.ServerStage.{Stage, append, op_touches, path_hash, touches}
use leyline.ServerStage.View.{View, apply_op, path_hash-replay, replay, replay-append}

module _ (hash_bytes : Text → Hash) (head : View) where
  -- After `Append` the state of every path is that of before, changed by the one operation.
  pub path_hash-append :
      (s : Stage) (op : Op) (now : ℕ) (p : Text)
      → path_hash hash_bytes head (append s op now) p
        ≡ apply_op hash_bytes op.type op (path_hash hash_bytes head s) p
  unfolding append
  path_hash-append s op now p =
      path_hash-replay hash_bytes head (append s op now) p
      ∙ ap (λ (v : View). v p) (replay-append hash_bytes s.ops (op ∷ []) head)
      ∙ unfold replay in
        ap (λ (v : View). apply_op hash_bytes op.type op v p)
          (sym (fun_ext (path_hash-replay hash_bytes head s)))

  apply_op-untouched :
      (t : OpType) (op : Op) (v : View) (p : Text)
      → op_touches t op p ≡ false
      → apply_op hash_bytes t op v p ≡ v p
  unfolding apply_op op_touches
  apply_op-untouched op_write op v p h = ground arith
  apply_op-untouched op_delete op v p h = ground arith
  apply_op-untouched op_rename op v p h = ground arith
  apply_op-untouched (other t) op v p h = refl

  replay-untouched :
      (ops : List Op) (v : View) (p : Text)
      → any (λ op. op_touches op.type op p) ops ≡ false
      → replay hash_bytes ops v p ≡ v p
  unfolding replay
  replay-untouched [] v p h = refl
  replay-untouched (op ∷ ops) v p h =
      replay-untouched ops (apply_op hash_bytes op.type op v) p (ground arith)
      ∙ apply_op-untouched op.type op v p (ground arith)

  -- For a path that no staged operation touches `PathHash` returns the committed state.
  pub path_hash-untouched :
      (s : Stage) (p : Text) → touches s p ≡ false → path_hash hash_bytes head s p ≡ head p
  unfolding touches
  path_hash-untouched s p h = path_hash-replay hash_bytes head s p ∙ replay-untouched s.ops head p h
