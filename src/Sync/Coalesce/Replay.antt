-- ===== src/Sync/Coalesce/Replay.antt =====
-- Coalescing keeps what the operations do, and leaves nothing to coalesce.
use leyline.Base.{
  Bool-cases, List, Text, [], ap, append_assoc, arith, false, if◌then◌else◌, inl, inr, refl, sym,
  text_eq, text_eq_iff, true, ◌&&◌, ◌++◌, ◌∙◌, ◌∷◌, ◌≡◌,
}
use mathlib.Core.Path.{fun_ext}
use leyline.Protocol.Op.{Hash, Op, OpType, op_delete, op_rename, op_write, other}
use leyline.ServerStage.{Stage, path_hash}
use leyline.ServerStage.View.{View, apply_op, path_hash-replay, replay}
use leyline.Sync.Coalesce.{absorb, coalesce_consecutive_writes, coalesce_from, is_write, same_write}

-- The loop without its accumulator.
run_of : Op → List Op → List Op
run_of last [] = last ∷ []
run_of last (op ∷ ops) =
    let merged = run_of (absorb last op) ops in
    let kept = run_of op ops in if same_write last op then merged else last ∷ kept

coalesce_from-run_of :
    (out : List Op) (last : Op) (ops : List Op)
    → coalesce_from out last ops ≡ out ++ run_of last ops
unfolding coalesce_from run_of
coalesce_from-run_of out last [] = refl
coalesce_from-run_of out last (op ∷ ops) = ground (
  arith,
  coalesce_from-run_of out (absorb last op) ops,
  coalesce_from-run_of (out ++ last ∷ []) op ops,
  append_assoc out (last ∷ []) (run_of op ops),
)

coalesce-run_of : (op : Op) (ops : List Op) → coalesce_consecutive_writes (op ∷ ops) ≡ run_of op ops
unfolding coalesce_consecutive_writes
coalesce-run_of op ops = coalesce_from-run_of [] op ops

module _ (hash_bytes : Text → Hash) where
  -- A write over a write of the same path is the absorbed write.
  replay_absorb :
      (t u : OpType) (last op : Op) (v : View) (j : Text)
      → (is_write u && is_write t && text_eq op.path last.path) ≡ true
      → apply_op hash_bytes t (absorb last op) v j
        ≡ apply_op hash_bytes u op (apply_op hash_bytes t last v) j
  unfolding absorb apply_op
  replay_absorb op_write op_write last op v j h = ground (arith, text_eq_iff op.path last.path)
  replay_absorb t op_delete last op v j h = cc
  replay_absorb t op_rename last op v j h = cc
  replay_absorb t (other s) last op v j h = cc
  replay_absorb op_delete u last op v j h = ground arith
  replay_absorb op_rename u last op v j h = ground arith
  replay_absorb (other s) u last op v j h = ground arith

  apply_op-absorb :
      (last op : Op) (v : View)
      → same_write last op ≡ true
      → apply_op hash_bytes last.type (absorb last op) v
        ≡ apply_op hash_bytes op.type op (apply_op hash_bytes last.type last v)
  unfolding same_write
  apply_op-absorb last op v h = fun_ext (λ j. replay_absorb last.type op.type last op v j h)

  replay-run_of :
      (last : Op) (ops : List Op) (v : View)
      → replay hash_bytes (run_of last ops) v
        ≡ replay hash_bytes ops (apply_op hash_bytes last.type last v)
  unfolding run_of replay
  replay-run_of last [] v = refl
  replay-run_of last (op ∷ ops) v = elim (Bool-cases (same_write last op)) [
    | inl e ↦
        rw (e, run_of)
          (replay-run_of (absorb last op) ops v
            ∙ unfold absorb in ap (replay hash_bytes ops) (apply_op-absorb last op v e))
    | inr e ↦ rw (e, run_of) (replay-run_of op ops (apply_op hash_bytes last.type last v))
  ]

  replay-coalesce :
      (ops : List Op) (v : View)
      → replay hash_bytes (coalesce_consecutive_writes ops) v ≡ replay hash_bytes ops v
  unfolding replay
  replay-coalesce [] v = unfold coalesce_consecutive_writes in refl
  replay-coalesce (op ∷ ops) v = rw coalesce-run_of (replay-run_of op ops v)

  -- Coalescing changes the state of no path: whatever tree the operations are applied to, a stage
  -- that holds the coalesced operations answers `PathHash` as one that holds all of them.
  pub path_hash-coalesce :
      (head : View) (s : Stage) (p : Text)
      → path_hash hash_bytes head (record s { ops = coalesce_consecutive_writes s.ops }) p
        ≡ path_hash hash_bytes head s p
  path_hash-coalesce head s p =
      path_hash-replay hash_bytes head (record s { ops = coalesce_consecutive_writes s.ops }) p
      ∙ ap (λ (v : View). v p) (replay-coalesce s.ops head)
      ∙ sym (path_hash-replay hash_bytes head s p)

-- No operation is a write to the path of the write before it.
abbrev pub IsCoalesced : List Op → Type 0
IsCoalesced [] = Unit
IsCoalesced (op ∷ []) = Unit
IsCoalesced (a ∷ b ∷ ops) = (same_write a b ≡ false) × IsCoalesced (b ∷ ops)

-- What the run keeps of its first operation, by which later tests compare it.
same_write-absorb : (a last op : Op) → same_write a (absorb last op) ≡ same_write a last
unfolding same_write absorb
same_write-absorb a last op = refl

run_of-IsCoalesced_after :
    (a last : Op) (ops : List Op) → same_write a last ≡ false → IsCoalesced (a ∷ run_of last ops)
unfolding run_of
run_of-IsCoalesced_after a last [] h = (h, tt)
run_of-IsCoalesced_after a last (op ∷ ops) h = elim (Bool-cases (same_write last op)) [
  | inl e ↦
      rw (e, run_of)
        (run_of-IsCoalesced_after a (absorb last op) ops (same_write-absorb a last op ∙ h))
  | inr e ↦ rw (e, run_of) (h, run_of-IsCoalesced_after last op ops e)
]

run_of-IsCoalesced : (last : Op) (ops : List Op) → IsCoalesced (run_of last ops)
unfolding run_of
run_of-IsCoalesced last [] = tt
run_of-IsCoalesced last (op ∷ ops) = elim (Bool-cases (same_write last op)) [
  | inl e ↦ rw (e, run_of) (run_of-IsCoalesced (absorb last op) ops)
  | inr e ↦ rw (e, run_of) (run_of-IsCoalesced_after last op ops e)
]

-- In the result no write follows a write to the same path.
coalesce-IsCoalesced : (ops : List Op) → IsCoalesced (coalesce_consecutive_writes ops)
coalesce-IsCoalesced [] = unfold coalesce_consecutive_writes in tt
coalesce-IsCoalesced (op ∷ ops) = rw coalesce-run_of (run_of-IsCoalesced op ops)

run_of_fixed : (last : Op) (ops : List Op) → IsCoalesced (last ∷ ops) → run_of last ops ≡ last ∷ ops
unfolding run_of
run_of_fixed last [] h = refl
run_of_fixed last (op ∷ ops) h = rw (h.0, run_of) (ap (◌∷◌ last) (run_of_fixed op ops h.1))

coalesce_fixed : (ops : List Op) → IsCoalesced ops → coalesce_consecutive_writes ops ≡ ops
coalesce_fixed [] h = unfold coalesce_consecutive_writes in refl
coalesce_fixed (op ∷ ops) h = coalesce-run_of op ops ∙ run_of_fixed op ops h

-- The result holds no two adjacent writes to one path, and coalescing it again changes nothing.
pub coalesce_idem :
    (ops : List Op)
    → IsCoalesced (coalesce_consecutive_writes ops)
      × (coalesce_consecutive_writes (coalesce_consecutive_writes ops)
          ≡ coalesce_consecutive_writes ops)
coalesce_idem ops = (
  coalesce-IsCoalesced ops,
  coalesce_fixed (coalesce_consecutive_writes ops) (coalesce-IsCoalesced ops),
)
