-- ===== src/Merge/Classify/Outcome.antt =====
-- When the classification drops a staged operation, and what it makes of a staged rename.
use leyline.Base.{
  Bool, List, Text, [], ap, arith, false, if◌then◌else◌, is_empty, is_none, none, refl, some, true,
  ◌<◌, ◌==◌, ◌∷◌, ◌≡◌, ◌≢◌,
}
use leyline.Protocol.Op.{
  HasFields, Hash, IsValid, Op, OpType, bad_seq, no_data, no_path, op_delete, op_rename, op_write,
  other, test_of_positive, validate_fields, validate_op,
}
use leyline.Merge.Hunks.{Diff}
use leyline.Merge.Classify.{Context, Decision, decision, rebased}
use leyline.Merge.Classify.Route.{classify, classify_pair, classify_write_write, set_aside}
use leyline.Merge.Classify.Validity.{IsFileOp}
use leyline.Merge.Classify.Rebase.{classify_write_write-IsRebasedWrite}
use leyline.Merge.Format.Sidecar.{sidecar_path, sidecar_path-ne_nil}

-- The pairs of types that leave nothing staged: two deletes, two renames, an unknown type.
abbrev pub drops : OpType → OpType → Bool
drops op_delete op_delete = true
drops op_rename op_rename = true
drops (other s) t = true
drops s (other t) = true
drops s t = false

-- A write with the data of an operation that has none is refused.
validate_op-no_data :
    (staged : Op) (path : Text)
    → IsValid staged
    → path ≢ []
    → staged.data_bytes ≡ none
    → validate_op (rebased op_write staged path staged.data_bytes none) ≡ some no_data
unfolding validate_op validate_fields rebased
validate_op-no_data staged path v p d =
    rw (test_of_positive staged.ts v.ts, d) (refuse path v.seq p)
  where
    refuse :
        (path : Text)
        → 0 < staged.seq
        → path ≢ []
        → (if staged.seq == 0
            then some bad_seq
            else if is_empty path
            then some no_path
            else some no_data)
          ≡ some no_data
    refuse [] h p = absurd (p refl)
    refuse (a ∷ path) h p = ground arith

module _ (hash_bytes : Text → Hash) (diff : Text → Text → List Diff) where
  classify_write_write-is_some :
      (catchup staged : Op) (ctx : Context)
      → is_none (classify_write_write hash_bytes diff catchup staged ctx).replacement_staged ≡ false
  classify_write_write-is_some catchup staged ctx =
      ap is_none (classify_write_write-IsRebasedWrite hash_bytes diff catchup staged ctx).1

  classify_pair-drops :
      (s t : OpType) (catchup staged : Op) (ctx : Context)
      → is_none (classify_pair hash_bytes diff s t catchup staged ctx).replacement_staged
        ≡ drops s t
  unfolding classify_pair decision set_aside
  classify_pair-drops op_write op_write catchup staged ctx =
      classify_write_write-is_some catchup staged ctx
  classify_pair-drops op_write op_delete catchup staged ctx = refl
  classify_pair-drops op_write op_rename catchup staged ctx = refl
  classify_pair-drops op_write (other t) catchup staged ctx = refl
  classify_pair-drops op_delete op_write catchup staged ctx = ground arith
  classify_pair-drops op_delete op_delete catchup staged ctx = refl
  classify_pair-drops op_delete op_rename catchup staged ctx = refl
  classify_pair-drops op_delete (other t) catchup staged ctx = refl
  classify_pair-drops op_rename op_write catchup staged ctx = ground arith
  classify_pair-drops op_rename op_delete catchup staged ctx = refl
  classify_pair-drops op_rename op_rename catchup staged ctx = ground arith
  classify_pair-drops op_rename (other t) catchup staged ctx = refl
  classify_pair-drops (other s) t catchup staged ctx = refl

  -- A staged operation is dropped exactly when both operations are deletes, both are renames, or
  -- one of them is of no known type.
  pub classify-drops :
      (catchup staged : Op) (ctx : Context)
      → is_none (classify hash_bytes diff catchup (some staged) ctx).replacement_staged
        ≡ drops catchup.type staged.type
  unfolding classify
  classify-drops catchup staged ctx =
      classify_pair-drops catchup.type staged.type catchup staged ctx

  abbrev pub IsRefused : Decision → Type 0
  IsRefused d = (r : Op) × (d.replacement_staged ≡ some r) × (validate_op r ≡ some no_data)

  classify_pair-rename :
      (s t : OpType) (catchup staged : Op) (ctx : Context)
      → IsFileOp s
      → t ≡ op_rename
      → IsValid staged
      → HasFields t staged
      → IsRefused (classify_pair hash_bytes diff s t catchup staged ctx)
  unfolding classify_pair set_aside
  classify_pair-rename op_write op_rename catchup staged ctx k e v h = (
    rebased op_write staged (sidecar_path catchup.path ctx.ts) staged.data_bytes none,
    refl,
    validate_op-no_data staged (sidecar_path catchup.path ctx.ts) v
        (sidecar_path-ne_nil catchup.path ctx.ts) h.4,
  )
  classify_pair-rename op_delete op_rename catchup staged ctx k e v h = (
    rebased op_write staged staged.to staged.data_bytes none,
    refl,
    validate_op-no_data staged staged.to v h.1 h.4,
  )
  classify_pair-rename op_write op_write catchup staged ctx k e v h = cc
  classify_pair-rename op_write op_delete catchup staged ctx k e v h = cc
  classify_pair-rename op_write (other t) catchup staged ctx k e v h = absurd h
  classify_pair-rename op_delete op_write catchup staged ctx k e v h = cc
  classify_pair-rename op_delete op_delete catchup staged ctx k e v h = cc
  classify_pair-rename op_delete (other t) catchup staged ctx k e v h = absurd h
  classify_pair-rename op_rename t catchup staged ctx k e v h = absurd k
  classify_pair-rename (other s) t catchup staged ctx k e v h = absurd k

  -- A staged rename that passes validation and meets a catchup write or delete is replaced by a
  -- write that validation refuses, since a rename carries no data.
  pub classify-IsRefused_rename :
      (catchup staged : Op) (ctx : Context)
      → IsFileOp catchup.type
      → staged.type ≡ op_rename
      → IsValid staged
      → IsRefused (classify hash_bytes diff catchup (some staged) ctx)
  unfolding classify
  classify-IsRefused_rename catchup staged ctx k e v =
      classify_pair-rename catchup.type staged.type catchup staged ctx k e v v.fields
