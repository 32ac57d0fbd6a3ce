-- ===== src/Sync/Reconcile.antt =====
-- pkg/sync/reconcile.go, and BulkDeleteThreshold of pkg/sync/bulkguard.go.
pub mod Emitted
use leyline.Base.{
  Bool, List, Option, Text, [], any, false, if◌then◌else◌, is_empty, leb, length, ltb, none, not,
  some, take, text_eq, ℕ, ◌&&◌, ◌*◌, ◌++◌, ◌+◌, ◌==◌, ◌∷◌,
}
use leyline.Base.Int.{ℤ}
use leyline.Base.Dict
use leyline.Protocol.Op.{Hash, Op, op_delete, op_write}
use leyline.Sync.Enqueue.{StagedOp}
use leyline.Sync.Catchup.{op_path_for}

-- A file that is read: its value, an error fs.ErrNotExist, or another error.
pub data Reading {ℓ} (A : Type ℓ) : Type ℓ where
  reads : A → Reading A
  missing failed : Reading A

-- The methods of `FileIO` that are called; `none` for the listing is its error.
pub record Disk : Type 0 where
  pub list_files : Option (List Text)
  pub hash_file : Text → Reading Hash
  pub read_file : Text → Reading Text

pub record ReconcileCounts : Type 0 where
  pub adds : ℕ
  pub modifies : ℕ
  pub deletes : ℕ
  pub manifest_size : ℕ

-- What one round of the loop over the files does: it goes on, it returns with an error, or it emits
-- a write and counts it as an addition or as a change.
pub data Round : Type 0 where
  skips fails : Round
  adds_file modifies_file : Op → Round

unfoldable pub looks_binary : Text → Bool
looks_binary data_bytes = any (λ b. b == 0) (take 8192 data_bytes)

-- `pending[key]`, over both logs.
unfoldable pub is_pending : List StagedOp → Text → Bool
is_pending logs path =
    any (λ s. not (is_empty (op_path_for s.op)) && text_eq (op_path_for s.op) path) logs

-- `excluded` is the filter, `now` the reading of the clock, `manifest` the live entries, which are
-- the empty list for a nil manifest, and `logs` the staged log and the acked log.
module _ (disk : Disk) (excluded : Text → Bool) (manifest : List (Text × Hash))
    (logs : List StagedOp) (now : ℤ) (keyname : Text) where
  unfoldable pub write_of : Text → Text → Option Hash → Op
  unfolding looks_binary
  write_of path content pre_hash = record {
    seq = 0;
    type = op_write;
    path = path;
    from = [];
    to = [];
    data_bytes = some content;
    binary = looks_binary content;
    pre_hash = pre_hash;
    ts = now;
    author = keyname;
  }

  -- The test of `have`, with its counter.
  unfoldable pub write_round : Text → Text → Option Hash → Round
  unfolding write_of
  write_round path content none = adds_file (write_of path content none)
  write_round path content (some h) = modifies_file (write_of path content (some h))

  -- From `disk.ReadFile` on.
  unfoldable pub read_round : Text → Reading Text → Round
  unfolding write_round
  read_round path (reads content) = write_round path content (Dict.get manifest path)
  read_round path missing = skips
  read_round path failed = fails

  -- Is the hash the one of the manifest?
  unfoldable pub is_recorded : Option Hash → Hash → Bool
  is_recorded none h = false
  is_recorded (some old) h = text_eq old h

  -- From `disk.HashFile` on.
  unfoldable pub hash_round : Text → Reading Hash → Round
  unfolding read_round is_recorded
  hash_round path (reads h) =
      let round = read_round path (disk.read_file path) in
      if is_recorded (Dict.get manifest path) h then skips else round
  hash_round path missing = skips
  hash_round path failed = fails

  unfoldable pub file_round : Text → Round
  unfolding hash_round is_pending
  file_round path =
      let round = hash_round path (disk.hash_file path) in
      if excluded path then skips else if is_pending logs path then skips else round

  -- A round, before the operations and the counters of the later rounds.
  unfoldable pub after_round :
      Round → Option (List Op × ReconcileCounts) → Option (List Op × ReconcileCounts)
  after_round skips rest = rest
  after_round fails rest = none
  after_round (adds_file op) none = none
  after_round (adds_file op) (some (ops, c)) = some (op ∷ ops, record c { adds = c.adds + 1 })
  after_round (modifies_file op) none = none
  after_round (modifies_file op) (some (ops, c)) =
      some (op ∷ ops, record c { modifies = c.modifies + 1 })

  -- The counters before the loops, with the loop that counts the entries.
  unfoldable pub start_counts : ReconcileCounts
  start_counts = record { adds = 0; modifies = 0; deletes = 0; manifest_size = length manifest }

  -- The loop over the files.
  unfoldable pub emit_writes : List Text → Option (List Op × ReconcileCounts)
  unfolding after_round file_round start_counts
  emit_writes [] = some ([], start_counts)
  emit_writes (path ∷ paths) = after_round (file_round path) (emit_writes paths)

  unfoldable pub delete_of : Text → Hash → Op
  delete_of path h = record {
    seq = 0;
    type = op_delete;
    path = path;
    from = [];
    to = [];
    data_bytes = none;
    binary = false;
    pre_hash = some h;
    ts = now;
    author = keyname;
  }

  -- The map `live`.
  unfoldable pub is_live : List Text → Text → Bool
  is_live paths path = any (λ p. not (excluded p) && text_eq p path) paths

  -- `counts.Deletes++` with the append.
  unfoldable pub add_delete : Op → List Op × ReconcileCounts → List Op × ReconcileCounts
  add_delete op (ops, c) = (op ∷ ops, record c { deletes = c.deletes + 1 })

  -- The loop over the manifest, from the counters that the loop over the files left.
  unfoldable pub emit_deletes :
      List Text → ReconcileCounts → List (Text × Hash) → List Op × ReconcileCounts
  unfolding delete_of is_live is_pending add_delete
  emit_deletes paths c [] = ([], c)
  emit_deletes paths c ((path, h) ∷ entries) =
      let rest = emit_deletes paths c entries in
      if excluded path
      then rest
      else if is_pending logs path
      then rest
      else if is_live paths path
      then rest
      else add_delete (delete_of path h) rest

  -- The end of the pass; `none` is an error.
  unfoldable pub with_deletes :
      List Text → Option (List Op × ReconcileCounts) → Option (List Op × ReconcileCounts)
  unfolding emit_deletes
  with_deletes paths none = none
  with_deletes paths (some (writes, c)) =
      let rest = emit_deletes paths c manifest in some (writes ++ rest.0, rest.1)

  unfoldable pub reconcile_working_tree : Option (List Op × ReconcileCounts)
  unfolding emit_writes with_deletes
  reconcile_working_tree = elim disk.list_files [
    | none ↦ none
    | some paths ↦ with_deletes paths (emit_writes paths)
  ]

unfoldable pub bulk_delete_threshold : ReconcileCounts → Bool
bulk_delete_threshold c =
    if ltb c.deletes 10
    then false
    else if c.manifest_size == 0
    then false
    else leb (25 * c.manifest_size) (c.deletes * 100)
