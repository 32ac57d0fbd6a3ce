-- ===== src/Sync/Reconcile/Emitted.antt =====
-- What a reconciliation emits.
use leyline.Base.{
  All, All-append, Bool, Bool-cases, List, Option, Text, [], arith, false, if◌then◌else◌, inl, inr,
  length, none, refl, some, suc, true, ℕ, ◌++◌, ◌+◌, ◌∷◌, ◌≡◌,
}
use leyline.Base.Int.{ℤ}
use leyline.Base.Dict
use leyline.Protocol.Op.{Hash, Op, OpType, op_delete, op_rename, op_write, other}
use leyline.Sync.Enqueue.{StagedOp}
use leyline.Sync.Reconcile.{
  Disk, Reading, ReconcileCounts, Round, add_delete, adds_file, after_round, delete_of,
  emit_deletes, emit_writes, failed, fails, file_round, hash_round, is_live, is_pending,
  is_recorded, missing, modifies_file, read_round, reads, reconcile_working_tree, skips,
  start_counts, with_deletes, write_of, write_round,
}

-- How many of the operations pass the test.
abbrev pub count : (Op → Bool) → List Op → ℕ
count f [] = 0
count f (op ∷ ops) = let rest = count f ops in if f op then suc rest else rest

count-append : (f : Op → Bool) (xs ys : List Op) → count f (xs ++ ys) ≡ count f xs + count f ys
count-append f [] ys = omega arith
count-append f (op ∷ xs) ys = ground (arith, count-append f xs ys)

abbrev pub is_addition : OpType → Option Hash → Bool
is_addition op_write none = true
is_addition op_write (some h) = false
is_addition op_delete o = false
is_addition op_rename o = false
is_addition (other t) o = false

abbrev pub is_change : OpType → Option Hash → Bool
is_change op_write none = false
is_change op_write (some h) = true
is_change op_delete o = false
is_change op_rename o = false
is_change (other t) o = false

abbrev pub is_removal : OpType → Bool
is_removal op_write = false
is_removal op_delete = true
is_removal op_rename = false
is_removal (other t) = false

module _ (disk : Disk) (excluded : Text → Bool) (manifest : List (Text × Hash))
    (logs : List StagedOp) (now : ℤ) (keyname : Text) where
  -- The path is neither excluded nor claimed by a pending operation.
  abbrev pub IsFree : Op → Type 0
  IsFree op = (excluded op.path ≡ false) × (is_pending logs op.path ≡ false)

  -- A write on a path that the manifest does not have, and on one that it has.
  abbrev pub adds_path : Op → Bool
  adds_path op = is_addition op.type (Dict.get manifest op.path)

  abbrev pub changes_path : Op → Bool
  changes_path op = is_change op.type (Dict.get manifest op.path)

  abbrev pub deletes_path : Op → Bool
  deletes_path op = is_removal op.type

  -- The operations take the counters `c` to `d`.
  pub record Counts (ops : List Op) (c d : ReconcileCounts) : Type 0 where
    pub adds : d.adds ≡ c.adds + count adds_path ops
    pub modifies : d.modifies ≡ c.modifies + count changes_path ops
    pub deletes : d.deletes ≡ c.deletes + count deletes_path ops
    pub manifest_size : d.manifest_size ≡ c.manifest_size

  Counts-append :
      (xs ys : List Op) (b c d : ReconcileCounts)
      → Counts xs b c
      → Counts ys c d
      → Counts (xs ++ ys) b d
  Counts-append xs ys b c d v w = record {
    adds = omega (arith, v.adds, w.adds, count-append adds_path xs ys);
    modifies = omega (arith, v.modifies, w.modifies, count-append changes_path xs ys);
    deletes = omega (arith, v.deletes, w.deletes, count-append deletes_path xs ys);
    manifest_size = omega (arith, v.manifest_size, w.manifest_size);
  }

  -- The operations of a loop are free, and its counters account for them.
  abbrev pub IsSoundFrom : ReconcileCounts → List Op × ReconcileCounts → Type 0
  IsSoundFrom c (ops, d) = All IsFree ops × Counts ops c d

  abbrev start : ReconcileCounts
  start = record { adds = 0; modifies = 0; deletes = 0; manifest_size = length manifest }

  abbrev pub IsSound : Option (List Op × ReconcileCounts) → Type 0
  IsSound none = Unit
  IsSound (some r) = IsSoundFrom start r

  add_delete-IsSound :
      (path : Text) (h : Hash) (c : ReconcileCounts) (r : List Op × ReconcileCounts)
      → excluded path ≡ false
      → is_pending logs path ≡ false
      → IsSoundFrom c r
      → IsSoundFrom c (
          add_delete disk excluded manifest logs now keyname
            (delete_of disk excluded manifest logs now keyname path h)
            r)
  unfolding add_delete delete_of
  add_delete-IsSound path h c (ops, d) e k (f, v) = (
    ((e, k), f),
    record {
      adds = v.adds;
      modifies = v.modifies;
      deletes = omega (arith, v.deletes);
      manifest_size = v.manifest_size;
    },
  )

  emit_deletes-IsSound :
      (paths : List Text) (c : ReconcileCounts) (entries : List (Text × Hash))
      → IsSoundFrom c (emit_deletes disk excluded manifest logs now keyname paths c entries)
  unfolding emit_deletes
  emit_deletes-IsSound paths c [] = (
    tt,
    record {
      adds = omega arith;
      modifies = omega arith;
      deletes = omega arith;
      manifest_size = refl;
    },
  )
  emit_deletes-IsSound paths c ((path, h) ∷ entries) =
      let rest = emit_deletes-IsSound paths c entries in
      elim (Bool-cases (excluded path)) [
        | inl e ↦ rw e rest
        | inr e ↦ elim (Bool-cases (is_pending logs path)) [
          | inl k ↦ rw (e, k) rest
          | inr k ↦ elim (Bool-cases (is_live disk excluded manifest logs now keyname paths path)) [
            | inl l ↦ rw (e, k, l) rest
            | inr l ↦ rw (e, k, l) (add_delete-IsSound path h c _ e k rest)
          ]
        ]
      ]

  -- A round emits a write on a free path, of the kind that it counts.
  abbrev IsSoundRound : Round → Type 0
  IsSoundRound skips = Unit
  IsSoundRound fails = Unit
  IsSoundRound (adds_file op) =
      IsFree op × (op.type ≡ op_write) × (Dict.get manifest op.path ≡ none)
  IsSoundRound (modifies_file op) =
      IsFree op × (op.type ≡ op_write) × (h : Hash) × (Dict.get manifest op.path ≡ some h)

  write_round-IsSound :
      (path content : Text) (o : Option Hash)
      → excluded path ≡ false
      → is_pending logs path ≡ false
      → Dict.get manifest path ≡ o
      → IsSoundRound (write_round disk excluded manifest logs now keyname path content o)
  unfolding write_round write_of
  write_round-IsSound path content none e k g = ((e, k), refl, g)
  write_round-IsSound path content (some h) e k g = ((e, k), refl, h, g)

  read_round-IsSound :
      (path : Text) (r : Reading Text)
      → excluded path ≡ false
      → is_pending logs path ≡ false
      → IsSoundRound (read_round disk excluded manifest logs now keyname path r)
  unfolding read_round
  read_round-IsSound path (reads content) e k = write_round-IsSound path content _ e k refl
  read_round-IsSound path missing e k = tt
  read_round-IsSound path failed e k = tt

  hash_round-IsSound :
      (path : Text) (r : Reading Hash)
      → excluded path ≡ false
      → is_pending logs path ≡ false
      → IsSoundRound (hash_round disk excluded manifest logs now keyname path r)
  unfolding hash_round
  hash_round-IsSound path (reads h) e k =
      elim (Bool-cases
        (is_recorded disk excluded manifest logs now keyname (Dict.get manifest path) h)) [
          | inl q ↦ rw q tt
          | inr q ↦ rw q (read_round-IsSound path (disk.read_file path) e k)
        ]
  hash_round-IsSound path missing e k = tt
  hash_round-IsSound path failed e k = tt

  file_round-IsSound :
      (path : Text) → IsSoundRound (file_round disk excluded manifest logs now keyname path)
  unfolding file_round
  file_round-IsSound path = elim (Bool-cases (excluded path)) [
    | inl e ↦ rw e tt
    | inr e ↦ elim (Bool-cases (is_pending logs path)) [
      | inl k ↦ rw (e, k) tt
      | inr k ↦ rw (e, k) (hash_round-IsSound path (disk.hash_file path) e k)
    ]
  ]

  after_round-IsSound :
      (r : Round) (rest : Option (List Op × ReconcileCounts))
      → IsSoundRound r
      → IsSound rest
      → IsSound (after_round disk excluded manifest logs now keyname r rest)
  unfolding after_round
  after_round-IsSound skips rest h k = k
  after_round-IsSound fails rest h k = tt
  after_round-IsSound (adds_file op) none h k = tt
  after_round-IsSound (adds_file op) (some (ops, d)) (f, e, g) (a, v) = (
    (f, a),
    record {
      adds = ground (arith, v.adds, e, g);
      modifies = ground (arith, v.modifies, e, g);
      deletes = ground (arith, v.deletes, e, g);
      manifest_size = v.manifest_size;
    },
  )
  after_round-IsSound (modifies_file op) none h k = tt
  after_round-IsSound (modifies_file op) (some (ops, d)) (f, e, h, g) (a, v) = (
    (f, a),
    record {
      adds = ground (arith, v.adds, e, g);
      modifies = ground (arith, v.modifies, e, g);
      deletes = ground (arith, v.deletes, e, g);
      manifest_size = v.manifest_size;
    },
  )

  emit_writes-IsSound :
      (paths : List Text) → IsSound (emit_writes disk excluded manifest logs now keyname paths)
  unfolding emit_writes start_counts
  emit_writes-IsSound [] =
      (tt, record { adds = refl; modifies = refl; deletes = refl; manifest_size = refl })
  emit_writes-IsSound (path ∷ paths) =
      after_round-IsSound _ _ (file_round-IsSound path) (emit_writes-IsSound paths)

  with_deletes-IsSound :
      (paths : List Text) (o : Option (List Op × ReconcileCounts))
      → IsSound o
      → IsSound (with_deletes disk excluded manifest logs now keyname paths o)
  unfolding with_deletes
  with_deletes-IsSound paths none h = tt
  with_deletes-IsSound paths (some (writes, c)) (f, v) =
      let deletes = emit_deletes-IsSound paths c manifest in
      (All-append IsFree writes _ f deletes.0, Counts-append writes _ start c _ v deletes.1)

  -- A pass that does not fail emits no operation on a path that the filter excludes or that a
  -- pending operation claims, and its counters are the number of writes that it emits on paths that
  -- the manifest does not have, of writes on paths that it has, of deletes, and of the entries of
  -- the manifest.
  pub reconcile_working_tree-IsSound :
      IsSound (reconcile_working_tree disk excluded manifest logs now keyname)
  unfolding reconcile_working_tree
  reconcile_working_tree-IsSound = listed disk.list_files
    where
      listed :
          (o : Option (List Text))
          → IsSound (elim o as (λ o. Option (List Op × ReconcileCounts)) [
            | none ↦ none
            | some paths ↦
                with_deletes disk excluded manifest logs now keyname paths
                  (emit_writes disk excluded manifest logs now keyname paths)
          ])
      listed none = tt
      listed (some paths) = with_deletes-IsSound paths _ (emit_writes-IsSound paths)
