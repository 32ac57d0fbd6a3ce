-- ===== src/ClientStage/Acked/Replay.antt =====
-- What a client that crashed after `AppendAll` reads back, and what its next call then does.
use leyline.Base.{
  All, Bool, Bool-cases, List, Option, [], ap, append-nil, append_assoc, arith, inl, inr, length,
  none, refl, some, sym, true, ℕ, ◌++◌, ◌+◌, ◌==◌, ◌||◌, ◌∙◌, ◌∷◌, ◌≡◌,
}
use leyline.Sync.Enqueue.{StagedOp}
use leyline.ClientStage.Rows.{Cut, RowFile, whole_file, write_row}
use leyline.ClientStage.Acked.{
  AckedLog, add_op, after_sync, after_write, append_all, append_each, has_seq, open_acked,
  write_error_of,
}

has_seq-append :
    (ops : List StagedOp) (s : StagedOp) (n : ℕ)
    → has_seq (ops ++ s ∷ []) n ≡ (has_seq ops n || (s.op.seq == n))
unfolding has_seq
has_seq-append [] s n = ground arith
has_seq-append (o ∷ ops) s n = ground (arith, has_seq-append ops s n)

-- All of the batch is among the operations.
abbrev pub AreThere : List StagedOp → List StagedOp → Type 0
AreThere ops batch = All (λ (s : StagedOp). has_seq ops s.op.seq ≡ true) batch

has_seq-added :
    (ops new : List StagedOp) (n : ℕ) → has_seq ops n ≡ true → has_seq (ops ++ new) n ≡ true
unfolding has_seq
has_seq-added [] new n h = cc
has_seq-added (o ∷ ops) new n h = ground (arith, h, has_seq-added ops new n)

-- The file holds the operations in memory.
abbrev pub IsFiled : AckedLog → Type 0
IsFiled a = a.file ≡ whole_file a.ops

write_row-whole :
    (f : RowFile StagedOp) (ops : List StagedOp) (s : StagedOp)
    → f ≡ whole_file ops
    → write_row f s ≡ whole_file (ops ++ s ∷ [])
write_row-whole f ops s e = rw e refl

add_op-IsFiled : (a : AckedLog) (s : StagedOp) → IsFiled a → IsFiled (add_op a s)
unfolding add_op
add_op-IsFiled a s e = write_row-whole a.file a.ops s e

add_op-ops : (a : AckedLog) (s : StagedOp) → (add_op a s).ops ≡ a.ops ++ s ∷ []
unfolding add_op
add_op-ops a s = refl

-- What a result without an error says of the batch: all of it is there, in memory and in the file,
-- after the operations that were there before, and the count is that of the new ones.
pub record IsWritten (a : AckedLog) (batch : List StagedOp) (r : Bool × ℕ × AckedLog) : Type 0 where
  pub there : AreThere r.2.ops batch
  pub filed : IsFiled r.2
  pub new : List StagedOp
  pub kept : r.2.ops ≡ a.ops ++ new
  pub counted : r.1 ≡ length new

abbrev Holds : AckedLog → List StagedOp → Bool × ℕ × AckedLog → Type 0
Holds a batch r = r.0 ≡ true → IsWritten a batch r

IsWritten-skip :
    (a : AckedLog) (s : StagedOp) (batch : List StagedOp) (r : Bool × ℕ × AckedLog)
    → has_seq a.ops s.op.seq ≡ true
    → IsWritten a batch r
    → IsWritten a (s ∷ batch) r
IsWritten-skip a s batch r e w = record {
  there = (rw w.kept (has_seq-added a.ops w.new s.op.seq e), w.there);
  filed = w.filed;
  new = w.new;
  kept = w.kept;
  counted = w.counted;
}

has_seq_self : (ops : List StagedOp) (s : StagedOp) → has_seq (ops ++ s ∷ []) s.op.seq ≡ true
has_seq_self ops s = ground (arith, has_seq-append ops s s.op.seq)

IsWritten-add :
    (a : AckedLog) (s : StagedOp) (batch : List StagedOp) (r : Bool × ℕ × AckedLog)
    → IsWritten (add_op a s) batch r
    → IsWritten a (s ∷ batch) (r.0, r.1 + 1, r.2)
IsWritten-add a s batch r w =
    let cut : r.2.ops ≡ (a.ops ++ s ∷ []) ++ w.new =
      w.kept ∙ ap (λ ops. ops ++ w.new) (add_op-ops a s) in
    record {
      there =
          (rw cut (has_seq-added (a.ops ++ s ∷ []) w.new s.op.seq (has_seq_self a.ops s)), w.there);
      filed = w.filed;
      new = s ∷ w.new;
      kept = cut ∙ append_assoc a.ops (s ∷ []) w.new;
      counted = omega (arith, w.counted);
    }

module _ (write_error : StagedOp → Option Cut) where
  append_each-there :
      (batch : List StagedOp) (a : AckedLog)
      → AreThere a.ops batch
      → append_each write_error batch a ≡ (true, 0, a)
  unfolding append_each
  append_each-there [] a h = refl
  append_each-there (s ∷ batch) a h = rw h.0 (append_each-there batch a h.1)

  after_write-Holds :
      (o : Option Cut) (a : AckedLog) (s : StagedOp) (batch : List StagedOp)
      (rest : Bool × ℕ × AckedLog)
      → Holds (add_op a s) batch rest
      → Holds a (s ∷ batch) (after_write write_error o a s rest)
  after_write-Holds (some c) a s batch rest h = λ k. cc k
  after_write-Holds none a s batch rest h = λ k. IsWritten-add a s batch rest (h k)

  append_each-Holds :
      (batch : List StagedOp) (a : AckedLog)
      → IsFiled a
      → Holds a batch (append_each write_error batch a)
  unfolding append_each
  append_each-Holds [] a f =
      λ h. record { there = tt; filed = f; new = []; kept = sym (append-nil a.ops); counted = refl }
  append_each-Holds (s ∷ batch) a f = elim (Bool-cases (has_seq a.ops s.op.seq)) [
    | inl e ↦ rw e (λ h. IsWritten-skip a s batch _ e (append_each-Holds batch a f h))
    | inr e ↦ rw e (
        after_write-Holds (write_error_of a.is_open (write_error s)) a s batch _
          (append_each-Holds batch (add_op a s) (add_op-IsFiled a s f)))
  ]

after_sync-Holds :
    (sync_ok : Bool) (a : AckedLog) (batch : List StagedOp) (we : StagedOp → Option Cut)
    (r : Bool × ℕ × AckedLog)
    → Holds a batch r
    → Holds a batch (after_sync we sync_ok r)
after_sync-Holds sync_ok a batch we r h k =
    let w = h (ground (arith, k)) in
    record { there = w.there; filed = w.filed; new = w.new; kept = w.kept; counted = w.counted }

-- What a client finds that opens the file of a log again: the operations that were there before and,
-- after them, those that the call counted, and all of the batch among them, so that the batch can be
-- handed over again, with whatever errors of the file, and nothing is written.
abbrev pub Recovers : AckedLog → List StagedOp → ℕ → Option AckedLog → Type 0
Recovers a batch wrote none = ⊥
Recovers a batch wrote (some b) =
    (new : List StagedOp) × (b.ops ≡ a.ops ++ new)
    × (wrote ≡ length new)
    × ((write_error : StagedOp → Option Cut) (sync_ok : Bool)
        → append_all write_error sync_ok batch b ≡ (true, 0, b))

append_all-there :
    (write_error : StagedOp → Option Cut) (sync_ok : Bool) (batch : List StagedOp) (a : AckedLog)
    → AreThere a.ops batch
    → append_all write_error sync_ok batch a ≡ (true, 0, a)
unfolding append_all
append_all-there write_error sync_ok batch a h = rw (append_each-there write_error batch a h) refl

-- A client whose log holds the operations of its file, and which crashes after `AppendAll` has
-- returned without an error, opens the file again and finds the operations that were there before
-- and, after them, as many as the call counted. When it hands over the same batch again, since it
-- crashed before it dropped the batch from its staged log, nothing is written.
pub append_all-Recovers :
    (write_error : StagedOp → Option Cut) (sync_ok : Bool) (batch : List StagedOp) (a : AckedLog)
    → IsFiled a
    → (append_all write_error sync_ok batch a).0 ≡ true
    → Recovers a batch
        (append_all write_error sync_ok batch a).1
        (open_acked (append_all write_error sync_ok batch a).2.file)
unfolding append_all open_acked
append_all-Recovers write_error sync_ok batch a f h =
    let w =
      after_sync-Holds sync_ok a batch write_error (append_each write_error batch a)
        (append_each-Holds write_error batch a f) h in
    rw w.filed (w.new, w.kept, w.counted, (λ we ok. append_all-there we ok batch _ w.there))
