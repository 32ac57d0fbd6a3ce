-- ===== src/Tests/Client.antt =====
-- Tests of the files of a client.
use leyline.Base.{List, Option, [], codes, false, none, refl, some, text_eq, true, ℕ, ◌∷◌, ◌≡◌}
use leyline.Base.Dict
use leyline.Sync.Enqueue.{StagedOp}
use leyline.ClientStage.Rows.{Cut, not_replaced, replaced, some_bytes, whole_file}
use leyline.ClientStage.Manifest.{
  Manifest, ManifestEntry, add_row, append_open, append_row, compact, delete_entry, open_manifest,
  open_rows, panics, put_entry, ready, row_cut, synced, take_row, take_rows,
}
use leyline.ClientStage.Manifest.Calls.{
  Call, OpensAs, call, calls, calls-reopen, compact_call, delete_call, ideals, put_call, view_of,
}
use leyline.ClientStage.Acked.{AckedLog, append_all, append_op, has_seq, open_acked}
use leyline.ClientStage.Acked.Replay.{Recovers, append_all-Recovers}
use leyline.Tests.Samples.{write_op}

abbrev entry : ManifestEntry
entry = record { path = []; hash = codes "h"; binary = false; deleted = false }

abbrev empty_manifest : Manifest
empty_manifest = record { live = []; rows = 0; file = whole_file []; writer = ready }

empty_manifest-opens : open_manifest (whole_file []) ≡ some empty_manifest
unfolding open_manifest open_rows take_rows
empty_manifest-opens = refl

-- The file is compacted at the third put, and the writer fails at the put of b.md, which does not
-- take effect, until the call of `Compact`.
abbrev some_calls : List Call
some_calls =
    put_call (synced replaced) (codes "a.md") entry
    ∷ put_call (synced replaced) (codes "a.md") entry
    ∷ put_call (synced replaced) (codes "a.md") entry
    ∷ put_call (row_cut some_bytes) (codes "b.md") entry
    ∷ put_call (synced replaced) (codes "b.md") entry
    ∷ compact_call replaced
    ∷ delete_call (synced not_replaced) (codes "c.md")
    ∷ put_call (synced replaced) (codes "d.md") entry
    ∷ []

rows-compacted : (calls empty_manifest some_calls).rows ≡ 3
unfolding call put_entry delete_entry append_row append_open add_row take_row compact Dict.put
    Dict.remove text_eq
rows-compacted = refl

calls-reopen_example :
    OpensAs
      (ideals empty_manifest some_calls (view_of empty_manifest))
      (open_manifest (calls empty_manifest some_calls).file)
calls-reopen_example = calls-reopen [] some_calls empty_manifest empty_manifest-opens refl

-- After a compaction that fails the next put dereferences nil.
put_entry-panics :
    (put_entry (synced replaced) (codes "a.md") entry (compact not_replaced empty_manifest).1).0
    ≡ panics
unfolding put_entry append_row compact
put_entry-panics = refl

-- After the write of a row that fails half way the file does not open.
open_manifest-torn :
    open_manifest (put_entry (row_cut some_bytes) (codes "a.md") entry empty_manifest).1.file ≡ none
unfolding put_entry append_row append_open open_manifest open_rows
open_manifest-torn = refl

abbrev row : ℕ → StagedOp
row n = record { op = write_op n "a.md" "x"; frozen = false; frozen_local_hash = none }

abbrev no_failure : StagedOp → Option Cut
no_failure s = none

abbrev acked : AckedLog
acked = record { ops = row 1 ∷ []; file = whole_file (row 1 ∷ []); is_open = true }

append_all-two : (append_all no_failure true (row 1 ∷ row 2 ∷ []) acked).1 ≡ 1
unfolding append_all has_seq
append_all-two = refl

append_all-ok : (append_all no_failure true (row 1 ∷ row 2 ∷ []) acked).0 ≡ true
unfolding append_all has_seq
append_all-ok = refl

-- The rows of two writes stand on one line, after the first has failed half way.
open_acked-torn :
    open_acked
      (append_op none true (append_op (some some_bytes) true acked (row 2)).1 (row 2)).1.file
    ≡ none
unfolding append_op open_acked
open_acked-torn = refl

append_all-Recovers_example :
    Recovers acked
      (row 1 ∷ row 2 ∷ [])
      (append_all no_failure true (row 1 ∷ row 2 ∷ []) acked).1
      (open_acked (append_all no_failure true (row 1 ∷ row 2 ∷ []) acked).2.file)
append_all-Recovers_example =
    append_all-Recovers no_failure true (row 1 ∷ row 2 ∷ []) acked refl append_all-ok
