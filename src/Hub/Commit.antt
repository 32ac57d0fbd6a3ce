-- ===== src/Hub/Commit.antt =====
-- internal/server/hub/handlers.go, `commitStage` and `handleFlush`: the commit of a stage.
pub mod Settled
pub mod Announced
use leyline.Base.{
  Bool, List, Option, Text, any, codes, false, if◌then◌else◌, is_empty, keep, length, none, not,
  some, text_eq, ◌++◌, ◌==◌, ◌||◌,
}
use leyline.Base.Dict
use leyline.Protocol.Op.{Hash, Op, OpType, op_rename}
use leyline.ServerStage.{Stage, reset}
use leyline.ServerStage.IdemCache.{IdemCache}
use leyline.Hub.Sizes.{apply_sizes}
use leyline.Hub.Ops.{primary_path}
use leyline.Hub.State.{StuckEntry, VaultState, WalEntry}

-- How `TruncateClient` ends: a failure before the rename of the compacted file leaves the log as it
-- was, and one after it does not.
pub data Truncation : Type 0 where
  truncated failed_before failed_after : Truncation

-- What a commit comes to: the hash that the broadcast announces, and the operations.
pub data CommitResult : Type 0 where
  nothing_staged commit_error truncate_error : CommitResult
  committed : Hash → List Op → CommitResult

pub record Commit : Type 0 where
  pub vault : VaultState
  pub result : CommitResult

-- `TruncateClient` on the entries of the log.
unfoldable pub truncate_client : Text → List WalEntry → List WalEntry
truncate_client client_id log = keep (λ e. not (text_eq e.client_id client_id)) log

abbrev truncate_wal : Text → Option (List WalEntry) → Option (List WalEntry)
truncate_wal client_id none = none
truncate_wal client_id (some log) = some (truncate_client client_id log)

clears_dest : OpType → Op → Text → Bool
clears_dest op_rename op path = text_eq op.to path
clears_dest t op path = false

-- The paths in `cleared`.
is_cleared : List Op → Text → Bool
unfolding clears_dest
is_cleared ops path = any (λ op. text_eq (primary_path op) path || clears_dest op.type op path) ops

unfoldable pub clear_rings : List Op → List StuckEntry → List StuckEntry
unfolding is_cleared
clear_rings ops es = keep (λ e. not (is_cleared ops e.path)) es

-- `git_commit` is `GitStore.CommitOps`, which writes the tree and returns the new HEAD, or fails.
module _ (git_commit : List Op → Text → Option Hash) (truncation : Truncation)
    (persist_error : Bool) (vault_id : Text) where
  author_of : Stage → Text
  author_of st = if is_empty st.keyname then codes "replayed-" ++ vault_id else st.keyname

  -- `Persist` clears `dirty`.
  persist : IdemCache → IdemCache
  persist cache = if persist_error then cache else record cache { dirty = false }

  settle : VaultState → Stage → Hash → Commit
  unfolding persist clear_rings
  settle vs st head = record {
    vault = record vs {
      wal = truncate_wal st.client_id vs.wal;
      idem_cache = persist vs.idem_cache;
      sizes = apply_sizes vs.sizes st.ops;
      stages = Dict.put vs.stages st.client_id (reset st head);
      head_hash = head;
      stuck_buf = clear_rings st.ops vs.stuck_buf;
    };
    result = committed head st.ops;
  }

  -- A truncation that fails, where there is a log: `left` is the state of the vault then.
  without_truncation : VaultState → Stage → Hash → VaultState → Option (List WalEntry) → Commit
  unfolding settle
  without_truncation vs st head left none = settle vs st head
  without_truncation vs st head left (some log) = record { vault = left; result = truncate_error }

  -- After the commit, the truncation, unless there is no log.
  after_commit : VaultState → Stage → Hash → Truncation → Commit
  unfolding without_truncation
  after_commit vs st head truncated = settle vs st head
  after_commit vs st head failed_before = without_truncation vs st head vs vs.wal
  after_commit vs st head failed_after =
      without_truncation vs st head (record vs { wal = truncate_wal st.client_id vs.wal }) vs.wal

  commit_found : VaultState → Stage → Option Hash → Commit
  unfolding after_commit
  commit_found vs st none = record { vault = vs; result = commit_error }
  commit_found vs st (some head) = after_commit vs st head truncation

  unfoldable pub commit_stage : VaultState → Stage → Commit
  unfolding commit_found author_of
  commit_stage vs st =
      if length st.ops == 0
      then record { vault = vs; result = nothing_staged }
      else commit_found vs st (git_commit st.ops (author_of st))
