-- ===== src/Hub/Recovery.antt =====
-- internal/server/hub/hub.go: the stages that the server rebuilds from the write-ahead log when it
-- hydrates a vault.
pub mod Durable
pub mod Kept
use leyline.Base.{
  Bool, List, Option, Text, [], false, if◌then◌else◌, is_none, none, not, some, true, ℕ, ◌∷◌,
}
use leyline.Base.Dict
use leyline.Protocol.Op.{Hash, Op, OpType, op_delete, op_rename, op_write, other, validate_op}
use leyline.Protocol.PathUtil.Validate.{validate_path}
use leyline.ServerStage.{Stage, append, new_stage}
use leyline.ServerStage.IdemCache.{accept}
use leyline.Hub.State.{VaultState, WalEntry}

module _ (is_nfc : Text → Bool) where
  has_good_paths : OpType → Op → Bool
  has_good_paths op_write op = is_none (validate_path is_nfc op.path)
  has_good_paths op_delete op = is_none (validate_path is_nfc op.path)
  has_good_paths op_rename op =
      if not (is_none (validate_path is_nfc op.from))
      then false
      else is_none (validate_path is_nfc op.to)
  has_good_paths (other t) op = true

  -- The operations that the replay does not drop.
  unfoldable pub is_replayable : Op → Bool
  unfolding has_good_paths
  is_replayable op = if not (is_none (validate_op op)) then false else has_good_paths op.type op

  -- `now` is the reading of the clock at the append and the accept of an operation.
  module _ (now : Op → ℕ) where
    stage_or_replayed : Text → Hash → Option Stage → Stage
    stage_or_replayed client_id head none = new_stage client_id [] head
    stage_or_replayed client_id head (some st) = st

    replay_entry : WalEntry → VaultState → VaultState
    unfolding stage_or_replayed
    replay_entry e vs = record vs {
      stages = Dict.put vs.stages e.client_id (
          append (stage_or_replayed e.client_id vs.head_hash (Dict.get vs.stages e.client_id)) e.op
            (now e.op));
      idem_cache = (accept vs.idem_cache e.client_id e.op.seq (now e.op)).1;
    }

    -- The loop over the entries of the log.
    unfoldable pub replay_log : List WalEntry → VaultState → VaultState
    unfolding replay_entry
    replay_log [] vs = vs
    replay_log (e ∷ es) vs =
        let kept = replay_log es (replay_entry e vs) in
        let dropped = replay_log es vs in if is_replayable e.op then kept else dropped
