-- ===== src/Hub/Gate.antt =====
-- internal/server/hub/handlers.go, `handlePushBatch`: the validation of the operations of a batch,
-- before the server looks at its state.
pub mod Admitted
use leyline.Base.{
  Bool, List, Option, Text, [], if◌then◌else◌, is_none, length, ltb, none, not, some, ◌&&◌, ◌||◌,
  ◌∷◌,
}
use leyline.Protocol.Op.{Op, OpType, op_delete, op_rename, op_write, other, validate_op}
use leyline.Protocol.PathUtil.{is_syncable_control_plane_path, is_vault_config_path}
use leyline.Protocol.PathUtil.Validate.{validate_path}
use leyline.ServerStage.{payload}
use leyline.Allowed.{Rules, can_sync}
use leyline.Hub.Ops.{access_op_path, primary_path}
use leyline.Hub.State.{ErrorCode, file_too_large, invalid_data, invalid_path, permission_denied}

-- What the loop makes of an operation: it goes on, it names the path in `filtered`, or it returns
-- with an error that counts against the client.
pub data OpVerdict : Type 0 where
  op_pass : OpVerdict
  op_filtered : Text → OpVerdict
  op_refused : ErrorCode → Text → OpVerdict

-- The end of the loop: an error, or the paths in `filtered`.
pub data Checked : Type 0 where
  refused : ErrorCode → Text → Checked
  passed : List Text → Checked

with_filtered : Text → Checked → Checked
with_filtered p (refused c path) = refused c path
with_filtered p (passed paths) = passed (p ∷ paths)

after_op : OpVerdict → Checked → Checked
unfolding with_filtered
after_op op_pass rest = rest
after_op (op_filtered p) rest = with_filtered p rest
after_op (op_refused c path) rest = refused c path

-- `glob` and `is_nfc` as for `can_sync` and `validate_path`; `is_admin` is `c.caps.Has(VaultAdmin)`.
module _ (glob : Text → Text → Bool) (is_nfc : Text → Bool) (is_admin : Bool) where
  -- The path that `ValidatePath` refuses.
  bad_path : OpType → Op → Option Text
  bad_path op_write op = if is_none (validate_path is_nfc op.path) then none else some op.path
  bad_path op_delete op = if is_none (validate_path is_nfc op.path) then none else some op.path
  bad_path op_rename op =
      if not (is_none (validate_path is_nfc op.from))
      then some op.from
      else if not (is_none (validate_path is_nfc op.to))
      then some op.to
      else none
  bad_path (other t) op = none

  -- The [sync] gate and the control-plane gate.
  sync_gate : Rules → OpType → Op → OpVerdict
  sync_gate r op_write op =
      if is_syncable_control_plane_path op.path
      then if is_vault_config_path op.path && not is_admin
        then op_refused permission_denied op.path
        else if ltb 0 r.sync_limit && ltb r.sync_limit (length (payload op.data_bytes))
        then op_refused file_too_large op.path
        else op_pass
      else if not (can_sync glob r op.path 0)
      then op_filtered op.path
      else if not (can_sync glob r op.path (length (payload op.data_bytes)))
      then op_filtered op.path
      else op_pass
  sync_gate r op_rename op =
      if (is_vault_config_path op.from || is_vault_config_path op.to) && not is_admin
      then op_refused permission_denied op.to
      else if is_syncable_control_plane_path op.to
      then op_pass
      else if not (can_sync glob r op.to 0)
      then op_filtered op.to
      else op_pass
  sync_gate r op_delete op =
      if is_vault_config_path op.path && not is_admin
      then op_refused permission_denied op.path
      else op_pass
  sync_gate r (other t) op = op_pass

  rules_gate : Option Rules → Op → OpVerdict
  unfolding sync_gate
  rules_gate none op = op_pass
  rules_gate (some r) op = sync_gate r op.type op

  access_gate : Option Rules → Op → Option Text → OpVerdict
  unfolding rules_gate
  access_gate rules op (some p) = op_filtered p
  access_gate rules op none = rules_gate rules op

  path_gate : Option Rules → Op → Option Text → OpVerdict
  unfolding access_gate
  path_gate rules op (some p) = op_refused invalid_path p
  path_gate rules op none = access_gate rules op (access_op_path op)

  -- One round of the loop.
  check_op : Option Rules → Op → OpVerdict
  unfolding path_gate bad_path
  check_op rules op =
      if not (is_none (validate_op op))
      then op_refused invalid_data (primary_path op)
      else path_gate rules op (bad_path op.type op)

  unfoldable pub check_ops : Option Rules → List Op → Checked
  unfolding check_op after_op
  check_ops rules [] = passed []
  check_ops rules (op ∷ ops) = after_op (check_op rules op) (check_ops rules ops)
