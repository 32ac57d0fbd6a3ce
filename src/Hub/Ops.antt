-- ===== src/Hub/Ops.antt =====
-- internal/server/hub/handlers.go: the helpers of the push handler on single operations and on the
-- sequence numbers of a batch.
pub mod Acked
use leyline.Base.{
  Bool, List, Option, Text, [], codes, false, if◌then◌else◌, leb, ltb, none, not, some, text_eq,
  true, ℕ, ◌&&◌, ◌||◌, ◌∷◌,
}
use leyline.Protocol.Op.{Hash, Op, OpType, op_delete, op_rename, op_write, other}
use leyline.Protocol.PathUtil.{is_vault_config_path}
use leyline.ServerStage.{PathState}

unfoldable pub path_of : OpType → Op → Text
path_of op_rename op = op.from
path_of op_write op = op.path
path_of op_delete op = op.path
path_of (other t) op = op.path

unfoldable pub primary_path : Op → Text
unfolding path_of
primary_path op = path_of op.type op

abbrev pub access_control_plane_path : Text
access_control_plane_path = codes ".leyline/vaultconfig/access"

-- `""` is none.
access_path_of : OpType → Op → Option Text
access_path_of op_rename op =
    if text_eq op.from access_control_plane_path
    then some op.from
    else if text_eq op.to access_control_plane_path
    then some op.to
    else none
access_path_of t op = if text_eq op.path access_control_plane_path then some op.path else none

unfoldable pub access_op_path : Op → Option Text
unfolding access_path_of
access_op_path op = access_path_of op.type op

-- The second test of `opTouchesVaultConfig`.
unfoldable pub renames_vault_config : OpType → Op → Bool
renames_vault_config op_rename op = is_vault_config_path op.from || is_vault_config_path op.to
renames_vault_config t op = false

unfoldable pub op_touches_vault_config : Op → Bool
unfolding renames_vault_config
op_touches_vault_config op = is_vault_config_path op.path || renames_vault_config op.type op

unfoldable pub pre_hash_matches : Option Hash → PathState → Bool
pre_hash_matches none actual = not actual.present
pre_hash_matches (some expected) actual = actual.present && text_eq expected actual.hash

-- `ops[cutoff:]`: the tail from the first operation above `highest`.
unfoldable pub from_cutoff : List Op → ℕ → List Op
from_cutoff [] highest = []
from_cutoff (op ∷ ops) highest = if ltb highest op.seq then op ∷ ops else from_cutoff ops highest

-- The check of the tail.
unfoldable pub is_rising : List Op → ℕ → Bool
is_rising [] prev = true
is_rising (op ∷ ops) prev = not (leb op.seq prev) && is_rising ops op.seq

-- `none` is the error "out-of-order op seq".
unfoldable pub filter_acked : List Op → ℕ → Option (List Op)
unfolding from_cutoff is_rising
filter_acked ops highest =
    let tail = from_cutoff ops highest in if is_rising tail highest then some tail else none
