-- ===== src/Merge/Classify.antt =====
-- pkg/merge/classify.go: what becomes of a catchup operation and a staged one on the same path.
pub mod Content
pub mod Route
pub mod Rebase
pub mod Validity
pub mod Outcome
use leyline.Base.{Option, Text, [], false, none}
use leyline.Protocol.Op.{Hash, Op, OpType}

pub data DiskAction : Type 0 where
  action_apply action_auto_merge action_write_conflict action_write_sidecar : DiskAction
  action_apply_rename action_apply_delete action_noop : DiskAction

pub data LogKind : Type 0 where
  kind_overlap kind_delete_vs_edit kind_edit_vs_delete kind_rename_collision : LogKind
  kind_binary kind_case_collision kind_none : LogKind

pub data LogFormat : Type 0 where
  format_callout format_comment format_marker format_sidecar format_none : LogFormat

pub record Context : Type 0 where
  pub base : Text
  pub diff_mode : Text
  pub server_keyname : Text
  pub client_keyname : Text
  pub ts : Text

-- `none` is a nil slice or a nil pointer.
pub record Decision : Type 0 where
  pub disk_action : DiskAction
  pub disk_content : Option Text
  pub sidecar_path : Text
  pub sidecar_content : Option Text
  pub log_kind : LogKind
  pub log_format : LogFormat
  pub replacement_staged : Option Op

-- A composite literal with a disk action alone.
unfoldable pub decision : DiskAction → Decision
decision action = record {
  disk_action = action;
  disk_content = none;
  sidecar_path = [];
  sidecar_content = none;
  log_kind = kind_none;
  log_format = format_none;
  replacement_staged = none;
}

-- `&protocol.Op{Seq: staged.Seq, Type: …, Path: …, Data: …, PreHash: …, TS: staged.TS}`
unfoldable pub rebased : OpType → Op → Text → Option Text → Option Hash → Op
rebased t staged path data_bytes pre_hash = record {
  seq = staged.seq;
  type = t;
  path = path;
  from = [];
  to = [];
  data_bytes = data_bytes;
  binary = false;
  pre_hash = pre_hash;
  ts = staged.ts;
  author = [];
}
