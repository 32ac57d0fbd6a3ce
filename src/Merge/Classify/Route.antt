-- ===== src/Merge/Classify/Route.antt =====
-- Classify and classifyWriteWrite of pkg/merge/classify.go.
use leyline.Base.{
  Bool, List, Option, Text, [], false, if◌then◌else◌, none, not, some, text_eq, true, ◌&&◌, ◌||◌,
}
use leyline.Protocol.Op.{Hash, Op, OpType, op_delete, op_rename, op_write, other}
use leyline.Merge.Hunks.{Diff}
use leyline.Merge.ThreeWay.{three_way_merge}
use leyline.Merge.Format.Sidecar.{sidecar_path}
use leyline.Merge.Classify.{
  Context, Decision, DiskAction, LogFormat, LogKind, action_apply, action_apply_delete,
  action_apply_rename, action_auto_merge, action_noop, action_write_conflict, action_write_sidecar,
  decision, format_none, format_sidecar, kind_binary, kind_delete_vs_edit, kind_edit_vs_delete,
  kind_none, kind_overlap, kind_rename_collision, rebased,
}
use leyline.Merge.Classify.Content.{
  bytes_of, choose_format_for_path, conflict_content, delete_vs_edit_content, is_text,
}

-- The decision that keeps the staged bytes beside the file, at the sidecar of `path`.
unfoldable pub set_aside : DiskAction → Option Text → LogKind → Text → Op → Context → Decision
set_aside action disk_content kind path staged ctx = record {
  disk_action = action;
  disk_content = disk_content;
  sidecar_path = sidecar_path path ctx.ts;
  sidecar_content = staged.data_bytes;
  log_kind = kind;
  log_format = format_sidecar;
  replacement_staged =
      some (rebased op_write staged (sidecar_path path ctx.ts) staged.data_bytes none);
}

-- The first `switch`, for a nil `staged`.
unfoldable pub classify_unstaged : OpType → Op → Decision
classify_unstaged op_write catchup = record (decision action_apply) {
  disk_content = catchup.data_bytes;
}
classify_unstaged op_delete catchup = decision action_apply_delete
classify_unstaged op_rename catchup = decision action_apply_rename
classify_unstaged (other t) catchup = decision action_noop

-- `stagedPath` of a rename catchup.
unfoldable pub staged_path : OpType → Op → Text
staged_path op_rename staged = staged.from
staged_path t staged = staged.path

unfoldable pub is_rename : OpType → Bool
is_rename op_rename = true
is_rename t = false

unfoldable pub is_sidecar : LogFormat → Bool
is_sidecar format_sidecar = true
is_sidecar f = false

unfoldable pub at_dest : OpType → Op → Op → Bool
at_dest t catchup staged =
    text_eq (staged_path t staged) catchup.to || (is_rename t && text_eq staged.to catchup.to)

unfoldable pub at_source : OpType → Op → Op → Bool
at_source t catchup staged = text_eq (staged_path t staged) catchup.from

-- `hash_bytes` is `HashBytes` and `diff` is the line diff of go-diff.
module _ (hash_bytes : Text → Hash) (diff : Text → Text → List Diff) where
  -- The content that the file gets, for a merge or for markers, and the staged write of it.
  unfoldable pub rewrite : DiskAction → Text → LogKind → LogFormat → Op → Op → Decision
  rewrite action content kind format catchup staged = record {
    disk_action = action;
    disk_content = some content;
    sidecar_path = [];
    sidecar_content = none;
    log_kind = kind;
    log_format = format;
    replacement_staged = some (
        rebased op_write staged staged.path (some content)
          (some (hash_bytes (bytes_of catchup.data_bytes))));
  }

  -- The end of `classifyWriteWrite`, from its `switch` on the format.
  unfoldable pub write_overlap : Option Text → LogFormat → Op → Op → Context → Decision
  write_overlap none format catchup staged ctx =
      set_aside action_apply catchup.data_bytes kind_overlap catchup.path staged ctx
  write_overlap (some content) format catchup staged ctx =
      rewrite action_write_conflict content kind_overlap format catchup staged

  unfoldable pub classify_overlap : Op → Op → Context → Decision
  unfolding write_overlap
  classify_overlap catchup staged ctx =
      let format = choose_format_for_path catchup.path ctx.diff_mode in
      write_overlap
        (conflict_content diff format catchup.path (bytes_of catchup.data_bytes)
          (bytes_of staged.data_bytes) ctx)
        format catchup staged ctx

  unfoldable pub classify_write_write : Op → Op → Context → Decision
  unfolding classify_overlap
  classify_write_write catchup staged ctx =
      let res =
        three_way_merge diff ctx.base (bytes_of catchup.data_bytes) (bytes_of staged.data_bytes) in
      let overlap = classify_overlap catchup staged ctx in
      if catchup.binary
        || staged.binary
        || not (is_text catchup.data_bytes)
        || not (is_text staged.data_bytes)
      then set_aside action_apply catchup.data_bytes kind_binary catchup.path staged ctx
      else if not res.has_conflict
      then rewrite action_auto_merge res.content kind_none format_none catchup staged
      else overlap

  -- The nested `switch`, on the type of the catchup operation and of the staged one.
  unfoldable pub classify_pair : OpType → OpType → Op → Op → Context → Decision
  unfolding classify_write_write
  classify_pair op_write op_write catchup staged ctx = classify_write_write catchup staged ctx
  classify_pair op_write op_delete catchup staged ctx = record {
    disk_action = action_write_sidecar;
    disk_content = none;
    sidecar_path = sidecar_path catchup.path ctx.ts;
    sidecar_content = catchup.data_bytes;
    log_kind = kind_edit_vs_delete;
    log_format = format_sidecar;
    replacement_staged = some (
        rebased op_delete staged staged.path none
          (some (hash_bytes (bytes_of catchup.data_bytes))));
  }
  classify_pair op_write op_rename catchup staged ctx =
      set_aside action_apply catchup.data_bytes kind_rename_collision catchup.path staged ctx
  classify_pair op_delete op_write catchup staged ctx =
      let format = choose_format_for_path catchup.path ctx.diff_mode in
      let content = delete_vs_edit_content staged.data_bytes catchup.path ctx in
      let aside = set_aside action_write_sidecar none kind_delete_vs_edit catchup.path staged ctx in
      if staged.binary || not (is_text staged.data_bytes) || is_sidecar format
      then aside
      else record {
        disk_action = action_write_conflict;
        disk_content = some content;
        sidecar_path = [];
        sidecar_content = none;
        log_kind = kind_delete_vs_edit;
        log_format = format;
        replacement_staged = some (rebased op_write staged catchup.path (some content) none);
      }
  classify_pair op_delete op_delete catchup staged ctx = decision action_noop
  classify_pair op_delete op_rename catchup staged ctx = record (decision action_noop) {
    log_kind = kind_rename_collision;
    replacement_staged = some (rebased op_write staged staged.to staged.data_bytes none);
  }
  classify_pair op_rename op_write catchup staged ctx =
      if at_dest op_write catchup staged && not (at_source op_write catchup staged)
      then set_aside action_apply_rename none kind_rename_collision catchup.to staged ctx
      else record (decision action_apply_rename) {
        replacement_staged = some (rebased op_write staged catchup.to staged.data_bytes none);
      }
  classify_pair op_rename op_rename catchup staged ctx =
      if text_eq catchup.from staged.from
      then record (decision action_apply_rename) {
        log_kind = if text_eq catchup.to staged.to then kind_none else kind_rename_collision;
      }
      else decision action_noop
  classify_pair op_rename op_delete catchup staged ctx = record (decision action_apply_rename) {
    replacement_staged = some (rebased op_delete staged catchup.to none staged.pre_hash);
  }
  classify_pair s t catchup staged ctx = decision action_noop

  unfoldable pub classify : Op → Option Op → Context → Decision
  unfolding classify_unstaged classify_pair
  classify catchup none ctx = classify_unstaged catchup.type catchup
  classify catchup (some staged) ctx = classify_pair catchup.type staged.type catchup staged ctx
