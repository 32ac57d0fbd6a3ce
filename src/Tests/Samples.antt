-- ===== src/Tests/Samples.antt =====
-- The operations and the stand-ins for foreign code that the tests use.
use leyline.Base.{List, String, Text, [], codes, false, if◌then◌else◌, none, some, text_eq, ℕ, ◌∷◌}
use leyline.Base.Int.{pos}
use leyline.Protocol.Op.{Hash, Op, op_delete, op_rename, op_write}
use leyline.Merge.Hunks.{Diff, diff_delete, diff_equal, diff_insert}
use leyline.ServerStage.{PathState, gone}

abbrev pub write_op : ℕ → String → String → Op
write_op n path content = record {
  seq = n;
  type = op_write;
  path = codes path;
  from = [];
  to = [];
  data_bytes = some (codes content);
  binary = false;
  pre_hash = none;
  ts = pos 7;
  author = codes "ann";
}

abbrev pub delete_op : ℕ → String → Op
delete_op n path = record {
  seq = n;
  type = op_delete;
  path = codes path;
  from = [];
  to = [];
  data_bytes = none;
  binary = false;
  pre_hash = some (codes "old");
  ts = pos 7;
  author = codes "ann";
}

abbrev pub rename_op : ℕ → String → String → Op
rename_op n from to = record {
  seq = n;
  type = op_rename;
  path = [];
  from = codes from;
  to = codes to;
  data_bytes = none;
  binary = false;
  pre_hash = some (codes "old");
  ts = pos 7;
  author = codes "ann";
}

-- A hash that tells all texts apart.
abbrev pub same_bytes : Text → Hash
same_bytes d = d

-- A committed tree without files.
abbrev pub no_head : Text → PathState
no_head p = gone

-- A line diff that replaces the whole text.
unfoldable pub whole_diff : Text → Text → List Diff
whole_diff a b =
    if text_eq a b
    then record { type = diff_equal; text = a } ∷ []
    else record { type = diff_delete; text = a } ∷ record { type = diff_insert; text = b } ∷ []
