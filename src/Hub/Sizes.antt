-- ===== src/Hub/Sizes.antt =====
-- internal/server/hub/sizes.go: the sizes of the files of a vault, and the test whether a batch of
-- operations would pass a cap. Sizes are lengths of payloads held in memory, so an int64 does not
-- wrap; `Limits` shows that no subtraction goes below 0.
pub mod Limits
use leyline.Base.{
  List, Option, Text, [], if◌then◌else◌, length, ltb, none, some, ℕ, ◌&&◌, ◌+◌, ◌-◌, ◌==◌, ◌∷◌,
}
use leyline.Base.Dict
use leyline.Protocol.Op.{Op, OpType, op_delete, op_rename, op_write, other}
use leyline.ServerStage.{payload}

pub record SizeTracker : Type 0 where
  pub sizes : List (Text × ℕ)
  pub total_bytes : ℕ

unfoldable pub new_size_tracker : SizeTracker
new_size_tracker = record { sizes = []; total_bytes = 0 }

-- What an entry, if there is one, counts.
abbrev pub size_or_zero : Option ℕ → ℕ
size_or_zero none = 0
size_or_zero (some old) = old

unfoldable pub set_size : SizeTracker → Text → ℕ → SizeTracker
set_size s path size = record {
  sizes = Dict.put s.sizes path size;
  total_bytes = s.total_bytes - size_or_zero (Dict.get s.sizes path) + size;
}

delete_found : SizeTracker → Text → Option ℕ → SizeTracker
delete_found s path none = s
delete_found s path (some old) = record {
  sizes = Dict.remove s.sizes path;
  total_bytes = s.total_bytes - old;
}

unfoldable pub delete_size : SizeTracker → Text → SizeTracker
unfolding delete_found
delete_size s path = delete_found s path (Dict.get s.sizes path)

rename_found : SizeTracker → Text → Text → Option ℕ → SizeTracker
rename_found s from to none = s
rename_found s from to (some size) = set_size (delete_size s from) to size

unfoldable pub rename_size : SizeTracker → Text → Text → SizeTracker
unfolding rename_found
rename_size s from to = rename_found s from to (Dict.get s.sizes from)

-- The `switch` of `Apply`.
unfoldable pub apply_size : OpType → Op → SizeTracker → SizeTracker
apply_size op_write op s = set_size s op.path (length (payload op.data_bytes))
apply_size op_delete op s = delete_size s op.path
apply_size op_rename op s = rename_size s op.from op.to
apply_size (other t) op s = s

-- `Apply`
unfoldable pub apply_sizes : SizeTracker → List Op → SizeTracker
apply_sizes s [] = s
apply_sizes s (op ∷ ops) = apply_sizes (apply_size op.type op s) ops

-- The local variables of `WouldExceed`. A shadow that is not present is `none`; its size, 0, is
-- never read.
pub record Projection : Type 0 where
  pub shadowed : List (Text × Option ℕ)
  pub proj_count : ℕ
  pub proj_bytes : ℕ

-- `projCount++` for a path without an entry.
abbrev pub absent_count : Option ℕ → ℕ
absent_count none = 1
absent_count (some old) = 0

module _ (s : SizeTracker) where
  shadow_or : Text → Option (Option ℕ) → Option ℕ
  shadow_or path none = Dict.get s.sizes path
  shadow_or path (some shadow) = shadow

  -- The closure `lookup`: `none` is absence.
  unfoldable pub lookup_size : Projection → Text → Option ℕ
  unfolding shadow_or
  lookup_size p path = shadow_or path (Dict.get p.shadowed path)

  -- The arm of a write, and the second half of that of a rename.
  unfoldable pub project_write : Projection → Text → ℕ → Projection
  project_write p path size =
      let old = lookup_size p path in
      record {
        shadowed = Dict.put p.shadowed path (some size);
        proj_count = p.proj_count + absent_count old;
        proj_bytes = p.proj_bytes - size_or_zero old + size;
      }

  project_delete_found : Projection → Text → Option ℕ → Projection
  project_delete_found p path none = p
  project_delete_found p path (some old) = record {
    shadowed = Dict.put p.shadowed path none;
    proj_count = p.proj_count - 1;
    proj_bytes = p.proj_bytes - old;
  }

  -- The arm of a delete, and the first half of that of a rename.
  unfoldable pub project_delete : Projection → Text → Projection
  unfolding project_delete_found
  project_delete p path = project_delete_found p path (lookup_size p path)

  project_rename_found : Projection → Text → Text → Option ℕ → Projection
  project_rename_found p from to none = p
  project_rename_found p from to (some old) = project_write (project_delete p from) to old

  unfoldable pub project : OpType → Op → Projection → Projection
  unfolding project_rename_found
  project op_write op p = project_write p op.path (length (payload op.data_bytes))
  project op_delete op p = project_delete p op.path
  project op_rename op p = project_rename_found p op.from op.to (lookup_size p op.from)
  project (other t) op p = p

  unfoldable pub project_all : List Op → Projection → Projection
  project_all [] p = p
  project_all (op ∷ ops) p = project_all ops (project op.type op p)

  abbrev pub start_projection : Projection
  start_projection = record {
    shadowed = [];
    proj_count = length s.sizes;
    proj_bytes = s.total_bytes;
  }

-- The two reasons that `WouldExceed` gives.
pub data CapReason : Type 0 where
  file_count_limit total_size_limit : CapReason

-- `none` is the answer `false, ""`. A cap below 0 disables its axis, as 0 does.
unfoldable pub would_exceed : SizeTracker → List Op → ℕ → ℕ → Option CapReason
unfolding project_all project
would_exceed s ops max_files max_bytes =
    if max_files == 0 && max_bytes == 0
    then none
    else let p = project_all s ops (start_projection s) in
      if ltb 0 max_files && ltb max_files p.proj_count
      then some file_count_limit
      else if ltb 0 max_bytes && ltb max_bytes p.proj_bytes
      then some total_size_limit
      else none
