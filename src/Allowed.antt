-- ===== src/Allowed.antt =====
-- internal/server/allowed/allowed.go: which files a vault syncs, by the patterns and the size limits
-- of its file .leyline/vaultconfig/allowed. A limit that is 0 or negative in the source is 0 here.
pub mod Size
use leyline.Base.{Bool, List, Text, any, false, if◌then◌else◌, ltb, not, true, ℕ, ◌&&◌}
use leyline.Merge.Format.Sidecar.{base_name}

pub record Rules : Type 0 where
  pub sync : List Text
  pub history : List Text
  pub sync_limit : ℕ
  pub history_limit : ℕ

-- `glob` is filepath.Match of a pattern and a name, where a malformed pattern matches nothing.
module _ (glob : Text → Text → Bool) where
  unfoldable pub matches_any : Text → List Text → Bool
  matches_any rel_path patterns = any (λ pattern. glob pattern (base_name rel_path)) patterns

  unfoldable pub can_sync : Rules → Text → ℕ → Bool
  unfolding matches_any
  can_sync r rel_path size =
      if not (matches_any rel_path r.sync)
      then false
      else if ltb 0 r.sync_limit && ltb r.sync_limit size
      then false
      else true

  unfoldable pub has_history : Rules → Text → ℕ → Bool
  unfolding matches_any
  has_history r rel_path size =
      if not (matches_any rel_path r.history)
      then false
      else if ltb 0 r.history_limit && ltb r.history_limit size
      then false
      else true
