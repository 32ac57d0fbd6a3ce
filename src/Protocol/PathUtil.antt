-- ===== src/Protocol/PathUtil.antt =====
-- protocol/pathutil/validate.go: the names of vaults and the paths that a client may name, on a
-- system whose separator is the slash.
pub mod Validate
use leyline.Base.{
  Bool, List, Option, Text, [], all, any, codes, false, has_prefix, if◌then◌else◌, is_empty, leb,
  length, ltb, none, not, some, split, text_eq, ℕ, ◌&&◌, ◌==◌, ◌||◌, ◌∷◌,
}

abbrev pub slash : ℕ
slash = 47

abbrev pub dot : ℕ
dot = 46

unfoldable pub path_components : Text → List Text
path_components p = split p slash

unfoldable pub is_hidden : Text → Bool
unfolding path_components
is_hidden p = any (λ part. has_prefix part (codes ".")) (path_components p)

unfoldable pub is_control_plane_path : Text → Bool
is_control_plane_path p = text_eq p (codes ".leyline") || has_prefix p (codes ".leyline/")

unfoldable pub is_public_control_plane_path : Text → Bool
is_public_control_plane_path p = text_eq p (codes ".leyline/README.md")

unfoldable pub is_vault_config_path : Text → Bool
is_vault_config_path p =
    text_eq p (codes ".leyline/vaultconfig") || has_prefix p (codes ".leyline/vaultconfig/")

unfoldable pub is_syncable_control_plane_path : Text → Bool
unfolding is_public_control_plane_path is_vault_config_path
is_syncable_control_plane_path p = is_public_control_plane_path p || is_vault_config_path p

-- The classes of the expression ^[a-z0-9][a-z0-9-]*$.
abbrev pub is_vault_start : ℕ → Bool
is_vault_start c = (leb b'a' c && leb c b'z') || (leb b'0' c && leb c b'9')

abbrev pub is_vault_byte : ℕ → Bool
is_vault_byte c = is_vault_start c || c == b'-'

unfoldable pub matches_vault_id : Text → Bool
matches_vault_id [] = false
matches_vault_id (c ∷ id) = is_vault_start c && all is_vault_byte id

abbrev pub max_vault_id_len : ℕ
max_vault_id_len = 64

-- The messages of `ValidateVaultID`.
pub data InvalidVaultId : Type 0 where
  vault_id_required vault_id_too_long vault_id_bad_format : InvalidVaultId

-- `none` is a nil error.
unfoldable pub validate_vault_id : Text → Option InvalidVaultId
unfolding matches_vault_id
validate_vault_id id =
    if is_empty id
    then some vault_id_required
    else if ltb max_vault_id_len (length id)
    then some vault_id_too_long
    else if not (matches_vault_id id)
    then some vault_id_bad_format
    else none
