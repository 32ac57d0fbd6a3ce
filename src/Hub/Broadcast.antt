-- ===== src/Hub/Broadcast.antt =====
-- internal/server/hub/handlers.go, `broadcastOps` and `filterVisibleOps`, with the admission test of
-- internal/server/sync/walker.go: what the other clients learn of a commit.
pub mod Visible
use leyline.Base.{
  Bool, List, Text, [], any, false, if◌then◌else◌, keep, ltb, not, text_eq, true, ℕ, ◌&&◌, ◌∷◌,
}
use leyline.Protocol.Op.{Op}
use leyline.Protocol.Caps.{has, vault_admin}
use leyline.Protocol.PathUtil.{is_syncable_control_plane_path}
use leyline.Allowed.{Rules, can_sync}
use leyline.Hub.Ops.{op_touches_vault_config, primary_path}
use leyline.Hub.State.{Client}

-- `glob` is filepath.Match, and `now` the reading of the clock.
module _ (glob : Text → Text → Bool) (now : ℕ) where
  unfoldable pub can_sync_control_plane : Rules → Text → ℕ → Bool
  can_sync_control_plane r path size =
      if is_syncable_control_plane_path path
      then if ltb 0 r.sync_limit && ltb r.sync_limit size then false else true
      else can_sync glob r path size

  -- The part of a commit that clients learn about, `base`.
  unfoldable pub broadcast_base : Rules → List Op → List Op
  broadcast_base r ops = keep (λ op. can_sync_control_plane r (primary_path op) 0) ops

  unfoldable pub filter_visible_ops : Client → List Op → List Op
  filter_visible_ops c ops =
      if has c.caps now vault_admin then ops else keep (λ op. not (op_touches_vault_config op)) ops

  -- `baseNoVaultConfig`
  without_vault_config : List Op → List Op
  without_vault_config base =
      if any op_touches_vault_config base
      then keep (λ op. not (op_touches_vault_config op)) base
      else base

  -- The operations of the message to a client.
  out_for : Client → List Op → List Op
  unfolding without_vault_config
  out_for c base = if has c.caps now vault_admin then base else without_vault_config base

  -- The messages, each to a client other than `except`.
  unfoldable pub send_all : Text → List Op → List Client → List (Text × List Op)
  unfolding out_for
  send_all except base [] = []
  send_all except base (c ∷ cs) =
      let rest = send_all except base cs in
      if text_eq c.client_id except then rest else (c.client_id, out_for c base) ∷ rest

  unfoldable pub broadcast_ops : Rules → Text → List Op → List Client → List (Text × List Op)
  unfolding broadcast_base send_all
  broadcast_ops r except ops clients = send_all except (broadcast_base r ops) clients
