-- ===== src/Hub/Broadcast/Visible.antt =====
-- What the broadcast of a commit shows to a client.
use leyline.Base.{
  Bool, Bool-cases, List, Text, [], any, ap, arith, false, if◌then◌else◌, inl, inr, keep, not, refl,
  text_eq, ℕ, ◌∷◌, ◌≡◌,
}
use leyline.Protocol.Op.{Op}
use leyline.Allowed.{Rules}
use leyline.Hub.Ops.{op_touches_vault_config}
use leyline.Hub.State.{Client}
use leyline.Hub.Broadcast.{
  broadcast_base, broadcast_ops, filter_visible_ops, out_for, send_all, without_vault_config,
}

-- What each client but one is to be sent, by the filter of the catchup.
pub by_filter : ℕ → (Text → Text → Bool) → Text → List Op → List Client → List (Text × List Op)
by_filter now glob except base [] = []
by_filter now glob except base (c ∷ cs) =
    let rest = by_filter now glob except base cs in
    if text_eq c.client_id except
    then rest
    else (c.client_id, filter_visible_ops glob now c base) ∷ rest

keep-all : (p : Op → Bool) (ops : List Op) → any p ops ≡ false → keep (λ op. not (p op)) ops ≡ ops
keep-all p [] h = refl
keep-all p (op ∷ ops) h =
    let first : p op ≡ false = ground (arith, h) in
    rw (first, keep) (ap (◌∷◌ op) (keep-all p ops (ground (arith, h))))

module _ (glob : Text → Text → Bool) (now : ℕ) where
  out_for-filter :
      (c : Client) (base : List Op) → out_for glob now c base ≡ filter_visible_ops glob now c base
  unfolding out_for without_vault_config filter_visible_ops
  out_for-filter c base = elim (Bool-cases (any op_touches_vault_config base)) [
    | inl e ↦ rw e refl
    | inr e ↦ rw (e, keep-all op_touches_vault_config base e) refl
  ]

  send_all-filter :
      (except : Text) (base : List Op) (cs : List Client)
      → send_all glob now except base cs ≡ by_filter now glob except base cs
  unfolding send_all by_filter
  send_all-filter except base [] = refl
  send_all-filter except base (c ∷ cs) =
      rw (send_all-filter except base cs, out_for-filter c base) refl

  -- The broadcast, which filters once for all clients without vault.admin and not at all where no
  -- operation touches the vaultconfig tree, sends each client but the one that pushed what
  -- `filterVisibleOps` leaves of the synced operations.
  pub broadcast_ops-filter :
      (r : Rules) (except : Text) (ops : List Op) (clients : List Client)
      → broadcast_ops glob now r except ops clients
        ≡ by_filter now glob except (broadcast_base glob now r ops) clients
  unfolding broadcast_ops
  broadcast_ops-filter r except ops clients =
      send_all-filter except (broadcast_base glob now r ops) clients
