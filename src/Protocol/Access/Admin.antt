-- ===== src/Protocol/Access/Admin.antt =====
-- No operation on the keys of a vault takes its last administrator away.
use leyline.Base.{
  Bool, List, Option, Text, [], any, arith, false, none, not, refl, some, true, ℕ, ◌&&◌, ◌++◌, ◌∷◌,
  ◌≡◌,
}
use leyline.Protocol.Caps.{CapSet}
use leyline.Protocol.Access.{
  Entry, add_key, find_name, has_vault_admin, new_entry, remove_found, remove_key, remove_name,
  seen_found, update_found, update_last_seen, update_name, update_role, with_last_seen, with_role,
  would_orphan_admin,
}

-- The operations of the store that write, with their arguments.
pub data Call : Type 0 where
  add : Option Text → Text → Bool → Text → Text → Call
  remove : Bool → Text → Call
  change_role : Bool → Text → Text → Call
  see : Bool → Text → Text → Call

module _ (token_hash : Text → Text) (custom : List (Text × CapSet)) (now : ℕ) where
  -- The entries after a call.
  abbrev pub call : Call → List Entry → List Entry
  call (add generated stamp flushed name role) es =
      (add_key token_hash generated stamp flushed name role es).1
  call (remove flushed name) es = (remove_key custom now flushed name es).1
  call (change_role flushed name role) es = (update_role custom now flushed name role es).1
  call (see flushed today name) es = (update_last_seen flushed today name es).1

  abbrev pub calls : List Call → List Entry → List Entry
  calls [] es = es
  calls (c ∷ cs) es = calls cs (call c es)

module _ (custom : List (Text × CapSet)) (now : ℕ) where
  -- Does some entry hold vault.admin?
  abbrev pub has_admin : List Entry → Bool
  has_admin = any (has_vault_admin custom now)

  admin_of_not_orphan :
      (name : Text) (es : List Entry)
      → would_orphan_admin custom now name es ≡ false
      → has_admin es ≡ true
  unfolding would_orphan_admin
  admin_of_not_orphan name [] h = cc
  admin_of_not_orphan name (e ∷ es) h = ground (arith, admin_of_not_orphan name es)

  admin-remove_other :
      (name : Text) (es : List Entry)
      → would_orphan_admin custom now name es ≡ false
      → has_admin (remove_name name es) ≡ true
  unfolding would_orphan_admin remove_name
  admin-remove_other name [] h = cc
  admin-remove_other name (e ∷ es) h =
      ground (arith, admin-remove_other name es, admin_of_not_orphan name es)

  admin-update_other :
      (f : Entry → Entry) (name : Text) (es : List Entry)
      → would_orphan_admin custom now name es ≡ false
      → has_admin (update_name f name es) ≡ true
  unfolding would_orphan_admin update_name
  admin-update_other f name [] h = cc
  admin-update_other f name (e ∷ es) h =
      ground (arith, admin-update_other f name es, admin_of_not_orphan name es)

  -- The entry found is not an administrator: the others are the same without it.
  admin-remove_found :
      (name : Text) (es : List Entry) (e : Entry)
      → find_name name es ≡ some e
      → has_vault_admin custom now e ≡ false
      → has_admin (remove_name name es) ≡ has_admin es
  unfolding find_name remove_name
  admin-remove_found name [] e h k = cc
  admin-remove_found name (x ∷ es) e h k = ground (arith, admin-remove_found name es e)

  -- The entry found loses nothing.
  admin-update_found :
      (f : Entry → Entry) (name : Text) (es : List Entry) (e : Entry)
      → find_name name es ≡ some e
      → has_vault_admin custom now e && not (has_vault_admin custom now (f e)) ≡ false
      → has_admin es ≡ true
      → has_admin (update_name f name es) ≡ true
  unfolding find_name update_name
  admin-update_found f name [] e h k a = cc
  admin-update_found f name (x ∷ es) e h k a = ground (arith, admin-update_found f name es e)

  remove_found-keeps_admin :
      (flushed : Bool) (name : Text) (es : List Entry) (o : Option Entry)
      → find_name name es ≡ o
      → has_admin es ≡ true
      → has_admin (remove_found custom now flushed name es o).1 ≡ true
  unfolding remove_found
  remove_found-keeps_admin flushed name es none h a = a
  remove_found-keeps_admin flushed name es (some e) h a =
      ground (arith, admin-remove_found name es e h, admin-remove_other name es)

  update_found-keeps_admin :
      (flushed : Bool) (name role : Text) (es : List Entry) (o : Option Entry)
      → find_name name es ≡ o
      → has_admin es ≡ true
      → has_admin (update_found custom now flushed name role es o).1 ≡ true
  unfolding update_found
  update_found-keeps_admin flushed name role es none h a = a
  update_found-keeps_admin flushed name role es (some e) h a = ground (
    arith,
    admin-update_found (with_role role) name es e h,
    admin-update_other (with_role role) name es,
  )

  has_vault_admin-seen :
      (today : Text) (e : Entry)
      → has_vault_admin custom now (with_last_seen today e) ≡ has_vault_admin custom now e
  unfolding has_vault_admin with_last_seen
  has_vault_admin-seen today e = refl

  seen_found-keeps_admin :
      (flushed : Bool) (today name : Text) (es : List Entry) (o : Option Entry)
      → find_name name es ≡ o
      → has_admin es ≡ true
      → has_admin (seen_found flushed today name es o).1 ≡ true
  unfolding seen_found
  seen_found-keeps_admin flushed today name es none h a = a
  seen_found-keeps_admin flushed today name es (some e) h a =
      ground
        (arith, admin-update_found (with_last_seen today) name es e h, has_vault_admin-seen today e)

  has_admin-append :
      (es : List Entry) (e : Entry) → has_admin es ≡ true → has_admin (es ++ e ∷ []) ≡ true
  has_admin-append [] e a = cc
  has_admin-append (x ∷ es) e a = ground (arith, has_admin-append es e)

  add_key-keeps_admin :
      (token_hash : Text → Text) (generated : Option Text) (stamp : Text) (flushed : Bool)
      (name role : Text) (es : List Entry)
      → has_admin es ≡ true
      → has_admin (add_key token_hash generated stamp flushed name role es).1 ≡ true
  unfolding add_key
  add_key-keeps_admin token_hash none stamp flushed name role es a = ground arith
  add_key-keeps_admin token_hash (some token) stamp flushed name role es a =
      ground (arith, has_admin-append es (new_entry token_hash name role token stamp) a)

module _ (token_hash : Text → Text) (custom : List (Text × CapSet)) (now : ℕ) where
  call-keeps_admin :
      (c : Call) (es : List Entry)
      → has_admin custom now es ≡ true
      → has_admin custom now (call token_hash custom now c es) ≡ true
  unfolding remove_key update_role update_last_seen
  call-keeps_admin (add generated stamp flushed name role) es a =
      add_key-keeps_admin custom now token_hash generated stamp flushed name role es a
  call-keeps_admin (remove flushed name) es a =
      remove_found-keeps_admin custom now flushed name es _ refl a
  call-keeps_admin (change_role flushed name role) es a =
      update_found-keeps_admin custom now flushed name role es _ refl a
  call-keeps_admin (see flushed today name) es a =
      seen_found-keeps_admin custom now flushed today name es _ refl a

  -- From entries of which one holds vault.admin, any sequence of added and removed keys, changes
  -- of roles and updates of the day that a key was last seen, whether or not the file could be
  -- written, leaves entries of which one holds vault.admin, at the same time and under the same
  -- custom roles.
  pub calls-keep_admin :
      (cs : List Call) (es : List Entry)
      → has_admin custom now es ≡ true
      → has_admin custom now (calls token_hash custom now cs es) ≡ true
  calls-keep_admin [] es a = a
  calls-keep_admin (c ∷ cs) es a = calls-keep_admin cs _ (call-keeps_admin c es a)
