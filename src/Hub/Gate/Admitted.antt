-- ===== src/Hub/Gate/Admitted.antt =====
-- What the validation of a batch guarantees of its operations.
use leyline.Base.{
  All, Bool, List, Option, Text, [], arith, false, has_prefix, is_none, length, none, refl, some,
  text_eq, true, ℕ, ◌<◌, ◌||◌, ◌∷◌, ◌≡◌, ◌≢◌, ◌≤◌, ◌⊎◌,
}
use leyline.Protocol.Op.{
  HasFields, IsValid, Op, OpType, op_delete, op_rename, op_write, other, validate_op,
  validate_op-eq_none_iff,
}
use leyline.Protocol.PathUtil.{is_syncable_control_plane_path, is_vault_config_path}
use leyline.Protocol.PathUtil.Validate.Wire.{IsWirePath, validate_path-eq_none_iff}
use leyline.Allowed.{Rules, can_sync, matches_any}
use leyline.ServerStage.{payload}
use leyline.Hub.Ops.{access_op_path, op_touches_vault_config, renames_vault_config}
use leyline.Hub.Gate.{
  Checked, OpVerdict, access_gate, after_op, bad_path, check_op, check_ops, op_filtered, op_pass,
  op_refused, passed, path_gate, refused, rules_gate, sync_gate, with_filtered,
}
use leyline.Protocol.PathUtil.Validate.{validate_path}

-- Every path that an operation names is one that `ValidatePath` accepts.
abbrev pub HasWirePaths : (Text → Bool) → OpType → Op → Type 0
HasWirePaths is_nfc op_write op = IsWirePath is_nfc op.path
HasWirePaths is_nfc op_delete op = IsWirePath is_nfc op.path
HasWirePaths is_nfc op_rename op = IsWirePath is_nfc op.from × IsWirePath is_nfc op.to
HasWirePaths is_nfc (other t) op = ⊥

-- The path is one of the control plane that clients sync, or the [sync] patterns allow it.
abbrev pub IsSynced : (Text → Text → Bool) → Rules → Text → Type 0
IsSynced glob r p = is_syncable_control_plane_path p ≡ false → matches_any glob p r.sync ≡ true

-- The content has at most the size of the [sync] limit, where there is one.
abbrev pub IsWithinLimit : Rules → Op → Type 0
IsWithinLimit r op = 0 < r.sync_limit → length (payload op.data_bytes) ≤ r.sync_limit

-- What the file of rules asks of a write and of a rename.
abbrev pub IsAllowed : (Text → Text → Bool) → Rules → OpType → Op → Type 0
IsAllowed glob r op_write op = IsSynced glob r op.path × IsWithinLimit r op
IsAllowed glob r op_delete op = Unit
IsAllowed glob r op_rename op = IsSynced glob r op.to
IsAllowed glob r (other t) op = ⊥

-- An operation that a client with or without vault.admin may stage.
pub record IsAdmitted (glob : Text → Text → Bool) (is_nfc : Text → Bool) (is_admin : Bool)
    (r : Rules) (op : Op) : Type 0 where
  pub valid : IsValid op
  pub paths : HasWirePaths is_nfc op.type op
  pub no_access : access_op_path op ≡ none
  pub admin : op_touches_vault_config op ≡ true → is_admin ≡ true
  pub allowed : IsAllowed glob r op.type op

none_of_test : {A : Type 0} (o : Option A) → is_none o ≡ true → o ≡ none
none_of_test none h = refl
none_of_test (some a) h = cc

no_vault_config : (p : Text) → p ≡ [] → is_vault_config_path p ≡ false
unfolding is_vault_config_path text_eq has_prefix
no_vault_config p e = rw e refl

or_cases : (a b : Bool) → a || b ≡ true → (a ≡ true) ⊎ (b ≡ true)
or_cases a b h = ground arith

module _ (glob : Text → Text → Bool) (is_nfc : Text → Bool) (is_admin : Bool) where
  wire_of_test : (p : Text) → is_none (validate_path is_nfc p) ≡ true → IsWirePath is_nfc p
  wire_of_test p h =
      (validate_path-eq_none_iff is_nfc p).0 (none_of_test (validate_path is_nfc p) h)

  bad_path_sound :
      (t : OpType) (op : Op)
      → HasFields t op
      → bad_path glob is_nfc is_admin t op ≡ none
      → HasWirePaths is_nfc t op
  unfolding bad_path
  bad_path_sound op_write op f h = wire_of_test op.path (ground (arith, h))
  bad_path_sound op_delete op f h = wire_of_test op.path (ground (arith, h))
  bad_path_sound op_rename op f h =
      (wire_of_test op.from (ground (arith, h)), wire_of_test op.to (ground (arith, h)))
  bad_path_sound (other t) op f h = f

  sync_gate-admin :
      (r : Rules) (t : OpType) (op : Op)
      → HasFields t op
      → sync_gate glob is_nfc is_admin r t op ≡ op_pass
      → (is_vault_config_path op.path || renames_vault_config t op) ≡ true
      → is_admin ≡ true
  unfolding sync_gate renames_vault_config is_syncable_control_plane_path
  sync_gate-admin r op_write op f h v = ground (arith, h, v)
  sync_gate-admin r op_delete op f h v = ground (arith, h, v)
  sync_gate-admin r op_rename op f h v = ground (arith, h, v, no_vault_config op.path f.3)
  sync_gate-admin r (other t) op f h v = absurd f

  can_sync-matches :
      (r : Rules) (p : Text) (n : ℕ) → can_sync glob r p n ≡ true → matches_any glob p r.sync ≡ true
  unfolding can_sync
  can_sync-matches r p n h = ground (arith, h)

  can_sync-fits :
      (r : Rules) (p : Text) (n : ℕ)
      → can_sync glob r p n ≡ true
      → 0 < r.sync_limit
      → n ≤ r.sync_limit
  unfolding can_sync
  can_sync-fits r p n h l = ground (arith, h, l)

  sync_gate-allowed :
      (r : Rules) (t : OpType) (op : Op)
      → HasFields t op
      → sync_gate glob is_nfc is_admin r t op ≡ op_pass
      → IsAllowed glob r t op
  unfolding sync_gate
  sync_gate-allowed r op_write op f h = (
    (λ s. ground (arith, h, s, can_sync-matches r op.path 0)),
    (λ l. ground (arith, h, l, can_sync-fits r op.path (length (payload op.data_bytes)))),
  )
  sync_gate-allowed r op_delete op f h = tt
  sync_gate-allowed r op_rename op f h = λ s. ground (arith, h, s, can_sync-matches r op.to 0)
  sync_gate-allowed r (other t) op f h = f

  -- What an operation that the loop lets through went past.
  record Went (r : Rules) (op : Op) : Type 0 where
    valid : validate_op op ≡ none
    paths : bad_path glob is_nfc is_admin op.type op ≡ none
    no_access : access_op_path op ≡ none
    gate : sync_gate glob is_nfc is_admin r op.type op ≡ op_pass

  access_gate-pass :
      (r : Rules) (op : Op) (o : Option Text)
      → access_gate glob is_nfc is_admin (some r) op o ≡ op_pass
      → (o ≡ none) × (sync_gate glob is_nfc is_admin r op.type op ≡ op_pass)
  unfolding access_gate rules_gate
  access_gate-pass r op none h = (refl, h)
  access_gate-pass r op (some p) h = cc

  path_gate-pass :
      (r : Rules) (op : Op) (o : Option Text)
      → path_gate glob is_nfc is_admin (some r) op o ≡ op_pass
      → (o ≡ none) × (access_gate glob is_nfc is_admin (some r) op (access_op_path op) ≡ op_pass)
  unfolding path_gate
  path_gate-pass r op none h = (refl, h)
  path_gate-pass r op (some p) h = cc

  check_op-pass :
      (r : Rules) (op : Op) → check_op glob is_nfc is_admin (some r) op ≡ op_pass → Went r op
  unfolding check_op
  check_op-pass r op h =
      let past =
        path_gate-pass r op (bad_path glob is_nfc is_admin op.type op) (ground (arith, h)) in
      let gate = access_gate-pass r op (access_op_path op) past.1 in
      record {
        valid = none_of_test (validate_op op) (ground (arith, h));
        paths = past.0;
        no_access = gate.0;
        gate = gate.1;
      }

  IsAdmitted-of_Went : (r : Rules) (op : Op) → Went r op → IsAdmitted glob is_nfc is_admin r op
  unfolding op_touches_vault_config
  IsAdmitted-of_Went r op w =
      let v : IsValid op = (validate_op-eq_none_iff op).0 w.valid in
      record {
        valid = v;
        paths = bad_path_sound op.type op v.fields w.paths;
        no_access = w.no_access;
        admin = sync_gate-admin r op.type op v.fields w.gate;
        allowed = sync_gate-allowed r op.type op v.fields w.gate;
      }

  with_filtered-ne : (p : Text) (rest : Checked) → with_filtered p rest ≢ passed []
  unfolding with_filtered
  with_filtered-ne p (refused c path) h = cc
  with_filtered-ne p (passed paths) h = cc

  after_op-passed :
      (v : OpVerdict) (rest : Checked)
      → after_op v rest ≡ passed []
      → (v ≡ op_pass) × (rest ≡ passed [])
  unfolding after_op
  after_op-passed op_pass rest h = (refl, h)
  after_op-passed (op_filtered p) rest h = absurd (with_filtered-ne p rest h)
  after_op-passed (op_refused c path) rest h = cc

  -- Where the validation of a batch names no path as filtered and returns no error, on a vault with
  -- rules, each operation passes `ValidateOp` and its paths pass `ValidatePath`, none touches the
  -- access file, if one touches the vaultconfig tree, the client has vault.admin, and a write or the
  -- target of a rename is allowed by the [sync] patterns and limit, but for the patterns on paths of
  -- the control plane.
  pub check_ops-admits :
      (r : Rules) (ops : List Op)
      → check_ops glob is_nfc is_admin (some r) ops ≡ passed []
      → All (IsAdmitted glob is_nfc is_admin r) ops
  unfolding check_ops
  check_ops-admits r [] h = tt
  check_ops-admits r (op ∷ ops) h =
      let both = after_op-passed (check_op glob is_nfc is_admin (some r) op) _ h in
      (IsAdmitted-of_Went r op (check_op-pass r op both.0), check_ops-admits r ops both.1)
