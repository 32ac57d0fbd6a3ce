-- ===== src/Hub/Recovery/Kept.antt =====
-- The pushes keep the log in step with the stages.
use leyline.Base.{
  All, All-append, Bool, Bool-cases, List, Text, [], append-nil, arith, if◌then◌else◌, inl, inr,
  map, refl, some, sym, text_eq, true, ℕ, ◌++◌, ◌∙◌, ◌∷◌, ◌≡◌,
}
use leyline.Protocol.Op.{
  Hash, Op, OpType, op_delete, op_rename, op_write, other, validate_fields, validate_op,
  validate_op-eq_none_iff,
}
use leyline.Protocol.PathUtil.Validate.Wire.{validate_path-eq_none_iff}
use leyline.ServerStage.{PathState}
use leyline.ServerStage.IdemCache.{IdemCache}
use leyline.RateLimit.{Limiter}
use leyline.Allowed.{Rules}
use leyline.Hub.State.{Client, VaultState, WalEntry}
use leyline.Hub.Gate.Admitted.{HasWirePaths, IsAdmitted}
use leyline.Hub.Push.{Clock, Config, PushBatch, push_locked, stamped}
use leyline.Hub.Push.Refusal.{SameWork, staged_ops}
use leyline.Hub.Push.Commit.{logged}
use leyline.Hub.Push.Accepted.{IsOk}
use leyline.Hub.Push.Effect.{Landed, push_locked-lands}
use leyline.Hub.Recovery.{has_good_paths, is_replayable, replay_log}
use leyline.Hub.Recovery.Durable.{
  IsDurable, logged_ops, logged_ops-append, rebooted, replay_log-restores,
}

module _ (glob : Text → Text → Bool) (is_nfc : Text → Bool) (hash_bytes : Text → Hash)
    (head_lookup : Text → PathState) (wal_error : Op → Bool) (cfg : Config) (clock : Clock)
    (c : Client) where
  validate_fields-stamped :
      (t : OpType) (op : Op) → validate_fields t (stamped hash_bytes c op) ≡ validate_fields t op
  unfolding validate_fields
  validate_fields-stamped op_write op = refl
  validate_fields-stamped op_delete op = refl
  validate_fields-stamped op_rename op = refl
  validate_fields-stamped (other t) op = refl

  validate_op-stamped : (op : Op) → validate_op (stamped hash_bytes c op) ≡ validate_op op
  unfolding validate_op
  validate_op-stamped op = rw (validate_fields-stamped op.type op) refl

  has_good_paths-stamped :
      (t : OpType) (op : Op)
      → HasWirePaths is_nfc t op
      → has_good_paths is_nfc t (stamped hash_bytes c op) ≡ true
  unfolding has_good_paths
  has_good_paths-stamped op_write op w = rw ((validate_path-eq_none_iff is_nfc op.path).1 w) refl
  has_good_paths-stamped op_delete op w = rw ((validate_path-eq_none_iff is_nfc op.path).1 w) refl
  has_good_paths-stamped op_rename op w =
      rw
        (
          (validate_path-eq_none_iff is_nfc op.from).1 w.0,
          (validate_path-eq_none_iff is_nfc op.to).1 w.1,
        )
        refl
  has_good_paths-stamped (other t) op w = absurd w

  is_replayable-stamped :
      (is_admin : Bool) (r : Rules) (op : Op)
      → IsAdmitted glob is_nfc is_admin r op
      → is_replayable is_nfc (stamped hash_bytes c op) ≡ true
  unfolding is_replayable
  is_replayable-stamped is_admin r op a =
      rw (validate_op-stamped op, (validate_op-eq_none_iff op).1 a.valid)
        (has_good_paths-stamped op.type op a.paths)

  abbrev entries : List Op → List WalEntry
  entries ops = logged hash_bytes wal_error clock c ops

  logged_ops-logged :
      (ops : List Op) (k : Text)
      → logged_ops k (entries ops)
        ≡ (if text_eq c.client_id k then map (stamped hash_bytes c) ops else [])
  unfolding logged_ops
  logged_ops-logged [] k = ground arith
  logged_ops-logged (op ∷ ops) k = elim (Bool-cases (text_eq c.client_id k)) [
    | inl e ↦ rw (e, logged_ops-logged ops k, e) refl
    | inr e ↦ rw (e, logged_ops-logged ops k, e) refl
  ]

  replayable-logged :
      (is_admin : Bool) (r : Rules) (ops : List Op)
      → All (IsAdmitted glob is_nfc is_admin r) ops
      → All (λ (e : WalEntry). is_replayable is_nfc e.op ≡ true) (entries ops)
  replayable-logged is_admin r [] a = tt
  replayable-logged is_admin r (op ∷ ops) a =
      (is_replayable-stamped is_admin r op a.0, replayable-logged is_admin r ops a.1)

  -- A push that is refused leaves a log that mirrors the stages as it was.
  pub IsDurable-SameWork :
      (vs after : VaultState) (log : List WalEntry)
      → SameWork vs after
      → IsDurable is_nfc vs log
      → IsDurable is_nfc after log
  IsDurable-SameWork vs after log s d = record {
    wal = s.wal ∙ d.wal;
    mirrors = λ k. s.staged k ∙ d.mirrors k;
    replayable = d.replayable;
  }

  IsDurable-Landed :
      (r : Rules) (vs after : VaultState) (batch : PushBatch) (log : List WalEntry)
      → (l : Landed glob is_nfc hash_bytes head_lookup wal_error cfg clock c r vs batch after)
      → IsDurable is_nfc vs log
      → IsDurable is_nfc after (log ++ entries l.tail)
  IsDurable-Landed r vs after batch log l d = record {
    wal = l.wal log d.wal;
    mirrors = λ k.
        l.staged k
        ∙ rw (d.mirrors k, logged_ops-append k log (entries l.tail), logged_ops-logged l.tail k)
            (elim (Bool-cases (text_eq c.client_id k)) [
              | inl e ↦ rw e refl
              | inr e ↦ rw e (sym (append-nil (logged_ops k log)))
            ]);
    replayable =
        All-append _ log (entries l.tail) d.replayable (replayable-logged _ r l.tail l.admitted);
  }

  -- After an ack of ok, on a vault with rules whose log mirrors its stages, the server may stop at
  -- once: the replay of its log gives every client the operations that it has staged, those of the
  -- batch included, and the log still mirrors the stages.
  pub push_locked-survives :
      (l : Limiter) (vs after : VaultState) (batch : PushBatch) (r : Rules) (log : List WalEntry)
      (now : Op → ℕ) (cache : IdemCache)
      → vs.rules ≡ some r
      → IsDurable is_nfc vs log
      → after
        ≡ (push_locked glob is_nfc hash_bytes head_lookup wal_error cfg clock c l vs batch).vault
      → IsOk (push_locked glob is_nfc hash_bytes head_lookup wal_error cfg clock c l vs batch).reply
      → (later : List WalEntry) × IsDurable is_nfc after later
        × ((k : Text)
            → staged_ops (replay_log is_nfc now later (rebooted after cache)) k
              ≡ staged_ops after k)
  push_locked-survives l vs after batch r log now cache e d same ok =
      let landed =
        push_locked-lands glob is_nfc hash_bytes head_lookup wal_error cfg clock c l vs batch r e
          ok in
      let durable : IsDurable is_nfc after (log ++ entries landed.tail) =
        rw same (IsDurable-Landed r vs _ batch log landed d) in
      (
        log ++ entries landed.tail,
        durable,
        (λ k. replay_log-restores is_nfc now after (log ++ entries landed.tail) cache k durable),
      )
