-- ===== src/Hub/Push/Accepted.antt =====
-- A push that is acked as ok: what it passed, what it leaves, and that a retry of it does nothing.
use leyline.Base.{
  Bool, Bool-cases, List, Option, Text, [], false, inl, inr, is_none, none, refl, some, true, ◌∙◌,
  ◌∷◌, ◌≡◌, ◌⊎◌,
}
use leyline.Protocol.Op.{Hash, Op}
use leyline.Protocol.Caps.{has, vault_admin}
use leyline.ServerStage.{PathState}
use leyline.ServerStage.IdemCache.{highest_seq}
use leyline.RateLimit.{Limiter}
use leyline.Hub.Sizes.{would_exceed}
use leyline.Hub.Ops.{filter_acked}
use leyline.Hub.State.{Client, Reply, VaultState, ack_ok, push_ack}
use leyline.Hub.Gate.{Checked, check_ops, passed, refused}
use leyline.Hub.Push.{
  Clock, Config, PushBatch, after_checks, all_pre_hashes_match, commit_ops, fail, find_stuck,
  finish_push, get_or_create_stage, has_overlapping_stage, push_checked, push_locked, push_tail,
  push_to_stage, put_stage, stage_of, stuck_gate,
}
use leyline.Hub.Push.Commit.{commit_ops-rounds, rounds}

-- The ack of a batch that was taken.
abbrev pub IsOk : Reply → Type 0
IsOk (push_ack ack_ok h) = Unit
IsOk r = ⊥

module _ (glob : Text → Text → Bool) (is_nfc : Text → Bool) (hash_bytes : Text → Hash)
    (head_lookup : Text → PathState) (wal_error : Op → Bool) (cfg : Config) (clock : Clock)
    (c : Client) where
  abbrev is_admin : Bool
  is_admin = has c.caps clock.entry vault_admin

  -- The state when the stage of the client is there.
  abbrev pub made : Hash → VaultState → VaultState
  made base vs = put_stage vs c.client_id (get_or_create_stage c base vs)

  -- What the operations of a batch passed, and the state that they leave.
  pub record Passed (vs : VaultState) (base : Hash) (ops : List Op) (after : VaultState)
      : Type 0 where
    pub checked : check_ops glob is_nfc is_admin vs.rules ops ≡ passed []
    pub fits : is_none (would_exceed vs.sizes ops cfg.max_files cfg.max_total_bytes) ≡ true
    pub apart : has_overlapping_stage vs.stages c.client_id ops ≡ false
    pub matched : all_pre_hashes_match hash_bytes head_lookup (stage_of c (made base vs)) ops ≡ true
    pub fresh : find_stuck hash_bytes (made base vs) c.client_id ops ≡ none
    pub left : after ≡ rounds hash_bytes wal_error clock c ops (made base vs)

  finish_push-ok :
      (l : Limiter) (r : Bool × VaultState)
      → IsOk (finish_push glob is_nfc hash_bytes head_lookup wal_error cfg clock c l r).reply
      → (r.0 ≡ true)
        × ((finish_push glob is_nfc hash_bytes head_lookup wal_error cfg clock c l r).vault ≡ r.1)
  unfolding finish_push
  finish_push-ok l (true, after) h = (refl, refl)
  finish_push-ok l (false, after) h = absurd h

  stuck_gate-ok :
      (l : Limiter) (vs : VaultState) (ops : List Op) (o : Option Text)
      → IsOk (stuck_gate glob is_nfc hash_bytes head_lookup wal_error cfg clock c l vs ops o).reply
      → (o ≡ none)
        × ((stuck_gate glob is_nfc hash_bytes head_lookup wal_error cfg clock c l vs ops o).vault
            ≡ rounds hash_bytes wal_error clock c ops vs)
  unfolding stuck_gate fail
  stuck_gate-ok l vs ops (some p) h = absurd h
  stuck_gate-ok l vs ops none h =
      let done = finish_push-ok l (commit_ops hash_bytes wal_error clock c ops vs) h in
      (refl, done.1 ∙ commit_ops-rounds hash_bytes wal_error clock c ops vs done.0)

  -- What the gates from `getOrCreateStage` on were passed with.
  record Staged (vs : VaultState) (ops : List Op) (after : VaultState) : Type 0 where
    matched : all_pre_hashes_match hash_bytes head_lookup (stage_of c vs) ops ≡ true
    fresh : find_stuck hash_bytes vs c.client_id ops ≡ none
    left : after ≡ rounds hash_bytes wal_error clock c ops vs

  push_to_stage-ok :
      (l : Limiter) (vs : VaultState) (ops : List Op)
      → IsOk (push_to_stage glob is_nfc hash_bytes head_lookup wal_error cfg clock c l vs ops).reply
      → Staged vs ops
          (push_to_stage glob is_nfc hash_bytes head_lookup wal_error cfg clock c l vs ops).vault
  unfolding push_to_stage fail
  push_to_stage-ok l vs ops =
      elim (Bool-cases (all_pre_hashes_match hash_bytes head_lookup (stage_of c vs) ops)) [
        | inr e ↦ rw e (λ h. absurd h)
        | inl e ↦ rw e (λ h.
            let past = stuck_gate-ok l vs ops (find_stuck hash_bytes vs c.client_id ops) h in
            record { matched = e; fresh = past.0; left = past.1 })
      ]

  push_checked-ok :
      (l : Limiter) (vs : VaultState) (base : Hash) (ops : List Op)
      → check_ops glob is_nfc is_admin vs.rules ops ≡ passed []
      → IsOk
          (push_checked glob is_nfc hash_bytes head_lookup wal_error cfg clock c l vs base
            ops).reply
      → Passed vs base ops
          (push_checked glob is_nfc hash_bytes head_lookup wal_error cfg clock c l vs base
            ops).vault
  unfolding push_checked fail
  push_checked-ok l vs base ops k =
      elim (Bool-cases (is_none (would_exceed vs.sizes ops cfg.max_files cfg.max_total_bytes))) [
        | inr e ↦ rw e (λ h. absurd h)
        | inl e ↦ elim (Bool-cases (has_overlapping_stage vs.stages c.client_id ops)) [
          | inl f ↦ rw (e, f) (λ h. absurd h)
          | inr f ↦
              rw (e, f)
                (λ h.
                  let s = push_to_stage-ok l (made base vs) ops h in
                  record {
                    checked = k;
                    fits = e;
                    apart = f;
                    matched = s.matched;
                    fresh = s.fresh;
                    left = s.left;
                  })
        ]
      ]

  after_checks-ok :
      (l : Limiter) (vs : VaultState) (base : Hash) (ops : List Op) (checked : Checked)
      → check_ops glob is_nfc is_admin vs.rules ops ≡ checked
      → IsOk
          (after_checks glob is_nfc hash_bytes head_lookup wal_error cfg clock c l vs base ops
            checked).reply
      → Passed vs base ops
          (after_checks glob is_nfc hash_bytes head_lookup wal_error cfg clock c l vs base ops
            checked).vault
  unfolding after_checks fail
  after_checks-ok l vs base ops (refused code path) k h = absurd h
  after_checks-ok l vs base ops (passed []) k h = push_checked-ok l vs base ops k h
  after_checks-ok l vs base ops (passed (p ∷ ps)) k h = absurd h

  -- The tail that was taken: nothing, or operations that passed.
  pub record Taken (vs : VaultState) (batch : PushBatch) (after : VaultState) : Type 0 where
    pub tail : List Op
    pub filtered : filter_acked batch.ops (highest_seq vs.idem_cache c.client_id) ≡ some tail
    pub outcome : ((tail ≡ []) × (after ≡ vs)) ⊎ Passed vs batch.base tail after

  push_tail-ok :
      (l : Limiter) (vs : VaultState) (batch : PushBatch) (o : Option (List Op))
      → filter_acked batch.ops (highest_seq vs.idem_cache c.client_id) ≡ o
      → IsOk
          (push_tail glob is_nfc hash_bytes head_lookup wal_error cfg clock c l vs batch.base
            o).reply
      → Taken vs batch
          (push_tail glob is_nfc hash_bytes head_lookup wal_error cfg clock c l vs batch.base
            o).vault
  unfolding push_tail fail
  push_tail-ok l vs batch none k h = absurd h
  push_tail-ok l vs batch (some []) k h = record {
    tail = [];
    filtered = k;
    outcome = inl (refl, refl);
  }
  push_tail-ok l vs batch (some (op ∷ ops)) k h = record {
    tail = op ∷ ops;
    filtered = k;
    outcome = inr (after_checks-ok l vs batch.base (op ∷ ops) _ refl h);
  }

  pub push_locked-ok :
      (l : Limiter) (vs : VaultState) (batch : PushBatch)
      → IsOk (push_locked glob is_nfc hash_bytes head_lookup wal_error cfg clock c l vs batch).reply
      → Taken vs batch
          (push_locked glob is_nfc hash_bytes head_lookup wal_error cfg clock c l vs batch).vault
  unfolding push_locked
  push_locked-ok l vs batch h = push_tail-ok l vs batch _ refl h
