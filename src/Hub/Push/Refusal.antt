-- ===== src/Hub/Push/Refusal.antt =====
-- A push that is refused changes nothing that was staged.
use leyline.Base.{
  Bool, Bool-cases, List, Option, Text, [], arith, false, inl, inr, is_empty, is_none, ltb, none,
  not, refl, some, sym, text_eq, text_eq_iff, true, ◌&&◌, ◌∷◌, ◌≡◌,
}
use leyline.Base.Dict
use leyline.Protocol.Caps.{has, sync_push}
use leyline.Protocol.Op.{Hash, Op}
use leyline.ServerStage.{PathState, Stage, new_stage}
use leyline.Hub.State.{Client, Reply, VaultState, ack_ok, error_msg, push_ack, server_error}
use leyline.Hub.Push.{
  Clock, Config, PushBatch, Pushed, after_checks, all_pre_hashes_match, fail, failed_gate,
  finish_push, get_or_create_stage, handle_push_batch, has_overlapping_stage, push_checked,
  push_locked, push_tail, push_to_stage, put_stage, rate_gate, stage_found, stage_of, stuck_gate,
}
use leyline.Hub.Gate.{Checked, passed, refused}
use leyline.Hub.Sizes.{would_exceed}
use leyline.RateLimit.{Limiter}

abbrev pub ops_or_none : Option Stage → List Op
ops_or_none none = []
ops_or_none (some st) = st.ops

-- The operations that a client has staged.
unfoldable pub staged_ops : VaultState → Text → List Op
staged_ops vs client_id = ops_or_none (Dict.get vs.stages client_id)

-- The two states hold the same work: all but the limiters, and stages without operations.
pub record SameWork (vs after : VaultState) : Type 0 where
  pub staged : (client_id : Text) → staged_ops after client_id ≡ staged_ops vs client_id
  pub wal : after.wal ≡ vs.wal
  pub idem_cache : after.idem_cache ≡ vs.idem_cache
  pub stuck_buf : after.stuck_buf ≡ vs.stuck_buf
  pub sizes : after.sizes ≡ vs.sizes
  pub head_hash : after.head_hash ≡ vs.head_hash

-- Any reply but the ack of a batch that was taken, and the error of the server's own disk.
abbrev pub IsRefusal : Reply → Type 0
IsRefusal (push_ack ack_ok h) = ⊥
IsRefusal (error_msg server_error p) = ⊥
IsRefusal r = Unit

pub SameWork-refl : (vs : VaultState) → SameWork vs vs
SameWork-refl vs = record {
  staged = λ k. refl;
  wal = refl;
  idem_cache = refl;
  stuck_buf = refl;
  sizes = refl;
  head_hash = refl;
}

ops-stage_found :
    (c : Client) (base : Hash) (o : Option Stage) → (stage_found c base o).ops ≡ ops_or_none o
unfolding stage_found
ops-stage_found c base none = unfold new_stage in refl
ops-stage_found c base (some st) = ground arith

-- The stage that the handler gets or creates adds no operation.
pub put_stage-SameWork :
    (c : Client) (base : Hash) (vs : VaultState)
    → SameWork vs (put_stage vs c.client_id (get_or_create_stage c base vs))
unfolding put_stage get_or_create_stage staged_ops
put_stage-SameWork c base vs = record {
  staged = λ k.
      rw (Dict.get-put vs.stages c.client_id k _) (elim (Bool-cases (text_eq c.client_id k)) [
        | inl e ↦
            rw (e, sym ((text_eq_iff c.client_id k).0 e))
              (ops-stage_found c base (Dict.get vs.stages c.client_id))
        | inr e ↦ rw e refl
      ]);
  wal = refl;
  idem_cache = refl;
  stuck_buf = refl;
  sizes = refl;
  head_hash = refl;
}

abbrev pub Keeps : VaultState → Pushed → Type 0
Keeps vs res = IsRefusal res.reply → SameWork vs res.vault

module _ (glob : Text → Text → Bool) (is_nfc : Text → Bool) (hash_bytes : Text → Hash)
    (head_lookup : Text → PathState) (wal_error : Op → Bool) (cfg : Config) (clock : Clock)
    (c : Client) where
  finish_push-Keeps :
      (vs : VaultState) (l : Limiter) (r : Bool × VaultState)
      → Keeps vs (finish_push glob is_nfc hash_bytes head_lookup wal_error cfg clock c l r)
  unfolding finish_push
  finish_push-Keeps vs l (true, after) h = absurd h
  finish_push-Keeps vs l (false, after) h = absurd h

  stuck_gate-Keeps :
      (vs made : VaultState) (l : Limiter) (ops : List Op) (o : Option Text)
      → SameWork vs made
      → Keeps vs (stuck_gate glob is_nfc hash_bytes head_lookup wal_error cfg clock c l made ops o)
  unfolding stuck_gate fail
  stuck_gate-Keeps vs made l ops none same h = finish_push-Keeps vs l _ h
  stuck_gate-Keeps vs made l ops (some p) same h = same

  push_to_stage-Keeps :
      (vs made : VaultState) (l : Limiter) (ops : List Op)
      → SameWork vs made
      → Keeps vs (push_to_stage glob is_nfc hash_bytes head_lookup wal_error cfg clock c l made ops)
  unfolding push_to_stage fail
  push_to_stage-Keeps vs made l ops same =
      elim (Bool-cases (all_pre_hashes_match hash_bytes head_lookup (stage_of c made) ops)) [
        | inl e ↦ rw e (stuck_gate-Keeps vs made l ops _ same)
        | inr e ↦ rw e (λ h. same)
      ]

  push_checked-Keeps :
      (vs : VaultState) (l : Limiter) (base : Hash) (ops : List Op)
      → Keeps vs
          (push_checked glob is_nfc hash_bytes head_lookup wal_error cfg clock c l vs base ops)
  unfolding push_checked fail
  push_checked-Keeps vs l base ops =
      elim (Bool-cases (is_none (would_exceed vs.sizes ops cfg.max_files cfg.max_total_bytes))) [
        | inr e ↦ rw e (λ h. SameWork-refl vs)
        | inl e ↦ elim (Bool-cases (has_overlapping_stage vs.stages c.client_id ops)) [
          | inl f ↦ rw (e, f) (λ h. SameWork-refl vs)
          | inr f ↦
              rw (e, f)
                (push_to_stage-Keeps vs (put_stage vs c.client_id (get_or_create_stage c base vs)) l
                  ops (put_stage-SameWork c base vs))
        ]
      ]

  after_checks-Keeps :
      (vs : VaultState) (l : Limiter) (base : Hash) (ops : List Op) (checked : Checked)
      → Keeps vs (
          after_checks glob is_nfc hash_bytes head_lookup wal_error cfg clock c l vs base ops
            checked)
  unfolding after_checks fail
  after_checks-Keeps vs l base ops (refused code path) h = SameWork-refl vs
  after_checks-Keeps vs l base ops (passed []) h = push_checked-Keeps vs l base ops h
  after_checks-Keeps vs l base ops (passed (p ∷ ps)) h = SameWork-refl vs

  push_tail-Keeps :
      (vs : VaultState) (l : Limiter) (base : Hash) (o : Option (List Op))
      → Keeps vs (push_tail glob is_nfc hash_bytes head_lookup wal_error cfg clock c l vs base o)
  unfolding push_tail fail
  push_tail-Keeps vs l base none h = SameWork-refl vs
  push_tail-Keeps vs l base (some []) h = SameWork-refl vs
  push_tail-Keeps vs l base (some (op ∷ ops)) h = after_checks-Keeps vs l base (op ∷ ops) _ h

  pub push_locked-Keeps :
      (vs : VaultState) (l : Limiter) (batch : PushBatch)
      → Keeps vs (push_locked glob is_nfc hash_bytes head_lookup wal_error cfg clock c l vs batch)
  unfolding push_locked
  push_locked-Keeps vs l batch = push_tail-Keeps vs l batch.base _

  failed_gate-Keeps :
      (vs : VaultState) (batch : PushBatch) (r : Bool × Limiter)
      → Keeps vs (failed_gate glob is_nfc hash_bytes head_lookup wal_error cfg clock c vs batch r)
  unfolding failed_gate
  failed_gate-Keeps vs batch (true, l) h = SameWork-refl vs
  failed_gate-Keeps vs batch (false, l) h = push_locked-Keeps vs l batch h

  -- The limiter of a key does not count as work.
  counted-SameWork :
      (vs : VaultState) (m : List (Text × Limiter)) (after : VaultState)
      → SameWork (record vs { push_limiters = m }) after
      → SameWork vs after
  unfolding staged_ops
  counted-SameWork vs m after s = record {
    staged = s.staged;
    wal = s.wal;
    idem_cache = s.idem_cache;
    stuck_buf = s.stuck_buf;
    sizes = s.sizes;
    head_hash = s.head_hash;
  }

  rate_gate-Keeps :
      (vs : VaultState) (batch : PushBatch) (r : Bool × Limiter)
      → Keeps vs (rate_gate glob is_nfc hash_bytes head_lookup wal_error cfg clock c vs batch r)
  unfolding rate_gate
  rate_gate-Keeps vs batch (true, l) h = counted-SameWork vs _ _ (failed_gate-Keeps _ batch _ h)
  rate_gate-Keeps vs batch (false, l) h = counted-SameWork vs _ _ (SameWork-refl _)

  -- A push that is refused, with an error other than that of the server's disk or with an ack other
  -- than ok, changes no staged operation, and nothing in the log, the idempotence cache, the rings,
  -- the sizes or HEAD.
  pub handle_push_batch-refused :
      (vs : VaultState) (batch : PushBatch)
      → IsRefusal
          (handle_push_batch glob is_nfc hash_bytes head_lookup wal_error cfg clock c vs
            batch).reply
      → SameWork vs
          (handle_push_batch glob is_nfc hash_bytes head_lookup wal_error cfg clock c vs
            batch).vault
  unfolding handle_push_batch
  handle_push_batch-refused vs batch = elim (Bool-cases (has c.caps clock.entry sync_push)) [
    | inr e ↦ rw e (λ h. SameWork-refl vs)
    | inl e ↦ elim (Bool-cases (ltb 0 cfg.push_rate_limit && not (is_empty c.keyname))) [
      | inl f ↦ rw (e, f) (rate_gate-Keeps vs batch _)
      | inr f ↦ rw (e, f) (failed_gate-Keeps vs batch _)
    ]
  ]
