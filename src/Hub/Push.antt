-- ===== src/Hub/Push.antt =====
-- internal/server/hub/handlers.go: the handler of a pushed batch.
pub mod Overlap
pub mod Refusal
pub mod Commit
pub mod Accepted
pub mod Effect
pub mod Apart
use leyline.Base.{
  Bool, List, Option, Text, [], all, any, false, if◌then◌else◌, is_empty, is_none, ltb, none, not,
  some, text_eq, true, ℕ, ◌&&◌, ◌*◌, ◌++◌, ◌^◌, ◌||◌, ◌∷◌,
}
use leyline.Base.Dict
use leyline.Protocol.Op.{Hash, Op, OpType, op_rename}
use leyline.Protocol.Caps.{has, sync_push, vault_admin}
use leyline.ServerStage.{PathState, Stage, append, new_stage, path_hash, touches, zero_hash}
use leyline.ServerStage.IdemCache.{accept, highest_seq}
use leyline.RateLimit.{Limiter, allow, exceeded, new_limiter, record_event}
use leyline.Hub.Sizes.{would_exceed}
use leyline.Hub.Stuck.{StuckRing, append_hash, new_ring, stuck_post_hash, would_repeat}
use leyline.Hub.Ops.{filter_acked, pre_hash_matches, primary_path}
use leyline.Hub.State.{
  Client, Reply, VaultState, WalEntry, ack_filtered, ack_ok, ack_stale_base, error_msg, find_ring,
  invalid_data, permission_denied, push_ack, put_ring, rate_limited, server_error, stuck_file,
  vault_full,
}
use leyline.Hub.Gate.{Checked, check_ops, passed, refused}

-- The fields of the configuration; a limit that is 0 or negative in the source is 0 here.
pub record Config : Type 0 where
  pub push_rate_limit : ℕ
  pub max_files : ℕ
  pub max_total_bytes : ℕ

-- The readings of the clock: at the entry, for the gates and the tests of capabilities, at the
-- record of a failure, and at the append of the operation with a sequence number.
pub record Clock : Type 0 where
  pub entry : ℕ
  pub failure : ℕ
  pub appended : ℕ → ℕ

-- A `PushBatchMsg`, without the id that the ack repeats.
pub record PushBatch : Type 0 where
  pub base : Hash
  pub ops : List Op

-- What a push leaves, and what it sends.
pub record Pushed : Type 0 where
  pub limiter : Limiter
  pub vault : VaultState
  pub reply : Reply

-- `getOrCreateStage`
stage_found : Client → Hash → Option Stage → Stage
stage_found c base none = new_stage c.client_id c.keyname base
stage_found c base (some st) =
    if is_empty st.keyname && not (is_empty c.keyname)
    then record st { keyname = c.keyname }
    else st

unfoldable pub get_or_create_stage : Client → Hash → VaultState → Stage
unfolding stage_found
get_or_create_stage c base vs = stage_found c base (Dict.get vs.stages c.client_id)

abbrev pub stage_or_new : Client → Option Stage → Stage
stage_or_new c none = new_stage c.client_id c.keyname zero_hash
stage_or_new c (some st) = st

-- The stage of the client, which `st` points to: `getOrCreateStage` has put it into the map.
unfoldable pub stage_of : Client → VaultState → Stage
stage_of c vs = stage_or_new c (Dict.get vs.stages c.client_id)

unfoldable pub put_stage : VaultState → Text → Stage → VaultState
put_stage vs client_id st = record vs { stages = Dict.put vs.stages client_id st }

-- The test of `findOverlappingStage` on an operation.
unfoldable pub touches_dest : OpType → Op → Stage → Bool
touches_dest op_rename op st = touches st op.to
touches_dest t op st = false

unfoldable pub stage_overlaps : Op → Stage → Bool
unfolding touches_dest
stage_overlaps op st = touches st (primary_path op) || touches_dest op.type op st

-- `findOverlappingStage(...) != nil`
unfoldable pub has_overlapping_stage : List (Text × Stage) → Text → List Op → Bool
unfolding stage_overlaps
has_overlapping_stage stages except ops =
    any (λ e. not (text_eq e.0 except) && any (λ op. stage_overlaps op e.1) ops) stages

module _ (hash_bytes : Text → Hash) where
  ring_repeats : Op → Option StuckRing → Bool
  ring_repeats op none = false
  ring_repeats op (some ring) = would_repeat ring (stuck_post_hash hash_bytes op)

  -- The pass that only peeks at the rings: the path that is stuck.
  unfoldable pub find_stuck : VaultState → Text → List Op → Option Text
  unfolding ring_repeats
  find_stuck vs client_id [] = none
  find_stuck vs client_id (op ∷ ops) =
      if ring_repeats op (find_ring vs.stuck_buf client_id (primary_path op))
      then some (primary_path op)
      else find_stuck vs client_id ops

  -- Every pre-hash is that of HEAD overlaid by the stage.
  unfoldable pub all_pre_hashes_match : (Text → PathState) → Stage → List Op → Bool
  all_pre_hashes_match head_lookup st ops =
      all
        (λ op. pre_hash_matches op.pre_hash (path_hash hash_bytes head_lookup st (primary_path op)))
        ops

  abbrev ring_or_new : Option StuckRing → StuckRing
  ring_or_new none = new_ring
  ring_or_new (some ring) = ring

  -- The ring entry of an operation that the stage and the log took.
  note_ring : Client → Op → VaultState → VaultState
  note_ring c op vs = record vs {
    stuck_buf = put_ring vs.stuck_buf c.client_id (primary_path op) (
        append_hash (ring_or_new (find_ring vs.stuck_buf c.client_id (primary_path op)))
          (stuck_post_hash hash_bytes op));
  }

  abbrev pub log_op : Text → Op → Option (List WalEntry) → Option (List WalEntry)
  log_op client_id op none = none
  log_op client_id op (some log) = some (log ++ record { client_id = client_id; op = op } ∷ [])

  abbrev pub stamped : Client → Op → Op
  stamped c op = record op { author = c.keyname }

  -- `wal_error` is the error of the log's file for an operation, which then has no record.
  module _ (wal_error : Op → Bool) (clock : Clock) (c : Client) where
    stage_op : Op → VaultState → VaultState
    stage_op op vs =
        put_stage vs c.client_id (append (stage_of c vs) (stamped c op) (clock.appended op.seq))

    accept_op : Op → VaultState → VaultState
    accept_op op vs = record vs {
      wal = log_op c.client_id (stamped c op) vs.wal;
      idem_cache = (accept vs.idem_cache c.client_id op.seq (clock.appended op.seq)).1;
    }

    -- The loop that commits the operations to the stage, the log and the caches; false is the
    -- return on an error of the log.
    unfoldable pub commit_ops : List Op → VaultState → Bool × VaultState
    unfolding note_ring stage_op accept_op
    commit_ops [] vs = (true, vs)
    commit_ops (op ∷ ops) vs =
        let rest = commit_ops ops (note_ring c op (accept_op op (stage_op op vs))) in
        if not (is_none vs.wal) && wal_error (stamped c op) then (false, stage_op op vs) else rest

-- `glob`, `is_nfc`, `hash_bytes` and `head_lookup` stand for filepath.Match, the test of the normal
-- form, SHA-256 and the committed tree, and `wal_error` for the file system under the log.
module _ (glob : Text → Text → Bool) (is_nfc : Text → Bool) (hash_bytes : Text → Hash)
    (head_lookup : Text → PathState) (wal_error : Op → Bool) (cfg : Config) (clock : Clock)
    (c : Client) where
  -- A refusal that counts against the client.
  fail : Limiter → VaultState → Reply → Pushed
  fail l vs reply = record { limiter = record_event clock.failure l; vault = vs; reply = reply }

  unfoldable pub finish_push : Limiter → Bool × VaultState → Pushed
  finish_push l (true, vs) = record {
    limiter = l;
    vault = vs;
    reply = push_ack ack_ok vs.head_hash;
  }
  finish_push l (false, vs) = record { limiter = l; vault = vs; reply = error_msg server_error [] }

  stuck_gate : Limiter → VaultState → List Op → Option Text → Pushed
  unfolding fail
  stuck_gate l vs ops (some path) = fail l vs (error_msg stuck_file path)
  stuck_gate l vs ops none = finish_push l (commit_ops hash_bytes wal_error clock c ops vs)

  -- From `getOrCreateStage` on.
  push_to_stage : Limiter → VaultState → List Op → Pushed
  unfolding fail stuck_gate
  push_to_stage l vs ops =
      if not (all_pre_hashes_match hash_bytes head_lookup (stage_of c vs) ops)
      then fail l vs (push_ack ack_stale_base vs.head_hash)
      else stuck_gate l vs ops (find_stuck hash_bytes vs c.client_id ops)

  -- The caps and the overlap of the stages.
  push_checked : Limiter → VaultState → Hash → List Op → Pushed
  unfolding fail push_to_stage
  push_checked l vs base ops =
      if not (is_none (would_exceed vs.sizes ops cfg.max_files cfg.max_total_bytes))
      then fail l vs (error_msg vault_full [])
      else if has_overlapping_stage vs.stages c.client_id ops
      then fail l vs (push_ack ack_stale_base vs.head_hash)
      else push_to_stage l (put_stage vs c.client_id (get_or_create_stage c base vs)) ops

  after_checks : Limiter → VaultState → Hash → List Op → Checked → Pushed
  unfolding fail push_checked
  after_checks l vs base ops (refused code path) = fail l vs (error_msg code path)
  after_checks l vs base ops (passed []) = push_checked l vs base ops
  after_checks l vs base ops (passed (p ∷ ps)) = record {
    limiter = l;
    vault = vs;
    reply = push_ack (ack_filtered (p ∷ ps)) vs.head_hash;
  }

  -- What `filterAcked` left of the batch.
  push_tail : Limiter → VaultState → Hash → Option (List Op) → Pushed
  unfolding fail after_checks
  push_tail l vs base none = fail l vs (error_msg invalid_data [])
  push_tail l vs base (some []) = record {
    limiter = l;
    vault = vs;
    reply = push_ack ack_ok vs.head_hash;
  }
  push_tail l vs base (some (op ∷ ops)) =
      after_checks l vs base (op ∷ ops)
        (check_ops glob is_nfc (has c.caps clock.entry vault_admin) vs.rules (op ∷ ops))

  -- The part of the handler that holds `fileMu`.
  unfoldable pub push_locked : Limiter → VaultState → PushBatch → Pushed
  unfolding push_tail
  push_locked l vs batch =
      push_tail l vs batch.base (filter_acked batch.ops (highest_seq vs.idem_cache c.client_id))

  failed_gate : VaultState → PushBatch → Bool × Limiter → Pushed
  failed_gate vs batch (true, l) = record {
    limiter = l;
    vault = vs;
    reply = error_msg rate_limited [];
  }
  failed_gate vs batch (false, l) = push_locked l vs batch

  -- The limiter of a key, which `getPushLimiter` makes on the first push.
  limiter_of : VaultState → Limiter
  limiter_of vs = elim (Dict.get vs.push_limiters c.keyname) [
    | none ↦ new_limiter cfg.push_rate_limit (5 * 10 ^ 9)
    | some l ↦ l
  ]

  rate_gate : VaultState → PushBatch → Bool × Limiter → Pushed
  unfolding failed_gate
  rate_gate vs batch (allowed, l) =
      let counted = record vs { push_limiters = Dict.put vs.push_limiters c.keyname l } in
      if not allowed
      then record {
        limiter = c.failed_push_limiter;
        vault = counted;
        reply = error_msg rate_limited [];
      }
      else failed_gate counted batch (exceeded clock.entry c.failed_push_limiter)

  unfoldable pub handle_push_batch : VaultState → PushBatch → Pushed
  unfolding rate_gate failed_gate limiter_of
  handle_push_batch vs batch =
      if not (has c.caps clock.entry sync_push)
      then record {
        limiter = c.failed_push_limiter;
        vault = vs;
        reply = error_msg permission_denied [];
      }
      else if ltb 0 cfg.push_rate_limit && not (is_empty c.keyname)
      then rate_gate vs batch (allow clock.entry (limiter_of vs))
      else failed_gate vs batch (exceeded clock.entry c.failed_push_limiter)
