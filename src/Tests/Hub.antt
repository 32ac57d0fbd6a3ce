-- ===== src/Tests/Hub.antt =====
-- Tests of the push handler.
use leyline.Base.Dict
use leyline.Protocol.Op.{Op, validate_fields, validate_op}
use leyline.Protocol.Caps.{has, is_member, is_past, sync_push}
use leyline.Allowed.{Rules, can_sync, matches_any}
use leyline.Hub.Push.{
  Clock, Config, PushBatch, Pushed, all_pre_hashes_match, commit_ops, find_stuck, finish_push,
  get_or_create_stage, handle_push_batch, has_overlapping_stage, push_locked, put_stage, stage_of,
  stage_overlaps, touches_dest,
}
use leyline.Hub.Ops.{
  access_op_path, filter_acked, from_cutoff, is_rising, path_of, pre_hash_matches, primary_path,
}
use leyline.Hub.Gate.{check_ops}
use leyline.Protocol.PathUtil.Validate.{
  clean, has_byte, is_abs, is_valid_utf8, is_windows_reserved, validate_path,
}
use leyline.Protocol.PathUtil.{
  is_public_control_plane_path, is_syncable_control_plane_path, is_vault_config_path,
  path_components,
}
use leyline.Hub.Sizes.{
  lookup_size, project, project_all, project_delete, project_write, would_exceed,
}
use leyline.Hub.Stuck.{append_hash, stuck_post_hash, would_repeat}
use leyline.Merge.Format.Sidecar.{base_name}
use leyline.RateLimit.{allow, exceeded, is_after, new_limiter, prune, record_event}
use leyline.Hub.Push.Effect.{Landed, push_locked-lands, push_locked-retry}
use leyline.Hub.Push.Overlap.{AreApart}
use leyline.Hub.Push.Apart.{handle_push_batch-AreApart}
use leyline.Hub.Recovery.{is_replayable, replay_log}
use leyline.Hub.Recovery.Durable.{IsDurable, logged_ops, rebooted}
use leyline.Hub.Recovery.Kept.{push_locked-survives}
use leyline.Hub.Push.Refusal.{IsRefusal, SameWork, handle_push_batch-refused, staged_ops}
use leyline.Hub.Push.Accepted.{IsOk}
use leyline.ServerStage.IdemCache.{accept, highest_seq, new_idem_cache}
use leyline.Hub.State.{Client, VaultState, WalEntry, ack_ok, find_ring, push_ack, put_ring}
use leyline.Base.{
  Bool, Bool-cases, List, Text, [], arith, codes, cut_last, false, has_prefix, has_suffix, inl, inr,
  none, refl, some, split, text_eq, text_eq_iff, true, ◌+◌, ◌∷◌, ◌≡◌,
}
use leyline.ServerStage.{Stage, append, new_stage, op_touches, path_hash, touches, zero_hash}
use leyline.Tests.Samples.{no_head, same_bytes, write_op}

-- Foreign code that agrees to everything.
abbrev pub any_glob : Text → Text → Bool
any_glob pattern name = true

abbrev pub any_form : Text → Bool
any_form p = true

abbrev pub no_error : Op → Bool
no_error op = false

abbrev pub config : Config
config = record { push_rate_limit = 10; max_files = 5; max_total_bytes = 1000 }

abbrev pub clock : Clock
clock = record { entry = 7; failure = 8; appended = λ seq. seq + 8 }

abbrev pub ann : Client
ann = record {
  client_id = codes "c1";
  keyname = codes "ann";
  caps = record { caps = sync_push ∷ []; expires_at = none };
  failed_push_limiter = record { events = []; max_count = 5; window = 60 };
}

abbrev pub rules : Rules
rules = record { sync = codes "*.md" ∷ []; history = []; sync_limit = 100; history_limit = 0 }

abbrev pub peer_stage : Stage
peer_stage = record {
  client_id = codes "c2";
  keyname = codes "bob";
  base = zero_hash;
  ops = write_op 1 "b.md" "y" ∷ [];
  bytes = 1;
  started = 4;
  last_append = 4;
}

abbrev pub peer_log : List WalEntry
peer_log = record { client_id = codes "c2"; op = write_op 1 "b.md" "y" } ∷ []

-- A vault where another client has staged a write.
abbrev pub vault : VaultState
vault = record {
  sizes = record { sizes = []; total_bytes = 0 };
  rules = some rules;
  push_limiters = [];
  stages = (codes "c2", peer_stage) ∷ [];
  wal = some peer_log;
  idem_cache = record { records = []; dirty = false };
  stuck_buf = [];
  head_hash = codes "h";
}

abbrev pub batch : PushBatch
batch = record { base = zero_hash; ops = write_op 1 "a.md" "x" ∷ write_op 2 "n.md" "z" ∷ [] }

abbrev push : VaultState → PushBatch → Pushed
push vs b =
    push_locked any_glob any_form same_bytes no_head no_error config clock ann
      ann.failed_push_limiter vs b

pub push-IsOk : IsOk (push vault batch).reply
unfolding push_locked filter_acked highest_seq Dict.get check_ops validate_op validate_path
    is_valid_utf8 has_byte is_abs has_prefix text_eq clean path_components split has_suffix
    is_windows_reserved can_sync matches_any Dict.put Dict.remove cut_last access_op_path
    from_cutoff is_rising path_of pre_hash_matches primary_path all_pre_hashes_match commit_ops
    find_stuck finish_push get_or_create_stage has_overlapping_stage put_stage stage_of
    stage_overlaps touches_dest lookup_size project project_all project_delete project_write
    would_exceed find_ring put_ring append_hash stuck_post_hash would_repeat base_name has is_member
    is_past validate_fields is_public_control_plane_path is_syncable_control_plane_path
    is_vault_config_path is_after prune record_event accept append new_stage op_touches path_hash
    touches
push-IsOk = tt

-- The vault after the push.
abbrev pub pushed : VaultState
pushed = (push vault batch).vault

peer_op-replayable : is_replayable any_form (write_op 1 "b.md" "y") ≡ true
unfolding is_replayable validate_op validate_path is_valid_utf8 has_byte is_abs has_prefix text_eq
    clean path_components split has_suffix is_windows_reserved validate_fields
peer_op-replayable = refl

pub vault-IsDurable : IsDurable any_form vault peer_log
unfolding staged_ops logged_ops Dict.get is_replayable
vault-IsDurable = record {
  wal = refl;
  mirrors =
      λ k. elim (Bool-cases (text_eq (codes "c2") k)) [ inl e ↦ rw e refl | inr e ↦ rw e refl ];
  replayable = (peer_op-replayable, tt);
}

push_locked-survives_example :
    (later : List WalEntry) × IsDurable any_form pushed later
    × ((k : Text)
        → staged_ops (replay_log any_form (λ op. op.seq) later (rebooted pushed new_idem_cache)) k
          ≡ staged_ops pushed k)
push_locked-survives_example =
    push_locked-survives any_glob any_form same_bytes no_head no_error config clock ann
      ann.failed_push_limiter vault pushed batch rules peer_log (λ op. op.seq) new_idem_cache refl
      vault-IsDurable refl push-IsOk

push_locked-lands_example :
    Landed any_glob any_form same_bytes no_head no_error config clock ann rules vault batch pushed
push_locked-lands_example =
    push_locked-lands any_glob any_form same_bytes no_head no_error config clock ann
      ann.failed_push_limiter vault batch rules refl push-IsOk

push_locked-retry_example : push pushed batch ≡ record {
  limiter = ann.failed_push_limiter;
  vault = pushed;
  reply = push_ack ack_ok pushed.head_hash;
}
push_locked-retry_example =
    push_locked-retry any_glob any_form same_bytes no_head no_error config clock ann
      ann.failed_push_limiter ann.failed_push_limiter vault pushed batch refl push-IsOk

pub vault-AreApart : AreApart vault
unfolding staged_ops Dict.get
vault-AreApart j k p n h = elim (Bool-cases (text_eq (codes "c2") k)) [
  | inr e ↦ rw e refl
  | inl e ↦ elim (Bool-cases (text_eq (codes "c2") j)) [
    | inr f ↦ let no : false ≡ true = rw f at h in cc
    | inl f ↦ absurd (
        ground
          (arith, n, e, f, text_eq_iff (codes "c2") j, text_eq_iff (codes "c2") k, text_eq_iff j k))
  ]
]

handle_push_batch-AreApart_example :
    AreApart
      (handle_push_batch any_glob any_form same_bytes no_head no_error config clock ann vault
        batch).vault
handle_push_batch-AreApart_example =
    handle_push_batch-AreApart any_glob any_form same_bytes no_head no_error config clock ann vault
      batch vault-AreApart

-- A batch that names the path that the other client has staged.
abbrev colliding : PushBatch
colliding = record { base = zero_hash; ops = write_op 1 "b.md" "x" ∷ [] }

colliding-IsRefusal :
    IsRefusal
      (handle_push_batch any_glob any_form same_bytes no_head no_error config clock ann vault
        colliding).reply
unfolding handle_push_batch allow exceeded new_limiter push_locked filter_acked highest_seq Dict.get
    check_ops validate_op validate_path is_valid_utf8 has_byte is_abs has_prefix text_eq clean
    path_components split has_suffix is_windows_reserved can_sync matches_any Dict.put Dict.remove
    cut_last access_op_path from_cutoff is_rising path_of pre_hash_matches primary_path
    all_pre_hashes_match commit_ops find_stuck finish_push get_or_create_stage has_overlapping_stage
    put_stage stage_of stage_overlaps touches_dest lookup_size project project_all project_delete
    project_write would_exceed find_ring put_ring append_hash stuck_post_hash would_repeat base_name
    has is_member is_past validate_fields is_public_control_plane_path
    is_syncable_control_plane_path is_vault_config_path is_after prune record_event accept append
    new_stage op_touches path_hash touches
colliding-IsRefusal = tt

handle_push_batch-refused_example :
    SameWork vault
      (handle_push_batch any_glob any_form same_bytes no_head no_error config clock ann vault
        colliding).vault
handle_push_batch-refused_example =
    handle_push_batch-refused any_glob any_form same_bytes no_head no_error config clock ann vault
      colliding colliding-IsRefusal
