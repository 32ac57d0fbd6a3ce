-- ===== src/Hub/Push/Apart.antt =====
-- A push, whatever its reply, keeps the stages of the clients apart.
use leyline.Base.{
  All, Bool, Bool-cases, List, Option, Text, [], append-nil, false, inl, inr, is_empty, is_none,
  ltb, none, not, refl, some, sym, text_eq, true, ◌&&◌, ◌++◌, ◌∙◌, ◌∷◌, ◌≡◌,
}
use leyline.Protocol.Op.{Hash, Op}
use leyline.Protocol.Caps.{has, sync_push}
use leyline.ServerStage.{PathState}
use leyline.RateLimit.{Limiter}
use leyline.Hub.Sizes.{would_exceed}
use leyline.Hub.State.{Client, VaultState}
use leyline.Hub.Gate.{Checked, passed, refused}
use leyline.Hub.Push.{
  Clock, Config, PushBatch, after_checks, all_pre_hashes_match, commit_ops, fail, failed_gate,
  finish_push, get_or_create_stage, handle_push_batch, has_overlapping_stage, push_checked,
  push_locked, push_tail, push_to_stage, put_stage, rate_gate, stage_of, stuck_gate,
}
use leyline.Hub.Push.Refusal.{put_stage-SameWork, staged_ops}
use leyline.Hub.Push.Commit.{Lands, commit_ops-Lands}
use leyline.Hub.Push.Overlap.{Adds, Adds-AreApart, AreApart, IsFree, has_overlapping_stage-IsFree}

module _ (glob : Text → Text → Bool) (is_nfc : Text → Bool) (hash_bytes : Text → Hash)
    (head_lookup : Text → PathState) (wal_error : Op → Bool) (cfg : Config) (clock : Clock)
    (c : Client) where
  All-prefix :
      (vs : VaultState) (xs ys : List Op)
      → All (IsFree vs c.client_id) (xs ++ ys)
      → All (IsFree vs c.client_id) xs
  All-prefix vs [] ys h = tt
  All-prefix vs (x ∷ xs) ys h = (h.0, All-prefix vs xs ys h.1)

  -- The two states stage the same operations.
  abbrev Same : VaultState → VaultState → Type 0
  Same vs after = (k : Text) → staged_ops after k ≡ staged_ops vs k

  Adds-Same : (vs after : VaultState) → Same vs after → Adds hash_bytes c vs after
  Adds-Same vs after same = record {
    landed = [];
    free = tt;
    staged = λ k. elim (Bool-cases (text_eq c.client_id k)) [
      | inl e ↦ rw e (same k ∙ sym (append-nil (staged_ops vs k)))
      | inr e ↦ rw e (same k)
    ];
  }

  Adds-Lands :
      (vs start after : VaultState) (ops : List Op)
      → Same vs start
      → All (IsFree vs c.client_id) ops
      → Lands hash_bytes wal_error clock c ops start after
      → Adds hash_bytes c vs after
  Adds-Lands vs start after ops same free l = record {
    landed = l.landed;
    free = All-prefix vs l.landed l.rest (rw l.splits at free);
    staged = λ k. l.staged k ∙ rw (same k) refl;
  }

  finish_push-vault :
      (l : Limiter) (r : Bool × VaultState)
      → (finish_push glob is_nfc hash_bytes head_lookup wal_error cfg clock c l r).vault ≡ r.1
  unfolding finish_push
  finish_push-vault l (true, vs) = refl
  finish_push-vault l (false, vs) = refl

  stuck_gate-Adds :
      (vs start : VaultState) (l : Limiter) (ops : List Op) (o : Option Text)
      → Same vs start
      → All (IsFree vs c.client_id) ops
      → Adds hash_bytes c vs
          (stuck_gate glob is_nfc hash_bytes head_lookup wal_error cfg clock c l start ops o).vault
  unfolding stuck_gate fail
  stuck_gate-Adds vs start l ops (some p) same free = Adds-Same vs start same
  stuck_gate-Adds vs start l ops none same free =
      rw (finish_push-vault l (commit_ops hash_bytes wal_error clock c ops start)) (
        Adds-Lands vs start _ ops same free
          (commit_ops-Lands hash_bytes wal_error clock c ops start))

  push_to_stage-Adds :
      (vs start : VaultState) (l : Limiter) (ops : List Op)
      → Same vs start
      → All (IsFree vs c.client_id) ops
      → Adds hash_bytes c vs
          (push_to_stage glob is_nfc hash_bytes head_lookup wal_error cfg clock c l start ops).vault
  unfolding push_to_stage fail
  push_to_stage-Adds vs start l ops same free =
      elim (Bool-cases (all_pre_hashes_match hash_bytes head_lookup (stage_of c start) ops)) [
        | inl e ↦ rw e (stuck_gate-Adds vs start l ops _ same free)
        | inr e ↦ rw e (Adds-Same vs start same)
      ]

  push_checked-Adds :
      (vs : VaultState) (l : Limiter) (base : Hash) (ops : List Op)
      → Adds hash_bytes c vs
          (push_checked glob is_nfc hash_bytes head_lookup wal_error cfg clock c l vs base
            ops).vault
  unfolding push_checked fail
  push_checked-Adds vs l base ops =
      elim (Bool-cases (is_none (would_exceed vs.sizes ops cfg.max_files cfg.max_total_bytes))) [
        | inr e ↦ rw e (Adds-Same vs vs (λ k. refl))
        | inl e ↦ elim (Bool-cases (has_overlapping_stage vs.stages c.client_id ops)) [
          | inl f ↦ rw (e, f) (Adds-Same vs vs (λ k. refl))
          | inr f ↦
              rw (e, f)
                (push_to_stage-Adds vs (put_stage vs c.client_id (get_or_create_stage c base vs)) l
                  ops (put_stage-SameWork c base vs).staged
                  (has_overlapping_stage-IsFree vs c.client_id ops f))
        ]
      ]

  after_checks-Adds :
      (vs : VaultState) (l : Limiter) (base : Hash) (ops : List Op) (checked : Checked)
      → Adds hash_bytes c vs
          (after_checks glob is_nfc hash_bytes head_lookup wal_error cfg clock c l vs base ops
            checked).vault
  unfolding after_checks fail
  after_checks-Adds vs l base ops (refused code path) = Adds-Same vs vs (λ k. refl)
  after_checks-Adds vs l base ops (passed []) = push_checked-Adds vs l base ops
  after_checks-Adds vs l base ops (passed (p ∷ ps)) = Adds-Same vs vs (λ k. refl)

  push_tail-Adds :
      (vs : VaultState) (l : Limiter) (base : Hash) (o : Option (List Op))
      → Adds hash_bytes c vs
          (push_tail glob is_nfc hash_bytes head_lookup wal_error cfg clock c l vs base o).vault
  unfolding push_tail fail
  push_tail-Adds vs l base none = Adds-Same vs vs (λ k. refl)
  push_tail-Adds vs l base (some []) = Adds-Same vs vs (λ k. refl)
  push_tail-Adds vs l base (some (op ∷ ops)) = after_checks-Adds vs l base (op ∷ ops) _

  pub push_locked-AreApart :
      (vs : VaultState) (l : Limiter) (batch : PushBatch)
      → AreApart vs
      → AreApart
          (push_locked glob is_nfc hash_bytes head_lookup wal_error cfg clock c l vs batch).vault
  unfolding push_locked
  push_locked-AreApart vs l batch apart =
      Adds-AreApart hash_bytes c vs _ (push_tail-Adds vs l batch.base _) apart

  failed_gate-AreApart :
      (vs : VaultState) (batch : PushBatch) (r : Bool × Limiter)
      → AreApart vs
      → AreApart
          (failed_gate glob is_nfc hash_bytes head_lookup wal_error cfg clock c vs batch r).vault
  unfolding failed_gate
  failed_gate-AreApart vs batch (true, l) apart = apart
  failed_gate-AreApart vs batch (false, l) apart = push_locked-AreApart vs l batch apart

  rate_gate-AreApart :
      (vs : VaultState) (batch : PushBatch) (r : Bool × Limiter)
      → AreApart vs
      → AreApart
          (rate_gate glob is_nfc hash_bytes head_lookup wal_error cfg clock c vs batch r).vault
  unfolding rate_gate staged_ops
  rate_gate-AreApart vs batch (true, l) apart = failed_gate-AreApart _ batch _ apart
  rate_gate-AreApart vs batch (false, l) apart = apart

  -- Where no path is touched by the stages of two clients, a push leaves it so, whatever its reply.
  pub handle_push_batch-AreApart :
      (vs : VaultState) (batch : PushBatch)
      → AreApart vs
      → AreApart
          (handle_push_batch glob is_nfc hash_bytes head_lookup wal_error cfg clock c vs
            batch).vault
  unfolding handle_push_batch
  handle_push_batch-AreApart vs batch apart = elim (Bool-cases (has c.caps clock.entry sync_push)) [
    | inr e ↦ rw e apart
    | inl e ↦ elim (Bool-cases (ltb 0 cfg.push_rate_limit && not (is_empty c.keyname))) [
      | inl f ↦ rw (e, f) (rate_gate-AreApart vs batch _ apart)
      | inr f ↦ rw (e, f) (failed_gate-AreApart vs batch _ apart)
    ]
  ]
