-- ===== src/Hub/Runs.antt =====
-- internal/server/hub: the steps of a vault under `fileMu`, in any order, and what holds after any
-- number of them.
use leyline.Base.{
  Bool, List, Option, Text, [], false, inl, inr, refl, some, true, ℕ, ◌∙◌, ◌≡◌, ◌≢◌, ◌⊎◌,
}
use leyline.Protocol.Op.{Hash, Op}
use leyline.ServerStage.{PathState, Stage}
use leyline.ServerStage.IdemCache.{IdemCache, cap_entries, prune_idle}
use leyline.RateLimit.{Limiter}
use leyline.Allowed.{Rules}
use leyline.Hub.State.{Client, VaultState, WalEntry}
use leyline.Hub.Push.{Clock, Config, PushBatch, push_locked}
use leyline.Hub.Push.Refusal.{IsRefusal, push_locked-Keeps, staged_ops}
use leyline.Hub.Push.Accepted.{IsOk}
use leyline.Hub.Push.Overlap.{AreApart}
use leyline.Hub.Recovery.{replay_log}
use leyline.Hub.Recovery.Durable.{IsDurable, rebooted, replay_log-restores, wal-replay_log}
use leyline.Hub.Recovery.Kept.{IsDurable-SameWork, push_locked-survives}
use leyline.Hub.Commit.{Truncation, commit_stage, failed_after}
use leyline.Hub.Push.Apart.{push_locked-AreApart}
use leyline.Hub.Commit.Settled.{commit_stage-IsDurable, commit_stage-fewer}

module _ (glob : Text → Text → Bool) (is_nfc : Text → Bool) (hash_bytes : Text → Hash)
    (head_lookup : Text → PathState) (wal_error : Op → Bool)
    (git_commit : List Op → Text → Option Hash) (vault_id : Text) (cfg : Config) where
  -- A push of a client, which ends with an ack of ok or is refused; a commit of a stage, whatever it
  -- comes to, unless the truncation of the log fails after its file was replaced; a pass of the
  -- runner over the idempotence cache; and a stop of the server, at any point, with the replay of
  -- the log when the vault is hydrated again with the cache that is on disk.
  pub data Step : VaultState → VaultState → Type 0 where
    step_push :
        (clock : Clock) (c : Client) (l : Limiter) (vs : VaultState) (batch : PushBatch) (r : Rules)
        → vs.rules ≡ some r
        → IsOk
            (push_locked glob is_nfc hash_bytes head_lookup wal_error cfg clock c l vs batch).reply
          ⊎ IsRefusal
              (push_locked glob is_nfc hash_bytes head_lookup wal_error cfg clock c l vs
                batch).reply
        → Step vs
            (push_locked glob is_nfc hash_bytes head_lookup wal_error cfg clock c l vs batch).vault
    step_commit :
        (t : Truncation) (persist_error : Bool) (vs : VaultState) (st : Stage)
        → t ≢ failed_after
        → Step vs (commit_stage git_commit t persist_error vault_id vs st).vault
    step_prune :
        (vs : VaultState) (now threshold cap : ℕ)
        → Step vs
            (record vs { idem_cache = cap_entries (prune_idle vs.idem_cache now threshold) cap })
    step_restart :
        (now : Op → ℕ) (vs : VaultState) (log : List WalEntry) (cache : IdemCache)
        → vs.wal ≡ some log
        → Step vs (replay_log is_nfc now log (rebooted vs cache))

  -- Any number of steps.
  pub data Runs : VaultState → VaultState → Type 0 where
    here : (vs : VaultState) → Runs vs vs
    then_step : (vs mid after : VaultState) → Step vs mid → Runs mid after → Runs vs after

  -- The log is in step with the stages, and the stages are apart.
  pub record IsSound (vs : VaultState) : Type 0 where
    pub log : List WalEntry
    pub durable : IsDurable is_nfc vs log
    pub apart : AreApart vs

  push-IsSound :
      (clock : Clock) (c : Client) (l : Limiter) (vs : VaultState) (batch : PushBatch) (r : Rules)
      → vs.rules ≡ some r
      → IsOk (push_locked glob is_nfc hash_bytes head_lookup wal_error cfg clock c l vs batch).reply
        ⊎ IsRefusal
            (push_locked glob is_nfc hash_bytes head_lookup wal_error cfg clock c l vs batch).reply
      → IsSound vs
      → IsSound
          (push_locked glob is_nfc hash_bytes head_lookup wal_error cfg clock c l vs batch).vault
  push-IsSound clock c l vs batch r e (inl ok) s =
      let kept =
        push_locked-survives glob is_nfc hash_bytes head_lookup wal_error cfg clock c l vs _ batch r
          s.log (λ op. 0) vs.idem_cache e s.durable refl ok in
      record {
        log = kept.0;
        durable = kept.1;
        apart =
            push_locked-AreApart glob is_nfc hash_bytes head_lookup wal_error cfg clock c vs l batch
              s.apart;
      }
  push-IsSound clock c l vs batch r e (inr refusal) s = record {
    log = s.log;
    durable =
        IsDurable-SameWork glob is_nfc hash_bytes head_lookup wal_error cfg clock c vs _ s.log
          (push_locked-Keeps glob is_nfc hash_bytes head_lookup wal_error cfg clock c vs l batch
            refusal)
          s.durable;
    apart =
        push_locked-AreApart glob is_nfc hash_bytes head_lookup wal_error cfg clock c vs l batch
          s.apart;
  }

  -- Stages that hold what they held, or nothing, stay apart.
  Fewer-AreApart :
      (vs after : VaultState)
      → ((k : Text) → (staged_ops after k ≡ staged_ops vs k) ⊎ (staged_ops after k ≡ []))
      → AreApart vs
      → AreApart after
  Fewer-AreApart vs after fewer apart j k p n h = elim (fewer k) [
    | inr e ↦ rw e refl
    | inl e ↦ elim (fewer j) [
      | inr f ↦ let no : false ≡ true = rw f at h in cc
      | inl f ↦ rw e (apart j k p n (rw f at h))
    ]
  ]

  restart-IsSound :
      (now : Op → ℕ) (vs : VaultState) (log : List WalEntry) (cache : IdemCache)
      → vs.wal ≡ some log
      → IsSound vs
      → IsSound (replay_log is_nfc now log (rebooted vs cache))
  restart-IsSound now vs log cache e s =
      let same : log ≡ s.log = cc (e, s.durable.wal) in
      let restored = λ (k : Text). replay_log-restores is_nfc now vs s.log cache k s.durable in
      rw same (record {
        log = s.log;
        durable = record {
          wal = wal-replay_log is_nfc now s.log (rebooted vs cache) ∙ s.durable.wal;
          mirrors = λ k. restored k ∙ s.durable.mirrors k;
          replayable = s.durable.replayable;
        };
        apart = Fewer-AreApart vs _ (λ k. inl (restored k)) s.apart;
      })

  commit-IsSound :
      (t : Truncation) (persist_error : Bool) (vs : VaultState) (st : Stage)
      → t ≢ failed_after
      → IsSound vs
      → IsSound (commit_stage git_commit t persist_error vault_id vs st).vault
  commit-IsSound t persist_error vs st n s =
      let kept =
        commit_stage-IsDurable git_commit t persist_error vault_id is_nfc vs st s.log n s.durable in
      record {
        log = kept.0;
        durable = kept.1;
        apart =
            Fewer-AreApart vs _ (commit_stage-fewer git_commit t persist_error vault_id vs st)
              s.apart;
      }

  prune-IsSound :
      (vs : VaultState) (cache : IdemCache)
      → IsSound vs
      → IsSound (record vs { idem_cache = cache })
  unfolding staged_ops
  prune-IsSound vs cache s = record {
    log = s.log;
    durable = record {
      wal = s.durable.wal;
      mirrors = s.durable.mirrors;
      replayable = s.durable.replayable;
    };
    apart = s.apart;
  }

  Step-IsSound : (vs after : VaultState) → Step vs after → IsSound vs → IsSound after
  Step-IsSound vs after (step_push clock c l _ batch r e ended) s =
      push-IsSound clock c l vs batch r e ended s
  Step-IsSound vs after (step_commit t persist_error _ st n) s =
      commit-IsSound t persist_error vs st n s
  Step-IsSound vs after (step_prune _ now threshold cap) s =
      prune-IsSound vs (cap_entries (prune_idle vs.idem_cache now threshold) cap) s
  Step-IsSound vs after (step_restart now _ log cache e) s = restart-IsSound now vs log cache e s

  -- Whatever clients push, whichever stages are committed and whenever the server is restarted, the
  -- log holds the operations that the stages hold, so that a replay restores them, and no path is
  -- touched by the stages of two clients: where this holds at first, and no write to the log fails
  -- half way, that is, no push ends with the error of the server's disk and no truncation fails
  -- after its file was replaced.
  pub Runs-IsSound : (vs after : VaultState) → Runs vs after → IsSound vs → IsSound after
  Runs-IsSound vs after (here _) s = s
  Runs-IsSound vs after (then_step _ mid _ step rest) s =
      Runs-IsSound mid after rest (Step-IsSound vs mid step s)
