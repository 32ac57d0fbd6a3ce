-- ===== src/Hub/Recovery/Durable.antt =====
-- The log holds what the stages hold, and its replay brings them back.
use leyline.Base.{
  All, Bool, Bool-cases, List, Option, Text, [], ap, append-nil, append_assoc, if◌then◌else◌, inl,
  inr, none, refl, some, sym, text_eq, text_eq_iff, true, ℕ, ◌++◌, ◌∙◌, ◌∷◌, ◌≡◌,
}
use leyline.Base.Dict
use leyline.Protocol.Op.{Hash, Op}
use leyline.ServerStage.{Stage, append, new_stage}
use leyline.ServerStage.IdemCache.{IdemCache}
use leyline.Hub.State.{VaultState, WalEntry}
use leyline.Hub.Push.Refusal.{ops_or_none, staged_ops}
use leyline.Hub.Recovery.{is_replayable, replay_entry, replay_log, stage_or_replayed}

-- The operations of a client in the log.
unfoldable pub logged_ops : Text → List WalEntry → List Op
logged_ops k [] = []
logged_ops k (e ∷ es) =
    let rest = logged_ops k es in if text_eq e.client_id k then e.op ∷ rest else rest

pub logged_ops-append :
    (k : Text) (es fs : List WalEntry)
    → logged_ops k (es ++ fs) ≡ logged_ops k es ++ logged_ops k fs
unfolding logged_ops
logged_ops-append k [] fs = refl
logged_ops-append k (e ∷ es) fs = elim (Bool-cases (text_eq e.client_id k)) [
  | inl h ↦ rw h (ap (◌∷◌ e.op) (logged_ops-append k es fs))
  | inr h ↦ rw h (logged_ops-append k es fs)
]

-- The log of a vault mirrors its stages, and holds nothing that a replay drops.
pub record IsDurable (is_nfc : Text → Bool) (vs : VaultState) (log : List WalEntry) : Type 0 where
  pub wal : vs.wal ≡ some log
  pub mirrors : (k : Text) → staged_ops vs k ≡ logged_ops k log
  pub replayable : All (λ (e : WalEntry). is_replayable is_nfc e.op ≡ true) log

-- A vault that was hydrated again: no stage, and any cache of sequence numbers.
abbrev pub rebooted : VaultState → IdemCache → VaultState
rebooted vs cache = record vs { stages = []; stuck_buf = []; idem_cache = cache }

module _ (is_nfc : Text → Bool) (now : Op → ℕ) where
  ops-stage_or_replayed :
      (client_id : Text) (head : Hash) (o : Option Stage)
      → (stage_or_replayed is_nfc now client_id head o).ops ≡ ops_or_none o
  unfolding stage_or_replayed new_stage
  ops-stage_or_replayed client_id head none = refl
  ops-stage_or_replayed client_id head (some st) = refl

  staged_ops-replay_entry :
      (e : WalEntry) (vs : VaultState) (k : Text)
      → staged_ops (replay_entry is_nfc now e vs) k
        ≡ (if text_eq e.client_id k then staged_ops vs k ++ e.op ∷ [] else staged_ops vs k)
  unfolding replay_entry staged_ops
  staged_ops-replay_entry e vs k =
      rw (Dict.get-put vs.stages e.client_id k _) (elim (Bool-cases (text_eq e.client_id k)) [
        | inl h ↦
            rw (h, sym ((text_eq_iff e.client_id k).0 h))
              (unfold append in
                ap (λ os. os ++ e.op ∷ [])
                  (ops-stage_or_replayed e.client_id vs.head_hash (Dict.get vs.stages e.client_id)))
        | inr h ↦ rw h refl
      ])

  staged_ops-replay_log :
      (es : List WalEntry) (vs : VaultState) (k : Text)
      → All (λ (e : WalEntry). is_replayable is_nfc e.op ≡ true) es
      → staged_ops (replay_log is_nfc now es vs) k ≡ staged_ops vs k ++ logged_ops k es
  unfolding replay_log logged_ops
  staged_ops-replay_log [] vs k h = sym (append-nil (staged_ops vs k))
  staged_ops-replay_log (e ∷ es) vs k h = rw h.0 (
      staged_ops-replay_log es (replay_entry is_nfc now e vs) k h.1
      ∙ rw (staged_ops-replay_entry e vs k) (elim (Bool-cases (text_eq e.client_id k)) [
        | inl f ↦ rw f (append_assoc (staged_ops vs k) _ _)
        | inr f ↦ rw f refl
      ]))

  pub wal-replay_log :
      (es : List WalEntry) (vs : VaultState) → (replay_log is_nfc now es vs).wal ≡ vs.wal
  unfolding replay_log replay_entry
  wal-replay_log [] vs = refl
  wal-replay_log (e ∷ es) vs = elim (Bool-cases (is_replayable is_nfc e.op)) [
    | inl h ↦ rw h (wal-replay_log es (replay_entry is_nfc now e vs))
    | inr h ↦ rw h (wal-replay_log es vs)
  ]

  -- Where the log mirrors the stages, its replay after a restart gives every client the operations
  -- that it had staged, whatever the idempotence cache that was loaded.
  pub replay_log-restores :
      (vs : VaultState) (log : List WalEntry) (cache : IdemCache) (k : Text)
      → IsDurable is_nfc vs log
      → staged_ops (replay_log is_nfc now log (rebooted vs cache)) k ≡ staged_ops vs k
  replay_log-restores vs log cache k d =
      staged_ops-replay_log log (rebooted vs cache) k d.replayable
      ∙ unfold staged_ops Dict.get in sym (d.mirrors k)
