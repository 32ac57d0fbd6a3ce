-- ===== src/Hub/Push/Effect.antt =====
-- The effect of a push that is acked as ok, and of its retry.
use leyline.Base.{
  All, All-append, Bool, Bool-cases, List, Text, [], ap, append-nil, arith, if◌then◌else◌, inl, inr,
  map, refl, some, sym, text_eq, ℕ, ◌++◌, ◌∙◌, ◌∷◌, ◌≡◌, ◌≤◌,
}
use leyline.Protocol.Op.{Hash, Op}
use leyline.Protocol.Caps.{has, vault_admin}
use leyline.ServerStage.{PathState}
use leyline.ServerStage.IdemCache.{highest_seq}
use leyline.RateLimit.{Limiter}
use leyline.Allowed.{Rules}
use leyline.Hub.Ops.Acked.{AreAcked, IsTail, filter_acked-acked, filter_acked-eq_some_iff}
use leyline.Hub.State.{Client, VaultState, WalEntry, ack_ok, push_ack}
use leyline.Hub.Gate.Admitted.{IsAdmitted, check_ops-admits}
use leyline.Hub.Push.{Clock, Config, PushBatch, push_locked, push_tail, stamped}
use leyline.Hub.Push.Refusal.{SameWork, put_stage-SameWork, staged_ops}
use leyline.Hub.Push.Commit.{highest, highest-rounds, logged, staged_ops-rounds, wal-rounds}
use leyline.Hub.Push.Accepted.{IsOk, Passed, Taken, made, push_locked-ok}

module _ (glob : Text → Text → Bool) (is_nfc : Text → Bool) (hash_bytes : Text → Hash)
    (head_lookup : Text → PathState) (wal_error : Op → Bool) (cfg : Config) (clock : Clock)
    (c : Client) where
  AreAcked-mono : (ops : List Op) (m n : ℕ) → m ≤ n → AreAcked m ops → AreAcked n ops
  AreAcked-mono [] m n h a = tt
  AreAcked-mono (op ∷ ops) m n h a = (omega (arith, h, a.0), AreAcked-mono ops m n h a.1)

  highest-Passed :
      (vs : VaultState) (base : Hash) (ops : List Op) (after : VaultState)
      → Passed glob is_nfc hash_bytes head_lookup wal_error cfg clock c vs base ops after
      → (highest hash_bytes wal_error clock c vs ≤ highest hash_bytes wal_error clock c after)
        × AreAcked (highest hash_bytes wal_error clock c after) ops
  highest-Passed vs base ops after p =
      let low : highest hash_bytes wal_error clock c
            (made glob is_nfc hash_bytes head_lookup wal_error cfg clock c base vs)
          ≡ highest hash_bytes wal_error clock c vs =
        ap (λ i. highest_seq i c.client_id) (put_stage-SameWork c base vs).idem_cache in
      let up =
        highest-rounds hash_bytes wal_error clock c ops
          (made glob is_nfc hash_bytes head_lookup wal_error cfg clock c base vs) in
      rw p.left (omega (arith, low, up.0), up.1)

  all_acked :
      (vs : VaultState) (batch : PushBatch) (after : VaultState)
      → Taken glob is_nfc hash_bytes head_lookup wal_error cfg clock c vs batch after
      → AreAcked (highest_seq after.idem_cache c.client_id) batch.ops
  all_acked vs batch after t =
      let cut =
        (filter_acked-eq_some_iff batch.ops (highest_seq vs.idem_cache c.client_id) t.tail).0
          t.filtered in
      rw cut.splits (elim t.outcome [
        | inl idle ↦ rw (idle.0, idle.1, append-nil cut.acked) cut.below
        | inr p ↦
            let up = highest-Passed vs batch.base t.tail after p in
            All-append _ cut.acked t.tail (AreAcked-mono cut.acked _ _ up.0 cut.below) up.1
      ])

  push_acked :
      (l : Limiter) (vs : VaultState) (batch : PushBatch)
      → AreAcked (highest_seq vs.idem_cache c.client_id) batch.ops
      → push_locked glob is_nfc hash_bytes head_lookup wal_error cfg clock c l vs batch
        ≡ record { limiter = l; vault = vs; reply = push_ack ack_ok vs.head_hash }
  unfolding push_locked push_tail
  push_acked l vs batch h = rw (filter_acked-acked batch.ops _ h) refl

  -- A batch that was acked as ok, whatever part of it was new, is acked as ok when it is pushed again
  -- to the state that it left, and changes nothing.
  pub push_locked-retry :
      (l again : Limiter) (vs after : VaultState) (batch : PushBatch)
      → after
        ≡ (push_locked glob is_nfc hash_bytes head_lookup wal_error cfg clock c l vs batch).vault
      → IsOk (push_locked glob is_nfc hash_bytes head_lookup wal_error cfg clock c l vs batch).reply
      → push_locked glob is_nfc hash_bytes head_lookup wal_error cfg clock c again after batch
        ≡ record { limiter = again; vault = after; reply = push_ack ack_ok after.head_hash }
  push_locked-retry l again vs after batch same h = push_acked again after batch (
      all_acked vs batch after (
        rw same
          (push_locked-ok glob is_nfc hash_bytes head_lookup wal_error cfg clock c l vs batch h)))

  -- What an ack of ok says of the operations of the batch.
  pub record Landed (r : Rules) (vs : VaultState) (batch : PushBatch) (after : VaultState)
      : Type 0 where
    pub tail : List Op
    pub is_tail : IsTail batch.ops (highest_seq vs.idem_cache c.client_id) tail
    pub admitted : All (IsAdmitted glob is_nfc (has c.caps clock.entry vault_admin) r) tail
    pub staged :
        (client_id : Text)
        → staged_ops after client_id ≡ (
            if text_eq c.client_id client_id
            then staged_ops vs client_id ++ map (stamped hash_bytes c) tail
            else staged_ops vs client_id)
    pub wal :
        (log : List WalEntry)
        → vs.wal ≡ some log
        → after.wal ≡ some (log ++ logged hash_bytes wal_error clock c tail)

  staged-nothing :
      (vs : VaultState) (tail : List Op) (client_id : Text)
      → tail ≡ []
      → staged_ops vs client_id ≡ (
          if text_eq c.client_id client_id
          then staged_ops vs client_id ++ map (stamped hash_bytes c) tail
          else staged_ops vs client_id)
  staged-nothing vs tail k e = elim (Bool-cases (text_eq c.client_id k)) [
    | inl f ↦ rw (f, e) (sym (append-nil (staged_ops vs k)))
    | inr f ↦ rw f refl
  ]

  Landed-of_idle :
      (r : Rules) (vs : VaultState) (batch : PushBatch) (tail : List Op)
      → IsTail batch.ops (highest_seq vs.idem_cache c.client_id) tail
      → tail ≡ []
      → Landed r vs batch vs
  Landed-of_idle r vs batch tail cut e = record {
    tail = tail;
    is_tail = cut;
    admitted = rw e tt;
    staged = λ k. staged-nothing vs tail k e;
    wal = λ log w. w ∙ ap some (sym (rw e (append-nil log)));
  }

  Landed-of_Passed :
      (vs : VaultState) (batch : PushBatch) (after : VaultState) (r : Rules) (tail : List Op)
      → IsTail batch.ops (highest_seq vs.idem_cache c.client_id) tail
      → vs.rules ≡ some r
      → Passed glob is_nfc hash_bytes head_lookup wal_error cfg clock c vs batch.base tail after
      → Landed r vs batch after
  Landed-of_Passed vs batch after r tail cut e p =
      let start = made glob is_nfc hash_bytes head_lookup wal_error cfg clock c batch.base vs in
      let same : SameWork vs start = put_stage-SameWork c batch.base vs in
      record {
        tail = tail;
        is_tail = cut;
        admitted =
            check_ops-admits glob is_nfc (has c.caps clock.entry vault_admin) r tail
              (rw e at p.checked);
        staged = λ k.
            ap (λ vs. staged_ops vs k) p.left
            ∙ staged_ops-rounds hash_bytes wal_error clock c tail start k
            ∙ rw (same.staged k) refl;
        wal = λ log w.
            ap (λ (vs : VaultState). vs.wal) p.left
            ∙ wal-rounds hash_bytes wal_error clock c tail start log (same.wal ∙ w);
      }

  -- An ack of ok, on a vault with rules, means that the operations of the batch above the client's
  -- highest sequence number stand at the end of its stage and of the log, in their order and with the
  -- session's key as their author, that no other stage has changed, and that each of them passes
  -- `ValidateOp` with paths that `ValidatePath` accepts, does not touch the access file, touches the
  -- vaultconfig tree only where the client has vault.admin, and is allowed by the rules: a write is
  -- within the size limit, and its path, as the target of a rename, matches a [sync] pattern or is one
  -- of the control plane.
  pub push_locked-lands :
      (l : Limiter) (vs : VaultState) (batch : PushBatch) (r : Rules)
      → vs.rules ≡ some r
      → IsOk (push_locked glob is_nfc hash_bytes head_lookup wal_error cfg clock c l vs batch).reply
      → Landed r vs batch
          (push_locked glob is_nfc hash_bytes head_lookup wal_error cfg clock c l vs batch).vault
  push_locked-lands l vs batch r e h =
      let t =
        push_locked-ok glob is_nfc hash_bytes head_lookup wal_error cfg clock c l vs batch h in
      let cut = (filter_acked-eq_some_iff batch.ops _ t.tail).0 t.filtered in
      elim t.outcome [
        | inl idle ↦ rw idle.1 (Landed-of_idle r vs batch t.tail cut idle.0)
        | inr p ↦ Landed-of_Passed vs batch _ r t.tail cut e p
      ]
