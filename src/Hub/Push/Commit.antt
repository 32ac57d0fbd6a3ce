-- ===== src/Hub/Push/Commit.antt =====
-- What the loop of a push leaves in the stage, the log and the caches.
use leyline.Base.{
  Bool, Bool-cases, List, Option, Text, [], ap, append-nil, append_assoc, arith, false,
  if◌then◌else◌, inl, inr, is_none, map, none, not, refl, some, sym, text_eq, text_eq_iff,
  text_eq_refl, true, ℕ, ◌&&◌, ◌++◌, ◌∙◌, ◌∷◌, ◌≡◌, ◌≤◌,
}
use leyline.Base.Dict
use leyline.Protocol.Op.{Hash, Op}
use leyline.ServerStage.{Stage, append, new_stage}
use leyline.ServerStage.IdemCache.{highest_seq}
use leyline.ServerStage.IdemCache.Highest.{highest_seq-accept, max}
use leyline.Hub.Ops.Acked.{AreAcked}
use leyline.Hub.State.{Client, VaultState, WalEntry}
use leyline.Hub.Push.{
  Clock, accept_op, commit_ops, note_ring, put_stage, stage_of, stage_op, stage_or_new, stamped,
}
use leyline.Hub.Push.Refusal.{ops_or_none, staged_ops}

module _ (hash_bytes : Text → Hash) (wal_error : Op → Bool) (clock : Clock) (c : Client) where
  -- One round of the loop, where the log takes the operation.
  pub round : Op → VaultState → VaultState
  round op vs =
      note_ring hash_bytes c op
        (accept_op hash_bytes wal_error clock c op (stage_op hash_bytes wal_error clock c op vs))

  -- All rounds.
  pub rounds : List Op → VaultState → VaultState
  unfolding round
  rounds [] vs = vs
  rounds (op ∷ ops) vs = rounds ops (round op vs)

  pub commit_ops-rounds :
      (ops : List Op) (vs : VaultState)
      → (commit_ops hash_bytes wal_error clock c ops vs).0 ≡ true
      → (commit_ops hash_bytes wal_error clock c ops vs).1 ≡ rounds ops vs
  unfolding commit_ops rounds
  commit_ops-rounds [] vs h = refl
  commit_ops-rounds (op ∷ ops) vs h =
      elim (Bool-cases (not (is_none vs.wal) && wal_error (stamped hash_bytes c op))) [
        | inl e ↦ let no : false ≡ true = rw e at h in cc
        | inr e ↦ rw e (commit_ops-rounds ops (round op vs) (rw e at h))
      ]

  ops-stage_or_new : (o : Option Stage) → (stage_or_new c o).ops ≡ ops_or_none o
  unfolding new_stage
  ops-stage_or_new none = refl
  ops-stage_or_new (some st) = refl

  ops-stage_of : (vs : VaultState) → (stage_of c vs).ops ≡ staged_ops vs c.client_id
  unfolding stage_of staged_ops
  ops-stage_of vs = ops-stage_or_new (Dict.get vs.stages c.client_id)

  staged_ops-stage_op :
      (op : Op) (vs : VaultState) (k : Text)
      → staged_ops (stage_op hash_bytes wal_error clock c op vs) k ≡ (
          if text_eq c.client_id k
          then staged_ops vs k ++ stamped hash_bytes c op ∷ []
          else staged_ops vs k)
  unfolding stage_op put_stage staged_ops
  staged_ops-stage_op op vs k =
      rw (Dict.get-put vs.stages c.client_id k _) (elim (Bool-cases (text_eq c.client_id k)) [
        | inl e ↦
            rw (e, sym ((text_eq_iff c.client_id k).0 e))
              (unfold append in ap (λ os. os ++ stamped hash_bytes c op ∷ []) (ops-stage_of vs))
        | inr e ↦ rw e refl
      ])

  staged_ops-round :
      (op : Op) (vs : VaultState) (k : Text)
      → staged_ops (round op vs) k ≡ (
          if text_eq c.client_id k
          then staged_ops vs k ++ stamped hash_bytes c op ∷ []
          else staged_ops vs k)
  unfolding round note_ring accept_op staged_ops
  staged_ops-round op vs k = staged_ops-stage_op op vs k

  pub staged_ops-rounds :
      (ops : List Op) (vs : VaultState) (k : Text)
      → staged_ops (rounds ops vs) k ≡ (
          if text_eq c.client_id k
          then staged_ops vs k ++ map (stamped hash_bytes c) ops
          else staged_ops vs k)
  unfolding rounds
  staged_ops-rounds [] vs k = elim (Bool-cases (text_eq c.client_id k)) [
    | inl e ↦ rw e (sym (append-nil (staged_ops vs k)))
    | inr e ↦ rw e refl
  ]
  staged_ops-rounds (op ∷ ops) vs k = elim (Bool-cases (text_eq c.client_id k)) [
    | inl e ↦
        rw (staged_ops-rounds ops (round op vs) k, staged_ops-round op vs k, e)
          (append_assoc (staged_ops vs k) _ _)
    | inr e ↦ rw (staged_ops-rounds ops (round op vs) k, staged_ops-round op vs k, e) refl
  ]

  -- The records that a batch adds to the log.
  abbrev pub logged : List Op → List WalEntry
  logged ops = map (λ op. record { client_id = c.client_id; op = stamped hash_bytes c op }) ops

  pub wal-rounds :
      (ops : List Op) (vs : VaultState) (log : List WalEntry)
      → vs.wal ≡ some log
      → (rounds ops vs).wal ≡ some (log ++ logged ops)
  unfolding rounds round note_ring accept_op stage_op put_stage
  wal-rounds [] vs log h = rw (append-nil log) h
  wal-rounds (op ∷ ops) vs log h =
      wal-rounds ops (round op vs)
        (log ++ record { client_id = c.client_id; op = stamped hash_bytes c op } ∷ []) (rw h refl)
      ∙ ap some (append_assoc log _ _)

  abbrev pub highest : VaultState → ℕ
  highest vs = highest_seq vs.idem_cache c.client_id

  highest-round : (op : Op) (vs : VaultState) → highest (round op vs) ≡ max (highest vs) op.seq
  unfolding round note_ring accept_op stage_op put_stage
  highest-round op vs =
      highest_seq-accept vs.idem_cache
        (record { client_id = c.client_id; seq = op.seq; now = clock.appended op.seq }) c.client_id
      ∙ rw (text_eq_refl c.client_id) refl

  pub highest-rounds :
      (ops : List Op) (vs : VaultState)
      → (highest vs ≤ highest (rounds ops vs)) × AreAcked (highest (rounds ops vs)) ops
  unfolding rounds
  highest-rounds [] vs = (omega arith, tt)
  highest-rounds (op ∷ ops) vs =
      let later = highest-rounds ops (round op vs) in
      (
        ground (arith, later.0, highest-round op vs),
        (ground (arith, later.0, highest-round op vs), later.1),
      )

  -- The part of a batch that the loop stages, all of it unless the log fails.
  pub record Lands (ops : List Op) (vs after : VaultState) : Type 0 where
    pub landed : List Op
    pub rest : List Op
    pub splits : ops ≡ landed ++ rest
    pub staged :
        (k : Text)
        → staged_ops after k ≡ (
            if text_eq c.client_id k
            then staged_ops vs k ++ map (stamped hash_bytes c) landed
            else staged_ops vs k)

  Lands-cons :
      (op : Op) (ops : List Op) (vs after : VaultState)
      → Lands ops (round op vs) after
      → Lands (op ∷ ops) vs after
  Lands-cons op ops vs after l = record {
    landed = op ∷ l.landed;
    rest = l.rest;
    splits = ap (◌∷◌ op) l.splits;
    staged = λ k. elim (Bool-cases (text_eq c.client_id k)) [
      | inl e ↦ rw (l.staged k, staged_ops-round op vs k, e) (append_assoc (staged_ops vs k) _ _)
      | inr e ↦ rw (l.staged k, staged_ops-round op vs k, e) refl
    ];
  }

  pub commit_ops-Lands :
      (ops : List Op) (vs : VaultState)
      → Lands ops vs (commit_ops hash_bytes wal_error clock c ops vs).1
  unfolding commit_ops round
  commit_ops-Lands [] vs = record {
    landed = [];
    rest = [];
    splits = refl;
    staged = λ k. elim (Bool-cases (text_eq c.client_id k)) [
      | inl e ↦ rw e (sym (append-nil (staged_ops vs k)))
      | inr e ↦ rw e refl
    ];
  }
  commit_ops-Lands (op ∷ ops) vs =
      elim (Bool-cases (not (is_none vs.wal) && wal_error (stamped hash_bytes c op))) [
        | inl e ↦ rw e (record {
          landed = op ∷ [];
          rest = ops;
          splits = refl;
          staged = staged_ops-stage_op op vs;
        })
        | inr e ↦ rw e (Lands-cons op ops vs _ (commit_ops-Lands ops (round op vs)))
      ]
