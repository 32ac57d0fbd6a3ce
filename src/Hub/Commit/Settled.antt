-- ===== src/Hub/Commit/Settled.antt =====
-- What a commit leaves of the stages and of the log.
use leyline.Base.{
  All, All-keep, Bool, Bool-cases, List, Option, Text, [], arith, false, if◌then◌else◌, inl, inr,
  keep, length, none, refl, some, sym, text_eq, text_eq_iff, true, ◌==◌, ◌∙◌, ◌∷◌, ◌≡◌, ◌≢◌, ◌⊎◌,
}
use leyline.Base.Dict
use leyline.Protocol.Op.{Hash, Op}
use leyline.ServerStage.{Stage, reset}
use leyline.Hub.State.{VaultState, WalEntry}
use leyline.Hub.Push.Refusal.{staged_ops}
use leyline.Hub.Recovery.Durable.{IsDurable, logged_ops}
use leyline.Hub.Commit.{
  Truncation, after_commit, commit_found, commit_stage, failed_after, failed_before, settle,
  truncate_client, truncated, without_truncation,
}
use leyline.Hub.Recovery.{is_replayable}

logged_ops-truncate :
    (client_id k : Text) (log : List WalEntry)
    → logged_ops k (truncate_client client_id log)
      ≡ (if text_eq client_id k then [] else logged_ops k log)
unfolding truncate_client logged_ops
logged_ops-truncate client_id k [] = ground arith
logged_ops-truncate client_id k (e ∷ es) = elim (Bool-cases (text_eq e.client_id client_id)) [
  | inl same ↦ elim (Bool-cases (text_eq client_id k)) [
    | inl own ↦ rw (same, own, keep) (logged_ops-truncate client_id k es ∙ rw own refl)
    | inr apart ↦
        let skipped : text_eq e.client_id k ≡ false =
          rw (sym ((text_eq_iff e.client_id client_id).0 same)) at apart in
        rw (same, apart, skipped, keep) (logged_ops-truncate client_id k es ∙ rw apart refl)
  ]
  | inr differs ↦ elim (Bool-cases (text_eq client_id k)) [
    | inl own ↦
        let skipped : text_eq e.client_id k ≡ false =
          rw ((text_eq_iff client_id k).0 own) at differs in
        rw (differs, own, skipped, keep) (logged_ops-truncate client_id k es ∙ rw own refl)
    | inr apart ↦ rw (differs, apart, keep, logged_ops-truncate client_id k es, apart) refl
  ]
]

replayable-truncate :
    (is_nfc : Text → Bool) (client_id : Text) (log : List WalEntry)
    → All (λ (e : WalEntry). is_replayable is_nfc e.op ≡ true) log
    → All (λ (e : WalEntry). is_replayable is_nfc e.op ≡ true) (truncate_client client_id log)
unfolding truncate_client
replayable-truncate is_nfc client_id log h = All-keep _ _ log h

module _ (git_commit : List Op → Text → Option Hash) (truncation : Truncation)
    (persist_error : Bool) (vault_id : Text) where
  settle-staged :
      (vs : VaultState) (st : Stage) (head : Hash) (k : Text)
      → staged_ops (settle git_commit truncation persist_error vault_id vs st head).vault k
        ≡ (if text_eq st.client_id k then [] else staged_ops vs k)
  unfolding settle staged_ops reset
  settle-staged vs st head k =
      rw (Dict.get-put vs.stages st.client_id k _)
        (elim (Bool-cases (text_eq st.client_id k)) [ inl e ↦ rw e refl | inr e ↦ rw e refl ])

  settle-IsDurable :
      (is_nfc : Text → Bool) (vs : VaultState) (st : Stage) (head : Hash) (log : List WalEntry)
      → IsDurable is_nfc vs log
      → IsDurable is_nfc
          (settle git_commit truncation persist_error vault_id vs st head).vault
          (truncate_client st.client_id log)
  unfolding settle
  settle-IsDurable is_nfc vs st head log d = record {
    wal = rw d.wal refl;
    mirrors = λ k.
        settle-staged vs st head k
        ∙ rw (d.mirrors k) refl
        ∙ sym (logged_ops-truncate st.client_id k log);
    replayable = replayable-truncate is_nfc st.client_id log d.replayable;
  }

  -- A log in step with the stages of a state.
  abbrev SomeDurable : (Text → Bool) → VaultState → Type 0
  SomeDurable is_nfc vs = (log : List WalEntry) × IsDurable is_nfc vs log

  without_truncation-IsDurable :
      (is_nfc : Text → Bool) (vs : VaultState) (st : Stage) (head : Hash) (log : List WalEntry)
      (o : Option (List WalEntry))
      → IsDurable is_nfc vs log
      → SomeDurable is_nfc
          (without_truncation git_commit truncation persist_error vault_id vs st head vs o).vault
  unfolding without_truncation
  without_truncation-IsDurable is_nfc vs st head log none d =
      (truncate_client st.client_id log, settle-IsDurable is_nfc vs st head log d)
  without_truncation-IsDurable is_nfc vs st head log (some w) d = (log, d)

  after_commit-IsDurable :
      (is_nfc : Text → Bool) (vs : VaultState) (st : Stage) (head : Hash) (log : List WalEntry)
      (t : Truncation)
      → t ≢ failed_after
      → IsDurable is_nfc vs log
      → SomeDurable is_nfc
          (after_commit git_commit truncation persist_error vault_id vs st head t).vault
  unfolding after_commit
  after_commit-IsDurable is_nfc vs st head log truncated n d =
      (truncate_client st.client_id log, settle-IsDurable is_nfc vs st head log d)
  after_commit-IsDurable is_nfc vs st head log failed_before n d =
      without_truncation-IsDurable is_nfc vs st head log vs.wal d
  after_commit-IsDurable is_nfc vs st head log failed_after n d = absurd (n refl)

  commit_found-IsDurable :
      (is_nfc : Text → Bool) (vs : VaultState) (st : Stage) (o : Option Hash) (log : List WalEntry)
      → truncation ≢ failed_after
      → IsDurable is_nfc vs log
      → SomeDurable is_nfc (commit_found git_commit truncation persist_error vault_id vs st o).vault
  unfolding commit_found
  commit_found-IsDurable is_nfc vs st none log n d = (log, d)
  commit_found-IsDurable is_nfc vs st (some head) log n d =
      after_commit-IsDurable is_nfc vs st head log truncation n d

  -- Where the log mirrors the stages, some log mirrors them after a commit, whatever it comes to,
  -- unless the truncation of the log fails after its file was replaced.
  pub commit_stage-IsDurable :
      (is_nfc : Text → Bool) (vs : VaultState) (st : Stage) (log : List WalEntry)
      → truncation ≢ failed_after
      → IsDurable is_nfc vs log
      → (later : List WalEntry) × IsDurable is_nfc
          (commit_stage git_commit truncation persist_error vault_id vs st).vault
          later
  unfolding commit_stage
  commit_stage-IsDurable is_nfc vs st log n d = elim (Bool-cases (length st.ops == 0)) [
    | inl e ↦ rw e (log, d)
    | inr e ↦ rw e (commit_found-IsDurable is_nfc vs st _ log n d)
  ]

  -- The stage of each client after a commit is that of before, or empty.
  abbrev Fewer : VaultState → VaultState → Type 0
  Fewer vs after = (k : Text) → (staged_ops after k ≡ staged_ops vs k) ⊎ (staged_ops after k ≡ [])

  settle-Fewer :
      (vs : VaultState) (st : Stage) (head : Hash)
      → Fewer vs (settle git_commit truncation persist_error vault_id vs st head).vault
  settle-Fewer vs st head k = elim (Bool-cases (text_eq st.client_id k)) [
    | inl e ↦ inr (settle-staged vs st head k ∙ rw e refl)
    | inr e ↦ inl (settle-staged vs st head k ∙ rw e refl)
  ]

  without_truncation-Fewer :
      (vs left : VaultState) (st : Stage) (head : Hash) (o : Option (List WalEntry))
      → Fewer vs left
      → Fewer vs
          (without_truncation git_commit truncation persist_error vault_id vs st head left o).vault
  unfolding without_truncation
  without_truncation-Fewer vs left st head none f = settle-Fewer vs st head
  without_truncation-Fewer vs left st head (some log) f = f

  after_commit-Fewer :
      (vs : VaultState) (st : Stage) (head : Hash) (t : Truncation)
      → Fewer vs (after_commit git_commit truncation persist_error vault_id vs st head t).vault
  unfolding after_commit staged_ops
  after_commit-Fewer vs st head truncated = settle-Fewer vs st head
  after_commit-Fewer vs st head failed_before =
      without_truncation-Fewer vs vs st head vs.wal (λ k. inl refl)
  after_commit-Fewer vs st head failed_after =
      without_truncation-Fewer vs _ st head vs.wal (λ k. inl refl)

  commit_found-Fewer :
      (vs : VaultState) (st : Stage) (o : Option Hash)
      → Fewer vs (commit_found git_commit truncation persist_error vault_id vs st o).vault
  unfolding commit_found
  commit_found-Fewer vs st none = λ k. inl refl
  commit_found-Fewer vs st (some head) = after_commit-Fewer vs st head truncation

  pub commit_stage-fewer :
      (vs : VaultState) (st : Stage) (k : Text)
      → (staged_ops (commit_stage git_commit truncation persist_error vault_id vs st).vault k
          ≡ staged_ops vs k)
        ⊎ (staged_ops (commit_stage git_commit truncation persist_error vault_id vs st).vault k
            ≡ [])
  unfolding commit_stage
  commit_stage-fewer vs st k = elim (Bool-cases (length st.ops == 0)) [
    | inl e ↦ rw e (inl refl)
    | inr e ↦ rw e (commit_found-Fewer vs st _ k)
  ]
