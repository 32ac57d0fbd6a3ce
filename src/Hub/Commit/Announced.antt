-- ===== src/Hub/Commit/Announced.antt =====
-- What the announcement of a commit says.
use leyline.Base.{
  Bool, Bool-cases, List, Option, Text, [], false, inl, inr, length, none, refl, some, sym, text_eq,
  text_eq_refl, ◌==◌, ◌≡◌,
}
use leyline.Base.Dict
use leyline.Protocol.Op.{Hash, Op}
use leyline.ServerStage.{Stage, reset}
use leyline.Hub.Sizes.{apply_sizes}
use leyline.Hub.State.{VaultState, WalEntry}
use leyline.Hub.Push.Refusal.{staged_ops}
use leyline.Hub.Commit.{
  Commit, Truncation, after_commit, commit_found, commit_stage, committed, failed_after,
  failed_before, settle, truncated, without_truncation,
}

module _ (git_commit : List Op → Text → Option Hash) (truncation : Truncation)
    (persist_error : Bool) (vault_id : Text) where
  -- What is left when the stage was committed as `head`.
  pub record IsSettled (vs : VaultState) (st : Stage) (head : Hash) (after : VaultState)
      : Type 0 where
    pub own : staged_ops after st.client_id ≡ []
    pub others : (k : Text) → text_eq st.client_id k ≡ false → staged_ops after k ≡ staged_ops vs k
    pub sizes : after.sizes ≡ apply_sizes vs.sizes st.ops
    pub head_hash : after.head_hash ≡ head

  settle-IsSettled :
      (vs : VaultState) (st : Stage) (head : Hash)
      → IsSettled vs st head (settle git_commit truncation persist_error vault_id vs st head).vault
  unfolding settle staged_ops reset
  settle-IsSettled vs st head = record {
    own = rw (Dict.get-put vs.stages st.client_id st.client_id _, text_eq_refl st.client_id) refl;
    others = λ k e. rw (Dict.get-put vs.stages st.client_id k _, e) refl;
    sizes = refl;
    head_hash = refl;
  }

  -- The operations of the stage, and the state that is left.
  abbrev Announces : VaultState → Stage → Hash → List Op → Commit → Type 0
  Announces vs st head ops done = (ops ≡ st.ops) × IsSettled vs st head done.vault

  settle-Announces :
      (vs : VaultState) (st : Stage) (head found : Hash) (ops : List Op)
      → (settle git_commit truncation persist_error vault_id vs st head).result
        ≡ committed found ops
      → Announces vs st found ops (settle git_commit truncation persist_error vault_id vs st head)
  unfolding settle
  settle-Announces vs st head found ops h =
      let same : head ≡ found = cc h in
      let whole : ops ≡ st.ops = cc h in (whole, rw (sym same) (settle-IsSettled vs st head))

  without_truncation-Announces :
      (vs left : VaultState) (st : Stage) (head found : Hash) (ops : List Op)
      (o : Option (List WalEntry))
      → (without_truncation git_commit truncation persist_error vault_id vs st head left o).result
        ≡ committed found ops
      → Announces vs st found ops
          (without_truncation git_commit truncation persist_error vault_id vs st head left o)
  unfolding without_truncation
  without_truncation-Announces vs left st head found ops none h =
      settle-Announces vs st head found ops h
  without_truncation-Announces vs left st head found ops (some w) h = cc h

  after_commit-Announces :
      (vs : VaultState) (st : Stage) (head found : Hash) (ops : List Op) (t : Truncation)
      → (after_commit git_commit truncation persist_error vault_id vs st head t).result
        ≡ committed found ops
      → Announces vs st found ops
          (after_commit git_commit truncation persist_error vault_id vs st head t)
  unfolding after_commit
  after_commit-Announces vs st head found ops truncated h = settle-Announces vs st head found ops h
  after_commit-Announces vs st head found ops failed_before h =
      without_truncation-Announces vs _ st head found ops vs.wal h
  after_commit-Announces vs st head found ops failed_after h =
      without_truncation-Announces vs _ st head found ops vs.wal h

  commit_found-Announces :
      (vs : VaultState) (st : Stage) (found : Hash) (ops : List Op) (o : Option Hash)
      → (commit_found git_commit truncation persist_error vault_id vs st o).result
        ≡ committed found ops
      → Announces vs st found ops
          (commit_found git_commit truncation persist_error vault_id vs st o)
  unfolding commit_found
  commit_found-Announces vs st found ops none h = cc h
  commit_found-Announces vs st found ops (some head) h =
      after_commit-Announces vs st head found ops truncation h

  -- A commit that announces operations announces those of the stage, all of them and in order, and
  -- leaves the stage empty, the other stages as they were, the sizes as `Apply` of the operations
  -- makes them, and the announced hash as HEAD.
  pub commit_stage-IsSettled :
      (vs : VaultState) (st : Stage) (head : Hash) (ops : List Op)
      → (commit_stage git_commit truncation persist_error vault_id vs st).result
        ≡ committed head ops
      → (ops ≡ st.ops)
        × IsSettled vs st head
            (commit_stage git_commit truncation persist_error vault_id vs st).vault
  unfolding commit_stage
  commit_stage-IsSettled vs st head ops = elim (Bool-cases (length st.ops == 0)) [
    | inl e ↦ rw e (λ h. cc h)
    | inr e ↦ rw e (commit_found-Announces vs st head ops _)
  ]
