-- ===== src/Merge/Classify/Rebase.antt =====
-- What the classification leaves of a staged operation.
use leyline.Base.{
  Bool-cases, List, Option, Text, inl, inr, none, not, refl, some, ◌||◌, ◌≡◌, ◌≢◌, ◌⊎◌,
}
use leyline.Protocol.Op.{Hash, Op, OpType, op_write}
use leyline.Merge.Hunks.{Diff}
use leyline.Merge.Format.Sidecar.{sidecar_path, sidecar_path-ne}
use leyline.Merge.ThreeWay.{three_way_merge}
use leyline.Merge.Classify.{
  Context, Decision, DiskAction, LogFormat, LogKind, action_apply, action_auto_merge,
  action_write_conflict, format_none, kind_binary, kind_none, kind_overlap, rebased,
}
use leyline.Merge.Classify.Content.{bytes_of, is_text}
use leyline.Merge.Classify.Route.{
  classify, classify_overlap, classify_pair, classify_write_write, rewrite, set_aside,
  write_overlap,
}

-- The predicate holds of the value, if there is one.
abbrev pub IfSome {ℓ κ} : {A : Type ℓ} → (A → Type κ) → Option A → Type κ
IfSome P none = Unit
IfSome P (some a) = P a

-- The content is on disk and staged as a write against what the server has.
pub record IsRewrite (server : Hash) (staged : Op) (d : Decision) (r : Op) : Type 0 where
  pub path : r.path ≡ staged.path
  pub pre_hash : r.pre_hash ≡ some server
  pub data_bytes : (r.data_bytes ≡ d.disk_content) × (r.data_bytes ≢ none)

-- The server's bytes are on disk, and the staged ones are at the sidecar, as a new file.
pub record IsSetAside (catchup staged : Op) (d : Decision) (r : Op) : Type 0 where
  pub path : (r.path ≡ d.sidecar_path) × (r.path ≢ catchup.path)
  pub pre_hash : r.pre_hash ≡ none
  pub data_bytes : (r.data_bytes ≡ staged.data_bytes) × (d.sidecar_content ≡ staged.data_bytes)
  pub disk_content : d.disk_content ≡ catchup.data_bytes

module _ (hash_bytes : Text → Hash) (diff : Text → Text → List Diff) where
  abbrev pub IsRebasedWrite : Op → Op → Decision → Type 0
  IsRebasedWrite catchup staged d =
      (r : Op) × (d.replacement_staged ≡ some r)
      × (r.type ≡ op_write)
      × (r.seq ≡ staged.seq)
      × (r.ts ≡ staged.ts)
      × (IsRewrite (hash_bytes (bytes_of catchup.data_bytes)) staged d r
          ⊎ IsSetAside catchup staged d r)

  set_aside-IsRebasedWrite :
      (kind : LogKind) (catchup staged : Op) (ctx : Context)
      → IsRebasedWrite catchup staged
          (set_aside action_apply catchup.data_bytes kind catchup.path staged ctx)
  unfolding set_aside rebased
  set_aside-IsRebasedWrite kind catchup staged ctx = (
    rebased op_write staged (sidecar_path catchup.path ctx.ts) staged.data_bytes none,
    refl,
    refl,
    refl,
    refl,
    inr record {
      path = (refl, (sidecar_path-ne catchup.path ctx.ts).0);
      pre_hash = refl;
      data_bytes = (refl, refl);
      disk_content = refl;
    },
  )

  rewrite-IsRebasedWrite :
      (action : DiskAction) (content : Text) (kind : LogKind) (format : LogFormat)
      (catchup staged : Op)
      → IsRebasedWrite catchup staged
          (rewrite hash_bytes diff action content kind format catchup staged)
  unfolding rewrite rebased
  rewrite-IsRebasedWrite action content kind format catchup staged = (
    rebased op_write staged staged.path (some content)
        (some (hash_bytes (bytes_of catchup.data_bytes))),
    refl,
    refl,
    refl,
    refl,
    inl record { path = refl; pre_hash = refl; data_bytes = (refl, λ e. cc) },
  )

  write_overlap-IsRebasedWrite :
      (content : Option Text) (format : LogFormat) (catchup staged : Op) (ctx : Context)
      → IsRebasedWrite catchup staged
          (write_overlap hash_bytes diff content format catchup staged ctx)
  unfolding write_overlap
  write_overlap-IsRebasedWrite none format catchup staged ctx =
      set_aside-IsRebasedWrite kind_overlap catchup staged ctx
  write_overlap-IsRebasedWrite (some content) format catchup staged ctx =
      rewrite-IsRebasedWrite action_write_conflict content kind_overlap format catchup staged

  pub classify_write_write-IsRebasedWrite :
      (catchup staged : Op) (ctx : Context)
      → IsRebasedWrite catchup staged (classify_write_write hash_bytes diff catchup staged ctx)
  unfolding classify_write_write
  classify_write_write-IsRebasedWrite catchup staged ctx =
      let res =
        three_way_merge diff ctx.base (bytes_of catchup.data_bytes) (bytes_of staged.data_bytes) in
      elim (Bool-cases (
        catchup.binary
        || staged.binary
        || not (is_text catchup.data_bytes)
        || not (is_text staged.data_bytes))) [
          | inl e ↦ rw e (set_aside-IsRebasedWrite kind_binary catchup staged ctx)
          | inr e ↦ elim (Bool-cases res.has_conflict) [
            | inl k ↦
                rw (e, k)
                  (unfold classify_overlap in write_overlap-IsRebasedWrite _ _ catchup staged ctx)
            | inr k ↦
                rw (e, k)
                  (rewrite-IsRebasedWrite action_auto_merge res.content kind_none format_none
                    catchup staged)
          ]
        ]

  classify_pair-IsRebasedWrite :
      (s t : OpType) (catchup staged : Op) (ctx : Context)
      → s ≡ op_write
      → t ≡ op_write
      → IsRebasedWrite catchup staged (classify_pair hash_bytes diff s t catchup staged ctx)
  unfolding classify_pair
  classify_pair-IsRebasedWrite s t catchup staged ctx hs ht =
      rw (hs, ht) (classify_write_write-IsRebasedWrite catchup staged ctx)

  -- A staged write that meets a catchup write on the same path is staged again, in its place and
  -- with its timestamp: either its path keeps it, with the content that is put on disk and the
  -- hash of the server's content as the one it replaces, or the server's content is put on disk
  -- and the staged bytes go, as a new file, to the sidecar, which has another path.
  pub classify-rebases_write :
      (catchup staged : Op) (ctx : Context)
      → catchup.type ≡ op_write
      → staged.type ≡ op_write
      → IsRebasedWrite catchup staged (classify hash_bytes diff catchup (some staged) ctx)
  unfolding classify
  classify-rebases_write catchup staged ctx hc hs =
      classify_pair-IsRebasedWrite catchup.type staged.type catchup staged ctx hc hs
