-- ===== src/Merge/Classify/Validity.antt =====
-- Whether the staged operation that the classification leaves passes validation.
use leyline.Base.{
  Bool-cases, List, Option, Text, [], inl, inr, none, not, refl, some, ◌&&◌, ◌||◌, ◌≢◌,
}
use leyline.Protocol.Op.{
  HasFields, Hash, IsValid, Op, OpType, op_delete, op_rename, op_write, other,
}
use leyline.Merge.Hunks.{Diff}
use leyline.Merge.Format.Sidecar.{sidecar_path, sidecar_path-ne_nil}
use leyline.Merge.ThreeWay.{three_way_merge}
use leyline.Merge.Classify.{
  Context, DiskAction, LogFormat, LogKind, action_apply, action_apply_rename, action_auto_merge,
  action_write_conflict, action_write_sidecar, decision, format_none, kind_binary,
  kind_delete_vs_edit, kind_none, kind_overlap, kind_rename_collision, rebased,
}
use leyline.Merge.Classify.Content.{
  bytes_of, choose_format_for_path, delete_vs_edit_content, is_text,
}
use leyline.Merge.Classify.Route.{
  at_dest, at_source, classify, classify_overlap, classify_pair, classify_write_write, is_sidecar,
  rewrite, set_aside, write_overlap,
}
use leyline.Merge.Classify.Rebase.{IfSome}

-- An operation with the fields of a write, from one with a valid sequence number and timestamp.
rebased_write-IsValid :
    (staged : Op) (path : Text) (data_bytes : Option Text) (pre_hash : Option Hash)
    → IsValid staged
    → path ≢ []
    → data_bytes ≢ none
    → IsValid (rebased op_write staged path data_bytes pre_hash)
unfolding rebased
rebased_write-IsValid staged path data_bytes pre_hash v p d = record {
  seq = v.seq;
  ts = v.ts;
  fields = (p, d, refl, refl);
}

rebased_delete-IsValid :
    (staged : Op) (path : Text) (pre_hash : Option Hash)
    → IsValid staged
    → path ≢ []
    → pre_hash ≢ none
    → IsValid (rebased op_delete staged path none pre_hash)
unfolding rebased
rebased_delete-IsValid staged path pre_hash v p h = record {
  seq = v.seq;
  ts = v.ts;
  fields = (p, h, refl, refl, refl, refl);
}

-- The types of operation that name one path.
abbrev pub IsFileOp : OpType → Type 0
IsFileOp op_write = Unit
IsFileOp op_delete = Unit
IsFileOp _ = ⊥

module _ (hash_bytes : Text → Hash) (diff : Text → Text → List Diff) where
  set_aside-Passes :
      (action : DiskAction) (content : Option Text) (kind : LogKind) (path : Text) (staged : Op)
      (ctx : Context)
      → IsValid staged
      → staged.data_bytes ≢ none
      → IfSome IsValid (set_aside action content kind path staged ctx).replacement_staged
  unfolding set_aside
  set_aside-Passes action content kind path staged ctx v d =
      rebased_write-IsValid staged (sidecar_path path ctx.ts) staged.data_bytes none v
        (sidecar_path-ne_nil path ctx.ts) d

  rewrite-Passes :
      (action : DiskAction) (content : Text) (kind : LogKind) (format : LogFormat)
      (catchup staged : Op)
      → IsValid staged
      → staged.path ≢ []
      → IfSome IsValid
          (rewrite hash_bytes diff action content kind format catchup staged).replacement_staged
  unfolding rewrite
  rewrite-Passes action content kind format catchup staged v p =
      rebased_write-IsValid staged staged.path (some content)
        (some (hash_bytes (bytes_of catchup.data_bytes))) v p (λ e. cc)

  write_overlap-Passes :
      (content : Option Text) (format : LogFormat) (catchup staged : Op) (ctx : Context)
      → IsValid staged
      → staged.path ≢ []
      → staged.data_bytes ≢ none
      → IfSome IsValid
          (write_overlap hash_bytes diff content format catchup staged ctx).replacement_staged
  unfolding write_overlap
  write_overlap-Passes none format catchup staged ctx v p d =
      set_aside-Passes action_apply catchup.data_bytes kind_overlap catchup.path staged ctx v d
  write_overlap-Passes (some content) format catchup staged ctx v p d =
      rewrite-Passes action_write_conflict content kind_overlap format catchup staged v p

  classify_write_write-Passes :
      (catchup staged : Op) (ctx : Context)
      → IsValid staged
      → staged.path ≢ []
      → staged.data_bytes ≢ none
      → IfSome IsValid (classify_write_write hash_bytes diff catchup staged ctx).replacement_staged
  unfolding classify_write_write
  classify_write_write-Passes catchup staged ctx v p d =
      let res =
        three_way_merge diff ctx.base (bytes_of catchup.data_bytes) (bytes_of staged.data_bytes) in
      elim (Bool-cases (
        catchup.binary
        || staged.binary
        || not (is_text catchup.data_bytes)
        || not (is_text staged.data_bytes))) [
          | inl e ↦
              rw (e, IfSome)
                (set_aside-Passes action_apply catchup.data_bytes kind_binary catchup.path staged
                  ctx v d)
          | inr e ↦ elim (Bool-cases res.has_conflict) [
            | inl k ↦
                rw (e, k, IfSome)
                  (unfold classify_overlap in write_overlap-Passes _ _ catchup staged ctx v p d)
            | inr k ↦
                rw (e, k, IfSome)
                  (rewrite-Passes action_auto_merge res.content kind_none format_none catchup staged
                    v p)
          ]
        ]

  classify_pair-Passes :
      (s t : OpType) (catchup staged : Op) (ctx : Context)
      → HasFields s catchup
      → HasFields t staged
      → IsFileOp t
      → IsValid staged
      → IfSome IsValid (classify_pair hash_bytes diff s t catchup staged ctx).replacement_staged
  unfolding classify_pair decision
  classify_pair-Passes op_write op_write catchup staged ctx hs ht k v =
      classify_write_write-Passes catchup staged ctx v ht.0 ht.1
  classify_pair-Passes op_write op_delete catchup staged ctx hs ht k v =
      rebased_delete-IsValid staged staged.path (some (hash_bytes (bytes_of catchup.data_bytes))) v
        ht.0 (λ e. cc)
  classify_pair-Passes op_delete op_write catchup staged ctx hs ht k v =
      elim (Bool-cases (
        staged.binary
        || not (is_text staged.data_bytes)
        || is_sidecar (choose_format_for_path catchup.path ctx.diff_mode))) [
          | inl e ↦
              rw (e, IfSome)
                (set_aside-Passes action_write_sidecar none kind_delete_vs_edit catchup.path staged
                  ctx v ht.1)
          | inr e ↦
              rw (e, IfSome)
                (rebased_write-IsValid staged catchup.path
                  (some (delete_vs_edit_content staged.data_bytes catchup.path ctx)) none v hs.0
                  (λ d. cc))
        ]
  classify_pair-Passes op_delete op_delete catchup staged ctx hs ht k v = tt
  classify_pair-Passes op_rename op_write catchup staged ctx hs ht k v =
      elim (Bool-cases
        (at_dest op_write catchup staged && not (at_source op_write catchup staged))) [
          | inl e ↦
              rw (e, IfSome)
                (set_aside-Passes action_apply_rename none kind_rename_collision catchup.to staged
                  ctx v ht.1)
          | inr e ↦
              rw (e, IfSome)
                (rebased_write-IsValid staged catchup.to staged.data_bytes none v hs.1 ht.1)
        ]
  classify_pair-Passes op_rename op_delete catchup staged ctx hs ht k v =
      rebased_delete-IsValid staged catchup.to staged.pre_hash v hs.1 ht.1
  classify_pair-Passes (other s) op_write catchup staged ctx hs ht k v = absurd hs
  classify_pair-Passes (other s) op_delete catchup staged ctx hs ht k v = absurd hs
  classify_pair-Passes s op_rename catchup staged ctx hs ht k v = absurd k
  classify_pair-Passes s (other t) catchup staged ctx hs ht k v = absurd k

  -- Where the catchup operation passes validation and the staged one does and is a write or a
  -- delete, the operation that is staged in its place, if there is one, passes validation.
  pub classify-passes_validation :
      (catchup staged : Op) (ctx : Context)
      → IsValid catchup
      → IsValid staged
      → IsFileOp staged.type
      → IfSome IsValid (classify hash_bytes diff catchup (some staged) ctx).replacement_staged
  unfolding classify
  classify-passes_validation catchup staged ctx c v k =
      classify_pair-Passes catchup.type staged.type catchup staged ctx c.fields v.fields k v
