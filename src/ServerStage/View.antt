-- ===== src/ServerStage/View.antt =====
-- The tree that a list of operations leaves, as a function from paths: the specification of
-- `PathHash`, with no map that is filled on demand.
use leyline.Base.{
  List, Text, [], ap, arith, if◌then◌else◌, none, refl, some, text_eq, text_eq_iff, text_eq_refl,
  true, ◌++◌, ◌∙◌, ◌∷◌, ◌≡◌,
}
use leyline.Base.Dict
use leyline.Base.Dict.{get, get-put, put}
use mathlib.Core.Path.{fun_ext}
use leyline.Protocol.Op.{Hash, Op, OpType, op_delete, op_rename, op_write, other}
use leyline.ServerStage.{
  PathState, Stage, ensure_known, gone, moved, path_hash, path_states, path_step, payload,
}

abbrev pub View : Type 0
View = Text → PathState

abbrev pub update : View → Text → PathState → View
update v k ps j = if text_eq k j then ps else v j

-- A file that is there, or `gone`.
abbrev pub if_present : PathState → PathState
if_present ps = if ps.present then record { hash = ps.hash; present = true } else gone

module _ (hash_bytes : Text → Hash) where
  -- One operation as a change of the tree.
  unfoldable pub apply_op : OpType → Op → View → View
  apply_op op_write op v =
      update v op.path (record { hash = hash_bytes (payload op.data_bytes); present = true })
  apply_op op_delete op v = update v op.path gone
  apply_op op_rename op v = update (update v op.from gone) op.to (if_present (v op.from))
  apply_op (other t) op v = v

  unfoldable pub replay : List Op → View → View
  replay [] v = v
  replay (op ∷ ops) v = replay ops (apply_op op.type op v)

  pub replay-append : (xs ys : List Op) (v : View) → replay (xs ++ ys) v ≡ replay ys (replay xs v)
  unfolding replay
  replay-append [] ys v = refl
  replay-append (x ∷ xs) ys v = replay-append xs ys (apply_op x.type x v)

  module _ (head : View) where
    -- The tree that a partly filled map stands for.
    abbrev view_of : List (Text × PathState) → View
    view_of state p = elim (Dict.get state p) [ none ↦ head p | some ps ↦ ps ]

    view_of-put :
        (state : List (Text × PathState)) (k j : Text) (ps : PathState)
        → view_of (Dict.put state k ps) j ≡ update (view_of state) k ps j
    view_of-put state k j ps = ground (arith, get-put state k j ps)

    view_of-ensure_known :
        (state : List (Text × PathState)) (k j : Text)
        → view_of (ensure_known hash_bytes head state k) j ≡ view_of state j
    unfolding ensure_known
    view_of-ensure_known state k j = ground (arith, get-put state k j (head k), text_eq_iff k j)

    moved-ensure_known :
        (state : List (Text × PathState)) (k : Text)
        → moved hash_bytes head (Dict.get (ensure_known hash_bytes head state k) k)
          ≡ if_present (view_of state k)
    unfolding ensure_known
    moved-ensure_known state k = ground (arith, get-put state k k (head k), text_eq_refl k)

    view_of-path_step :
        (t : OpType) (op : Op) (state : List (Text × PathState)) (j : Text)
        → view_of (path_step hash_bytes head t op state) j ≡ apply_op t op (view_of state) j
    unfolding path_step apply_op
    view_of-path_step op_write op state j = view_of-put state op.path j _
    view_of-path_step op_delete op state j = view_of-put state op.path j _
    view_of-path_step op_rename op state j = ground (
      arith,
      get-put (ensure_known hash_bytes head state op.from) op.from j gone,
      view_of-ensure_known state op.from j,
      moved-ensure_known state op.from,
      get-put (Dict.put (ensure_known hash_bytes head state op.from) op.from gone) op.to j
          (moved hash_bytes head (Dict.get (ensure_known hash_bytes head state op.from) op.from)),
    )
    view_of-path_step (other t) op state j = refl

    view_of-path_states :
        (ops : List Op) (state : List (Text × PathState)) (v : View)
        → ((j : Text) → view_of state j ≡ v j)
        → (j : Text) → view_of (path_states hash_bytes head ops state) j ≡ replay ops v j
    unfolding path_states replay
    view_of-path_states [] state v h j = h j
    view_of-path_states (op ∷ ops) state v h j =
        view_of-path_states ops (path_step hash_bytes head op.type op state) (apply_op op.type op v)
          (λ i.
            view_of-path_step op.type op state i ∙ ap (λ w. apply_op op.type op w i) (fun_ext h))
          j

    -- `PathHash` returns the state of the path in the tree that the staged operations leave when
    -- they are applied in order to the committed tree.
    pub path_hash-replay :
        (s : Stage) (p : Text) → path_hash hash_bytes head s p ≡ replay s.ops head p
    unfolding path_hash
    path_hash-replay s p = view_of-path_states s.ops [] head (λ j. unfold Dict.get in refl) p
