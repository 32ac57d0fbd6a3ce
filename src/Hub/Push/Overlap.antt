-- ===== src/Hub/Push/Overlap.antt =====
-- At most one client's stage touches a path.
use leyline.Base.{
  All, Bool, Bool-cases, List, Option-cases, Text, [], any, arith, false, if◌then◌else◌, inl, inr,
  map, none, refl, some, sym, text_eq, text_eq_iff, true, ◌++◌, ◌||◌, ◌∙◌, ◌∷◌, ◌≡◌,
}
use leyline.Base.Dict
use leyline.Protocol.Op.{Hash, Op, OpType, op_delete, op_rename, op_write, other}
use leyline.ServerStage.{Stage, op_touches, touches}
use leyline.Hub.Ops.{path_of, primary_path}
use leyline.Hub.State.{Client, VaultState}
use leyline.Hub.Push.{has_overlapping_stage, stage_overlaps, stamped, touches_dest}
use leyline.Hub.Push.Refusal.{staged_ops}

-- Does a staged operation of the client touch the path?
abbrev pub is_touched : VaultState → Text → Text → Bool
is_touched vs client_id p = any (λ op. op_touches op.type op p) (staged_ops vs client_id)

-- No path is touched by the stages of two clients.
abbrev pub AreApart : VaultState → Type 0
AreApart vs =
    (j k p : Text) → text_eq j k ≡ false → is_touched vs j p ≡ true → is_touched vs k p ≡ false

overlap-touches :
    (t : OpType) (op : Op) (st : Stage) (p : Text)
    → (touches st (path_of t op) || touches_dest t op st) ≡ false
    → op_touches t op p ≡ true
    → touches st p ≡ false
unfolding path_of touches_dest op_touches
overlap-touches op_write op st p h e = rw (sym ((text_eq_iff op.path p).0 e)) (ground (arith, h))
overlap-touches op_delete op st p h e = rw (sym ((text_eq_iff op.path p).0 e)) (ground (arith, h))
overlap-touches op_rename op st p h e = elim (Bool-cases (text_eq op.from p)) [
  | inl f ↦ rw (sym ((text_eq_iff op.from p).0 f)) (ground (arith, h))
  | inr f ↦ rw (sym ((text_eq_iff op.to p).0 (ground (arith, e, f)))) (ground (arith, h))
]
overlap-touches (other t) op st p h e = cc

-- No stage but the client's own overlaps the operation.
abbrev pub IsFree : VaultState → Text → Op → Type 0
IsFree vs except op =
    (k : Text) (st : Stage)
    → Dict.get vs.stages k ≡ some st
    → text_eq k except ≡ false
    → stage_overlaps op st ≡ false

get-any :
    (m : List (Text × Stage)) (f : Text × Stage → Bool) (k : Text) (st : Stage)
    → any f m ≡ false
    → Dict.get m k ≡ some st
    → f (k, st) ≡ false
unfolding Dict.get
get-any [] f k st h e = cc
get-any ((j, s) ∷ m) f k st h e = elim (Bool-cases (text_eq j k)) [
  | inl same ↦
      let first : f (j, s) ≡ false = ground (arith, h) in
      let found : some s ≡ some st = rw same at e in
      let same_stage : s ≡ st = cc found in
      rw (sym ((text_eq_iff j k).0 same), sym same_stage) first
  | inr differs ↦ get-any m f k st (ground (arith, h)) (rw differs at e)
]

IsFree-of_any :
    (vs : VaultState) (except : Text) (ops : List Op)
    → ((k : Text) (st : Stage)
        → Dict.get vs.stages k ≡ some st
        → text_eq k except ≡ false
        → any (λ op. stage_overlaps op st) ops ≡ false)
    → All (IsFree vs except) ops
IsFree-of_any vs except [] h = tt
IsFree-of_any vs except (op ∷ ops) h = (
  (λ k st e n. ground (arith, h k st e n)),
  IsFree-of_any vs except ops (λ k st e n. ground (arith, h k st e n)),
)

pub has_overlapping_stage-IsFree :
    (vs : VaultState) (except : Text) (ops : List Op)
    → has_overlapping_stage vs.stages except ops ≡ false
    → All (IsFree vs except) ops
unfolding has_overlapping_stage
has_overlapping_stage-IsFree vs except ops h =
    IsFree-of_any vs except ops (λ k st e n. ground (arith, get-any vs.stages _ k st h e, n))

-- A state that has some of the client's operations more, none of which overlaps another stage.
pub record Adds (hash_bytes : Text → Hash) (c : Client) (vs after : VaultState) : Type 0 where
  pub landed : List Op
  pub free : All (IsFree vs c.client_id) landed
  pub staged :
      (k : Text)
      → staged_ops after k ≡ (
          if text_eq c.client_id k
          then staged_ops vs k ++ map (stamped hash_bytes c) landed
          else staged_ops vs k)

any-append : (f : Op → Bool) (xs ys : List Op) → any f (xs ++ ys) ≡ (any f xs || any f ys)
any-append f [] ys = refl
any-append f (x ∷ xs) ys = ground (arith, any-append f xs ys)

module _ (hash_bytes : Text → Hash) (c : Client) where
  touched-staged :
      (vs : VaultState) (k p : Text) (st : Stage)
      → Dict.get vs.stages k ≡ some st
      → is_touched vs k p ≡ touches st p
  unfolding staged_ops touches
  touched-staged vs k p st e = rw e refl

  op_touches-stamped :
      (t : OpType) (op : Op) (p : Text)
      → op_touches t (stamped hash_bytes c op) p ≡ op_touches t op p
  unfolding op_touches
  op_touches-stamped op_write op p = refl
  op_touches-stamped op_delete op p = refl
  op_touches-stamped op_rename op p = refl
  op_touches-stamped (other t) op p = refl

  untouched-none :
      (vs : VaultState) (k p : Text) → Dict.get vs.stages k ≡ none → is_touched vs k p ≡ false
  unfolding staged_ops
  untouched-none vs k p e = rw e refl

  -- Where another client's stage touches a path, an operation that is free does not.
  free-op :
      (vs : VaultState) (k p : Text) (op : Op)
      → IsFree vs c.client_id op
      → text_eq k c.client_id ≡ false
      → is_touched vs k p ≡ true
      → op_touches op.type op p ≡ false
  unfolding stage_overlaps primary_path
  free-op vs k p op free n h = elim (Bool-cases (op_touches op.type op p)) [
    | inr f ↦ f
    | inl f ↦ elim (Option-cases (Dict.get vs.stages k)) [
      | inl e ↦ let no : false ≡ true = sym (untouched-none vs k p e) ∙ h in cc
      | inr (st, e) ↦
          let no : false ≡ true =
            sym (overlap-touches op.type op st p (free k st e n) f)
            ∙ sym (touched-staged vs k p st e)
            ∙ h in
          cc
    ]
  ]

  free-touched :
      (vs : VaultState) (k p : Text) (landed : List Op)
      → All (IsFree vs c.client_id) landed
      → text_eq k c.client_id ≡ false
      → is_touched vs k p ≡ true
      → any (λ op. op_touches op.type op p) (map (stamped hash_bytes c) landed) ≡ false
  free-touched vs k p [] free n h = refl
  free-touched vs k p (op ∷ ops) free n h =
      rw (op_touches-stamped op.type op p, free-op vs k p op free.0 n h)
        (free-touched vs k p ops free.1 n h)

  touched-own :
      (vs after : VaultState) (k p : Text) (a : Adds hash_bytes c vs after)
      → text_eq c.client_id k ≡ true
      → is_touched after k p ≡ (
          is_touched vs k p
          || any (λ op. op_touches op.type op p) (map (stamped hash_bytes c) a.landed))
  touched-own vs after k p a e = rw (a.staged k, e) (any-append _ (staged_ops vs k) _)

  touched-other :
      (vs after : VaultState) (k p : Text)
      → Adds hash_bytes c vs after
      → text_eq c.client_id k ≡ false
      → is_touched after k p ≡ is_touched vs k p
  touched-other vs after k p a e = rw (a.staged k, e) refl

  text_eq-sym : (s t : Text) → text_eq s t ≡ false → text_eq t s ≡ false
  text_eq-sym s t h = ground (arith, h, text_eq_iff s t, text_eq_iff t s)

  own-blocks :
      (vs after : VaultState) (a : Adds hash_bytes c vs after)
      → AreApart vs
      → (j k p : Text) → text_eq j k ≡ false
      → text_eq c.client_id j ≡ true
      → text_eq c.client_id k ≡ false
      → is_touched after j p ≡ true
      → is_touched vs k p ≡ false
  own-blocks vs after a apart j k p n cj ck h = elim (Bool-cases (is_touched vs k p)) [
    | inr e ↦ e
    | inl e ↦
        let old : is_touched vs j p ≡ true = ground (
          arith,
          h,
          touched-own vs after j p a cj,
          free-touched vs k p a.landed a.free (text_eq-sym c.client_id k ck) e,
        ) in
        apart j k p n old
  ]

  -- The client of `j` is the one that pushed, or that of `k`, or neither.
  pub Adds-AreApart :
      (vs after : VaultState) → Adds hash_bytes c vs after → AreApart vs → AreApart after
  Adds-AreApart vs after a apart j k p n h = elim (Bool-cases (text_eq c.client_id j)) [
    | inl cj ↦
        let ck : text_eq c.client_id k ≡ false =
          ground
            (arith, n, cj, text_eq_iff c.client_id j, text_eq_iff c.client_id k, text_eq_iff j k) in
        touched-other vs after k p a ck ∙ own-blocks vs after a apart j k p n cj ck h
    | inr cj ↦ elim (Bool-cases (text_eq c.client_id k)) [
      | inl ck ↦
          let before : is_touched vs j p ≡ true = sym (touched-other vs after j p a cj) ∙ h in
          rw (touched-own vs after k p a ck, apart j k p n before)
            (free-touched vs j p a.landed a.free (text_eq-sym c.client_id j cj) before)
      | inr ck ↦
          touched-other vs after k p a ck
          ∙ apart j k p n (sym (touched-other vs after j p a cj) ∙ h)
    ]
  ]
