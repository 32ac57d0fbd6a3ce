-- ===== src/Protocol/Op.antt =====
-- protocol/op.go and protocol/hash.go: the unit of intent, and its validation.
use leyline.Base.{
  Bool, Option, Text, [], arith, false, if◌then◌else◌, is_empty, is_none, none, not, refl, some,
  suc, true, zero, ℕ, ◌<◌, ◌==◌, ◌||◌, ◌↔◌, ◌≡◌, ◌≢◌,
}
use leyline.Base.Int.{is_positive, negsuc, pos, ℤ}

-- A `Hash` is an array of bytes, compared as a whole.
abbrev pub Hash : Type 0
Hash = Text

-- The field `Type`: one of the three constants, or any other string.
pub data OpType : Type 0 where
  op_write op_delete op_rename : OpType
  other : Text → OpType

-- `data_bytes` is the field `Data`, where a nil slice is `none`; `none` for `pre_hash` is nil too.
pub record Op : Type 0 where
  pub seq : ℕ
  pub type : OpType
  pub path : Text
  pub from : Text
  pub to : Text
  pub data_bytes : Option Text
  pub binary : Bool
  pub pre_hash : Option Hash
  pub ts : ℤ
  pub author : Text

-- The messages of `ValidateOp`, all of which wrap `ErrInvalidDataErr`.
pub data InvalidOp : Type 0 where
  bad_seq bad_ts no_path no_data has_from_to no_pre_hash has_data has_path no_from_to : InvalidOp
  unknown_type : Text → InvalidOp

-- The `switch` of `ValidateOp`.
unfoldable pub validate_fields : OpType → Op → Option InvalidOp
validate_fields op_write op =
    if is_empty op.path
    then some no_path
    else if is_none op.data_bytes
    then some no_data
    else if not (is_empty op.from) || not (is_empty op.to)
    then some has_from_to
    else none
validate_fields op_delete op =
    if is_empty op.path
    then some no_path
    else if is_none op.pre_hash
    then some no_pre_hash
    else if not (is_none op.data_bytes) || op.binary
    then some has_data
    else if not (is_empty op.from) || not (is_empty op.to)
    then some has_from_to
    else none
validate_fields op_rename op =
    if is_empty op.from || is_empty op.to
    then some no_from_to
    else if is_none op.pre_hash
    then some no_pre_hash
    else if not (is_empty op.path)
    then some has_path
    else if not (is_none op.data_bytes) || op.binary
    then some has_data
    else none
validate_fields (other t) op = some (unknown_type t)

-- `ValidateOp`: `none` is a nil error.
unfoldable pub validate_op : Op → Option InvalidOp
unfolding validate_fields
validate_op op =
    if op.seq == 0
    then some bad_seq
    else if not (is_positive op.ts)
    then some bad_ts
    else validate_fields op.type op

-- `ts` counts from 1.
abbrev pub IsPositive : ℤ → Type 0
IsPositive t = (n : ℕ) × (t ≡ pos (suc n))

-- What each type of operation carries, and what it must leave empty.
abbrev pub HasFields : OpType → Op → Type 0
HasFields op_write op = (op.path ≢ []) × (op.data_bytes ≢ none) × (op.from ≡ []) × (op.to ≡ [])
HasFields op_delete op =
    (op.path ≢ [])
    × (op.pre_hash ≢ none)
    × (op.data_bytes ≡ none)
    × (op.binary ≡ false)
    × (op.from ≡ [])
    × (op.to ≡ [])
HasFields op_rename op =
    (op.from ≢ [])
    × (op.to ≢ [])
    × (op.pre_hash ≢ none)
    × (op.path ≡ [])
    × (op.data_bytes ≡ none)
    × (op.binary ≡ false)
HasFields (other t) op = ⊥

pub record IsValid (op : Op) : Type 0 where
  pub seq : 0 < op.seq
  pub ts : IsPositive op.ts
  pub fields : HasFields op.type op

validate_fields_sound : (t : OpType) (op : Op) → validate_fields t op ≡ none → HasFields t op
unfolding validate_fields
validate_fields_sound op_write op h = ground arith
validate_fields_sound op_delete op h = ground arith
validate_fields_sound op_rename op h = ground arith
validate_fields_sound (other t) op h = cc

validate_fields_complete : (t : OpType) (op : Op) → HasFields t op → validate_fields t op ≡ none
unfolding validate_fields
validate_fields_complete op_write op h = ground arith
validate_fields_complete op_delete op h = ground arith
validate_fields_complete op_rename op h = ground arith
validate_fields_complete (other t) op h = absurd h

IsPositive-of_test : (t : ℤ) → is_positive t ≡ true → IsPositive t
IsPositive-of_test (pos zero) h = cc
IsPositive-of_test (pos (suc n)) h = (n, refl)
IsPositive-of_test (negsuc n) h = cc

pub test_of_positive : (t : ℤ) → IsPositive t → is_positive t ≡ true
test_of_positive (pos zero) (n, e) = cc
test_of_positive (pos (suc m)) (n, e) = refl
test_of_positive (negsuc m) (n, e) = cc

validate_op_sound : (op : Op) → validate_op op ≡ none → IsValid op
unfolding validate_op
validate_op_sound op h = record {
  seq = ground arith;
  ts = IsPositive-of_test op.ts (ground arith);
  fields = validate_fields_sound op.type op (ground arith);
}

validate_op_complete : (op : Op) → IsValid op → validate_op op ≡ none
unfolding validate_op
validate_op_complete op v =
    rw (test_of_positive op.ts v.ts, validate_fields_complete op.type op v.fields) (ground arith)

-- An operation passes validation exactly when its sequence number and its timestamp are positive
-- and it carries the fields of its type and none that its type excludes.
pub validate_op-eq_none_iff : (op : Op) → (validate_op op ≡ none) ↔ IsValid op
validate_op-eq_none_iff op = (validate_op_sound op, validate_op_complete op)
