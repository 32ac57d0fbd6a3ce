-- ===== src/ServerStage.antt =====
-- internal/server/stage/stage.go: the ordered operations of one client between receipt and commit.
-- A time is a number of nanoseconds, and 0 is the zero time. A Go method that mutates `*Stage`
-- returns the new record; the mutex makes each method one step.

pub mod View
pub mod Paths
pub mod Counters
pub mod Trigger
pub mod IdemCache
pub mod Wal
use leyline.Base.{
  Bool, List, Option, Text, [], any, false, if◌then◌else◌, is_empty, length, none, not, replicate,
  some, text_eq, true, ℕ, ◌++◌, ◌+◌, ◌==◌, ◌||◌, ◌∷◌,
}
use leyline.Base.Dict
use leyline.Protocol.Op.{Hash, Op, OpType, op_delete, op_rename, op_write, other}

-- `bytes` adds lengths of payloads held in memory, so an int64 does not wrap.
pub record Stage : Type 0 where
  pub client_id : Text
  pub keyname : Text
  pub base : Hash
  pub ops : List Op
  pub bytes : ℕ
  pub started : ℕ
  pub last_append : ℕ

unfoldable pub new_stage : Text → Text → Hash → Stage
new_stage client_id keyname base = record {
  client_id = client_id;
  keyname = keyname;
  base = base;
  ops = [];
  bytes = 0;
  started = 0;
  last_append = 0;
}

-- The bytes of a slice that may be nil.
abbrev pub payload : Option Text → Text
payload none = []
payload (some d) = d

-- The bytes that an operation adds to `s.bytes`: only a write counts.
abbrev pub write_size : OpType → Option Text → ℕ
write_size op_write d = length (payload d)
write_size _ d = 0

unfoldable pub append : Stage → Op → ℕ → Stage
append s op now = record s {
  ops = s.ops ++ op ∷ [];
  bytes = s.bytes + write_size op.type op.data_bytes;
  started = if s.started == 0 then now else s.started;
  last_append = now;
}

unfoldable pub reset : Stage → Hash → Stage
reset s new_base = record s { ops = []; bytes = 0; started = 0; last_append = 0; base = new_base }

-- `none` is the panic on a stage that has a keyname.
unfoldable pub set_keyname : Stage → Text → Option Stage
set_keyname s keyname =
    if not (is_empty s.keyname) then none else some (record s { keyname = keyname })

unfoldable pub op_count : Stage → ℕ
op_count s = length s.ops

-- The `switch` of `Touches`.
unfoldable pub op_touches : OpType → Op → Text → Bool
op_touches op_write op p = text_eq op.path p
op_touches op_delete op p = text_eq op.path p
op_touches op_rename op p = text_eq op.from p || text_eq op.to p
op_touches (other t) op p = false

unfoldable pub touches : Stage → Text → Bool
unfolding op_touches
touches s p = any (λ op. op_touches op.type op p) s.ops

-- The fields `hash` and `present` of `pathState`; `known` is set on every value and never read.
pub record PathState : Type 0 where
  pub hash : Hash
  pub present : Bool

abbrev pub zero_hash : Hash
zero_hash = replicate 32 0

abbrev pub gone : PathState
gone = record { hash = zero_hash; present = false }

-- `hash_bytes` is SHA-256, and `head_lookup` reads the committed tree.
module _ (hash_bytes : Text → Hash) (head_lookup : Text → PathState) where
  ensure_known : List (Text × PathState) → Text → List (Text × PathState)
  ensure_known state p = elim (Dict.get state p) [
    | none ↦ Dict.put state p (head_lookup p)
    | some ps ↦ state
  ]

  -- What a rename leaves at its destination.
  abbrev moved : Option PathState → PathState
  moved none = gone
  moved (some src) = if src.present then record { hash = src.hash; present = true } else gone

  -- One round of the loop of `PathHash`.
  path_step : OpType → Op → List (Text × PathState) → List (Text × PathState)
  unfolding ensure_known
  path_step op_write op state =
      Dict.put state op.path (record { hash = hash_bytes (payload op.data_bytes); present = true })
  path_step op_delete op state = Dict.put state op.path gone
  path_step op_rename op state =
      let known = ensure_known state op.from in
      let src = Dict.get known op.from in Dict.put (Dict.put known op.from gone) op.to (moved src)
  path_step (other t) op state = state

  path_states : List Op → List (Text × PathState) → List (Text × PathState)
  path_states [] state = state
  path_states (op ∷ ops) state = path_states ops (path_step op.type op state)

  unfoldable pub path_hash : Stage → Text → PathState
  unfolding path_step path_states
  path_hash s p = elim (Dict.get (path_states s.ops []) p) [ none ↦ head_lookup p | some ps ↦ ps ]
