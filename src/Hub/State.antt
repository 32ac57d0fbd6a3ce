-- ===== src/Hub/State.antt =====
-- internal/server/hub: the state of a vault and of a session that the push handler reads and writes,
-- and the messages that it sends.
use leyline.Base.{
  Bool, List, Option, Text, [], if◌then◌else◌, keep, none, not, some, text_eq, ◌&&◌, ◌∷◌,
}
use leyline.Protocol.Op.{Hash, Op}
use leyline.Protocol.Caps.{CapSet}
use leyline.ServerStage.{Stage}
use leyline.ServerStage.IdemCache.{IdemCache}
use leyline.RateLimit.{Limiter}
use leyline.Allowed.{Rules}
use leyline.Hub.Sizes.{SizeTracker}
use leyline.Hub.Stuck.{StuckRing}

-- The session of a client; `failed_push_limiter` is set when the session is made.
pub record Client : Type 0 where
  pub client_id : Text
  pub keyname : Text
  pub caps : CapSet
  pub failed_push_limiter : Limiter

-- An element of `stuckBuf`, with the two parts of its key.
pub record StuckEntry : Type 0 where
  pub client_id : Text
  pub path : Text
  pub ring : StuckRing

-- A record of the write-ahead log.
pub record WalEntry : Type 0 where
  pub client_id : Text
  pub op : Op

-- The fields of `VaultState` that the handlers of a push and a commit use. `none` for `rules` and
-- for `wal` is nil; `idem_cache` is set whenever a vault is hydrated.
pub record VaultState : Type 0 where
  pub sizes : SizeTracker
  pub rules : Option Rules
  pub push_limiters : List (Text × Limiter)
  pub stages : List (Text × Stage)
  pub wal : Option (List WalEntry)
  pub idem_cache : IdemCache
  pub stuck_buf : List StuckEntry
  pub head_hash : Hash

-- The codes of the errors that the push handler sends.
pub data ErrorCode : Type 0 where
  permission_denied rate_limited invalid_data invalid_path file_too_large : ErrorCode
  vault_full stuck_file server_error : ErrorCode

-- The field `Result` of a `PushAckMsg`.
pub data AckResult : Type 0 where
  ack_ok ack_stale_base : AckResult
  ack_filtered : List Text → AckResult

-- What the client is sent: an error with a path, or an ack with the hash of HEAD.
pub data Reply : Type 0 where
  error_msg : ErrorCode → Text → Reply
  push_ack : AckResult → Hash → Reply

is_key : Text → Text → StuckEntry → Bool
is_key client_id path e = text_eq e.client_id client_id && text_eq e.path path

-- `vs.stuckBuf[stuckKey{clientID, path}]`
unfoldable pub find_ring : List StuckEntry → Text → Text → Option StuckRing
unfolding is_key
find_ring [] client_id path = none
find_ring (e ∷ es) client_id path =
    if is_key client_id path e then some e.ring else find_ring es client_id path

unfoldable pub put_ring : List StuckEntry → Text → Text → StuckRing → List StuckEntry
unfolding is_key
put_ring es client_id path ring =
    record { client_id = client_id; path = path; ring = ring }
    ∷ keep (λ e. not (is_key client_id path e)) es
