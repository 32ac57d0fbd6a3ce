-- ===== src/Lib.antt =====
-- Leyline synchronizes a vault of text files between clients through a server. A client stages its
-- own operations (write, delete, rename), pushes them in batches, and applies the operations of the
-- others, its catchup, against what it has staged. The server holds the pushed operations of each
-- client in a stage until they are committed.
--
-- The development models the logic of both sides that works on values, with a module for each part:
--
-- * Protocol (protocol/). Protocol.Op: `Op` and `ValidateOp` of protocol/op.go. Protocol.Caps: the
--   capability sets and roles of protocol/caps/caps.go. Protocol.Access: the keys of a vault of
--   protocol/access/access.go, `AddKey`, `RemoveKey`, `UpdateRole`, `UpdateLastSeen`,
--   `Authenticate` and `LookupByHash`, as functions on the list of entries that return the entries
--   left and a result; whether the file could be written is an argument. Protocol.PathUtil:
--   protocol/pathutil/validate.go, with `ValidatePath` in Protocol.PathUtil.Validate.
--   Protocol.Version: protocol/version/version.go.
-- * ServerStage (internal/server/stage/). The record `Stage` with `Append`, `Reset`, `SetKeyname`,
--   `Touches` and `PathHash` of stage.go, and `EvalIntrinsic` of heuristic.go in
--   ServerStage.Trigger. ServerStage.View is the specification of `PathHash`: the tree as a function
--   of paths, changed by one operation after the other.
--   ServerStage.IdemCache: the highest sequence numbers of idemcache.go. ServerStage.Wal: wal.go on
--   the bytes of the log file, with CRC-32.
-- * Allowed (internal/server/allowed/allowed.go). The gates on the patterns and limits of a vault;
--   Allowed.Size: `ParseSize`.
-- * Hub (internal/server/hub/). Hub.Push: `handlePushBatch` of handlers.go, gate by gate, with the
--   validation loop in Hub.Gate and the helpers on operations in Hub.Ops; a push takes the state of
--   the vault, Hub.State, and returns the state left and the reply. Hub.Commit: `commitStage`.
--   Hub.Broadcast: `broadcastOps`, and `CanSyncControlPlane` of internal/server/sync/walker.go.
--   Hub.Recovery: the stages that hydrating a vault rebuilds from the log. Hub.Sizes: sizes.go.
--   Hub.Stuck: stuck_file.go. Hub.Runs: these steps in any order.
-- * RateLimit (internal/server/ratelimit/limiter.go). The sliding window and all its methods.
-- * Merge (pkg/merge/). Merge.Lines, Hunks, Partition and ThreeWay: three_way.go. Merge.Format:
--   callout.go, comment.go, gitmarker.go and sidecar.go; Merge.Conflict: `renderConflictFile`.
--   Merge.Classify: classify.go, with the switch on the two types of operation as `classify_pair`.
-- * ClientStage (pkg/stage/). ClientStage.Rows: the files with a row for each call, and what a failed
--   write leaves in them. ClientStage.Manifest: manifest.go, with its writer, which a failed write or
--   compaction leaves unusable. ClientStage.Acked: acked.go.
-- * Sync (pkg/sync/). Sync.Coalesce: coalesce.go. Sync.Enqueue: `EnqueueOps` of enqueue.go on the
--   staged log of pkg/stage/staged.go. Sync.Catchup: what `classifyAndApply` of engine.go does to
--   the staged log, which calls `classify` for each operation and sorts the result.
--   Sync.Reconcile: `ReconcileWorkingTree` of reconcile.go and `BulkDeleteThreshold` of
--   bulkguard.go, with the disk, the filter and the live entries of the manifest as arguments.
-- * Base has the shared helpers: Go strings and byte slices as lists of bytes, slices as lists with
--   lengths in native numbers, maps as association lists, and sort.Slice as an insertion sort. Tests
--   has runs of the definitions and the theorems at concrete arguments.
--
-- A method that changes an object returns the new one, and a mutex makes a method one step. A nil
-- slice or pointer is `none` where the code tells it from an empty one. Times are arguments. A
-- uint64 counter wraps at 2 ^ 64; counts of elements in memory do not reach a bound.
--
-- Code outside the repository is a parameter: SHA-256 is `hash_bytes` or `token_hash`, and the line
-- diff of go-diff is `diff`, about which only Merge.ThreeWay.OneSided assumes something, the record
-- `IsLineDiff` (the pieces make up both texts in whole lines, and equal texts do not differ); Tests
-- has a diff for which it holds. The test of the Unicode normal form is `is_nfc`, filepath.Match is
-- `glob`, and CBOR is `encode` and `decode`, of which only `IsStorable` assumes that an entry of the
-- log decodes to itself. File access is a parameter too: the committed tree that `PathHash`
-- reads, the git commit of a stage, the errors of the log's file, how a write, an fsync or a
-- replacement of a client's file ends, and the context and the filter of a catchup.
--
-- Three loops run on fuel. The replay of the log reads eight bytes at least in a round, so the
-- length of the file is enough. `expand` repeats a pass over the unused hunks of a conflict pool while it
-- changes the region: each such pass uses up a hunk, so one more than their number is enough.
-- `group_regions` uses up one hunk at least for each region, so the length of the pool is enough.
-- All other loops are recursion on their lists.
--
-- Not modelled: sockets, goroutines, files and git (internal/server/storage, internal/cli, pkg/wire,
-- and of internal/server/hub the sessions, the hello handler and the commit runner), the encoding of
-- messages and of the rows of the client's logs, the web server (internal/web), and, of the packages
-- above, the parsing of the files of keys, rules and roles, the rest of pkg/stage, and the rest of
-- the engine.
pub mod Base
pub mod Protocol
pub mod ServerStage
pub mod ClientStage
pub mod Allowed
pub mod Hub
pub mod RateLimit
pub mod Sync
pub mod Merge
pub mod Tests
