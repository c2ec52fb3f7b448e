-- ===== src/Lib.antt =====
-- A model of the Backupy agent (apps/agent) and of its decrypt tool (apps/backupy-decrypt), both
-- in Go, with the theorems that make their core correct.
--
-- The agent keeps a connection to a control plane. A RunBackup message starts a run: hooks, a
-- dump by a database driver, zstd, encryption in frames, and one PUT to a presigned URL; the
-- report goes back over the connection. What cannot be sent is queued in an encrypted database.
-- The decrypt tool, with a token from the control plane, turns an upload back into the dump. A
-- scan of the Docker daemon reports which containers run a database.
--
-- - Pipeline/Encrypt: `NewEncryptor`, `Stream` and `Decrypt` of
--   apps/agent/internal/pipeline/encrypt.go; one round of a loop is one function from the loop's
--   variables, and its children are about sealing, opening, cut streams, failing sources and the
--   end of the loops. Wire: the format of the stream, written down independently.
-- - Decrypt/Stream: `decryptStream` of apps/backupy-decrypt/internal/decrypt/decrypt.go, with
--   the reader that hashes what passes. Decrypt/Token: apps/backupy-decrypt/internal/jwt/jwt.go;
--   Decrypt/Run: `Run` of decrypt.go, on files that are opened or not. EndToEnd: agent and tool
--   together; EndToEnd/Backup: a whole run and the decryption of its upload; EndToEnd/Restore: a
--   whole run and a whole call of the tool; EndToEnd/Databases: the same with the registered
--   drivers.
-- - Discovery: apps/agent/internal/discovery. Discovery/Images: `detectDBType`; Discovery/Ports:
--   `portsFromInspect` and `parsePort`; Discovery/Env: `filterEnv`; Discovery/Scan: the
--   requests, `buildContainer` and `Scan`.
-- - Pipeline/Runner: `Run` of apps/agent/internal/pipeline/runner.go; Pipeline/Request: what a
--   run is given, meets and reports; Pipeline/Stages: its four stages, with `Put` of upload.go,
--   `CompressZstd` of compress.go and the header checks of pg_dump.go and mysqldump.go.
--   Pipeline/Hooks, Pipeline/HookRing: hooks.go. Pipeline/Tail: the stderr buffer of
--   mongodump.go.
-- - State/Envelope, State/Store: crypto.go and state.go of apps/agent/internal/state. Queue:
--   apps/agent/internal/queue/queue.go, an interface with laws, and the queue over the store.
-- - Wss: apps/agent/internal/wss. Wss/Backoff: backoff.go and the loop of `Start`. Wss/Client:
--   `NewClient`, `Send`, `replayQueue`, the handshake and the session part of `runOnce` in
--   client.go, `dispatch` in loops.go. Wss/Loops: one turn of each loop in loops.go. Wss/Url:
--   `buildWSURL`. Agent: the configuration snapshot of apps/agent/cmd/agent/run.go;
--   Agent/Reporting: its `OnRunBackup` and the reports that it builds; Agent/Discovering: one
--   scan of `runDiscoveryLoop`, with `BuildReport`.
-- - Drivers: pg_dump.go, mysqldump.go, mongodump.go, redis.go and sqlite.go of
--   apps/agent/internal/pipeline, one file each; the state is the list of the commands that were
--   run. Drivers/Command: the `cmdRunner` and what the five have in common. Drivers/Redis has
--   the wait for a snapshot, with the clock, the context and the files as parameters.
--   Drivers/Registry: the map of drivers that `runAgent` of run.go makes, with the tools that
--   dump to their standard output as the runner's `Driver`.
-- - Config: `Load` and `Validate` of apps/agent/internal/config/config.go.
-- - Commands: dump-state and health-check of apps/agent/cmd/agent (dumpstate.go,
--   healthcheck.go). Metrics: `SetWSSState` of apps/agent/internal/metrics/metrics.go.
-- - Prelude, Io, Cipher, Bolt: shared helpers; Go's readers and writers; AES-GCM, randomness and
--   bbolt as parameters with their documented laws. Tests: instances at concrete inputs, with a
--   toy cipher and a toy database that meet the laws.
--
-- Strings and byte slices are lists of numbers below 256. Byte counters and durations are
-- natural numbers: an int64 that stays below 2^63. A length in a frame keeps its wrap-around at
-- 2^32, an envelope's number its wrap-around at 2^64. Upper and lower case, and white space, are
-- those of ASCII. A map is its entries, in the order in which Go would range over it. A float64
-- of a token is the integer that Go's conversion makes of it, an expiry one that `time.Unix`
-- represents. An error is a constructor for the place that makes it. A loop over a stream has
-- the length of the input plus one as its fuel; this is enough, as every round takes a byte at
-- least. A reader is the bytes that it will give and how it ends; a writer may have room for so
-- many bytes only. In the tool, a decoder behind the pipe that stops before it has read what is
-- written leaves the call waiting for ever, since nothing closes the pipe: the outcome says so.
-- Where Go's goroutines exchange whole streams through pipes, the model passes the whole stream
-- on; the order in which the four stages report is a schedule, an argument of the run. The
-- stages of zstd and of encryption never report that a later stage has closed their pipe, which
-- changes only the text of the error that is reported first. The hash and the size of an upload
-- are those of the whole body: a server that answers 2xx before it has read the body is left
-- out. An error of a driver is taken to be none of the values that io and bufio use for the end
-- of a stream. The wait for a snapshot of Redis has 1202 rounds as its fuel, its limit divided
-- by its pause, and two more; this is enough where the clock goes on by the pause in each round.
-- The float64 products of the backoff are exact fractions.
--
-- Not modelled: generated protobuf code and its codec, which is a parameter; the subprocess glue
-- of the drivers, and the probe of a SQLite file for its metadata; the other metrics, logging
-- and the rest of the commands; how the loops of a live connection interleave, and the timeouts
-- of contexts.
pub mod Prelude
pub mod Io
pub mod Cipher
pub mod Wire
pub mod Pipeline
pub mod Decrypt
pub mod EndToEnd
pub mod Bolt
pub mod State
pub mod Queue
pub mod Wss
pub mod Agent
pub mod Tests
pub mod Discovery
pub mod Drivers
pub mod Config
pub mod Commands
pub mod Metrics
