-- ===== src/Agent/Discovering.antt =====
-- apps/agent/cmd/agent/run.go: one scan of `runDiscoveryLoop`, with `BuildReport` of
-- apps/agent/internal/discovery/scanner.go.
use backupy_agent.Prelude.{
  ℕ, ◌+◌, ◌^◌, ◌≤◌, ◌≡◌, refl, some, List, [], ◌∷◌, map, length, ok, err, arith,
}
use backupy_agent.Prelude.Bytes.{Bytes}
use backupy_agent.Prelude.Maps.{assign}
use backupy_agent.Queue.{Queue, IsQueue, Job}
use backupy_agent.Wss.Messages.{Envelope, other}
use backupy_agent.Wss.Client.{Client, Wiring, send, stamp, numbered}
use backupy_agent.Wss.Client.Sending.{Kept, send_kept}
use backupy_agent.Discovery.Scan.{
  Daemon, DiscoveredContainer, scan, list_containers, inspect_container,
}
use backupy_agent.Discovery.Scan.Blinding.{blind_answer, scan_blind}
use backupy_agent.Agent.Reporting.{new_envelope}

unfoldable copy_hints : List (Bytes × Bytes) → List (Bytes × Bytes) → List (Bytes × Bytes)
copy_hints [] m = m
copy_hints ((k, v) ∷ es) m = copy_hints es (assign k v m)

-- A container as the message of the same fields.
unfoldable copy_container : DiscoveredContainer → DiscoveredContainer
unfolding copy_hints
copy_container c = record c { env_hints = copy_hints c.env_hints [] }

-- `BuildReport`
unfoldable build_report : List DiscoveredContainer → List DiscoveredContainer
unfolding copy_container
build_report containers = map copy_container containers

-- The message of a report; `encode` is what the connection passes on of it.
unfoldable report_message :
    (List DiscoveredContainer → Bytes) → ℕ → List DiscoveredContainer → Envelope
unfolding new_envelope build_report
report_message encode now found = new_envelope now (other (encode (build_report found)))

-- `scan` of `runDiscoveryLoop`: a scan that fails is logged only, and so is an error of `Send`.
unfoldable scan_once :
    {St : Type 0}
    → Daemon
    → Bytes
    → Wiring St
    → (List DiscoveredContainer → Bytes)
    → ℕ
    → Client St
    → Client St
unfolding report_message
scan_once d base wiring encode now c = elim (scan d base) [
  | err e ↦ c
  | ok found ↦ (send wiring now (some (report_message encode now found)) c).1
]

module _ {St : Type 0} (d : Daemon) (base : Bytes) (wiring : Wiring St) (q : Queue St)
    (is_queue : IsQueue q) (encode : List DiscoveredContainer → Bytes) where
  -- Where the report of a scan that succeeds is left: with a queue that takes it and a working codec, it
  -- is at the end of the out channel or in the queue.
  scan_once-Kept :
      (now : ℕ) (found : List DiscoveredContainer) (raw : Bytes) (c : Client St) (jobs : List Job)
      → scan d base ≡ ok found
      → wiring.queue ≡ some q
      → wiring.codec.marshal (stamp now (numbered (report_message encode now found) c).0) ≡ some raw
      → length raw + 31 ≤ 2 ^ 31
      → is_queue.Holds c.disk jobs
      → Kept wiring q is_queue
          (stamp now (numbered (report_message encode now found) c).0)
          raw
          jobs
          c.out
          (scan_once d base wiring encode now c)
  unfolding scan_once report_message new_envelope
  scan_once-Kept now found raw c jobs scanned wired encoded fits holds =
      rw (scan_once, scanned)
        (send_kept wiring q is_queue now (report_message encode now found) raw c jobs wired encoded
          (omega arith) fits holds).1

-- What becomes of the client does not depend on the value of any environment variable, as
-- `scan_blind` has it.
scan_once_blind :
    {St : Type 0} (d d' : Daemon) (base : Bytes) (wiring : Wiring St)
    (encode : List DiscoveredContainer → Bytes) (now : ℕ) (c : Client St)
    → list_containers d base ≡ list_containers d' base
    → ((id : Bytes)
        → blind_answer (inspect_container d base id) ≡ blind_answer (inspect_container d' base id))
    → scan_once d base wiring encode now c ≡ scan_once d' base wiring encode now c
unfolding scan_once
scan_once_blind d d' base wiring encode now c listed alike =
    rw (scan_once, scan_blind d d' base listed alike) refl
