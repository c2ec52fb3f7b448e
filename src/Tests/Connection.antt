-- ===== src/Tests/Connection.antt =====
-- The client on a queue of lists, and the reconnect schedule.
use backupy_agent.Prelude.{
  ℕ, zero, suc, ◌+◌, ◌*◌, ◌^◌, ◌<◌, ◌≤◌, ◌≡◌, refl, ap, min, Bool, true, false, none, some, List,
  [], ◌∷◌, length, take, All, ok, arith,
}
use backupy_agent.Prelude.Bytes.{Bytes, codes, ◌===◌}
use backupy_agent.Prelude.Int.{ℤ, pos, negsuc}
use backupy_agent.Bolt.{insert, remove}
use backupy_agent.Queue.{Queue, IsQueue, Job}
use backupy_agent.Pipeline.Hooks.{second}
use backupy_agent.Wss.Backoff.{next, Pass, start_state, start_loop}
use backupy_agent.Wss.Backoff.Bounds.{at, GoesOn, Short, next_delay, start_loop-backoff}
use backupy_agent.Wss.Messages.{AgentConfig, RegisterAck, Envelope, Codec, config_update, ping}
use backupy_agent.Wss.Client.{Client, Wiring, out_capacity, replay_batch, numbered, stamp, send}
use backupy_agent.Wss.Client.Sending.{Kept, send_kept}
use backupy_agent.Wss.Client.Replay.{
  finished, waiting, replay_queue, decoded, without, replay_queue_fits, replay_queue_waits,
}
use backupy_agent.Wss.Loops.{IsStamped}
use backupy_agent.Wss.Url.{Url, has_suffix, trim_right_slash, ws_scheme, mount, build_ws_url}
use backupy_agent.Pipeline.Request.{sqlite}
use backupy_agent.Agent.{Config}

-- A queue that is its list of jobs.
abbrev toy_pop : ℤ → List Job → List Job
toy_pop (pos n) s = take n s
toy_pop (negsuc n) s = []

abbrev pub toy_queue : Queue (List Job)
toy_queue = record {
  enqueue = λ k v s. (ok tt, insert k v s);
  pop = λ n s. ok (toy_pop n s);
  ack = λ k s. (ok tt, remove k s);
  depth = λ s. length s;
}

abbrev pub toy_queue-IsQueue : IsQueue toy_queue
toy_queue-IsQueue = record {
  Holds = λ s jobs. s ≡ jobs;
  enqueue_insert = λ k v s jobs p q r h. (refl, ap (λ l. insert k v l) h);
  ack_remove = λ k s jobs h. (refl, ap (λ l. remove k l) h);
  pop_take = λ n s jobs h. ap (λ l. ok (take n l)) h;
  depth_length = λ s jobs h. ap (λ (l : List Job). length l) h;
}

abbrev pub an_envelope : Envelope
an_envelope = record { seq = 0; ts_ms = 3; correlation_id = []; payload = some ping }

abbrev pub toy_codec : Codec
toy_codec = record {
  marshal = λ e. some (1 ∷ []);
  unmarshal = λ b. some an_envelope;
  marshal_config = λ c. some c.body;
}

abbrev pub toy_wiring : Wiring (List Job)
toy_wiring = record { codec = toy_codec; state = none; queue = some toy_queue; handlers = none }

abbrev pub offline : Client (List Job)
offline = record {
  seq = 4;
  config_version = 2;
  session_id = [];
  out = none;
  disk = [];
  called = [];
}

send_kept_example :
    let (r, c') = send toy_wiring 8 (some an_envelope) offline in
    (r ≡ ok tt)
    × Kept toy_wiring toy_queue toy_queue-IsQueue
        (stamp 8 (numbered an_envelope offline).0)
        (1 ∷ [])
        []
        none
        c'
send_kept_example =
    send_kept toy_wiring toy_queue toy_queue-IsQueue 8 an_envelope (1 ∷ []) offline [] refl refl
      (omega arith) (omega arith) refl

abbrev a_config : AgentConfig
a_config = record { version = 1; body = [] }

abbrev an_ack : RegisterAck
an_ack = record { session_id = codes "sid"; config = some a_config }

abbrev an_update : Envelope
an_update = record an_envelope { payload = some (config_update (some a_config)) }

-- So many jobs.
abbrev many : ℕ → List Job
many zero = []
many (suc n) = (n ∷ [], 1 ∷ []) ∷ many n

fits : length (decoded toy_codec (take replay_batch (many 2))) ≤ out_capacity
unfolding decoded
fits = omega arith

replay_queue_fits_example :
    let (r, out, disk') = replay_queue toy_codec toy_queue [] [] (many 2) in
    (r ≡ finished)
    × (out ≡ decoded toy_codec (take replay_batch (many 2)))
    × (disk' ≡ without (take replay_batch (many 2)) (many 2))
replay_queue_fits_example =
    replay_queue_fits toy_codec toy_queue toy_queue-IsQueue (many 2) (many 2) refl fits

count : length (decoded toy_codec (take replay_batch (many 65))) ≡ 65
unfolding decoded
count = refl

over : out_capacity < length (decoded toy_codec (take replay_batch (many 65)))
over = omega (arith, count)

replay_queue_waits_example :
    let (r, out, disk') = replay_queue toy_codec toy_queue [] [] (many 65) in
    (r ≡ waiting) × (out ≡ take out_capacity (decoded toy_codec (take replay_batch (many 65))))
replay_queue_waits_example =
    replay_queue_waits toy_codec toy_queue toy_queue-IsQueue (many 65) (many 65) refl over

next_delay_example :
    let (delay, b) = next 12345 (at 3) in
    (b ≡ at 4)
    × (4 * min (2 ^ 3 * second) (60 * second) < 5 * (delay + 1))
    × (5 * delay ≤ 6 * min (2 ^ 3 * second) (60 * second))
next_delay_example = next_delay 12345 3 (omega arith)

-- A pass that connects, and one that does not.
abbrev a_pass : Bool → Pass
a_pass connected = record {
  cancelled_before = false;
  connected = connected;
  cancelled_after = false;
  draw = 77;
  cancelled_waiting = false;
}

goes_on : (b : Bool) → GoesOn (a_pass b)
goes_on b = (refl, refl, refl, omega arith)

start_loop-backoff_example :
    let t = start_loop (a_pass false ∷ a_pass true ∷ []) start_state in
    (t.backoff ≡ at 2) × (t.reconnect_count ≡ 2) × All Short t.waits
start_loop-backoff_example =
    start_loop-backoff (a_pass false ∷ a_pass true ∷ []) (goes_on false, (goes_on true, tt))

-- An envelope that `Send` has numbered.
abbrev a_stamped : Envelope
a_stamped = record an_envelope { seq = 9 }

is_stamped : IsStamped a_stamped
is_stamped = (λ h. absurd (omega (arith, h)), λ h. absurd (omega (arith, h)))

all_up : (b : Bytes) → true ≡ true
all_up b = refl

-- A server address and what is made of it.
abbrev an_address : Url
an_address = record { scheme = codes "https"; path = codes "/p/"; rest = [] }

abbrev a_ws_address : Url
a_ws_address = record { scheme = codes "wss"; path = codes "/p/v1/agents/connect"; rest = [] }

ws_address : build_ws_url false (ok an_address) ≡ ok a_ws_address
unfolding build_ws_url ws_scheme mount has_suffix trim_right_slash ◌===◌
ws_address = refl

-- A configuration with one target and no job.
abbrev a_snapshot : Config
a_snapshot = record {
  targets = record { id = codes "t"; db_type = sqlite; connection = none } ∷ [];
  jobs = [];
}
