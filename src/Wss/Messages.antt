-- ===== src/Wss/Messages.antt =====
-- The envelopes of apps/agent/internal/proto/proto.go and the protobuf codec. The bodies of messages
-- that the connection only passes on are byte strings.
use backupy_agent.Prelude.{ℕ, Bool, Option}
use backupy_agent.Prelude.Bytes.{Bytes}

pub record AgentConfig : Type 0 where
  pub version : ℕ
  pub body : Bytes

pub record Register : Type 0 where
  pub agent_version : Bytes
  pub hostname : Bytes
  pub last_known_config_version : ℕ

pub record RegisterAck : Type 0 where
  pub session_id : Bytes
  pub config : Option AgentConfig

-- The `payload` oneof. `other` is any payload that only the agent sends.
pub data Payload : Type 0 where
  register : Register → Payload
  heartbeat : ℕ → Payload
  ack : Bytes → Bool → Payload
  register_ack : Option RegisterAck → Payload
  config_update : Option AgentConfig → Payload
  run_backup cancel_job run_health_check self_update other : Bytes → Payload
  ping : Payload

pub record Envelope : Type 0 where
  pub seq : ℕ
  pub ts_ms : ℕ
  pub correlation_id : Bytes
  pub payload : Option Payload

-- google.golang.org/protobuf, `none` where it fails.
pub record Codec : Type 0 where
  pub marshal : Envelope → Option Bytes
  pub unmarshal : Bytes → Option Envelope
  pub marshal_config : AgentConfig → Option Bytes
