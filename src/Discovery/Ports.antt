-- ===== src/Discovery/Ports.antt =====
-- The ports of a container, in apps/agent/internal/discovery/docker.go.
pub mod Reading
use backupy_agent.Prelude.{
  ℕ, ◌+◌, ◌-◌, ◌*◌, ◌%◌, ◌^◌, Bool, true, false, ◌&&◌, Option, none, some, List, [], ◌∷◌, ◌++◌, ltb,
  leb, ◌==◌, if◌then◌else◌,
}
use backupy_agent.Prelude.Bytes.{Bytes, codes, is_empty}
use backupy_agent.Prelude.Strings.{to_lower, trim_space, cut_at}
use backupy_agent.Discovery.Images.{is_digit}

pub record PortBinding : Type 0 where
  pub container_port : ℕ
  pub host_port : ℕ
  pub protocol : Bytes

-- The loop of `parsePort`, in uint32.
unfoldable pub parse_digits : Bytes → ℕ → ℕ
parse_digits [] v = v
parse_digits (c ∷ cs) v =
    let v' = (v * 10 + (c - 48)) % 2 ^ 32 in
    let rest = parse_digits cs v' in if is_digit c then (if ltb 65535 v' then 0 else rest) else 0

-- `parsePort`
unfoldable pub parse_port : Bytes → ℕ
parse_port s = if is_empty s then 0 else parse_digits s 0

-- `defaultProto`
unfoldable pub default_proto : Bytes → Bytes
default_proto p = let low = to_lower (trim_space p) in if is_empty low then codes "tcp" else low

-- `parsePortKey`
unfoldable pub parse_port_key : Bytes → ℕ × Bytes
parse_port_key key = elim (cut_at 47 key) [
  | none ↦ (parse_port key, codes "tcp")
  | some (port, proto) ↦ (parse_port port, default_proto proto)
]

-- The ports of one key: the host port of each binding, or none.
unfoldable pub bind_all : ℕ → Bytes → List Bytes → List PortBinding
bind_all port proto [] = []
bind_all port proto (host ∷ hosts) =
    record { container_port = port; host_port = parse_port host; protocol = proto }
    ∷ bind_all port proto hosts

unfoldable pub ports_of_key : ℕ → Bytes → List Bytes → List PortBinding
ports_of_key port proto [] = record { container_port = port; host_port = 0; protocol = proto } ∷ []
ports_of_key port proto (host ∷ hosts) = bind_all port proto (host ∷ hosts)

-- `portsFromInspect`: the map as its entries in the order in which Go ranges over it, each with the
-- HostPort of its bindings.
unfoldable pub ports_from_inspect : List (Bytes × List Bytes) → List PortBinding
ports_from_inspect [] = []
ports_from_inspect ((key, hosts) ∷ entries) =
    let (port, proto) = parse_port_key key in
    let rest = ports_from_inspect entries in
    if port == 0 then rest else ports_of_key port proto hosts ++ rest
