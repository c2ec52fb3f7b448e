-- ===== src/Discovery/Scan.antt =====
-- The scan itself, in apps/agent/internal/discovery/docker.go and scanner.go. The daemon is what it
-- answers: net/http, encoding/json and `url.PathEscape` are parameters.
pub mod Blinding
use backupy_agent.Prelude.{
  ℕ, ◌/◌, Bool, true, false, ◌||◌, Option, none, some, List, [], ◌∷◌, ◌++◌, map, ◌==◌,
  if◌then◌else◌, Result, ok, err, ◌>>=◌, map_err,
}
use backupy_agent.Prelude.Bytes.{Bytes, codes, is_empty}
use backupy_agent.Prelude.Strings.{has_prefix, trim_prefix}
use backupy_agent.Io.{Fault}
use backupy_agent.Wss.Url.{trim_right_slash}
use backupy_agent.Discovery.Images.{detect_db_type}
use backupy_agent.Discovery.Ports.{PortBinding, default_proto, ports_from_inspect}
use backupy_agent.Discovery.Env.{filter_env}

pub record ListPort : Type 0 where
  pub private_port : ℕ
  pub public_port : ℕ
  pub type_of : Bytes

-- `dockerListEntry`; of the networks only the names are used.
pub record ListEntry : Type 0 where
  pub id : Bytes
  pub names : List Bytes
  pub image : Bytes
  pub ports : List ListPort
  pub networks : List Bytes

-- `dockerInspectResponse`
pub record Inspect : Type 0 where
  pub id : Bytes
  pub name : Bytes
  pub running : Bool
  pub image : Bytes
  pub env : List Bytes
  pub networks : List Bytes
  pub ports : List (Bytes × List Bytes)

-- `DiscoveredContainer`
pub record DiscoveredContainer : Type 0 where
  pub container_id : Bytes
  pub name : Bytes
  pub image : Bytes
  pub detected_db_type : Bytes
  pub networks : List Bytes
  pub env_hints : List (Bytes × Bytes)
  pub ports : List PortBinding

pub record Response : Type 0 where
  pub status_code : ℕ
  pub body : Bytes

-- A GET request is refused when it is built, or it fails, or it is answered.
pub record Daemon : Type 0 where
  pub build : Bytes → Option Fault
  pub get : Bytes → Result Fault Response
  pub decode_list : Bytes → Result Fault (List ListEntry)
  pub decode_inspect : Bytes → Result Fault Inspect
  pub path_escape : Bytes → Bytes

pub data ScanError : Type 0 where
  build_request send_request decode_response : Fault → ScanError
  http_status : ℕ → ScanError
  not_found : ScanError

abbrev pub docker_api_version : Bytes
docker_api_version = codes "v1.41"

-- The base URL that `newDockerScanner` makes of a socket path or an address.
unfoldable pub base_url : Bytes → Bytes
base_url socket =
    if has_prefix socket (codes "http://") || has_prefix socket (codes "https://")
    then trim_right_slash socket ++ (codes "/" ++ docker_api_version)
    else codes "http://docker/" ++ docker_api_version

-- `NewScanner`: the socket of a configuration.
unfoldable pub socket_of : Bytes → Bytes
socket_of socket = if is_empty socket then codes "/var/run/docker.sock" else socket

unfoldable pub request : Daemon → Bytes → Result ScanError Response
request d endpoint = elim (d.build endpoint) [
  | some e ↦ err (build_request e)
  | none ↦ map_err send_request (d.get endpoint)
]

unfoldable pub check_status : Response → Result ScanError Bytes
check_status r = if r.status_code / 100 == 2 then ok r.body else err (http_status r.status_code)

-- `listContainers`
unfoldable pub list_containers : Daemon → Bytes → Result ScanError (List ListEntry)
list_containers d base = request d (base ++ codes "/containers/json") >>= check_status >>= λ body.
    map_err decode_response (d.decode_list body)

unfoldable pub check_found : Response → Result ScanError Response
check_found r = if r.status_code == 404 then err not_found else ok r

-- `inspectContainer`
unfoldable pub inspect_container : Daemon → Bytes → Bytes → Result ScanError Inspect
inspect_container d base id =
    request d (base ++ (codes "/containers/" ++ (d.path_escape id ++ codes "/json")))
    >>= check_found
    >>= check_status
    >>= λ body. map_err decode_response (d.decode_inspect body)

unfoldable pub listed_name : List Bytes → Bytes
listed_name [] = []
listed_name (n ∷ ns) = trim_prefix n (codes "/")

unfoldable pub name_of : ListEntry → Inspect → Bytes
name_of list det =
    let name = trim_prefix det.name (codes "/") in
    if is_empty name then listed_name list.names else name

unfoldable pub networks_of : List Bytes → List Bytes → List Bytes
networks_of listed [] = listed
networks_of listed (n ∷ ns) = n ∷ ns

unfoldable pub listed_ports : List ListPort → List PortBinding
listed_ports [] = []
listed_ports (p ∷ ps) =
    record {
      container_port = p.private_port;
      host_port = p.public_port;
      protocol = default_proto p.type_of;
    }
    ∷ listed_ports ps

unfoldable pub or_listed : List ListPort → List PortBinding → List PortBinding
or_listed listed [] = listed_ports listed
or_listed listed (p ∷ ps) = p ∷ ps

-- `buildContainer`
unfoldable pub build_container : ListEntry → Inspect → Bytes → DiscoveredContainer
build_container list det db_type = record {
  container_id = det.id;
  name = name_of list det;
  image = det.image;
  detected_db_type = db_type;
  networks = networks_of list.networks det.networks;
  env_hints = filter_env det.env;
  ports = or_listed list.ports (ports_from_inspect det.ports);
}

-- One turn of the loop of `Scan`.
unfoldable pub examine : (Bytes → Result ScanError Inspect) → ListEntry → Option DiscoveredContainer
examine inspect c =
    let db_type = detect_db_type c.image in
    if is_empty db_type then none else elim (inspect c.id) [
      | err e ↦ none
      | ok det ↦ if det.running then some (build_container c det db_type) else none
    ]

unfoldable pub scan_list :
    (Bytes → Result ScanError Inspect) → List ListEntry → List DiscoveredContainer
scan_list inspect [] = []
scan_list inspect (c ∷ cs) = elim (examine inspect c) [
  | none ↦ scan_list inspect cs
  | some found ↦ found ∷ scan_list inspect cs
]

-- `Scan`
unfoldable pub scan : Daemon → Bytes → Result ScanError (List DiscoveredContainer)
scan d base = list_containers d base >>= λ list. ok (scan_list (inspect_container d base) list)
