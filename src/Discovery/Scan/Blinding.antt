-- ===== src/Discovery/Scan/Blinding.antt =====
-- What a scan tells of the environments that the daemon gives away.
use backupy_agent.Prelude.{
  ◌≡◌, refl, sym, ◌∙◌, ap, inl, inr, Option, none, some, List, [], ◌∷◌, map, if◌then◌else◌, Result,
  ok, err, Result-cases, arith,
}
use backupy_agent.Prelude.Bytes.{Bytes, is_empty}
use backupy_agent.Discovery.Images.{detect_db_type}
use backupy_agent.Discovery.Env.{env_key}
use backupy_agent.Discovery.Env.Hiding.{hints_of_names, filter_env-hints_of_names}
use backupy_agent.Discovery.Scan.{
  ListEntry, Inspect, DiscoveredContainer, Daemon, ScanError, list_containers, inspect_container,
  build_container, examine, scan_list, scan, name_of,
}

-- The details of a container with the names of its environment in place of the environment.
pub record Blind : Type 0 where
  pub details : Inspect
  pub names : List (Option Bytes)

unfoldable pub blind : Inspect → Blind
blind d = record { details = record d { env = [] }; names = map env_key d.env }

unfoldable pub blind_answer : Result ScanError Inspect → Result ScanError Blind
blind_answer (ok d) = ok (blind d)
blind_answer (err e) = err e

reported : ListEntry → Bytes → Blind → DiscoveredContainer
reported c db_type b = record (build_container c b.details db_type) {
  env_hints = hints_of_names b.names;
}

build_container-reported :
    (c : ListEntry) (d : Inspect) (db_type : Bytes)
    → build_container c d db_type ≡ reported c db_type (blind d)
unfolding build_container reported blind name_of
build_container-reported c d db_type = ground (arith, filter_env-hints_of_names d.env)

examine_blind : ListEntry → Result ScanError Blind → Option DiscoveredContainer
examine_blind c r =
    let db_type = detect_db_type c.image in
    if is_empty db_type then none else elim r [
      | err e ↦ none
      | ok b ↦ if b.details.running then some (reported c db_type b) else none
    ]

examine-blind :
    (c : ListEntry) (inspect : Bytes → Result ScanError Inspect)
    → examine inspect c ≡ examine_blind c (blind_answer (inspect c.id))
unfolding examine examine_blind blind_answer
examine-blind c inspect = elim (Result-cases (inspect c.id)) [
  | inr (e, bad) ↦ ground arith
  | inl (d, good) ↦
      let same = build_container-reported c d (detect_db_type c.image) in
      let running : (blind d).details.running ≡ d.running = unfold blind in refl in ground arith
]

module _ (inspect inspect' : Bytes → Result ScanError Inspect)
    (alike : (id : Bytes) → blind_answer (inspect id) ≡ blind_answer (inspect' id)) where
  examine_alike : (c : ListEntry) → examine inspect c ≡ examine inspect' c
  examine_alike c =
      examine-blind c inspect ∙ ap (examine_blind c) (alike c.id) ∙ sym (examine-blind c inspect')

  scan_list_alike : (list : List ListEntry) → scan_list inspect list ≡ scan_list inspect' list
  unfolding scan_list
  scan_list_alike [] = refl
  scan_list_alike (c ∷ cs) = ground (arith, examine_alike c, scan_list_alike cs)

-- No value of an environment variable gets into a scan: two daemons that list the same containers,
-- and whose answers about each container differ only in what stands behind the names in its
-- environment, are reported alike, errors included.
pub scan_blind :
    (d d' : Daemon) (base : Bytes)
    → list_containers d base ≡ list_containers d' base
    → ((id : Bytes)
        → blind_answer (inspect_container d base id) ≡ blind_answer (inspect_container d' base id))
    → scan d base ≡ scan d' base
unfolding scan
scan_blind d d' base listed alike =
    let same = scan_list_alike (inspect_container d base) (inspect_container d' base) alike in
    elim (Result-cases (list_containers d base)) [
      | inr (e, bad) ↦ ground arith
      | inl (list, good) ↦ ground (arith, same list)
    ]
