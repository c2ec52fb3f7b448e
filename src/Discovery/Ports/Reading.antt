-- ===== src/Discovery/Ports/Reading.antt =====
-- `parsePort` of apps/agent/internal/discovery/docker.go against the numbers that decimals stand for.
use backupy_agent.Prelude.{
  ℕ, ◌+◌, ◌-◌, ◌*◌, ◌%◌, ◌^◌, ◌≤◌, ◌≡◌, refl, false, not, ◌&&◌, Bool-cases, inl, inr, List, [], ◌∷◌,
  ltb, leb, ◌==◌, if◌then◌else◌, arith, ltb→lt, lt→leb, All, All-append, ◌≢◌, ap, Option-cases,
}
use backupy_agent.Prelude.Bytes.{Bytes, is_empty}
use backupy_agent.Prelude.Strings.{to_lower, trim_space, cut_at}
use backupy_agent.Discovery.Images.{is_digit, all_digits}
use backupy_agent.Discovery.Ports.{
  PortBinding, parse_digits, parse_port, default_proto, parse_port_key, bind_all, ports_of_key,
  ports_from_inspect,
}

-- The number that decimal digits stand for, behind those that stand for `v`.
unfoldable pub value_from : ℕ → Bytes → ℕ
value_from v [] = v
value_from v (c ∷ cs) = value_from (v * 10 + (c - 48)) cs

value_from_grows : (v : ℕ) (cs : Bytes) → v ≤ value_from v cs
unfolding value_from
value_from_grows v [] = omega arith
value_from_grows v (c ∷ cs) = omega (arith, value_from_grows (v * 10 + (c - 48)) cs)

parse_digits-value_from :
    (cs : Bytes) (v : ℕ)
    → v ≤ 65535
    → parse_digits cs v
      ≡ (if all_digits cs && leb (value_from v cs) 65535 then value_from v cs else 0)
unfolding parse_digits all_digits value_from
parse_digits-value_from [] v h = ground arith
parse_digits-value_from (c ∷ cs) v h =
    let v' = v * 10 + (c - 48) in
    elim (Bool-cases (is_digit c)) [
      | inr bad ↦ rw bad refl
      | inl digit ↦
          let fits : v' % 2 ^ 32 ≡ v' = ground arith in
          elim (Bool-cases (ltb 65535 v')) [
            | inl over ↦
                let large : leb (value_from v' cs) 65535 ≡ false =
                  lt→leb (value_from v' cs) 65535
                    (omega (arith, value_from_grows v' cs, ltb→lt 65535 v' over)) in
                rw (digit, fits, over, large) (ground arith)
            | inr small ↦ rw (digit, fits, small) (parse_digits-value_from cs v' (ground arith))
          ]
    ]

-- `parsePort` is the decimal reading cut to ports: on a non-empty text of digits that stands for at
-- most 65535, with any leading zeros, it gives that number, and on any other text 0.
pub parse_port-value_from :
    (s : Bytes)
    → parse_port s ≡ (
        if not (is_empty s) && (all_digits s && leb (value_from 0 s) 65535)
        then value_from 0 s
        else 0)
unfolding parse_port
parse_port-value_from [] = refl
parse_port-value_from (c ∷ cs) = parse_digits-value_from (c ∷ cs) 0 (omega arith)

parse_port_bound : (s : Bytes) → parse_port s ≤ 65535
parse_port_bound s = ground (arith, parse_port-value_from s)

-- A port that a container can have, with a host port or none, under a protocol that is named.
pub record IsBinding (p : PortBinding) : Type 0 where
  pub port_positive : 1 ≤ p.container_port
  pub port_fits : p.container_port ≤ 65535
  pub host_fits : p.host_port ≤ 65535
  pub named : p.protocol ≢ []

default_proto-ne-nil : (p : Bytes) → default_proto p ≢ []
unfolding default_proto
default_proto-ne-nil p h = elim (Bool-cases (is_empty (to_lower (trim_space p)))) [
  | inl empty ↦ absurd (ground arith)
  | inr filled ↦
      let e : to_lower (trim_space p) ≡ [] = ground arith in
      absurd (ground (arith, ap (λ (b : Bytes). is_empty b) e))
]

parse_port_key_bound :
    (key : Bytes) → ((parse_port_key key).0 ≤ 65535) × ((parse_port_key key).1 ≢ [])
unfolding parse_port_key
parse_port_key_bound key = elim (Option-cases (cut_at 47 key)) [
  | inl whole ↦ rw (parse_port_key, whole) (parse_port_bound key, λ h. ground arith)
  | inr ((port, proto), cut) ↦
      rw (parse_port_key, cut) (parse_port_bound port, default_proto-ne-nil proto)
]

module _ (port : ℕ) (proto : Bytes) (low : 1 ≤ port) (high : port ≤ 65535)
    (named : proto ≢ []) where
  bind_all-IsBinding : (hosts : List Bytes) → All IsBinding (bind_all port proto hosts)
  unfolding bind_all
  bind_all-IsBinding [] = tt
  bind_all-IsBinding (host ∷ hosts) = (
    record {
      port_positive = low;
      port_fits = high;
      host_fits = parse_port_bound host;
      named = named;
    },
    bind_all-IsBinding hosts,
  )

  ports_of_key-IsBinding : (hosts : List Bytes) → All IsBinding (ports_of_key port proto hosts)
  unfolding ports_of_key
  ports_of_key-IsBinding [] =
      (record { port_positive = low; port_fits = high; host_fits = omega arith; named = named }, tt)
  ports_of_key-IsBinding (host ∷ hosts) = bind_all-IsBinding (host ∷ hosts)

-- Whatever text the daemon gives for ports, each binding that is read of it has a container port
-- from 1 to 65535, a host port up to 65535, 0 where it is not published, and a protocol.
pub ports_from_inspect-IsBinding :
    (entries : List (Bytes × List Bytes)) → All IsBinding (ports_from_inspect entries)
unfolding ports_from_inspect
ports_from_inspect-IsBinding [] = tt
ports_from_inspect-IsBinding ((key, hosts) ∷ entries) =
    let (port, proto) = parse_port_key key in
    let (fits, named) = parse_port_key_bound key in
    let rest = ports_from_inspect-IsBinding entries in
    elim (Bool-cases (port == 0)) [
      | inl zero_port ↦ rw zero_port rest
      | inr some_port ↦ rw some_port (
          All-append IsBinding (ports_of_key port proto hosts) (ports_from_inspect entries)
            (ports_of_key-IsBinding port proto (ground arith) fits named hosts) rest)
    ]
