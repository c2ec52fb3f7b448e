-- ===== src/Drivers/PgDump/Asking.antt =====
-- What the command line of apps/agent/internal/pipeline/pg_dump.go asks of pg_dump, read as getopt reads
-- it.
use backupy_agent.Prelude.{
  ℕ, ◌<◌, ◌^◌, ◌⊎◌, All, ◌≡◌, refl, ◌∙◌, ap, Bool, true, Bool-cases, inl, inr, ◌||◌, Option, none,
  some, List, [], ◌∷◌, ◌++◌, ◌==◌, if◌then◌else◌, arith, append_assoc,
}
use backupy_agent.Prelude.Bytes.{Bytes, codes, is_empty, ◌===◌}
use backupy_agent.Wss.Client.{decimal}
use backupy_agent.Discovery.Ports.Reading.{value_from}
use backupy_agent.Drivers.Decimals.{IsDigit, value_from-decimal}
use backupy_agent.Drivers.Command.{Connection, Command, flag, port_flag}
use backupy_agent.Drivers.PgDump.{pg_conn_args, pg_env, pg_dump_command}

-- The options of pg_dump that are used here and take the next argument as their value.
unfoldable pub takes_value : Bytes → Bool
takes_value a = a === codes "-h" || (a === codes "-p" || (a === codes "-U" || a === codes "-d"))

-- The value of an option on a command line.
unfoldable pub option : Bytes → List Bytes → Option Bytes
option name [] = none
option name (a ∷ []) = none
option name (a ∷ v ∷ rest) =
    let behind = option name rest in
    let next = option name (v ∷ rest) in
    if takes_value a then (if a === name then some v else behind) else next

unfoldable pub unless_empty : Bytes → Option Bytes
unless_empty v = if is_empty v then none else some v

-- A call of pg_dump for a connection: the host, the port, the user and the database, where they are
-- set, and the password in the environment.
pub record Asks (c : Connection) (cmd : Command) : Type 0 where
  pub program : cmd.binary ≡ codes "pg_dump"
  pub host : option (codes "-h") cmd.args ≡ unless_empty c.host
  pub port :
      ((c.port ≡ 0) × (option (codes "-p") cmd.args ≡ none))
      ⊎ ((digits : Bytes) × (option (codes "-p") cmd.args ≡ some digits)
          × All IsDigit digits
          × (value_from 0 digits ≡ c.port))
  pub user : option (codes "-U") cmd.args ≡ unless_empty c.username
  pub database : option (codes "-d") cmd.args ≡ unless_empty c.database
  pub password : cmd.env ≡ (
      if is_empty c.password_secret_ref
      then []
      else (codes "PGPASSWORD=" ++ c.password_secret_ref) ∷ [])

option-flag :
    (name n v : Bytes) (rest : List Bytes)
    → takes_value n ≡ true
    → option name (flag n v ++ rest)
      ≡ (if is_empty v then option name rest else (if n === name then some v else option name rest))
unfolding option flag
option-flag name n [] rest h = refl
option-flag name n (x ∷ xs) rest h = rw h refl

option-port_flag :
    (name n : Bytes) (p : ℕ) (rest : List Bytes)
    → takes_value n ≡ true
    → option name (port_flag n p ++ rest) ≡ (
        if p == 0
        then option name rest
        else (if n === name then some (decimal 10 p) else option name rest))
unfolding option port_flag
option-port_flag name n p rest h = elim (Bool-cases (p == 0)) [
  | inl unset ↦ rw (port_flag, unset) refl
  | inr set ↦ rw (port_flag, set, option, h) refl
]

abbrev others : List Bytes
others =
    codes "--format=custom"
    ∷ codes "--no-owner"
    ∷ codes "--no-acl"
    ∷ codes "--serializable-deferrable"
    ∷ codes "--no-comments"
    ∷ []

known_h : takes_value (codes "-h") ≡ true
unfolding takes_value ◌===◌
known_h = refl

known_p : takes_value (codes "-p") ≡ true
unfolding takes_value ◌===◌
known_p = refl

known_u : takes_value (codes "-U") ≡ true
unfolding takes_value ◌===◌
known_u = refl

known_d : takes_value (codes "-d") ≡ true
unfolding takes_value ◌===◌
known_d = refl

module _ (c : Connection) where
  -- Any option, over the whole command line.
  option-pg_dump_command :
      (name : Bytes)
      → option name (pg_dump_command c).args
        ≡ option name (
            flag (codes "-h") c.host
            ++ (port_flag (codes "-p") c.port
                ++ (flag (codes "-U") c.username ++ (flag (codes "-d") c.database ++ others))))
  unfolding pg_dump_command pg_conn_args
  option-pg_dump_command name =
      let h = flag (codes "-h") c.host in
      let p = port_flag (codes "-p") c.port in
      let u = flag (codes "-U") c.username in
      let d = flag (codes "-d") c.database in
      ap (option name) (
        append_assoc h (p ++ (u ++ d)) others
        ∙ ap (λ l. h ++ l)
            (append_assoc p (u ++ d) others ∙ ap (λ l. p ++ l) (append_assoc u d others)))

  -- Any option, flag by flag.
  option-flags :
      (n : Bytes)
      → let at : Bytes → Bytes → Option Bytes → Option Bytes =
          λ m v behind. if is_empty v then behind else (if m === n then some v else behind) in
        let by_port : Option Bytes → Option Bytes = λ behind.
          if c.port == 0
          then behind
          else (if codes "-p" === n then some (decimal 10 c.port) else behind) in
        option n (pg_dump_command c).args
        ≡ at
            (codes "-h")
            c.host
            (by_port (at (codes "-U") c.username (at (codes "-d") c.database (option n others))))
  option-flags n =
      let u = flag (codes "-U") c.username in
      let d = flag (codes "-d") c.database in
      rw
        (
          option-pg_dump_command n,
          option-flag n (codes "-h") c.host (port_flag (codes "-p") c.port ++ (u ++ (d ++ others)))
              known_h,
          option-port_flag n (codes "-p") c.port (u ++ (d ++ others)) known_p,
          option-flag n (codes "-U") c.username (d ++ others) known_u,
          option-flag n (codes "-d") c.database others known_d,
        )
        refl

  option-port :
      option (codes "-p") (pg_dump_command c).args
      ≡ (if c.port == 0 then none else some (decimal 10 c.port))
  unfolding option takes_value ◌===◌
  option-port = option-flags (codes "-p") ∙ ground arith

  pub pg_dump_command-Asks : c.port < 2 ^ 32 → Asks c (pg_dump_command c)
  unfolding pg_dump_command pg_env option takes_value ◌===◌ unless_empty
  pg_dump_command-Asks narrow = record {
    program = refl;
    host = option-flags (codes "-h") ∙ ground arith;
    port = elim (Bool-cases (c.port == 0)) [
      | inl unset ↦ inl (ground arith, option-port ∙ rw unset refl)
      | inr set ↦
          let (reads, digits) = value_from-decimal 10 c.port (omega arith) in
          inr (decimal 10 c.port, option-port ∙ rw set refl, digits, reads)
    ];
    user = option-flags (codes "-U") ∙ ground arith;
    database = option-flags (codes "-d") ∙ ground arith;
    password = refl;
  }
