-- ===== src/Drivers/Redis/Snapshot.antt =====
-- Which snapshot `Dump` of apps/agent/internal/pipeline/redis.go streams.
use backupy_agent.Prelude.{
  ℕ, suc, ◌+◌, ◌≡◌, sym, ◌∙◌, ap, subst, true, Result-cases, inl, inr, refl, ok-injective,
  Bool-cases, ◌||◌, if◌then◌else◌, Option-cases, none, some, List, [], ◌∷◌, ◌++◌, length, Result,
  ok, arith,
}
use backupy_agent.Prelude.Bytes.{Bytes, codes, is_empty}
use backupy_agent.Prelude.Int.{ℤ, ltz}
use backupy_agent.Prelude.Strings.{split, trim_space}
use backupy_agent.Io.{Reader}
use backupy_agent.Drivers.Command.{
  Connection, Command, DriverError, M, ◌>>=◌, output, Dumped, stream_error, fail, empty_dump_path,
}
use backupy_agent.Drivers.Redis.{
  Machine, poll_rounds, redis_conn_args, redis_command, last_save_command, last_save, bgsave,
  wait_for_save, stream_snapshot, redis_run_dump, config, last_value, stream_file, server_version,
  version_of,
}
use backupy_agent.Drivers.Redis.Waiting.{
  Saved, asks, last_save_trace, last_save-Saved, wait_loop-Seen,
}

-- A chain of commands that succeeds: its first part has, and the rest goes on from what it has run.
M-passed :
    {A B : Type 0} (m : M A) (f : A → M B) (ran : List Command) {b : B}
    → ((m >>= f) ran).0 ≡ ok b
    → (a : A) × ((m ran).0 ≡ ok a) × ((m >>= f) ran ≡ f a (m ran).1)
M-passed m f ran h = elim (Result-cases (m ran).0) [
  | inr (e, bad) ↦ absurd (ground arith)
  | inl (a, good) ↦ (a, good, ground arith)
]

abbrev pub bgsave_command : List Bytes → Command
bgsave_command base = redis_command base (codes "BGSAVE" ∷ [])

module _ (w : Machine) (c : Connection) where
  abbrev pub base : List Bytes
  base = redis_conn_args c

  bgsave_trace :
      (ran : List Command) → (bgsave w.runner base ran).1 ≡ ran ++ (bgsave_command base ∷ [])
  unfolding bgsave output
  bgsave_trace ran = elim (Result-cases (w.runner.output (length ran) (bgsave_command base))) [
    | inr (e, bad) ↦ ground arith
    | inl (out, good) ↦ ground arith
  ]

  bgsave-ok :
      (ran : List Command) {u : Unit {0}}
      → (bgsave w.runner base ran).0 ≡ ok u
      → (reply : Bytes) × (w.runner.output (length ran) (bgsave_command base) ≡ ok reply)
  unfolding bgsave output
  bgsave-ok ran h = elim (Result-cases (w.runner.output (length ran) (bgsave_command base))) [
    | inr (e, bad) ↦ absurd (ground arith)
    | inl (out, good) ↦ (out, good)
  ]

  abbrev asks_for : Bytes → Command
  asks_for key = redis_command base (codes "CONFIG" ∷ codes "GET" ∷ key ∷ [])

  -- `config` has read this value from what redis-cli printed behind the commands of `ran`.
  abbrev pub Configured : List Command → Bytes → Bytes → Type 0
  Configured ran key value =
      (out : Bytes) × (w.runner.output (length ran) (asks_for key) ≡ ok out)
      × (value ≡ last_value key (split 10 (trim_space out)))

  config-Configured :
      (key : Bytes) (ran : List Command) {value : Bytes}
      → (config w.runner base key ran).0 ≡ ok value
      → Configured ran key value × ((config w.runner base key ran).1 ≡ ran ++ (asks_for key ∷ []))
  unfolding config output
  config-Configured key ran h = elim (Result-cases (w.runner.output (length ran) (asks_for key))) [
    | inr (e, bad) ↦ absurd (ground arith)
    | inl (out, good) ↦ ((out, good, ground arith), ground arith)
  ]

  -- What is archived, where redis-cli has run the commands of `ran` before.
  pub record Archived (ran : List Command) (d : Dumped) : Type 0 where
    pub dir : Bytes
    pub name : Bytes
    pub file : Reader
    pub dir_asked : Configured ran (codes "dir") dir
    pub name_asked : Configured (ran ++ (asks_for (codes "dir") ∷ [])) (codes "dbfilename") name
    pub opened : w.file_open (w.join_path dir name) ≡ ok file
    pub archived : d.stream ≡ w.tar_gz (codes "dump.rdb") file
    pub whole : d.stream.ends ≡ none

  stream_file-archived :
      (path : Bytes) (ran : List Command) {d : Dumped}
      → (stream_file w base path ran).0 ≡ ok d
      → (file : Reader) × (w.file_open path ≡ ok file)
        × (d.stream ≡ w.tar_gz (codes "dump.rdb") file)
        × (d.stream.ends ≡ none)
  unfolding stream_file stream_error server_version output
  stream_file-archived path ran {d} h = elim (Result-cases (w.file_open path)) [
    | inr (e, bad) ↦ absurd (ground arith)
    | inl (file, good) ↦ elim (Option-cases (w.tar_gz (codes "dump.rdb") file).ends) [
      | inr (e, bad) ↦ absurd (ground arith)
      | inl whole ↦
          let archive = w.tar_gz (codes "dump.rdb") file in
          let info = redis_command base (codes "INFO" ∷ codes "server" ∷ []) in
          let found : Dumped = record {
            stream = archive;
            engine_version = version_of (w.runner.output (length ran) info);
          } in
          let made : (stream_file w base path ran).0 ≡ ok found =
            rw (stream_file, good, whole) refl in
          let same : d ≡ found = ok-injective refl refl (sym h ∙ made) in
          let stream_of = ap (λ (x : Dumped). x.stream) same in
          (file, good, stream_of, ap (λ (x : Reader). x.ends) stream_of ∙ whole)
    ]
  ]

  abbrev then_open : Bytes → Bytes → M Dumped
  then_open dir name =
      if is_empty dir || is_empty name
      then fail empty_dump_path
      else stream_file w base (w.join_path dir name)

  abbrev then_name : Bytes → M Dumped
  then_name dir = config w.runner base (codes "dbfilename") >>= then_open dir

  abbrev result_of : Result DriverError Dumped × List Command → Result DriverError Dumped
  result_of p = p.0

  opened-archived :
      (dir name : Bytes) (ran : List Command) {d : Dumped}
      → (then_open dir name ran).0 ≡ ok d
      → (file : Reader) × (w.file_open (w.join_path dir name) ≡ ok file)
        × (d.stream ≡ w.tar_gz (codes "dump.rdb") file)
        × (d.stream.ends ≡ none)
  opened-archived dir name ran {d} h = elim (Bool-cases (is_empty dir || is_empty name)) [
    | inl missing ↦ absurd (ground arith)
    | inr there ↦
        let goes : then_open dir name ran ≡ stream_file w base (w.join_path dir name) ran =
          rw there refl in
        stream_file-archived (w.join_path dir name) ran (sym (ap result_of goes) ∙ h)
  ]

  stream_snapshot-Archived :
      (ran : List Command) (d : Dumped) → (stream_snapshot w base ran).0 ≡ ok d → Archived ran d
  unfolding stream_snapshot
  stream_snapshot-Archived ran d h =
      let (dir, dir_ok, to_name) = M-passed (config w.runner base (codes "dir")) then_name ran h in
      let ran1 = (config w.runner base (codes "dir") ran).1 in
      let h1 = sym (ap result_of to_name) ∙ h in
      let (name, name_ok, to_open) =
        M-passed (config w.runner base (codes "dbfilename")) (then_open dir) ran1 h1 in
      let ran2 = (config w.runner base (codes "dbfilename") ran1).1 in
      let h2 = sym (ap result_of to_open) ∙ h1 in
      let (file, opened, archived, whole) = opened-archived dir name ran2 h2 in
      let (dir_asked, went) = config-Configured (codes "dir") ran dir_ok in
      let name_asked = (config-Configured (codes "dbfilename") ran1 name_ok).0 in
      record {
        dir = dir;
        name = name;
        file = file;
        dir_asked = dir_asked;
        name_asked =
            subst (λ (l : List Command). Configured l (codes "dbfilename") name) went name_asked;
        opened = opened;
        archived = archived;
        whole = whole;
      }

  -- The commands of the wait and their answers, and the file that is read behind them.
  pub record Fresh (d : Dumped) : Type 0 where
    pub before : ℤ
    pub at : ℤ
    pub rounds : ℕ
    pub first : Saved w.runner base 0 before
    pub started : (reply : Bytes) × (w.runner.output 1 (bgsave_command base) ≡ ok reply)
    pub last : Saved w.runner base (2 + rounds) at
    pub newer : ltz before at ≡ true
    pub archive : Archived (last_save_command base ∷ bgsave_command base ∷ asks base (suc rounds)) d

  abbrev then_read : Unit {0} → M Dumped
  then_read _ = stream_snapshot w base

  abbrev then_wait : ℤ → Unit {0} → M Dumped
  then_wait prev _ = wait_for_save w base prev >>= then_read

  abbrev then_save : ℤ → M Dumped
  then_save prev = bgsave w.runner base >>= then_wait prev

  -- A Redis dump that succeeds has had LASTSAVE answered first, then redis-cli run with BGSAVE, which
  -- ended without an error whatever it printed, then LASTSAVE answered in rounds, the last time with a
  -- later time. Behind that, it has been told the directory and the name of the dump by CONFIG GET, has
  -- opened the file that they make, and the stream, which ends without an error, is the archive of it.
  -- That the save is the one asked for is not said: the reply to BGSAVE is not read.
  pub redis_run_dump-Fresh : (d : Dumped) → (redis_run_dump w (some c) []).0 ≡ ok d → Fresh d
  unfolding redis_run_dump wait_for_save asks
  redis_run_dump-Fresh d h =
      let (before, asked, to_save) = M-passed (last_save w.runner base) then_save [] h in
      let ran1 = (last_save w.runner base []).1 in
      let h1 = sym (ap result_of to_save) ∙ h in
      let (u, begun, to_wait) = M-passed (bgsave w.runner base) (then_wait before) ran1 h1 in
      let ran2 = (bgsave w.runner base ran1).1 in
      let h2 = sym (ap result_of to_wait) ∙ h1 in
      let (v, waited, to_read) = M-passed (wait_for_save w base before) then_read ran2 h2 in
      let ran3 = (wait_for_save w base before ran2).1 in
      let seen = wait_loop-Seen w base before poll_rounds 0 ran2 waited in
      let went1 : ran1 ≡ last_save_command base ∷ [] = last_save_trace w.runner base [] in
      let went2 : ran2 ≡ last_save_command base ∷ bgsave_command base ∷ [] =
        bgsave_trace ran1 ∙ ap (λ l. l ++ (bgsave_command base ∷ [])) went1 in
      let (reply, answered) = bgsave-ok ran1 begun in
      record {
        before = before;
        at = seen.at;
        rounds = seen.rounds;
        first = last_save-Saved w.runner base [] asked;
        started = (
          reply,
          subst (λ (l : List Command). w.runner.output (length l) (bgsave_command base) ≡ ok reply)
              went1 answered,
        );
        last =
            subst (λ (l : List Command). Saved w.runner base (length l + seen.rounds) seen.at) went2
              seen.saved;
        newer = seen.newer;
        archive =
            subst (λ (l : List Command). Archived l d)
              (seen.trace ∙ ap (λ l. l ++ asks base (suc seen.rounds)) went2)
              (stream_snapshot-Archived ran3 d (sym (ap result_of to_read) ∙ h2));
      }
