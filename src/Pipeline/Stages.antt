-- ===== src/Pipeline/Stages.antt =====
-- The four stages of `Run` in apps/agent/internal/pipeline/runner.go, with `Put` of upload.go,
-- `CompressZstd` of compress.go and the header checks of pg_dump.go and mysqldump.go. A pipe is the
-- bytes that went through it and the error that it was closed with.
use backupy_agent.Prelude.{
  ℕ, zero, suc, ◌/◌, Bool, true, false, not, ◌&&◌, ◌||◌, Option, none, some, List, [], ◌∷◌, length,
  take, drop, leb, ◌==◌, if◌then◌else◌, Result, ok, err, ◌>>=◌, map_err,
}
use backupy_agent.Prelude.Bytes.{Bytes, is_empty, codes, ◌===◌}
use backupy_agent.Prelude.Strings.{to_lower, has_prefix}
use backupy_agent.Io.{Fault, fault, Reader}
use backupy_agent.Cipher.{Aead}
use backupy_agent.Pipeline.Encrypt.{stream}
use backupy_agent.Pipeline.Request.{
  Target, Driver, RunError, World, dump, smoke, compress, encrypt, upload, encrypt_stream,
  http_status,
}

unfoldable pub is_pg_dump_magic : Bytes → Bool
is_pg_dump_magic head = has_prefix head (codes "PGDMP")

unfoldable pub is_mysqldump_header : Bytes → Bool
is_mysqldump_header head =
    let low = to_lower head in
    not (is_empty head)
    && (has_prefix low (codes "-- mysql dump")
        || (has_prefix low (codes "-- mariadb dump")
            || (has_prefix low (codes "-- mysqldump") || has_prefix low (codes "-- mariadb-dump"))))

-- `smokeValidatedReader`: the error of the check, or of the peek, if there is one. `Peek(n)` of fewer
-- bytes reports how the stream ended; the caller lets `io.EOF` pass.
unfoldable pub smoke_check : Bytes → Reader → Option Fault
smoke_check name r =
    let peek = λ (n : ℕ). if leb n (length r.bytes) then none else r.ends in
    if name === codes "pg_dump"
    then elim (peek 5) [
      | some e ↦ some e
      | none ↦ if is_pg_dump_magic (take 5 r.bytes) then none else some (fault 1)
    ]
    else (if name === codes "mysqldump"
        then elim (peek 32) [
          | some e ↦ some e
          | none ↦ if is_mysqldump_header (take 32 r.bytes) then none else some (fault 2)
        ]
        else none)

-- The stages between the pipes: what each leaves in the pipe behind it, and its error.
pub record Stage : Type 0 where
  pub out : Reader
  pub error : Option RunError

-- `CompressZstd` behind the smoke check. The encoder is closed also on an error.
unfoldable pub compress_stage : World → Bytes → Reader → Stage
compress_stage w name dumped = elim (smoke_check name dumped) [
  | some e ↦ record { out = record { bytes = []; ends = some e }; error = some (smoke e) }
  | none ↦ elim dumped.ends [
    | some e ↦ record {
      out = record { bytes = w.zstd dumped.bytes; ends = some e };
      error = some (compress e);
    }
    | none ↦ record { out = record { bytes = w.zstd dumped.bytes; ends = none }; error = none }
  ]
]

-- Stage 3. The error that an encryptor's failure closes the pipe with is the stage's own.
unfoldable pub encrypt_stage : World → Option Aead → Reader → Stage
encrypt_stage w none r = record {
  out = r;
  error = elim r.ends [ none ↦ none | some e ↦ some (encrypt e) ];
}
encrypt_stage w (some aead) r =
    let (result, s) = stream (some aead) w.rand r (record { written = []; room = none }) in
    elim result [
      | ok n ↦ record { out = record { bytes = s.out.written; ends = none }; error = none }
      | err e ↦ record {
        out = record { bytes = s.out.written; ends = some (fault 3) };
        error = some (encrypt_stream e);
      }
    ]

-- `stageEncryptedBody`
unfoldable pub stage_encrypted_body : World → Reader → Result RunError Bytes
stage_encrypted_body w r = elim w.temp_file [
  | some e ↦ err (upload e)
  | none ↦ elim r.ends [ some e ↦ err (upload e) | none ↦ ok r.bytes ]
]

-- `Put`: the hash of the body in hexadecimal and its length.
unfoldable pub put : World → Bytes → Bytes → Result RunError (Bytes × ℕ)
put w url body = map_err upload (w.http url body) >>= λ status.
    if status / 100 == 2 then ok (w.hex_sha256 body, length body) else err (http_status status)

-- Stage 1's error: the driver's own, or that the pipe was closed under it.
unfoldable pub dump_error : Driver → Target → Bool → Option RunError
dump_error d t stopped = elim (d.dump t).ends [
  | some e ↦ some (dump e)
  | none ↦ if stopped then elim (d.closed t) [ none ↦ none | some e ↦ some (dump e) ] else none
]

unfoldable pub is_some : {A : Type 0} → Option A → Bool
is_some none = false
is_some (some a) = true

-- The receives from `errs`: a schedule says which of the results that are not yet received comes next.
unfoldable pub take_one : {A : Type 0} → ℕ → A → List A → A × List A
take_one zero x xs = (x, xs)
take_one (suc n) x [] = (x, [])
take_one (suc n) x (y ∷ ys) = let (z, zs) = take_one n y ys in (z, x ∷ zs)

unfoldable pub keep_first : Option RunError → Option RunError → Option RunError
keep_first none e = e
keep_first (some x) e = some x

unfoldable pub head_or_zero : List ℕ → ℕ
head_or_zero [] = 0
head_or_zero (n ∷ ns) = n

unfoldable pub receive : ℕ → List ℕ → List (Option RunError) → Option RunError → Option RunError
receive zero schedule pending first = first
receive (suc k) schedule [] first = first
receive (suc k) schedule (x ∷ xs) first =
    let (e, rest) = take_one (head_or_zero schedule) x xs in
    receive k (drop 1 schedule) rest (keep_first first e)

-- Stages 1 to 4: the outcome and the PUT requests made.
unfoldable pub run_stages :
    World
    → List ℕ
    → Driver
    → Target
    → Option Aead
    → Bytes
    → Result RunError (Bytes × ℕ) × List (Bytes × Bytes)
run_stages w schedule d t aead url =
    let dumped = d.dump t in
    let compressed = compress_stage w d.name dumped in
    let encrypted = encrypt_stage w aead compressed.out in
    let staged = stage_encrypted_body w encrypted.out in
    let uploaded : Result RunError (Bytes × ℕ) = staged >>= λ body. put w url body in
    let requests : List (Bytes × Bytes) = elim staged [ err e ↦ [] | ok body ↦ (url, body) ∷ [] ] in
    let up : Option RunError = elim uploaded [ err e ↦ some e | ok r ↦ none ] in
    let stopped = is_some compressed.error || (is_some encrypted.error || is_some up) in
    let errs = dump_error d t stopped ∷ compressed.error ∷ encrypted.error ∷ up ∷ [] in
    (elim (receive 4 schedule errs none) [ some e ↦ err e | none ↦ uploaded ], requests)
