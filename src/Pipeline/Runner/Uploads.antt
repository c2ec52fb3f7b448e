-- ===== src/Pipeline/Runner/Uploads.antt =====
-- What the stages of a run upload.
use backupy_agent.Prelude.{
  ℕ, ◌/◌, ◌≡◌, ◌⊎◌, refl, sym, ◌∙◌, subst, ◌||◌, Bool-cases, Option-cases, inl, inr, Option, none,
  some, List, [], ◌∷◌, length, All, ◌==◌, Result, ok, err, ◌>>=◌, Result-cases, arith,
}
use backupy_agent.Prelude.Bytes.{Bytes}
use backupy_agent.Io.{Fault, Reader, Writer}
use backupy_agent.Cipher.{Aead}
use backupy_agent.Pipeline.Encrypt.{stream}
use backupy_agent.Pipeline.Encrypt.Broken.{stream_whole}
use backupy_agent.Pipeline.Request.{Target, Driver, RunError, World}
use backupy_agent.Pipeline.Stages.{
  encrypt_stage, compress_stage, smoke_check, stage_encrypted_body, put, dump_error, is_some,
  receive, run_stages,
}
use backupy_agent.Pipeline.Runner.Results.{receive-none, NoError}

-- The body that stage 3 makes of all of a plaintext.
unfoldable pub Encrypted : World → Option Aead → Bytes → Bytes → Type 0
Encrypted w none plain body = body ≡ plain
Encrypted w (some aead) plain body =
    let (r, s) =
      stream (some aead) w.rand (record { bytes = plain; ends = none })
        (record { written = []; room = none }) in
    (s.out.written ≡ body) × ((n : ℕ) × (r ≡ ok n))

-- The dump succeeded and passed the smoke check, and the body is made of all of it.
unfoldable pub Complete : World → Driver → Target → Option Aead → Bytes → Type 0
Complete w d t aead body =
    ((d.dump t).ends ≡ none)
    × (smoke_check d.name (d.dump t) ≡ none)
    × Encrypted w aead (w.zstd (d.dump t).bytes) body

module _ (w : World) where
  staged_ok :
      (r : Reader) {body : Bytes}
      → stage_encrypted_body w r ≡ ok body
      → (r.ends ≡ none) × (r.bytes ≡ body)
  unfolding stage_encrypted_body
  staged_ok r h = ground arith

  encrypt_stage_whole :
      (aead : Option Aead) (plain : Bytes) (ends : Option Fault) {body : Bytes}
      → let s = encrypt_stage w aead (record { bytes = plain; ends = ends }) in
        (s.out.ends ≡ none) × (s.out.bytes ≡ body) → (ends ≡ none) × Encrypted w aead plain body
  unfolding encrypt_stage Encrypted
  encrypt_stage_whole none plain ends h = (h.0, sym h.1)
  encrypt_stage_whole (some aead) plain ends {body} h =
      let sink : Writer = record { written = []; room = none } in
      let source : Reader = record { bytes = plain; ends = ends } in
      let (r, s) = stream (some aead) w.rand source sink in
      elim (Result-cases r) [
        | inr (e, bad) ↦ absurd (ground arith)
        | inl (n, good) ↦
            let whole : ends ≡ none = stream_whole (some aead) w.rand source sink good in
            let out : s.out.written ≡ body = ground arith in
            (
              whole,
              subst
                  (λ (x : Option Fault).
                    let (r, s) =
                      stream (some aead) w.rand (record { bytes = plain; ends = x }) sink in
                    (s.out.written ≡ body) × ((n : ℕ) × (r ≡ ok n)))
                  whole (out, (n, good)),
            )
      ]

  compressed_ok :
      (name : Bytes) (r : Reader)
      → (compress_stage w name r).out.ends ≡ none
      → (r.ends ≡ none)
        × (smoke_check name r ≡ none)
        × ((compress_stage w name r).out.bytes ≡ w.zstd r.bytes)
  unfolding compress_stage
  compressed_ok name r h = elim (Option-cases (smoke_check name r)) [
    | inr (e, bad) ↦ absurd (ground arith)
    | inl fine ↦ elim (Option-cases r.ends) [
      | inr (e, bad) ↦ absurd (ground arith)
      | inl whole ↦ (whole, fine, rw (compress_stage, fine, whole) refl)
    ]
  ]

  staged-Complete :
      (d : Driver) (t : Target) (aead : Option Aead) {body : Bytes}
      → stage_encrypted_body w (encrypt_stage w aead (compress_stage w d.name (d.dump t)).out).out
        ≡ ok body
      → Complete w d t aead body
  unfolding Complete
  staged-Complete d t aead {body} h =
      let c = (compress_stage w d.name (d.dump t)).out in
      let (cut, made) =
        encrypt_stage_whole aead c.bytes c.ends (staged_ok (encrypt_stage w aead c).out h) in
      let (whole, fine, bytes) = compressed_ok d.name (d.dump t) cut in
      (whole, fine, subst (λ (b : Bytes). Encrypted w aead b body) bytes made)

  -- Whatever the stages do and in whatever order they report, at most one PUT is made, and its body
  -- is complete.
  pub run_stages_puts :
      (schedule : List ℕ) (d : Driver) (t : Target) (aead : Option Aead) (url : Bytes)
      → let requests = (run_stages w schedule d t aead url).1 in
        (requests ≡ [])
        ⊎ ((body : Bytes) × (requests ≡ (url, body) ∷ []) × Complete w d t aead body)
  unfolding run_stages
  run_stages_puts schedule d t aead url =
      let staged =
        stage_encrypted_body w
          (encrypt_stage w aead (compress_stage w d.name (d.dump t)).out).out in
      elim (Result-cases staged) [
        | inr (e, bad) ↦ inl (rw (run_stages, bad) refl)
        | inl (body, good) ↦ inr (body, rw (run_stages, good) refl, staged-Complete d t aead good)
      ]

  put_ok :
      (url body : Bytes) {sha : Bytes} {size : ℕ}
      → put w url body ≡ ok (sha, size)
      → (sha ≡ w.hex_sha256 body)
        × (size ≡ length body)
        × ((status : ℕ) × (w.http url body ≡ ok status) × (status / 100 ≡ 2))
  unfolding put
  put_ok url body h = elim (Result-cases (w.http url body)) [
    | inr (e, bad) ↦ absurd (ground arith)
    | inl (status, good) ↦ elim (Bool-cases (status / 100 == 2)) [
      | inr bad ↦ absurd (ground arith)
      | inl fine ↦ (ground arith, ground arith, (status, good, ground arith))
    ]
  ]

  -- The four results that the stages send.
  abbrev pub stage_errors : Driver → Target → Option Aead → Bytes → List (Option RunError)
  stage_errors d t aead url =
      let compressed = compress_stage w d.name (d.dump t) in
      let encrypted = encrypt_stage w aead compressed.out in
      let staged = stage_encrypted_body w encrypted.out in
      let uploaded : Result RunError (Bytes × ℕ) = staged >>= λ body. put w url body in
      let up : Option RunError = elim uploaded [ err e ↦ some e | ok r ↦ none ] in
      let stopped = is_some compressed.error || (is_some encrypted.error || is_some up) in
      dump_error d t stopped ∷ compressed.error ∷ encrypted.error ∷ up ∷ []

  -- A good result means that one PUT of a complete body was answered by a 2xx status, and gives the
  -- body's hash and size.
  pub run_stages_ok :
      (schedule : List ℕ) (d : Driver) (t : Target) (aead : Option Aead) (url sha : Bytes)
      (size : ℕ)
      → (run_stages w schedule d t aead url).0 ≡ ok (sha, size)
      → (body : Bytes) × ((run_stages w schedule d t aead url).1 ≡ (url, body) ∷ [])
        × Complete w d t aead body
        × (sha ≡ w.hex_sha256 body)
        × (size ≡ length body)
        × ((status : ℕ) × (w.http url body ≡ ok status) × (status / 100 ≡ 2))
        × All NoError (stage_errors d t aead url)
  unfolding run_stages
  run_stages_ok schedule d t aead url sha size h =
      let staged =
        stage_encrypted_body w
          (encrypt_stage w aead (compress_stage w d.name (d.dump t)).out).out in
      let errs = stage_errors d t aead url in
      elim (Option-cases (receive 4 schedule errs none)) [
        | inr (e, bad) ↦
            let failed : (run_stages w schedule d t aead url).0 ≡ err e =
              rw (run_stages, bad) refl in
            absurd (ground arith)
        | inl fine ↦
            let result : (run_stages w schedule d t aead url).0
                ≡ (staged >>= λ body. put w url body) =
              rw (run_stages, fine) refl in
            let none_failed = (receive-none 4 schedule errs none refl fine).1 in
            elim (Result-cases staged) [
              | inr (e, bad) ↦
                  let failed : (staged >>= λ body. put w url body) ≡ err e = rw bad refl in
                  absurd (ground arith)
              | inl (body, good) ↦
                  let there : (staged >>= λ body. put w url body) ≡ put w url body = rw good refl in
                  let (sha_of, size_of, answer) = put_ok url body (sym there ∙ sym result ∙ h) in
                  (
                    body,
                    rw (run_stages, good) refl,
                    staged-Complete d t aead good,
                    sha_of,
                    size_of,
                    answer,
                    none_failed,
                  )
            ]
      ]
