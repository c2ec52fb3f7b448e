-- ===== src/Tests/Tool.antt =====
-- The decrypt tool on what a run has uploaded.
use backupy_agent.Prelude.{
  ◌≡◌, ◌↔◌, refl, true, false, Option, none, some, [], ◌∷◌, drop, ok, err, arith,
}
use backupy_agent.Prelude.Bytes.{Bytes, codes, ◌===◌}
use backupy_agent.Prelude.Int.{pos}
use backupy_agent.Prelude.Maps.{find_key}
use backupy_agent.Prelude.Strings.{split, to_lower, equal_fold}
use backupy_agent.Cipher.{Aead}
use backupy_agent.Pipeline.Request.{Target, JobSpec, UploadCreds, Driver}
use backupy_agent.Pipeline.Runner.{prepare}
use backupy_agent.Decrypt.Token.{
  string, float64, Claims, Decoders, DecryptionClaims, parse_decryption, parse, payload_segment,
  typed_claims, get_str, string_of, to_unix, get_number, number_or_zero, string_or_empty, is_after,
  check_issuer, check_audience, check_expiry,
}
use backupy_agent.Decrypt.Token.Valid.{IsValid}
use backupy_agent.Decrypt.Token.Accepting.{Carries, parse_decryption_iff}
use backupy_agent.Prelude.Words.{uint32}
use backupy_agent.Io.{fault, read_full, write}
use backupy_agent.Decrypt.Stream.{decrypt_stream, decrypt_loop}
use backupy_agent.Decrypt.Run.{
  blocked, key_of_token, token_error, check_algorithm, is_version_one, check_dek_length, open_files,
  run_opened, run_piped, finish_stream, close_and_check, check_sha, issuer_expected,
  audience_expected, Options, Host, returned, run_tool, ToolError,
}
use backupy_agent.Decrypt.Run.Keys.{HasKey}
use backupy_agent.Decrypt.Run.Accepting.{Decrypted, run_tool_sound}
use backupy_agent.Decrypt.Run.Touching.{is_early, run_tool_untouched}
use backupy_agent.EndToEnd.{whole}
use backupy_agent.EndToEnd.Restore.{Serves, Issued, run_tool-run}
use backupy_agent.Tests.Toy.{toy, toy-IsGcm, toy_random-IsRandom}
use backupy_agent.Tests.Runs.{a_world, a_request, a_report, a_body, run_succeeds, run_makes}

abbrev claims_json : Claims
claims_json =
    (codes "iss", string (codes "backupy-server"))
    ∷ (codes "aud", string (codes "backupy-decrypt"))
    ∷ (codes "exp", float64 (pos 9))
    ∷ (codes "sub", string (codes "u"))
    ∷ (codes "run_id", string (codes "r"))
    ∷ (codes "company_id", string (codes "c"))
    ∷ (codes "dek", string (9 ∷ 9 ∷ []))
    ∷ (codes "alg", string (codes "AES-256-GCM"))
    ∷ (codes "format_version", float64 (pos 1))
    ∷ (codes "sha256", string (codes "ab"))
    ∷ []

abbrev pub a_token : Bytes
a_token = codes "h.p.s"

abbrev toy_decoders : Decoders
toy_decoders = record { raw_url = λ b. ok b; unmarshal = λ b. ok claims_json }

abbrev pub a_claims : DecryptionClaims
a_claims = record {
  issuer = codes "backupy-server";
  subject = codes "u";
  audience = codes "backupy-decrypt";
  issued_at = pos 0;
  expires_at = pos 9;
  run_id = codes "r";
  company_id = codes "c";
  dek_base64 = 9 ∷ 9 ∷ [];
  algorithm = codes "AES-256-GCM";
  format_version = pos 1;
  sha256 = codes "ab";
}

pub a_token_parses :
    parse_decryption toy_decoders 5 issuer_expected audience_expected a_token ≡ ok a_claims
unfolding parse_decryption parse payload_segment split typed_claims get_str string_of find_key
    to_unix get_number number_or_zero string_or_empty is_after check_issuer check_audience
    check_expiry ◌===◌
a_token_parses = refl

parse_decryption_iff_example :
    (parse_decryption toy_decoders 5 issuer_expected audience_expected a_token ≡ ok a_claims) ↔ (
      (claims : Claims) × Carries toy_decoders a_token claims
      × IsValid 5 issuer_expected audience_expected claims a_claims)
parse_decryption_iff_example =
    parse_decryption_iff toy_decoders 5 issuer_expected audience_expected a_token a_claims

abbrev pub a_dek : Bytes
a_dek =
    9 ∷ 9 ∷ 0 ∷ 0 ∷ 0 ∷ 0 ∷ 0 ∷ 0 ∷ 0 ∷ 0 ∷ 0 ∷ 0 ∷ 0 ∷ 0 ∷ 0 ∷ 0 ∷ 0 ∷ 0 ∷ 0 ∷ 0 ∷ 0 ∷ 0 ∷ 0 ∷ 0
    ∷ 0 ∷ 0 ∷ 0 ∷ 0 ∷ 0 ∷ 0 ∷ 0 ∷ 0 ∷ []

abbrev pub a_host : Host
a_host = record {
  decoders = toy_decoders;
  now = 5;
  std_base64 = λ k. a_world.unwrap k;
  input = ok (whole a_body);
  output = ok none;
  gcm = λ k. toy;
  new_reader = none;
  copy = λ z room. record { produced = drop 1 z; error = none; stopped = false };
  ctx = λ n. none;
  close_file = none;
  hex_sha256 = λ b. codes "ab";
}

abbrev pub a_call : Options
a_call = record { token = a_token; verify_sha256 = true; skip_decompress = false }

serves : Serves a_world a_body a_host
serves = record {
  same_gcm = λ dek. refl;
  same_hash = λ b. refl;
  has_input = refl;
  has_output = refl;
  never_cancelled = refl;
  has_decoder = refl;
  closes = refl;
  unzips = λ b. refl;
}

issued : Issued a_host a_token a_dek a_report
issued = record {
  claims = a_claims;
  parsed = a_token_parses;
  algorithm = refl;
  version = refl;
  key = refl;
  hash = refl;
}

run_tool-run_example :
    (creds : UploadCreds) × (job : Option JobSpec) × (t : Target) × (d : Driver) × (aead : Option
      Aead)
    × (prepare a_world a_request ≡ ok (creds, job, t, d, aead))
    × (run_tool a_host a_call ≡ record { outcome = returned (ok tt); file = some (d.dump t).bytes })
run_tool-run_example =
    run_tool-run a_world a_host a_call toy_random-IsRandom (λ dek. toy-IsGcm) (2 ∷ 0 ∷ []) a_request
      a_report a_dek (codes "https://s3") a_body (omega arith) run_succeeds refl run_makes serves
      issued refl

run_tool_untouched_example : ((run_tool a_host a_call).file ≡ none) ↔ (
    (e : ToolError) × ((run_tool a_host a_call).outcome ≡ returned (err e)) × (is_early e ≡ true))
run_tool_untouched_example = run_tool_untouched a_host a_call

-- The call succeeds.
tool_succeeds : (run_tool a_host a_call).outcome ≡ returned (ok tt)
unfolding run_tool key_of_token token_error parse_decryption parse payload_segment split
    typed_claims get_str string_of find_key to_unix get_number number_or_zero string_or_empty
    is_after check_issuer check_audience check_expiry ◌===◌ check_algorithm equal_fold to_lower
    is_version_one check_dek_length open_files run_opened run_piped decrypt_stream decrypt_loop
    read_full write uint32 finish_stream close_and_check check_sha
tool_succeeds = refl

run_tool_sound_example :
    (c : DecryptionClaims) × (dek : Bytes) × HasKey a_host a_token c dek
    × Decrypted a_host a_call c toy (whole a_body) none (run_tool a_host a_call).file
run_tool_sound_example =
    run_tool_sound a_host a_call (λ dek. toy-IsGcm) (whole a_body) none (omega arith) refl refl
      tool_succeeds

-- The decoder stops at the first byte: the call never returns.
tool_blocks :
    (run_tool
      (record a_host {
        copy = λ z room. record { produced = []; error = some (fault 1); stopped = true };
      })
      a_call).outcome
    ≡ blocked
unfolding run_tool key_of_token token_error parse_decryption parse payload_segment split
    typed_claims get_str string_of find_key to_unix get_number number_or_zero string_or_empty
    is_after check_issuer check_audience check_expiry ◌===◌ check_algorithm equal_fold to_lower
    is_version_one check_dek_length open_files run_opened run_piped decrypt_stream decrypt_loop
    read_full write uint32 finish_stream close_and_check check_sha
tool_blocks = refl
