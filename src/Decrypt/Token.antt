-- ===== src/Decrypt/Token.antt =====
-- apps/backupy-decrypt/internal/jwt/jwt.go. Base64 and JSON are the standard library's: parameters.
pub mod Valid
pub mod Accepting
use backupy_agent.Prelude.{
  ℕ, ◌*◌, ◌^◌, Bool, true, Option, none, some, List, [], ◌∷◌, length, ltb, if◌then◌else◌, Result,
  ok, err, ◌>>=◌, map_err,
}
use backupy_agent.Prelude.Bytes.{Bytes, codes, is_empty, ◌===◌}
use backupy_agent.Prelude.Int.{ℤ, pos, negsuc}
use backupy_agent.Prelude.Strings.{split}
use backupy_agent.Prelude.Maps.{find_key}
use backupy_agent.Io.{Fault}

-- The values that `toUnix` and the string claims tell apart. A float64 is the integer that `int64(n)`
-- makes of it, a json.Number what its `Int64` gives.
pub data Json : Type 0 where
  string : Bytes → Json
  float64 int64 int : ℤ → Json
  number : Option ℤ → Json
  other : Json

abbrev pub Claims : Type 0
Claims = List (Bytes × Json)

-- `base64.RawURLEncoding.DecodeString`, and `json.Unmarshal` into a map.
pub record Decoders : Type 0 where
  pub raw_url : Bytes → Result Fault Bytes
  pub unmarshal : Bytes → Result Fault Claims

pub data TokenError : Type 0 where
  segments : ℕ → TokenError
  payload_base64 payload_json : Fault → TokenError
  missing_claim not_a_string : Bytes → TokenError
  wrong_issuer wrong_audience : Bytes → Bytes → TokenError
  expired : TokenError

pub record DecryptionClaims : Type 0 where
  pub issuer : Bytes
  pub subject : Bytes
  pub audience : Bytes
  pub issued_at : ℤ
  pub expires_at : ℤ
  pub run_id : Bytes
  pub company_id : Bytes
  pub dek_base64 : Bytes
  pub algorithm : Bytes
  pub format_version : ℤ
  pub sha256 : Bytes

unfoldable pub payload_segment : List Bytes → Result TokenError Bytes
payload_segment (header ∷ payload ∷ signature ∷ []) = ok payload
payload_segment parts = err (segments (length parts))

unfoldable pub parse : Decoders → Bytes → Result TokenError Claims
parse d token = payload_segment (split 46 token) >>= λ segment.
    map_err payload_base64 (d.raw_url segment) >>= λ json. map_err payload_json (d.unmarshal json)

-- `getStr`, from the value that is looked up on.
unfoldable pub string_of : Bytes → Option Json → Result TokenError Bytes
string_of k none = err (missing_claim k)
string_of k (some (string s)) = if is_empty s then err (not_a_string k) else ok s
string_of k (some v) = err (not_a_string k)

unfoldable pub get_str : Claims → Bytes → Result TokenError Bytes
get_str claims k = string_of k (find_key k claims)

unfoldable pub to_unix : Option Json → Option ℤ
to_unix (some (float64 n)) = some n
to_unix (some (int64 n)) = some n
to_unix (some (int n)) = some n
to_unix (some (number n)) = n
to_unix v = none

-- `toUnix(claims[k])`, with the error of a claim that has to be there.
unfoldable pub get_number : Claims → Bytes → Result TokenError ℤ
get_number claims k = elim (to_unix (find_key k claims)) [
  | none ↦ err (missing_claim k)
  | some n ↦ ok n
]

-- `iat, _ := toUnix(claims["iat"])`
unfoldable pub number_or_zero : Option ℤ → ℤ
number_or_zero none = pos 0
number_or_zero (some n) = n

-- `sha, _ := claims["sha256"].(string)`
unfoldable pub string_or_empty : Option Json → Bytes
string_or_empty (some (string s)) = s
string_or_empty v = []

-- `time.Now().UTC().After(expiresAt)`, the clock in nanoseconds since 1970.
unfoldable pub is_after : ℕ → ℤ → Bool
is_after now (pos seconds) = ltb (seconds * 10 ^ 9) now
is_after now (negsuc n) = true

unfoldable pub check_issuer : Bytes → Bytes → Result TokenError Bytes
check_issuer want got = if got === want then ok got else err (wrong_issuer got want)

unfoldable pub check_audience : Bytes → Bytes → Result TokenError Bytes
check_audience want got = if got === want then ok got else err (wrong_audience got want)

unfoldable pub check_expiry : ℕ → ℤ → Result TokenError ℤ
check_expiry now exp = if is_after now exp then err expired else ok exp

-- `ParseDecryption` behind `Parse`.
unfoldable pub typed_claims : ℕ → Bytes → Bytes → Claims → Result TokenError DecryptionClaims
typed_claims now want_iss want_aud claims =
    get_str claims (codes "iss") >>= check_issuer want_iss >>= λ iss.
    get_str claims (codes "aud") >>= check_audience want_aud >>= λ aud.
    get_number claims (codes "exp") >>= check_expiry now >>= λ exp.
    get_str claims (codes "sub") >>= λ sub. get_str claims (codes "run_id") >>= λ run_id.
    get_str claims (codes "company_id") >>= λ company_id. get_str claims (codes "dek") >>= λ dek.
    get_str claims (codes "alg") >>= λ alg.
    get_number claims (codes "format_version") >>= λ version. ok (record {
      issuer = iss;
      subject = sub;
      audience = aud;
      issued_at = number_or_zero (to_unix (find_key (codes "iat") claims));
      expires_at = exp;
      run_id = run_id;
      company_id = company_id;
      dek_base64 = dek;
      algorithm = alg;
      format_version = version;
      sha256 = string_or_empty (find_key (codes "sha256") claims);
    })

-- `ParseDecryption`
unfoldable pub parse_decryption :
    Decoders → ℕ → Bytes → Bytes → Bytes → Result TokenError DecryptionClaims
parse_decryption d now want_iss want_aud token =
    parse d token >>= λ claims. typed_claims now want_iss want_aud claims
