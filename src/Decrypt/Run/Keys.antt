-- ===== src/Decrypt/Run/Keys.antt =====
-- The part of `Run` of the decrypt tool before its files: which tokens give which key.
use backupy_agent.Prelude.{
  ◌≡◌, refl, sym, ◌∙◌, ap, true, length, Result, ok, err, ◌>>=◌, map_err, arith, >>=-passed,
  ok-injective, subst,
}
use backupy_agent.Prelude.Bytes.{Bytes, codes}
use backupy_agent.Prelude.Int.{ℤ, pos, negsuc}
use backupy_agent.Prelude.Strings.{equal_fold}
use backupy_agent.Decrypt.Token.{DecryptionClaims, parse_decryption}
use backupy_agent.Decrypt.Run.{
  ToolError, Host, token_error, check_algorithm, is_version_one, check_dek_length, key_of_token,
  issuer_expected, audience_expected,
}

map_err-ok : {E F A : Type 0} (f : E → F) (r : Result E A) {a : A} → map_err f r ≡ ok a → r ≡ ok a
map_err-ok f (ok b) h = ground arith
map_err-ok f (err e) h = absurd (ground arith)

is_version_one_lem : (v : ℤ) → is_version_one v ≡ true → v ≡ pos 1
unfolding is_version_one
is_version_one_lem (pos n) h = ground arith
is_version_one_lem (negsuc n) h = absurd (ground arith)

module _ (w : Host) where
  -- A token of this tool, with the key that it carries.
  pub record HasKey (token : Bytes) (c : DecryptionClaims) (dek : Bytes) : Type 0 where
    pub parsed : parse_decryption w.decoders w.now issuer_expected audience_expected token ≡ ok c
    pub algorithm : equal_fold c.algorithm (codes "AES-256-GCM") ≡ true
    pub version : c.format_version ≡ pos 1
    pub key : w.std_base64 c.dek_base64 ≡ ok dek
    pub full : length dek ≡ 32

  check_algorithm-ok :
      (c : DecryptionClaims) {u : Unit {0}}
      → check_algorithm c ≡ ok u
      → (equal_fold c.algorithm (codes "AES-256-GCM") ≡ true) × (c.format_version ≡ pos 1)
  unfolding check_algorithm
  check_algorithm-ok c h = (ground arith, is_version_one_lem c.format_version (ground arith))

  pub key_of_token-ok :
      (token : Bytes) {c : DecryptionClaims} {dek : Bytes}
      → key_of_token w token ≡ ok (c, dek)
      → HasKey token c dek
  unfolding key_of_token check_dek_length
  key_of_token-ok token {c} {dek} h =
      let parse = parse_decryption w.decoders w.now issuer_expected audience_expected token in
      let (c', hc, h1) = >>=-passed (map_err token_error parse) _ h in
      let (u, hu, h2) = >>=-passed (check_algorithm c') _ h1 in
      let (dek', hd, h3) =
        >>=-passed (map_err ToolError.dek_base64 (w.std_base64 c'.dek_base64) >>= check_dek_length)
          _ h2 in
      let (raw, hr, hl) =
        >>=-passed (map_err ToolError.dek_base64 (w.std_base64 c'.dek_base64)) _ hd in
      let same : (c', dek') ≡ (c, dek) = ok-injective refl refl h3 in
      let (alg, version) = check_algorithm-ok c' hu in
      let long : length raw ≡ 32 = ground arith in
      let it : raw ≡ dek' = ground arith in
      let good : HasKey token c' dek' = record {
        parsed = map_err-ok token_error parse hc;
        algorithm = alg;
        version = version;
        key = map_err-ok ToolError.dek_base64 (w.std_base64 c'.dek_base64) hr ∙ ap ok it;
        full = ap (λ (b : Bytes). length b) (sym it) ∙ long;
      } in
      subst (λ (p : DecryptionClaims × Bytes). HasKey token p.0 p.1) same good

  pub key_of_token-HasKey :
      (token : Bytes) {c : DecryptionClaims} {dek : Bytes}
      → HasKey token c dek
      → key_of_token w token ≡ ok (c, dek)
  unfolding key_of_token check_algorithm is_version_one check_dek_length
  key_of_token-HasKey token k =
      rw (key_of_token, k.parsed, k.algorithm, k.version, k.key, k.full) refl
