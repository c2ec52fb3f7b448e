-- ===== src/Decrypt/Token/Accepting.antt =====
-- `ParseDecryption` of apps/backupy-decrypt/internal/jwt/jwt.go, from the text of the token on.
use backupy_agent.Prelude.{
  ℕ, ◌≡◌, ◌↔◌, refl, sym, List, [], ◌∷◌, ◌++◌, Result, ok, err, map_err, arith, All, >>=-passed,
}
use backupy_agent.Prelude.Bytes.{Bytes}
use backupy_agent.Prelude.Strings.{split, join, Lacks, split-word, split-append, split_lem}
use backupy_agent.Decrypt.Token.{
  Claims, Decoders, TokenError, DecryptionClaims, payload_segment, parse, parse_decryption,
}
use backupy_agent.Decrypt.Token.Valid.{IsValid, typed_claims-ok, typed_claims-IsValid}

map_err-ok : {E F A : Type 0} (f : E → F) (r : Result E A) {a : A} → map_err f r ≡ ok a → r ≡ ok a
map_err-ok f (ok b) h = ground arith
map_err-ok f (err e) h = absurd (ground arith)

payload_segment-ok :
    (ws : List Bytes) {p : Bytes}
    → payload_segment ws ≡ ok p
    → (h : Bytes) × (s : Bytes) × (ws ≡ h ∷ p ∷ s ∷ [])
unfolding payload_segment
payload_segment-ok [] e = absurd (ground arith)
payload_segment-ok (a ∷ []) e = absurd (ground arith)
payload_segment-ok (a ∷ b ∷ []) e = absurd (ground arith)
payload_segment-ok (a ∷ b ∷ c ∷ []) e = (a, c, ground arith)
payload_segment-ok (a ∷ b ∷ c ∷ d ∷ rest) e = absurd (ground arith)

-- Three texts without a dot, joined by dots, of which the second decodes to JSON claims.
pub record Carries (d : Decoders) (token : Bytes) (claims : Claims) : Type 0 where
  pub header : Bytes
  pub payload : Bytes
  pub signature : Bytes
  pub json : Bytes
  pub joined : token ≡ header ++ (46 ∷ (payload ++ (46 ∷ signature)))
  pub dotless : Lacks 46 header × Lacks 46 payload × Lacks 46 signature
  pub decoded : d.raw_url payload ≡ ok json
  pub unmarshalled : d.unmarshal json ≡ ok claims

module _ (d : Decoders) (token : Bytes) (claims : Claims) where
  parse-ok : parse d token ≡ ok claims → Carries d token claims
  unfolding parse join
  parse-ok h =
      let (payload, hp, h1) = >>=-passed (payload_segment (split 46 token)) _ h in
      let (json, hj, hc) =
        >>=-passed (map_err TokenError.payload_base64 (d.raw_url payload)) _ h1 in
      let (header, signature, parts) = payload_segment-ok (split 46 token) hp in
      let (joined, lacks, some_word) = split_lem 46 token in
      let dotless : All (Lacks 46) (header ∷ payload ∷ signature ∷ []) = rw parts at lacks in
      let whole : join 46 (header ∷ payload ∷ signature ∷ []) ≡ token = rw parts at joined in
      record {
        header = header;
        payload = payload;
        signature = signature;
        json = json;
        joined = sym whole;
        dotless = (dotless.0, dotless.1.0, dotless.1.1.0);
        decoded = map_err-ok TokenError.payload_base64 (d.raw_url payload) hj;
        unmarshalled = map_err-ok TokenError.payload_json (d.unmarshal json) hc;
      }

  parse-Carries : Carries d token claims → parse d token ≡ ok claims
  unfolding parse payload_segment
  parse-Carries t =
      let (lh, lp, ls) = t.dotless in
      let parts : split 46 (t.header ++ (46 ∷ (t.payload ++ (46 ∷ t.signature))))
          ≡ t.header ∷ t.payload ∷ t.signature ∷ [] =
        rw
          (
            split-append 46 t.header (t.payload ++ (46 ∷ t.signature)) lh,
            split-append 46 t.payload t.signature lp,
            split-word 46 t.signature ls,
          )
          refl in
      rw (t.joined, parse, parts, t.decoded, t.unmarshalled) refl

module _ (d : Decoders) (now : ℕ) (iss aud token : Bytes) (c : DecryptionClaims) where
  -- A token is taken, with the typed claims `c`, exactly when it is three texts without a dot, joined
  -- by dots, whose second is base64 of JSON claims in which issuer, audience, subject, run,
  -- company, key and algorithm are non-empty strings, the first two as expected, the expiry is a
  -- number that has not passed, and the format version is a number; `c` holds just these claims, the
  -- issue time or 0, and the hash or an empty one.
  pub parse_decryption_iff :
      (parse_decryption d now iss aud token ≡ ok c)
      ↔ ((claims : Claims) × Carries d token claims × IsValid now iss aud claims c)
  unfolding parse_decryption
  parse_decryption_iff = (
    λ h.
        let (claims, parsed, typed) = >>=-passed (parse d token) _ h in
        (claims, parse-ok d token claims parsed, typed_claims-ok now iss aud claims c typed),
    λ t.
        rw (parse_decryption, parse-Carries d token t.0 t.1)
          (typed_claims-IsValid now iss aud t.0 c t.2),
  )
