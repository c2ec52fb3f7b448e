-- ===== src/Decrypt/Token/Valid.antt =====
-- Which tokens `ParseDecryption` of apps/backupy-decrypt/internal/jwt/jwt.go takes.
use backupy_agent.Prelude.{
  ℕ, ◌*◌, ◌^◌, ◌≤◌, ◌≡◌, ◌≢◌, refl, sym, ap, ◌∙◌, Option, none, some, [], ◌∷◌, ok, ◌>>=◌, arith,
  >>=-passed, ok-injective, subst,
}
use backupy_agent.Prelude.Bytes.{Bytes, codes, ===_iff}
use backupy_agent.Prelude.Int.{ℤ, pos, negsuc}
use backupy_agent.Prelude.Maps.{find_key}
use backupy_agent.Decrypt.Token.{
  Json, string, float64, int64, int, number, other, Claims, DecryptionClaims, get_str, string_of,
  to_unix, get_number, number_or_zero, string_or_empty, is_after, check_issuer, check_audience,
  check_expiry, typed_claims,
}

-- A claim that is a non-empty string.
pub record Text (claims : Claims) (k s : Bytes) : Type 0 where
  pub found : find_key k claims ≡ some (string s)
  pub filled : s ≢ []

-- A time that has not passed.
abbrev pub InTime : ℕ → ℤ → Type 0
InTime now (pos seconds) = now ≤ seconds * 10 ^ 9
InTime now (negsuc n) = ⊥

string_of-some :
    (k : Bytes) (v : Option Json) (s : Bytes)
    → string_of k v ≡ ok s
    → (v ≡ some (string s)) × (s ≢ [])
unfolding string_of
string_of-some k none s h = absurd (ground arith)
string_of-some k (some (string [])) s h = absurd (ground arith)
string_of-some k (some (string (b ∷ bs))) s h = (ground arith, λ empty. ground arith)
string_of-some k (some (float64 n)) s h = absurd (ground arith)
string_of-some k (some (int64 n)) s h = absurd (ground arith)
string_of-some k (some (int n)) s h = absurd (ground arith)
string_of-some k (some (number n)) s h = absurd (ground arith)
string_of-some k (some other) s h = absurd (ground arith)

string_of-string : (k s : Bytes) → s ≢ [] → string_of k (some (string s)) ≡ ok s
unfolding string_of
string_of-string k [] h = absurd (h refl)
string_of-string k (b ∷ bs) h = refl

module _ (claims : Claims) (k : Bytes) where
  get_str-ok : {s : Bytes} → get_str claims k ≡ ok s → Text claims k s
  unfolding get_str
  get_str-ok {s} h =
      let (found, filled) = string_of-some k (find_key k claims) s h in
      record { found = found; filled = filled }

  get_str-Text : {s : Bytes} → Text claims k s → get_str claims k ≡ ok s
  unfolding get_str
  get_str-Text {s} t = rw t.found (string_of-string k s t.filled)

  get_number-ok : {n : ℤ} → get_number claims k ≡ ok n → to_unix (find_key k claims) ≡ some n
  unfolding get_number
  get_number-ok h = ground arith

  get_number-some : {n : ℤ} → to_unix (find_key k claims) ≡ some n → get_number claims k ≡ ok n
  unfolding get_number
  get_number-some h = ground arith

check_issuer-ok :
    (want got : Bytes) {s : Bytes} → check_issuer want got ≡ ok s → (got ≡ want) × (s ≡ got)
unfolding check_issuer
check_issuer-ok want got h = ground (arith, ===_iff got want)

check_audience-ok :
    (want got : Bytes) {s : Bytes} → check_audience want got ≡ ok s → (got ≡ want) × (s ≡ got)
unfolding check_audience
check_audience-ok want got h = ground (arith, ===_iff got want)

check_expiry-ok :
    (now : ℕ) (exp : ℤ) {e : ℤ} → check_expiry now exp ≡ ok e → InTime now exp × (e ≡ exp)
unfolding check_expiry is_after
check_expiry-ok now (pos seconds) h = ground arith
check_expiry-ok now (negsuc n) h = absurd (ground arith)

check_expiry-InTime : (now : ℕ) (exp : ℤ) → InTime now exp → check_expiry now exp ≡ ok exp
unfolding check_expiry is_after
check_expiry-InTime now (pos seconds) h = ground arith
check_expiry-InTime now (negsuc n) h = absurd h

module _ (now : ℕ) (iss aud : Bytes) (claims : Claims) where
  -- The claims that make a token one for this tool, and how the typed view reads them.
  pub record IsValid (c : DecryptionClaims) : Type 0 where
    pub issuer : Text claims (codes "iss") c.issuer
    pub for_issuer : c.issuer ≡ iss
    pub audience : Text claims (codes "aud") c.audience
    pub for_audience : c.audience ≡ aud
    pub expiry : to_unix (find_key (codes "exp") claims) ≡ some c.expires_at
    pub in_time : InTime now c.expires_at
    pub subject : Text claims (codes "sub") c.subject
    pub run_id : Text claims (codes "run_id") c.run_id
    pub company_id : Text claims (codes "company_id") c.company_id
    pub dek : Text claims (codes "dek") c.dek_base64
    pub algorithm : Text claims (codes "alg") c.algorithm
    pub version : to_unix (find_key (codes "format_version") claims) ≡ some c.format_version
    pub issued : c.issued_at ≡ number_or_zero (to_unix (find_key (codes "iat") claims))
    pub hash : c.sha256 ≡ string_or_empty (find_key (codes "sha256") claims)

  pub typed_claims-ok : (c : DecryptionClaims) → typed_claims now iss aud claims ≡ ok c → IsValid c
  unfolding typed_claims
  typed_claims-ok c h0 =
      let (i, hi, h1) = >>=-passed (get_str claims (codes "iss") >>= check_issuer iss) _ h0 in
      let (i', hi', ci) = >>=-passed (get_str claims (codes "iss")) _ hi in
      let (a, ha, h2) = >>=-passed (get_str claims (codes "aud") >>= check_audience aud) _ h1 in
      let (a', ha', ca) = >>=-passed (get_str claims (codes "aud")) _ ha in
      let (e, he, h3) = >>=-passed (get_number claims (codes "exp") >>= check_expiry now) _ h2 in
      let (e', he', ce) = >>=-passed (get_number claims (codes "exp")) _ he in
      let (s, hs, h4) = >>=-passed (get_str claims (codes "sub")) _ h3 in
      let (r, hr, h5) = >>=-passed (get_str claims (codes "run_id")) _ h4 in
      let (o, ho, h6) = >>=-passed (get_str claims (codes "company_id")) _ h5 in
      let (d, hd, h7) = >>=-passed (get_str claims (codes "dek")) _ h6 in
      let (g, hg, h8) = >>=-passed (get_str claims (codes "alg")) _ h7 in
      let (v, hv, h9) = >>=-passed (get_number claims (codes "format_version")) _ h8 in
      let (i_is, i_eq) = check_issuer-ok iss i' ci in
      let (a_is, a_eq) = check_audience-ok aud a' ca in
      let (in_time, e_eq) = check_expiry-ok now e' ce in
      let good : DecryptionClaims = record {
        issuer = i;
        subject = s;
        audience = a;
        issued_at = number_or_zero (to_unix (find_key (codes "iat") claims));
        expires_at = e;
        run_id = r;
        company_id = o;
        dek_base64 = d;
        algorithm = g;
        format_version = v;
        sha256 = string_or_empty (find_key (codes "sha256") claims);
      } in
      let same : good ≡ c = ok-injective refl refl h9 in
      subst IsValid same (record {
        issuer = get_str-ok claims (codes "iss") (hi' ∙ ap ok (sym i_eq));
        for_issuer = i_eq ∙ i_is;
        audience = get_str-ok claims (codes "aud") (ha' ∙ ap ok (sym a_eq));
        for_audience = a_eq ∙ a_is;
        expiry = get_number-ok claims (codes "exp") (he' ∙ ap ok (sym e_eq));
        in_time = subst (InTime now) (sym e_eq) in_time;
        subject = get_str-ok claims (codes "sub") hs;
        run_id = get_str-ok claims (codes "run_id") hr;
        company_id = get_str-ok claims (codes "company_id") ho;
        dek = get_str-ok claims (codes "dek") hd;
        algorithm = get_str-ok claims (codes "alg") hg;
        version = get_number-ok claims (codes "format_version") hv;
        issued = refl;
        hash = refl;
      })

  issuer_passes :
      (c : DecryptionClaims)
      → IsValid c
      → (get_str claims (codes "iss") >>= check_issuer iss) ≡ ok c.issuer
  unfolding check_issuer
  issuer_passes c v =
      let same = (===_iff c.issuer iss).1 v.for_issuer in
      rw (get_str-Text claims (codes "iss") v.issuer, same) refl

  audience_passes :
      (c : DecryptionClaims)
      → IsValid c
      → (get_str claims (codes "aud") >>= check_audience aud) ≡ ok c.audience
  unfolding check_audience
  audience_passes c v =
      let same = (===_iff c.audience aud).1 v.for_audience in
      rw (get_str-Text claims (codes "aud") v.audience, same) refl

  expiry_passes :
      (c : DecryptionClaims)
      → IsValid c
      → (get_number claims (codes "exp") >>= check_expiry now) ≡ ok c.expires_at
  expiry_passes c v =
      rw (get_number-some claims (codes "exp") v.expiry)
        (check_expiry-InTime now c.expires_at v.in_time)

  pub typed_claims-IsValid :
      (c : DecryptionClaims) → IsValid c → typed_claims now iss aud claims ≡ ok c
  unfolding typed_claims
  typed_claims-IsValid c v =
      let issued = sym v.issued in
      let hash = sym v.hash in
      rw
        (
          typed_claims,
          issuer_passes c v,
          audience_passes c v,
          expiry_passes c v,
          get_str-Text claims (codes "sub") v.subject,
          get_str-Text claims (codes "run_id") v.run_id,
          get_str-Text claims (codes "company_id") v.company_id,
          get_str-Text claims (codes "dek") v.dek,
          get_str-Text claims (codes "alg") v.algorithm,
          get_number-some claims (codes "format_version") v.version,
          issued,
          hash,
        )
        refl
