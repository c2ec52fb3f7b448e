-- ===== src/Config/Connecting.antt =====
-- A configuration that `Load` of apps/agent/internal/config/config.go gives, against `buildWSURL` of
-- apps/agent/internal/wss/client.go.
use backupy_agent.Prelude.{
  ◌≡◌, ◌⊎◌, refl, ◌∙◌, ap, ap₂, subst, Bool, true, Bool-cases, inl, inr, Result, ok, map_err,
  Result-cases, arith, >>=-passed, ok-injective,
}
use backupy_agent.Prelude.Bytes.{Bytes, codes, ◌===◌, ===_iff}
use backupy_agent.Wss.Url.{
  Url, UrlError, parse_failed, endpoint, has_suffix, mount, ws_scheme, build_ws_url,
  build_ws_url_lem,
}
use backupy_agent.Config.{
  Settings, ConfigError, Surroundings, check_scheme, validate_server_url, validate, load,
  matches_agent_key, check_agent_key,
}

-- What net/url gives `buildWSURL` of the same text.
abbrev pub parsed : Surroundings → Bytes → Result UrlError Url
parsed w raw = map_err (λ e. parse_failed) (w.url_parse raw)

ws_scheme-https : (allow : Bool) → ws_scheme allow (codes "https") ≡ ok (codes "wss")
unfolding ws_scheme ◌===◌
ws_scheme-https allow = refl

ws_scheme-http : ws_scheme true (codes "http") ≡ ok (codes "ws")
unfolding ws_scheme ◌===◌
ws_scheme-http = refl

-- A websocket scheme; without the flag for development, the one over TLS.
abbrev pub IsSocket : Bool → Bytes → Type 0
IsSocket allow t = ((allow ≡ true) × (t ≡ codes "ws")) ⊎ (t ≡ codes "wss")

check_scheme-ws_scheme :
    (allow : Bool) (s : Bytes)
    → check_scheme allow s ≡ ok tt
    → (t : Bytes) × (ws_scheme allow s ≡ ok t) × IsSocket allow t
unfolding check_scheme
check_scheme-ws_scheme allow s h = elim (Bool-cases (s === codes "https")) [
  | inl tls ↦ (
    codes "wss",
    ap (ws_scheme allow) ((===_iff s (codes "https")).0 tls) ∙ ws_scheme-https allow,
    inr refl,
  )
  | inr other ↦
      let plain : s ≡ codes "http" = (===_iff s (codes "http")).0 (ground arith) in
      let dev : allow ≡ true = ground arith in
      (codes "ws", ap₂ ws_scheme dev plain ∙ ws_scheme-http, inl (dev, refl))
]

build_ws_url-scheme :
    (allow : Bool) (u : Url) (t : Bytes)
    → ws_scheme allow u.scheme ≡ ok t
    → build_ws_url allow (ok u) ≡ ok (record u { scheme = t; path = mount u.path })
unfolding build_ws_url
build_ws_url-scheme allow u t h = ground arith

validated_scheme :
    (w : Surroundings) (raw : Bytes) (allow : Bool)
    → validate_server_url w raw allow ≡ ok tt
    → (u : Url) × (w.url_parse raw ≡ ok u) × (check_scheme allow u.scheme ≡ ok tt)
unfolding validate_server_url
validated_scheme w raw allow h = elim (Result-cases (w.url_parse raw)) [
  | inr (e, bad) ↦ absurd (ground arith)
  | inl (u, good) ↦ (u, good, ground arith)
]

loaded :
    (w : Surroundings) (c : Settings)
    → load w ≡ ok c
    → (validate_server_url w c.server_url c.dev_allow_insecure ≡ ok tt)
      × (matches_agent_key c.agent_key ≡ true)
unfolding load validate check_agent_key
loaded w c h =
    let (c', read, h1) = >>=-passed (map_err ConfigError.parse_env w.parse_environment) _ h in
    let (u, valid, h2) = >>=-passed (validate w c') _ h1 in
    let same : c' ≡ c = ok-injective refl refl h2 in
    let (u1, url, h3) =
      >>=-passed (validate_server_url w c'.server_url c'.dev_allow_insecure) _ valid in
    let (u2, key, h4) = >>=-passed (check_agent_key c'.agent_key) _ h3 in
    let matched : matches_agent_key c'.agent_key ≡ true = ground arith in
    subst
      (λ (d : Settings).
        (validate_server_url w d.server_url d.dev_allow_insecure ≡ ok tt)
        × (matches_agent_key d.agent_key ≡ true))
      same (url, matched)

-- A configuration that `Load` gives can be dialled: its key has the format of an agent key, and its
-- server address becomes an address of the endpoint, over TLS unless the flag for development is set.
pub build_ws_url-load :
    (w : Surroundings) (c : Settings)
    → load w ≡ ok c
    → (matches_agent_key c.agent_key ≡ true)
      × ((v : Url) × (build_ws_url c.dev_allow_insecure (parsed w c.server_url) ≡ ok v)
          × IsSocket c.dev_allow_insecure v.scheme
          × (has_suffix v.path endpoint ≡ true))
build_ws_url-load w c h =
    let (valid, key) = loaded w c h in
    let (u, read, fine) = validated_scheme w c.server_url c.dev_allow_insecure valid in
    let (t, scheme, socket) = check_scheme-ws_scheme c.dev_allow_insecure u.scheme fine in
    let built = build_ws_url-scheme c.dev_allow_insecure u t scheme in
    let given : parsed w c.server_url ≡ ok u = ap (map_err (λ e. parse_failed)) read in
    let whole = ap (build_ws_url c.dev_allow_insecure) given ∙ built in
    let (s, suffix, refused) =
      build_ws_url_lem c.dev_allow_insecure u (record u { scheme = t; path = mount u.path })
        built in
    (key, (record u { scheme = t; path = mount u.path }, whole, socket, suffix))
