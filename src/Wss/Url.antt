-- ===== src/Wss/Url.antt =====
-- `buildWSURL` of apps/agent/internal/wss/client.go, on a URL that net/url has parsed.
use backupy_agent.Prelude.{
  ◌-◌, ◌≡◌, ◌⊎◌, refl, sym, subst, Bool, true, false, ◌&&◌, Bool-cases, inl, inr, [], ◌∷◌, ◌++◌,
  length, drop, leb, ◌==◌, if◌then◌else◌, Result, ok, err, arith, length-append, drop-append,
  le→leb, Result-cases,
}
use backupy_agent.Prelude.Bytes.{Bytes, codes, is_empty, ◌===◌, ===_refl}

-- `url.URL`, of which the rest is kept.
pub record Url : Type 0 where
  pub scheme : Bytes
  pub path : Bytes
  pub rest : Bytes

pub data UrlError : Type 0 where
  parse_failed insecure : UrlError
  unsupported_scheme : Bytes → UrlError

abbrev pub endpoint : Bytes
endpoint = codes "/v1/agents/connect"

-- `strings.HasSuffix`
unfoldable pub has_suffix : Bytes → Bytes → Bool
has_suffix s e = leb (length e) (length s) && (drop (length s - length e) s === e)

-- `strings.TrimRight(s, "/")`
unfoldable pub trim_right_slash : Bytes → Bytes
trim_right_slash [] = []
trim_right_slash (c ∷ cs) =
    let r = trim_right_slash cs in if c == 47 && is_empty r then [] else c ∷ r

unfoldable pub ws_scheme : Bool → Bytes → Result UrlError Bytes
ws_scheme allow_insecure s =
    if s === codes "http"
    then if allow_insecure then ok (codes "ws") else err insecure
    else (if s === codes "https"
        then ok (codes "wss")
        else (if s === codes "ws"
            then ok (codes "ws")
            else (if s === codes "wss" then ok (codes "wss") else err (unsupported_scheme s))))

unfoldable pub mount : Bytes → Bytes
mount path = if has_suffix path endpoint then path else trim_right_slash path ++ endpoint

unfoldable pub build_ws_url : Bool → Result UrlError Url → Result UrlError Url
build_ws_url allow_insecure (err e) = err parse_failed
build_ws_url allow_insecure (ok u) = elim (ws_scheme allow_insecure u.scheme) [
  | err e ↦ err e
  | ok s ↦ ok (record u { scheme = s; path = mount u.path })
]

has_suffix-append : (s e : Bytes) → has_suffix (s ++ e) e ≡ true
unfolding has_suffix
has_suffix-append s e =
    let long : leb (length e) (length (s ++ e)) ≡ true =
      le→leb (length e) (length (s ++ e)) (omega (arith, length-append s e)) in
    let cut : drop (length (s ++ e) - length e) (s ++ e) ≡ e =
      drop-append s e (length (s ++ e) - length e) (omega (arith, length-append s e)) in
    rw (long, cut) (===_refl e)

has_suffix-mount : (path : Bytes) → has_suffix (mount path) endpoint ≡ true
unfolding mount
has_suffix-mount path = elim (Bool-cases (has_suffix path endpoint)) [
  | inl there ↦ rw (mount, there) there
  | inr missing ↦ rw (mount, missing) (has_suffix-append (trim_right_slash path) endpoint)
]

ws_scheme_lem :
    (allow : Bool) (s : Bytes) {t : Bytes}
    → ws_scheme allow s ≡ ok t
    → (t ≡ codes "ws") ⊎ (t ≡ codes "wss")
unfolding ws_scheme
ws_scheme_lem allow s h = ground arith

-- An address that is accepted is a websocket address that ends in the endpoint; without
-- `AllowInsecure` one with the scheme http is refused.
pub build_ws_url_lem :
    (allow : Bool) (u v : Url)
    → build_ws_url allow (ok u) ≡ ok v
    → ((v.scheme ≡ codes "ws") ⊎ (v.scheme ≡ codes "wss"))
      × (has_suffix v.path endpoint ≡ true)
      × (build_ws_url false (ok (record u { scheme = codes "http" })) ≡ err insecure)
unfolding build_ws_url ws_scheme ◌===◌
build_ws_url_lem allow u v h = elim (Result-cases (ws_scheme allow u.scheme)) [
  | inr (e, bad) ↦ absurd (ground arith)
  | inl (s, good) ↦
      let path : v.path ≡ mount u.path = ground arith in
      let scheme : v.scheme ≡ s = ground arith in
      (
        subst (λ (t : Bytes). (t ≡ codes "ws") ⊎ (t ≡ codes "wss")) (sym scheme)
            (ws_scheme_lem allow u.scheme good),
        subst (λ (p : Bytes). has_suffix p endpoint ≡ true) (sym path) (has_suffix-mount u.path),
        refused,
      )
]
  where
    refused : build_ws_url false (ok (record u { scheme = codes "http" })) ≡ err insecure
    refused = refl
