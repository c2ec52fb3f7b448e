-- ===== src/Discovery/Env/Hiding.antt =====
-- What `filterEnv` of apps/agent/internal/discovery/docker.go keeps of an environment.
use backupy_agent.Prelude.{
  ℕ, ◌≡◌, ◌≢◌, refl, sym, ◌∙◌, ap, Bool, true, false, not, ◌&&◌, ◌||◌, Bool-cases, Option-cases,
  inl, inr, Option, none, some, List, [], ◌∷◌, ◌++◌, map, ◌==◌, if◌then◌else◌, arith,
}
use backupy_agent.Prelude.Bytes.{Bytes, codes, is_empty, ◌===◌, ===_iff}
use backupy_agent.Prelude.Strings.{has_prefix, cut_at, contains_byte, Lacks}
use backupy_agent.Prelude.Maps.{find_key, assign, find_key-assign}
use backupy_agent.Discovery.Env.{
  env_hint_allow_set, member, env_key, add_hint, add_hints, filter_env,
}

-- Some entry begins with the name and an equals sign.
unfoldable pub mentions : Bytes → List Bytes → Bool
mentions k [] = false
mentions k (e ∷ es) = has_prefix e (k ++ codes "=") || mentions k es

before_is : Bytes → Option (Bytes × Bytes) → Bool
before_is k none = false
before_is k (some (a, b)) = a === k

before_is-cut_at :
    (k e : Bytes) → Lacks 61 k → before_is k (cut_at 61 e) ≡ has_prefix e (k ++ codes "=")
unfolding before_is cut_at has_prefix ◌===◌
before_is-cut_at [] [] lacks = refl
before_is-cut_at [] (x ∷ xs) lacks = ground arith
before_is-cut_at (y ∷ ys) [] lacks = refl
before_is-cut_at (y ∷ ys) (x ∷ xs) lacks =
    let ih = before_is-cut_at ys xs lacks.1 in
    elim (Bool-cases (x == 61)) [
      | inl sign ↦ ground arith
      | inr other ↦ elim (Option-cases (cut_at 61 xs)) [
        | inl whole ↦ ground arith
        | inr ((a, b), cut) ↦ ground arith
      ]
    ]

key_is : Bytes → Option Bytes → Bool
key_is k none = false
key_is k (some j) = j === k

key_is_filled : (k a : Bytes) → k ≢ [] → key_is k (if is_empty a then none else some a) ≡ (a === k)
unfolding key_is ◌===◌
key_is_filled [] [] filled = absurd (filled refl)
key_is_filled (y ∷ ys) [] filled = refl
key_is_filled k (x ∷ xs) filled = refl

key_is-env_key :
    (k e : Bytes) → Lacks 61 k → k ≢ [] → key_is k (env_key e) ≡ has_prefix e (k ++ codes "=")
unfolding key_is env_key before_is
key_is-env_key k e lacks filled =
    let cut_is = before_is-cut_at k e lacks in
    elim (Option-cases (cut_at 61 e)) [
      | inl whole ↦ ground arith
      | inr ((a, b), cut) ↦
          let same : before_is k (cut_at 61 e) ≡ (a === k) = ground arith in
          let it : env_key e ≡ (if is_empty a then none else some a) = rw (env_key, cut) refl in
          ap (key_is k) it ∙ key_is_filled k a filled ∙ sym same ∙ cut_is
    ]

-- A name that can be set, as all hint keys are.
abbrev IsName : Bytes → Type 0
IsName k = Lacks 61 k × (k ≢ [])

-- One entry, at a key that is asked for.
find_key-add_hint :
    (k e : Bytes) (hints : List (Bytes × Bytes))
    → IsName k
    → find_key k (add_hint e hints) ≡ (
        if member k env_hint_allow_set && has_prefix e (k ++ codes "=")
        then some (codes "set")
        else find_key k hints)
unfolding add_hint key_is
find_key-add_hint k e hints (lacks, filled) =
    let named = key_is-env_key k e lacks filled in
    elim (Option-cases (env_key e)) [
      | inl no_key ↦ ground arith
      | inr (j, key) ↦ ground (arith, ===_iff j k, find_key-assign k j (codes "set") hints)
    ]

is_name : Bytes → Bool
is_name k = not (is_empty k) && not (contains_byte 61 k)

contains_byte-Lacks : (c : ℕ) (s : Bytes) → contains_byte c s ≡ false → Lacks c s
unfolding contains_byte
contains_byte-Lacks c [] h = tt
contains_byte-Lacks c (x ∷ xs) h = (λ e. ground arith, contains_byte-Lacks c xs (ground arith))

is_name-IsName : (k : Bytes) → is_name k ≡ true → IsName k
unfolding is_name
is_name-IsName [] h = absurd (ground arith)
is_name-IsName (x ∷ xs) h = (contains_byte-Lacks 61 (x ∷ xs) (ground arith), λ e. ground arith)

all_names : List Bytes → Bool
all_names [] = true
all_names (k ∷ ks) = is_name k && all_names ks

member-is_name :
    (k : Bytes) (ks : List Bytes) → all_names ks ≡ true → member k ks ≡ true → is_name k ≡ true
unfolding member all_names
member-is_name k [] good h = absurd (ground arith)
member-is_name k (x ∷ xs) good h = ground (arith, ===_iff x k, member-is_name k xs)

hint_keys_named : all_names env_hint_allow_set ≡ true
unfolding all_names is_name contains_byte env_hint_allow_set
hint_keys_named = refl

-- A name outside the hints is never added.
find_key-add_hint_other :
    (k e : Bytes) (hints : List (Bytes × Bytes))
    → member k env_hint_allow_set ≡ false
    → find_key k (add_hint e hints) ≡ find_key k hints
unfolding add_hint
find_key-add_hint_other k e hints out = elim (Option-cases (env_key e)) [
  | inl no_key ↦ ground arith
  | inr (j, key) ↦ elim (Bool-cases (j === k)) [
    | inl same ↦ let e : j ≡ k = (===_iff j k).0 same in ground arith
    | inr apart ↦ ground (arith, find_key-assign k j (codes "set") hints)
  ]
]

find_key-add_hints :
    (k : Bytes) (env : List Bytes) (hints : List (Bytes × Bytes))
    → find_key k (add_hints env hints) ≡ (
        if member k env_hint_allow_set && mentions k env
        then some (codes "set")
        else find_key k hints)
unfolding add_hints mentions
find_key-add_hints k [] hints = ground arith
find_key-add_hints k (e ∷ es) hints =
    let ih = find_key-add_hints k es (add_hint e hints) in
    elim (Bool-cases (member k env_hint_allow_set)) [
      | inr out ↦ let other = find_key-add_hint_other k e hints out in ground arith
      | inl hint ↦
          let name = is_name-IsName k (member-is_name k env_hint_allow_set hint_keys_named hint) in
          let one = find_key-add_hint k e hints name in ground arith
    ]

-- The hints of an environment, whatever values it holds: a name is in them exactly when it is one of
-- the hint keys and some entry sets it, and then with the text "set".
pub find_key-filter_env :
    (k : Bytes) (env : List Bytes)
    → find_key k (filter_env env)
      ≡ (if member k env_hint_allow_set && mentions k env then some (codes "set") else none)
unfolding filter_env find_key
find_key-filter_env k env = find_key-add_hints k env []

-- Only the names are looked at.
add_keys : List (Option Bytes) → List (Bytes × Bytes) → List (Bytes × Bytes)
add_keys [] hints = hints
add_keys (none ∷ ks) hints = add_keys ks hints
add_keys (some k ∷ ks) hints =
    add_keys ks (if member k env_hint_allow_set then assign k (codes "set") hints else hints)

add_hints-add_keys :
    (env : List Bytes) (hints : List (Bytes × Bytes))
    → add_hints env hints ≡ add_keys (map env_key env) hints
unfolding add_hints add_hint add_keys
add_hints-add_keys [] hints = refl
add_hints-add_keys (e ∷ es) hints = elim (Option-cases (env_key e)) [
  | inl no_key ↦ ground (arith, add_hints-add_keys es hints)
  | inr (k, key) ↦
      let hints' : List (Bytes × Bytes) =
        if member k env_hint_allow_set then assign k (codes "set") hints else hints in
      let ih = add_hints-add_keys es hints' in
      let step : add_hint e hints ≡ hints' = rw (add_hint, key) refl in rw (step, key) ih
]

pub hints_of_names : List (Option Bytes) → List (Bytes × Bytes)
unfolding add_keys
hints_of_names ks = add_keys ks []

pub filter_env-hints_of_names :
    (env : List Bytes) → filter_env env ≡ hints_of_names (map env_key env)
unfolding filter_env hints_of_names
filter_env-hints_of_names env = add_hints-add_keys env []
