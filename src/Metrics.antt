-- ===== src/Metrics.antt =====
-- The connection gauge of apps/agent/internal/metrics/metrics.go. A gauge vector of Prometheus is a map
-- from labels to values, which keeps the labels that were set once.
use backupy_agent.Prelude.{
  ℕ, ◌≡◌, refl, sym, ◌∙◌, ap, Bool, true, false, ◌||◌, Bool-cases, inl, inr, Option, some, List, [],
  ◌∷◌, if◌then◌else◌, arith,
}
use backupy_agent.Prelude.Bytes.{Bytes, codes, ◌===◌, ===_iff, ===_refl}
use backupy_agent.Prelude.Maps.{find_key, assign, find_key-assign}
use backupy_agent.Discovery.Env.{member}

abbrev pub Gauge : Type 0
Gauge = List (Bytes × ℕ)

abbrev pub connected_state : Bytes
connected_state = codes "connected"

abbrev pub reconnecting_state : Bytes
reconnecting_state = codes "reconnecting"

abbrev pub disconnected_state : Bytes
disconnected_state = codes "disconnected"

-- The loop over the labels.
unfoldable pub set_each : List Bytes → Bytes → Gauge → Gauge
set_each [] state g = g
set_each (s ∷ ss) state g = set_each ss state (assign s (if s === state then 1 else 0) g)

abbrev pub known_states : List Bytes
known_states = connected_state ∷ reconnecting_state ∷ disconnected_state ∷ []

unfoldable pub is_known_state : Bytes → Bool
is_known_state state =
    state === connected_state || (state === reconnecting_state || state === disconnected_state)

-- `SetWSSState`
unfoldable pub set_wss_state : Bytes → Gauge → Gauge
unfolding set_each is_known_state
set_wss_state state g =
    let g' = set_each known_states state g in if is_known_state state then g' else assign state 1 g'

-- Calls in a row.
unfoldable pub set_wss_states : List Bytes → Gauge → Gauge
unfolding set_wss_state
set_wss_states [] g = g
set_wss_states (s ∷ ss) g = set_wss_states ss (set_wss_state s g)

unfoldable pub last_of : Bytes → List Bytes → Bytes
last_of s [] = s
last_of s (t ∷ ts) = last_of t ts

-- What a label shows behind calls with `s`, `ss`: a known one, whether it is the last state; another
-- one 1 where it was a state, and what it showed before otherwise.
unfoldable pub shown : Bytes → List Bytes → Bytes → Option ℕ → Option ℕ
unfolding last_of
shown s ss k old =
    if is_known_state k
    then some (if k === last_of s ss then 1 else 0)
    else (if member k (s ∷ ss) then some 1 else old)

find_key-set_each :
    (k s : Bytes) (ss : List Bytes) (g : Gauge)
    → find_key k (set_each ss s g)
      ≡ (if member k ss then some (if k === s then 1 else 0) else find_key k g)
unfolding set_each member
find_key-set_each k s [] g = refl
find_key-set_each k s (x ∷ xs) g =
    let v : ℕ = if x === s then 1 else 0 in
    let ih = find_key-set_each k s xs (assign x v g) in
    let here = find_key-assign k x v g in
    elim (Bool-cases (x === k)) [
      | inl e ↦
          let same : x ≡ k = (===_iff x k).0 e in rw (ih, here, same, ===_refl k) (ground arith)
      | inr e ↦ rw (ih, here) (ground (arith, ===_iff k x, ===_iff x k))
    ]

===_comm : (a b : Bytes) → (a === b) ≡ (b === a)
===_comm a b = ground (arith, ===_iff a b, ===_iff b a)

is_known_state-member : (k : Bytes) → is_known_state k ≡ member k known_states
unfolding is_known_state member
is_known_state-member k = ground (
  arith,
  ===_comm k connected_state,
  ===_comm k reconnecting_state,
  ===_comm k disconnected_state,
)

find_key-set_wss_state :
    (k s : Bytes) (g : Gauge) → find_key k (set_wss_state s g) ≡ shown s [] k (find_key k g)
unfolding set_wss_state shown last_of member
find_key-set_wss_state k s g =
    let each = find_key-set_each k s known_states g in
    let put = find_key-assign k s 1 (set_each known_states s g) in
    let known = is_known_state-member k in
    elim (Bool-cases (is_known_state s)) [
      | inl e ↦ elim (Bool-cases (s === k)) [
        | inl e2 ↦
            let same : s ≡ k = (===_iff s k).0 e2 in
            let e3 : is_known_state k ≡ true = ap is_known_state (sym same) ∙ e in
            rw (set_wss_state, e, each, sym known, shown, e3) refl
        | inr e2 ↦ rw (set_wss_state, e, each, sym known, shown, last_of, member, e2, member) refl
      ]
      | inr e ↦ elim (Bool-cases (s === k)) [
        | inl e2 ↦
            let same : s ≡ k = (===_iff s k).0 e2 in
            let e3 : is_known_state k ≡ false = ap is_known_state (sym same) ∙ e in
            rw (set_wss_state, e, put, e2, shown, e3, member) refl
        | inr e2 ↦ rw (set_wss_state, e, put, e2, each, sym known, shown, last_of, member) refl
      ]
    ]

shown-shown :
    (s t : Bytes) (ts : List Bytes) (k : Bytes) (old : Option ℕ)
    → shown t ts k (shown s [] k old) ≡ shown s (t ∷ ts) k old
unfolding shown last_of member
shown-shown s t ts k old = ground arith

-- Behind any calls of SetWSSState, one at least, each of the three labels shows 1 if it is the last
-- state and 0 otherwise, whatever the gauge held; any other label shows 1 for ever once it was a
-- state, and what it held otherwise.
pub set_wss_states-shown :
    (s : Bytes) (ss : List Bytes) (g : Gauge) (k : Bytes)
    → find_key k (set_wss_states (s ∷ ss) g) ≡ shown s ss k (find_key k g)
unfolding set_wss_states
set_wss_states-shown s [] g k = find_key-set_wss_state k s g
set_wss_states-shown s (t ∷ ts) g k =
    set_wss_states-shown t ts (set_wss_state s g) k
    ∙ ap (shown t ts k) (find_key-set_wss_state k s g)
    ∙ shown-shown s t ts k (find_key k g)
