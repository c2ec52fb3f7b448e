-- ===== src/Prelude/Strings.antt =====
-- The functions of Go's package strings that the program calls, on ASCII text.
use Prim.Native.Nat.{ℕ, ◌+◌, ◌≤◌}
use mathlib.Core.Path.{◌≡◌, refl, sym, ap, ap₂, ◌∙◌}
use mathlib.Core.Logic.{◌≢◌, inl, inr}
use mathlib.Core.Bool.{Bool, false, ◌&&◌, ◌||◌}
use mathlib.Core.Option.{Option, none, some}
use mathlib.Core.List.{List, [], ◌∷◌, ◌++◌, map}
use native.Mathlib.Omega.{arith}
use backupy_agent.Prelude.Tests.{leb, ◌==◌, if◌then◌else◌, Bool-cases, ==_iff}
use backupy_agent.Prelude.Lists.{length, take, drop, All}
use backupy_agent.Prelude.Bytes.{Bytes, is_empty, ◌===◌}

unfoldable pub to_lower : Bytes → Bytes
to_lower b = map (λ c. if leb 65 c && leb c 90 then c + 32 else c) b

-- `strings.EqualFold`
unfoldable pub equal_fold : Bytes → Bytes → Bool
unfolding to_lower
equal_fold s t = to_lower s === to_lower t

-- `bytes.HasPrefix` and `strings.HasPrefix`
unfoldable pub has_prefix : Bytes → Bytes → Bool
has_prefix b p = take (length p) b === p

-- `strings.TrimPrefix`
unfoldable pub trim_prefix : Bytes → Bytes → Bytes
trim_prefix b p = if has_prefix b p then drop (length p) b else b

abbrev pub is_space : ℕ → Bool
is_space c = c == 32 || (leb 9 c && leb c 13)

unfoldable pub trim_left_space : Bytes → Bytes
trim_left_space [] = []
trim_left_space (c ∷ cs) = let rest = trim_left_space cs in if is_space c then rest else c ∷ cs

unfoldable pub trim_right_space : Bytes → Bytes
trim_right_space [] = []
trim_right_space (c ∷ cs) =
    let r = trim_right_space cs in if is_space c && is_empty r then [] else c ∷ r

-- `strings.TrimSpace`
unfoldable pub trim_space : Bytes → Bytes
trim_space s = trim_right_space (trim_left_space s)

unfoldable pub contains_byte : ℕ → Bytes → Bool
contains_byte c [] = false
contains_byte c (x ∷ xs) = x == c || contains_byte c xs

-- With `i` the answer of `strings.IndexByte(s, c)`: `s[:i]` and `s[i+1:]`; `none` is -1.
unfoldable pub cut_at : ℕ → Bytes → Option (Bytes × Bytes)
cut_at c [] = none
cut_at c (x ∷ xs) =
    if x == c
    then some ([], xs)
    else elim (cut_at c xs) [ none ↦ none | some (a, b) ↦ some (x ∷ a, b) ]

unfoldable pub onto_head : ℕ → List Bytes → List Bytes
onto_head x [] = (x ∷ []) ∷ []
onto_head x (w ∷ ws) = (x ∷ w) ∷ ws

-- `strings.Split(s, c)`
unfoldable pub split : ℕ → Bytes → List Bytes
unfolding onto_head
split c [] = [] ∷ []
split c (x ∷ xs) = let ws = split c xs in if x == c then [] ∷ ws else onto_head x ws

-- The pieces between the bytes that a test names, empty ones among them.
unfoldable pub split_by : (ℕ → Bool) → Bytes → List Bytes
unfolding onto_head
split_by sep [] = [] ∷ []
split_by sep (x ∷ xs) = let ws = split_by sep xs in if sep x then [] ∷ ws else onto_head x ws

unfoldable pub drop_empty : List Bytes → List Bytes
drop_empty [] = []
drop_empty (w ∷ ws) = let rest = drop_empty ws in if is_empty w then rest else w ∷ rest

-- `strings.FieldsFunc` and `strings.Fields`
unfoldable pub fields_func : (ℕ → Bool) → Bytes → List Bytes
unfolding split_by drop_empty
fields_func sep s = drop_empty (split_by sep s)

unfoldable pub fields : Bytes → List Bytes
unfolding fields_func
fields s = fields_func is_space s

-- `strings.Contains`
unfoldable pub contains : Bytes → Bytes → Bool
unfolding has_prefix
contains [] sub = is_empty sub
contains (x ∷ xs) sub = has_prefix (x ∷ xs) sub || contains xs sub

-- With `i` the index of `sub` in `s`: `s[i+len(sub):]`.
unfoldable pub after : Bytes → Bytes → Option Bytes
unfolding has_prefix
after [] sub = if is_empty sub then some [] else none
after (x ∷ xs) sub =
    let rest = after xs sub in
    if has_prefix (x ∷ xs) sub then some (drop (length sub) (x ∷ xs)) else rest

-- The same with the index of `sub` in the lower case of `s`.
unfoldable pub after_folded : Bytes → Bytes → Option Bytes
unfolding has_prefix to_lower
after_folded [] sub = if is_empty sub then some [] else none
after_folded (x ∷ xs) sub =
    let rest = after_folded xs sub in
    if has_prefix (to_lower (x ∷ xs)) sub then some (drop (length sub) (x ∷ xs)) else rest

-- `strings.Join(ws, c)`
unfoldable pub join : ℕ → List Bytes → Bytes
join c [] = []
join c (w ∷ []) = w
join c (w ∷ v ∷ vs) = w ++ (c ∷ join c (v ∷ vs))

abbrev pub Lacks : ℕ → Bytes → Type 0
Lacks c s = All (λ x. x ≢ c) s

pub ==_ne : (a b : ℕ) → a ≢ b → (a == b) ≡ false
==_ne a b h = ground arith

pub split-word : (c : ℕ) (w : Bytes) → Lacks c w → split c w ≡ w ∷ []
unfolding split
split-word c [] h = refl
split-word c (x ∷ xs) h = rw (==_ne x c h.0, split-word c xs h.1) refl

pub split-append :
    (c : ℕ) (w rest : Bytes) → Lacks c w → split c (w ++ (c ∷ rest)) ≡ w ∷ split c rest
unfolding split
split-append c [] rest h = rw ((==_iff c c).1 refl) refl
split-append c (x ∷ xs) rest h = rw (==_ne x c h.0, split-append c xs rest h.1) refl

pub length-onto_head :
    (x : ℕ) (ws : List Bytes) → 1 ≤ length ws → length (onto_head x ws) ≡ length ws
unfolding onto_head
length-onto_head x [] h = absurd (omega arith)
length-onto_head x (w ∷ ws) h = refl

join-onto_head :
    (c x : ℕ) (ws : List Bytes) → 1 ≤ length ws → join c (onto_head x ws) ≡ x ∷ join c ws
unfolding join onto_head
join-onto_head c x [] h = absurd (omega arith)
join-onto_head c x (w ∷ []) h = refl
join-onto_head c x (w ∷ v ∷ vs) h = refl

onto_head-Lacks :
    (c x : ℕ) (ws : List Bytes) → x ≢ c → All (Lacks c) ws → All (Lacks c) (onto_head x ws)
unfolding onto_head
onto_head-Lacks c x [] off h = ((off, tt), tt)
onto_head-Lacks c x (w ∷ ws) off h = ((off, h.0), h.1)

join_nil : (c : ℕ) (ws : List Bytes) → 1 ≤ length ws → join c ([] ∷ ws) ≡ c ∷ join c ws
unfolding join
join_nil c [] h = absurd (omega arith)
join_nil c (w ∷ ws) h = refl

-- Splitting cuts a text at every separator and at nothing else.
pub split_lem :
    (c : ℕ) (s : Bytes)
    → (join c (split c s) ≡ s) × All (Lacks c) (split c s) × (1 ≤ length (split c s))
unfolding split join
split_lem c [] = (refl, (tt, tt), omega arith)
split_lem c (x ∷ xs) =
    let (joined, lacks, some_word) = split_lem c xs in
    elim (Bool-cases (x == c)) [
      | inl at ↦ rw at (
        join_nil c (split c xs) some_word ∙ ap₂ (λ a l. a ∷ l) (sym ((==_iff x c).0 at)) joined,
        (tt, lacks),
        omega arith,
      )
      | inr off ↦ rw off (
        join-onto_head c x (split c xs) some_word ∙ ap (λ l. x ∷ l) joined,
        onto_head-Lacks c x (split c xs) (λ e. ground (arith, ==_iff x c)) lacks,
        omega (arith, length-onto_head x (split c xs) some_word),
      )
    ]
