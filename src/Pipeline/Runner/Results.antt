-- ===== src/Pipeline/Runner/Results.antt =====
-- The results that the stages of a run send, as `Run` receives them.
use backupy_agent.Prelude.{
  ℕ, zero, suc, ◌≡◌, refl, ◌∙◌, ap, Option, none, some, List, [], ◌∷◌, length, drop, All, arith,
}
use backupy_agent.Pipeline.Request.{RunError}
use backupy_agent.Pipeline.Stages.{take_one, keep_first, head_or_zero, receive}

abbrev pub NoError : Option RunError → Type 0
NoError e = e ≡ none

length-take_one :
    {A : Type 0} (n : ℕ) (x : A) (xs : List A) → length (take_one n x xs).1 ≡ length xs
unfolding take_one
length-take_one zero x xs = refl
length-take_one (suc n) x [] = refl
length-take_one (suc n) x (y ∷ ys) = ap suc (length-take_one n y ys)

take_one_all :
    {A : Type 0} (P : A → Type 0) (n : ℕ) (x : A) (xs : List A)
    → P (take_one n x xs).0
    → All P (take_one n x xs).1
    → All P (x ∷ xs)
unfolding take_one
take_one_all P zero x xs p ps = (p, ps)
take_one_all P (suc n) x [] p ps = (p, ps)
take_one_all P (suc n) x (y ∷ ys) p ps = (ps.0, take_one_all P n y ys p ps.1)

keep_first-none : (a b : Option RunError) → keep_first a b ≡ none → NoError a × NoError b
unfolding keep_first
keep_first-none none b h = (refl, h)
keep_first-none (some x) b h = absurd (ground arith)

pub receive-none :
    (k : ℕ) (schedule : List ℕ) (pending : List (Option RunError)) (first : Option RunError)
    → length pending ≡ k
    → receive k schedule pending first ≡ none
    → NoError first × All NoError pending
unfolding receive
receive-none zero schedule [] first l h = (h, tt)
receive-none zero schedule (x ∷ xs) first l h = absurd (omega arith)
receive-none (suc k) schedule [] first l h = absurd (omega arith)
receive-none (suc k) schedule (x ∷ xs) first l h =
    let n = head_or_zero schedule in
    let rest =
      receive-none k (drop 1 schedule) (take_one n x xs).1 (keep_first first (take_one n x xs).0)
        (length-take_one n x xs ∙ omega arith) h in
    let both = keep_first-none first (take_one n x xs).0 rest.0 in
    (both.0, take_one_all NoError n x xs both.1 rest.1)
