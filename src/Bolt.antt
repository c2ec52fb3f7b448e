-- ===== src/Bolt.antt =====
-- go.etcd.io/bbolt, which the program calls and does not implement: a database type with the
-- operations that a transaction makes, and the documented behaviour of a bucket, a map in the
-- byte order of its keys.
use backupy_agent.Prelude.{
  ℕ, ◌+◌, ◌^◌, ◌<◌, ◌≤◌, ◌≡◌, ◌≢◌, refl, subst, Bool, true, false, ◌&&◌, ◌||◌, Bool-cases, inl, inr,
  Option, none, some, List, [], ◌∷◌, length, ltb, ◌==◌, if◌then◌else◌, Result, ok, arith,
}
use backupy_agent.Prelude.Bytes.{Bytes, ◌===◌, ===_iff, ===_refl}
use backupy_agent.Io.{Fault}

-- The four bucket names.
pub data Bucket : Type 0 where
  bkt_config bkt_queue bkt_registry bkt_logs : Bucket

infix 50 ◌=ᵇ◌
unfoldable pub ◌=ᵇ◌ : Bucket → Bucket → Bool
bkt_config =ᵇ bkt_config = true
bkt_queue =ᵇ bkt_queue = true
bkt_registry =ᵇ bkt_registry = true
bkt_logs =ᵇ bkt_logs = true
_ =ᵇ _ = false

-- `bytes.Compare(a, b) < 0`
unfoldable pub before : Bytes → Bytes → Bool
before [] [] = false
before [] (y ∷ ys) = true
before (x ∷ xs) [] = false
before (x ∷ xs) (y ∷ ys) = ltb x y || (x == y && before xs ys)

abbrev pub Entries : Type 0
Entries = List (Bytes × Bytes)

-- A bucket as a list in key order: the value of a key, a key set, a key removed.
unfoldable pub lookup : Bytes → Entries → Option Bytes
lookup k [] = none
lookup k ((k', v) ∷ es) = if k === k' then some v else lookup k es

unfoldable pub insert : Bytes → Bytes → Entries → Entries
insert k v [] = (k, v) ∷ []
insert k v ((k', v') ∷ es) =
    let rest = insert k v es in
    if k === k'
    then (k, v) ∷ es
    else (if before k k' then (k, v) ∷ (k', v') ∷ es else (k', v') ∷ rest)

unfoldable pub remove : Bytes → Entries → Entries
remove k [] = []
remove k ((k', v) ∷ es) = let rest = remove k es in if k === k' then rest else (k', v) ∷ rest

-- One bucket replaced, the others left.
abbrev pub updated : Bucket → Entries → (Bucket → Entries) → Bucket → Entries
updated b es before_it b' = if b =ᵇ b' then es else before_it b'

pub record Bolt (Db : Type 0) : Type 0 where
  -- from `Cursor().First()` on by `Next()`
  pub cursor : Db → Bucket → Entries
  pub get : Db → Bucket → Bytes → Option Bytes
  pub put : Db → Bucket → Bytes → Bytes → Result Fault Db
  pub delete : Db → Bucket → Bytes → Result Fault Db
  -- 0 where it fails, as its caller ignores the error
  pub next_sequence : Db → Bucket → ℕ × Db
  pub create_bucket : Db → Bucket → Result Fault Db
  -- `Stats().KeyN`
  pub key_n : Db → Bucket → ℕ
  -- the commit at the end of `Update`: `none` if it succeeds
  pub commit : Db → Option Fault

pub record IsBolt {Db : Type 0} (bolt : Bolt Db) : Type 0 where
  pub get_cursor : (d : Db) (b : Bucket) (k : Bytes) → bolt.get d b k ≡ lookup k (bolt.cursor d b)
  pub cursor_put :
      (d : Db) (b : Bucket) (k v : Bytes) {d' : Db} (b' : Bucket)
      → bolt.put d b k v ≡ ok d'
      → bolt.cursor d' b' ≡ updated b (insert k v (bolt.cursor d b)) (bolt.cursor d) b'
  pub cursor_delete :
      (d : Db) (b : Bucket) (k : Bytes) {d' : Db} (b' : Bucket)
      → bolt.delete d b k ≡ ok d'
      → bolt.cursor d' b' ≡ updated b (remove k (bolt.cursor d b)) (bolt.cursor d) b'
  pub cursor_next_sequence :
      (d : Db) (b b' : Bucket) → bolt.cursor (bolt.next_sequence d b).1 b' ≡ bolt.cursor d b'
  pub cursor_create :
      (d : Db) (b : Bucket) {d' : Db} (b' : Bucket)
      → bolt.create_bucket d b ≡ ok d'
      → bolt.cursor d' b' ≡ bolt.cursor d b'
  pub key_n_cursor : (d : Db) (b : Bucket) → bolt.key_n d b ≡ length (bolt.cursor d b)
  -- `Put` refuses an empty key, a key above 32768 bytes and a value above 2^31 - 2 bytes.
  pub puts :
      (d : Db) (b : Bucket) (k v : Bytes)
      → 0 < length k
      → length k ≤ 32768
      → length v + 2 ≤ 2 ^ 31
      → (d' : Db) × (bolt.put d b k v ≡ ok d')
  -- `Delete` of a key that is not there is no error.
  pub deletes : (d : Db) (b : Bucket) (k : Bytes) → (d' : Db) × (bolt.delete d b k ≡ ok d')

pub ===_off : (k j : Bytes) → k ≢ j → (k === j) ≡ false
===_off k j h = elim (Bool-cases (k === j)) [ inl e ↦ absurd (h ((===_iff k j).0 e)) | inr e ↦ e ]

pub lookup-insert : (k v : Bytes) (es : Entries) → lookup k (insert k v es) ≡ some v
unfolding lookup insert
lookup-insert k v [] = ground (arith, ===_refl k)
lookup-insert k v ((j, w) ∷ es) = ground (arith, ===_refl k, lookup-insert k v es)

pub lookup-insert_other :
    (k j v : Bytes) (es : Entries) → j ≢ k → lookup j (insert k v es) ≡ lookup j es
unfolding lookup insert
lookup-insert_other k j v [] h = ground (arith, ===_off j k h)
lookup-insert_other k j v ((i, w) ∷ es) h = elim (Bool-cases (k === i)) [
  | inl e ↦
      let same : k ≡ i = (===_iff k i).0 e in
      let other : (j === i) ≡ false = subst (λ x. (j === x) ≡ false) same (===_off j k h) in
      ground (arith, ===_off j k h)
  | inr e ↦ ground (arith, ===_off j k h, lookup-insert_other k j v es h)
]

pub lookup-remove : (k : Bytes) (es : Entries) → lookup k (remove k es) ≡ none
unfolding lookup remove
lookup-remove k [] = refl
lookup-remove k ((j, w) ∷ es) = ground (arith, lookup-remove k es)

pub lookup-remove_other :
    (k j : Bytes) (es : Entries) → j ≢ k → lookup j (remove k es) ≡ lookup j es
unfolding lookup remove
lookup-remove_other k j [] h = refl
lookup-remove_other k j ((i, w) ∷ es) h = elim (Bool-cases (k === i)) [
  | inl e ↦
      let same : k ≡ i = (===_iff k i).0 e in
      let other : (j === i) ≡ false = subst (λ x. (j === x) ≡ false) same (===_off j k h) in
      ground (arith, lookup-remove_other k j es h)
  | inr e ↦ ground (arith, lookup-remove_other k j es h)
]

pub Bucket-refl : (b : Bucket) → (b =ᵇ b) ≡ true
unfolding ◌=ᵇ◌
Bucket-refl bkt_config = refl
Bucket-refl bkt_queue = refl
Bucket-refl bkt_registry = refl
Bucket-refl bkt_logs = refl
