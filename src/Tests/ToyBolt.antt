-- ===== src/Tests/ToyBolt.antt =====
-- A database that meets the laws of bbolt: a function from buckets to sorted lists.
use backupy_agent.Prelude.{◌≡◌, refl, sym, ap, none, [], length, Result, ok, arith}
use backupy_agent.Io.{Fault}
use backupy_agent.Bolt.{Bucket, Entries, Bolt, IsBolt, lookup, insert, remove, updated}
use backupy_agent.State.Store.{Store}

abbrev pub ToyDb : Type 0
ToyDb = Bucket → Entries

abbrev pub toy_bolt : Bolt ToyDb
toy_bolt = record {
  cursor = λ d b. d b;
  get = λ d b k. lookup k (d b);
  put = λ d b k v. ok (updated b (insert k v (d b)) d);
  delete = λ d b k. ok (updated b (remove k (d b)) d);
  next_sequence = λ d b. (1, d);
  create_bucket = λ d b. ok d;
  key_n = λ d b. length (d b);
  commit = λ d. none;
}

ok-injective : {A : Type 0} {a b : A} (p : Result Fault A) → p ≡ ok a → p ≡ ok b → a ≡ b
ok-injective p h k = ground arith

pub toy_bolt-IsBolt : IsBolt toy_bolt
toy_bolt-IsBolt = record {
  get_cursor = λ d b k. refl;
  cursor_put = λ d b k v {d'} b' h. sym (ap (λ (e : ToyDb). e b') (ok-injective _ refl h));
  cursor_delete = λ d b k {d'} b' h. sym (ap (λ (e : ToyDb). e b') (ok-injective _ refl h));
  cursor_next_sequence = λ d b b'. refl;
  cursor_create = λ d b {d'} b' h. sym (ap (λ (e : ToyDb). e b') (ok-injective _ refl h));
  key_n_cursor = λ d b. refl;
  puts = λ d b k v p q r. (updated b (insert k v (d b)) d, refl);
  deletes = λ d b k. (updated b (remove k (d b)) d, refl);
}

pub toy_commits : (d : ToyDb) → toy_bolt.commit d ≡ none
toy_commits d = refl

abbrev pub empty_store : Store ToyDb
empty_store = record { db = λ b. []; draws = 0 }
