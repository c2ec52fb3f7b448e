-- ===== src/Io.antt =====
-- The standard library's streams as the program uses them: `io.Reader` with `io.ReadFull`, and
-- `io.Writer`. A reader is the bytes that it will still give and how it ends; a writer keeps what
-- it took and may have room for so many bytes only.
use backupy_agent.Prelude.{
  ℕ, zero, ◌-◌, ◌<◌, ◌≡◌, Bool, true, false, Option, none, some, [], ◌++◌, length, take, drop, leb,
  if◌then◌else◌, arith, le→leb, lt→leb, length-append, take-append, drop-append, take_all, drop_all,
}
use backupy_agent.Prelude.Bytes.{Bytes}

-- An error value that comes from outside the program; the program only passes it on.
pub data Fault : Type 0 where
  fault : ℕ → Fault

pub record Reader : Type 0 where
  pub bytes : Bytes
  -- `none` is `io.EOF`
  pub ends : Option Fault

pub data ReadError : Type 0 where
  eof unexpected_eof : ReadError
  failed : Fault → ReadError

-- What `io.ReadFull` reports when the source ends after `n` bytes of a larger buffer.
abbrev pub short_read : ℕ → Option Fault → ReadError
short_read n (some e) = failed e
short_read zero none = eof
short_read n none = unexpected_eof

-- `io.ReadFull` into a buffer of `n` bytes, `0 < n`: the bytes read, the error if they are fewer.
pub record ReadFull : Type 0 where
  pub got : Bytes
  pub error : Option ReadError
  pub rest : Reader

unfoldable pub read_full : ℕ → Reader → ReadFull
read_full n r = record {
  got = take n r.bytes;
  error = if leb n (length r.bytes) then none else some (short_read (length r.bytes) r.ends);
  rest = record r { bytes = drop n r.bytes };
}

pub record Writer : Type 0 where
  pub written : Bytes
  -- `none`: every write succeeds
  pub room : Option ℕ

-- A write that does not fit puts what fits and fails.
unfoldable pub write : Bytes → Writer → Bool × Writer
write p w = elim w.room [
  | none ↦ (true, record w { written = w.written ++ p })
  | some n ↦
      if leb (length p) n
      then (true, record { written = w.written ++ p; room = some (n - length p) })
      else (false, record { written = w.written ++ take n p; room = some 0 })
]

-- The buffer is filled by the bytes that come first.
pub read_full-append :
    (n : ℕ) (xs ys : Bytes) (e : Option Fault)
    → n ≡ length xs
    → read_full n (record { bytes = xs ++ ys; ends = e })
      ≡ record { got = xs; error = none; rest = record { bytes = ys; ends = e } }
unfolding read_full
read_full-append n xs ys e h = rw (
  take-append xs ys n h,
  drop-append xs ys n h,
  le→leb n (length (xs ++ ys)) (omega (arith, length-append xs ys)),
)

-- The source ends first.
pub read_full_short :
    (n : ℕ) (xs : Bytes) (e : Option Fault)
    → length xs < n
    → read_full n (record { bytes = xs; ends = e }) ≡ record {
      got = xs;
      error = some (short_read (length xs) e);
      rest = record { bytes = []; ends = e };
    }
unfolding read_full
read_full_short n xs e h =
    rw (take_all n xs (omega arith), drop_all n xs (omega arith), lt→leb n (length xs) h)
