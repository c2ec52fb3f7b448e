-- ===== src/Pipeline/Tail.antt =====
-- `ringBuffer` of apps/agent/internal/pipeline/mongodump.go: the last bytes of a child's stderr.
use backupy_agent.Prelude.{
  ℕ, ◌-◌, ◌≤◌, ◌≡◌, sym, ◌∙◌, ap, List, [], ◌∷◌, ◌++◌, append_assoc, append-nil, length, drop, ltb,
  Bool-cases, inl, inr, if◌then◌else◌, arith, length-append, length-drop, drop-append_within,
  drop-drop,
}
use backupy_agent.Prelude.Bytes.{Bytes}

-- The last `n` bytes.
abbrev pub last_bytes : ℕ → Bytes → Bytes
last_bytes n b = drop (length b - n) b

pub record RingBuffer : Type 0 where
  pub buf : Bytes
  pub cap : ℕ

unfoldable pub new_ring_buffer : ℕ → RingBuffer
new_ring_buffer cap = record { buf = []; cap = cap }

-- `Write`, which always reports `len(p)`.
unfoldable pub write : Bytes → RingBuffer → RingBuffer
write p r =
    let b = r.buf ++ p in
    if ltb r.cap (length b)
    then record r { buf = drop (length b - r.cap) b }
    else record r { buf = b }

-- A child's writes, one after the other.
unfoldable pub write_all : List Bytes → RingBuffer → RingBuffer
write_all [] r = r
write_all (p ∷ ps) r = write_all ps (write p r)

unfoldable pub concat : List Bytes → Bytes
concat [] = []
concat (p ∷ ps) = p ++ concat ps

-- Keeping the last bytes twice, with more bytes in between, is keeping them once.
pub last_bytes-append :
    (n : ℕ) (a b : Bytes) → last_bytes n (last_bytes n a ++ b) ≡ last_bytes n (a ++ b)
last_bytes-append n a b =
    let k = length a - n in
    rw (← drop-append_within k a b (omega arith), drop-drop)
      (ap (λ m. drop m (a ++ b)) (omega (arith, length-drop k (a ++ b), length-append a b)))

write-eq-last_bytes : (p : Bytes) (r : RingBuffer) → (write p r).buf ≡ last_bytes r.cap (r.buf ++ p)
unfolding write
write-eq-last_bytes p r = elim (Bool-cases (ltb r.cap (length (r.buf ++ p)))) [
  | inl more ↦ ground arith
  | inr fits ↦ let e : length (r.buf ++ p) - r.cap ≡ 0 = ground arith in ground arith
]

write-fits : (p : Bytes) (r : RingBuffer) → length (write p r).buf ≤ (write p r).cap
unfolding write
write-fits p r = ground (arith, length-drop (length (r.buf ++ p) - r.cap) (r.buf ++ p))

cap-write : (p : Bytes) (r : RingBuffer) → (write p r).cap ≡ r.cap
unfolding write
cap-write p r = ground arith

-- After any writes the buffer holds the last `cap` bytes of what it held and of all that was
-- written, in order.
pub write_all-eq-last_bytes :
    (ps : List Bytes) (r : RingBuffer)
    → length r.buf ≤ r.cap
    → (write_all ps r).buf ≡ last_bytes r.cap (r.buf ++ concat ps)
unfolding write_all concat
write_all-eq-last_bytes [] r h =
    let e : length (r.buf ++ []) - r.cap ≡ 0 = omega (arith, length-append r.buf []) in
    rw e (sym (append-nil r.buf))
write_all-eq-last_bytes (p ∷ ps) r h =
    write_all-eq-last_bytes ps (write p r) (write-fits p r)
    ∙ rw (cap-write p r, write-eq-last_bytes p r)
        (last_bytes-append r.cap (r.buf ++ p) (concat ps)
          ∙ ap (last_bytes r.cap) (append_assoc r.buf p (concat ps)))
