-- ===== src/Pipeline/HookRing.antt =====
-- `hookRingBuffer` of apps/agent/internal/pipeline/hooks.go: the last bytes of a hook's output, in
-- a slice that is overwritten in place.
pub mod Overwriting
pub mod Keeping
use backupy_agent.Prelude.{
  ℕ, ◌+◌, ◌-◌, ◌%◌, Bool, true, false, not, ◌&&◌, List, [], ◌∷◌, ◌++◌, length, take, drop, ltb, leb,
  ◌==◌, if◌then◌else◌,
}
use backupy_agent.Prelude.Bytes.{Bytes}

-- The capacity of `buf` as a Go slice is never read: `cap` is the struct's field.
pub record HookRing : Type 0 where
  pub buf : Bytes
  pub cap : ℕ
  pub full : Bool
  pub pos : ℕ

unfoldable pub new_hook_ring_buffer : ℕ → HookRing
new_hook_ring_buffer cap = record { buf = []; cap = cap; full = false; pos = 0 }

-- The built-in `copy(dst[from:], src)`, with `from` at most `len(dst)`.
abbrev pub copy : ℕ → Bytes → Bytes → Bytes
copy from dst src = take from dst ++ (take (length dst - from) src ++ drop (from + length src) dst)

-- The part of `Write` behind "We're full; overwrite oldest bytes", on what is left of `p`.
pub overwrite : Bytes → HookRing → HookRing
overwrite p r =
    if leb r.cap (length p)
    then record r { buf = copy 0 r.buf (drop (length p - r.cap) p); pos = 0 }
    else let end = r.pos + length p in
      let first = r.cap - r.pos in
      let buf =
        if leb end r.cap
        then copy r.pos r.buf p
        else copy 0 (copy r.pos r.buf (take first p)) (drop first p) in
      record r { buf = buf; pos = (r.pos + length p) % r.cap }

-- The part of `Write` that still grows the slice: `n <= room` returns, else the rest of `p` is
-- left to `overwrite`.
pub grow : Bytes → HookRing → HookRing
unfolding overwrite
grow p r =
    let room = r.cap - length r.buf in
    if leb (length p) room
    then (let buf = r.buf ++ p in
        record r {
          buf = buf;
          pos = (r.pos + length p) % r.cap;
          full = if length buf == r.cap then true else r.full;
        })
    else overwrite (drop room p) (record r { buf = r.buf ++ take room p; full = true; pos = 0 })

-- `Write`, which always reports `len(p)`.
unfoldable pub write : Bytes → HookRing → HookRing
unfolding grow overwrite
write p r =
    if length p == 0
    then r
    else if not r.full && ltb (length r.buf) r.cap
    then grow p r
    else overwrite p r

-- `String`: oldest first.
unfoldable pub string : HookRing → Bytes
string r = if r.full then drop r.pos r.buf ++ take r.pos r.buf else r.buf

unfoldable pub write_all : List Bytes → HookRing → HookRing
write_all [] r = r
write_all (p ∷ ps) r = write_all ps (write p r)
