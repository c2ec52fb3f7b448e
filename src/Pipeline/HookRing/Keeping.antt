-- ===== src/Pipeline/HookRing/Keeping.antt =====
-- What `hookRingBuffer` keeps of the bytes written.
use backupy_agent.Prelude.{
  ℕ, ◌+◌, ◌-◌, ◌%◌, ◌≤◌, ◌<◌, ◌≡◌, refl, sym, ◌∙◌, ap, ap₂, true, false, Bool-cases, inl, inr, List,
  [], ◌∷◌, ◌++◌, append_assoc, append-nil, length, take, drop, arith, length-append, length-take,
  take-append-drop, false≢true,
}
use native.Mathlib.Decide.{dec_lt}
use native.Mathlib.Nat.{mod-eq_of_lt, mod-eq-sub-mod}
use backupy_agent.Prelude.Bytes.{Bytes}
use backupy_agent.Pipeline.Tail.{last_bytes, last_bytes-append, concat}
use backupy_agent.Pipeline.HookRing.Overwriting.{IsRing, length-string, overwrite_keeps}
use backupy_agent.Pipeline.HookRing.{
  HookRing, new_hook_ring_buffer, overwrite, grow, write, string, write_all,
}

module _ (r : HookRing) (v : IsRing r) (is_growing : r.full ≡ false) (p : Bytes) where
  string-growing : string r ≡ r.buf
  unfolding string
  string-growing = rw is_growing

  abbrev room : ℕ
  room = r.cap - length r.buf

  growing_now : (length r.buf < r.cap) × (r.pos ≡ length r.buf)
  growing_now = v.growing is_growing

  spec_fits : length p ≤ room → last_bytes r.cap (string r ++ p) ≡ r.buf ++ p
  spec_fits h =
      let e : length (r.buf ++ p) - r.cap ≡ 0 = omega (arith, length-append r.buf p, growing_now) in
      rw (string-growing, e)

  grow_within :
      length p < room → IsRing (grow p r) × (string (grow p r) ≡ last_bytes r.cap (string r ++ p))
  grow_within h =
      let l = length-append r.buf p in
      let g = growing_now in
      let lt : r.pos + length p < r.cap = omega arith in
      let e : grow p r
          ≡ record { buf = r.buf ++ p; cap = r.cap; full = false; pos = r.pos + length p } =
        unfold grow in ground (arith, mod-eq_of_lt lt) in
      rw (e, spec_fits (omega arith))
        (
          record {
            positive = v.positive;
            pos_in = lt;
            growing = λ _. (omega arith, omega arith);
            grown = λ q. absurd (false≢true q);
          },
          unfold string in refl,
        )

  grow_to_end :
      length p ≡ room → IsRing (grow p r) × (string (grow p r) ≡ last_bytes r.cap (string r ++ p))
  grow_to_end h =
      let l = length-append r.buf p in
      let g = growing_now in
      let n : length (r.buf ++ p) ≡ r.cap = omega arith in
      let z : (r.pos + length p) % r.cap ≡ 0 = omega (
        arith,
        mod-eq-sub-mod {n = r.pos + length p} {m = r.cap} (omega arith),
        mod-eq_of_lt {n = r.pos + length p - r.cap} {m = r.cap} (omega (arith, v.positive)),
      ) in
      let e : grow p r ≡ record { buf = r.buf ++ p; cap = r.cap; full = true; pos = 0 } =
        unfold grow in ground arith in
      rw (e, spec_fits (omega arith))
        (
          record {
            positive = v.positive;
            pos_in = v.positive;
            growing = λ q. absurd (false≢true (sym q));
            grown = λ _. n;
          },
          unfold string in append-nil (r.buf ++ p),
        )

  grow_over :
      room < length p → IsRing (grow p r) × (string (grow p r) ≡ last_bytes r.cap (string r ++ p))
  grow_over h =
      let g = growing_now in
      let r1 : HookRing = record {
        buf = r.buf ++ take room p;
        cap = r.cap;
        full = true;
        pos = 0;
      } in
      let n : length (r.buf ++ take room p) ≡ r.cap =
        omega (arith, length-append r.buf (take room p), length-take room p) in
      let v1 : IsRing r1 = record {
        positive = v.positive;
        pos_in = v.positive;
        growing = λ q. absurd (false≢true (sym q));
        grown = λ _. n;
      } in
      let e : grow p r ≡ overwrite (drop room p) r1 = unfold grow in ground arith in
      let (v2, s2) = overwrite_keeps r1 v1 refl (drop room p) in
      let sr : string r1 ≡ r.buf ++ take room p =
        unfold string in append-nil (r.buf ++ take room p) in
      let s1 : string r1 ++ drop room p ≡ string r ++ p =
        ap (λ l. l ++ drop room p) sr
        ∙ append_assoc r.buf (take room p) (drop room p)
        ∙ ap₂ ◌++◌ (sym string-growing) (take-append-drop room p) in
      rw e (v2, s2 ∙ ap (last_bytes r.cap) s1)

  grow_keeps : IsRing (grow p r) × (string (grow p r) ≡ last_bytes r.cap (string r ++ p))
  grow_keeps = elim (dec_lt (length p) room) [
    | yes within ↦ grow_within within
    | no out ↦ elim (dec_lt room (length p)) [
      | yes over ↦ grow_over over
      | no end ↦ grow_to_end (omega arith)
    ]
  ]

length-string-le : (r : HookRing) → IsRing r → length (string r) ≤ r.cap
length-string-le r v = elim (Bool-cases r.full) [
  | inl full ↦ omega (arith, length-string r v full [])
  | inr growing ↦
      omega (arith, ap (λ (l : Bytes). length l) (string-growing r v growing []), v.growing growing)
]

write-nil : (r : HookRing) → write [] r ≡ r
unfolding write
write-nil r = refl

write-full :
    (r : HookRing) (b : ℕ) (bs : Bytes) → r.full ≡ true → write (b ∷ bs) r ≡ overwrite (b ∷ bs) r
unfolding write
write-full r b bs h = ground arith

write-growing :
    (r : HookRing) (b : ℕ) (bs : Bytes)
    → r.full ≡ false
    → length r.buf < r.cap
    → write (b ∷ bs) r ≡ grow (b ∷ bs) r
unfolding write
write-growing r b bs h lt = ground arith

-- One write keeps the invariant and the last `cap` bytes.
write_keeps :
    (r : HookRing) (p : Bytes)
    → IsRing r
    → IsRing (write p r) × (string (write p r) ≡ last_bytes r.cap (string r ++ p))
write_keeps r [] v =
    let e : length (string r ++ []) - r.cap ≡ 0 =
      omega (arith, length-append (string r) [], length-string-le r v) in
    rw (write-nil r, e) (v, sym (append-nil (string r)))
write_keeps r (b ∷ bs) v = elim (Bool-cases r.full) [
  | inl full ↦ rw (write-full r b bs full) (overwrite_keeps r v full (b ∷ bs))
  | inr growing ↦
      rw (write-growing r b bs growing (v.growing growing).0) (grow_keeps r v growing (b ∷ bs))
]

cap-write : (r : HookRing) (p : Bytes) → (write p r).cap ≡ r.cap
unfolding write
cap-write r p = ground arith

write_all_keeps :
    (ps : List Bytes) (r : HookRing)
    → IsRing r
    → IsRing (write_all ps r) × (string (write_all ps r) ≡ last_bytes r.cap (string r ++ concat ps))
unfolding write_all concat
write_all_keeps [] r v =
    let e : length (string r ++ []) - r.cap ≡ 0 =
      omega (arith, length-append (string r) [], length-string-le r v) in
    rw e (v, sym (append-nil (string r)))
write_all_keeps (p ∷ ps) r v =
    let (v1, s1) = write_keeps r p v in
    let (v2, s2) = write_all_keeps ps (write p r) v1 in
    (
      v2,
      s2
          ∙ ap₂ (λ n l. last_bytes n (l ++ concat ps)) (cap-write r p) s1
          ∙ last_bytes-append r.cap (string r ++ p) (concat ps)
          ∙ ap (last_bytes r.cap) (append_assoc (string r) p (concat ps)),
    )

-- After any writes into a fresh buffer `String` gives the last `cap` bytes of all that was written,
-- in order, and the invariant holds.
pub string-write_all :
    (cap : ℕ) (ps : List Bytes)
    → 0 < cap
    → let r = write_all ps (new_hook_ring_buffer cap) in
      IsRing r × (string r ≡ last_bytes cap (concat ps))
unfolding new_hook_ring_buffer string
string-write_all cap ps pos =
    write_all_keeps ps (record { buf = []; cap = cap; full = false; pos = 0 })
      (record {
        positive = pos;
        pos_in = pos;
        growing = λ _. (pos, refl);
        grown = λ q. absurd (false≢true q);
      })
