-- ===== src/Pipeline/HookRing/Overwriting.antt =====
-- The invariant of `hookRingBuffer`, and the part of its `Write` that overwrites in place.
use backupy_agent.Prelude.{
  ℕ, ◌+◌, ◌-◌, ◌%◌, ◌≤◌, ◌<◌, ◌≡◌, refl, sym, ◌∙◌, ap, ap₂, true, false, [], ◌++◌, append_assoc,
  append-nil, length, take, drop, arith, length-append, length-drop, length-take, drop-append,
  take-append, drop-append_within, drop-drop, take-append-drop, take_all, drop_all,
  drop-append_beyond, false≢true,
}
use native.Mathlib.Decide.{dec_lt, dec_le}
use native.Mathlib.Nat.{mod-eq_of_lt, mod-eq-sub-mod}
use backupy_agent.Prelude.Bytes.{Bytes}
use backupy_agent.Pipeline.Tail.{last_bytes}
use backupy_agent.Pipeline.HookRing.{HookRing, copy, overwrite, string}

-- Until the slice is full the next position is its length; then it has `cap` bytes.
pub record IsRing (r : HookRing) : Type 0 where
  pub positive : 0 < r.cap
  pub pos_in : r.pos < r.cap
  pub growing : r.full ≡ false → (length r.buf < r.cap) × (r.pos ≡ length r.buf)
  pub grown : r.full ≡ true → length r.buf ≡ r.cap

module _ (r : HookRing) (v : IsRing r) (is_full : r.full ≡ true) (p : Bytes) where
  abbrev older : Bytes
  older = drop r.pos r.buf

  abbrev newer : Bytes
  newer = take r.pos r.buf

  size : length r.buf ≡ r.cap
  size = v.grown is_full

  length-older : length older ≡ r.cap - r.pos
  length-older = omega (arith, size, length-drop r.pos r.buf)

  length-newer : length newer ≡ r.pos
  length-newer = omega (arith, size, length-take r.pos r.buf, v.pos_in)

  string-full : string r ≡ older ++ newer
  unfolding string
  string-full = rw is_full

  -- What a result must be: full, of the right size, with the right bytes from its position on.
  abbrev pub Kept : HookRing → Bytes → Type 0
  Kept r' s = IsRing r' × (string r' ≡ s)

  kept :
      (buf : Bytes) (pos : ℕ) (s : Bytes)
      → length buf ≡ r.cap
      → pos < r.cap
      → drop pos buf ++ take pos buf ≡ s
      → Kept (record r { buf = buf; pos = pos }) s
  unfolding string
  kept buf pos s len in_range e = (
    record {
      positive = v.positive;
      pos_in = in_range;
      growing = λ h. absurd (false≢true (sym h ∙ is_full));
      grown = λ _. len;
    },
    rw is_full e,
  )

  pub length-string : length (string r) ≡ r.cap
  length-string =
      rw string-full
        (omega (arith, length-append older newer, length-older, length-newer, v.pos_in))

  overwrite_long : r.cap ≤ length p → Kept (overwrite p r) (last_bytes r.cap (string r ++ p))
  overwrite_long h =
      let src = drop (length p - r.cap) p in
      let n : length src ≡ r.cap = omega (arith, length-drop (length p - r.cap) p) in
      let c : copy 0 r.buf src ≡ src =
        rw
          (
            take_all (length r.buf - 0) src (omega (arith, size)),
            drop_all (0 + length src) r.buf (omega (arith, size)),
          )
          (append-nil src) in
      let e : overwrite p r ≡ record r { buf = src; pos = 0 } =
        unfold overwrite in ground (arith, c) in
      let l = length-append (string r) p in
      let spec : last_bytes r.cap (string r ++ p) ≡ src =
        drop-append_beyond (length (string r ++ p) - r.cap) (string r) p
          (omega (arith, l, length-string))
        ∙ ap (λ k. drop k p) (omega (arith, l, length-string)) in
      rw (e, spec) (kept src 0 src n v.positive (append-nil src))

  -- What is to be kept of a write that is shorter than the slice.
  spec_short :
      length p < r.cap → last_bytes r.cap (string r ++ p) ≡ drop (length p) (older ++ (newer ++ p))
  spec_short h =
      ap (λ k. drop k (string r ++ p)) (omega (arith, length-append (string r) p, length-string))
      ∙ ap (λ l. drop (length p) (l ++ p)) string-full
      ∙ ap (drop (length p)) (append_assoc older newer p)

  copy_inside :
      r.pos + length p ≤ r.cap → copy r.pos r.buf p ≡ newer ++ (p ++ drop (length p) older)
  copy_inside h =
      ap₂ (λ x y. newer ++ (x ++ y)) (take_all (length r.buf - r.pos) p (omega (arith, size)))
        (sym (drop-drop (length p) r.pos r.buf))

  overwrite_inside :
      length p < r.cap
      → r.pos + length p < r.cap
      → Kept (overwrite p r) (last_bytes r.cap (string r ++ p))
  overwrite_inside h fits =
      let rest = drop (length p) older in
      let buf = newer ++ (p ++ rest) in
      let pos = r.pos + length p in
      let c = copy_inside (omega arith) in
      let e : overwrite p r ≡ record r { buf = buf; pos = pos } =
        unfold overwrite in ground (arith, c, mod-eq_of_lt fits) in
      let np : length (newer ++ p) ≡ pos = omega (arith, length-append newer p, length-newer) in
      let n : length buf ≡ r.cap = omega (
        arith,
        length-append newer (p ++ rest),
        length-append p rest,
        length-newer,
        length-older,
        length-drop (length p) older,
      ) in
      let split : buf ≡ (newer ++ p) ++ rest = sym (append_assoc newer p rest) in
      let read : drop pos buf ++ take pos buf ≡ rest ++ (newer ++ p) = rw split (
        ap₂ ◌++◌ (drop-append (newer ++ p) rest pos (sym np))
          (take-append (newer ++ p) rest pos (sym np))) in
      let spec =
        spec_short h
        ∙ drop-append_within (length p) older (newer ++ p) (omega (arith, length-older)) in
      rw (e, spec) (kept buf pos (rest ++ (newer ++ p)) n fits read)

  -- Positions go round at the end.
  round_end : r.pos + length p ≡ r.cap → (r.pos + length p) % r.cap ≡ 0
  round_end ends = omega (
    arith,
    mod-eq-sub-mod {n = r.pos + length p} {m = r.cap} (omega arith),
    mod-eq_of_lt {n = r.pos + length p - r.cap} {m = r.cap} (omega (arith, v.positive)),
  )

  round_over :
      length p < r.cap
      → r.cap < r.pos + length p
      → (r.pos + length p) % r.cap ≡ length p - (r.cap - r.pos)
  round_over h over = omega (
    arith,
    v.pos_in,
    mod-eq-sub-mod {n = r.pos + length p} {m = r.cap} (omega arith),
    mod-eq_of_lt {n = r.pos + length p - r.cap} {m = r.cap} (omega (arith, v.pos_in)),
  )

  overwrite_to_end :
      length p < r.cap
      → r.pos + length p ≡ r.cap
      → Kept (overwrite p r) (last_bytes r.cap (string r ++ p))
  overwrite_to_end h ends =
      let rest = drop (length p) older in
      let nothing : rest ≡ [] = drop_all (length p) older (omega (arith, length-older)) in
      let buf = newer ++ p in
      let c : copy r.pos r.buf p ≡ buf =
        copy_inside (omega arith)
        ∙ ap (λ l. newer ++ (p ++ l)) nothing
        ∙ ap (λ l. newer ++ l) (append-nil p) in
      let e : overwrite p r ≡ record r { buf = buf; pos = 0 } =
        unfold overwrite in ground (arith, c, round_end ends) in
      let n : length buf ≡ r.cap = omega (arith, length-append newer p, length-newer) in
      let spec : last_bytes r.cap (string r ++ p) ≡ buf =
        spec_short h
        ∙ drop-append_within (length p) older (newer ++ p) (omega (arith, length-older))
        ∙ ap (λ l. l ++ buf) nothing in
      rw (e, spec) (kept buf 0 buf n v.positive (append-nil buf))

  overwrite_round :
      length p < r.cap
      → r.cap < r.pos + length p
      → Kept (overwrite p r) (last_bytes r.cap (string r ++ p))
  overwrite_round h over =
      let first = r.cap - r.pos in
      let p1 = take first p in
      let p2 = drop first p in
      let m = length p2 in
      let len1 : length p1 ≡ first = omega (arith, length-take first p) in
      let len2 : m ≡ length p - first = omega (arith, length-drop first p) in
      let c1 : copy r.pos r.buf p1 ≡ newer ++ p1 =
        ap₂ (λ x y. newer ++ (x ++ y)) (take_all (length r.buf - r.pos) p1 (omega (arith, size)))
          (drop_all (r.pos + length p1) r.buf (omega (arith, size)))
        ∙ ap (λ l. newer ++ l) (append-nil p1) in
      let tail = drop m newer in
      let buf = p2 ++ (tail ++ p1) in
      let c2 : copy 0 (newer ++ p1) p2 ≡ buf =
        ap₂ ◌++◌
          (take_all (length (newer ++ p1) - 0) p2
            (omega (arith, length-append newer p1, length-newer)))
          (ap (λ k. drop k (newer ++ p1)) (omega arith)
            ∙ drop-append_within m newer p1 (omega (arith, length-newer))) in
      let e : overwrite p r ≡ record r { buf = buf; pos = m } =
        unfold overwrite in ground (arith, c1, c2, round_over h over) in
      let n : length buf ≡ r.cap = omega (
        arith,
        length-append p2 (tail ++ p1),
        length-append tail p1,
        length-drop m newer,
        length-newer,
        v.pos_in,
      ) in
      let read : drop m buf ++ take m buf ≡ tail ++ p =
        ap₂ ◌++◌ (drop-append p2 (tail ++ p1) m refl) (take-append p2 (tail ++ p1) m refl)
        ∙ append_assoc tail p1 p2
        ∙ ap (λ l. tail ++ l) (take-append-drop first p) in
      let spec : last_bytes r.cap (string r ++ p) ≡ tail ++ p =
        spec_short h
        ∙ drop-append_beyond (length p) older (newer ++ p) (omega (arith, length-older))
        ∙ ap (λ k. drop k (newer ++ p)) (omega (arith, length-older))
        ∙ drop-append_within m newer p (omega (arith, length-newer)) in
      rw (e, spec) (kept buf m (tail ++ p) n (omega arith) read)

  pub overwrite_keeps : Kept (overwrite p r) (last_bytes r.cap (string r ++ p))
  overwrite_keeps = elim (dec_le r.cap (length p)) [
    | yes long ↦ overwrite_long long
    | no short ↦ elim (dec_lt (r.pos + length p) r.cap) [
      | yes inside ↦ overwrite_inside (omega arith) inside
      | no out ↦ elim (dec_lt r.cap (r.pos + length p)) [
        | yes over ↦ overwrite_round (omega arith) over
        | no end ↦ overwrite_to_end (omega arith) (omega arith)
      ]
    ]
  ]
