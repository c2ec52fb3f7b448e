-- ===== src/Drivers/Mysqldump/Banner.antt =====
-- `parseMysqldumpVersion` of apps/agent/internal/pipeline/mysqldump.go on the banner with "Ver".
use backupy_agent.Prelude.{
  ℕ, ◌≡◌, ◌≢◌, ◌⊎◌, refl, ◌∙◌, ap, false, Bool-cases, inl, inr, some, List, [], ◌∷◌, ◌++◌, All,
  append-nil,
}
use backupy_agent.Prelude.Bytes.{Bytes, codes, is_empty, ◌===◌}
use backupy_agent.Prelude.Strings.{
  is_space, trim_space, trim_left_space, trim_right_space, split_by, drop_empty, fields,
  after_folded,
}
use backupy_agent.Drivers.Mysqldump.{mysql_version, parse_mysqldump_version}

-- A text that is one field.
abbrev pub IsWord : Bytes → Type 0
IsWord v = All (λ c. is_space c ≡ false) v

trim_right_space-append :
    (v w : Bytes) → IsWord v → trim_right_space (v ++ w) ≡ v ++ trim_right_space w
unfolding trim_right_space
trim_right_space-append [] w word = refl
trim_right_space-append (c ∷ cs) w word =
    let ih = trim_right_space-append cs w word.1 in let here = word.0 in rw (here, ih) refl

-- Nothing, or a space and more.
abbrev Ends : Bytes → Type 0
Ends t = (t ≡ []) ⊎ ((u : Bytes) × (t ≡ 32 ∷ u))

trim_right_space-Ends : (rest : Bytes) → Ends (trim_right_space (32 ∷ rest))
unfolding trim_right_space
trim_right_space-Ends rest = elim (Bool-cases (is_empty (trim_right_space rest))) [
  | inl empty ↦ inl (rw empty refl)
  | inr more ↦ inr (trim_right_space rest, rw more refl)
]

split_by-append :
    (v u : Bytes) → IsWord v → split_by is_space (v ++ (32 ∷ u)) ≡ v ∷ split_by is_space u
unfolding split_by
split_by-append [] u word = refl
split_by-append (c ∷ cs) u word = let here = word.0 in rw (here, split_by-append cs u word.1) refl

split_by-word : (v : Bytes) → IsWord v → split_by is_space v ≡ v ∷ []
unfolding split_by
split_by-word [] word = refl
split_by-word (c ∷ cs) word = let here = word.0 in rw (here, split_by-word cs word.1) refl

fields-word :
    (c : ℕ) (cs t : Bytes)
    → IsWord (c ∷ cs)
    → Ends t
    → (ws : List Bytes) × (fields ((c ∷ cs) ++ t) ≡ (c ∷ cs) ∷ ws)
unfolding fields drop_empty
fields-word c cs t word (inl none_left) = (
  [],
  rw none_left
      (ap drop_empty (ap (split_by is_space) (append-nil (c ∷ cs)) ∙ split_by-word (c ∷ cs) word)),
)
fields-word c cs t word (inr (u, more)) =
    (drop_empty (split_by is_space u), rw more (ap drop_empty (split_by-append (c ∷ cs) u word)))

abbrev pub banner : Bytes
banner = codes "mysqldump  Ver "

trim_right_space-banner :
    (x y : Bytes) (c : ℕ)
    → trim_right_space x ≡ c ∷ y
    → trim_right_space (banner ++ x) ≡ banner ++ (c ∷ y)
unfolding trim_right_space
trim_right_space-banner x y c h = rw h refl

trimmed :
    (c : ℕ) (cs rest : Bytes)
    → IsWord (c ∷ cs)
    → trim_space (banner ++ ((c ∷ cs) ++ (32 ∷ rest)))
      ≡ banner ++ ((c ∷ cs) ++ trim_right_space (32 ∷ rest))
unfolding trim_space trim_left_space
trimmed c cs rest word =
    trim_right_space-banner ((c ∷ cs) ++ (32 ∷ rest)) (cs ++ trim_right_space (32 ∷ rest)) c
      (trim_right_space-append (c ∷ cs) (32 ∷ rest) word)

after_folded-banner : (x : Bytes) → after_folded (banner ++ x) (codes "ver ") ≡ some x
unfolding after_folded ◌===◌
after_folded-banner x = refl

-- A banner "mysqldump  Ver v ..." is read as MySQL with the field v, whatever follows the field:
-- also where what follows names a MariaDB distribution.
pub parse_mysqldump_version-banner :
    (v rest : Bytes)
    → v ≢ []
    → IsWord v
    → parse_mysqldump_version (banner ++ (v ++ (32 ∷ rest))) ≡ codes "MySQL " ++ v
unfolding parse_mysqldump_version mysql_version
parse_mysqldump_version-banner [] rest filled word = absurd (filled refl)
parse_mysqldump_version-banner (c ∷ cs) rest filled word =
    let t = trim_right_space (32 ∷ rest) in
    let (ws, first) = fields-word c cs t word (trim_right_space-Ends rest) in
    let cut = after_folded-banner ((c ∷ cs) ++ t) in
    let read : mysql_version (banner ++ ((c ∷ cs) ++ t)) ≡ some (codes "MySQL " ++ (c ∷ cs)) =
      rw (mysql_version, cut, first) refl in
    rw (parse_mysqldump_version, trimmed c cs rest word, read) refl
