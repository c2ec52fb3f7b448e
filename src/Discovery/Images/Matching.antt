-- ===== src/Discovery/Images/Matching.antt =====
-- Which images `detectDBType` of apps/agent/internal/discovery/docker.go recognises.
use backupy_agent.Prelude.{
  ℕ, ◌≡◌, ◌⊎◌, refl, sym, ◌∙◌, ap, subst, true, false, Bool-cases, inl, inr, List, [], ◌∷◌, ◌++◌,
  length, take, drop, ◌==◌, arith, take-append-drop, take-append, drop-append, append_assoc,
  append-nil, ==_iff,
}
use backupy_agent.Prelude.Bytes.{Bytes, codes, ◌===◌, ===_iff, ===_refl}
use backupy_agent.Prelude.Strings.{has_prefix, contains_byte}
use backupy_agent.Discovery.Images.{
  db_type_by_image_prefix, is_alnum_extension, ends_name, rule_matches, first_rule, detect_db_type,
  normalise_image,
}

has_prefix_rest : (b p : Bytes) → has_prefix b p ≡ true → b ≡ p ++ drop (length p) b
unfolding has_prefix
has_prefix_rest b p h =
    let front : take (length p) b ≡ p = (===_iff (take (length p) b) p).0 h in
    sym (take-append-drop (length p) b) ∙ ap (λ l. l ++ drop (length p) b) front

has_prefix-append : (p rest : Bytes) → has_prefix (p ++ rest) p ≡ true
unfolding has_prefix
has_prefix-append p rest = rw (take-append p rest (length p) refl) (===_refl p)

-- A name that goes on behind the prefix as a tag, a path, or in one of the ways that are let through.
abbrev pub Names : Bytes → Bytes → Type 0
Names prefix norm =
    (rest : Bytes) × (norm ≡ prefix ++ rest)
    × ((ends_name rest ≡ true) ⊎ (is_alnum_extension prefix rest ≡ true))

extension_bare :
    (prefix rest : Bytes) → is_alnum_extension prefix rest ≡ true → contains_byte 47 prefix ≡ false
extension_bare prefix rest h = elim (Bool-cases (prefix === codes "postgres")) [
  | inl pg ↦ rw ((===_iff prefix (codes "postgres")).0 pg) (unfold contains_byte in refl)
  | inr other ↦ elim (Bool-cases (prefix === codes "mysql")) [
    | inl my ↦ rw ((===_iff prefix (codes "mysql")).0 my) (unfold contains_byte in refl)
    | inr unknown ↦ absurd (unfold is_alnum_extension in ground arith)
  ]
]

module _ (prefix norm : Bytes) where
  rule_matches-Names : rule_matches prefix norm ≡ true → Names prefix norm
  unfolding rule_matches ends_name
  rule_matches-Names h = elim (Bool-cases (norm === prefix)) [
    | inl same ↦ ([], (===_iff norm prefix).0 same ∙ sym (append-nil prefix), inl refl)
    | inr other ↦ elim (Bool-cases (has_prefix norm (prefix ++ codes ":"))) [
      | inl tagged ↦
          let tag = drop (length (prefix ++ codes ":")) norm in
          (
            58 ∷ tag,
            has_prefix_rest norm (prefix ++ codes ":") tagged ∙ append_assoc prefix (codes ":") tag,
            inl refl,
          )
      | inr untagged ↦ elim (Bool-cases (has_prefix norm (prefix ++ codes "/"))) [
        | inl nested ↦
            let path = drop (length (prefix ++ codes "/")) norm in
            (
              47 ∷ path,
              has_prefix_rest norm (prefix ++ codes "/") nested
                  ∙ append_assoc prefix (codes "/") path,
              inl refl,
            )
        | inr flat ↦
            let begins : has_prefix norm prefix ≡ true = ground arith in
            let rest = drop (length prefix) norm in
            (
              rest,
              has_prefix_rest norm prefix begins,
              elim (Bool-cases (ends_name rest)) [
                | inl ends ↦ inl ends
                | inr goes_on ↦ inr (ground arith)
              ],
            )
      ]
    ]
  ]

  begins_with :
      (c : ℕ) (cs : Bytes) → norm ≡ prefix ++ (c ∷ cs) → has_prefix norm (prefix ++ (c ∷ [])) ≡ true
  begins_with c cs e =
      subst (λ (n : Bytes). has_prefix n (prefix ++ (c ∷ [])) ≡ true)
        (append_assoc prefix (c ∷ []) cs ∙ sym e) (has_prefix-append (prefix ++ (c ∷ [])) cs)

  ends-rule_matches :
      (rest : Bytes)
      → norm ≡ prefix ++ rest
      → ends_name rest ≡ true
      → rule_matches prefix norm ≡ true
  unfolding rule_matches ends_name
  ends-rule_matches [] e ends =
      let same : (norm === prefix) ≡ true = (===_iff norm prefix).1 (e ∙ append-nil prefix) in
      ground arith
  ends-rule_matches (c ∷ cs) e ends = elim (Bool-cases (c == 58)) [
    | inl tag ↦
        let colon : c ≡ 58 = (==_iff c 58).0 tag in
        let tagged : has_prefix norm (prefix ++ codes ":") ≡ true =
          subst (λ (n : ℕ). has_prefix norm (prefix ++ (n ∷ [])) ≡ true) colon
            (begins_with c cs e) in
        ground arith
    | inr other ↦
        let slash : c ≡ 47 = ground arith in
        let nested : has_prefix norm (prefix ++ codes "/") ≡ true =
          subst (λ (n : ℕ). has_prefix norm (prefix ++ (n ∷ [])) ≡ true) slash
            (begins_with c cs e) in
        ground arith
  ]

  extension-rule_matches :
      (rest : Bytes)
      → norm ≡ prefix ++ rest
      → is_alnum_extension prefix rest ≡ true
      → rule_matches prefix norm ≡ true
  unfolding rule_matches
  extension-rule_matches rest e ext =
      let bare = extension_bare prefix rest ext in
      let begins : has_prefix norm prefix ≡ true =
        subst (λ (n : Bytes). has_prefix n prefix ≡ true) (sym e) (has_prefix-append prefix rest) in
      let behind : drop (length prefix) norm ≡ rest =
        ap (drop (length prefix)) e ∙ drop-append prefix rest (length prefix) refl in
      let let_through : is_alnum_extension prefix (drop (length prefix) norm) ≡ true =
        ap (is_alnum_extension prefix) behind ∙ ext in
      ground arith

  Names-rule_matches : Names prefix norm → rule_matches prefix norm ≡ true
  Names-rule_matches (rest, e, inl ends) = ends-rule_matches rest e ends
  Names-rule_matches (rest, e, inr ext) = extension-rule_matches rest e ext

module _ (norm : Bytes) where
  -- The type of the first rule that names the image, and no type where none does.
  pub data Decided : List (Bytes × Bytes) → Bytes → Type 0 where
    unknown : Decided [] []
    here :
        (prefix db_type : Bytes) (rules : List (Bytes × Bytes))
        → Names prefix norm
        → Decided ((prefix, db_type) ∷ rules) db_type
    later :
        (prefix other db_type : Bytes) (rules : List (Bytes × Bytes))
        → ¬ Names prefix norm
        → Decided rules db_type
        → Decided ((prefix, other) ∷ rules) db_type

  first_rule-Decided : (rules : List (Bytes × Bytes)) → Decided rules (first_rule rules norm)
  unfolding first_rule
  first_rule-Decided [] = unknown
  first_rule-Decided ((prefix, db_type) ∷ rules) = elim (Bool-cases (rule_matches prefix norm)) [
    | inl names ↦ rw names (here prefix db_type rules (rule_matches-Names prefix norm names))
    | inr passes ↦ rw passes (
        later prefix db_type (first_rule rules norm) rules
          (λ n. cc (Names-rule_matches prefix norm n, passes)) (first_rule-Decided rules))
  ]

-- An image has the type of the first rule of the table whose prefix is all of its normalised name, or is
-- followed there by a tag or a path, by "ql" if it is "postgres", or by digits if it is "mysql";
-- it has no type if there is no such rule.
pub detect_db_type-Decided :
    (image : Bytes) → Decided (normalise_image image) db_type_by_image_prefix (detect_db_type image)
unfolding detect_db_type
detect_db_type-Decided image = first_rule-Decided (normalise_image image) db_type_by_image_prefix
