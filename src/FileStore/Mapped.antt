-- ===== src/FileStore/Mapped.antt =====
-- Proofs about windows/flowtype-app/src/file_transfer_store.rs: what holds of the targets while the entries
-- are mapped.
use flow_type.Prelude.{
  Text, ℕ, ◌≡◌, ◌≢◌, ◌⊎◌, inl, inr, sym, ◌∙◌, ap, subst, arith, true, false, some, List, [], ◌∷◌,
  ◌++◌, map, length, text_eq_refl, Bool-cases, Option-cases,
}
use flow_type.FileTransfer.Reservations.{Used, is_used, reserved_names_of}
use flow_type.FileStore.Targets.{WirePath, same_path, reserved_in, Targets, names_in}
use flow_type.FileStore.Distinct.{last_apart, In, DirectoryIn, AllApart, apart_equal}

module _ (lower : Text → Text) (numbers : ℕ) (listing : WirePath → List Text) where
  -- A target stands in a directory's target, under a name that is reserved there and that was not there.
  pub record Placement (t : Targets) (path : WirePath) : Type 0 where
    pub parent : WirePath
    pub name : Text
    pub used : Used
    pub parts : path ≡ parent ++ name ∷ []
    pub within : DirectoryIn parent t.mapped_directories
    pub reservation : reserved_in parent t.reservations ≡ some used
    pub taken : is_used (lower name) used ≡ true
    pub absent : is_used (lower name) (reserved_names_of lower (listing parent)) ≡ false

  pub record IsMapped (t : Targets) : Type 0 where
    pub apart : AllApart lower t.records
    pub directories :
        (p : WirePath) → DirectoryIn p t.mapped_directories → (p ≡ []) ⊎ In p t.records
    pub placed : (p : WirePath) → In p t.records → Placement t p
    pub listed :
        (p : WirePath) (used : Used)
        → reserved_in p t.reservations ≡ some used
        → (n : Text) → is_used n (reserved_names_of lower (listing p)) ≡ true
        → is_used n used ≡ true

  longer : (t : Targets) (q : WirePath) → Placement t q → [] ≡ map lower q → ⊥
  longer t q l h =
      let path = h ∙ ap (λ (r : WirePath). map lower r) l.parts in
      not_empty l.parent l.name (ap (λ (r : WirePath). length r) path)
    where
      not_empty : (p : WirePath) (n : Text) → 0 ≡ length (map lower (p ++ n ∷ [])) → ⊥
      not_empty [] n h = ground (arith, h)
      not_empty (s ∷ p) n h = ground (arith, h)

  -- Directories' targets that are the same but for case are the same.
  same_directory :
      (t : Targets) (p q : WirePath)
      → IsMapped t
      → DirectoryIn p t.mapped_directories
      → DirectoryIn q t.mapped_directories
      → map lower p ≡ map lower q
      → p ≡ q
  same_directory t p q k i j h = elim (k.directories p i) [
    | inl x ↦ elim (k.directories q j) [
      | inl y ↦ x ∙ sym y
      | inr y ↦ absurd (longer t q (k.placed q y) (ap (λ (r : WirePath). map lower r) (sym x) ∙ h))
    ]
    | inr x ↦ elim (k.directories q j) [
      | inl y ↦
          absurd (longer t p (k.placed p x) (ap (λ (r : WirePath). map lower r) (sym y) ∙ sym h))
      | inr y ↦ apart_equal lower t.records p q k.apart x y h
    ]
  ]

  pub names_cases :
      (t : Targets) (p : WirePath) (n : Text)
      → IsMapped t
      → is_used n (names_in lower numbers listing p (reserved_in p t.reservations)) ≡ false
      → is_used n (reserved_names_of lower (listing p)) ≡ false
  names_cases t p n k h = elim (Option-cases (reserved_in p t.reservations)) [
    | inl c ↦ subst (λ o. is_used n (names_in lower numbers listing p o) ≡ false) c h
    | inr (used, c) ↦
        let away = subst (λ o. is_used n (names_in lower numbers listing p o) ≡ false) c h in
        elim (Bool-cases (is_used n (reserved_names_of lower (listing p)))) [
          | inr d ↦ d
          | inl d ↦ absurd (ground (arith, away, k.listed p used c n d))
        ]
  ]

  -- The new target is no other's, even where case is left out.
  pub new_apart :
      (t : Targets) (parent : WirePath) (name : Text)
      → IsMapped t
      → DirectoryIn parent t.mapped_directories
      → is_used
          (lower name)
          (names_in lower numbers listing parent (reserved_in parent t.reservations))
        ≡ false
      → (q : WirePath) → In q t.records
      → map lower (parent ++ name ∷ []) ≢ map lower q
  new_apart t parent name k i free q j h =
      let l = k.placed q j in
      let parts =
        last_apart lower parent l.parent name l.name
          (h ∙ ap (λ (r : WirePath). map lower r) l.parts) in
      let same = same_directory t parent l.parent k i l.within parts.0 in
      let there = ap (λ p. reserved_in p t.reservations) same ∙ l.reservation in
      let unused =
        subst (λ o. is_used (lower name) (names_in lower numbers listing parent o) ≡ false) there
          free in
      ground (arith, subst (λ n. is_used n l.used ≡ false) parts.1 unused, l.taken)

  pub reserved_first :
      (p q : WirePath) (used : Used) (rest : List (WirePath × Used))
      → ((same_path p q ≡ true) × (reserved_in p ((q, used) ∷ rest) ≡ some used))
        ⊎ ((same_path p q ≡ false) × (reserved_in p ((q, used) ∷ rest) ≡ reserved_in p rest))
  unfolding reserved_in
  reserved_first p q used rest = elim (Bool-cases (same_path p q)) [
    | inl c ↦ inl (c, ground (arith, c))
    | inr c ↦ inr (c, ground (arith, c))
  ]

  pub used_more : (n m : Text) (used : Used) → is_used n used ≡ true → is_used n (m ∷ used) ≡ true
  unfolding is_used
  used_more n m used h = ground (arith, h)

  pub used_first : (n : Text) (used : Used) → is_used n (n ∷ used) ≡ true
  unfolding is_used
  used_first n used = ground (arith, text_eq_refl n)
