-- ===== src/FileStore/Distinct.antt =====
-- Proofs about windows/flowtype-app/src/file_transfer_store.rs: no two entries of a batch get the same
-- target, and none gets that of a file that is there already.
use flow_type.Prelude.{
  Text, ℕ, zero, suc, ◌+◌, ◌≡◌, ◌≢◌, ◌⊎◌, inl, inr, refl, sym, ◌∙◌, ap, arith, Bool, true, false,
  some, List, [], ◌∷◌, ◌++◌, map, length, text_eq, text_eq_iff, text_eq_refl, get, Bool-cases,
  Option-cases,
}
use flow_type.FileTransfer.Names.{sanitize_windows_segment}
use flow_type.FileTransfer.Reservations.{
  Used, is_used, append_collision_suffix, find_number, reserve,
}
use flow_type.FileStore.Targets.{WirePath, same_path, TargetRecord}

pub same_path_equal : (p q : WirePath) → same_path p q ≡ true → p ≡ q
unfolding same_path
same_path_equal [] [] h = refl
same_path_equal [] (t ∷ q) h = ground (arith, h)
same_path_equal (s ∷ p) [] h = ground (arith, h)
same_path_equal (s ∷ p) (t ∷ q) h =
    let first : s ≡ t = (text_eq_iff s t).0 (ground (arith, h)) in
    let rest : p ≡ q = same_path_equal p q (ground (arith, h)) in
    ap (λ x. x ∷ p) first ∙ ap (λ x. t ∷ x) rest

pub same_path_refl : (p : WirePath) → same_path p p ≡ true
unfolding same_path
same_path_refl [] = refl
same_path_refl (s ∷ p) = ground (arith, text_eq_refl s, same_path_refl p)

-- The last names, and what stands before them.
pub last_apart :
    (f : Text → Text) (p q : WirePath) (m n : Text)
    → map f (p ++ m ∷ []) ≡ map f (q ++ n ∷ [])
    → (map f p ≡ map f q) × (f m ≡ f n)
last_apart f [] [] m n h = (refl, ground (arith, h))
last_apart f [] (t ∷ []) m n h = absurd (ground (arith, ap (λ (x : WirePath). length x) h))
last_apart f [] (t ∷ u ∷ q) m n h = absurd (ground (arith, ap (λ (x : WirePath). length x) h))
last_apart f (s ∷ []) [] m n h = absurd (ground (arith, ap (λ (x : WirePath). length x) h))
last_apart f (s ∷ u ∷ p) [] m n h = absurd (ground (arith, ap (λ (x : WirePath). length x) h))
last_apart f (s ∷ p) (t ∷ q) m n h =
    let first : f s ≡ f t = ground (arith, h) in
    let rest = last_apart f p q m n (ground (arith, h)) in
    (ap (λ x. x ∷ map f p) first ∙ ap (λ (x : WirePath). f t ∷ x) rest.0, rest.1)

module _ (lower : Text → Text) where
  find_number_free :
      (rounds : ℕ) (base : Text) (directory : Bool) (number : ℕ) (used : Used) (name : Text)
      → find_number lower rounds base directory number used ≡ some name
      → is_used (lower name) used ≡ false
  unfolding find_number
  find_number_free zero base directory number used name h = ground (arith, h)
  find_number_free (suc rounds) base directory number used name h =
      let candidate = append_collision_suffix base number directory in
      elim (Bool-cases (is_used (lower candidate) used)) [
        | inl c ↦
            find_number_free rounds base directory (number + 1) used name (ground (arith, h, c))
        | inr c ↦ ground (arith, h, c)
      ]

  pub reserved_free :
      (numbers : ℕ) (desired : Text) (directory : Bool) (used after : Used) (name : Text)
      → reserve lower numbers desired directory used ≡ some (name, after)
      → (is_used (lower name) used ≡ false) × (after ≡ lower name ∷ used)
  unfolding reserve
  reserved_free numbers desired directory used after name h =
      let base = sanitize_windows_segment desired in
      elim (Bool-cases (is_used (lower base) used)) [
        | inr c ↦ ground (arith, h, c)
        | inl c ↦ elim (Option-cases (find_number lower numbers base directory 1 used)) [
          | inl d ↦ ground (arith, h, c, d)
          | inr (found, d) ↦
              let free = find_number_free numbers base directory 1 used found d in
              ground (arith, h, c, d, free)
        ]
      ]

-- A target, or a directory's target.
abbrev pub In : WirePath → List TargetRecord → Type 0
In p [] = ⊥
In p (r ∷ rs) = (r.relative_path ≡ p) ⊎ In p rs

abbrev pub DirectoryIn : WirePath → List (Text × WirePath) → Type 0
DirectoryIn p [] = ⊥
DirectoryIn p ((k, q) ∷ rest) = (q ≡ p) ⊎ DirectoryIn p rest

pub get-DirectoryIn :
    (k : Text) (dirs : List (Text × WirePath)) (p : WirePath)
    → get k dirs ≡ some p
    → DirectoryIn p dirs
unfolding get
get-DirectoryIn k [] p h = ground (arith, h)
get-DirectoryIn k ((j, q) ∷ dirs) p h = elim (Bool-cases (text_eq k j)) [
  | inl c ↦ inl (ground (arith, h, c))
  | inr c ↦ inr (get-DirectoryIn k dirs p (ground (arith, h, c)))
]

-- The targets differ, even where case is left out.
abbrev pub AllApart : (Text → Text) → List TargetRecord → Type 0
AllApart lower [] = Unit
AllApart lower (r ∷ rs) =
    ((q : WirePath) → In q rs → map lower r.relative_path ≢ map lower q) × AllApart lower rs

pub apart_equal :
    (lower : Text → Text) (rs : List TargetRecord) (p q : WirePath)
    → AllApart lower rs
    → In p rs
    → In q rs
    → map lower p ≡ map lower q
    → p ≡ q
apart_equal lower [] p q a i j h = absurd i
apart_equal lower (r ∷ rs) p q a (inl x) (inl y) h = sym x ∙ y
apart_equal lower (r ∷ rs) p q a (inl x) (inr y) h = absurd (a.0 q y (ap (map lower) x ∙ h))
apart_equal lower (r ∷ rs) p q a (inr x) (inl y) h = absurd (a.0 p x (ap (map lower) y ∙ sym h))
apart_equal lower (r ∷ rs) p q a (inr x) (inr y) h = apart_equal lower rs p q a.1 x y h
