-- ===== src/FileStore/Preparing.antt =====
-- Proofs about windows/flowtype-app/src/file_transfer_store.rs: the targets of a whole manifest.
use flow_type.Prelude.{
  Text, ℕ, ◌≡◌, ◌⊎◌, inl, inr, sym, ◌∙◌, ap, subst, arith, true, false, not, none, some, List, [],
  ◌∷◌, ◌++◌, if◌then◌else◌, get, Bool-cases, Option-cases,
}
use flow_type.FileTransfer.Names.{sanitize_windows_segment}
use flow_type.FileTransfer.Messages.{ManifestEntry, is_file}
use flow_type.FileTransfer.Reservations.{Used, is_used, reserved_names_of, reserve}
use flow_type.FileStore.Targets.{
  WirePath, reserved_in, Targets, no_targets, parent_and_name, names_in, with_target, target_in,
  map_target,
}
use flow_type.FileStore.Distinct.{
  same_path_equal, same_path_refl, reserved_free, In, DirectoryIn, get-DirectoryIn,
}
use flow_type.FileStore.Mapped.{
  Placement, IsMapped, names_cases, new_apart, reserved_first, used_more, used_first,
}

module _ (lower : Text → Text) (numbers : ℕ) (listing : WirePath → List Text) where
  -- The targets with one more.
  abbrev with_one : ManifestEntry → WirePath → Text → Targets → Targets
  with_one e parent name t =
      let path : WirePath = parent ++ name ∷ [] in
      record {
        mapped_directories =
            if is_file e.kind
            then t.mapped_directories
            else (e.relative_path, path) ∷ t.mapped_directories;
        reservations =
            (
              parent,
              lower name
                  ∷ names_in lower numbers listing parent (reserved_in parent t.reservations),
            )
            ∷ t.reservations;
        source_paths = lower e.relative_path ∷ t.source_paths;
        records = record { ordinal = e.ordinal; relative_path = path } ∷ t.records;
      }

  still_there :
      (e : ManifestEntry) (parent : WirePath) (name : Text) (t : Targets) (p : WirePath)
      → DirectoryIn p t.mapped_directories
      → DirectoryIn p (with_one e parent name t).mapped_directories
  still_there e parent name t p i = elim (Bool-cases (is_file e.kind)) [
    | inl c ↦ subst (DirectoryIn p) {x = t.mapped_directories} (ground (arith, c)) i
    | inr c ↦
        subst (DirectoryIn p) {x = (e.relative_path, parent ++ name ∷ []) ∷ t.mapped_directories}
          (ground (arith, c)) (inr i)
  ]

  came_there :
      (e : ManifestEntry) (parent : WirePath) (name : Text) (t : Targets) (p : WirePath)
      → DirectoryIn p (with_one e parent name t).mapped_directories
      → (parent ++ name ∷ [] ≡ p) ⊎ DirectoryIn p t.mapped_directories
  came_there e parent name t p i = elim (Bool-cases (is_file e.kind)) [
    | inl c ↦ inr (subst (DirectoryIn p) {y = t.mapped_directories} (ground (arith, c)) i)
    | inr c ↦
        subst (DirectoryIn p) {y = (e.relative_path, parent ++ name ∷ []) ∷ t.mapped_directories}
          (ground (arith, c)) i
  ]

  reserved_self :
      (p : WirePath) (used : Used) (rest : List (WirePath × Used))
      → reserved_in p ((p, used) ∷ rest) ≡ some used
  unfolding reserved_in
  reserved_self p used rest = ground (arith, same_path_refl p)

  still_used :
      (parent q : WirePath) (n : Text) (used : Used) (t : Targets)
      → q ≡ parent
      → reserved_in q t.reservations ≡ some used
      → is_used n used ≡ true
      → is_used n (names_in lower numbers listing parent (reserved_in parent t.reservations)) ≡ true
  still_used parent q n used t same there h =
      subst (λ o. is_used n (names_in lower numbers listing parent o) ≡ true)
        (sym (ap (λ p. reserved_in p t.reservations) (sym same) ∙ there)) h

  one-listed :
      (parent : WirePath) (name : Text) (t : Targets) (p : WirePath) (used : Used)
      → IsMapped lower numbers listing t
      → reserved_in p (
          (
            parent,
            lower name ∷ names_in lower numbers listing parent (reserved_in parent t.reservations),
          )
          ∷ t.reservations)
        ≡ some used
      → (n : Text) → is_used n (reserved_names_of lower (listing p)) ≡ true
      → is_used n used ≡ true
  one-listed parent name t p used k h n m =
      let before = names_in lower numbers listing parent (reserved_in parent t.reservations) in
      elim (reserved_first lower numbers listing p parent (lower name ∷ before) t.reservations) [
        | inr (other, there) ↦ k.listed p used (sym there ∙ h) n m
        | inl (same, there) ↦
            let listed =
              subst (λ q. is_used n (reserved_names_of lower (listing q)) ≡ true)
                (same_path_equal p parent same) m in
            subst (λ u. is_used n u ≡ true) (some_equal (lower name ∷ before) used (sym there ∙ h))
              (used_more lower numbers listing n (lower name) before
                (elim (Option-cases (reserved_in parent t.reservations)) [
                  | inl c ↦
                      subst (λ o. is_used n (names_in lower numbers listing parent o) ≡ true)
                        (sym c) listed
                  | inr (u, c) ↦
                      subst (λ o. is_used n (names_in lower numbers listing parent o) ≡ true)
                        (sym c) (k.listed parent u c n listed)
                ]))
      ]
    where
      some_equal : (a b : Used) → some a ≡ some b → a ≡ b
      some_equal a b h = ground (arith, h)

  one-placed :
      (e : ManifestEntry) (parent : WirePath) (name : Text) (t : Targets)
      → IsMapped lower numbers listing t
      → DirectoryIn parent t.mapped_directories
      → is_used
          (lower name)
          (names_in lower numbers listing parent (reserved_in parent t.reservations))
        ≡ false
      → (p : WirePath) → (parent ++ name ∷ [] ≡ p) ⊎ In p t.records
      → Placement lower numbers listing (with_one e parent name t) p
  one-placed e parent name t k i free p (inl h) =
      let used : Used =
        lower name ∷ names_in lower numbers listing parent (reserved_in parent t.reservations) in
      record {
        parent = parent;
        name = name;
        used = used;
        parts = sym h;
        within = still_there e parent name t parent i;
        reservation = reserved_self parent used t.reservations;
        taken =
            used_first lower numbers listing (lower name)
              (names_in lower numbers listing parent (reserved_in parent t.reservations));
        absent = names_cases lower numbers listing t parent (lower name) k free;
      }
  one-placed e parent name t k i free p (inr j) =
      let l = k.placed p j in
      let before = names_in lower numbers listing parent (reserved_in parent t.reservations) in
      elim (reserved_first lower numbers listing l.parent parent (lower name ∷ before)
        t.reservations) [
          | inl (same, there) ↦ record {
            parent = l.parent;
            name = l.name;
            used = lower name ∷ before;
            parts = l.parts;
            within = still_there e parent name t l.parent l.within;
            reservation = there;
            taken = used_more lower numbers listing (lower l.name) (lower name) before (
                still_used parent l.parent (lower l.name) l.used t
                  (same_path_equal l.parent parent same) l.reservation l.taken);
            absent = l.absent;
          }
          | inr (other, there) ↦ record {
            parent = l.parent;
            name = l.name;
            used = l.used;
            parts = l.parts;
            within = still_there e parent name t l.parent l.within;
            reservation = there ∙ l.reservation;
            taken = l.taken;
            absent = l.absent;
          }
        ]

  one-IsMapped :
      (e : ManifestEntry) (parent : WirePath) (name : Text) (t : Targets)
      → IsMapped lower numbers listing t
      → DirectoryIn parent t.mapped_directories
      → is_used
          (lower name)
          (names_in lower numbers listing parent (reserved_in parent t.reservations))
        ≡ false
      → IsMapped lower numbers listing (with_one e parent name t)
  one-IsMapped e parent name t k i free = record {
    apart = (λ q j. new_apart lower numbers listing t parent name k i free q j, k.apart);
    directories = λ p j. elim (came_there e parent name t p j) [
      | inl h ↦ inr (inl h)
      | inr h ↦ elim (k.directories p h) [ inl x ↦ inl x | inr x ↦ inr (inr x) ]
    ];
    placed = λ p j. one-placed e parent name t k i free p j;
    listed = λ p used h n m. one-listed parent name t p used k h n m;
  }

  target_in_cases :
      (e : ManifestEntry) (name : Text) (parent : WirePath) (t after : Targets)
      → target_in lower numbers listing e name parent t ≡ some after
      → (new : Text) × (is_used
            (lower new)
            (names_in lower numbers listing parent (reserved_in parent t.reservations))
          ≡ false)
        × (after ≡ with_one e parent new t)
  unfolding target_in
  target_in_cases e name parent t after h =
      let before = names_in lower numbers listing parent (reserved_in parent t.reservations) in
      let choice =
        reserve lower numbers (sanitize_windows_segment name) (not (is_file e.kind)) before in
      elim (Option-cases choice) [
        | inl c ↦
            absurd (none_some after (sym (ap (with_target lower numbers listing e parent t) c) ∙ h))
        | inr ((new, used), c) ↦
            let free =
              reserved_free lower numbers (sanitize_windows_segment name) (not (is_file e.kind))
                before used new c in
            (
              new,
              free.0,
              some_targets after (with_one e parent new t) (
                  sym h
                  ∙ ap (with_target lower numbers listing e parent t) c
                  ∙ ap (λ u. with_target lower numbers listing e parent t (some (new, u))) free.1),
            )
      ]
    where
      none_some : (a : Targets) → none ≡ some a → ⊥
      none_some a h = ground (arith, h)

      some_targets : (a b : Targets) → some a ≡ some b → a ≡ b
      some_targets a b h = ground (arith, h)

  map_target_cases :
      (e : ManifestEntry) (t after : Targets)
      → map_target lower numbers listing e t ≡ some after
      → (path : WirePath) × DirectoryIn path t.mapped_directories
        × (target_in lower numbers listing e (parent_and_name e.relative_path).1 path t
            ≡ some after)
  unfolding map_target
  map_target_cases e t after h =
      elim (Option-cases (get (parent_and_name e.relative_path).0 t.mapped_directories)) [
        | inl c ↦ absurd (ground (arith, h, c))
        | inr (path, c) ↦ (
          path,
          get-DirectoryIn (parent_and_name e.relative_path).0 t.mapped_directories path c,
          ground (arith, h, c),
        )
      ]

  pub map_target-IsMapped :
      (e : ManifestEntry) (t after : Targets)
      → IsMapped lower numbers listing t
      → map_target lower numbers listing e t ≡ some after
      → IsMapped lower numbers listing after
  map_target-IsMapped e t after k h =
      let found = map_target_cases e t after h in
      let one = target_in_cases e (parent_and_name e.relative_path).1 found.0 t after found.2 in
      subst (IsMapped lower numbers listing) (sym one.2)
        (one-IsMapped e found.0 one.0 t k found.1 one.1)

  none_reserved :
      (p : WirePath) (used : Used) (n : Text) → reserved_in p [] ≡ some used → is_used n used ≡ true
  unfolding reserved_in
  none_reserved p used n h = ground (arith, h)

  pub no_targets-IsMapped : IsMapped lower numbers listing no_targets
  no_targets-IsMapped = record {
    apart = tt;
    directories = λ p i. ground (arith, i);
    placed = λ p j. absurd j;
    listed = λ p used h n m. none_reserved p used n h;
  }
