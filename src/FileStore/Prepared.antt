-- ===== src/FileStore/Prepared.antt =====
-- Proofs about windows/flowtype-app/src/file_transfer_store.rs: what every visit keeps, the walk keeps; so the
-- targets of a manifest are apart.
use flow_type.Prelude.{
  Text, ℕ, zero, suc, ◌+◌, ◌≡◌, inl, inr, refl, sym, ◌∙◌, ap, subst, arith, ◌&&◌, Option, none,
  some, List, ◌==◌, length, drop, is_empty, text_eq, if◌then◌else◌, Bool-cases, Option-cases,
}
use flow_type.FileTransfer.Messages.{ManifestEntry}
use flow_type.FileStore.Manifests.{
  ManifestComplete, Manifest, read_line, pop_newline, read_manifest_complete,
}
use flow_type.FileStore.Walk.{
  visited, line_visited, line_read, walk, matching, for_each_manifest_entry,
}
use flow_type.FileStore.Targets.{WirePath, Targets, no_targets, map_target, prepared_targets}
use flow_type.FileStore.Mapped.{IsMapped}
use flow_type.FileStore.Preparing.{map_target-IsMapped, no_targets-IsMapped}

module _ (encode : ManifestEntry → Option (List ℕ)) (decode : List ℕ → Option ManifestEntry) where
  module _ {ℓ κ} {S : Type ℓ} (Keeps : S → Type κ) (visit : ManifestEntry → S → Option S)
      (visit-keeps : (e : ManifestEntry) (s t : S) → Keeps s → visit e s ≡ some t → Keeps t) where
    abbrev found : ℕ → S → Option (ℕ × S)
    found n s = some (n, s)

    same_state : (m n : ℕ) (s t : S) → found m s ≡ found n t → s ≡ t
    same_state m n s t h = ap state_of h
      where
        state_of : Option (ℕ × S) → S
        state_of none = s
        state_of (some (n, u)) = u

    line_visited-keeps :
        (go : S → Option (ℕ × S)) (s : S) (n : ℕ) (t : S)
        → ((u : S) → Keeps u → go u ≡ found n t → Keeps t)
        → Keeps s
        → (o : Option ManifestEntry) → line_visited encode decode visit go s o ≡ found n t
        → Keeps t
    line_visited-keeps go s n t g k none h = absurd (ground (arith, h))
    line_visited-keeps go s n t g k (some e) h = elim (Option-cases (visit e s)) [
      | inl c ↦ absurd (none_found (sym (ap (visited encode decode go) c) ∙ h))
      | inr (u, c) ↦ g u (visit-keeps e s u k c) (sym (ap (visited encode decode go) c) ∙ h)
    ]
      where
        none_found : none ≡ found n t → ⊥
        none_found h = ground (arith, h)

    walk-keeps :
        (fuel ordinal : ℕ) (file : List ℕ) (s : S) (n : ℕ) (t : S)
        → Keeps s
        → walk encode decode visit fuel ordinal file s ≡ found n t
        → Keeps t
    unfolding walk
    walk-keeps zero ordinal file s n t k h = subst Keeps (same_state ordinal n s t h) k
    walk-keeps (suc fuel) ordinal file s n t k h =
        let line = read_line file in
        let go = walk encode decode visit fuel (ordinal + 1) (drop (length line) file) in
        let next =
          line_visited encode decode visit go s
            (line_read encode decode ordinal (pop_newline line)) in
        elim (Bool-cases (is_empty file)) [
          | inl c ↦
              subst Keeps
                (same_state ordinal n s t
                  (sym (ap (λ b. if b then found ordinal s else next) c) ∙ h))
                k
          | inr c ↦
              line_visited-keeps go s n t
                (λ u l g. walk-keeps fuel (ordinal + 1) (drop (length line) file) u n t l g) k
                (line_read encode decode ordinal (pop_newline line))
                (sym (ap (λ b. if b then found ordinal s else next) c) ∙ h)
        ]

    matching-keeps :
        (digest : List ℕ → Text) (m : Manifest) (completed : ManifestComplete) (t : S)
        (o : Option (ℕ × S))
        → ((n : ℕ) (u : S) → o ≡ found n u → Keeps u)
        → matching encode decode digest m completed o ≡ some t
        → Keeps t
    unfolding matching
    matching-keeps digest m completed t none k h = absurd (ground (arith, h))
    matching-keeps digest m completed t (some (n, u)) k h =
        elim (Bool-cases (n == completed.entry_count && text_eq (digest m.file) completed.sha256)) [
          | inl c ↦
              subst Keeps (some_state u t (sym (ap (λ b. if b then some u else none) c) ∙ h))
                (k n u refl)
          | inr c ↦ absurd (none_state (sym (ap (λ b. if b then some u else none) c) ∙ h))
        ]
      where
        some_state : (a b : S) → some a ≡ some b → a ≡ b
        some_state a b h = ground (arith, h)

        none_state : {t : S} → none ≡ some t → ⊥
        none_state h = ground (arith, h)

    -- What every visit keeps holds in the end.
    pub for_each-keeps :
        (digest : List ℕ → Text) (m : Manifest) (s t : S)
        → Keeps s
        → for_each_manifest_entry encode decode digest visit m s ≡ some t
        → Keeps t
    unfolding for_each_manifest_entry
    for_each-keeps digest m s t k h = elim (Option-cases (read_manifest_complete m)) [
      | inl c ↦ absurd (ground (arith, h, c))
      | inr (completed, c) ↦
          matching-keeps digest m completed t (walk encode decode visit (length m.file) 0 m.file s)
            (λ n u g. walk-keeps (length m.file) 0 m.file s n u k g) (ground (arith, h, c))
    ]

-- The targets that are prepared for a manifest, whatever its entries are: no two of them are the same, even
-- where case is left out, and each stands in the folder that receives or in a directory's target, under a
-- name that was not in there, in lower case, when the first name was reserved in it.
pub prepared_targets-IsMapped :
    (lower : Text → Text) (numbers : ℕ) (listing : WirePath → List Text)
    (encode : ManifestEntry → Option (List ℕ)) (decode : List ℕ → Option ManifestEntry)
    (digest : List ℕ → Text) (m : Manifest) (t : Targets)
    → prepared_targets lower numbers listing encode decode digest m ≡ some t
    → IsMapped lower numbers listing t
unfolding prepared_targets
prepared_targets-IsMapped lower numbers listing encode decode digest m t h =
    for_each-keeps encode decode (IsMapped lower numbers listing) (map_target lower numbers listing)
      (λ e s u. map_target-IsMapped lower numbers listing e s u) digest m no_targets t
      (no_targets-IsMapped lower numbers listing) h
