-- ===== src/FileTransfer/Collisions.antt =====
-- Proofs about windows/flowtype-core/src/file_transfer.rs: a reservation finds a name that is free.
use flow_type.Prelude.{
  Text, ℕ, zero, suc, ◌+◌, ◌-◌, ◌^◌, ◌≤◌, ◌<◌, ◌≡◌, ◌≢◌, inl, inr, refl, sym, ◌∙◌, ap, arith, Bool,
  true, false, some, [], ◌∷◌, ◌++◌, ◌==◌, length, text_eq, text_eq_iff, if◌then◌else◌, Bool-cases,
}
use flow_type.FileTransfer.Paths.{utf16_count}
use flow_type.FileTransfer.Names.{truncate_utf16, sanitize_windows_segment}
use flow_type.FileTransfer.Reservations.{
  Used, is_used, numbered, name_parts, append_collision_suffix, find_number, reserve,
}
use flow_type.FileTransfer.Numbers.{numbered_once}

without : Text → Used → Used
without k [] = []
without k (u ∷ us) = if text_eq k u then without k us else u ∷ without k us

without_fewer : (k : Text) (us : Used) → length (without k us) ≤ length us
unfolding without
without_fewer k [] = omega arith
without_fewer k (u ∷ us) = ground (arith, without_fewer k us)

without_used : (k : Text) (us : Used) → is_used k us ≡ true → length (without k us) < length us
unfolding without is_used
without_used k [] h = absurd (ground (arith, h))
without_used k (u ∷ us) h = elim (Bool-cases (text_eq k u)) [
  | inl e ↦ ground (arith, e, without_fewer k us)
  | inr e ↦ ground (arith, e, without_used k us (ground (arith, h, e)))
]

used_without : (j k : Text) (us : Used) → j ≢ k → is_used j (without k us) ≡ is_used j us
unfolding without is_used
used_without j k [] n = refl
used_without j k (u ∷ us) n =
    ground (arith, n, used_without j k us n, text_eq_iff j u, text_eq_iff k u)

-- A number from `start` on whose key is free, within as many as there are keys in use and one more.
abbrev Free : (ℕ → Text) → ℕ → ℕ → Used → Type 0
Free key rounds start used =
    (i : ℕ) × (start ≤ i) × (i < start + rounds) × (is_used (key i) used ≡ false)

unused_number :
    (key : ℕ → Text) (rounds start : ℕ) (used : Used)
    → ((i j : ℕ) → i < start + rounds → j < start + rounds → key i ≡ key j → i ≡ j)
    → length used < rounds
    → Free key rounds start used
unused_number key zero start used once h = absurd (omega (arith, h))
unused_number key (suc rounds) start used once h = elim (Bool-cases (is_used (key start) used)) [
  | inr e ↦ (start, omega arith, omega arith, e)
  | inl e ↦
      let f =
        unused_number key rounds (start + 1) (without (key start) used)
          (λ i j p q. once i j (omega (arith, p)) (omega (arith, q)))
          (omega (arith, h, without_used (key start) used e)) in
      let other : key f.0 ≢ key start =
        λ g. omega (arith, f.1, once f.0 start (omega (arith, f.2)) (omega arith) g) in
      (
        f.0,
        omega (arith, f.1),
        omega (arith, f.2),
        sym (used_without (key f.0) (key start) used other) ∙ f.3,
      )
]

past : (p : ℕ → Bool) (i s : ℕ) → s ≤ i → p i ≡ false → p s ≡ true → s + 1 ≤ i
past p i s h f t = elim (Bool-cases (i == s)) [
  | inr e ↦ ground (arith, h, e)
  | inl e ↦ let q : i ≡ s = ground (arith, e) in absurd (ground (arith, ap p q, f, t))
]

find_number_lem :
    (lower : Text → Text) (rounds : ℕ) (base : Text) (directory : Bool) (start : ℕ) (used : Used)
    → Free (λ i. lower (append_collision_suffix base i directory)) rounds start used
    → (name : Text) × (find_number lower rounds base directory start used ≡ some name)
      × (is_used (lower name) used ≡ false)
unfolding find_number
find_number_lem lower zero base directory start used f = absurd (omega (arith, f.1, f.2))
find_number_lem lower (suc rounds) base directory start used f =
    let candidate = append_collision_suffix base start directory in
    elim (Bool-cases (is_used (lower candidate) used)) [
      | inr e ↦ (candidate, ground (arith, e), e)
      | inl e ↦
          let later = find_number_lem lower rounds base directory (start + 1) used (
            f.0,
            past (λ i. is_used (lower (append_collision_suffix base i directory)) used) f.0 start
                f.1 f.3 e,
            omega (arith, f.2),
            f.3,
          ) in
          (later.0, ground (arith, e, later.1), later.2)
    ]

candidate_parts :
    (lower : Text → Text) (base : Text) (directory : Bool) (i : ℕ)
    → ((s t : Text) (n : ℕ) → lower (s ++ numbered n ++ t) ≡ lower s ++ numbered n ++ lower t)
    → (stem : Text) × (lower (append_collision_suffix base i directory)
        ≡ stem ++ numbered i ++ lower (name_parts base directory).1)
unfolding append_collision_suffix
candidate_parts lower base directory i apart =
    let extension = (name_parts base directory).1 in
    let stem =
      truncate_utf16 (240 - (utf16_count (numbered i) + utf16_count extension))
        (name_parts base directory).0 in
    (lower stem, apart stem extension i)

candidates_differ :
    (lower : Text → Text) (base : Text) (directory : Bool) (i j : ℕ)
    → ((s t : Text) (n : ℕ) → lower (s ++ numbered n ++ t) ≡ lower s ++ numbered n ++ lower t)
    → i < 10 ^ 10
    → j < 10 ^ 10
    → lower (append_collision_suffix base i directory)
      ≡ lower (append_collision_suffix base j directory)
    → i ≡ j
candidates_differ lower base directory i j apart h k e =
    let a = candidate_parts lower base directory i apart in
    let b = candidate_parts lower base directory j apart in
    numbered_once a.0 b.0 (lower (name_parts base directory).1) i j h k (sym a.1 ∙ e ∙ b.1)

-- A reservation ends: where lower case keeps a number in parentheses and treats what stands before and
-- behind it apart, and fewer names are in use than there are numbers (those of a u32 at most), some name
-- is reserved. It was not in use, in lower case, and is the only name added.
pub reserve_lem :
    (lower : Text → Text) (numbers : ℕ) (desired : Text) (directory : Bool) (used : Used)
    → ((s t : Text) (n : ℕ) → lower (s ++ numbered n ++ t) ≡ lower s ++ numbered n ++ lower t)
    → length used < numbers
    → numbers < 2 ^ 32
    → (name : Text) × (reserve lower numbers desired directory used
        ≡ some (name, lower name ∷ used))
      × (is_used (lower name) used ≡ false)
unfolding reserve
reserve_lem lower numbers desired directory used apart h k =
    let base = sanitize_windows_segment desired in
    elim (Bool-cases (is_used (lower base) used)) [
      | inr e ↦ (base, ground (arith, e), e)
      | inl e ↦
          let key : ℕ → Text = λ i. lower (append_collision_suffix base i directory) in
          let once : (i j : ℕ) → i < 1 + numbers → j < 1 + numbers → key i ≡ key j → i ≡ j =
            λ i j p q.
              candidates_differ lower base directory i j apart (omega (arith, p, k))
                (omega (arith, q, k)) in
          let found =
            find_number_lem lower numbers base directory 1 used
              (unused_number key numbers 1 used once h) in
          (found.0, ground (arith, e, found.1), found.2)
    ]
