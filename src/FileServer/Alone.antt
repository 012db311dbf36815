-- ===== src/FileServer/Alone.antt =====
-- Proofs about windows/flowtype-app/src/file_transfer_server.rs: in any order of the moves, no two requests
-- work on one entry, and a request works beside no job where none polls between its two locks.
use flow_type.Prelude.{
  Text, ◌≡◌, ◌⊎◌, inl, inr, sym, ap, subst, arith, Bool, true, false, List, [], ◌∷◌, any, is_some,
  Bool-cases,
}
use flow_type.FileServer.Operations.{
  Key, same_key, find, without, Coordination, resource, verifies, lease,
}
use flow_type.FileServer.Leases.{same_key_equal, find-without_none}
use flow_type.FileServer.Sharing.{drop_first}
use flow_type.FileServer.Disjoint.{Jobs, Apart, Undisturbed, Unhindered}

pub without-Apart : (k : Key) (l : List (Key × Bool)) → Apart l → Apart (without k l)
unfolding without
without-Apart k [] h = tt
without-Apart k ((j, v) ∷ l) h =
    let rest = without-Apart k l h.1 in
    let away = find-without_none j k l h.0 in
    elim (Bool-cases (same_key k j)) [
      | inl c ↦ subst Apart {x = without k l} (ground (arith, c)) rest
      | inr c ↦ subst Apart {x = (j, v) ∷ without k l} (ground (arith, c)) (away, rest)
    ]

pub without-Undisturbed :
    (k : Key) (jobs : Jobs) (l : List (Key × Bool))
    → Undisturbed jobs l
    → Undisturbed jobs (without k l)
unfolding without
without-Undisturbed k jobs [] u = tt
without-Undisturbed k jobs ((j, v) ∷ l) u =
    let rest = without-Undisturbed k jobs l u.1 in
    elim (Bool-cases (same_key k j)) [
      | inl c ↦ subst (Undisturbed jobs) {x = without k l} (ground (arith, c)) rest
      | inr c ↦ subst (Undisturbed jobs) {x = (j, v) ∷ without k l} (ground (arith, c)) (u.0, rest)
    ]

pub drop_first-Unhindered :
    (k : Key) (jobs : Jobs) (l : List Key) → Unhindered jobs l → Unhindered jobs (drop_first k l)
unfolding drop_first
drop_first-Unhindered k jobs [] u = tt
drop_first-Unhindered k jobs (j ∷ l) u =
    let rest = drop_first-Unhindered k jobs l u.1 in
    elim (Bool-cases (same_key k j)) [
      | inl c ↦ subst (Unhindered jobs) {x = l} (ground (arith, c)) u.1
      | inr c ↦ subst (Unhindered jobs) {x = j ∷ drop_first k l} (ground (arith, c)) (u.0, rest)
    ]

-- A request that looked finds no job still.
pub looked_clear :
    (b a : Text) (jobs : Jobs) (l : List Key)
    → any (same_key (b, a)) l ≡ true
    → Unhindered jobs l
    → verifies a ≡ false
    → is_some (find (b, resource a) jobs) ≡ false
looked_clear b a jobs [] h u v = ground (arith, h)
looked_clear b a jobs (j ∷ l) h u v = elim (Bool-cases (same_key (b, a) j)) [
  | inl c ↦
      let same = same_key_equal (b, a) j c in
      subst (λ (x : Key). verifies x.1 ≡ false → is_some (find (x.0, resource x.1) jobs) ≡ false)
        (sym same) u.0 v
  | inr c ↦ looked_clear b a jobs l (ground (arith, c, h)) u.1 v
]

module _ (b a : Text) (c : Coordination) where
  lease_cases :
      ((lease b a c).1 ≡ c)
      ⊎ ((is_some (find (b, resource a) c.operations) ≡ false)
          × ((lease b a c).1
              ≡ record c { operations = ((b, resource a), verifies a) ∷ c.operations }))
  unfolding lease
  lease_cases = elim (Bool-cases (is_some (find (b, resource a) c.operations))) [
    | inl p ↦ inl (ground (arith, p))
    | inr p ↦ inr (p, ground (arith, p))
  ]

  pub lease-Apart : Apart c.operations → Apart (lease b a c).1.operations
  lease-Apart h = elim lease_cases [
    | inl p ↦ subst (λ (x : Coordination). Apart x.operations) (sym p) h
    | inr (n, p) ↦ subst (λ (x : Coordination). Apart x.operations) (sym p) (n, h)
  ]

  pub lease_jobs : (lease b a c).1.verifications ≡ c.verifications
  lease_jobs = elim lease_cases [
    | inl p ↦ ap (λ (x : Coordination). x.verifications) p
    | inr (n, p) ↦ ap (λ (x : Coordination). x.verifications) p
  ]

  pub lease-Undisturbed :
      (verifies a ≡ false → is_some (find (b, resource a) c.verifications) ≡ false)
      → Undisturbed c.verifications c.operations
      → Undisturbed (lease b a c).1.verifications (lease b a c).1.operations
  lease-Undisturbed v h = elim lease_cases [
    | inl p ↦ subst (λ (x : Coordination). Undisturbed x.verifications x.operations) (sym p) h
    | inr (n, p) ↦
        subst (λ (x : Coordination). Undisturbed x.verifications x.operations) (sym p) (v, h)
  ]
