-- ===== src/FileServer/Leases.antt =====
-- Proofs about windows/flowtype-app/src/file_transfer_server.rs: which requests and jobs work on one entry
-- at a time, and how many jobs there are. The requests and jobs take the coordinator's locks in any order.
use flow_type.Prelude.{
  ◌≤◌, ◌≡◌, inl, inr, refl, ◌∙◌, ap, subst, arith, Bool, true, false, List, [], ◌∷◌, length,
  text_eq_iff, is_some, Bool-cases,
}
use flow_type.FileServer.{Answer}
use flow_type.FileServer.Operations.{
  Key, same_key, VerificationJob, find, without, keeping, set_result,
}

pub same_key_equal : (j k : Key) → same_key j k ≡ true → j ≡ k
unfolding same_key
same_key_equal (a, b) (c, d) h =
    let first = (text_eq_iff a c).0 (ground (arith, h)) in
    let second = (text_eq_iff b d).0 (ground (arith, h)) in
    ap (λ x. (x, b)) first ∙ ap (λ x. (c, x)) second

same_key_self : (k : Key) → same_key k k ≡ true
unfolding same_key
same_key_self (a, b) =
    let first = (text_eq_iff a a).1 refl in
    let second = (text_eq_iff b b).1 refl in ground (arith, first, second)

pub other_key : (j k : Key) → same_key k j ≡ false → same_key j k ≡ false
other_key j k h = elim (Bool-cases (same_key j k)) [
  | inr c ↦ c
  | inl c ↦
      ground (arith, h, subst (λ x. same_key x j ≡ true) (same_key_equal j k c) (same_key_self j))
]

module _ {ℓ} {A : Type ℓ} where
  -- Where a key is not, it stays away.
  pub find-without_none :
      (k j : Key) (m : List (Key × A))
      → is_some (find k m) ≡ false
      → is_some (find k (without j m)) ≡ false
  unfolding find without
  find-without_none k j [] h = refl
  find-without_none k j ((i, a) ∷ m) h =
      let rest = find-without_none k j m in
      elim (Bool-cases (same_key j i)) [
        | inl c ↦ ground (arith, c, h, rest)
        | inr c ↦ ground (arith, c, h, rest)
      ]

  pub find-keeping_none :
      (test : A → Bool) (k : Key) (m : List (Key × A))
      → is_some (find k m) ≡ false
      → is_some (find k (keeping test m)) ≡ false
  unfolding find keeping
  find-keeping_none test k [] h = refl
  find-keeping_none test k ((i, a) ∷ m) h =
      let rest = find-keeping_none test k m in
      elim (Bool-cases (test a)) [
        | inl c ↦ ground (arith, c, h, rest)
        | inr c ↦ ground (arith, c, h, rest)
      ]

  pub length-without : (k : Key) (m : List (Key × A)) → length (without k m) ≤ length m
  unfolding without
  length-without k [] = omega arith
  length-without k ((i, a) ∷ m) =
      let rest = length-without k m in
      elim (Bool-cases (same_key k i)) [
        | inl c ↦ ground (arith, c, rest)
        | inr c ↦ ground (arith, c, rest)
      ]

  pub length-keeping : (test : A → Bool) (m : List (Key × A)) → length (keeping test m) ≤ length m
  unfolding keeping
  length-keeping test [] = omega arith
  length-keeping test ((i, a) ∷ m) =
      let rest = length-keeping test m in
      elim (Bool-cases (test a)) [
        | inl c ↦ ground (arith, c, rest)
        | inr c ↦ ground (arith, c, rest)
      ]

pub find-set_result :
    (k j : Key) (r : Answer (Unit {0})) (m : List (Key × VerificationJob))
    → is_some (find k m) ≡ false
    → is_some (find k (set_result j r m)) ≡ false
unfolding find set_result
find-set_result k j r [] h = refl
find-set_result k j r ((i, job) ∷ m) h =
    let rest = find-set_result k j r m in ground (arith, h, rest)

pub length-set_result :
    (j : Key) (r : Answer (Unit {0})) (m : List (Key × VerificationJob))
    → length (set_result j r m) ≡ length m
unfolding set_result
length-set_result j r [] = refl
length-set_result j r ((i, job) ∷ m) = omega (arith, length-set_result j r m)
