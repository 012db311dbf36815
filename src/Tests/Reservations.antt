-- ===== src/Tests/Reservations.antt =====
-- The theorem about reservations, at a name that is taken twice.
use flow_type.Prelude.{
  Text, codes, ℕ, zero, suc, ◌+◌, ◌/◌, ◌%◌, ◌<◌, ◌≡◌, refl, ◌∙◌, ap, arith, false, some, List, [],
  ◌∷◌, ◌++◌, ◌&&◌, ltb, leb, if◌then◌else◌, Bool-cases, inl, inr,
}
use flow_type.FileTransfer.Reservations.{is_used, decimal, numbered, reserve}
use flow_type.FileTransfer.Collisions.{reserve_lem}

lowered : Text → Text
lowered [] = []
lowered (c ∷ s) = (if leb b'A' c && leb c b'Z' then c + 32 else c) ∷ lowered s

lowered-append : (s t : Text) → lowered (s ++ t) ≡ lowered s ++ lowered t
unfolding lowered
lowered-append [] t = refl
lowered-append (c ∷ s) t =
    ap (λ r. (if leb b'A' c && leb c b'Z' then c + 32 else c) ∷ r) (lowered-append s t)

lowered_digit : (d : ℕ) → d < 10 → lowered ((b'0' + d) ∷ []) ≡ (b'0' + d) ∷ []
unfolding lowered
lowered_digit d h = ground (arith, h)

lowered-decimal : (k n : ℕ) → lowered (decimal k n) ≡ decimal k n
unfolding decimal
lowered-decimal zero n = lowered_digit (n % 10) (omega arith)
lowered-decimal (suc k) n = elim (Bool-cases (ltb n 10)) [
  | inl e ↦ rw e (lowered_digit n (ground (arith, e)))
  | inr e ↦ rw e (
      lowered-append (decimal k (n / 10)) ((b'0' + n % 10) ∷ [])
      ∙ ap (λ r. r ++ lowered ((b'0' + n % 10) ∷ [])) (lowered-decimal k (n / 10))
      ∙ ap (λ r. decimal k (n / 10) ++ r) (lowered_digit (n % 10) (omega arith)))
]

lowered-numbered : (n : ℕ) → lowered (numbered n) ≡ numbered n
unfolding numbered lowered
lowered-numbered n =
    ap (λ r. b' ' ∷ b'(' ∷ r)
      (lowered-append (decimal 9 n) (b')' ∷ []) ∙ ap (λ r. r ++ b')' ∷ []) (lowered-decimal 9 n))

lowered_apart :
    (s t : Text) (n : ℕ) → lowered (s ++ numbered n ++ t) ≡ lowered s ++ numbered n ++ lowered t
lowered_apart s t n =
    lowered-append (s ++ numbered n) t
    ∙ ap (λ r. r ++ lowered t)
        (lowered-append s (numbered n) ∙ ap (λ r. lowered s ++ r) (lowered-numbered n))

abbrev taken : List Text
taken = codes "a.txt" ∷ codes "a (1).txt" ∷ []

reserve_lem_example :
    (name : Text) × (reserve lowered 5 (codes "A.txt") false taken
      ≡ some (name, lowered name ∷ taken))
    × (is_used (lowered name) taken ≡ false)
reserve_lem_example =
    reserve_lem lowered 5 (codes "A.txt") false taken lowered_apart (omega arith) (omega arith)
