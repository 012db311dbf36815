-- ===== src/FileTransfer/Numbers.antt =====
-- Proofs about windows/flowtype-core/src/file_transfer.rs: names with different numbers in parentheses
-- are different.
use flow_type.Prelude.{
  Text, ℕ, zero, suc, ◌+◌, ◌-◌, ◌*◌, ◌/◌, ◌%◌, ◌^◌, ◌<◌, ◌≡◌, refl, sym, ◌∙◌, ap, arith, [], ◌∷◌,
  ◌++◌, ◌==◌, ltb, length, length-append, if◌then◌else◌, Bool-cases, inl, inr,
}
use flow_type.FileTransfer.Reservations.{decimal, numbered}

-- The number that stands behind the last parenthesis.
abbrev read_char : ℕ → ℕ → ℕ
read_char a c = if c == b'(' then 0 else if c == b')' then a else a * 10 + (c - b'0')

abbrev read_number : ℕ → Text → ℕ
read_number a [] = a
read_number a (c ∷ s) = read_number (read_char a c) s

read_number-append : (a : ℕ) (s t : Text) → read_number a (s ++ t) ≡ read_number (read_number a s) t
read_number-append a [] t = refl
read_number-append a (c ∷ s) t = read_number-append (read_char a c) s t

-- The numbers with this many digits after the first.
abbrev ten_to : ℕ → ℕ
ten_to zero = 10
ten_to (suc k) = 10 * ten_to k

read_digit : (a d : ℕ) → d < 10 → read_char a (b'0' + d) ≡ a * 10 + d
read_digit a d h = ground (arith, h)

read_decimal : (k n : ℕ) → n < ten_to k → read_number 0 (decimal k n) ≡ n
unfolding decimal
read_decimal zero n h = read_digit 0 (n % 10) (omega arith) ∙ omega (arith, h)
read_decimal (suc k) n h = elim (Bool-cases (ltb n 10)) [
  | inl e ↦ rw e (read_digit 0 n (ground (arith, e)) ∙ omega arith)
  | inr e ↦ rw e (
      read_number-append 0 (decimal k (n / 10)) ((b'0' + n % 10) ∷ [])
      ∙ ap (λ a. read_char a (b'0' + n % 10)) (read_decimal k (n / 10) (omega (arith, h)))
      ∙ read_digit (n / 10) (n % 10) (omega arith)
      ∙ omega arith)
]

read_numbered : (s : Text) (n : ℕ) → n < ten_to 9 → read_number 0 (s ++ numbered n) ≡ n
unfolding numbered
read_numbered s n h =
    read_number-append 0 s (b' ' ∷ b'(' ∷ decimal 9 n ++ b')' ∷ [])
    ∙ read_number-append 0 (decimal 9 n) (b')' ∷ [])
    ∙ read_decimal 9 n h

append-cancel : (s t e : Text) → s ++ e ≡ t ++ e → s ≡ t
append-cancel [] [] e h = refl
append-cancel [] (c ∷ t) e h = absurd (omega (arith, ap length h, length-append t e))
append-cancel (c ∷ s) [] e h = absurd (omega (arith, ap length h, length-append s e))
append-cancel (c ∷ s) (d ∷ t) e h = ground (arith, h, append-cancel s t e)

-- Two names with a number before the same extension have the same number where they are the same.
pub numbered_once :
    (s t e : Text) (n m : ℕ)
    → n < 10 ^ 10
    → m < 10 ^ 10
    → s ++ numbered n ++ e ≡ t ++ numbered m ++ e
    → n ≡ m
numbered_once s t e n m h k p =
    sym (read_numbered s n (omega (arith, h)))
    ∙ ap (read_number 0) (append-cancel (s ++ numbered n) (t ++ numbered m) e p)
    ∙ read_numbered t m (omega (arith, k))
