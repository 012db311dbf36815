-- ===== src/FileStore/Lines.antt =====
-- Proofs about windows/flowtype-app/src/file_transfer_store.rs: lines behind each other, and the index of
-- their offsets.
use flow_type.Prelude.{
  ℕ, zero, suc, ◌+◌, ◌*◌, ◌/◌, ◌<◌, ◌≡◌, refl, sym, ◌∙◌, ap, arith, false, Option, none, some, List,
  [], ◌∷◌, ◌++◌, ◌==◌, any, length, take, drop, length-append,
}
use mathlib.Core.List.{append_assoc}
use flow_type.FileStore.Progress.{to_le_bytes}
use flow_type.FileStore.Manifests.{newline, read_line, before_newline, pop_newline}

unfoldable pub framed : List (List ℕ) → List ℕ
framed [] = []
framed (l ∷ ls) = (l ++ newline ∷ []) ++ framed ls

unfoldable pub offsets : ℕ → List (List ℕ) → List ℕ
unfolding to_le_bytes
offsets o [] = []
offsets o (l ∷ ls) = to_le_bytes 8 o ++ offsets (o + (length l + 1)) ls

abbrev pub nth {ℓ} : {A : Type ℓ} → ℕ → List A → Option A
nth n [] = none
nth zero (x ∷ xs) = some x
nth (suc n) (x ∷ xs) = nth n xs

-- The offset of a line.
abbrev pub offset_of : ℕ → List (List ℕ) → ℕ
offset_of zero ls = 0
offset_of (suc i) [] = 0
offset_of (suc i) (l ∷ ls) = (length l + 1) + offset_of i ls

pub drop_past {ℓ} :
    {A : Type ℓ} (xs ys : List A) (n : ℕ) → drop (length xs + n) (xs ++ ys) ≡ drop n ys
drop_past [] ys n = ap (λ k. drop k ys) (omega arith)
drop_past (x ∷ xs) ys n =
    ap (λ k. drop k (x ∷ (xs ++ ys))) (one_more (length xs)) ∙ drop_past xs ys n
  where
    one_more : (k : ℕ) → suc k + n ≡ suc (k + n)
    one_more k = omega arith

pub take_all {ℓ} : {A : Type ℓ} (xs ys : List A) → take (length xs) (xs ++ ys) ≡ xs
take_all [] ys = refl
take_all (x ∷ xs) ys = ap (λ r. x ∷ r) (take_all xs ys)

pub length-to_le_bytes : (n value : ℕ) → length (to_le_bytes n value) ≡ n
unfolding to_le_bytes
length-to_le_bytes zero value = refl
length-to_le_bytes (suc n) value = ap suc (length-to_le_bytes n (value / 256))

length-line : (l : List ℕ) → length (l ++ newline ∷ []) ≡ length l + 1
length-line l = length-append l (newline ∷ [])

-- The eight bytes in the index are the offset of the line, and some bytes are left of the index there.
pub index_at :
    (o i : ℕ) (ls : List (List ℕ)) (l : List ℕ)
    → nth i ls ≡ some l
    → (rest : List ℕ) × (drop (8 * i) (offsets o ls) ≡ to_le_bytes 8 (o + offset_of i ls) ++ rest)
unfolding offsets
index_at o i [] l h = absurd (ground (arith, h))
index_at o zero (k ∷ ls) l h = (
  offsets (o + (length k + 1)) ls,
  ap (λ n. to_le_bytes 8 n ++ offsets (o + (length k + 1)) ls) (omega arith),
)
index_at o (suc i) (k ∷ ls) l h =
    let next = index_at (o + (length k + 1)) i ls l h in
    (
      next.0,
      ap (λ n. drop n (to_le_bytes 8 o ++ offsets (o + (length k + 1)) ls)) (eight_more i o)
          ∙ drop_past (to_le_bytes 8 o) (offsets (o + (length k + 1)) ls) (8 * i)
          ∙ next.1
          ∙ ap (λ n. to_le_bytes 8 n ++ next.0) (omega arith),
    )
  where
    eight_more : (i o : ℕ) → 8 * suc i ≡ length (to_le_bytes 8 o) + 8 * i
    eight_more i o = omega (arith, length-to_le_bytes 8 o)

-- The line stands at its offset, which is within the lines.
pub line_at :
    (i : ℕ) (ls : List (List ℕ)) (l : List ℕ)
    → nth i ls ≡ some l
    → ((rest : List ℕ) × (drop (offset_of i ls) (framed ls) ≡ l ++ newline ∷ rest))
      × (offset_of i ls < length (framed ls))
unfolding framed
line_at i [] l h = absurd (ground (arith, h))
line_at zero (k ∷ ls) l h =
    let e : k ≡ l = ground (arith, h) in
    (
      (framed ls, append_assoc k (newline ∷ []) (framed ls) ∙ ap (λ r. r ++ newline ∷ framed ls) e),
      omega (arith, length-append (k ++ newline ∷ []) (framed ls), length-line k),
    )
line_at (suc i) (k ∷ ls) l h =
    let next = line_at i ls l h in
    (
      (
        next.0.0,
        ap (λ n. drop (n + offset_of i ls) ((k ++ newline ∷ []) ++ framed ls)) (sym (length-line k))
            ∙ drop_past (k ++ newline ∷ []) (framed ls) (offset_of i ls)
            ∙ next.0.1,
      ),
      omega (arith, next.1, length-append (k ++ newline ∷ []) (framed ls), length-line k),
    )

pub read_line_lem :
    (l rest : List ℕ)
    → any (λ b. b == newline) l ≡ false
    → read_line (l ++ newline ∷ rest) ≡ l ++ newline ∷ []
unfolding read_line
read_line_lem [] rest h = refl
read_line_lem (b ∷ l) rest h = ground (arith, h, read_line_lem l rest)

pub pop_newline_lem : (l : List ℕ) → pop_newline (l ++ newline ∷ []) ≡ some l
unfolding pop_newline
pop_newline_lem [] = refl
pop_newline_lem (b ∷ []) = refl
pop_newline_lem (b ∷ c ∷ l) = ap (before_newline b) (pop_newline_lem (c ∷ l))
