-- ===== src/Snapshots/Transitions.antt =====
-- windows/flowtype-core/src/diff.rs: the edit that turns one text into another. The division of a text
-- into graphemes is the crate unicode-segmentation's, a parameter.
use flow_type.Prelude.{
  Text, ℕ, zero, suc, ◌-◌, ◌≤◌, ◌≡◌, refl, ap, ◌∙◌, arith, List, [], ◌∷◌, ◌++◌, length, take, drop,
  text_eq, text_eq_iff, if◌then◌else◌, Bool-cases, inl, inr,
}
use mathlib.Core.List.{append_assoc}

pub record Transition : Type 0 where
  pub backspaces : ℕ
  pub insert : Text

abbrev pub concat : List Text → Text
concat [] = []
concat (g ∷ gs) = g ++ concat gs

-- `iter().zip().take_while(==).count()`
unfoldable pub common_prefix : List Text → List Text → ℕ
common_prefix [] ys = 0
common_prefix (x ∷ xs) [] = 0
common_prefix (x ∷ xs) (y ∷ ys) =
    let rest = common_prefix xs ys in if text_eq x y then suc rest else 0

unfoldable pub plan_transition : (Text → List Text) → Text → Text → Transition
unfolding common_prefix
plan_transition graphemes previous current = record {
  backspaces = length (graphemes previous) - common_prefix (graphemes previous) (graphemes current);
  insert =
      concat (drop (common_prefix (graphemes previous) (graphemes current)) (graphemes current));
}

-- What a field holds after the backspaces, one grapheme each, and the insertion.
abbrev pub apply_transition : (Text → List Text) → Transition → Text → Text
apply_transition graphemes t shown =
    concat (take (length (graphemes shown) - t.backspaces) (graphemes shown)) ++ t.insert

common_prefix-le : (xs ys : List Text) → common_prefix xs ys ≤ length xs
unfolding common_prefix
common_prefix-le [] ys = omega arith
common_prefix-le (x ∷ xs) [] = omega arith
common_prefix-le (x ∷ xs) (y ∷ ys) = ground (arith, common_prefix-le xs ys)

take-common_prefix :
    (xs ys : List Text) → take (common_prefix xs ys) xs ≡ take (common_prefix xs ys) ys
unfolding common_prefix
take-common_prefix [] ys = refl
take-common_prefix (x ∷ xs) [] = refl
take-common_prefix (x ∷ xs) (y ∷ ys) = elim (Bool-cases (text_eq x y)) [
  | inl e ↦ rw e (
      ap (λ r. x ∷ r) (take-common_prefix xs ys)
      ∙ ap (λ z. z ∷ take (common_prefix xs ys) ys) ((text_eq_iff x y).0 e))
  | inr e ↦ rw e refl
]

concat-take-drop : (n : ℕ) (gs : List Text) → concat (take n gs) ++ concat (drop n gs) ≡ concat gs
concat-take-drop zero gs = refl
concat-take-drop (suc n) [] = refl
concat-take-drop (suc n) (g ∷ gs) =
    append_assoc g (concat (take n gs)) (concat (drop n gs))
    ∙ ap (λ r. g ++ r) (concat-take-drop n gs)

-- Both lists begin with the same `n` elements.
abbrev pub Share : ℕ → List Text → List Text → Type 0
Share n xs ys = (n ≤ length xs) × (n ≤ length ys) × (take n xs ≡ take n ys)

longest : (n : ℕ) (xs ys : List Text) → Share n xs ys → n ≤ common_prefix xs ys
unfolding common_prefix
longest zero xs ys h = omega arith
longest (suc n) [] ys h = absurd (ground arith)
longest (suc n) (x ∷ xs) [] h = absurd (ground arith)
longest (suc n) (x ∷ xs) (y ∷ ys) h = ground (arith, h.2, longest n xs ys, text_eq_iff x y)

-- Where a text is its graphemes joined: the planned edit turns the previous text into the current
-- one, and no edit that keeps the first graphemes of the previous text and inserts the rest of the
-- current one has fewer backspaces.
pub plan_transition_lem :
    (graphemes : Text → List Text) (previous current : Text)
    → ((s : Text) → concat (graphemes s) ≡ s)
    → (apply_transition graphemes (plan_transition graphemes previous current) previous ≡ current)
      × ((n : ℕ)
          → Share n (graphemes previous) (graphemes current)
          → (plan_transition graphemes previous current).backspaces
            ≤ length (graphemes previous) - n)
unfolding plan_transition
plan_transition_lem graphemes previous current joined = (
  rw (kept, take-common_prefix xs ys, concat-take-drop (common_prefix xs ys) ys) (joined current),
  λ n h. omega (arith, longest n xs ys h),
)
  where
    xs : List Text
    xs = graphemes previous

    ys : List Text
    ys = graphemes current

    kept : length xs - (length xs - common_prefix xs ys) ≡ common_prefix xs ys
    kept = omega (arith, common_prefix-le xs ys)
