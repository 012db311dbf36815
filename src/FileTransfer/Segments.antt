-- ===== src/FileTransfer/Segments.antt =====
-- `str::split(separator)` and its inverse, for the paths of
-- windows/flowtype-core/src/file_transfer.rs and for the versions of windows/flowtype-app/src/update.rs.
use flow_type.Prelude.{
  Text, ℕ, ◌≡◌, ◌≢◌, refl, ap, ◌∙◌, Bool, true, false, List, [], ◌∷◌, ◌++◌, arith, ◌==◌, any, All,
  if◌then◌else◌, Bool-cases, inl, inr, ◌↔◌,
}

abbrev pub push_front : ℕ → List Text → List Text
push_front c [] = (c ∷ []) ∷ []
push_front c (s ∷ rest) = (c ∷ s) ∷ rest

-- `text.split(separator)`: one more piece than there are separators.
unfoldable pub split : ℕ → Text → List Text
split sep [] = [] ∷ []
split sep (c ∷ s) = let rest = split sep s in if c == sep then [] ∷ rest else push_front c rest

-- `pieces.join(separator)`
unfoldable pub join : ℕ → List Text → Text
join sep [] = []
join sep (s ∷ []) = s
join sep (s ∷ t ∷ rest) = s ++ sep ∷ join sep (t ∷ rest)

pub split-ne-nil : (sep : ℕ) (s : Text) → split sep s ≢ []
unfolding split
split-ne-nil sep [] h = cc
split-ne-nil sep (c ∷ s) h = elim (Bool-cases (c == sep)) [
  | inl e ↦ ground arith
  | inr e ↦ push_front-ne-nil c (split sep s) (ground arith)
]
  where
    push_front-ne-nil : (d : ℕ) (xs : List Text) → push_front d xs ≢ []
    push_front-ne-nil d [] h = cc
    push_front-ne-nil d (x ∷ xs) h = cc

join-push_front :
    (sep c : ℕ) (xs : List Text) → xs ≢ [] → join sep (push_front c xs) ≡ c ∷ join sep xs
unfolding join
join-push_front sep c [] n = absurd (n refl)
join-push_front sep c (x ∷ []) n = refl
join-push_front sep c (x ∷ y ∷ xs) n = refl

join-nil_cons : (sep : ℕ) (xs : List Text) → xs ≢ [] → join sep ([] ∷ xs) ≡ sep ∷ join sep xs
unfolding join
join-nil_cons sep [] n = absurd (n refl)
join-nil_cons sep (x ∷ xs) n = refl

pub join-split : (sep : ℕ) (s : Text) → join sep (split sep s) ≡ s
unfolding split
join-split sep [] = unfold join in refl
join-split sep (c ∷ s) = elim (Bool-cases (c == sep)) [
  | inl e ↦ rw e (join-nil_cons sep (split sep s) (split-ne-nil sep s) ∙ same (join-split sep s) e)
  | inr e ↦ rw e (
      join-push_front sep c (split sep s) (split-ne-nil sep s) ∙ ap (λ x. c ∷ x) (join-split sep s))
]
  where
    same : join sep (split sep s) ≡ s → (c == sep) ≡ true → sep ∷ join sep (split sep s) ≡ c ∷ s
    same ih e = ground (arith, ih)

-- No piece holds the separator, and every character of a piece stands in the text.
pub split-All {ℓ} :
    (P : ℕ → Type ℓ) (sep : ℕ) (s : Text) → All P s → All (All (λ c. P c × (c ≢ sep))) (split sep s)
unfolding split
split-All P sep [] h = (tt, tt)
split-All P sep (c ∷ s) h = elim (Bool-cases (c == sep)) [
  | inl e ↦ rw e (tt, split-All P sep s h.1)
  | inr e ↦ rw e (pushed (split sep s) (split-All P sep s h.1) (λ q. ground arith))
]
  where
    pushed :
        (xs : List Text)
        → All (All (λ d. P d × (d ≢ sep))) xs
        → c ≢ sep
        → All (All (λ d. P d × (d ≢ sep))) (push_front c xs)
    pushed [] k n = (((h.0, n), tt), tt)
    pushed (x ∷ xs) k n = (((h.0, n), k.0), k.1)

split-append :
    (sep : ℕ) (s t : Text) → All (λ c. c ≢ sep) s → split sep (s ++ sep ∷ t) ≡ s ∷ split sep t
unfolding split
split-append sep [] t h = ground arith
split-append sep (c ∷ s) t h = ground (arith, split-append sep s t h.1)

split_single : (sep : ℕ) (s : Text) → All (λ c. c ≢ sep) s → split sep s ≡ s ∷ []
unfolding split
split_single sep [] h = refl
split_single sep (c ∷ s) h = ground (arith, split_single sep s h.1)

pub split-join :
    (sep : ℕ) (pieces : List Text)
    → pieces ≢ []
    → All (All (λ c. c ≢ sep)) pieces
    → split sep (join sep pieces) ≡ pieces
unfolding join
split-join sep [] n h = absurd (n refl)
split-join sep (s ∷ []) n h = split_single sep s h.0
split-join sep (s ∷ t ∷ rest) n h =
    rw (split-append sep s (join sep (t ∷ rest)) h.0)
      (ap (λ x. s ∷ x) (split-join sep (t ∷ rest) (λ e. cc) h.1))

pub All-append {ℓ κ} :
    {A : Type ℓ} (P : A → Type κ) (xs ys : List A) → All P xs → All P ys → All P (xs ++ ys)
All-append P [] ys h k = k
All-append P (x ∷ xs) ys h k = (h.0, All-append P xs ys h.1 k)

pub All-map {ℓ κ λ'} :
    {A : Type ℓ} (P : A → Type κ) (Q : A → Type λ') (xs : List A)
    → ((a : A) → P a → Q a)
    → All P xs
    → All Q xs
All-map P Q [] f h = tt
All-map P Q (x ∷ xs) f h = (f x h.0, All-map P Q xs f h.1)

pub All-join {ℓ} :
    (P : ℕ → Type ℓ) (sep : ℕ) (pieces : List Text)
    → P sep
    → All (All P) pieces
    → All P (join sep pieces)
unfolding join
All-join P sep [] p h = tt
All-join P sep (s ∷ []) p h = h.0
All-join P sep (s ∷ t ∷ rest) p h =
    All-append P s (sep ∷ join sep (t ∷ rest)) h.0 (p, All-join P sep (t ∷ rest) p h.1)

pub any_iff-All {ℓ} :
    {A : Type ℓ} (p : A → Bool) (xs : List A) → (any p xs ≡ false) ↔ All (λ a. p a ≡ false) xs
any_iff-All p [] = (λ h. tt, λ h. refl)
any_iff-All p (x ∷ xs) =
    let ih = any_iff-All p xs in
    (λ h. (ground arith, ih.0 (ground arith)), λ h. ground (arith, ih.1 h.1))
