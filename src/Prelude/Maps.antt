-- ===== src/Prelude/Maps.antt =====
-- Rust's `HashMap` with `String` keys, as an association list: `get`, `remove`, `insert`, `retain`.
use mathlib.Core.Path.{◌≡◌, refl}
use mathlib.Core.Logic.{◌≢◌}
use mathlib.Core.Bool.{Bool}
use mathlib.Core.Option.{Option, none, some}
use mathlib.Core.List.{List, [], ◌∷◌}
use native.Mathlib.Omega.{arith}
use flow_type.Prelude.Tests.{if◌then◌else◌}
use flow_type.Prelude.Strings.{Text, text_eq, text_eq_iff}

module _ {ℓ} {A : Type ℓ} where
  unfoldable pub get : Text → List (Text × A) → Option A
  unfolding text_eq
  get k [] = none
  get k ((j, a) ∷ m) = let rest = get k m in if text_eq k j then some a else rest

  unfoldable pub remove : Text → List (Text × A) → List (Text × A)
  unfolding text_eq
  remove k [] = []
  remove k ((j, a) ∷ m) = let rest = remove k m in if text_eq k j then rest else (j, a) ∷ rest

  abbrev pub insert : Text → A → List (Text × A) → List (Text × A)
  insert k a m = (k, a) ∷ remove k m

  unfoldable pub retain : (A → Bool) → List (Text × A) → List (Text × A)
  retain p [] = []
  retain p ((j, a) ∷ m) = let rest = retain p m in if p a then (j, a) ∷ rest else rest

  pub get-remove_same : (k : Text) (m : List (Text × A)) → get k (remove k m) ≡ none
  unfolding get remove
  get-remove_same k [] = refl
  get-remove_same k ((j, a) ∷ m) = ground (arith, get-remove_same k m)

  pub get-remove_other : (k j : Text) (m : List (Text × A)) → k ≢ j → get k (remove j m) ≡ get k m
  unfolding get remove
  get-remove_other k j [] n = refl
  get-remove_other k j ((i, a) ∷ m) n =
      ground (arith, get-remove_other k j m n, text_eq_iff k i, text_eq_iff j i)

  pub get-insert_same : (k : Text) (a : A) (m : List (Text × A)) → get k (insert k a m) ≡ some a
  unfolding get
  get-insert_same k a m = ground (arith, text_eq_iff k k)

  pub get-insert_other :
      (k j : Text) (a : A) (m : List (Text × A)) → k ≢ j → get k (insert j a m) ≡ get k m
  unfolding get
  get-insert_other k j a m n = ground (arith, text_eq_iff k j, get-remove_other k j m n)
