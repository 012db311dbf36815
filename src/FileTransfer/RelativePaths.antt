-- ===== src/FileTransfer/RelativePaths.antt =====
-- Proofs about windows/flowtype-core/src/file_transfer.rs: `validate_relative_path` accepts the
-- relative paths of the wire.
use flow_type.Prelude.{
  Text, ℕ, ◌+◌, ◌≤◌, ◌≡◌, ◌≢◌, ◌↔◌, refl, sym, ◌∙◌, Option-cases, subst, true, false, ◌||◌, none,
  some, List, [], ◌∷◌, arith, ◌==◌, any, All, is_empty, length, byte_len, text_eq_iff, inl, inr,
}
use flow_type.FileTransfer.{ok, max_relative_path_bytes}
use flow_type.FileTransfer.Segments.{
  split, join, split-ne-nil, join-split, split-join, split-All, All-map, All-join,
}
use flow_type.FileTransfer.Paths.{
  is_control, starts_with_char, ends_with_char, contains_char, dot, dot_dot, refused_segment,
  count_segments, validate_relative_path, IsPlain, IsSegment, IsAllowed, IsRelativePath,
  ends-append,
}

is_empty_iff : (s : Text) → (is_empty s ≡ true) ↔ (s ≡ [])
is_empty_iff [] = ground arith
is_empty_iff (c ∷ s) = ground arith

refused_segment_iff : (s : Text) → (refused_segment s ≡ false) ↔ IsAllowed s
refused_segment_iff [] = ground arith
refused_segment_iff (c ∷ s) = ground (arith, text_eq_iff (c ∷ s) dot, text_eq_iff (c ∷ s) dot_dot)

count_segments-some :
    (n m : ℕ) (segments : List Text)
    → count_segments n segments ≡ some m
    → All IsAllowed segments × (m ≡ n + length segments)
unfolding count_segments
count_segments-some n m [] h = (tt, ground arith)
count_segments-some n m (s ∷ rest) h =
    ground (arith, refused_segment_iff s, count_segments-some (n + 1) m rest)

count_segments-All :
    (n : ℕ) (segments : List Text)
    → All IsAllowed segments
    → count_segments n segments ≡ some (n + length segments)
unfolding count_segments
count_segments-All n [] h = ground arith
count_segments-All n (s ∷ rest) h =
    ground (arith, refused_segment_iff s, count_segments-All (n + 1) rest)

tests_passed :
    (path : Text)
    → (contains_char 92 path || any (λ c. c == 0 || is_control c) path) ≡ false
    → All IsPlain path
tests_passed [] h = tt
tests_passed (c ∷ s) h = ground (arith, tests_passed s)

tests_of_plain :
    (path : Text)
    → All IsPlain path
    → (contains_char 92 path || any (λ c. c == 0 || is_control c) path) ≡ false
tests_of_plain [] h = refl
tests_of_plain (c ∷ s) h = ground (arith, tests_of_plain s h.1)

both :
    (segments : List Text)
    → All IsAllowed segments
    → All (All (λ c. IsPlain c × (c ≢ b'/'))) segments
    → All IsSegment segments
both [] h k = tt
both (s ∷ rest) h k = ((h.0.0, h.0.1, h.0.2, h.0.3, k.0), both rest h.1 k.1)

ends_within : (k : ℕ) (s : Text) → All (λ c. c ≢ k) s → ends_with_char k s ≡ false
ends_within k [] h = refl
ends_within k (c ∷ []) h = ground arith
ends_within k (c ∷ d ∷ s) h = ends_within k (d ∷ s) h.1

no_slash : (s : Text) → IsSegment s → All (λ c. c ≢ b'/') s
no_slash s h = All-map (λ c. IsPlain c × (c ≢ b'/')) (λ c. c ≢ b'/') s (λ c p. p.1) h.4

join-ne-nil :
    (segments : List Text) → segments ≢ [] → All IsSegment segments → join b'/' segments ≢ []
unfolding join
join-ne-nil [] n h e = n refl
join-ne-nil ([] ∷ []) n h e = h.0.0 refl
join-ne-nil ((c ∷ s) ∷ []) n h e = cc
join-ne-nil ([] ∷ t ∷ rest) n h e = cc
join-ne-nil ((c ∷ s) ∷ t ∷ rest) n h e = cc

starts-join :
    (segments : List Text)
    → segments ≢ []
    → All IsSegment segments
    → starts_with_char b'/' (join b'/' segments) ≡ false
unfolding join
starts-join [] n h = refl
starts-join ([] ∷ rest) n h = absurd (h.0.0 refl)
starts-join ((c ∷ s) ∷ []) n h = ground arith
starts-join ((c ∷ s) ∷ t ∷ rest) n h = ground arith

ends-join :
    (segments : List Text)
    → All IsSegment segments
    → ends_with_char b'/' (join b'/' segments) ≡ false
unfolding join
ends-join [] h = refl
ends-join (s ∷ []) h = ends_within b'/' s (no_slash s h.0)
ends-join (s ∷ t ∷ rest) h =
    ends-append b'/' s (b'/' ∷ join b'/' (t ∷ rest)) (λ e. cc)
    ∙ ends-append b'/' (b'/' ∷ []) (join b'/' (t ∷ rest)) (join-ne-nil (t ∷ rest) (λ e. cc) h.1)
    ∙ ends-join (t ∷ rest) h.1

validate_sound : (path : Text) → validate_relative_path path ≡ ok tt → IsRelativePath path
unfolding validate_relative_path
validate_sound path h = elim (Option-cases (count_segments 0 (split b'/' path))) [
  | inl e ↦ absurd (rejected e)
  | inr (n, e) ↦
      let counted = count_segments-some 0 n (split b'/' path) e in
      record {
        segments = split b'/' path;
        joined = sym (join-split b'/' path);
        some_segment = split-ne-nil b'/' path;
        each =
            both (split b'/' path) counted.0
              (split-All IsPlain b'/' path (tests_passed path (ground arith)));
        few = ground (arith, counted.1);
        short = ground arith;
      }
]
  where
    rejected : count_segments 0 (split b'/' path) ≡ none → ⊥
    rejected e = ground arith

module _ (segments : List Text) (n : segments ≢ []) (h : All IsSegment segments) where
  slash_free : All (All (λ c. c ≢ b'/')) segments
  slash_free = All-map IsSegment (All (λ c. c ≢ b'/')) segments no_slash h

  IsPlain-join : All IsPlain (join b'/' segments)
  IsPlain-join = All-join IsPlain b'/' segments (ground arith) (
      All-map IsSegment (All IsPlain) segments
        (λ s k. All-map (λ c. IsPlain c × (c ≢ b'/')) IsPlain s (λ c p. p.0) k.4) h)

  counted_join : count_segments 0 (split b'/' (join b'/' segments)) ≡ some (0 + length segments)
  counted_join = rw (split-join b'/' segments n slash_free) (
      count_segments-All 0 segments
        (All-map IsSegment IsAllowed segments (λ s k. (k.0, k.1, k.2, k.3)) h))

  validate-join :
      length segments ≤ 128
      → byte_len (join b'/' segments) ≤ max_relative_path_bytes
      → validate_relative_path (join b'/' segments) ≡ ok tt
  unfolding validate_relative_path
  validate-join few short = ground (
    arith,
    counted_join,
    tests_of_plain (join b'/' segments) IsPlain-join,
    starts-join segments n h,
    ends-join segments h,
    is_empty_iff (join b'/' segments),
    join-ne-nil segments n h,
  )

-- A path is accepted exactly when it is one to 128 segments joined by slashes, in at most 4096 bytes
-- of UTF-8, each segment named, neither "." nor "..", of at most 255 UTF-16 units, and free of
-- slashes, backslashes and control characters.
pub validate_relative_path_iff :
    (path : Text) → (validate_relative_path path ≡ ok tt) ↔ IsRelativePath path
validate_relative_path_iff path = (
  validate_sound path,
  λ r. rw r.joined (
      validate-join r.segments r.some_segment r.each r.few
        (subst (λ p. byte_len p ≤ max_relative_path_bytes) r.joined r.short)),
)
