-- ===== src/FileTransfer/Reserved.antt =====
-- Proofs about windows/flowtype-core/src/file_transfer.rs: which sanitized names Windows still takes
-- for a device. Windows looks at the part before the first dot.
use flow_type.Prelude.{
  Text, codes, ℕ, ◌+◌, ◌-◌, ◌≤◌, ◌≡◌, refl, ap, ◌∙◌, sym, subst, ◌⊎◌, true, false, ◌&&◌, ◌||◌, List,
  [], ◌∷◌, ◌++◌, map, arith, any, All, is_empty, text_eq, text_eq_iff, utf16_len, Bool-cases, inl,
  inr,
}
use flow_type.FileTransfer.Paths.{
  utf16_count, contains_char, ends_with_char, ends-append, dot, dot_dot,
}
use flow_type.FileTransfer.Names.{
  replaced, trim_end_by, space_or_dot, is_whitespace, to_ascii_uppercase, before_dot,
  reserved_names, is_windows_reserved_name, truncate_utf16, sanitize_windows_segment, or_untitled,
  escape_reserved,
}

-- The name before the reserved names are looked at.
abbrev pub cleaned : Text → Text
cleaned segment = trim_end_by space_or_dot (map replaced segment)

before_dot-append : (s t : Text) → contains_char b'.' s ≡ true → before_dot (s ++ t) ≡ before_dot s
unfolding before_dot
before_dot-append [] t h = cc
before_dot-append (c ∷ s) t h = ground (arith, before_dot-append s t)

before_dot_whole : (s : Text) → contains_char b'.' s ≡ false → before_dot s ≡ s
unfolding before_dot
before_dot_whole [] h = refl
before_dot_whole (c ∷ s) h = ground (arith, before_dot_whole s)

contains-append :
    (k : ℕ) (s t : Text) → contains_char k (s ++ t) ≡ (contains_char k s || contains_char k t)
contains-append k [] t = refl
contains-append k (c ∷ s) t = ground (arith, contains-append k s t)

utf16-append : (s t : Text) → utf16_count (s ++ t) ≡ utf16_count s + utf16_count t
utf16-append [] t = omega arith
utf16-append (c ∷ s) t = omega (arith, utf16-append s t)

truncate_utf16_short : (n : ℕ) (s : Text) → utf16_count s ≤ n → truncate_utf16 n s ≡ s
unfolding truncate_utf16
truncate_utf16_short n [] h = refl
truncate_utf16_short n (c ∷ s) h = ground (arith, truncate_utf16_short (n - utf16_len c) s)

is_empty-append : (s : Text) (c : ℕ) → is_empty (s ++ c ∷ []) ≡ false
is_empty-append [] c = refl
is_empty-append (d ∷ s) c = refl

trim-append :
    (s : Text) (c : ℕ)
    → is_whitespace c ≡ false
    → trim_end_by is_whitespace (s ++ c ∷ []) ≡ s ++ c ∷ []
unfolding trim_end_by
trim-append [] c h = rw h refl
trim-append (d ∷ s) c h = rw (trim-append s c h, is_empty-append s c) refl

map-append_one :
    (s : Text) (c : ℕ)
    → map to_ascii_uppercase (s ++ c ∷ []) ≡ map to_ascii_uppercase s ++ to_ascii_uppercase c ∷ []
map-append_one [] c = refl
map-append_one (d ∷ s) c = ap (λ x. to_ascii_uppercase d ∷ x) (map-append_one s c)

no_name_ends :
    (c : ℕ) (s : Text) (names : List Text)
    → All (λ n. ends_with_char c n ≡ false) names
    → any (text_eq (s ++ c ∷ [])) names ≡ false
no_name_ends c s [] h = refl
no_name_ends c s (n ∷ names) h = elim (Bool-cases (text_eq (s ++ c ∷ []) n)) [
  | inl e ↦ absurd (clash ((text_eq_iff (s ++ c ∷ []) n).0 e))
  | inr e ↦ rw e (no_name_ends c s names h.1)
]
  where
    clash : s ++ c ∷ [] ≡ n → ⊥
    clash q = ground (arith, h.0, ap (ends_with_char c) q, ends-append c s (c ∷ []) (λ e. cc))

-- No reserved name ends in an underscore.
names-end : All (λ n. ends_with_char b'_' n ≡ false) reserved_names
names-end = (
  refl,
  (
    refl,
    (
      refl,
      (
        refl,
        (
          refl,
          (
            refl,
            (
              refl,
              (
                refl,
                (
                  refl,
                  (
                    refl,
                    (
                      refl,
                      (
                        refl,
                        (
                          refl,
                          (
                            refl,
                            (refl, (refl, (refl, (refl, (refl, (refl, (refl, (refl, tt)))))))),
                          ),
                        ),
                      ),
                    ),
                  ),
                ),
              ),
            ),
          ),
        ),
      ),
    ),
  ),
)

-- With no dot, the underscore makes the name an ordinary one.
escaped_plain :
    (s : Text) → contains_char b'.' s ≡ false → is_windows_reserved_name (s ++ b'_' ∷ []) ≡ false
unfolding is_windows_reserved_name
escaped_plain s h =
    rw
      (
        before_dot_whole (s ++ b'_' ∷ []) (contains-append b'.' s (b'_' ∷ []) ∙ ground (arith, h)),
        trim-append s b'_' refl,
        map-append_one s b'_',
      )
      (no_name_ends b'_' (map to_ascii_uppercase s) reserved_names names-end)

-- With a dot, the underscore goes behind the extension, and the stem is what it was.
escaped_dotted :
    (s : Text)
    → contains_char b'.' s ≡ true
    → is_windows_reserved_name (s ++ b'_' ∷ []) ≡ is_windows_reserved_name s
unfolding is_windows_reserved_name
escaped_dotted s h = rw (before_dot-append s (b'_' ∷ []) h) refl

untitled_cases :
    (s : Text)
    → (or_untitled s ≡ s)
      ⊎ ((or_untitled s ≡ codes "untitled") × ((s ≡ []) ⊎ ((s ≡ dot) ⊎ (s ≡ dot_dot))))
untitled_cases [] = inr (refl, inl refl)
untitled_cases (c ∷ s) = elim (Bool-cases (text_eq (c ∷ s) dot)) [
  | inl e ↦ inr (rw e refl, inr (inl ((text_eq_iff (c ∷ s) dot).0 e)))
  | inr e ↦ elim (Bool-cases (text_eq (c ∷ s) dot_dot)) [
    | inl f ↦ inr (rw (e, f) refl, inr (inr ((text_eq_iff (c ∷ s) dot_dot).0 f)))
    | inr f ↦ inl (rw (e, f) refl)
  ]
]

untitled_reserved : is_windows_reserved_name (codes "untitled") ≡ false
unfolding is_windows_reserved_name text_eq
untitled_reserved = refl

-- Titling does not change whether a name is reserved.
reserved-or_untitled :
    (s : Text)
    → (is_windows_reserved_name (or_untitled s) ≡ is_windows_reserved_name s)
      × ((is_windows_reserved_name s && contains_char b'.' s)
          ≡ (is_windows_reserved_name (or_untitled s) && contains_char b'.' (or_untitled s)))
unfolding is_windows_reserved_name text_eq
reserved-or_untitled s = elim (untitled_cases s) [
  | inl e ↦ rw (e) (refl, refl)
  | inr (_, inl e) ↦ rw e (refl, refl)
  | inr (_, inr (inl e)) ↦ rw e (refl, refl)
  | inr (_, inr (inr e)) ↦ rw e (refl, refl)
]

reserved-escape :
    (s : Text)
    → is_windows_reserved_name (escape_reserved s)
      ≡ (is_windows_reserved_name s && contains_char b'.' s)
reserved-escape s = elim (Bool-cases (is_windows_reserved_name s)) [
  | inr e ↦ rw e e
  | inl e ↦ elim (Bool-cases (contains_char b'.' s)) [
    | inl d ↦ rw (e, d) (escaped_dotted s d ∙ e)
    | inr d ↦ rw (e, d) (escaped_plain s d)
  ]
]

utf16-untitled : utf16_count (codes "untitled") ≤ 239
unfolding utf16_len
utf16-untitled = omega arith

utf16-or_untitled : (s : Text) → utf16_count s ≤ 239 → utf16_count (or_untitled s) ≤ 239
utf16-or_untitled s h = elim (untitled_cases s) [
  | inl e ↦ subst (λ t. utf16_count t ≤ 239) (sym e) h
  | inr e ↦ subst (λ t. utf16_count t ≤ 239) (sym e.0) utf16-untitled
]

utf16-escape : (s : Text) → utf16_count s ≤ 239 → utf16_count (escape_reserved s) ≤ 240
unfolding utf16_len
utf16-escape s h = ground (arith, utf16-append s (b'_' ∷ []))

-- A segment whose cleaned name has at most 239 UTF-16 units is turned into a name that Windows
-- still reserves exactly when the cleaned name is reserved and has a dot: the underscore is put
-- behind the extension, where it does not change the part before the first dot.
pub reserved-sanitize :
    (segment : Text)
    → utf16_count (cleaned segment) ≤ 239
    → is_windows_reserved_name (sanitize_windows_segment segment)
      ≡ (is_windows_reserved_name (cleaned segment) && contains_char b'.' (cleaned segment))
unfolding sanitize_windows_segment
reserved-sanitize segment h =
    let titled = or_untitled (cleaned segment) in
    ap is_windows_reserved_name (
      truncate_utf16_short 240 (escape_reserved titled)
        (utf16-escape titled (utf16-or_untitled (cleaned segment) h)))
    ∙ reserved-escape titled
    ∙ sym (reserved-or_untitled (cleaned segment)).1
