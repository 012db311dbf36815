-- ===== src/FileServer/Ingested.antt =====
-- Proofs about windows/flowtype-app/src/file_transfer_server.rs: a manifest is taken in the same way
-- however its body is cut into frames.
use flow_type.Prelude.{
  Text, codes, ℕ, zero, suc, ◌≤◌, ◌<◌, ◌≡◌, ◌⊎◌, inl, inr, refl, sym, ◌∙◌, ap, arith, false, Option,
  none, some, List, [], ◌∷◌, ◌++◌, ltb, length, length-append, length-drop, take, drop,
  if◌then◌else◌, Bool-cases, Option-cases,
}
use flow_type.FileTransfer.{max_manifest_line_bytes}
use flow_type.FileTransfer.Messages.{ManifestEntry}
use flow_type.FileStore.Manifests.{ManifestWriter, append}
use flow_type.FileServer.{answered, failed}
use flow_type.FileServer.Ingest.{
  position, without_return, Consumed, line_taken, entry_taken, line_consumed, consume_lines,
}

-- The first newline stays where it is when more bytes come.
pub position_append : (p q : List ℕ) (n : ℕ) → position p ≡ some n → position (p ++ q) ≡ some n
unfolding position
position_append [] q n h = ground (arith, h)
position_append (b ∷ p) q n h = elim (Option-cases (position p)) [
  | inl c ↦ ground (arith, h, c)
  | inr (m, c) ↦ let rest = position_append p q m c in ground (arith, h, c, rest)
]

pub position_bound : (p : List ℕ) (n : ℕ) → position p ≡ some n → n < length p
unfolding position
position_bound [] n h = ground (arith, h)
position_bound (b ∷ p) n h = elim (Option-cases (position p)) [
  | inl c ↦ ground (arith, h, c)
  | inr (m, c) ↦ let rest = position_bound p m c in ground (arith, h, c, rest)
]

-- A newline that is not among the first bytes comes after them.
pub position_after :
    (p q : List ℕ) (n : ℕ) → position p ≡ none → position (p ++ q) ≡ some n → length p ≤ n
unfolding position
position_after [] q n h k = omega arith
position_after (b ∷ p) q n h k = elim (Option-cases (position (p ++ q))) [
  | inl c ↦ ground (arith, h, k, c)
  | inr (m, c) ↦ elim (Option-cases (position p)) [
    | inl d ↦ let rest = position_after p q m d c in ground (arith, h, k, c, d, rest)
    | inr (i, d) ↦ ground (arith, h, d)
  ]
]

take_within : (n : ℕ) (p q : List ℕ) → n < length p → take n (p ++ q) ≡ take n p
take_within zero p q h = refl
take_within (suc n) [] q h = ground (arith, h)
take_within (suc n) (b ∷ p) q h = ap (λ (r : List ℕ). b ∷ r) (take_within n p q (omega (arith, h)))

drop_within : (n : ℕ) (p q : List ℕ) → n < length p → drop (suc n) (p ++ q) ≡ drop (suc n) p ++ q
drop_within n [] q h = ground (arith, h)
drop_within zero (b ∷ p) q h = refl
drop_within (suc n) (b ∷ p) q h = drop_within n p q (omega (arith, h))

module _ (encode : ManifestEntry → Option (List ℕ)) (decode : List ℕ → Option ManifestEntry) where
  -- Where a line is taken, what follows decides.
  line_cases :
      (go : ManifestWriter → Consumed) (w : ManifestWriter) (line : List ℕ)
      → ((code : Text) × ((other : ManifestWriter → Consumed)
            → line_consumed encode decode other w line ≡ failed code))
        ⊎ ((v : ManifestWriter) × ((other : ManifestWriter → Consumed)
              → line_consumed encode decode other w line ≡ other v))
  unfolding line_consumed
  line_cases go w line = elim (Option-cases (decode (without_return line))) [
    | inl c ↦ inl (codes "invalid_manifest", λ other. ap (entry_taken encode decode other w) c)
    | inr (e, c) ↦ elim (Option-cases (append encode e w)) [
      | inl d ↦ inl (
        codes "invalid_manifest",
        λ other. ap (entry_taken encode decode other w) c ∙ ap (line_taken encode decode other) d,
      )
      | inr (v, d) ↦ inr (
        v,
        λ other. ap (entry_taken encode decode other w) c ∙ ap (line_taken encode decode other) d,
      )
    ]
  ]

  abbrev pub taken_at :
      ℕ → (List ℕ → ManifestWriter → Consumed) → List ℕ → ManifestWriter → Consumed
  taken_at n go p w =
      if ltb max_manifest_line_bytes n
      then failed (codes "manifest_line_too_large")
      else line_consumed encode decode (go (drop (suc n) p)) w (take n p)

  pub consume_none :
      (f : ℕ) (p : List ℕ) (w : ManifestWriter)
      → position p ≡ none
      → consume_lines encode decode f p w ≡ answered (p, w)
  unfolding consume_lines
  consume_none zero p w h = refl
  consume_none (suc f) p w h = ground (arith, h)

  pub consume_some :
      (f n : ℕ) (p : List ℕ) (w : ManifestWriter)
      → position p ≡ some n
      → consume_lines encode decode (suc f) p w ≡ taken_at n (consume_lines encode decode f) p w
  unfolding consume_lines
  consume_some f n p w h =
      ap
        (λ o. elim o as (λ o. Consumed) [
          | none ↦ answered (p, w)
          | some n ↦ taken_at n (consume_lines encode decode f) p w
        ])
        h

  -- A line fails, or is taken, whatever follows.
  taken_cases :
      (n : ℕ) (w : ManifestWriter) (line : List ℕ)
      → ((code : Text) × ((go : List ℕ → ManifestWriter → Consumed) (p : List ℕ)
            → take n p ≡ line
            → taken_at n go p w ≡ failed code))
        ⊎ ((n ≤ max_manifest_line_bytes)
            × (v : ManifestWriter) × ((go : List ℕ → ManifestWriter → Consumed) (p : List ℕ)
                → take n p ≡ line
                → taken_at n go p w ≡ go (drop (suc n) p) v))
  taken_cases n w line = elim (Bool-cases (ltb max_manifest_line_bytes n)) [
    | inl c ↦ inl (codes "manifest_line_too_large", λ go p h. ground (arith, c))
    | inr c ↦ elim (line_cases (λ v. failed []) w line) [
      | inl (code, d) ↦ inl (
        code,
        λ go p h.
            short n go p w c
            ∙ ap (line_consumed encode decode (go (drop (suc n) p)) w) h
            ∙ d (go (drop (suc n) p)),
      )
      | inr (v, d) ↦ inr (
        ground (arith, c),
        v,
        λ go p h.
            short n go p w c
            ∙ ap (line_consumed encode decode (go (drop (suc n) p)) w) h
            ∙ d (go (drop (suc n) p)),
      )
    ]
  ]
    where
      short :
          (n : ℕ) (go : List ℕ → ManifestWriter → Consumed) (p : List ℕ) (w : ManifestWriter)
          → ltb max_manifest_line_bytes n ≡ false
          → taken_at n go p w ≡ line_consumed encode decode (go (drop (suc n) p)) w (take n p)
      short n go p w c =
          ap
            (λ b.
              if b
              then failed (codes "manifest_line_too_large")
              else line_consumed encode decode (go (drop (suc n) p)) w (take n p))
            c

  -- More fuel than there are bytes changes nothing.
  pub enough_fuel :
      (f g : ℕ) (p : List ℕ) (w : ManifestWriter)
      → length p ≤ f
      → length p ≤ g
      → consume_lines encode decode f p w ≡ consume_lines encode decode g p w
  unfolding position
  enough_fuel zero g [] w h k = consume_none zero [] w refl ∙ sym (consume_none g [] w refl)
  enough_fuel zero g (b ∷ p) w h k = absurd (omega (arith, h))
  enough_fuel (suc f) zero [] w h k =
      consume_none (suc f) [] w refl ∙ sym (consume_none zero [] w refl)
  enough_fuel (suc f) zero (b ∷ p) w h k = absurd (omega (arith, k))
  enough_fuel (suc f) (suc g) p w h k = elim (Option-cases (position p)) [
    | inl c ↦ consume_none (suc f) p w c ∙ sym (consume_none (suc g) p w c)
    | inr (n, c) ↦
        let shorter = length-drop (suc n) p in
        consume_some f n p w c
        ∙ elim (taken_cases n w (take n p)) [
          | inl (code, d) ↦
              d (consume_lines encode decode f) p refl
              ∙ sym (d (consume_lines encode decode g) p refl)
          | inr (m, v, d) ↦
              d (consume_lines encode decode f) p refl
              ∙ enough_fuel f g (drop (suc n) p) v (omega (arith, h, shorter, position_bound p n c))
                  (omega (arith, k, shorter, position_bound p n c))
              ∙ sym (d (consume_lines encode decode g) p refl)
        ]
        ∙ sym (consume_some g n p w c)
  ]

  -- Bytes that fail by themselves.
  abbrev pub Fails : ℕ → List ℕ → List ℕ → ManifestWriter → Type 0
  Fails f p q w =
      (code : Text) × (consume_lines encode decode f p w ≡ failed code)
      × ((g : ℕ) → length (p ++ q) ≤ g → consume_lines encode decode g (p ++ q) w ≡ failed code)

  -- Bytes of which lines are taken, and no whole line is left.
  abbrev pub Leaves : ℕ → List ℕ → List ℕ → ManifestWriter → Type 0
  Leaves f p q w =
      (r : List ℕ) × (v : ManifestWriter) × (consume_lines encode decode f p w ≡ answered (r, v))
      × (position r ≡ none)
      × (length r ≤ length p)
      × ((g : ℕ)
          → length (p ++ q) ≤ g
          → consume_lines encode decode g (p ++ q) w ≡ consume_lines encode decode g (r ++ q) v)

  -- The first line where more bytes follow.
  whole_some :
      (g n : ℕ) (p q : List ℕ) (w : ManifestWriter)
      → position p ≡ some n
      → length (p ++ q) ≤ g
      → (f : ℕ) × (consume_lines encode decode g (p ++ q) w
          ≡ taken_at n (consume_lines encode decode f) (p ++ q) w)
        × (length (drop (suc n) p ++ q) ≤ f)
        × (f ≤ g)
        × (drop (suc n) (p ++ q) ≡ drop (suc n) p ++ q)
  whole_some zero n p q w c h = absurd (omega (arith, h, length-append p q, position_bound p n c))
  whole_some (suc f) n p q w c h =
      let bound = position_bound p n c in
      (
        f,
        consume_some f n (p ++ q) w (position_append p q n c),
        omega (
          arith,
          h,
          length-append p q,
          length-append (drop (suc n) p) q,
          length-drop (suc n) p,
          bound,
        ),
        omega arith,
        drop_within n p q bound,
      )

  pub bytes_apart :
      (f : ℕ) (p q : List ℕ) (w : ManifestWriter) → length p ≤ f → Fails f p q w ⊎ Leaves f p q w
  unfolding position
  bytes_apart zero [] q w h =
      inr ([], w, consume_none zero [] w refl, refl, omega arith, λ g k. refl)
  bytes_apart zero (b ∷ p) q w h = absurd (omega (arith, h))
  bytes_apart (suc f) p q w h = elim (Option-cases (position p)) [
    | inl c ↦ inr (p, w, consume_none (suc f) p w c, c, omega arith, λ g k. refl)
    | inr (n, c) ↦
        let bound = position_bound p n c in
        let shorter = length-drop (suc n) p in
        elim (taken_cases n w (take n p)) [
          | inl (code, d) ↦ inl (
            code,
            consume_some f n p w c ∙ d (consume_lines encode decode f) p refl,
            λ g k.
                let whole = whole_some g n p q w c k in
                whole.1
                ∙ d (consume_lines encode decode whole.0) (p ++ q) (take_within n p q bound),
          )
          | inr (m, v, d) ↦
              elim (bytes_apart f (drop (suc n) p) q v (omega (arith, h, shorter, bound))) [
                | inl (code, x, y) ↦ inl (
                  code,
                  consume_some f n p w c ∙ d (consume_lines encode decode f) p refl ∙ x,
                  λ g k.
                      let whole = whole_some g n p q w c k in
                      whole.1
                      ∙ d (consume_lines encode decode whole.0) (p ++ q) (take_within n p q bound)
                      ∙ ap (λ b. consume_lines encode decode whole.0 b v) whole.4
                      ∙ y whole.0 whole.2,
                )
                | inr (r, u, x, y, z, t) ↦ inr (
                  r,
                  u,
                  consume_some f n p w c ∙ d (consume_lines encode decode f) p refl ∙ x,
                  y,
                  omega (arith, z, shorter),
                  λ g k.
                      let whole = whole_some g n p q w c k in
                      let left = length-append r q in
                      let right = length-append (drop (suc n) p) q in
                      whole.1
                      ∙ d (consume_lines encode decode whole.0) (p ++ q) (take_within n p q bound)
                      ∙ ap (λ b. consume_lines encode decode whole.0 b v) whole.4
                      ∙ t whole.0 whole.2
                      ∙ enough_fuel whole.0 g (r ++ q) u (omega (arith, left, right, z, whole.2))
                          (omega (arith, left, right, z, whole.2, whole.3)),
                )
              ]
        ]
  ]
