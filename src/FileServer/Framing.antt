-- ===== src/FileServer/Framing.antt =====
-- Proofs about windows/flowtype-app/src/file_transfer_server.rs: the manifest of a body in frames is that of
-- the body in one piece.
use flow_type.Prelude.{
  Text, codes, ℕ, zero, suc, ◌≤◌, ◌<◌, ◌≡◌, ◌↔◌, inl, inr, sym, ◌∙◌, ap, subst, arith, true, false,
  Option, none, List, [], ◌∷◌, ◌++◌, ltb, ltb→lt, length, length-append, if◌then◌else◌, Bool-cases,
  Option-cases,
}
use mathlib.Core.List.{append_assoc, append-nil}
use flow_type.FileTransfer.{max_manifest_line_bytes}
use flow_type.FileTransfer.Messages.{ManifestEntry}
use flow_type.FileStore.Manifests.{ManifestWriter}
use flow_type.FileServer.{Answer, answered, failed}
use flow_type.FileServer.Uploads.{Arrival, timed_out, broken, no_bytes, bytes_of}
use flow_type.FileServer.Ingest.{
  position, Consumed, BodyFrame, consume_lines, consume_manifest_lines, kept_going, frame_taken,
  ingest_body,
}
use flow_type.FileServer.Ingested.{
  position_after, consume_none, consume_some, taken_at, enough_fuel, bytes_apart,
}

-- The frames arrive, while the ticket is active.
abbrev DoesArrive : Arrival → Type 0
DoesArrive timed_out = ⊥
DoesArrive broken = ⊥
DoesArrive no_bytes = Unit
DoesArrive (bytes_of bs) = Unit

abbrev pub AllArrive : List BodyFrame → Type 0
AllArrive [] = Unit
AllArrive (f ∷ fs) = (f.active ≡ true) × DoesArrive f.arrival × AllArrive fs

abbrev brought : Arrival → List ℕ
brought timed_out = []
brought broken = []
brought no_bytes = []
brought (bytes_of bs) = bs

abbrev pub body_of : List BodyFrame → List ℕ
body_of [] = []
body_of (f ∷ fs) = brought f.arrival ++ body_of fs

module _ (encode : ManifestEntry → Option (List ℕ)) (decode : List ℕ → Option ManifestEntry) where
  -- The whole of the bytes are lines that are taken.
  abbrev pub TakenWhole : List ℕ → ManifestWriter → ManifestWriter → Type 0
  TakenWhole p w v = consume_manifest_lines encode decode p w ≡ answered ([], v)

  no_answer {ℓ} : {A : Type ℓ} (code : Text) (a : A) → failed code ≡ answered a → ⊥
  no_answer code a h = ground (arith, h)

  left_length : Consumed → ℕ
  left_length (failed code) = 0
  left_length (answered (p, w)) = length p

  with_nothing_left : Answer ManifestWriter → Consumed
  with_nothing_left (failed code) = failed code
  with_nothing_left (answered w) = answered ([], w)

  writer_of : Consumed → Answer ManifestWriter
  writer_of (failed code) = failed code
  writer_of (answered (p, w)) = answered w

  abbrev consumed : List ℕ → ManifestWriter → Consumed
  consumed p w = answered (p, w)

  nothing_left : (p : List ℕ) (u v : ManifestWriter) → consumed p u ≡ consumed [] v → length p ≡ 0
  unfolding left_length
  nothing_left p u v h = ap left_length h

  whole_none :
      (p : List ℕ) (w : ManifestWriter)
      → position p ≡ none
      → consume_manifest_lines encode decode p w ≡ answered (p, w)
  unfolding consume_manifest_lines
  whole_none p w h = consume_none encode decode (length p) p w h

  -- Too many bytes without a newline are never a line that is taken.
  too_long :
      (g : ℕ) (r q : List ℕ) (u v : ManifestWriter)
      → position r ≡ none
      → max_manifest_line_bytes < length r
      → length (r ++ q) ≤ g
      → consume_lines encode decode g (r ++ q) u ≡ answered ([], v)
      → ⊥
  too_long zero r q u v h l k e = omega (arith, l, k, length-append r q)
  too_long (suc g) r q u v h l k e = elim (Option-cases (position (r ++ q))) [
    | inl c ↦
        let all_left = sym (consume_none encode decode (suc g) (r ++ q) u c) ∙ e in
        ground (arith, nothing_left (r ++ q) u v all_left, l, length-append r q)
    | inr (n, c) ↦
        let far = position_after r q n h c in
        let refused : taken_at encode decode n (consume_lines encode decode g) (r ++ q) u
            ≡ failed (codes "manifest_line_too_large") =
          ground (arith, l, far) in
        no_answer (codes "manifest_line_too_large") ([], v)
          (sym refused ∙ sym (consume_some encode decode g n (r ++ q) u c) ∙ e)
  ]

  apart_whole :
      (p b q : List ℕ) (w : ManifestWriter)
      → consume_manifest_lines encode decode (p ++ (b ++ q)) w
        ≡ consume_lines encode decode (length ((p ++ b) ++ q)) ((p ++ b) ++ q) w
  unfolding consume_manifest_lines
  apart_whole p b q w =
      ap (λ x. consume_lines encode decode (length x) x w) (sym (append_assoc p b q))

  stopped :
      (fs : List BodyFrame) (r : List ℕ) (u : ManifestWriter)
      → ltb max_manifest_line_bytes (length r) ≡ true
      → kept_going encode decode (ingest_body encode decode fs) (consumed r u)
        ≡ failed (codes "manifest_line_too_large")
  stopped fs r u c =
      ap
        (λ b.
          if b then failed (codes "manifest_line_too_large") else ingest_body encode decode fs r u)
        c

  continued :
      (fs : List BodyFrame) (r : List ℕ) (u : ManifestWriter)
      → ltb max_manifest_line_bytes (length r) ≡ false
      → kept_going encode decode (ingest_body encode decode fs) (consumed r u)
        ≡ ingest_body encode decode fs r u
  continued fs r u c =
      ap
        (λ b.
          if b then failed (codes "manifest_line_too_large") else ingest_body encode decode fs r u)
        c

  frame_iff :
      (fs : List BodyFrame) (p b : List ℕ) (w v : ManifestWriter)
      → ((r : List ℕ) (u : ManifestWriter)
          → position r ≡ none
          → (ingest_body encode decode fs r u ≡ answered v) ↔ TakenWhole (r ++ body_of fs) u v)
      → (kept_going encode decode
            (ingest_body encode decode fs)
            (consume_manifest_lines encode decode (p ++ b) w)
          ≡ answered v)
        ↔ TakenWhole (p ++ (b ++ body_of fs)) w v
  unfolding consume_manifest_lines
  frame_iff fs p b w v k =
      elim (bytes_apart encode decode (length (p ++ b)) (p ++ b) (body_of fs) w (omega arith)) [
        | inl (code, x, y) ↦
            let whole =
              apart_whole p b (body_of fs) w ∙ y (length ((p ++ b) ++ body_of fs)) (omega arith) in
            (
              λ e. absurd (
                  no_answer code v
                    (sym (ap (kept_going encode decode (ingest_body encode decode fs)) x) ∙ e)),
              λ e. absurd (no_answer code ([], v) (sym whole ∙ e)),
            )
        | inr (r, u, x, y, z, t) ↦
            let all = (p ++ b) ++ body_of fs in
            let same : consume_manifest_lines encode decode (p ++ (b ++ body_of fs)) w
                ≡ consume_manifest_lines encode decode (r ++ body_of fs) u =
              apart_whole p b (body_of fs) w
              ∙ t (length all) (omega arith)
              ∙ enough_fuel encode decode (length all) (length (r ++ body_of fs)) (r ++ body_of fs)
                  u
                  (omega
                    (arith, z, length-append r (body_of fs), length-append (p ++ b) (body_of fs)))
                  (omega arith) in
            elim (Bool-cases (ltb max_manifest_line_bytes (length r))) [
              | inl c ↦ (
                λ e. absurd (
                    no_answer (codes "manifest_line_too_large") v (
                      sym (stopped fs r u c)
                      ∙ sym (ap (kept_going encode decode (ingest_body encode decode fs)) x)
                      ∙ e)),
                λ e. absurd (
                    too_long (length (r ++ body_of fs)) r (body_of fs) u v y
                      (ltb→lt max_manifest_line_bytes (length r) c) (omega arith) (sym same ∙ e)),
              )
              | inr c ↦
                  let goes =
                    ap (kept_going encode decode (ingest_body encode decode fs)) x
                    ∙ continued fs r u c in
                  (λ e. same ∙ (k r u y).0 (sym goes ∙ e), λ e. goes ∙ (k r u y).1 (sym same ∙ e))
            ]
      ]

  arrival_iff :
      (arrival : Arrival) (fs : List BodyFrame) (p : List ℕ) (w v : ManifestWriter)
      → DoesArrive arrival
      → position p ≡ none
      → ((r : List ℕ) (u : ManifestWriter)
          → position r ≡ none
          → (ingest_body encode decode fs r u ≡ answered v) ↔ TakenWhole (r ++ body_of fs) u v)
      → (frame_taken encode decode (ingest_body encode decode fs) true arrival p w ≡ answered v)
        ↔ TakenWhole (p ++ (brought arrival ++ body_of fs)) w v
  unfolding frame_taken
  arrival_iff timed_out fs p w v d h k = absurd d
  arrival_iff broken fs p w v d h k = absurd d
  arrival_iff no_bytes fs p w v d h k = k p w h
  arrival_iff (bytes_of b) fs p w v d h k = frame_iff fs p b w v k

  -- Where every frame arrives while the ticket is active: a body is taken in, to the same writer, exactly
  -- where the whole of its bytes in one piece are lines that are taken, with nothing left over. So it does
  -- not matter how the body is cut into frames.
  pub ingest_body-whole :
      (fs : List BodyFrame) (p : List ℕ) (w v : ManifestWriter)
      → AllArrive fs
      → position p ≡ none
      → (ingest_body encode decode fs p w ≡ answered v) ↔ TakenWhole (p ++ body_of fs) w v
  unfolding ingest_body with_nothing_left writer_of
  ingest_body-whole [] [] w v a h =
      let whole = whole_none [] w h in
      (λ e. whole ∙ ap with_nothing_left e, λ e. ap writer_of (sym whole ∙ e))
  ingest_body-whole [] (b ∷ p) w v a h =
      let whole = whole_none ((b ∷ p) ++ []) w (ap position (append-nil (b ∷ p)) ∙ h) in
      (
        λ e. absurd (no_answer (codes "incomplete_manifest_line") v e),
        λ e. ground (arith, nothing_left ((b ∷ p) ++ []) w v (sym whole ∙ e)),
      )
  ingest_body-whole (f ∷ fs) p w v a h =
      subst
        (λ b.
          (frame_taken encode decode (ingest_body encode decode fs) b f.arrival p w ≡ answered v)
          ↔ TakenWhole (p ++ (brought f.arrival ++ body_of fs)) w v)
        (sym a.0) (arrival_iff f.arrival fs p w v a.1 h (λ r u n. ingest_body-whole fs r u v a.2 n))
