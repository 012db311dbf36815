-- ===== src/FileServer/Ingest.antt =====
-- windows/flowtype-app/src/file_transfer_server.rs: the body of a manifest, in frames, is taken in line by
-- line. The JSON of an entry is serde's (`encode`, `decode`), and `digest` is SHA-256 in hexadecimal.
use flow_type.Prelude.{
  Text, codes, ℕ, zero, suc, Bool, Option, none, some, List, [], ◌∷◌, ◌++◌, ◌==◌, ltb, length, take,
  drop, is_empty, if◌then◌else◌,
}
use flow_type.FileTransfer.{max_manifest_line_bytes}
use flow_type.FileTransfer.Messages.{ManifestEntry}
use flow_type.FileStore.Batches.{BatchRecord}
use flow_type.FileStore.Manifests.{
  Manifest, ManifestWriter, begin_manifest, newline, append, finish,
}
use flow_type.FileServer.{Answer, answered, failed}
use flow_type.FileServer.Uploads.{Arrival, timed_out, broken, no_bytes, bytes_of}

abbrev pub carriage_return : ℕ
carriage_return = 13

abbrev pub one_later : Option ℕ → Option ℕ
one_later none = none
one_later (some n) = some (suc n)

-- `iter().position(|byte| *byte == b'\n')`
unfoldable pub position : List ℕ → Option ℕ
position [] = none
position (b ∷ bs) = let rest = position bs in if b == newline then some 0 else one_later rest

-- `last() == Some(&b'\r')`, `pop()`
unfoldable pub without_return : List ℕ → List ℕ
without_return [] = []
without_return (b ∷ []) = if b == carriage_return then [] else b ∷ []
without_return (b ∷ c ∷ bs) = b ∷ without_return (c ∷ bs)

-- What is left of the bytes that are pending, and the writer.
abbrev pub Consumed : Type 0
Consumed = Answer (List ℕ × ManifestWriter)

-- A frame of the body, and whether the ticket is active when it is there.
pub record BodyFrame : Type 0 where
  pub arrival : Arrival
  pub active : Bool

module _ (encode : ManifestEntry → Option (List ℕ)) (decode : List ℕ → Option ManifestEntry) where
  abbrev pub line_taken : (ManifestWriter → Consumed) → Option ManifestWriter → Consumed
  line_taken go none = failed (codes "invalid_manifest")
  line_taken go (some w) = go w

  abbrev pub entry_taken :
      (ManifestWriter → Consumed) → ManifestWriter → Option ManifestEntry → Consumed
  unfolding append
  entry_taken go w none = failed (codes "invalid_manifest")
  entry_taken go w (some e) = line_taken go (append encode e w)

  unfoldable pub line_consumed : (ManifestWriter → Consumed) → ManifestWriter → List ℕ → Consumed
  unfolding append without_return
  line_consumed go w line = entry_taken go w (decode (without_return line))

  -- `consume_manifest_lines`. Each line takes a byte at least, so the length of what is pending is fuel
  -- enough.
  unfoldable pub consume_lines : ℕ → List ℕ → ManifestWriter → Consumed
  unfolding position line_consumed
  consume_lines zero pending w = answered (pending, w)
  consume_lines (suc fuel) pending w =
      let rest = consume_lines fuel in
      elim (position pending) [
        | none ↦ answered (pending, w)
        | some n ↦
            if ltb max_manifest_line_bytes n
            then failed (codes "manifest_line_too_large")
            else line_consumed (rest (drop (suc n) pending)) w (take n pending)
      ]

  unfoldable pub consume_manifest_lines : List ℕ → ManifestWriter → Consumed
  unfolding consume_lines
  consume_manifest_lines pending w = consume_lines (length pending) pending w

  abbrev pub kept_going :
      (List ℕ → ManifestWriter → Answer ManifestWriter) → Consumed → Answer ManifestWriter
  kept_going go (failed code) = failed code
  kept_going go (answered (pending, w)) =
      if ltb max_manifest_line_bytes (length pending)
      then failed (codes "manifest_line_too_large")
      else go pending w

  unfoldable pub frame_taken :
      (List ℕ → ManifestWriter → Answer ManifestWriter)
      → Bool
      → Arrival
      → List ℕ
      → ManifestWriter
      → Answer ManifestWriter
  unfolding consume_manifest_lines
  frame_taken go active timed_out pending w = failed (codes "body_idle_timeout")
  frame_taken go active broken pending w =
      failed (codes (if active then "body_read_failed" else "transfer_canceled"))
  frame_taken go active no_bytes pending w =
      if active then go pending w else failed (codes "transfer_canceled")
  frame_taken go active (bytes_of bs) pending w =
      if active
      then kept_going go (consume_manifest_lines (pending ++ bs) w)
      else failed (codes "transfer_canceled")

  -- The loop over the body, and the check that no line is left unfinished.
  unfoldable pub ingest_body : List BodyFrame → List ℕ → ManifestWriter → Answer ManifestWriter
  unfolding frame_taken
  ingest_body [] pending w =
      if is_empty pending then answered w else failed (codes "incomplete_manifest_line")
  ingest_body (f ∷ fs) pending w = frame_taken (ingest_body fs) f.active f.arrival pending w

  abbrev pub finished_with : (List ℕ → Text) → Answer ManifestWriter → Answer Manifest
  unfolding finish
  finished_with digest (failed code) = failed code
  finished_with digest (answered w) = elim (finish digest w) [
    | none ↦ failed (codes "manifest_count_mismatch")
    | some m ↦ answered m
  ]

  -- `ingest_manifest`, up to `prepare_incoming`.
  unfoldable pub ingest_manifest : (List ℕ → Text) → List BodyFrame → BatchRecord → Answer Manifest
  unfolding begin_manifest ingest_body finish
  ingest_manifest digest fs b = elim (begin_manifest b) [
    | none ↦ failed (codes "manifest_already_started")
    | some w ↦ finished_with digest (ingest_body fs [] w)
  ]
