-- ===== src/FileStore/Fields.antt =====
-- Proofs about windows/flowtype-app/src/file_transfer_store.rs: what is written to a progress record
-- is read back, and what is read was written so, or never written.
use flow_type.Prelude.{
  ℕ, zero, suc, ◌+◌, ◌*◌, ◌/◌, ◌%◌, ◌<◌, ◌≡◌, ◌⊎◌, inl, inr, refl, ◌∙◌, ap, subst, arith, true,
  false, not, some, List, [], ◌∷◌, ◌==◌, any, all, All, take, drop, replicate, length, Bool-cases,
}
use flow_type.FileTransfer.{Validated, ok, err}
use flow_type.FileTransfer.States.{EntryState, entry_byte, entry_state_from, entry_state_from_iff}
use flow_type.FileStore.Progress.{
  EntryProgress, byte_at, with_state, to_le_bytes, from_le_bytes, encode_progress, decode_progress,
}

-- One more than the largest number of `n` bytes.
abbrev pub bound : ℕ → ℕ
bound zero = 1
bound (suc n) = 256 * bound n

pub from-to_le_bytes : (n value : ℕ) → value < bound n → from_le_bytes (to_le_bytes n value) ≡ value
unfolding to_le_bytes from_le_bytes
from-to_le_bytes zero value h = omega arith
from-to_le_bytes (suc n) value h = omega (arith, from-to_le_bytes n (value / 256) (omega arith))

abbrev pub IsByte : ℕ → Type 0
IsByte b = b < 256

to-from_le_bytes : (bs : List ℕ) → All IsByte bs → to_le_bytes (length bs) (from_le_bytes bs) ≡ bs
unfolding to_le_bytes from_le_bytes
to-from_le_bytes [] h = refl
to-from_le_bytes (b ∷ bs) h =
    let low = head_of in
    let high = rest_of in rw (low, high) (ap (λ r. b ∷ r) (to-from_le_bytes bs h.1))
  where
    head_of : (b + 256 * from_le_bytes bs) % 256 ≡ b
    head_of = omega (arith, h.0)

    rest_of : (b + 256 * from_le_bytes bs) / 256 ≡ from_le_bytes bs
    rest_of = omega (arith, h.0)

state_back :
    (state : EntryState) (offset : ℕ)
    → with_state (entry_state_from (entry_byte state)) offset
      ≡ some (record { state = state; committed_offset = offset })
state_back state offset = rw ((entry_state_from_iff (entry_byte state) state).1 refl) refl

-- A progress record is read back as it was written, for every state and every 64-bit offset.
pub decode-encode_progress :
    (p : EntryProgress)
    → p.committed_offset < bound 8
    → decode_progress (encode_progress p) ≡ some p
unfolding decode_progress encode_progress
decode-encode_progress p h =
    ap (λ o. with_state (entry_state_from (entry_byte p.state)) o)
      (from-to_le_bytes 8 p.committed_offset h)
    ∙ state_back p.state p.committed_offset

with_state-some :
    (st offset : ℕ) (p : EntryProgress) (v : Validated EntryState)
    → entry_state_from st ≡ v
    → with_state v offset ≡ some p
    → (entry_byte p.state ≡ st) × (p.committed_offset ≡ offset)
with_state-some st offset p (err e) q h = ground arith
with_state-some st offset p (ok state) q h = ground (arith, entry_state_from_iff st state)

abbrev pending_entry : EntryProgress
pending_entry = record { state = EntryState.pending; committed_offset = 0 }

decode_cases :
    (bs : List ℕ) (p : EntryProgress)
    → decode_progress bs ≡ some p
    → ((all (λ b. b == 0) bs ≡ true) × (p ≡ pending_entry))
      ⊎ ((byte_at 0 bs ≡ 1)
          × (any (λ b. not (b == 0)) (take 6 (drop 2 bs)) ≡ false)
          × (with_state (entry_state_from (byte_at 1 bs)) (from_le_bytes (drop 8 bs)) ≡ some p))
unfolding decode_progress
decode_cases bs p h = elim (Bool-cases (all (λ b. b == 0) bs)) [
  | inl e ↦ inl (e, ground arith)
  | inr e ↦ inr (ground arith, ground arith, ground arith)
]

zeros : (bs : List ℕ) → any (λ b. not (b == 0)) bs ≡ false → bs ≡ replicate (length bs) 0
zeros [] h = refl
zeros (b ∷ bs) h = ground (arith, zeros bs)

-- What is read from 16 bytes was written for it, or is the record of an entry that was never
-- written: 16 zeros, read as pending at offset 0.
encode-decode_progress :
    (v st r2 r3 r4 r5 r6 r7 : ℕ) (offset : List ℕ) (p : EntryProgress)
    → length offset ≡ 8
    → All IsByte offset
    → decode_progress (v ∷ st ∷ r2 ∷ r3 ∷ r4 ∷ r5 ∷ r6 ∷ r7 ∷ offset) ≡ some p
    → (encode_progress p ≡ v ∷ st ∷ r2 ∷ r3 ∷ r4 ∷ r5 ∷ r6 ∷ r7 ∷ offset)
      ⊎ ((all (λ b. b == 0) (v ∷ st ∷ r2 ∷ r3 ∷ r4 ∷ r5 ∷ r6 ∷ r7 ∷ offset) ≡ true)
          × (p ≡ record { state = EntryState.pending; committed_offset = 0 }))
unfolding encode_progress
encode-decode_progress v st r2 r3 r4 r5 r6 r7 offset p l b h =
    elim (decode_cases (v ∷ st ∷ r2 ∷ r3 ∷ r4 ∷ r5 ∷ r6 ∷ r7 ∷ offset) p h) [
      | inl e ↦ inr e
      | inr (version, reserved, read) ↦
          let found = with_state-some st (from_le_bytes offset) p (entry_state_from st) refl read in
          let bytes_back =
            subst (λ n. to_le_bytes n (from_le_bytes offset) ≡ offset) l
              (to-from_le_bytes offset b) in
          inl (ground (arith, version, reserved, found, ap (to_le_bytes 8) found.1 ∙ bytes_back))
    ]
