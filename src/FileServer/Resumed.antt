-- ===== src/FileServer/Resumed.antt =====
-- Proofs about windows/flowtype-app/src/file_transfer_server.rs: the two requests that complete an upload
-- from any state that interruptions leave, and the state from which none does.
use flow_type.Prelude.{
  Text, ℕ, ◌≤◌, ◌≡◌, ◌≢◌, inl, inr, refl, ◌∙◌, ap, arith, Bool, true, false, none, some, List,
  length, length-take, take, drop, Bool-cases, text_eq_iff, map,
}
use flow_type.FileTransfer.States.{EntryState, same_entry_state}
use flow_type.FileTransfer.Messages.{ManifestEntry}
use flow_type.FileServer.{answered}
use flow_type.FileServer.Ranges.{max_u64}
use flow_type.FileServer.Uploads.{
  Slot, Frame, is_refused, eq_ignore_ascii_case, ascii_lower, staged, with_progress, is_done,
  receive_body, cut, receive_at, receive_file,
}
use flow_type.FileServer.Commits.{
  VerifyIo, Verified, renamed, put_in_place, commit_bytes, commit_uploaded_file, verify_upload,
}
use flow_type.FileServer.Durable.{IsSound}
use flow_type.FileServer.Faithful.{IsFaithful}
use flow_type.FileServer.Assembled.{cut_file}
use flow_type.FileServer.Recovered.{
  Brings, all_well, IsReceived, receive_body-IsReceived, received_as,
}

abbrev pub all_verified : VerifyIo
all_verified = record {
  knows_target = true;
  measures = true;
  hashes = true;
  active = true;
  renames = true;
  stores = true;
}

equal_hash : (a : Text) → eq_ignore_ascii_case a a ≡ true
unfolding eq_ignore_ascii_case
equal_hash a = (text_eq_iff (map ascii_lower a) (map ascii_lower a)).1 refl

state_done :
    (x : EntryState) → same_entry_state x EntryState.completed ≡ true → x ≡ EntryState.completed
state_done x h = ground (arith, h)

module _ (digest : List ℕ → Text) (e : ManifestEntry) (file : List ℕ) where
  at_starts :
      (deferred : Bool) (fs : List Frame) (offset : ℕ) (s : Slot)
      → offset ≤ length (staged s)
      → receive_at digest e deferred all_well fs offset s
        ≡ receive_body digest e deferred all_well fs offset offset
            (with_progress (cut offset s) EntryState.transferring offset)
  unfolding receive_at
  at_starts deferred fs offset s h = ground (arith, h)

  file_starts :
      (deferred : Bool) (fs : List Frame) (s : Slot)
      → s.progress.committed_offset ≤ e.size
      → is_done s ≡ false
      → receive_file digest e deferred all_well fs s.progress.committed_offset s
        ≡ receive_at digest e deferred all_well fs s.progress.committed_offset
            (record s { part = some (staged s) })
  unfolding receive_file
  file_starts deferred fs s h k = ground (arith, h, k)

  receive_file-IsReceived :
      (deferred : Bool) (fs : List Frame) (s : Slot)
      → length file ≡ e.size
      → e.size ≤ max_u64
      → is_refused e (digest file) ≡ false
      → s.progress.committed_offset ≤ length (staged s)
      → s.progress.committed_offset ≤ e.size
      → is_done s ≡ false
      → s.target ≡ none
      → IsFaithful file s
      → Brings fs (drop s.progress.committed_offset file)
      → IsReceived digest e file deferred
          (receive_file digest e deferred all_well fs s.progress.committed_offset s)
  receive_file-IsReceived deferred fs s l m q h w d t k b =
      let n = s.progress.committed_offset in
      let opened : Slot = record s { part = some (staged s) } in
      received_as digest e file deferred (receive_file digest e deferred all_well fs n s)
        (receive_body digest e deferred all_well fs n n
          (with_progress (cut n opened) EntryState.transferring n))
        (file_starts deferred fs s w d ∙ at_starts deferred fs n opened h)
        (receive_body-IsReceived digest e file deferred fs n n
          (with_progress (cut n opened) EntryState.transferring n) (take n (staged s)) (drop n file)
          l m q (refl, omega (arith, h, length-take n (staged s)), t)
          (cut_file n (staged s) k.rest file k.begins h) b)

  verify_puts :
      (s : Slot)
      → length file ≡ e.size
      → is_refused e (digest file) ≡ false
      → s.part ≡ some file
      → s.target ≡ none
      → verify_upload digest e all_verified (digest file) s
        ≡ (answered tt, with_progress (renamed file s) EntryState.completed e.size)
  unfolding verify_upload commit_uploaded_file commit_bytes put_in_place
  verify_puts s l q p t = ground (arith, l, q, p, t, equal_hash (digest file))

  -- The acknowledged bytes are staged.
  acknowledged_staged :
      (s : Slot)
      → IsSound digest e s
      → s.target ≡ none
      → s.progress.state ≢ EntryState.failed
      → s.progress.committed_offset ≤ length (staged s)
  acknowledged_staged s k t f = elim k.acknowledged [
    | inl p ↦ omega (arith, p, k.durable)
    | inr (p, inl c) ↦ elim (f c) [ ]
    | inr (p, inr c) ↦ ground (arith, c, t)
  ]

  not_done : (s : Slot) → IsSound digest e s → s.target ≡ none → is_done s ≡ false
  not_done s k t = elim (Bool-cases (is_done s)) [
    | inr c ↦ c
    | inl c ↦ ground (arith, k.completed (state_done s.progress.state c), t)
  ]

  -- From any state of an upload that is sound, with the file's bytes staged as far as they are, no file
  -- in place and no failure reported: a request whose body brings the rest of the file, from the
  -- acknowledged offset on, and a request to verify with the file's hash, put the file in place and
  -- complete the entry, where nothing fails on the way. The file has the entry's size, which is a u64, and
  -- the entry names no other hash.
  pub resume-completes :
      (deferred : Bool) (fs : List Frame) (s : Slot)
      → length file ≡ e.size
      → e.size ≤ max_u64
      → is_refused e (digest file) ≡ false
      → IsSound digest e s
      → IsFaithful file s
      → s.target ≡ none
      → s.progress.state ≢ EntryState.failed
      → Brings fs (drop s.progress.committed_offset file)
      → let r = receive_file digest e deferred all_well fs s.progress.committed_offset s in
        let v = verify_upload digest e all_verified (digest file) r.1 in
        IsReceived digest e file deferred r
        × (v.0 ≡ answered tt)
        × (v.1.target ≡ some file)
        × (v.1.part ≡ none)
        × (v.1.progress ≡ record { state = EntryState.completed; committed_offset = e.size })
  resume-completes deferred fs s l m q k g t f b =
      let staged_so_far = acknowledged_staged s k t f in
      let r =
        receive_file-IsReceived deferred fs s l m q staged_so_far k.within (not_done s k t) t g b in
      let v =
        verify_puts (receive_file digest e deferred all_well fs s.progress.committed_offset s).1 l q
          r.1 r.2 in
      (
        r,
        ap (λ (x : Verified). x.0) v,
        ap (λ (x : Verified). x.1.target) v,
        ap (λ (x : Verified). x.1.part) v,
        ap (λ (x : Verified). x.1.progress) v,
      )
