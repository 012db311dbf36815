-- ===== src/Tests/Uploads.antt =====
-- The theorems about uploads, at a file of two bytes.
use flow_type.Prelude.{
  Text, codes, ℕ, ◌≡◌, inl, refl, arith, true, false, none, some, List, [], ◌∷◌, text_eq,
}
use flow_type.FileTransfer.States.{EntryState}
use flow_type.FileTransfer.Messages.{ManifestEntry, EntryKind}
use flow_type.FileServer.{answered}
use flow_type.FileServer.Uploads.{
  Slot, Frame, bytes_of, timed_out, is_done, is_refused, eq_ignore_ascii_case, receive_body,
  receive_at, end_of_body, receive_file,
}
use flow_type.FileServer.Commits.{
  VerifyIo, Step, receive, verify, crash, run, step, verify_upload, commit_uploaded_file,
  commit_bytes, put_in_place, crashed,
}
use flow_type.FileServer.Durable.{IsSound}
use flow_type.FileServer.Completed.{IsPatient, IsLater, run-IsLater}
use flow_type.FileServer.Faithful.{IsFaithful}
use flow_type.FileServer.Assembled.{run-IsFaithful}
use flow_type.FileServer.Recovered.{all_well, IsReceived}
use flow_type.FileServer.Resumed.{all_verified, resume-completes}
use flow_type.FileServer.Reopened.{FailsAt, reopened-fails}

-- As if every text were its own hash.
abbrev own_hash : List ℕ → Text
own_hash bs = bs

abbrev file : List ℕ
file = codes "hi"

abbrev letter : ManifestEntry
letter = record {
  ordinal = 0;
  entry_id = codes "e";
  relative_path = codes "f";
  kind = EntryKind.file;
  size = 2;
  modified_at_epoch_millis = none;
  mime_type = none;
  sha256 = some (codes "HI");
}

abbrev fresh : Slot
fresh = record {
  part = none;
  synced = 0;
  target = none;
  target_synced = 0;
  progress = record { state = EntryState.pending; committed_offset = 0 };
}

fresh-IsSound : IsSound own_hash letter fresh
fresh-IsSound = record {
  fits = omega arith;
  durable = omega arith;
  within = omega arith;
  acknowledged = inl (omega arith);
  placed = tt;
  completed = λ c. ground (arith, c);
}

abbrev frame_of : List ℕ → Frame
frame_of bs = record {
  arrival = bytes_of bs;
  active = true;
  written = none;
  has_room = true;
  second_passed = true;
  syncs = true;
  stores = true;
}

-- Interrupted after a byte, by a crash too, and then completed, with a crash at the end.
abbrev life : List Step
life =
    receive false all_well
      (frame_of (codes "h") ∷ record (frame_of []) { arrival = timed_out } ∷ []) 0
    ∷ crash 1 0 true
    ∷ receive false all_well (frame_of (codes "i") ∷ []) 1
    ∷ verify all_verified (codes "Hi")
    ∷ crash 0 2 true
    ∷ []

abbrev in_the_end : Slot
in_the_end = record {
  part = none;
  synced = 0;
  target = some file;
  target_synced = 2;
  progress = record { state = EntryState.completed; committed_offset = 2 };
}

life-IsPatient : IsPatient own_hash letter life fresh
unfolding step receive_file receive_at receive_body end_of_body verify_upload commit_uploaded_file
    commit_bytes put_in_place crashed is_refused eq_ignore_ascii_case text_eq
life-IsPatient = (tt, (tt, (tt, (refl, (tt, tt)))))

run-IsLater_example : IsLater own_hash letter fresh in_the_end
unfolding run step receive_file receive_at receive_body end_of_body verify_upload
    commit_uploaded_file commit_bytes put_in_place crashed is_refused eq_ignore_ascii_case text_eq
run-IsLater_example = run-IsLater own_hash letter life fresh life-IsPatient fresh-IsSound

run-IsFaithful_example : IsFaithful file in_the_end
unfolding run step receive_file receive_at receive_body end_of_body verify_upload
    commit_uploaded_file commit_bytes put_in_place crashed is_refused eq_ignore_ascii_case text_eq
run-IsFaithful_example =
    run-IsFaithful own_hash letter file life fresh refl
      ((codes "i", refl, tt), (tt, (([], refl, tt), (tt, (tt, tt))))) life-IsPatient fresh-IsSound
      (record { rest = file; begins = refl; in_place = inl refl })

-- What the interruption leaves.
abbrev half_way : Slot
half_way = record {
  part = some (codes "h");
  synced = 1;
  target = none;
  target_synced = 0;
  progress = record { state = EntryState.transferring; committed_offset = 1 };
}

half_way-IsSound : IsSound own_hash letter half_way
half_way-IsSound = record {
  fits = omega arith;
  durable = omega arith;
  within = omega arith;
  acknowledged = inl (omega arith);
  placed = tt;
  completed = λ c. ground (arith, c);
}

same_hash : is_refused letter (own_hash file) ≡ false
unfolding is_refused eq_ignore_ascii_case text_eq
same_hash = refl

resume-completes_example :
    let r = receive_file own_hash letter true all_well (frame_of (codes "i") ∷ []) 1 half_way in
    let v = verify_upload own_hash letter all_verified (codes "hi") r.1 in
    IsReceived own_hash letter file true r
    × (v.0 ≡ answered tt)
    × (v.1.target ≡ some file)
    × (v.1.part ≡ none)
    × (v.1.progress ≡ record { state = EntryState.completed; committed_offset = 2 })
resume-completes_example =
    resume-completes own_hash letter file true (frame_of (codes "i") ∷ []) half_way refl
      (omega arith) same_hash half_way-IsSound
      (record { rest = codes "i"; begins = refl; in_place = inl refl }) refl
      (λ c. ground (arith, c)) ((refl, refl, refl, refl), ([], refl, refl))

-- An empty file that is in place, of which there is no record.
abbrev empty : ManifestEntry
empty = record letter { size = 0; sha256 = none }

abbrev unrecorded : Slot
unrecorded = record {
  part = none;
  synced = 0;
  target = some [];
  target_synced = 0;
  progress = record { state = EntryState.transferring; committed_offset = 0 };
}

reopened-fails_example :
    let after =
      run own_hash empty (receive true all_well [] 0 ∷ verify all_verified [] ∷ []) unrecorded in
    (is_done after ≡ false)
    × ((other : VerifyIo) (supplied : Text)
        → FailsAt after (verify_upload own_hash empty other supplied after))
reopened-fails_example =
    reopened-fails own_hash empty true all_well [] unrecorded (verify all_verified [] ∷ []) refl
      (omega arith) refl refl refl refl refl refl tt

-- A body that arrives in full, of which the client hears nothing, is not on the disk for good; it is
-- verified even so, and a crash then cuts off the file of a completed entry.
abbrev hasty : List Step
hasty =
    receive true all_well
      (record (frame_of file) { second_passed = false }
        ∷ record (frame_of []) { arrival = timed_out }
        ∷ [])
      0
    ∷ verify all_verified file
    ∷ crash 0 1 false
    ∷ []

hasty_loses :
    let after = run own_hash letter hasty fresh in
    (is_done after ≡ true) × (after.target ≡ some (codes "h"))
unfolding run step receive_file receive_at receive_body end_of_body verify_upload
    commit_uploaded_file commit_bytes put_in_place crashed is_refused eq_ignore_ascii_case text_eq
hasty_loses = (refl, refl)
