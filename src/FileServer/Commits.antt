-- ===== src/FileServer/Commits.antt =====
-- windows/flowtype-app/src/file_transfer_server.rs: how a received file is verified and put into place,
-- a failure that the phone reports, and the life of one entry of an upload.
use flow_type.Prelude.{
  Text, codes, ℕ, Bool, not, ◌||◌, ◌&&◌, Option, none, some, List, [], ◌∷◌, ◌==◌, leb, length, take,
  is_some, if◌then◌else◌,
}
use flow_type.FileTransfer.States.{EntryState}
use flow_type.FileTransfer.Messages.{ManifestEntry}
use flow_type.FileServer.{Answer, answered, failed}
use flow_type.FileServer.Uploads.{
  Slot, Frame, Io, eq_ignore_ascii_case, is_refused, with_progress, is_done, receive_file,
}

-- What the file system and the store answer in `commit_uploaded_file`.
pub record VerifyIo : Type 0 where
  pub knows_target : Bool
  pub measures : Bool
  pub hashes : Bool
  pub active : Bool
  pub renames : Bool
  pub stores : Bool

abbrev pub Verified : Type 0
Verified = Answer (Unit {0}) × Slot

abbrev pub completed_at : VerifyIo → ℕ → Slot → Verified
completed_at io size s =
    if io.stores
    then (answered tt, with_progress s EntryState.completed size)
    else (failed (codes "progress_unavailable"), s)

-- The `.part` file becomes the target, with what of it is not on the disk for good.
abbrev pub renamed : List ℕ → Slot → Slot
renamed bs s = record s { part = none; synced = 0; target = some bs; target_synced = s.synced }

unfoldable pub put_in_place : VerifyIo → ℕ → List ℕ → Slot → Verified
put_in_place io size bs s =
    if is_some s.part
    then (if is_some s.target
        then (failed (codes "target_exists"), s)
        else if not io.renames
        then (failed (codes "commit_failed"), s)
        else completed_at io size (renamed bs s))
    else completed_at io size s

-- `path`: the `.part` file where there is one, or the target.
abbrev pub to_verify : Slot → Option (List ℕ)
to_verify s = if is_some s.part then s.part else s.target

-- `failures/` of an upload: whether the record is written, and the file removed.
unfoldable pub report_failure : Bool → Bool → Slot → Slot
report_failure stores removes s =
    if is_done s || not stores
    then s
    else record (with_progress s EntryState.failed s.progress.committed_offset) {
      part = if removes then none else s.part;
      synced = if removes then 0 else s.synced;
    }

-- A request, or a crash, which keeps no more of the `.part` file and of the target than their first bytes:
-- `n` and `k` of them, and all that are on the disk for good. A `.part` file of which nothing is may be lost
-- as a whole. Renaming a file and cutting it off last. A cancellation ends the life of an entry: no request
-- is let in after it, and the `.part` file is removed.
pub data Step : Type 0 where
  receive : Bool → Io → List Frame → ℕ → Step
  verify : VerifyIo → Text → Step
  failure : Bool → Bool → Step
  crash : ℕ → ℕ → Bool → Step

abbrev pub kept : ℕ → Option (List ℕ) → Option (List ℕ)
kept n none = none
kept n (some bs) = some (take n bs)

abbrev pub part_after : ℕ → Bool → Slot → Option (List ℕ)
part_after n lost s = if lost && s.synced == 0 then none else kept n s.part

unfoldable pub crashed : ℕ → ℕ → Bool → Slot → Slot
crashed n k lost s =
    if leb s.synced n && leb s.target_synced k
    then record s { part = part_after n lost s; target = kept k s.target }
    else s

module _ (digest : List ℕ → Text) (e : ManifestEntry) where
  unfoldable pub commit_bytes : VerifyIo → Text → Slot → Option (List ℕ) → Verified
  unfolding eq_ignore_ascii_case put_in_place
  commit_bytes io supplied s none = (failed (codes "target_unavailable"), s)
  commit_bytes io supplied s (some bs) =
      if not io.measures
      then (failed (codes "target_unavailable"), s)
      else if not (length bs == e.size)
      then (failed (codes "integrity_failed"), s)
      else if not io.hashes
      then (failed (codes "target_unavailable"), s)
      else if not (eq_ignore_ascii_case (digest bs) supplied)
      then (failed (codes "integrity_failed"), s)
      else if not io.active
      then (failed (codes "transfer_canceled"), s)
      else put_in_place io e.size bs s

  unfoldable pub commit_uploaded_file : VerifyIo → Text → Slot → Verified
  unfolding commit_bytes
  commit_uploaded_file io supplied s =
      if not io.knows_target
      then (failed (codes "target_unavailable"), s)
      else commit_bytes io supplied s (to_verify s)

  -- `verify_entry` of an upload.
  unfoldable pub verify_upload : VerifyIo → Text → Slot → Verified
  unfolding commit_uploaded_file is_refused
  verify_upload io supplied s =
      if is_refused e supplied
      then (failed (codes "integrity_failed"), s)
      else commit_uploaded_file io supplied s

  unfoldable pub step : Step → Slot → Slot
  unfolding receive_file verify_upload report_failure crashed
  step (receive deferred io fs offset) s = (receive_file digest e deferred io fs offset s).1
  step (verify io supplied) s = (verify_upload io supplied s).1
  step (failure stores removes) s = report_failure stores removes s
  step (crash n k lost) s = crashed n k lost s

  unfoldable pub run : List Step → Slot → Slot
  unfolding step
  run [] s = s
  run (t ∷ ts) s = run ts (step t s)
