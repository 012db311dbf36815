-- ===== src/FileStore/Batches.antt =====
-- windows/flowtype-app/src/file_transfer_store.rs: the batch records, and the store as the directories
-- below its root. A directory has the record that its batch.json decodes to, or none. JSON is serde's:
-- a record is read as it was written.
use flow_type.Prelude.{
  Text, ℕ, ◌*◌, Bool, true, false, not, ◌&&◌, ◌||◌, Option, none, some, List, [], ◌∷◌, ◌==◌, ltb,
  any, all, max, is_empty, is_some, is_some_and, byte_len, bytes, text_eq, if◌then◌else◌, get,
  remove, insert,
}
use flow_type.FileTransfer.{max_phone_id_bytes, max_wire_integer, ok, err, Validated}
use flow_type.FileTransfer.States.{BatchState, is_terminal, can_transition_to}
use flow_type.FileTransfer.Paths.{is_control}
use flow_type.FileTransfer.Messages.{TransferDirection, is_identifier_byte, validate_batch_id}

abbrev pub store_version_number : ℕ
store_version_number = 1

pub record BatchRecord : Type 0 where
  pub store_version : ℕ
  pub batch_id : Text
  pub phone_id : Text
  pub direction : TransferDirection
  pub state : BatchState
  pub created_at_epoch_seconds : ℕ
  pub updated_at_epoch_seconds : ℕ
  pub file_count : ℕ
  pub directory_count : ℕ
  pub total_bytes : ℕ
  pub target_root : Option Text

-- What the file system does during one call: whether a batch.json can be read, a directory created or
-- removed, a batch.json written, and the root listed.
pub record Disk : Type 0 where
  pub reads : Text → Bool
  pub creates : Text → Bool
  pub writes : Text → Bool
  pub removes : Text → Bool
  pub lists : Bool

abbrev pub Store : Type 0
Store = List (Text × Option BatchRecord)

abbrev pub is_ok : Validated (Unit {0}) → Bool
is_ok (ok _) = true
is_ok (err _) = false

abbrev refused_target : Text → Bool
refused_target root = is_empty root || ltb (32 * 1024) (byte_len root) || any is_control root

-- `BatchRecord::validate`
unfoldable pub validate : BatchRecord → Bool
unfolding validate_batch_id
validate b = not (
    not (b.store_version == store_version_number)
    || not (is_ok (validate_batch_id b.batch_id))
    || is_empty b.phone_id
    || ltb max_phone_id_bytes (byte_len b.phone_id)
    || not (all is_identifier_byte (bytes b.phone_id))
    || (b.file_count == 0 && b.directory_count == 0)
    || ltb max_wire_integer b.file_count
    || ltb max_wire_integer b.directory_count
    || ltb max_wire_integer b.total_bytes
    || ltb b.updated_at_epoch_seconds b.created_at_epoch_seconds
    || is_some_and b.target_root refused_target)

abbrev first_state : TransferDirection → BatchState
first_state TransferDirection.phone_to_computer = BatchState.queued
first_state TransferDirection.computer_to_phone = BatchState.waiting_confirmation

-- `BatchRecord::new`
unfoldable pub new : Text → Text → TransferDirection → ℕ → ℕ → ℕ → ℕ → Option BatchRecord
unfolding validate
new batch_id phone_id direction now file_count directory_count total_bytes =
    let value : BatchRecord = record {
      store_version = store_version_number;
      batch_id = batch_id;
      phone_id = phone_id;
      direction = direction;
      state = first_state direction;
      created_at_epoch_seconds = now;
      updated_at_epoch_seconds = now;
      file_count = file_count;
      directory_count = directory_count;
      total_bytes = total_bytes;
      target_root = none;
    } in
    if validate value then some value else none

pub data Created : Type 0 where
  created already_exists refused : Created

abbrev pub contents_of : Option (Option BatchRecord) → Option BatchRecord
contents_of none = none
contents_of (some contents) = contents

-- What `batch.json` in the directory of this name decodes to.
unfoldable pub on_disk : Text → Store → Option BatchRecord
unfolding get
on_disk id s = contents_of (get id s)

abbrev pub checked : Text → Option BatchRecord → Option BatchRecord
checked id none = none
checked id (some b) = if validate b && text_eq b.batch_id id then some b else none

unfoldable pub load_batch : Disk → Text → Store → Option BatchRecord
unfolding validate_batch_id validate text_eq on_disk
load_batch d id s =
    if is_ok (validate_batch_id id) && d.reads id then checked id (on_disk id s) else none

unfoldable pub create_batch : Disk → BatchRecord → Store → Created × Store
unfolding validate get
create_batch d b s =
    if not (validate b)
    then (refused, s)
    else if is_some (get b.batch_id s)
    then (already_exists, s)
    else if not (d.creates b.batch_id)
    then (refused, s)
    else if not (d.writes b.batch_id)
    then (refused, insert b.batch_id none s)
    else (created, insert b.batch_id (some b) s)

abbrev pub moved : BatchRecord → BatchState → ℕ → BatchRecord
moved b state now = record b {
  state = state;
  updated_at_epoch_seconds = max now b.updated_at_epoch_seconds;
}

abbrev pub written : Disk → Text → BatchRecord → Store → Option BatchRecord × Store
written d id b s = if validate b && d.writes id then (some b, insert id (some b) s) else (none, s)

abbrev update_loaded :
    Disk → Text → BatchState → ℕ → Store → Option BatchRecord → Option BatchRecord × Store
update_loaded d id state now s none = (none, s)
update_loaded d id state now s (some b) =
    if can_transition_to b.state state then written d id (moved b state now) s else (none, s)

unfoldable pub update_state : Disk → Text → BatchState → ℕ → Store → Option BatchRecord × Store
unfolding load_batch can_transition_to validate
update_state d id state now s = update_loaded d id state now s (load_batch d id s)

unfoldable pub delete_batch : Disk → Text → Store → Store
unfolding remove validate_batch_id
delete_batch d id s = if is_ok (validate_batch_id id) && d.removes id then remove id s else s

-- The records that load, in the order of the directories.
unfoldable pub loaded : Disk → Store → Store → List BatchRecord
unfolding load_batch
loaded d whole [] = []
loaded d whole ((id, contents) ∷ s) =
    let rest = loaded d whole s in elim (load_batch d id whole) [ none ↦ rest | some b ↦ b ∷ rest ]

-- `<` of `str`.
unfoldable pub text_lt : Text → Text → Bool
text_lt s [] = false
text_lt [] (y ∷ t) = true
text_lt (x ∷ s) (y ∷ t) = ltb x y || (x == y && text_lt s t)

abbrev pub before : BatchRecord → BatchRecord → Bool
before a b =
    ltb a.created_at_epoch_seconds b.created_at_epoch_seconds
    || (a.created_at_epoch_seconds == b.created_at_epoch_seconds && text_lt a.batch_id b.batch_id)

unfoldable pub place : BatchRecord → List BatchRecord → List BatchRecord
unfolding text_lt
place b [] = b ∷ []
place b (c ∷ cs) = let rest = place b cs in if before c b then c ∷ rest else b ∷ c ∷ cs

unfoldable pub sorted : List BatchRecord → List BatchRecord
unfolding place
sorted [] = []
sorted (b ∷ bs) = place b (sorted bs)

unfoldable pub batches : Disk → Store → Option (List BatchRecord)
unfolding loaded sorted
batches d s = if d.lists then some (sorted (loaded d s s)) else none

unfoldable pub open_ones : List BatchRecord → List BatchRecord
open_ones [] = []
open_ones (b ∷ bs) = let rest = open_ones bs in if is_terminal b.state then rest else b ∷ rest

unfoldable pub recoverable_batches : Disk → Store → Option (List BatchRecord)
unfolding batches open_ones
recoverable_batches d s = elim (batches d s) [ none ↦ none | some bs ↦ some (open_ones bs) ]
