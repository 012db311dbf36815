-- ===== src/FileServer/Coordinator.antt =====
-- windows/flowtype-app/src/file_transfer_server.rs: `FileTransferCoordinator`, its batches and its
-- tickets. A lock is never poisoned. The `.part` files that `cancel` removes are left out.
use flow_type.Prelude.{
  Text, codes, ℕ, ◌*◌, Bool, true, false, not, Option, none, some, List, [], ◌∷◌, text_eq,
  if◌then◌else◌, remove, retain,
}
use flow_type.FileTransfer.States.{BatchState, is_terminal}
use flow_type.FileTransfer.Messages.{TransferDirection}
use flow_type.FileStore.Batches.{
  BatchRecord, Disk, Store, load_batch, update_state, recoverable_batches,
}
use flow_type.FileServer.{Answer, answered, failed}

pub record TicketGrant : Type 0 where
  pub phone_id : Text
  pub token_hash : List ℕ
  pub expires_at_epoch_seconds : ℕ
  pub direction : TransferDirection

pub record Coordinator : Type 0 where
  pub store : Store
  pub tickets : List (Text × TicketGrant)

-- What a call finds around it: the file system, `unix_time()`, the token of 32 random bytes, and
-- whether `batch_starts` is free.
pub record Moment : Type 0 where
  pub disk : Disk
  pub now : ℕ
  pub token : Text
  pub starts_free : Bool

abbrev pub data_port : ℕ
data_port = 32188

abbrev pub max_data_connections : ℕ
max_data_connections = 8

abbrev pub ticket_lifetime : ℕ
ticket_lifetime = 24 * 60 * 60

abbrev pub to_computer : TransferDirection → Bool
to_computer TransferDirection.phone_to_computer = true
to_computer TransferDirection.computer_to_phone = false

abbrev pub same_direction : TransferDirection → TransferDirection → Bool
same_direction TransferDirection.phone_to_computer e = to_computer e
same_direction TransferDirection.computer_to_phone e = not (to_computer e)

abbrev pub with_store : Coordinator → Store → Coordinator
with_store c s = record c { store = s }

abbrev without_ticket : Text → Coordinator → Coordinator
without_ticket id c = record c { tickets = remove id c.tickets }

abbrev pub end_batch :
    Text → Coordinator → Option BatchRecord × Store → Answer (Unit {0}) × Coordinator
end_batch id c (none, s) = (failed (codes "cannot cancel batch"), with_store c s)
end_batch id c (some b, s) = (answered tt, without_ticket id (with_store c s))

unfoldable pub cancel : Moment → Text → Text → Coordinator → Answer (Unit {0}) × Coordinator
unfolding load_batch update_state is_terminal remove text_eq
cancel m id phone c = elim (load_batch m.disk id c.store) [
  | none ↦ (failed (codes "unknown batch"), c)
  | some b ↦
      if not (text_eq b.phone_id phone)
      then (failed (codes "batch owner mismatch"), c)
      else if is_terminal b.state
      then (answered tt, without_ticket id c)
      else end_batch id c (update_state m.disk id BatchState.canceled m.now c.store)
]

unfoldable pub cancel_all : Moment → Text → List BatchRecord → Coordinator → Coordinator
unfolding cancel text_eq
cancel_all m phone [] c = c
cancel_all m phone (b ∷ bs) c =
    let after = if text_eq b.phone_id phone then (cancel m b.batch_id phone c).1 else c in
    cancel_all m phone bs after

unfoldable pub revoke_phone : Moment → Text → Coordinator → Coordinator
unfolding retain recoverable_batches cancel_all text_eq
revoke_phone m phone c =
    let left = record c { tickets = retain (λ g. not (text_eq g.phone_id phone)) c.tickets } in
    elim (recoverable_batches m.disk c.store) [ none ↦ left | some bs ↦ cancel_all m phone bs left ]
