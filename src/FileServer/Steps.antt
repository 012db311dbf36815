-- ===== src/FileServer/Steps.antt =====
-- windows/flowtype-app/src/file_transfer_server.rs: the parts of `accept_offer` and `accept_decision`
-- that issue no ticket: whether a batch may start, and how an accepted one moves on.
use flow_type.Prelude.{
  Text, codes, Bool, not, ◌||◌, Option, none, some, ◌==◌, any, is_some, text_eq, if◌then◌else◌,
}
use flow_type.FileTransfer.States.{BatchState, same_state}
use flow_type.FileTransfer.Messages.{FileOffer, FileServerMessage}
use flow_type.FileStore.Batches.{BatchRecord, Store, load_batch, update_state, recoverable_batches}
use flow_type.FileServer.Coordinator.{Coordinator, Moment, same_direction, with_store}
use flow_type.FileServer.{Answer, answered, failed}

-- Why a new batch may not start, if so.
unfoldable pub busy : Moment → FileOffer → Text → Store → Option Text
unfolding load_batch recoverable_batches text_eq
busy m o phone s =
    if is_some (load_batch m.disk o.batch_id s) then none else elim (recoverable_batches m.disk s) [
      | none ↦ some (codes "batch_unavailable")
      | some bs ↦
          if any (λ b. text_eq b.phone_id phone) bs then some (codes "transfer_busy") else none
    ]

abbrev pub conflicts : FileOffer → BatchRecord → Bool
conflicts o b =
    not (text_eq b.phone_id o.phone_id)
    || not (same_direction b.direction o.direction)
    || not (b.file_count == o.file_count)
    || not (b.directory_count == o.directory_count)
    || not (b.total_bytes == o.total_bytes)

abbrev pub none_for :
    Answer (Unit {0}) × Coordinator → Answer (Option FileServerMessage) × Coordinator
none_for (failed code, c) = (failed code, c)
none_for (answered _, c) = (answered none, c)

abbrev pub some_for :
    Answer FileServerMessage × Coordinator → Answer (Option FileServerMessage) × Coordinator
some_for (failed code, c) = (failed code, c)
some_for (answered message, c) = (answered (some message), c)

abbrev pub moved_on :
    Text → Coordinator → Option BatchRecord × Store → Answer (Unit {0}) × Coordinator
moved_on code c (none, s) = (failed code, with_store c s)
moved_on code c (some b, s) = (answered tt, with_store c s)

-- A batch moves on where its state is one that the test takes.
unfoldable pub advance :
    Moment → Text → Bool → BatchState → Text → Coordinator → Answer (Unit {0}) × Coordinator
unfolding update_state
advance m id due next code c =
    if due then moved_on code c (update_state m.disk id next m.now c.store) else (answered tt, c)

abbrev pub advance_found :
    Moment
    → Text
    → (BatchState → Bool)
    → BatchState
    → Text
    → Coordinator
    → Option BatchRecord
    → Answer (Unit {0}) × Coordinator
advance_found m id due next code c none = (failed (codes "unknown batch"), c)
advance_found m id due next code c (some b) = advance m id (due b.state) next code c

abbrev pub advance_loaded :
    Moment
    → Text
    → (BatchState → Bool)
    → BatchState
    → Text
    → Answer (Unit {0}) × Coordinator
    → Answer (Unit {0}) × Coordinator
advance_loaded m id due next code (failed e, c) = (failed e, c)
advance_loaded m id due next code (answered _, c) =
    advance_found m id due next code c (load_batch m.disk id c.store)

abbrev pub to_prepare : BatchState → Bool
to_prepare state = same_state state BatchState.queued || same_state state BatchState.waiting_network

-- What follows where the phone accepts: queued, preparing, transferring.
unfoldable pub accept : Moment → Text → BatchState → Coordinator → Answer (Unit {0}) × Coordinator
unfolding advance load_batch
accept m id state c =
    advance_loaded m id (λ s. same_state s BatchState.preparing) BatchState.transferring
      (codes "cannot start batch")
      (advance_loaded m id to_prepare BatchState.preparing (codes "cannot prepare batch") (
        advance m id (same_state state BatchState.waiting_confirmation) BatchState.queued
          (codes "cannot accept batch") c))
