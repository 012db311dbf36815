-- ===== src/FileServer/Offers.antt =====
-- windows/flowtype-app/src/file_transfer_server.rs: the tickets that the coordinator issues, and what
-- it does with an offer, a decision and a cancellation of a phone. `digest` is SHA-256.
use flow_type.Prelude.{
  Text, codes, ℕ, not, ◌||◌, Option, none, some, List, text_eq, if◌then◌else◌, insert,
}
use flow_type.Protocol.{protocol_version}
use flow_type.FileTransfer.{file_transfer_version}
use flow_type.FileTransfer.States.{is_terminal}
use flow_type.FileTransfer.Messages.{
  FileOffer, FileDecision, FileTicket, FileClientMessage, FileServerMessage, validate_offer,
  validate_decision, validate_file_cancel,
}
use flow_type.FileStore.Batches.{BatchRecord, Store, Created, is_ok, new, load_batch, create_batch}
use flow_type.FileServer.Coordinator.{
  TicketGrant, Coordinator, Moment, data_port, ticket_lifetime, to_computer, with_store, cancel,
}
use flow_type.FileServer.{Answer, answered, failed}
use flow_type.FileServer.Ranges.{saturating_add}
use flow_type.FileServer.Steps.{busy, conflicts, none_for, some_for, accept}

module _ (digest : Text → List ℕ) where
  abbrev pub grant : Moment → Text → BatchRecord → TicketGrant
  grant m phone b = record {
    phone_id = phone;
    token_hash = digest m.token;
    expires_at_epoch_seconds = saturating_add m.now ticket_lifetime;
    direction = b.direction;
  }

  abbrev pub ticket : Moment → Text → FileTicket
  ticket m id = record {
    protocol_version = protocol_version;
    transfer_version = file_transfer_version;
    batch_id = id;
    data_port = data_port;
    token = m.token;
    expires_at_epoch_seconds = saturating_add m.now ticket_lifetime;
  }

  abbrev pub issued :
      Moment
      → Text
      → Text
      → Coordinator
      → Option BatchRecord
      → Answer FileServerMessage × Coordinator
  issued m id phone c none = (failed (codes "unknown batch"), c)
  issued m id phone c (some b) = (
    answered (FileServerMessage.file_ticket (ticket m id)),
    record c { tickets = insert id (grant m phone b) c.tickets },
  )

  unfoldable pub issue_ticket :
      Moment → Text → Text → Coordinator → Answer FileServerMessage × Coordinator
  unfolding load_batch
  issue_ticket m id phone c = issued m id phone c (load_batch m.disk id c.store)

  abbrev pub resumed :
      Moment
      → FileOffer
      → Text
      → Coordinator
      → Option BatchRecord
      → Answer FileServerMessage × Coordinator
  unfolding is_terminal text_eq issue_ticket
  resumed m o phone c none = (failed (codes "cannot resume batch"), c)
  resumed m o phone c (some b) =
      if conflicts o b
      then (failed (codes "batch id conflict"), c)
      else if is_terminal b.state
      then (answered (FileServerMessage.file_result b.batch_id b.state), c)
      else issue_ticket m o.batch_id phone c

  unfoldable pub resume :
      Moment → FileOffer → Text → Coordinator → Answer FileServerMessage × Coordinator
  unfolding load_batch issue_ticket is_terminal text_eq
  resume m o phone c = resumed m o phone c (load_batch m.disk o.batch_id c.store)

  abbrev pub after_create :
      Moment
      → FileOffer
      → Text
      → Coordinator
      → Created × Store
      → Answer FileServerMessage × Coordinator
  after_create m o phone c (Created.created, s) = issue_ticket m o.batch_id phone (with_store c s)
  after_create m o phone c (Created.already_exists, s) = resume m o phone (with_store c s)
  after_create m o phone c (Created.refused, s) =
      (failed (codes "cannot create batch"), with_store c s)

  abbrev pub started :
      Moment
      → FileOffer
      → Text
      → Coordinator
      → Option BatchRecord
      → Answer FileServerMessage × Coordinator
  started m o phone c none = (failed (codes "invalid batch"), c)
  started m o phone c (some b) = after_create m o phone c (create_batch m.disk b c.store)

  unfoldable pub start_batch :
      Moment → FileOffer → Text → Coordinator → Answer FileServerMessage × Coordinator
  unfolding new create_batch issue_ticket resume
  start_batch m o phone c =
      started m o phone c
        (new o.batch_id o.phone_id o.direction m.now o.file_count o.directory_count o.total_bytes)

  unfoldable pub accept_offer :
      Moment → FileOffer → Text → Coordinator → Answer FileServerMessage × Coordinator
  unfolding validate_offer busy start_batch
  accept_offer m o phone c =
      if not (is_ok (validate_offer o phone))
      then (failed (codes "invalid file offer"), c)
      else if not (to_computer o.direction)
      then (failed (codes "unexpected transfer direction"), c)
      else if not m.starts_free
      then (failed (codes "transfer_busy"), c)
      else elim (busy m o phone c.store) [
        | some code ↦ (failed code, c)
        | none ↦ start_batch m o phone c
      ]

  abbrev pub decided :
      Moment
      → Text
      → Text
      → Answer (Unit {0}) × Coordinator
      → Answer (Option FileServerMessage) × Coordinator
  decided m id phone (failed code, c) = (failed code, c)
  decided m id phone (answered _, c) = some_for (issue_ticket m id phone c)

  abbrev pub decided_on :
      Moment
      → FileDecision
      → Text
      → Coordinator
      → Option BatchRecord
      → Answer (Option FileServerMessage) × Coordinator
  unfolding text_eq is_terminal cancel accept issue_ticket
  decided_on m d phone c none = (failed (codes "unknown batch"), c)
  decided_on m d phone c (some b) =
      if not (text_eq b.phone_id phone) || to_computer b.direction
      then (failed (codes "batch owner mismatch"), c)
      else if is_terminal b.state
      then (answered (some (FileServerMessage.file_result b.batch_id b.state)), c)
      else if not d.accepted
      then none_for (cancel m d.batch_id phone c)
      else decided m d.batch_id phone (accept m d.batch_id b.state c)

  unfoldable pub accept_decision :
      Moment → FileDecision → Text → Coordinator → Answer (Option FileServerMessage) × Coordinator
  unfolding validate_decision load_batch issue_ticket cancel accept text_eq is_terminal
  accept_decision m d phone c =
      if not (is_ok (validate_decision d))
      then (failed (codes "invalid file decision"), c)
      else decided_on m d phone c (load_batch m.disk d.batch_id c.store)

  unfoldable pub handled :
      Moment
      → Option FileClientMessage
      → Text
      → Coordinator
      → Answer (Option FileServerMessage) × Coordinator
  unfolding accept_offer accept_decision cancel validate_file_cancel
  handled m none phone c = (failed (codes "invalid file request"), c)
  handled m (some (FileClientMessage.file_offer o)) phone c = some_for (accept_offer m o phone c)
  handled m (some (FileClientMessage.file_decision d)) phone c = accept_decision m d phone c
  handled m (some (FileClientMessage.file_cancel x)) phone c =
      if is_ok (validate_file_cancel x)
      then none_for (cancel m x.batch_id phone c)
      else (failed (codes "invalid file cancellation"), c)

  abbrev pub reply_to : Text → Answer (Option FileServerMessage) → Option FileServerMessage
  reply_to id (answered reply) = reply
  reply_to id (failed code) = some (FileServerMessage.file_error id code)

  -- The batch id is the one found in the JSON value, and the message is what serde reads from it.
  unfoldable pub handle_control :
      Moment
      → Text
      → Option FileClientMessage
      → Text
      → Coordinator
      → Option FileServerMessage × Coordinator
  unfolding handled
  handle_control m id message phone c =
      let (answer, after) = handled m message phone c in (reply_to id answer, after)
