-- ===== src/Tests/Coordinators.antt =====
-- The theorems about the coordinator's batches and tickets, at one phone that offers and cancels.
use flow_type.Prelude.{
  Text, codes, ◌≡◌, refl, arith, true, false, none, some, List, [], ◌∷◌, ℕ, bytes, text_eq, utf8,
  get, remove,
}
use flow_type.FileTransfer.{file_transfer_version}
use flow_type.Protocol.{protocol_version}
use flow_type.FileTransfer.States.{BatchState, is_terminal}
use flow_type.FileTransfer.Messages.{
  TransferDirection, FileOffer, FileClientMessage, validate_offer, valid_identifier,
}
use flow_type.FileStore.Batches.{
  BatchRecord, Disk, on_disk, validate, new, loaded, sorted, batches, load_batch, create_batch,
  open_ones, recoverable_batches,
}
use flow_type.FileServer.Coordinator.{Coordinator, Moment}
use flow_type.FileServer.Steps.{busy}
use flow_type.FileServer.Offers.{
  ticket, issue_ticket, start_batch, accept_offer, handled, handle_control,
}
use flow_type.FileServer.Access.{Call, control, revoke, request, authorize, perform_all}
use flow_type.FileServer.Isolation.{perform_all-foreign, perform_all-ended}
use flow_type.FileServer.Exclusive.{IsExclusive, perform_all-IsExclusive}
use flow_type.FileServer.Opening.{handle_control-authorize}

abbrev sha : Text → List ℕ
sha token = bytes token

abbrev sound_disk : Disk
sound_disk = record {
  reads = λ id. true;
  creates = λ id. true;
  writes = λ id. true;
  removes = λ id. true;
  lists = true;
}

abbrev moment : Moment
moment = record { disk = sound_disk; now = 1000; token = codes "c2VjcmV0"; starts_free = true }

abbrev offer : FileOffer
offer = record {
  protocol_version = protocol_version;
  transfer_version = file_transfer_version;
  phone_id = codes "p";
  batch_id = codes "b";
  direction = TransferDirection.phone_to_computer;
  file_count = 1;
  directory_count = 0;
  total_bytes = 5;
  roots = [];
}

abbrev other_offer : FileOffer
other_offer = record offer { phone_id = codes "q"; batch_id = codes "c" }

abbrev nothing_yet : Coordinator
nothing_yet = record { store = []; tickets = [] }

abbrev accepted : BatchRecord
accepted = record {
  store_version = 1;
  batch_id = codes "b";
  phone_id = codes "p";
  direction = TransferDirection.phone_to_computer;
  state = BatchState.queued;
  created_at_epoch_seconds = 1000;
  updated_at_epoch_seconds = 1000;
  file_count = 1;
  directory_count = 0;
  total_bytes = 5;
  target_root = none;
}

abbrev with_one : Coordinator
with_one = record { store = (codes "b", some accepted) ∷ []; tickets = [] }

abbrev canceled_one : BatchRecord
canceled_one = record accepted { state = BatchState.canceled }

abbrev with_canceled : Coordinator
with_canceled = record { store = (codes "b", some canceled_one) ∷ []; tickets = [] }

abbrev offers : List Call
offers =
    control moment (codes "c") (some (FileClientMessage.file_offer other_offer)) (codes "q")
    ∷ request sound_disk 1001 (codes "b") (codes "x")
    ∷ revoke moment (codes "q")
    ∷ []

perform_all-foreign_example :
    on_disk (codes "b") (perform_all sha offers with_one).store ≡ some accepted
unfolding on_disk get
perform_all-foreign_example =
    perform_all-foreign sha offers with_one (codes "b") accepted refl
      ((λ e. ground (arith, e)), ((λ e. ground (arith, e)), ((λ e. ground (arith, e)), tt)))

perform_all-ended_example :
    ((b : BatchRecord) × (on_disk (codes "b") (perform_all sha offers with_canceled).store ≡ some b)
      × (b.state ≡ BatchState.canceled))
    × ((d : Disk) (now : ℕ) (bearer : Text)
        → (authorize sha d now (codes "b") bearer (perform_all sha offers with_canceled)).0 ≡ false)
unfolding on_disk get is_terminal
perform_all-ended_example =
    perform_all-ended sha offers with_canceled (codes "b") canceled_one refl refl

perform_all-IsExclusive_example : IsExclusive (perform_all sha offers nothing_yet).store
unfolding on_disk get
perform_all-IsExclusive_example =
    perform_all-IsExclusive sha offers nothing_yet
      ((λ id. refl), ((λ id. refl), ((λ id. refl), tt))) (λ i j a b p q e. ground (arith, p.found))

abbrev sent : Coordinator
sent =
    (handle_control sha moment (codes "b") (some (FileClientMessage.file_offer offer)) (codes "p")
      nothing_yet).1

handle_control-authorize_example :
    (authorize sha sound_disk 5000 (codes "b") (codes "c2VjcmV0") sent).0 ≡ true
unfolding handle_control handled accept_offer busy start_batch issue_ticket validate_offer
    valid_identifier new validate create_batch load_batch on_disk recoverable_batches batches loaded
    sorted open_ones get remove text_eq utf8
handle_control-authorize_example =
    handle_control-authorize sha moment (codes "b") (some (FileClientMessage.file_offer offer))
      (codes "p") nothing_yet (ticket sha moment (codes "b")) sound_disk 5000 refl (λ id. refl)
      (ground arith)
