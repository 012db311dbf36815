-- ===== src/Tests/Wire.antt =====
-- The theorems about the `validate` methods, at messages that they accept.
use flow_type.Prelude.{◌≡◌, ◌↔◌, none, some, [], ◌∷◌, codes}
use flow_type.FileTransfer.{Validated}
use flow_type.FileTransfer.Messages.{
  FileOffer, FileTicket, ManifestEntry, EntryKind, TransferDirection, validate_offer,
  validate_ticket, validate_entry,
}
use flow_type.FileTransfer.Wire.{IsOffer, validate_offer_iff}
use flow_type.FileTransfer.Tickets.{IsTicket, validate_ticket_iff}
use flow_type.FileTransfer.Entries.{IsEntry, validate_entry_iff}

abbrev offer : FileOffer
offer = record {
  protocol_version = 2;
  transfer_version = 2;
  phone_id = codes "phone";
  batch_id = codes "batch-1";
  direction = TransferDirection.phone_to_computer;
  file_count = 1;
  directory_count = 0;
  total_bytes = 42;
  roots = codes "docs" ∷ [];
}

validate_offer_iff_example :
    (validate_offer offer (codes "phone") ≡ Validated.ok tt) ↔ IsOffer (codes "phone") offer
validate_offer_iff_example = validate_offer_iff (codes "phone") offer

-- A ticket whose token is one equals sign.
abbrev padding_ticket : FileTicket
padding_ticket = record {
  protocol_version = 2;
  transfer_version = 2;
  batch_id = codes "batch-1";
  data_port = 4000;
  token = codes "=";
  expires_at_epoch_seconds = 2000;
}

validate_ticket_iff_example :
    (validate_ticket padding_ticket 1000 ≡ Validated.ok tt) ↔ IsTicket 1000 padding_ticket
validate_ticket_iff_example = validate_ticket_iff 1000 padding_ticket

abbrev entry : ManifestEntry
entry = record {
  ordinal = 0;
  entry_id = codes "e0";
  relative_path = codes "docs";
  kind = EntryKind.directory;
  size = 0;
  modified_at_epoch_millis = none;
  mime_type = none;
  sha256 = none;
}

validate_entry_iff_example :
    (validate_entry (λ e. some 90) entry ≡ Validated.ok tt) ↔ IsEntry (λ e. some 90) entry
validate_entry_iff_example = validate_entry_iff (λ e. some 90) entry
