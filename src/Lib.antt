-- ===== src/Lib.antt =====
-- The Windows side of FlowType: a phone sends full-text snapshots of what is typed, and the app puts
-- them into the foreground window of the computer. These files model that path, and the protocol of
-- the file transfers beside it.
--
-- The parts, from the phone to the window:
--   windows/flowtype-core/src/protocol.rs   the messages and their `validate` (Protocol)
--   windows/flowtype-app/src/network_server.rs, main.rs   one connection's handlers (Network): the
--     state World holds the injector behind its dispatcher, the status line, the delivered frames and
--     the pending switch; `handle_client_message` and what it calls are the functions of
--     Network/Messages; Network/Connection is
--     the loop around it; Network/Limiter counts the connections of a phone
--   windows/flowtype-injector/src/main.rs   the active session and the last completed one (Injector):
--     State; `handle_request` is in Injector/Requests, its `BeginSession` in Injector/Session, and
--     `serve_connection` is the body of the accept loop with its teardown
--   windows/flowtype-core/src/tip.rs   the text service in the target process (Tip): its commands and
--     `TipSessionModel`, the contract of one session (Model)
--   windows/flowtype-tip/src/composition.rs, service.rs   the text service itself (Tip/Composition,
--     Tip/Service), with the answers of the text framework as a record Host; Tip/Refines sets it
--     against the contract
--   windows/flowtype-core/src/diff.rs, session.rs   the edit between two texts (Snapshots/Transitions)
--     and the state of an older session (Snapshots/Applied)
-- The injector's theorems (Injector/Lifecycle, Replies, Teardown) fill the interface Contract of
-- Network/Acks, on which the handlers' proofs stand; Network/Injected puts the two together, over
--   windows/flowtype-app/src/injector_dispatcher.rs   `InjectorDispatcher::request` with what it does where
--     the pipe breaks (Network/Dispatcher; proofs in Network/Unsettled and Broken). Replays and Progress stand on it too
--
-- The file transfers:
--   windows/flowtype-core/src/file_transfer.rs   FileTransfer: the states of a batch (States), the
--     messages and their `validate` (Messages; proofs in Wire, Tokens, Tickets, Entries), wire paths
--     (Segments, Paths, RelativePaths), names for Windows (Names, Reserved) and their
--     reservation (Reservations; proofs in Numbers, Collisions)
--   windows/flowtype-app/src/file_transfer_store.rs   FileStore: the batch records (Batches; lemmas in
--     Records and Listing) as a map from directory names, whose reads and writes may fail (Disk), the
--     manifest with its index (Manifests; proofs in Lines, ReadBack, RoundTrip), and the records of
--     progress (Progress, Fields) in their file (ProgressFile; proofs in Latest, LastWrite); the walk
--     over a manifest's entries (Walk; proofs in Visits, Terminal), and the targets that it gives them
--     (Targets; proofs in Distinct, Mapped, Preparing, Prepared)
--   windows/flowtype-app/src/file_transfer_server.rs   FileServer: the coordinator's state with cancel
--     and revoke (Coordinator), its messages (Steps, Offers: `handle_control`), the requests that are let in
--     and sequences of calls (Access), and the ranges of a download (Ranges). Changes, Effects and
--     Calls show what a call may change; Isolation, Exclusive and Opening stand on them, Opening with Tickets.
--     The upload of one entry is a Slot (Uploads: `receive_file`; Commits: `verify_entry`, the report of a
--     failure, and the entry's life as a list of Steps with crashes); Durable, Sound, Verified, Crashes and
--     Completed carry its invariant, Faithful and Assembled compare it with the phone's file, Recovered and Resumed complete it,
--     Reopened shows where it cannot be. Operations has `acquire_operation` and `poll_verification`, Sharing
--     their locks taken in any order; Leases, Disjoint, Alone and Shared are about these. Ingest takes in
--     the body of a manifest; Ingested, Framing and Sent are about that
--   windows/flowtype-app/src/update.rs   Update: versions, manifests, and `check_for_update`; the signed
--     manifest that is fetched and the file checks are parameters
--
-- What Windows, the clock and the text services answer during one request is a record Env, which the
-- theorems quantify over. Requests of the app meet the rounds of a list, in its order: the dispatcher lets
-- one request through at a time, and a round tells how the pipe and the injector behave in it. The websocket takes a number of frames, `link`, and then fails. A
-- `String` is the list of its code points, and UTF-8 and UTF-16 lengths are computed from these. i64 is
-- ℤ: the code compares these numbers and does not compute with them. usize subtraction wraps where the
-- source may go below zero. Loops are structural recursion, but for the search
-- of a free name: its fuel is the count of numbers that there are, and one more than the names in use
-- is enough. The lines of a manifest's body are taken with the count of the bytes as fuel, as each takes a
-- byte at least. A manifest's files take what is written to them. A crash keeps of a `.part` file, and of a
-- file in place, a number of its first bytes, those at least that were synced before or since the file got
-- its name; a `.part` file of which none was may be gone. Renaming and cutting off a file last, and a record
-- of progress that cannot be written is left as it was. The life of an entry in these theorems ends with a
-- cancellation.
--
-- Not modelled: JSON (serde), TLS and websockets, pipes, the bytes of a download, the headers and methods
-- of the data connection's routes, outbound offers, the files of the target mapping, the window
-- and focus calls of Windows, the user interface, the debug build's acknowledgement without an
-- injector, and the Android app. The wording of the status line is a data type of its cases.
pub mod Prelude
pub mod Tip
pub mod Injector
pub mod Protocol
pub mod Network
pub mod FileTransfer
pub mod FileStore
pub mod FileServer
pub mod Snapshots
pub mod Update
pub mod Tests
