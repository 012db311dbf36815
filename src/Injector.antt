-- ===== src/Injector.antt =====
-- windows/flowtype-injector/src/main.rs, with the messages of windows/flowtype-core/src/ipc.rs: the
-- elevated service that holds the one active input session and drives the text service of the
-- target. What Windows and the text services answer while one request runs is an `Env`.
pub mod Ipc
pub mod Session
pub mod Requests
pub mod Lifecycle
pub mod Replies
pub mod Teardown
