-- ===== src/Server.antt =====
-- src/server.rs: the HTTP layer, from the bodies of the requests to the loop that owns the engine.
-- JSON, HTTP and the channels are third-party code; a request stands for its parsed body.
pub mod Errors
pub mod Params
pub mod Prepare
pub mod Outcomes
pub mod Acceptance
pub mod Admission
pub mod Generation
pub mod Streams
pub mod Protocol
pub mod Offsets
pub mod Waiters
pub mod Loop
pub mod Delivery
pub mod Rounds
pub mod Stall
pub mod Answers
pub mod Handlers
pub mod Replies
mod Examples
mod HandlerExamples
