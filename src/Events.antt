-- ===== src/Events.antt =====
-- events/: the event repository and what the service and the handlers add to it.
pub mod Repository
pub mod Patch
pub mod Listing
pub mod Requests
pub mod Handlers
pub mod Ownership
pub mod Covers
