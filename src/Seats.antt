-- ===== src/Seats.antt =====
-- The seats of the events: what the methods of the ticket and event repositories may do to the
-- tables (`Change`), what they keep (`Invariant`), and every history of calls (`History`).
pub mod Change
pub mod Methods
pub mod Invariant
pub mod Tickets
pub mod Events
pub mod History
pub mod Admission
pub mod CheckIn
pub mod Shown
pub mod Return
pub mod Moves
pub mod Recall
