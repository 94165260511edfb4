-- ===== src/Delivery.antt =====
-- app/delivery.go: how an event reaches the endpoints of its subscribers.
pub mod Termination
pub mod Choice
pub mod Outcome
pub mod Semaphores
pub mod Resume
pub mod Start
pub mod Recorded
pub mod Backoff
pub mod Filter
pub mod State
pub mod Attempt
pub mod Selection
pub mod Dispatch
pub mod Worker
pub mod Steps
pub mod Balance
pub mod Inflight
