-- ===== src/World.antt =====
-- What a handler acts on, and how: the state and the monad of the services.
pub mod State
pub mod Monad
pub mod Rules
pub mod Frame
pub mod Progress
pub mod Cache
pub mod Reads
pub mod Checks
pub mod Stays
