-- ===== src/World.antt =====
-- What the handlers, the services and the bus act on: the data behind the repositories, the
-- sources of identifiers and times, the trackers, the log and the dead letters; and what they
-- take from outside the repository.
mod Event
mod State
pub mod Json
pub use Event.*
pub use State.*
