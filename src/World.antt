-- ===== src/World.antt =====
-- What surrounds the provider, and the state that its process keeps.
mod Events
mod Outside
mod State
pub mod Counts
pub mod Transcript
pub mod Aside
pub use Events.*
pub use Outside.*
pub use State.*
