-- ===== src/Models.antt =====
-- crates/niuma-core/src/models.rs: the data that the core, the Local API and the hook helper share.
-- Serialization is `serde`'s and is not modelled. A `DateTime<Utc>` is the number of nanoseconds
-- since the Unix epoch (so dates before 1970 are left out), a `Duration` a number of nanoseconds.
mod Tool
mod Status
mod Interaction
mod Event
mod Stored
mod Decide
unfoldable pub use Tool.*
unfoldable pub use Status.*
unfoldable pub use Interaction.*
unfoldable pub use Event.*
unfoldable pub use Stored.*
unfoldable pub use Decide.*
