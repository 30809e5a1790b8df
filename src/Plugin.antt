-- ===== src/Plugin.antt =====
-- crates/niuma-core/src/plugin: what the host keeps of a plugin.
pub mod RuntimeState
pub mod Manifest
pub mod Enablement
pub mod Switched
